-- ===== src/Options/Help.antt =====
-- The help texts: what each call of `printf` prints.
use Prim.Native.String.{String, ◌++◌ as append}
use usbws_lws.Base.{Bool, List, [], ◌∷◌, ◌++◌}
use usbws_lws.Options.{Program, usbwsd, connect_kind, list, bind_kind, detach, port, ifdef, ifndef}

-- `printf` of a format with one place, of the argument as text.
abbrev with_arg : (before arg after : String) → String
with_arg before arg after = append before (append arg after)

-- `usbwsd.c` is built with USBWS_APP or USBWS_DEV, or with neither.
pub data Build : Type 0 where
  app dev neither : Build

abbrev pub command : Build → String
command app = "usbwsa"
command dev = "usbwsd"
command neither = "?"

abbrev default_key : String
default_key = "cert/server.key"

abbrev default_cert : String
default_cert = "cert/server.crt"

abbrev default_path : String
default_path = "usbip"

abbrev default_ping_pong : String
default_ping_pong = "60"

abbrev debug_help : List String
debug_help = "\t-d, --debug\n" ∷ "\t\tPrint debugging information.\n" ∷ []

abbrev flags_help : Bool → List String
flags_help b =
    ifdef b ("\t-fHEX, --debug-flags HEX\n" ∷ "\t\tPrint flags for stub debugging.\n" ∷ [])

abbrev interval_help : List String
interval_help =
    "\t-iSEC, --interval SEC\n"
    ∷ "\t\tNo communication period to send ping-pong in second.\n"
    ∷ with_arg "\t\tDefault is " default_ping_pong ". 0 denotes not to use ping pong\n"
    ∷ []

abbrev key_help : List String
key_help =
    "\t-kKEY-FILE, --key KEY-FILE\n"
    ∷ with_arg "\t\tPrivate key file. Default is " default_key ".\n"
    ∷ "\t-cCERT-FILE, --cert CERT-FILE\n"
    ∷ with_arg "\t\tCertificate file. Default is " default_cert ".\n"
    ∷ []

abbrev url_help : List String
url_help =
    "\t-uURL, --url URL\n" ∷ "\t\tURL to target USB/IP daemon.\n"
    ∷ "\t-xPROXY-URL, --proxy PROXY-URL\n" ∷ "\t\tProxy URL if used.\n" ∷ []

abbrev bus_id_help : List String
bus_id_help = "\t-bBUS-ID, --bus-id BUS-ID\n" ∷ "\t\tBus ID of a device to export.\n" ∷ []

abbrev verification_help : List String
verification_help =
    "\t-VMODE, --verification MODE\n" ∷ "\t\tVerification mode - none(default) or relaxed.\n" ∷ []

abbrev help_help : List String
help_help = "\t-h, --help\n" ∷ "\t\tPrint this help.\n" ∷ []

unfoldable pub usbwsd_help : Build → (with_libusb : Bool) → List String
usbwsd_help built b =
    append (command built) "\n"
    ∷ "\t-D, --daemon\n"
    ∷ "\t\tRun as a daemon process.\n"
    ∷ (debug_help
        ++ flags_help b
        ++ ("\t-PFILE, --pid FILE\n"
            ∷ "\t\tWrite process id to FILE.\n"
            ∷ "\t-tPORT, --tcp-port PORT\n"
            ∷ "\t\tListen on TCP/IP port PORT.\n"
            ∷ "\t-pPATH, --path PATH\n"
            ∷ with_arg "\t\tPath to serve USB/IP. Default is " default_path ".\n"
            ∷ [])
        ++ interval_help
        ++ ("\t-s, --ssl\n" ∷ "\t\tEnable SSL.\n" ∷ [])
        ++ key_help
        ++ help_help
        ++ ("\t-v, --version\n" ∷ "\t\tShow version.\n" ∷ "\n" ∷ []))

unfoldable pub connect_kind_help : (with_libusb : Bool) → List String
connect_kind_help b =
    debug_help
    ++ flags_help b
    ++ url_help
    ++ bus_id_help
    ++ interval_help
    ++ key_help
    ++ verification_help
    ++ help_help
    ++ "\n" ∷ []

unfoldable pub list_help : (with_libusb : Bool) → List String
list_help b =
    debug_help
    ++ flags_help b
    ++ ("\t-l, --local\n" ∷ "\t\tList local devices.\n" ∷ [])
    ++ ifndef b (url_help ++ key_help ++ verification_help)
    ++ ("\t-P, --parsable\n" ∷ "\t\tParsable format.\n" ∷ [])
    ++ help_help
    ++ "\n" ∷ []

unfoldable pub bind_kind_help : (with_libusb : Bool) → List String
bind_kind_help b = debug_help ++ flags_help b ++ bus_id_help ++ help_help ++ "\n" ∷ []

unfoldable pub detach_help : (with_libusb : Bool) → List String
detach_help b =
    debug_help
    ++ flags_help b
    ++ ("\t-pPORT, --port PORT\n" ∷ "\t\tPort number to detach.\n" ∷ [])
    ++ help_help
    ++ "\n" ∷ []

unfoldable pub port_help : (with_libusb : Bool) → List String
port_help b = debug_help ++ flags_help b ++ help_help ++ "\n" ∷ []

unfoldable pub help : Build → (with_libusb : Bool) → Program → List String
unfolding usbwsd_help connect_kind_help list_help bind_kind_help detach_help port_help
help built b usbwsd = usbwsd_help built b
help built b connect_kind = connect_kind_help b
help built b list = list_help b
help built b bind_kind = bind_kind_help b
help built b detach = detach_help b
help built b port = port_help b

-- `__help` of src/usbws.c, which ends in the middle of a line.
unfoldable pub usage : (with_libusb : Bool) → List String
usage b =
    ifdef b
      ("usbws <connect | disconnect | list | bind | unbind\n" ∷ "       | help | version>\n" ∷ [])
    ++ ifndef b (
        "usbws <connect | disconnect | attach | detach\n"
        ∷ "       | list | bind | unbind | help | version>\n" ∷ [])
    ++ "      [ options ]\t" ∷ []
