-- ===== src/Commands/Outcome.antt =====
-- How `usbws connect` and its fellows end.
use usbws_lws.Base.{
  suc, ◌≡◌, ◌⊎◌, refl, Bool, true, false, Option, none, some, List, [], ◌∷◌, ◌++◌, arith, pos,
  negsuc, is_true, if◌then◌else◌,
}
use usbws_lws.Util.{Str, Libc}
use usbws_lws.Client.Memory.{Memory}
use usbws_lws.Client.State.{Client, Defaults, client_init}
use usbws_lws.Client.Target.{Uri, Platform, client_free, set_target, set_proxy, ssl_of, with_uri}
use usbws_lws.Client.Blocks.{AllBelow, set_target_frees_twice}
use usbws_lws.Commands.Dispatch.{Command}
use usbws_lws.Commands.Calls.{LibCall, call_device, log_calls}
use usbws_lws.Commands.Options.{ConnectOpt, ConnectOptions, no_options, connect_options}
use usbws_lws.Commands.Connect.{Device, has_device, run_device, run_target, connect_kind}

-- The call of the USB/IP library leaves the client's two blocks as they are.
abbrev pub KeepsBlocks : Device → Type 0
KeepsBlocks device =
    (cmd : Command) (host port : Str) (busid : Option Str) (c : Client)
    → let d = (device cmd host port busid c).1 in (d.url_work ≡ c.url_work) × (d.proxy ≡ c.proxy)

module _ (with_libusb : Bool) (p : Platform) (device : Device) (kept : KeepsBlocks device)
    (cmd : Command) (o : ConnectOptions) (m : Memory) (calls : List LibCall) where
  -- The client behind a target that was set.
  abbrev targeted : Client → Str → Uri → Bool → Client
  targeted c url uri ssl =
      record (with_uri p uri (record c { url = some url; url_work = some m.fresh })) {
        ssl = ssl;
        proxy = none;
      }

  run_target_lem :
      (url : Str) (uri : Uri) (ssl : Bool) (c : Client)
      → p.memory_for_url ≡ true
      → p.parse_uri url ≡ some uri
      → ssl_of uri.method ≡ some ssl
      → o.url ≡ some url
      → o.proxy ≡ none
      → has_device with_libusb cmd ≡ true
      → let d = targeted c url uri ssl in
        run_target with_libusb p device cmd o c m calls
        ≡ some (
          if is_true (device cmd d.host d.tcp_port_s o.busid d).0 then negsuc 0 else pos 0,
          record m { fresh = suc m.fresh },
          calls ++ call_device cmd d.host d.tcp_port_s o.busid ∷ [],
        )
  unfolding run_target set_target set_proxy run_device client_free
  run_target_lem url uri ssl c memory good supported given alone served = ground (
    arith,
    kept cmd (targeted c url uri ssl).host (targeted c url uri ssl).tcp_port_s o.busid
        (targeted c url uri ssl),
  )

module _ (with_libusb : Bool) (l : Libc) (defaults : Defaults) (p : Platform) (device : Device)
    (opts : List ConnectOpt) (cmd : Command) (m : Memory) (o : ConnectOptions) (c : Client)
    (parsed : connect_options with_libusb l opts (no_options, client_init defaults) ≡ (pos 0, o, c))
    (plain : o.help ≡ false) (url : Str) (given : o.url ≡ some url)
    (memory : p.memory_for_url ≡ true) where
  -- Where the options are accepted without help and without a proxy, there is memory for the copy of
  -- the URL, the URL can be parsed and has a supported method, the build has the command, and the
  -- USB/IP library keeps the client's blocks: the command makes one call of the library, the one for
  -- it, with the URL's host and the bus id, after those that set the log; it returns 0 if that call
  -- does, and -1 otherwise, and has given back every block it took.
  pub connect_kind_serves :
      (uri : Uri) (ssl : Bool)
      → KeepsBlocks device
      → p.parse_uri url ≡ some uri
      → ssl_of uri.method ≡ some ssl
      → o.proxy ≡ none
      → has_device with_libusb cmd ≡ true
      → (d : Client) × (d.host ≡ uri.host)
        × (connect_kind with_libusb l defaults p device opts cmd m
            ≡ some (
              if is_true (device cmd uri.host d.tcp_port_s o.busid d).0 then negsuc 0 else pos 0,
              record m { fresh = suc m.fresh },
              log_calls with_libusb o.debug o.flags
                  ++ call_device cmd uri.host d.tcp_port_s o.busid ∷ [],
            ))
  unfolding connect_kind
  connect_kind_serves uri ssl kept good supported alone served =
      let logged = log_calls with_libusb o.debug o.flags in
      (
        targeted with_libusb p device kept cmd o m logged c url uri ssl,
        refl,
        rw parsed (
            ground (
              arith,
              run_target_lem with_libusb p device kept cmd o m logged url uri ssl c memory good
                  supported given alone served,
            )),
      )

  -- Where the options are accepted without help, and there is memory for the copy of the URL, but
  -- the URL cannot be parsed or has a method that is not supported, the command frees the copy
  -- twice.
  pub connect_kind_frees_twice :
      AllBelow m.fresh m.blocks
      → ((p.parse_uri url ≡ none)
          ⊎ ((uri : Uri) × (p.parse_uri url ≡ some uri) × (ssl_of uri.method ≡ none)))
      → connect_kind with_libusb l defaults p device opts cmd m ≡ none
  unfolding connect_kind run_target
  connect_kind_frees_twice below bad =
      let (d, n, failed, twice) = set_target_frees_twice p url o.proxy c m memory below bad in
      rw parsed (ground arith)
