-- ===== src/Tests/Commands.antt =====
-- Runs of the commands of `usbws`.
use usbws_lws.Base.{◌++◌, ◌≡◌, inl, refl, ◌∷◌, [], List, true, false, none, some, pos, negsuc}
use usbws_lws.Util.{Libc, Str}
use usbws_lws.Commands.Run.{World, run_command, returned, usbws}
use usbws_lws.Commands.Run.Status.{Ends, usbws-Ends}
use usbws_lws.Client.Memory.{Memory}
use usbws_lws.Client.State.{Client, Defaults, client_init}
use usbws_lws.Client.Target.{Uri, Platform, str_ws}
use usbws_lws.Commands.Dispatch.{connect, list, commands, usbws_main}
use usbws_lws.Commands.Dispatch
use usbws_lws.Commands.Calls.{device_calls, call_device, log_calls, unbind_device}
use usbws_lws.Commands.Loop.{options_loop}
use usbws_lws.Commands.Bind.{BindOpt, BindLibrary, bind_kind}
use usbws_lws.Commands.Listing.{
  ListOpt, ListOptions, no_list_options, list_option, list_required, list_options,
}
use usbws_lws.Commands.Serves.{bind_kind_serves}
use usbws_lws.Commands.Options.{
  ConnectOpt, ConnectOptions, no_options, connect_option, connect_options, debug, url, bus_id,
}
use usbws_lws.Commands.Connect.{Device, connect_kind, has_device}
use usbws_lws.Commands.Outcome.{connect_kind_serves, connect_kind_frees_twice}

abbrev numbers : Libc
numbers = record { strtol = λ base digits. pos 3; to_int = λ z. z; to_unsigned_long = λ z. 3 }

abbrev files : Defaults
files = record { default_key = b'k' ∷ []; default_cert = b'c' ∷ [] }

abbrev host_uri : Uri
host_uri = record { method = str_ws; host = b'h' ∷ []; port = pos 81; path = [] }

abbrev reading : Platform
reading = record {
  parse_uri = λ text. some host_uri;
  print_int = λ z. b'8' ∷ b'1' ∷ [];
  memory_for_url = true;
  memory_for_tmp = true;
  memory_for_proxy = true;
}

abbrev device : Device
device cmd host port busid c = (pos 0, c)

abbrev given : List ConnectOpt
given = debug ∷ url (b'w' ∷ []) ∷ bus_id (b'1' ∷ []) ∷ []

abbrev parsed : ConnectOptions
parsed = record no_options { debug = true; url = some (b'w' ∷ []); busid = some (b'1' ∷ []) }

abbrev empty : Memory
empty = record { blocks = []; fresh = 4 }

given-parsed :
    connect_options true numbers given (no_options, client_init files)
    ≡ (pos 0, parsed, client_init files)
unfolding connect_options connect_option
given-parsed = refl

serves_connect : has_device true connect ≡ true
unfolding has_device
serves_connect = refl

connect_kind_serves_example :
    (d : Client) × (d.host ≡ b'h' ∷ [])
    × (connect_kind true numbers files reading device given connect empty
        ≡ some (
          pos 0,
          record { blocks = []; fresh = 5 },
          log_calls true true 0
              ++ call_device connect (b'h' ∷ []) d.tcp_port_s (some (b'1' ∷ [])) ∷ [],
        ))
connect_kind_serves_example =
    connect_kind_serves true numbers files reading device given connect empty parsed
      (client_init files) given-parsed refl (b'w' ∷ []) refl refl host_uri false
      (λ cmd host port busid c. (refl, refl)) refl refl refl serves_connect

connect_kind_frees_twice_example :
    connect_kind true numbers files
      (record reading { parse_uri = λ text. none })
      device
      given
      connect
      empty
    ≡ none
connect_kind_frees_twice_example =
    connect_kind_frees_twice true numbers files (record reading { parse_uri = λ text. none }) device
      given connect empty parsed (client_init files) given-parsed refl (b'w' ∷ []) refl refl tt
      (inl refl)

-- A bus id, and another that prevails.
abbrev binding : List BindOpt
binding = BindOpt.bus_id (b'1' ∷ []) ∷ BindOpt.debug ∷ BindOpt.bus_id (b'2' ∷ []) ∷ []

abbrev bind_library : BindLibrary
bind_library = record { bind_returns = λ busid. pos 0; unbind_returns = λ busid. negsuc 0 }

bind_kind_serves_example :
    let (ret, calls) = bind_kind true numbers bind_library binding Dispatch.unbind in
    (ret ≡ negsuc 0) × (device_calls calls ≡ unbind_device (some (b'2' ∷ [])) ∷ [])
bind_kind_serves_example = bind_kind_serves true numbers bind_library binding Dispatch.unbind refl

abbrev local_options : ListOptions
local_options = record no_list_options { local = true }

local-parsed :
    list_options true numbers (ListOpt.local ∷ []) (no_list_options, client_init files)
    ≡ (pos 0, (local_options, client_init files))
unfolding list_options options_loop list_option list_required
local-parsed = refl

abbrev world : World
world = record {
  with_libusb = false;
  libc = numbers;
  defaults = files;
  platform = reading;
  device = device;
  list_library = record {
    local_returns = λ parsable. pos 0;
    importable_returns = λ host tcp_port c. (pos 0, c);
  };
  bind_library = bind_library;
  detach_returns = λ p. pos 0;
  port_returns = pos 0;
  connect_opts = [];
  list_opts = [];
  bind_opts = binding;
  detach_opts = [];
  port_opts = [];
}

abbrev unbind_line : List Str
unbind_line = [] ∷ (b'u' ∷ b'n' ∷ b'b' ∷ b'i' ∷ b'n' ∷ b'd' ∷ []) ∷ []

usbws-Ends_example :
    Ends world
      (usbws_main false (λ cmd. returned (run_command world empty cmd)) unbind_line).1
      (usbws world empty unbind_line)
usbws-Ends_example = usbws-Ends world empty unbind_line
