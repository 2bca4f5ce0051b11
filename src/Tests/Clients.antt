-- ===== src/Tests/Clients.antt =====
-- A client of `ws://h:81/`.
use usbws_lws.Base.{◌⊎◌, ◌≡◌, refl, ◌∷◌, [], List, true, false, none, some, pos, negsuc}
use usbws_lws.Ctx.{set_info, ctx_create}
use usbws_lws.Session.Callback.{handle_session}
use usbws_lws.Session.Callback.Reasons.{client_connection_error}
use usbws_lws.Client.Memory.{Memory}
use usbws_lws.Client.State.{Client, verify_none, start_session, stop_session, conn_init, get_ssl}
use usbws_lws.Util.{Str}
use usbws_lws.Client.Target.{Uri, Platform, set_target, set_proxy, client_free, str_ws}
use usbws_lws.Client.Start.{Compiled, client_owner, wait_start, client_thread}
use usbws_lws.Client.Open
use usbws_lws.Client.Open.{
  Answers, Act, client_open, client_open_leaves, open_sock, open_thread, replay,
}
use usbws_lws.Client.Wake.{connection_error_ends}
use usbws_lws.Client.Blocks.{set_target_frees, set_proxy_overflows}
use usbws_lws.Ctx.Protocols.{protocols}
use usbws_lws.Tests.Data.{calm}

abbrev uri : Uri
uri = record { method = str_ws; host = b'h' ∷ []; port = pos 81; path = [] }

abbrev parsing : Platform
parsing = record {
  parse_uri = λ text. some uri;
  print_int = λ z. b'8' ∷ b'1' ∷ [];
  memory_for_url = true;
  memory_for_tmp = true;
  memory_for_proxy = true;
}

abbrev failing : Platform
failing = record parsing { parse_uri = λ text. none }

abbrev text : Str
text = b'w' ∷ b's' ∷ []

abbrev pub client : Client
client = record {
  ctx = record {
    cont = true;
    ping_pong = pos 60;
    context = none;
    start = some start_session;
    stop = some stop_session;
  };
  url = none;
  url_work = none;
  proxy = none;
  method = [];
  host = [];
  tcp_port = pos 0;
  path = [];
  tcp_port_s = [];
  ssl = false;
  verification = verify_none;
  key = [];
  cert = [];
  tid = 0;
  started = pos 0;
  wsi = none;
}

abbrev memory : Memory
memory = record { blocks = []; fresh = 4 }

abbrev targeted : Client
targeted = record client {
  url = some text;
  url_work = some 4;
  method = str_ws;
  host = b'h' ∷ [];
  tcp_port = pos 81;
  tcp_port_s = b'8' ∷ b'1' ∷ [];
}

abbrev taken : Memory
taken = record { blocks = record { address = 4; bytes = 3 } ∷ []; fresh = 5 }

set_target-targeted : set_target parsing text none client memory ≡ some (pos 0, targeted, taken)
unfolding set_target set_proxy
set_target-targeted = refl

set_target_frees_example :
    (client_free targeted taken ≡ some (record taken { blocks = [] }))
    × ((u : Uri) × (parsing.parse_uri text ≡ some u)
        × (targeted.host ≡ u.host)
        × (targeted.tcp_port ≡ u.port)
        × (((u.method ≡ b'w' ∷ b's' ∷ []) × (targeted.ssl ≡ false))
            ⊎ ((u.method ≡ b'w' ∷ b's' ∷ b's' ∷ []) × (targeted.ssl ≡ true))))
set_target_frees_example =
    set_target_frees parsing text client targeted memory taken set_target-targeted

set_proxy_overflows_example : set_proxy parsing (some text) client memory ≡ none
set_proxy_overflows_example = set_proxy_overflows parsing text client memory refl

abbrev pub signed_char : Compiled
signed_char = record { to_char = λ z. z; left_behind = pos 0 }

connection_error_ends_example :
    (d e : Client) × (handle_session
        (client_owner signed_char 7)
        calm
        client_connection_error
        []
        none
        targeted
      ≡ some (pos 0, none, d))
    × (wait_start [] d ≡ some (negsuc 0, d))
    × (client_thread [] d ≡ some (none, e))
    × (e.ctx.context ≡ none)
connection_error_ends_example =
    connection_error_ends signed_char 7 calm [] none targeted [] [] refl refl

-- The connection is refused while the sender waits.
abbrev refused : Answers
refused = record {
  created = some 9;
  set_proxy_returns = pos 0;
  connected = some 7;
  allocated = some 6;
  create_returns = pos 0;
  thread = 5;
  meanwhile = (λ c. record c { started = negsuc 0 }) ∷ [];
}

abbrev after_refusal : Client
after_refusal = record targeted {
  ctx = record targeted.ctx { context = some 9 };
  tid = 5;
  started = negsuc 0;
}

abbrev opening : List Act
opening =
    Open.context_created
      (record {
        protocols = protocols;
        port = negsuc 0;
        ssl_private_key_filepath = none;
        ssl_cert_filepath = none;
      })
      9
    ∷ Open.connected_to (conn_init targeted 9)
    ∷ Open.sock_allocated 6
    ∷ Open.set_sigint
    ∷ Open.thread_created
    ∷ Open.sock_freed 6
    ∷ []

client_open-opening : client_open (negsuc 0) refused targeted ≡ some (none, after_refusal, opening)
unfolding client_open open_sock open_thread ctx_create set_info wait_start conn_init get_ssl
client_open-opening = refl

client_open_leaves_example :
    ((replay opening Open.nothing).sock ≡ none)
    × (((replay opening Open.nothing).thread ≡ true)
        ⊎ ((replay opening Open.nothing).context ≡ none))
client_open_leaves_example =
    client_open_leaves (negsuc 0) refused targeted after_refusal none opening refl
      client_open-opening
