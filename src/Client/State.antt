-- ===== src/Client/State.antt =====
-- `struct usbws_client`, less the fields that nothing reads or writes, and its initial value.
use usbws_lws.Base.{ℕ, Bool, true, false, Option, none, [], ℤ, pos, negsuc}
use usbws_lws.Ctx.{Ctx, ctx_init}
use usbws_lws.Ctx.Protocols.{protocol_name}
use usbws_lws.Util.{Str}

pub data Hook : Type 0 where
  start_session stop_session : Hook

pub data Verification : Type 0 where
  verify_none verify_relaxed : Verification

-- `url_work` and `proxy` are addresses; the strings that the client points into the work copy of
-- the URL are values. `wsi` is the connection's address.
pub record Client : Type 0 where
  pub ctx : Ctx Hook
  pub url : Option Str
  pub url_work : Option ℕ
  pub proxy : Option ℕ
  pub method : Str
  pub host : Str
  pub tcp_port : ℤ
  pub path : Str
  pub tcp_port_s : Str
  pub ssl : Bool
  pub verification : Verification
  pub key : Str
  pub cert : Str
  pub tid : ℕ
  pub started : ℤ
  pub wsi : Option ℕ

-- `usbws_default_key` and `usbws_default_cert` are "cert/server.key" and "cert/server.crt".
pub record Defaults : Type 0 where
  pub default_key : Str
  pub default_cert : Str

unfoldable pub client_init : Defaults → Client
client_init d = record {
  ctx =
      ctx_init
        (record { cont = false; ping_pong = pos 0; context = none; start = none; stop = none })
        start_session stop_session;
  url = none;
  url_work = none;
  proxy = none;
  method = [];
  host = [];
  tcp_port = pos 0;
  path = [];
  tcp_port_s = [];
  ssl = false;
  verification = verify_none;
  key = d.default_key;
  cert = d.default_cert;
  tid = 0;
  started = pos 0;
  wsi = none;
}

-- `usbws_client_get_ssl`
unfoldable pub get_ssl : Client → ℤ
get_ssl c = elim c.ssl [
  | true ↦ elim c.verification [ verify_relaxed ↦ pos 1 | verify_none ↦ pos 2 ]
  | false ↦ pos 0
]

-- What `usbws_client_conn_init` fills in; the rest of `struct lws_client_connect_info` is zero.
pub record ConnectInfo : Type 0 where
  pub context : ℕ
  pub ssl_connection : ℤ
  pub address : Str
  pub host : Str
  pub origin : Str
  pub port : ℤ
  pub path : Option Str
  pub protocol : Option Str
  pub ietf_version_or_minus_one : ℤ

unfoldable pub conn_init : Client → (context : ℕ) → ConnectInfo
conn_init c context = record {
  context = context;
  ssl_connection = get_ssl c;
  address = c.host;
  host = c.host;
  origin = c.host;
  port = c.tcp_port;
  path = c.url;
  protocol = protocol_name;
  ietf_version_or_minus_one = negsuc 0;
}
