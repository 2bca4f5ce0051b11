-- ===== src/Daemon/Hooks.antt =====
-- The two hooks of the daemon, which start and await the thread of a session.
use usbws_lws.Base.{
  Bool, ℕ, refl, Option, none, some, List, [], ◌∷◌, ◌++◌, ℤ, pos, negsuc, ◌==◌, is_true,
  if◌then◌else◌,
}
use usbws_lws.Ctx.{Ctx}
use usbws_lws.Session.State.{Session, Io}
use usbws_lws.Session.Callback.{Owner, Outcome, OutcomeSpares}

pub data Hook : Type 0 where
  start_session stop_session : Hook

-- A call of `pthread_join`: the thread, and `cont` of its session at that time.
pub record Join : Type 0 where
  pub tid : ℕ
  pub cont : Bool

-- The context, what the next call of `pthread_create` returns and leaves in `tid`, and the threads
-- that were joined, the last one last.
pub record Threads : Type 0 where
  pub service_ctx : Ctx Hook
  pub created : ℤ
  pub thread : ℕ
  pub joined : List Join

unfoldable pub service_start_session : Option Session → Threads → Outcome Threads
service_start_session none st = none
service_start_session (some s) st =
    some (if is_true st.created then negsuc 0 else pos 0, some (record s { tid = st.thread }), st)

-- `pthread_join` of a session's thread, if it has one.
unfoldable pub service_stop_session : Option Session → Threads → Outcome Threads
service_stop_session none st = none
service_stop_session (some s) st =
    let join : Join = record { tid = s.tid; cont = s.cont } in
    some (pos 0, some s, if s.tid == 0 then st else record st { joined = st.joined ++ join ∷ [] })

unfoldable pub hook_call : Hook → Io → Option Session → Threads → Outcome Threads
hook_call start_session io s st = service_start_session s st
hook_call stop_session io s st = service_stop_session s st

pub hook_call-spares :
    (h : Hook) (io : Io) (s : Session) (st : Threads) → OutcomeSpares s (hook_call h io (some s) st)
unfolding hook_call service_start_session service_stop_session
hook_call-spares start_session io s st = record { same = refl }
hook_call-spares stop_session io s st = record { same = refl }

-- The daemon as the owner of the context of its sessions.
abbrev pub daemon_owner : Owner
daemon_owner = record {
  Hook = Hook;
  State = Threads;
  ctx = λ st. st.service_ctx;
  call = hook_call;
  call-spares = hook_call-spares;
}
