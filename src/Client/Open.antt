-- ===== src/Client/Open.antt =====
-- `usbws_client_open`: a context, a connection, a thread that serves it, and the wait for its start.
use usbws_lws.Base.{
  ◌⊎◌, ℕ, ◌≡◌, Bool, true, false, Option, none, some, List, [], ◌∷◌, ◌++◌, arith, ℤ, is_true,
  if◌then◌else◌,
}
use usbws_lws.Ctx.{CreationInfo, set_info, ctx_create, ctx_destroy}
use usbws_lws.Client.State.{Client, ConnectInfo, conn_init}
use usbws_lws.Client.Start.{wait_start}

-- What the libraries answer during one call; `thread` is what `pthread_create` leaves in `tid`,
-- `meanwhile` what is done to the client before each wake-up.
pub record Answers : Type 0 where
  pub created : Option ℕ
  pub set_proxy_returns : ℤ
  pub connected : Option ℕ
  pub allocated : Option ℕ
  pub create_returns : ℤ
  pub thread : ℕ
  pub meanwhile : List (Client → Client)

pub data Act : Type 0 where
  context_created : CreationInfo → ℕ → Act
  context_destroyed : ℕ → Act
  proxy_set : ℕ → Act
  connected_to : ConnectInfo → Act
  sock_allocated sock_freed : ℕ → Act
  set_sigint thread_created : Act

-- What a call returns, none for NULL, with the client and what was done. `none` while it waits.
abbrev pub Opened : Type 0
Opened = Option (Option ℕ × Client × List Act)

abbrev pub destroy_acts : Option ℕ → List Act
destroy_acts none = []
destroy_acts (some c) = context_destroyed c ∷ []

-- `err_destroy_context` before the thread is created.
abbrev pub give_up : Client → List Act → Opened
give_up c acts =
    some
      (none, record c { ctx = (ctx_destroy c.ctx).0 }, acts ++ destroy_acts (ctx_destroy c.ctx).1)

unfoldable pub open_thread : Answers → (sock : ℕ) → Client → List Act → Opened
open_thread a sock c acts =
    if is_true a.create_returns
    then give_up (record c { tid = a.thread }) acts
    else elim (wait_start a.meanwhile (record c { tid = a.thread })) [
      | none ↦ none
      | some (ret, d) ↦
          if is_true ret
          then some (none, d, acts ++ thread_created ∷ sock_freed sock ∷ [])
          else some (some sock, d, acts ++ thread_created ∷ [])
    ]

unfoldable pub open_sock : Answers → (context : ℕ) → Client → List Act → Opened
open_sock a context c acts = elim a.connected [
  | none ↦ give_up c (acts ++ connected_to (conn_init c context) ∷ [])
  | some wsi ↦ elim a.allocated [
    | none ↦ give_up c (acts ++ connected_to (conn_init c context) ∷ [])
    | some sock ↦
        open_thread a sock c
          (acts ++ connected_to (conn_init c context) ∷ sock_allocated sock ∷ set_sigint ∷ [])
  ]
]

-- `no_listen` is libwebsockets' CONTEXT_PORT_NO_LISTEN.
unfoldable pub client_open : (no_listen : ℤ) → Answers → Client → Opened
client_open no_listen a c =
    let d = record c { ctx = ctx_create a.created c.ctx } in
    elim a.created [
      | none ↦ some (none, d, [])
      | some context ↦
          let made =
            context_created (set_info no_listen c.ssl (some c.key) (some c.cert)) context ∷ [] in
          elim c.proxy [
            | none ↦ open_sock a context d made
            | some proxy ↦
                if is_true a.set_proxy_returns
                then give_up d (made ++ proxy_set proxy ∷ [])
                else open_sock a context d (made ++ proxy_set proxy ∷ [])
          ]
    ]

-- `usbws_client_close`
unfoldable pub client_close : (sock : ℕ) → List Act
client_close sock = sock_freed sock ∷ []

-- What is held: a context, a socket, and whether the client's thread runs, which destroys the
-- context at its end.
pub record Held : Type 0 where
  pub context : Option ℕ
  pub sock : Option ℕ
  pub thread : Bool

abbrev pub replay : List Act → Held → Held
replay [] h = h
replay (context_created _ c ∷ acts) h = replay acts (record h { context = some c })
replay (context_destroyed _ ∷ acts) h = replay acts (record h { context = none })
replay (sock_allocated a ∷ acts) h = replay acts (record h { sock = some a })
replay (sock_freed _ ∷ acts) h = replay acts (record h { sock = none })
replay (thread_created ∷ acts) h = replay acts (record h { thread = true })
replay (_ ∷ acts) h = replay acts h

abbrev pub nothing : Held
nothing = record { context = none; sock = none; thread = false }

-- What a call of `usbws_client_open` leaves if `pthread_create` does not fail: no other socket
-- than the one that is returned, and a context only if the client's thread runs.
pub client_open_leaves :
    (no_listen : ℤ) (a : Answers) (c d : Client) (ret : Option ℕ) (acts : List Act)
    → is_true a.create_returns ≡ false
    → client_open no_listen a c ≡ some (ret, d, acts)
    → ((replay acts nothing).sock ≡ ret)
      × (((replay acts nothing).thread ≡ true) ⊎ ((replay acts nothing).context ≡ none))
unfolding client_open open_sock open_thread ctx_create ctx_destroy
client_open_leaves no_listen a c d ret acts created e = ground arith
