-- ===== src/Client/Start.antt =====
-- The start of a connection: the client's thread, the hooks of its context, and the sender's wait.
use usbws_lws.Base.{
  ℕ, refl, Option, none, some, List, [], ◌∷◌, ℤ, pos, negsuc, ltb_ℤ, is_true, if◌then◌else◌,
}
use usbws_lws.Ctx.{ctx_destroy, ctx_stop, ctx_stopped}
use usbws_lws.Session.State.{Session}
use usbws_lws.Session.Callback.{Owner, Outcome, OutcomeSpares}
use usbws_lws.Client.State.{Client, Hook, start_session, stop_session}

-- What the compiler makes of the code: the `char` that an `int` becomes, and what a function that
-- ends without a `return` leaves to its caller.
pub record Compiled : Type 0 where
  pub to_char : ℤ → ℤ
  pub left_behind : ℤ

-- `__notify_start`, and the two functions that call it. Its lock and its signal are in
-- Client/Opening, where they are steps of their own.
unfoldable pub notify_start_val : Compiled → ℤ → Client → Client
notify_start_val k val c = record c { started = k.to_char val }

unfoldable pub notify_start : Compiled → Client → Client
unfolding notify_start_val
notify_start k c = notify_start_val k (pos 1) c

unfoldable pub notify_error : Compiled → Client → Client
unfolding notify_start_val
notify_error k c = notify_start_val k (negsuc 0) c

unfoldable pub client_start_session : Compiled → (wsi : ℕ) → Client → ℤ × Client
unfolding notify_start
client_start_session k wsi c = (k.left_behind, notify_start k (record c { wsi = some wsi }))

unfoldable pub client_stop_session : Compiled → Client → ℤ × Client
unfolding notify_error
client_stop_session k c =
    (k.left_behind, notify_error k (record c { wsi = none; ctx = (ctx_stop c.ctx).0 }))

-- `usbws_client_wait_start` over what is done to the client before each wake-up; `none` while it
-- waits.
unfoldable pub wait_start : List (Client → Client) → Client → Option (ℤ × Client)
wait_start [] c =
    if is_true c.started
    then some (if ltb_ℤ c.started (pos 0) then negsuc 0 else pos 0, c)
    else none
wait_start (w ∷ ws) c =
    let woken = wait_start ws (w c) in
    if is_true c.started
    then some (if ltb_ℤ c.started (pos 0) then negsuc 0 else pos 0, c)
    else woken

-- One call of `lws_service` in the client's thread: what it returns, and what the callbacks in it
-- do to the client.
pub record Turn : Type 0 where
  pub ret : ℤ
  pub callbacks : Client → Client

-- The end of the thread: the connection whose session it discontinues, and the client.
abbrev pub thread_end : Client → Option ℕ × Client
thread_end c = (c.wsi, record c { ctx = (ctx_destroy c.ctx).0 })

-- `usbws_client`; `none` while the thread goes on.
unfoldable pub client_thread : List Turn → Client → Option (Option ℕ × Client)
client_thread [] c = if ctx_stopped c.ctx then some (thread_end c) else none
client_thread (t ∷ ts) c =
    let rest = client_thread ts (t.callbacks c) in
    if ctx_stopped c.ctx
    then some (thread_end c)
    else if is_true t.ret
    then some (thread_end (t.callbacks c))
    else rest

unfoldable pub hook_call : Compiled → (wsi : ℕ) → Hook → Option Session → Client → Outcome Client
hook_call k wsi start_session s c =
    some ((client_start_session k wsi c).0, s, (client_start_session k wsi c).1)
hook_call k wsi stop_session s c =
    some ((client_stop_session k c).0, s, (client_stop_session k c).1)

pub hook_call-spares :
    (k : Compiled) (wsi : ℕ) (h : Hook) (s : Session) (c : Client)
    → OutcomeSpares s (hook_call k wsi h (some s) c)
unfolding hook_call
hook_call-spares k wsi start_session s c = record { same = refl }
hook_call-spares k wsi stop_session s c = record { same = refl }

-- The client as the owner of the context of its connection.
abbrev pub client_owner : Compiled → (wsi : ℕ) → Owner
client_owner k wsi = record {
  Hook = Hook;
  State = Client;
  ctx = λ c. c.ctx;
  call = λ h io s c. hook_call k wsi h s c;
  call-spares = λ h io s c. hook_call-spares k wsi h s c;
}
