-- ===== src/Daemon/Joins.antt =====
-- The thread of a session is awaited when the connection closes.
use usbws_lws.Base.{
  ℕ, zero, suc, ◌≡◌, ◌≢◌, refl, sym, Bool, true, false, some, List, [], ◌∷◌, ◌++◌, arith, pos, ℤ,
  ◌∙◌,
}
use usbws_lws.Condition.{Reached, Runs}
use usbws_lws.Condition.Count.{AtRest}
use usbws_lws.Session.Arrival
use usbws_lws.Session.Arrival.{Inbox, Arrival, looping, arrival}
use usbws_lws.Session.Arrival.Settle.{receiver_ends}
use usbws_lws.Session.Monitor
use usbws_lws.Session.Monitor.{Outbox, Monitor, monitor}
use usbws_lws.Session.Monitor.Wakeup.{sender_returns}
use usbws_lws.Session.State.{Session, Io, log, slept, discontinue}
use usbws_lws.Session.Recv.{wait_recv_loop, wait_recv, session_close}
use usbws_lws.Session.Callback.{handle_session, on_event, session_stop, call_if_set}
use usbws_lws.Session.Callback.Reasons.{closed, needs_session}
use usbws_lws.Daemon.Hooks.{
  stop_session, Threads, Join, hook_call, service_stop_session, daemon_owner,
}

wait_recv_loop-tid :
    (retry : ℕ) (io : Io) (queued : Bool) (s : Session)
    → ((t : Session) → (io.asleep t).tid ≡ t.tid)
    → (wait_recv_loop retry io queued s).1.tid ≡ s.tid
unfolding wait_recv_loop
wait_recv_loop-tid zero io queued s keeps = refl
wait_recv_loop-tid (suc retry) io queued s keeps =
    ground
      (arith, keeps (log slept s), wait_recv_loop-tid retry io true (io.asleep (log slept s)) keeps)

-- When a connection closes whose session has a thread, the session is discontinued and its queue
-- empty, and the daemon has awaited that thread, with the session discontinued before, if no other
-- thread changes `tid` meanwhile.
pub closed_joins :
    (io : Io) (frame : List ℕ) (s : Session) (st : Threads)
    → ((t : Session) → (io.asleep t).tid ≡ t.tid)
    → st.service_ctx.stop ≡ some stop_session
    → s.tid ≢ 0
    → (t : Session) × (handle_session daemon_owner io closed frame (some s) st
        ≡ some (
          pos 0,
          some t,
          record st { joined = st.joined ++ record { tid = s.tid; cont = false } ∷ [] },
        ))
      × (t.cont ≡ false)
      × (t.recv_queue ≡ [])
unfolding needs_session handle_session on_event session_stop call_if_set hook_call
    service_stop_session wait_recv session_close discontinue
closed_joins io frame s st keeps hooked some_tid = (
  session_close (wait_recv io s),
  ground (arith, wait_recv_loop-tid 1 io false s keeps),
  refl,
  refl,
)

last_join : (js : List Join) (j k : Join) → js ++ j ∷ [] ≡ js ++ k ∷ [] → j.cont ≡ k.cont
last_join [] j k e = ground arith
last_join (i ∷ js) j k e = last_join js j k (ground arith)

-- When a connection closes whose session has a thread and no other thread changes `tid` meanwhile,
-- the daemon awaits that thread, at a time when the session is discontinued, and this wait is not in
-- vain: where `cont` is what it is at that time, and no call of another thread under way, a call of
-- `usbws_recv` of that thread, and one of `usbws_send` behind its send request, wherever it stands,
-- comes by its own steps alone to its end.
pub closed_join_ends :
    (io : Io) (frame : List ℕ) (s : Session) (st : Threads)
    → ((u : Session) → (io.asleep u).tid ≡ u.tid)
    → st.service_ctx.stop ≡ some stop_session
    → s.tid ≢ 0
    → (t : Session) (st' : Threads) (ret : ℤ) (j : Join)
    → handle_session daemon_owner io closed frame (some s) st ≡ some (ret, some t, st')
    → st'.joined ≡ st.joined ++ j ∷ []
    → (len : ℕ) (all : Bool) (b : Inbox) (plans : List (List Arrival.Job)) (m : Arrival)
    → b.total ≡ 0
    → b.dbuf ≡ []
    → Reached (arrival len all) b looping plans m
    → AtRest m.workers
    → m.shared.cont ≡ j.cont
    → (c : Outbox) (plans' : List (List Monitor.Job)) (k : Monitor)
    → Reached monitor c Monitor.entering plans' k
    → AtRest k.workers
    → k.shared.cont ≡ j.cont
    → (st'.joined ≡ st.joined ++ record { tid = s.tid; cont = false } ∷ [])
      × ((n : Arrival) × Runs (arrival len all) m n × ((r : ℤ) × (n.at ≡ Arrival.answered r)))
      × ((n : Monitor) × Runs monitor k n × ((r : ℤ) × (n.at ≡ Monitor.answered r)))
closed_join_ends io frame s st keeps hooked some_tid t st' ret j e last len all b plans m z d run
      rest on c plans' k run' rest' on' =
    let (u, run0, off, _) = closed_joins io frame s st keeps hooked some_tid in
    let joins : st'.joined ≡ st.joined ++ record { tid = s.tid; cont = false } ∷ [] =
      ground arith in
    let ended : j.cont ≡ false = last_join st.joined j _ (sym last ∙ joins) in
    let (n, sends, (r, at, _)) = sender_returns c plans' k run' rest' (ground arith) in
    (joins, receiver_ends len all b plans m z d run rest (on ∙ ended), (n, sends, (r, at)))
