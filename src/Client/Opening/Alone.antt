-- ===== src/Client/Opening/Alone.antt =====
-- The steps of a callback, taken without another thread between them, are the callback as one step.
use usbws_lws.Base.{◌≡◌, refl, false, some}
use usbws_lws.Condition.{perform_all, perform}
use usbws_lws.Ctx.{ctx_stop}
use usbws_lws.Client.State.{Client}
use usbws_lws.Client.Start.{
  Compiled, notify_start_val, notify_start, notify_error, client_start_session, client_stop_session,
  thread_end,
}
use usbws_lws.Client.Opening.{
  Event, starting, stopping, interrupting, finishing, Opening, opening, notify_instrs, start_instrs,
  stop_instrs, event_instrs, deed,
}

-- The callback, the signal handler and the end of the thread, each as one step.
abbrev pub event_whole : Compiled → Event → Client → Client
event_whole k (starting wsi) c = (client_start_session k wsi c).1
event_whole k stopping c = (client_stop_session k c).1
event_whole k interrupting c = record c { ctx = (ctx_stop c.ctx).0 }
event_whole k finishing c = (thread_end c).1

-- From a state with the lock free, the steps of a callback alone come to an end with the lock free
-- and leave the client as the function of the callback does; and so do those of the signal handler
-- and of the thread's end.
pub perform_all-event_instrs :
    (k : Compiled) (e : Event) (m : Opening)
    → m.locked ≡ false
    → (n : Opening) × (perform_all (opening k) (event_instrs e) m ≡ some n)
      × (n.locked ≡ false)
      × (n.shared ≡ event_whole k e m.shared)
unfolding perform deed event_instrs start_instrs stop_instrs notify_instrs client_start_session
    client_stop_session notify_start notify_error notify_start_val
perform_all-event_instrs k (starting wsi) m free = rw free (_, refl, refl, refl)
perform_all-event_instrs k stopping m free = rw free (_, refl, refl, refl)
perform_all-event_instrs k interrupting m free = (m', refl, free, refl)
  where
    m' : Opening
    m' = record m { shared = record m.shared { ctx = (ctx_stop m.shared.ctx).0 } }
perform_all-event_instrs k finishing m free =
    (record m { shared = (thread_end m.shared).1 }, refl, free, refl)
