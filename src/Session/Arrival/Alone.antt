-- ===== src/Session/Arrival/Alone.antt =====
-- The steps of a call, taken without another thread between them, are the call as one step.
use usbws_lws.Base.{◌≡◌, refl, true, false, some, Bool, ℕ}
use usbws_lws.Session.State.{Session, Io, discontinue}
use usbws_lws.Session.Recv.{handle_recv, session_close}
use usbws_lws.Condition.{perform_all, perform}
use usbws_lws.Session.Arrival.{
  Job, handling, looking, discontinuing, closing, Arrival, arrival, change, job_instrs,
  discontinue_instrs, close_instrs, handle_recv_instrs, wait_recv_instrs,
}

-- The call as one step; a test of the queue changes nothing.
abbrev pub job_whole : Io → Job → Session → Session
job_whole io (handling frame) s = (handle_recv io frame s).1
job_whole io looking s = s
job_whole io discontinuing s = discontinue s
job_whole io closing s = session_close s

-- From a state with the lock free, the steps of a call of another thread alone come to an end with
-- the lock free and leave the flag and the queue as the function of the session does, for a binary
-- frame that finds memory.
pub perform_all-job_instrs :
    (len : ℕ) (all : Bool) (io : Io) (j : Job) (s : Session) (m : Arrival)
    → io.frame_is_binary ≡ true
    → io.memory_left ≡ true
    → m.locked ≡ false
    → m.shared.cont ≡ s.cont
    → m.shared.queue ≡ s.recv_queue
    → (n : Arrival) × (perform_all (arrival len all) (job_instrs j) m ≡ some n)
      × (n.locked ≡ false)
      × (n.shared.cont ≡ (job_whole io j s).cont)
      × (n.shared.queue ≡ (job_whole io j s).recv_queue)
unfolding perform change job_instrs discontinue_instrs close_instrs handle_recv_instrs
    wait_recv_instrs handle_recv session_close discontinue
perform_all-job_instrs len all io (handling frame) s m binary memory free on queued =
    rw free (_, refl, refl, rw binary (rw memory on), rw queued (rw binary (rw memory refl)))
perform_all-job_instrs len all io looking s m binary memory free on queued =
    rw free (_, refl, refl, on, queued)
perform_all-job_instrs len all io discontinuing s m binary memory free on queued =
    rw free (_, refl, refl, refl, queued)
perform_all-job_instrs len all io closing s m binary memory free on queued =
    rw free (_, refl, refl, refl, refl)
