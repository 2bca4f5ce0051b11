-- ===== src/Session/Monitor/Alone.antt =====
-- The steps of a call, taken without another thread between them, are the call as one step.
use usbws_lws.Base.{
  ℕ, ◌≡◌, inl, inr, refl, false, some, is_some, List, ℤ, leb_ℤ, ◌+ℤ◌, Bool-cases, if◌then◌else◌,
}
use usbws_lws.Condition.{perform_all, perform}
use usbws_lws.Session.State.{Session, discontinue}
use usbws_lws.Session.Write.{after_write}
use usbws_lws.Session.Monitor.{
  Job, discontinuing, sending, ending, Outbox, Monitor, monitor, flag_instrs, end_instrs,
  job_instrs, change,
}

-- What the sender reads of a session.
abbrev pub outbox_of : Session → Outbox
outbox_of s = record { cont = s.cont; pending = is_some s.send_buf; send_offset = s.send_offset }

-- What `__send_data` does behind a write that returned `sent`: the end of the message is reached, or
-- not.
abbrev pub write_job : ℤ → Session → Job
write_job sent s = if leb_ℤ s.send_len (s.send_offset +ℤ sent) then ending sent else sending sent

-- From a state with the lock free, the steps of `usbws_session_discontinue`, and those behind a
-- write in `__send_data`, alone come to an end with the lock free and leave what the sender reads as
-- the functions of the session do.
pub perform_all-job_instrs :
    (s : Session) (m : Monitor)
    → m.locked ≡ false
    → m.shared ≡ outbox_of s
    → ((n : Monitor) × (perform_all monitor (job_instrs discontinuing) m ≡ some n)
        × (n.locked ≡ false)
        × (n.shared ≡ outbox_of (discontinue s)))
      × ((chunk : List ℕ) (sent : ℤ)
          → (n : Monitor) × (perform_all monitor (job_instrs (write_job sent s)) m ≡ some n)
            × (n.locked ≡ false)
            × (n.shared ≡ outbox_of (after_write chunk sent s)))
unfolding perform change job_instrs flag_instrs end_instrs discontinue after_write
perform_all-job_instrs s m free same = (
  rw free (rw same (_, refl, refl, refl)),
  λ chunk sent. elim (Bool-cases (leb_ℤ s.send_len (s.send_offset +ℤ sent))) [
    | inl end ↦ rw end (rw free (rw same (_, refl, refl, refl)))
    | inr part ↦ rw part (_, refl, free, rw same refl)
  ],
)
