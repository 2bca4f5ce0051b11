-- ===== src/Session/Intake.antt =====
-- The bytes that come in for a session: what arrives, what is read, and what is still queued.
use usbws_lws.Base.{
  ℕ, ◌+◌, ◌-◌, ◌≤◌, ◌≡◌, refl, subst, true, false, ◌&&◌, some, List, [], ◌++◌, arith, ℤ, if_intro,
}
use usbws_lws.Session.State.{Session, Io}
use usbws_lws.Session.Recv.{recv_pass, after_pass}
use usbws_lws.Session.Recv.Account.{size, avail, recv_pass-Accounts}
use usbws_lws.Session.Callback.{Owner, handle_session}
use usbws_lws.Session.Callback.Post.{Post, Post-map}
use usbws_lws.Session.Callback.History.{establishes}
use usbws_lws.Session.Callback.Reasons.{Reason, needs_session}
use usbws_lws.Session.Recv.Offset.{
  Inside, size-append, avail-append, Inside-append, recv_pass-Inside, recv_pass-grows,
}
use usbws_lws.Session.Callback.Queued.{
  queued_by, closes, Queued, Fresh, on_event-Queued, on_event-Fresh,
}

-- The states that a connection comes to before it is closed, with the frames that callbacks have
-- queued and the number of bytes that rounds of `usbws_recv` have read. Between them other threads
-- may do what leaves the queue alone.
pub data Intake (o : Owner) : List (List ℕ) → ℕ → Session → o.State → Type 0 where
  opened :
      (io : Io) (reason : Reason) (frame : List ℕ) (ret : ℤ) (old : Session) (st : o.State)
      {t : Session} {st' : o.State}
      → establishes reason ≡ true
      → handle_session o io reason frame (some old) st ≡ some (ret, some t, st')
      → Intake o [] 0 t st'
  called :
      (io : Io) (reason : Reason) (frame : List ℕ) (ret : ℤ) (s : Session) (st : o.State)
      {arrived : List (List ℕ)} {taken : ℕ} {t : Session} {st' : o.State}
      → Intake o arrived taken s st
      → establishes reason ≡ false
      → closes reason ≡ false
      → handle_session o io reason frame (some s) st ≡ some (ret, some t, st')
      → Intake o (arrived ++ queued_by io reason frame) taken t st'
  read :
      (len total : ℕ) (dbuf : List ℕ) {arrived : List (List ℕ)} {taken : ℕ} {s : Session}
      {st : o.State}
      → Intake o arrived taken s st
      → Intake o arrived
          (taken + ((recv_pass len s.recv_queue s.recv_offset total dbuf).total - total))
          (after_pass (recv_pass len s.recv_queue s.recv_offset total dbuf) s)
          st
  meanwhile :
      (f : Session → Session)
      → ((u : Session) → ((f u).recv_queue ≡ u.recv_queue) × ((f u).recv_offset ≡ u.recv_offset))
      → {arrived : List (List ℕ)} {taken : ℕ} {s : Session} {st : o.State}
      → Intake o arrived taken s st
      → Intake o arrived taken (f s) st

-- What has been read and what can still be read make up what has arrived; the offset lies in the
-- first entry of the queue, at 0 without one; and it counts bytes that have been read.
pub record Balanced (arrived : List (List ℕ)) (taken : ℕ) (s : Session) : Type 0 where
  pub balance : taken + avail s.recv_queue s.recv_offset ≡ size arrived
  pub inside : Inside s.recv_queue s.recv_offset
  pub counted : s.recv_offset ≤ taken

Fresh-Balanced : (t : Session) → Fresh t → Balanced [] 0 t
Fresh-Balanced t (queue, offset) =
    rw (queue, offset) (record { balance = refl; inside = refl; counted = omega arith })

Queued-Balanced :
    (arrived more : List (List ℕ)) (taken : ℕ) (s t : Session)
    → Balanced arrived taken s
    → Queued more s t
    → Balanced (arrived ++ more) taken t
Queued-Balanced arrived more taken s t b (queue, offset) =
    rw (queue, offset)
      (record {
        balance = omega (
          arith,
          b.balance,
          size-append arrived more,
          avail-append s.recv_queue more s.recv_offset b.inside,
        );
        inside = Inside-append s.recv_queue more s.recv_offset b.inside;
        counted = b.counted;
      })

read-Balanced :
    (len total : ℕ) (dbuf : List ℕ) (arrived : List (List ℕ)) (taken : ℕ) (s : Session)
    → Balanced arrived taken s
    → let p = recv_pass len s.recv_queue s.recv_offset total dbuf in
      Balanced arrived (taken + (p.total - total)) (after_pass p s)
read-Balanced len total dbuf arrived taken s b =
    let (more, near) = recv_pass-grows len s.recv_queue s.recv_offset total dbuf in
    let a = recv_pass-Accounts len s.recv_queue s.recv_offset total dbuf in
    record {
      balance = omega (arith, b.balance, a.taken, more);
      inside = recv_pass-Inside len s.recv_queue s.recv_offset total dbuf b.inside;
      counted = omega (arith, b.counted, more, near);
    }

module _ (o : Owner) where
  opened-Balanced :
      (io : Io) (reason : Reason) (frame : List ℕ) (old : Session) (st : o.State)
      → establishes reason ≡ true
      → Post (Balanced [] 0) (handle_session o io reason frame (some old) st)
  unfolding handle_session
  opened-Balanced io reason frame old st first =
      if_intro (Post (Balanced [] 0)) (needs_session reason && false) (λ e. absurd (ground arith))
        (λ _.
          Post-map Fresh (Balanced [] 0) Fresh-Balanced _
            (on_event-Fresh o io reason frame old st first))

  called-Balanced :
      (io : Io) (reason : Reason) (frame : List ℕ) (s : Session) (st : o.State)
      (arrived : List (List ℕ)) (taken : ℕ)
      → Balanced arrived taken s
      → establishes reason ≡ false
      → closes reason ≡ false
      → Post
          (Balanced (arrived ++ queued_by io reason frame) taken)
          (handle_session o io reason frame (some s) st)
  unfolding handle_session
  called-Balanced io reason frame s st arrived taken b later unclosed =
      let more = queued_by io reason frame in
      if_intro (Post (Balanced (arrived ++ more) taken)) (needs_session reason && false)
        (λ e. absurd (ground arith))
        (λ _.
          Post-map (Queued more s) (Balanced (arrived ++ more) taken)
            (λ t. Queued-Balanced arrived more taken s t b) _
            (on_event-Queued o io reason frame s st later unclosed))

  -- As long as a connection is not closed, whatever callbacks, rounds of `usbws_recv` and calls of
  -- other threads that leave the queue alone come in whatever order: the number of bytes read, with
  -- the number of those that are queued and not yet read, is the number of bytes of the frames that
  -- have been queued; and `recv_offset` lies within the first entry of the queue, is 0 if there is
  -- none, and is at most the number of bytes read.
  pub Intake-Balanced :
      {arrived : List (List ℕ)} {taken : ℕ} {s : Session} {st : o.State}
      → Intake o arrived taken s st
      → Balanced arrived taken s
  Intake-Balanced (opened io reason frame ret old st {t} {st'} first e) =
      subst (Post (Balanced [] 0)) e (opened-Balanced io reason frame old st first)
  Intake-Balanced
        (called io reason frame ret s st {arrived} {taken} {t} {st'} run later unclosed e) =
      subst (Post (Balanced (arrived ++ queued_by io reason frame) taken)) e
        (called-Balanced io reason frame s st arrived taken (Intake-Balanced run) later unclosed)
  Intake-Balanced (read len total dbuf {arrived} {taken} {s} run) =
      read-Balanced len total dbuf arrived taken s (Intake-Balanced run)
  Intake-Balanced (meanwhile f same {s = s} run) =
      let b = Intake-Balanced run in
      let (queue, offset) = same s in
      record {
        balance = rw (queue, offset) b.balance;
        inside = rw (queue, offset) b.inside;
        counted = rw offset b.counted;
      }
