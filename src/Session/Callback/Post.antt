-- ===== src/Session/Callback/Post.antt =====
-- What a callback for a session leaves behind, if it returns with one.
use usbws_lws.Base.{subst, sym, Option, none, some, ℕ, ℤ}
use usbws_lws.Session.State.{Session, Io}
use usbws_lws.Session.Write.{◌>>=◌}
use usbws_lws.Session.Callback.{Owner, Outcome, OutcomeSpares, call_if_set}

-- The callback returns, with a session that has the property.
abbrev pub After : {State : Type 0} → (Session → Type 0) → Outcome State → Type 0
After P none = ⊥
After P (some (_, none, _)) = ⊥
After P (some (_, some t, _)) = P t

-- If the call returns with a session, that one has the property.
abbrev pub Post : {State : Type 0} → (Session → Type 0) → Outcome State → Type 0
Post P none = Unit
Post P (some (_, none, _)) = Unit
Post P (some (_, some t, _)) = P t

pub Post-map :
    {State : Type 0} (P Q : Session → Type 0)
    → ((t : Session) → P t → Q t)
    → (r : Outcome State) → Post P r
    → Post Q r
Post-map P Q imp none h = tt
Post-map P Q imp (some (_, none, _)) h = tt
Post-map P Q imp (some (_, some t, _)) h = imp t h

abbrev pub PostCall : (Session → Type 0) → Option (ℤ × Session) → Type 0
PostCall P none = Unit
PostCall P (some (_, t)) = P t

pub lift-Post :
    {State : Type 0} (P : Session → Type 0) (st : State) (ret : ℤ → ℤ) (m : Option (ℤ × Session))
    → PostCall P m
    → Post P (m >>= λ (r, t). some (ret r, some t, st))
lift-Post P st ret none h = tt
lift-Post P st ret (some (r, t)) h = h

-- A hook returns, and leaves what holds whatever `tid` is.
pub hook-After :
    (o : Owner) (P : Session → Type 0) (h : Option o.Hook) (io : Io) (t : Session) (st : o.State)
    → ((tid : ℕ) → P (record t { tid = tid }))
    → After P (call_if_set o h io (some t) st)
unfolding call_if_set
hook-After o P none io t st p = p t.tid
hook-After o P (some h) io t st p = spared (o.call h io (some t) st) (o.call-spares h io t st)
  where
    spared : (r : Outcome (o.State)) → OutcomeSpares t r → After P r
    spared none h = h
    spared (some (_, none, _)) h = h
    spared (some (_, some u, _)) h = subst P (sym h.same) (p u.tid)

After-Post : {State : Type 0} (P : Session → Type 0) (r : Outcome State) → After P r → Post P r
After-Post P none h = tt
After-Post P (some (_, none, _)) h = tt
After-Post P (some (_, some t, _)) h = h

pub hook-Post :
    (o : Owner) (P : Session → Type 0) (h : Option o.Hook) (io : Io) (t : Session) (st : o.State)
    → ((tid : ℕ) → P (record t { tid = tid }))
    → Post P (call_if_set o h io (some t) st)
hook-Post o P h io t st p = After-Post P _ (hook-After o P h io t st p)
