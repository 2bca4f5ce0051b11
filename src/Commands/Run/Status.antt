-- ===== src/Commands/Run/Status.antt =====
-- The exit status of `usbws`, and what it has asked of the USB/IP library.
use usbws_lws.Base.{
  subst, not, ◌&&◌, ◌≡◌, ◌⊎◌, inl, inr, refl, Bool, true, false, Option, none, some, List, [], ◌∷◌,
  arith, ℤ, pos, is_true, Option-cases, if◌then◌else◌,
}
use usbws_lws.Util.{Str}
use usbws_lws.Client.Memory.{Memory}
use usbws_lws.Commands.Dispatch.{
  Command, connect, disconnect, attach, detach, port, list, bind, unbind, help, version, error,
  usbws_main, run_named, CmdEntry, commands,
}
use usbws_lws.Commands.Calls.{LibCall, device_calls}
use usbws_lws.Commands.Connect.{Exit}
use usbws_lws.Commands.Run.{World, run_command, returned, usage_calls, usbws}
use usbws_lws.Commands.Run.Once.{
  Returns, AsksOnce, Once, connect_kind-Once, list_command-Once, port_command-Once, bind_kind-Once,
  detach_command-Once,
}

-- The commands that take memory, of which an access that C does not define may come.
abbrev pub takes_memory : Command → Bool
takes_memory connect = true
takes_memory disconnect = true
takes_memory attach = true
takes_memory list = true
takes_memory _ = false

abbrev is_error : Command → Bool
is_error error = true
is_error _ = false

abbrev none_is_error : List CmdEntry → Bool
none_is_error [] = true
none_is_error (e ∷ es) = not (is_error e.id) && none_is_error es

run_named-is_error :
    (proc : Command → ℤ) (name : Str) (es : List CmdEntry) (cmd : Command) (ret : ℤ)
    → none_is_error es ≡ true
    → run_named proc name es ≡ some (cmd, ret)
    → (is_error cmd ≡ false) × (ret ≡ proc cmd)
unfolding run_named
run_named-is_error proc name [] cmd ret h e = cc
run_named-is_error proc name (f ∷ es) cmd ret h e =
    ground (arith, run_named-is_error proc name es cmd ret)

commands-none_is_error : (with_libusb : Bool) → none_is_error (commands with_libusb) ≡ true
unfolding commands
commands-none_is_error true = refl
commands-none_is_error false = refl

-- What `main` has run, and its status.
usbws_main_ran :
    (with_libusb : Bool) (proc : Command → ℤ) (argv : List Str)
    → let (status, ran) = usbws_main with_libusb proc argv in
      (ran ≡ none)
      ⊎ ((cmd : Command) × (ran ≡ some cmd)
          × (is_error cmd ≡ false)
          × (status ≡ (if is_true (proc cmd) then pos 1 else pos 0)))
unfolding usbws_main
usbws_main_ran with_libusb proc [] = inl refl
usbws_main_ran with_libusb proc (program ∷ []) = inl refl
usbws_main_ran with_libusb proc (program ∷ name ∷ argv) =
    elim (Option-cases (run_named proc name (commands with_libusb))) [
      | inl unknown ↦ inl (ground arith)
      | inr ((cmd, ret), ran) ↦
          let (known, same) =
            run_named-is_error proc name (commands with_libusb) cmd ret
              (commands-none_is_error with_libusb) ran in
          inr (cmd, ground arith, known, ground arith)
    ]

module _ (w : World) where
  abbrev Ran : Command → Exit → Type 0
  Ran cmd none = (takes_memory cmd ≡ true) ⊎ (is_error cmd ≡ true)
  Ran cmd (some (ret, _, calls)) = AsksOnce w ret calls

  Once-Ran : (cmd : Command) (x : Exit) → takes_memory cmd ≡ true → Once w x → Ran cmd x
  Once-Ran cmd none t h = inl t
  Once-Ran cmd (some (ret, n, calls)) t h = h

  run_command-Ran : (m : Memory) (cmd : Command) → Ran cmd (run_command w m cmd)
  unfolding run_command
  run_command-Ran m connect = Once-Ran connect _ refl (connect_kind-Once w connect m)
  run_command-Ran m disconnect = Once-Ran disconnect _ refl (connect_kind-Once w disconnect m)
  run_command-Ran m attach = Once-Ran attach _ refl (connect_kind-Once w attach m)
  run_command-Ran m detach = detach_command-Once w
  run_command-Ran m port = port_command-Once w
  run_command-Ran m list = Once-Ran list _ refl (list_command-Once w m)
  run_command-Ran m bind = bind_kind-Once w bind
  run_command-Ran m unbind = bind_kind-Once w unbind
  run_command-Ran m help = inl refl
  run_command-Ran m version = inl refl
  run_command-Ran m error = inr refl

  -- How a run ends, by the command run: with an access that C does not define, of a command that
  -- takes memory; with nothing asked of the library; or with one thing asked, and the status by it.
  abbrev pub Ends : Option Command → Exit → Type 0
  Ends ran none = (cmd : Command) × (ran ≡ some cmd) × (takes_memory cmd ≡ true)
  Ends ran (some (status, _, calls)) =
      (device_calls calls ≡ [])
      ⊎ ((call : LibCall) × (r : ℤ) × (device_calls calls ≡ call ∷ [])
          × Returns w call r
          × (status ≡ (if is_true r then pos 1 else pos 0)))

  abbrev with_status : ℤ → Exit → Exit
  with_status status none = none
  with_status status (some (ret, n, calls)) = some (status, n, calls)

  Ran-Ends :
      (cmd : Command) (status : ℤ) (ran : Option Command) (x : Exit)
      → ran ≡ some cmd
      → is_error cmd ≡ false
      → status ≡ (if is_true (returned x) then pos 1 else pos 0)
      → Ran cmd x
      → Ends ran (with_status status x)
  Ran-Ends cmd status ran none e known told (inl t) = (cmd, e, t)
  Ran-Ends cmd status ran none e known told (inr t) = cc
  Ran-Ends cmd status ran (some (ret, n, calls)) e known told (inl silent) = inl silent
  Ran-Ends cmd status ran (some (ret, n, calls)) e known told (inr (call, r, one, answers, same)) =
      inr (call, r, one, answers, ground arith)

  usage_silent : (argv : List Str) → device_calls (usage_calls argv) ≡ []
  usage_silent [] = refl
  usage_silent (program ∷ []) = refl
  usage_silent (program ∷ name ∷ argv) = refl

  -- Whatever the arguments and the options: a run of `usbws` asks the USB/IP library for at most one
  -- thing; where it asks for one, it exits with 0 if the library returned 0, and with 1 otherwise.
  -- Only connect, disconnect, attach and list may end in an access that C does not define.
  pub usbws-Ends :
      (m : Memory) (argv : List Str)
      → Ends
          (usbws_main w.with_libusb (λ cmd. returned (run_command w m cmd)) argv).1
          (usbws w m argv)
  unfolding usbws
  usbws-Ends m argv =
      from (usbws_main w.with_libusb proc argv).0 (usbws_main w.with_libusb proc argv).1
        (usbws_main_ran w.with_libusb proc argv)
    where
      proc : Command → ℤ
      proc cmd = returned (run_command w m cmd)

      from :
          (status : ℤ) (ran : Option Command)
          → (ran ≡ none)
            ⊎ ((cmd : Command) × (ran ≡ some cmd)
                × (is_error cmd ≡ false)
                × (status ≡ (if is_true (proc cmd) then pos 1 else pos 0)))
          → Ends ran (elim ran [
            | none ↦ some (status, m, usage_calls argv)
            | some cmd ↦ elim (run_command w m cmd) [
              | none ↦ none
              | some (ret, n, calls) ↦ some (status, n, calls)
            ]
          ])
      from status none h = inl (usage_silent argv)
      from status (some cmd) (inl e) = cc
      from status (some cmd) (inr (same, e, known, told)) =
          let e' : same ≡ cmd = cc in
          Ran-Ends cmd status (some cmd) (run_command w m cmd) refl
            (subst (λ (x : Command). is_error x ≡ false) e' known)
            (subst (λ (x : Command). status ≡ (if is_true (proc x) then pos 1 else pos 0)) e' told)
            (run_command-Ran m cmd)
