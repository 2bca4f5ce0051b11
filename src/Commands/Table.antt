-- ===== src/Commands/Table.antt =====
-- Each name of the table runs its command.
use usbws_lws.Base.{
  ◌≡◌, refl, ◌⊎◌, inl, inr, ◌&&◌, ◌||◌, Bool, true, false, not, some, List, [], ◌∷◌, arith, ℤ, pos,
  is_true, if◌then◌else◌,
}
use usbws_lws.Util.{same_str, same_str_refl, Str}
use usbws_lws.Commands.Dispatch.{Command, CmdEntry, commands, run_named, usbws_main}

abbrev pub HasEntry : CmdEntry → List CmdEntry → Type 0
HasEntry e [] = ⊥
HasEntry e (f ∷ fs) = (e ≡ f) ⊎ HasEntry e fs

has_name : Str → List CmdEntry → Bool
has_name n [] = false
has_name n (f ∷ fs) = same_str f.name n || has_name n fs

-- No two lines have the same name.
are_apart : List CmdEntry → Bool
are_apart [] = true
are_apart (f ∷ fs) = not (has_name f.name fs) && are_apart fs

other_name :
    (n : Str) (e : CmdEntry) (fs : List CmdEntry)
    → HasEntry e fs
    → has_name n fs ≡ false
    → same_str e.name n ≡ false
unfolding has_name
other_name n e [] h' h = elim h' [ ]
other_name n e (f ∷ fs) (inl same) h = rw same (ground arith)
other_name n e (f ∷ fs) (inr h') h = other_name n e fs h' (ground arith)

run_named_lem :
    (proc : Command → ℤ) (e : CmdEntry) (fs : List CmdEntry)
    → HasEntry e fs
    → are_apart fs ≡ true
    → run_named proc e.name fs ≡ some (e.id, proc e.id)
unfolding run_named are_apart
run_named_lem proc e [] h' h = elim h' [ ]
run_named_lem proc e (f ∷ fs) (inl same) h = rw same (ground (arith, same_str_refl f.name))
run_named_lem proc e (f ∷ fs) (inr h') h =
    ground
      (arith, other_name f.name e fs h' (ground arith), run_named_lem proc e fs h' (ground arith))

commands-are_apart : (with_libusb : Bool) → are_apart (commands with_libusb) ≡ true
unfolding are_apart has_name commands
commands-are_apart true = refl
commands-are_apart false = refl

-- A name of the table runs the command of its own line, on either build, and `usbws` exits with 0
-- if the command's procedure returned 0, and with 1 otherwise.
pub usbws_main_runs :
    (with_libusb : Bool) (proc : Command → ℤ) (program : Str) (e : CmdEntry) (argv : List Str)
    → HasEntry e (commands with_libusb)
    → usbws_main with_libusb proc (program ∷ e.name ∷ argv)
      ≡ (if is_true (proc e.id) then pos 1 else pos 0, some e.id)
unfolding usbws_main
usbws_main_runs with_libusb proc program e argv h =
    ground (arith, run_named_lem proc e (commands with_libusb) h (commands-are_apart with_libusb))
