-- ===== src/Commands/Dispatch.antt =====
-- The table of the commands and `main` of src/usbws.c.
use usbws_lws.Base.{Bool, Option, none, some, List, [], ◌∷◌, ◌++◌, ℤ, pos, is_true, if◌then◌else◌}
use usbws_lws.Util.{same_str, Str}

-- `enum usbws_command`
pub data Command : Type 0 where
  connect disconnect attach detach port list bind unbind help version error : Command

pub record CmdEntry : Type 0 where
  pub id : Command
  pub name : Str

abbrev pub entry : Command → Str → CmdEntry
entry id name = record { id = id; name = name }

-- The commands that a build with USBIP_WITH_LIBUSB leaves out.
abbrev pub vhci_commands : List CmdEntry
vhci_commands =
    entry attach (b'a' ∷ b't' ∷ b't' ∷ b'a' ∷ b'c' ∷ b'h' ∷ [])
    ∷ entry detach (b'd' ∷ b'e' ∷ b't' ∷ b'a' ∷ b'c' ∷ b'h' ∷ [])
    ∷ entry port (b'p' ∷ b'o' ∷ b'r' ∷ b't' ∷ [])
    ∷ []

unfoldable pub commands : (with_libusb : Bool) → List CmdEntry
commands with_libusb =
    entry connect (b'c' ∷ b'o' ∷ b'n' ∷ b'n' ∷ b'e' ∷ b'c' ∷ b't' ∷ [])
      ∷ entry disconnect (b'd' ∷ b'i' ∷ b's' ∷ b'c' ∷ b'o' ∷ b'n' ∷ b'n' ∷ b'e' ∷ b'c' ∷ b't' ∷ [])
      ∷ (if with_libusb then [] else vhci_commands)
    ++ entry list (b'l' ∷ b'i' ∷ b's' ∷ b't' ∷ [])
      ∷ entry bind (b'b' ∷ b'i' ∷ b'n' ∷ b'd' ∷ [])
      ∷ entry unbind (b'u' ∷ b'n' ∷ b'b' ∷ b'i' ∷ b'n' ∷ b'd' ∷ [])
      ∷ entry help (b'h' ∷ b'e' ∷ b'l' ∷ b'p' ∷ [])
      ∷ entry version (b'v' ∷ b'e' ∷ b'r' ∷ b's' ∷ b'i' ∷ b'o' ∷ b'n' ∷ [])
      ∷ []

-- The loop over the table: the command run and what its procedure returned, `none` at the end.
unfoldable pub run_named : (proc : Command → ℤ) → Str → List CmdEntry → Option (Command × ℤ)
run_named proc name [] = none
run_named proc name (e ∷ es) =
    if same_str name e.name then some (e.id, proc e.id) else run_named proc name es

-- `main`: the exit status, with the command run.
unfoldable pub usbws_main :
    (with_libusb : Bool) → (proc : Command → ℤ) → (argv : List Str) → ℤ × Option Command
usbws_main with_libusb proc (program ∷ name ∷ argv) =
    elim (run_named proc name (commands with_libusb)) [
      | none ↦ (pos 1, none)
      | some (id, ret) ↦ (if is_true ret then pos 1 else pos 0, some id)
    ]
usbws_main with_libusb proc argv = (pos 1, none)
