-- ===== src/Options/Agree.antt =====
-- Where the tables, the cases and the help texts agree, and where they do not.
use Prim.Native.String.{String}
use mathlib.Core.List.{map}
use usbws_lws.Base.{ℕ, ◌≡◌, refl, Bool, true, false, List, [], ◌∷◌, ◌++◌, if◌then◌else◌}
use usbws_lws.Options.{
  Program, usbwsd, connect_kind, list, bind_kind, detach, port, required_argument, LongOpt, opt,
  command_line,
}
use usbws_lws.Options.Help.{Build, app, dev, neither, help}
use usbws_lws.Options.Read.{codes, unserved, caseless, headings, of_long, missing, Heading}

-- The options of `usbws list` that its table has and its switch has not, where they are.
abbrev bus_id_opt : LongOpt
bus_id_opt = opt "bus-id" required_argument b'b'

abbrev stray_opts : Bool → Program → List LongOpt
stray_opts false list = bus_id_opt ∷ []
stray_opts _ _ = []

abbrev stray_letters : Bool → Program → List ℕ
stray_letters true list = b'V' ∷ b'c' ∷ b'k' ∷ b'x' ∷ b'u' ∷ []
stray_letters false usbwsd = b'f' ∷ []
stray_letters _ _ = []

abbrev lettered : ℕ → String → Bool → Heading
lettered c name takes = record { letter = c; name = codes name; takes = takes }

abbrev parsable : Program → ℕ → List Heading
parsable list c = lettered c "parsable" false ∷ []
parsable _ c = []

-- The headings of options that the code does not take, and the options without a heading.
abbrev misprinted : Bool → Program → List Heading
misprinted b p = (if b then lettered b'f' "debug-flags" true ∷ [] else []) ++ parsable p b'P'

abbrev unprinted : Bool → Program → List Heading
unprinted b p =
    (if b then lettered b'f' "flag" true ∷ [] else [])
    ++ (map of_long (stray_opts b p) ++ parsable p b'p')

abbrev pub Agrees : Build → Bool → Program → Type 0
unfolding command_line help
Agrees built b p =
    (unserved b p ≡ stray_opts b p)
    × (caseless b p ≡ stray_letters b p)
    × (missing (headings (help built b p)) (map of_long (command_line b p).longopts)
        ≡ misprinted b p)
    × (missing (map of_long (command_line b p).longopts) (headings (help built b p))
        ≡ unprinted b p)

-- In each program and build: a long option has the letter of a short one, with an argument as that
-- has, and the switch has a case for the letter; the switch has a case for each short option; and
-- the help text offers the options of the table, by letter, name and argument, and no other. But:
-- `usbws list` without libusb has --bus-id, with no letter, case or help, and with libusb the
-- letters of the remote list, with no case; usbwsd without libusb has the letter `f` with no case;
-- the help texts have --debug-flags for --flag, and `usbws list` has -P for -p.
pub options_agree : (built : Build) (b : Bool) (p : Program) → Agrees built b p
unfolding command_line help
options_agree app true usbwsd = (refl, refl, refl, refl)
options_agree app false usbwsd = (refl, refl, refl, refl)
options_agree dev true usbwsd = (refl, refl, refl, refl)
options_agree dev false usbwsd = (refl, refl, refl, refl)
options_agree neither true usbwsd = (refl, refl, refl, refl)
options_agree neither false usbwsd = (refl, refl, refl, refl)
options_agree built true connect_kind = (refl, refl, refl, refl)
options_agree built false connect_kind = (refl, refl, refl, refl)
options_agree built true list = (refl, refl, refl, refl)
options_agree built false list = (refl, refl, refl, refl)
options_agree built true bind_kind = (refl, refl, refl, refl)
options_agree built false bind_kind = (refl, refl, refl, refl)
options_agree built true detach = (refl, refl, refl, refl)
options_agree built false detach = (refl, refl, refl, refl)
options_agree built true port = (refl, refl, refl, refl)
options_agree built false port = (refl, refl, refl, refl)
