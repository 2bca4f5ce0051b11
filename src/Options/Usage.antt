-- ===== src/Options/Usage.antt =====
-- The commands that `usbws` names in its help, and those of its table.
use Prim.Native.String.{String}
use usbws_lws.Base.{
  ℕ, ◌≡◌, refl, Bool, true, false, not, ◌||◌, ◌==◌, List, [], ◌∷◌, ◌++◌, if◌then◌else◌,
}
use usbws_lws.Util.{same_str, Str}
use usbws_lws.Commands.Dispatch.{CmdEntry, commands}
use usbws_lws.Options.Help.{usage}
use usbws_lws.Options.Read.{codes, select}

abbrev separates : ℕ → Bool
separates c = c == b' ' || c == b'|' || c == b'<' || c == b'>' || c == b'\n'

-- The words of a text, from the part of one that is read.
abbrev words_from : Str → Str → List Str
words_from part [] = part ∷ []
words_from part (c ∷ cs) =
    (if separates c then part ∷ [] else [])
    ++ words_from (if separates c then [] else part ++ c ∷ []) cs

abbrev words : List String → List Str
words [] = []
words (line ∷ lines) = words_from [] (codes line) ++ words lines

abbrev is_word : Str → List Str → Bool
is_word w [] = false
is_word w (v ∷ vs) = same_str w v || is_word w vs

abbrev names : List CmdEntry → List Str
names [] = []
names (e ∷ es) = e.name ∷ names es

-- The help names each command of the table, on either build, but `port`.
usage-names :
    (with_libusb : Bool)
    → select (λ w. not (is_word w (words (usage with_libusb)))) (names (commands with_libusb))
      ≡ (if with_libusb then [] else codes "port" ∷ [])
unfolding usage commands
usage-names true = refl
usage-names false = refl
