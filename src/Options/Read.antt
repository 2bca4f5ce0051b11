-- ===== src/Options/Read.antt =====
-- What the tables and the texts say, as lists to compare.
use Prim.Native.Char.{code}
use Prim.Native.String.{String}
use mathlib.Core.List.{map}
use usbws_lws.Util.{same_str}
use usbws_lws.Base.{
  ℕ, Bool, true, false, not, ◌&&◌, ◌||◌, ◌==◌, List, [], ◌∷◌, ◌++◌, drop, if◌then◌else◌,
}
use usbws_lws.Options.{
  Program, Argument, no_argument, required_argument, optional_argument, LongOpt, command_line,
}

abbrev pub codes : String → List ℕ
codes String.[] = []
codes (String.◌∷◌ c s) = code c ∷ codes s

abbrev pub member : ℕ → List ℕ → Bool
member c [] = false
member c (d ∷ ds) = c == d || member c ds

abbrev pub select : {A : Type 0} → (A → Bool) → List A → List A
select p [] = []
select p (x ∷ xs) = let rest = select p xs in if p x then x ∷ rest else rest

abbrev pub is_same : Argument → Argument → Bool
is_same no_argument no_argument = true
is_same required_argument required_argument = true
is_same optional_argument optional_argument = true
is_same _ _ = false

-- A string of letters as the manual of `getopt` reads it: a colon behind a letter means that it
-- takes an argument, two that it may take one.
abbrev pub more : Argument → Argument
more no_argument = required_argument
more _ = optional_argument

abbrev pub mark : List (ℕ × Argument) → List (ℕ × Argument)
mark [] = []
mark ((c, a) ∷ shorts) = (c, more a) ∷ shorts

abbrev pub read_shorts : List (ℕ × Argument) → List ℕ → List (ℕ × Argument)
read_shorts shorts [] = shorts
read_shorts shorts (c ∷ cs) =
    read_shorts (if c == b':' then mark shorts else (c, no_argument) ∷ shorts) cs

abbrev pub short_options : Bool → Program → List (ℕ × Argument)
unfolding command_line
short_options b p = read_shorts [] (codes (command_line b p).optstring)

abbrev pub offers : List (ℕ × Argument) → ℕ → Argument → Bool
offers [] c a = false
offers ((d, e) ∷ shorts) c a = (c == d && is_same a e) || offers shorts c a

-- The long options whose letter is no short option with such an argument, or has no case.
abbrev pub unserved : Bool → Program → List LongOpt
unserved b p =
    select
      (λ o.
        not (offers (short_options b p) o.val o.has_arg && member o.val (command_line b p).cases))
      (command_line b p).longopts

-- The short options without a case.
abbrev pub caseless : Bool → Program → List ℕ
caseless b p =
    select (λ c. not (member c (command_line b p).cases))
      (map (λ ((c, _) : ℕ × Argument). c) (short_options b p))

-- An option as the help text offers it, with whether it takes an argument.
pub record Heading : Type 0 where
  pub letter : ℕ
  pub name : List ℕ
  pub takes : Bool

abbrev pub same_heading : Heading → Heading → Bool
same_heading h g =
    h.letter == g.letter
    && same_str h.name g.name
    && ((h.takes && g.takes) || not (h.takes || g.takes))

-- Up to a blank or the end of the line.
abbrev pub word : List ℕ → List ℕ
word [] = []
word (c ∷ cs) = if c == b' ' || c == b'\n' then [] else c ∷ word cs

-- Behind the comma, a blank and two dashes.
abbrev pub long_name : List ℕ → List ℕ
long_name [] = []
long_name (c ∷ cs) = if c == b',' then word (drop 3 cs) else long_name cs

abbrev pub has_text : List ℕ → Bool
has_text [] = false
has_text (c ∷ _) = not (c == b',')

-- A line that starts with a tabulator and a dash is the heading of an option.
abbrev pub heading : List ℕ → List Heading
heading (t ∷ d ∷ c ∷ rest) =
    if t == b'\t' && d == b'-'
    then record { letter = c; name = long_name rest; takes = has_text rest } ∷ []
    else []
heading _ = []

abbrev pub headings : List String → List Heading
headings [] = []
headings (line ∷ lines) = heading (codes line) ++ headings lines

abbrev pub of_long : LongOpt → Heading
of_long o = record {
  letter = o.val;
  name = codes o.name;
  takes = not (is_same o.has_arg no_argument);
}

abbrev pub among : Heading → List Heading → Bool
among h [] = false
among h (g ∷ gs) = same_heading h g || among h gs

abbrev pub missing : List Heading → List Heading → List Heading
missing hs gs = select (λ h. not (among h gs)) hs
