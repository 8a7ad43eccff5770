-- ===== src/Control/Text.antt =====
pub mod Cut
pub mod Decimal
-- What the command lines use of the packages strings and strconv, on texts as their characters.
use Prim.Native.Char.{Char, code}
use Prim.Native.String.{String, ◌++◌}
use orris.Prelude.{
  ℕ, zero, suc, ◌+◌, ◌-◌, ◌*◌, Bool, true, false, ◌&&◌, Option, none, some, List, [], ◌∷◌, leb, ltb,
  ◌==◌, nat_eq, if◌then◌else◌, ℤ, pos, negsuc, ◌>>=◌,
}
use orris.Client.Text.{is_space, cons_first}

-- strings.CutPrefix: the text behind the prefix, if it is there.
unfoldable pub cut_prefix : String → String → Option String
cut_prefix String.[] s = some s
cut_prefix (String.◌∷◌ c p) String.[] = none
cut_prefix (String.◌∷◌ c p) (String.◌∷◌ d s) =
    let rest = cut_prefix p s in if code c == code d then rest else none

abbrev pub is_some {ℓ} : {A : Type ℓ} → Option A → Bool
is_some none = false
is_some (some a) = true

-- strings.HasPrefix(s, prefix)
unfoldable pub has_prefix : String → String → Bool
has_prefix s prefix = is_some (cut_prefix prefix s)

abbrev pub or_else {ℓ} : {A : Type ℓ} → A → Option A → A
or_else a none = a
or_else _ (some a) = a

-- strings.TrimPrefix(s, prefix)
unfoldable pub trim_prefix : String → String → String
trim_prefix s prefix = or_else s (cut_prefix prefix s)

abbrev pub cut_here : Char → Option String → String × Option String → String × Option String
cut_here c none later = cons_first c later
cut_here c (some rest) later = (String.[], some rest)

-- strings.Cut, for a separator that is not empty: the text before it, and the text behind it if it is there.
unfoldable pub cut_on : String → String → String × Option String
cut_on sep String.[] = (String.[], none)
cut_on sep (String.◌∷◌ c s) = cut_here c (cut_prefix sep (String.◌∷◌ c s)) (cut_on sep s)

-- strings.Contains(s, part), for a part that is not empty.
unfoldable pub contains : String → String → Bool
contains s part = is_some (cut_on part s).1

-- strings.SplitN(s, sep, n)
unfoldable pub split_n_on : String → ℕ → String → List String
split_n_on sep zero s = []
split_n_on sep (suc zero) s = s ∷ []
split_n_on sep (suc (suc n)) s = elim (cut_on sep s).1 [
  | none ↦ (cut_on sep s).0 ∷ []
  | some rest ↦ (cut_on sep s).0 ∷ split_n_on sep (suc n) rest
]

abbrev pub size : String → ℕ
size String.[] = 0
size (String.◌∷◌ c s) = suc (size s)

-- strings.Split(s, sep): no more parts than the text has characters, and one.
unfoldable pub split_on : String → String → List String
split_on sep s = split_n_on sep (suc (size s)) s

-- A word, which may be empty, before other words.
abbrev pub keep_word : String → List String → List String
keep_word String.[] ws = ws
keep_word (String.◌∷◌ c w) ws = String.◌∷◌ c w ∷ ws

-- The word that a text starts with, up to the first space, and the words behind it.
unfoldable pub words : String → String × List String
words String.[] = (String.[], [])
words (String.◌∷◌ c s) =
    let later = words s in
    if is_space (code c)
    then (String.[], keep_word later.0 later.1)
    else (String.◌∷◌ c later.0, later.1)

-- strings.Fields
unfoldable pub fields : String → List String
fields s = keep_word (words s).0 (words s).1

-- The decimal number that goes on from `n`.
unfoldable pub read_digits : ℕ → String → Option ℕ
read_digits n String.[] = some n
read_digits n (String.◌∷◌ c s) =
    let more = read_digits (10 * n + (code c - 48)) s in
    if leb 48 (code c) && leb (code c) 57 then more else none

unfoldable pub read_nat : String → Option ℕ
read_nat String.[] = none
read_nat (String.◌∷◌ c s) = read_digits 0 (String.◌∷◌ c s)

abbrev pub opposite : ℕ → ℤ
opposite zero = pos 0
opposite (suc n) = negsuc n

abbrev pub negated : Option ℕ → Option ℤ
negated none = none
negated (some n) = some (opposite n)

abbrev pub as_int : Option ℕ → Option ℤ
as_int none = none
as_int (some n) = some (pos n)

-- strconv.Atoi, without the check that the number fits an int.
unfoldable pub atoi : String → Option ℤ
atoi String.[] = none
atoi (String.◌∷◌ c s) =
    if code c == 45
    then negated (read_nat s)
    else if code c == 43
    then as_int (read_nat s)
    else as_int (read_nat (String.◌∷◌ c s))
