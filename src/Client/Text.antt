-- ===== src/Client/Text.antt =====
pub mod Split
-- What the client protocol uses of the packages strings and fmt, on texts as their characters.
use Prim.Native.Char.{Char, code}
use Prim.Native.String.{String, ◌++◌}
use orris.Prelude.{
  ℕ, zero, suc, ◌-◌, ◌/◌, ◌%◌, Bool, true, false, ◌&&◌, ◌||◌, Option, none, some, List, [], ◌∷◌,
  leb, ltb, ◌==◌, nat_eq, if◌then◌else◌, ℤ, pos, negsuc, get_elem?,
}

-- unicode.IsSpace
abbrev pub is_space : ℕ → Bool
is_space c =
    (leb 9 c && leb c 13)
    || c == 32
    || c == 133
    || c == 160
    || c == 5760
    || (leb 8192 c && leb c 8202)
    || c == 8232
    || c == 8233
    || c == 8239
    || c == 8287
    || c == 12288

abbrev pub cons_trimmed : Char → String → String
cons_trimmed c String.[] = if is_space (code c) then String.[] else String.◌∷◌ c String.[]
cons_trimmed c (String.◌∷◌ d s) = String.◌∷◌ c (String.◌∷◌ d s)

unfoldable pub trim_left : String → String
trim_left String.[] = String.[]
trim_left (String.◌∷◌ c s) = if is_space (code c) then trim_left s else String.◌∷◌ c s

unfoldable pub trim_right : String → String
trim_right String.[] = String.[]
trim_right (String.◌∷◌ c s) = cons_trimmed c (trim_right s)

-- strings.TrimSpace
unfoldable pub trim_space : String → String
trim_space s = trim_right (trim_left s)

abbrev pub cons_first : Char → String × Option String → String × Option String
cons_first c (s, rest) = (String.◌∷◌ c s, rest)

-- The text before the first space, and the text after it.
unfoldable pub cut : String → String × Option String
cut String.[] = (String.[], none)
cut (String.◌∷◌ c s) =
    let found = cons_first c (cut s) in if code c == 32 then (String.[], some s) else found

-- strings.SplitN(s, " ", n)
unfoldable pub split_n : ℕ → String → List String
split_n zero s = []
split_n (suc zero) s = s ∷ []
split_n (suc (suc n)) s = elim (cut s).1 [
  | none ↦ (cut s).0 ∷ []
  | some rest ↦ (cut s).0 ∷ split_n (suc n) rest
]

-- unicode.ToUpper, as far as its result is ASCII: two letters outside ASCII have such a capital.
abbrev pub upper : ℕ → ℕ
upper c =
    if leb 97 c && leb c 122 then c - 32 else if c == 305 then 73 else if c == 383 then 83 else c

-- strings.ToUpper(s) == t, for a `t` in ASCII.
unfoldable pub is_command : String → String → Bool
is_command String.[] String.[] = true
is_command (String.◌∷◌ c s) (String.◌∷◌ d t) = upper (code c) == code d && is_command s t
is_command _ _ = false

-- strings.Join
unfoldable pub join : String → List String → String
join sep [] = ""
join sep (s ∷ []) = s
join sep (s ∷ t ∷ rest) = s ++ (sep ++ join sep (t ∷ rest))

abbrev pub digit_or : String → Option String → String
digit_or s none = s
digit_or s (some d) = d

abbrev pub digit : ℕ → String
digit d = digit_or "9" (get_elem? ("0" ∷ "1" ∷ "2" ∷ "3" ∷ "4" ∷ "5" ∷ "6" ∷ "7" ∷ "8" ∷ []) d)

-- The digits of a number, which are no more than the number and one.
unfoldable pub digits : ℕ → ℕ → String
digits zero n = ""
digits (suc fuel) n =
    let higher = digits fuel (n / 10) in if ltb n 10 then digit n else higher ++ digit (n % 10)

-- fmt's %d
unfoldable pub format_nat : ℕ → String
unfolding digits
format_nat n = digits (suc n) n

unfoldable pub format_int : ℤ → String
format_int (pos n) = format_nat n
format_int (negsuc n) = "-" ++ format_nat (suc n)
