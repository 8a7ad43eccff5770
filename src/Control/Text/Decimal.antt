-- ===== src/Control/Text/Decimal.antt =====
-- Decimal numbers: what `%d` writes, `Atoi` reads.
use Prim.Native.Char.{Char, code}
use Prim.Native.String.{String, ◌++◌}
use text.Mathlib.TextLemmas.{
  nil-append, append-nil, cons-append, append_assoc, append-ne-nil_of_right_ne-nil, cons-ne-nil,
}
use orris.Prelude.{
  ℕ, zero, suc, ◌+◌, ◌-◌, ◌*◌, ◌/◌, ◌%◌, ◌≤◌, ◌<◌, ◌≡◌, ◌≢◌, ◌⊎◌, refl, sym, ◌∙◌, ap, true, some,
  arith, nat_eq, ℤ, pos, negsuc, ltb, inl, inr, Bool-cases, ◌&&◌, leb,
}
use orris.Client.Text.{digit, digits, format_nat, format_int}
use orris.Control.Text.{read_digits, read_nat, atoi, negated, as_int}
use orris.Control.Text.Cut.{Avoids, IsSolid}

-- A property of the ten digits.
each_digit {ℓ} :
    (P : ℕ → Type ℓ)
    → P 0
    → P 1
    → P 2
    → P 3
    → P 4
    → P 5
    → P 6
    → P 7
    → P 8
    → P 9
    → (d : ℕ) → d < 10
    → P d
each_digit P a b c e f g h i j k zero _ = a
each_digit P a b c e f g h i j k (suc zero) _ = b
each_digit P a b c e f g h i j k (suc (suc zero)) _ = c
each_digit P a b c e f g h i j k (suc (suc (suc zero))) _ = e
each_digit P a b c e f g h i j k (suc (suc (suc (suc zero)))) _ = f
each_digit P a b c e f g h i j k (suc (suc (suc (suc (suc zero))))) _ = g
each_digit P a b c e f g h i j k (suc (suc (suc (suc (suc (suc zero)))))) _ = h
each_digit P a b c e f g h i j k (suc (suc (suc (suc (suc (suc (suc zero))))))) _ = i
each_digit P a b c e f g h i j k (suc (suc (suc (suc (suc (suc (suc (suc zero)))))))) _ = j
each_digit P a b c e f g h i j k (suc (suc (suc (suc (suc (suc (suc (suc (suc zero))))))))) _ = k
each_digit P a b c e f g h i j k (suc (suc (suc (suc (suc (suc (suc (suc (suc (suc n))))))))))
      less =
    absurd (omega arith)

-- A digit as a character.
abbrev HasChar : ℕ → Type 0
HasChar d = (c : Char) × (digit d ≡ String.◌∷◌ c "") × (code c ≡ 48 + d)

digit-HasChar : (d : ℕ) → d < 10 → HasChar d
digit-HasChar =
    each_digit HasChar ("0", refl, refl) ("1", refl, refl) ("2", refl, refl) ("3", refl, refl)
      ("4", refl, refl) ("5", refl, refl) ("6", refl, refl) ("7", refl, refl) ("8", refl, refl)
      ("9", refl, refl)

read_digits-digit :
    (n d : ℕ) (rest : String)
    → d < 10
    → read_digits n (digit d ++ rest) ≡ read_digits (10 * n + d) rest
unfolding read_digits
read_digits-digit n d rest less =
    let (c, same, value) = digit-HasChar d less in
    let next : 10 * n + (code c - 48) ≡ 10 * n + d = omega (arith, value) in
    let test : (leb 48 (code c) && leb (code c) 57) ≡ true = ground (arith, value, less) in
    rw (same, cons-append c "" rest, nil-append rest, read_digits, test, next) refl

read_digits-digits :
    (fuel n : ℕ) (rest : String)
    → n < fuel
    → read_digits 0 (digits fuel n ++ rest) ≡ read_digits n rest
unfolding digits
read_digits-digits zero n rest h = absurd (omega arith)
read_digits-digits (suc fuel) n rest h = elim (Bool-cases (ltb n 10)) [
  | inl small ↦
      let value : 10 * 0 + n ≡ n = omega arith in
      rw small
        (read_digits-digit 0 n rest (ground (arith, small)) ∙ ap (λ k. read_digits k rest) value)
  | inr large ↦
      let tail = digit (n % 10) ++ rest in
      let higher = read_digits-digits fuel (n / 10) tail (ground (arith, h, large)) in
      let last = read_digits-digit (n / 10) (n % 10) rest (omega arith) in
      let whole : 10 * (n / 10) + n % 10 ≡ n = omega arith in
      rw (large, append_assoc) (higher ∙ last ∙ ap (λ k. read_digits k rest) whole)
]

-- Digits only.
abbrev pub IsNumeral : String → Type 0
IsNumeral String.[] = Unit
IsNumeral (String.◌∷◌ c s) = (48 ≤ code c) × (code c ≤ 57) × IsNumeral s

IsNumeral-append : (s t : String) → IsNumeral s → IsNumeral t → IsNumeral (s ++ t)
IsNumeral-append String.[] t hs ht = rw (nil-append t) ht
IsNumeral-append (String.◌∷◌ c s) t (low, high, hs) ht =
    rw (cons-append c s t) ((low, high, IsNumeral-append s t hs ht))

digit-IsNumeral : (d : ℕ) → d < 10 → IsNumeral (digit d)
digit-IsNumeral d less =
    let (c, same, value) = digit-HasChar d less in rw same ((omega arith, omega arith, tt))

digits-IsNumeral : (fuel n : ℕ) → IsNumeral (digits fuel n)
unfolding digits
digits-IsNumeral zero n = tt
digits-IsNumeral (suc fuel) n = elim (Bool-cases (ltb n 10)) [
  | inl small ↦ rw small (digit-IsNumeral n (ground (arith, small)))
  | inr large ↦ rw large (
      IsNumeral-append (digits fuel (n / 10)) (digit (n % 10)) (digits-IsNumeral fuel (n / 10))
        (digit-IsNumeral (n % 10) (omega arith)))
]

pub format_nat-IsNumeral : (n : ℕ) → IsNumeral (format_nat n)
unfolding format_nat
format_nat-IsNumeral n = digits-IsNumeral (suc n) n

pub IsNumeral-Avoids : (k : ℕ) (s : String) → (k < 48) ⊎ (57 < k) → IsNumeral s → Avoids k s
IsNumeral-Avoids k String.[] other h = tt
IsNumeral-Avoids k (String.◌∷◌ c s) other (low, high, h) =
    ((λ e. ground (arith, other, e, low, high)), IsNumeral-Avoids k s other h)

pub IsNumeral-IsSolid : (s : String) → IsNumeral s → IsSolid s
IsNumeral-IsSolid String.[] h = tt
IsNumeral-IsSolid (String.◌∷◌ c s) (low, high, h) =
    (ground (arith, low, high), IsNumeral-IsSolid s h)

digit-not_empty : (d : ℕ) → d < 10 → digit d ≢ ""
digit-not_empty d less e =
    let (c, same, value) = digit-HasChar d less in absurd (cons-ne-nil c "" (sym same ∙ e))

pub format_nat-not_empty : (n : ℕ) → format_nat n ≢ ""
unfolding format_nat digits
format_nat-not_empty n = elim (Bool-cases (ltb n 10)) [
  | inl small ↦ rw small (digit-not_empty n (ground (arith, small)))
  | inr large ↦ rw large (append-ne-nil_of_right_ne-nil _ (digit-not_empty (n % 10) (omega arith)))
]

read_nat-some : (s : String) → s ≢ "" → read_nat s ≡ read_digits 0 s
unfolding read_nat
read_nat-some String.[] h = absurd (h refl)
read_nat-some (String.◌∷◌ c s) h = refl

-- A number that is written is read back.
pub read_nat-format_nat : (n : ℕ) → read_nat (format_nat n) ≡ some n
unfolding format_nat read_digits
read_nat-format_nat n =
    read_nat-some (format_nat n) (format_nat-not_empty n)
    ∙ ap (read_digits 0) (sym (append-nil (format_nat n)))
    ∙ read_digits-digits (suc n) n "" (omega arith)

atoi-numeral : (s : String) → s ≢ "" → IsNumeral s → atoi s ≡ as_int (read_nat s)
unfolding atoi
atoi-numeral String.[] some_text h = absurd (some_text refl)
atoi-numeral (String.◌∷◌ c s) some_text (low, high, h) = ground (arith, low, high)

pub atoi-format_nat : (n : ℕ) → atoi (format_nat n) ≡ some (pos n)
atoi-format_nat n =
    atoi-numeral (format_nat n) (format_nat-not_empty n) (format_nat-IsNumeral n)
    ∙ ap as_int (read_nat-format_nat n)

-- Atoi reads what `%d` wrote, with its sign.
pub atoi-format_int : (z : ℤ) → atoi (format_int z) ≡ some z
unfolding format_int atoi
atoi-format_int (pos n) = atoi-format_nat n
atoi-format_int (negsuc n) =
    rw (cons-append "-" "" (format_nat (suc n)), nil-append, atoi)
      (ap negated (read_nat-format_nat (suc n)))

pub format_nat-inj : (n m : ℕ) → format_nat n ≡ format_nat m → n ≡ m
format_nat-inj n m e =
    let same = sym (read_nat-format_nat n) ∙ ap read_nat e ∙ read_nat-format_nat m in cc
