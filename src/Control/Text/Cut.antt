-- ===== src/Control/Text/Cut.antt =====
-- Cutting and splitting a text that was joined from parts.
use Prim.Native.Char.{Char, code}
use Prim.Native.String.{String, ◌++◌}
use text.Mathlib.TextLemmas.{nil-append, cons-append}
use orris.Prelude.{
  ℕ, zero, suc, ◌+◌, ◌≤◌, ◌≡◌, ◌≢◌, refl, Bool, Bool-cases, inl, inr, not, ◌&&◌, ◌∙◌, ap, true,
  false, Option, none, some, List, [], ◌∷◌, arith, ◌==◌, nat_eq, length,
}
use orris.Client.Text.{join, is_space}
use orris.Control.Text.{
  cut_prefix, cut_on, split_n_on, split_on, size, words, fields, keep_word, cut_here,
}

-- The text does not have the character of this code.
abbrev pub Avoids : ℕ → String → Type 0
Avoids k String.[] = Unit
Avoids k (String.◌∷◌ c s) = (code c ≢ k) × Avoids k s

pub Avoids-append : (k : ℕ) (s t : String) → Avoids k s → Avoids k t → Avoids k (s ++ t)
Avoids-append k String.[] t hs ht = rw (nil-append t) ht
Avoids-append k (String.◌∷◌ c s) t hs ht =
    rw (cons-append c s t) ((hs.0, Avoids-append k s t hs.1 ht))

pub cut_prefix-append : (p s : String) → cut_prefix p (p ++ s) ≡ some s
unfolding cut_prefix
cut_prefix-append String.[] s = rw (nil-append s) refl
cut_prefix-append (String.◌∷◌ c p) s =
    let rest = cut_prefix-append p s in rw (cons-append c p s, cut_prefix) (ground (arith, rest))

module _ (d : Char) (sep : String) where
  abbrev mark : String
  mark = String.◌∷◌ d sep

  no_mark : (c : Char) (s : String) → code c ≢ code d → cut_prefix mark (String.◌∷◌ c s) ≡ none
  unfolding cut_prefix
  no_mark c s other = ground (arith, other)

  pub cut_on-part :
      (s rest : String) → Avoids (code d) s → cut_on mark (s ++ (mark ++ rest)) ≡ (s, some rest)
  unfolding cut_on
  cut_on-part String.[] rest h =
      let found : cut_prefix mark (String.◌∷◌ d (sep ++ rest)) ≡ some rest =
        rw (← cons-append d sep rest) (cut_prefix-append mark rest) in
      rw (nil-append, cons-append d sep rest)
        (ap (λ o. cut_here d o (cut_on mark (sep ++ rest))) found)
  cut_on-part (String.◌∷◌ c s) rest h =
      rw
        (
          cons-append c s (mark ++ rest),
          cut_on,
          no_mark c (s ++ (mark ++ rest)) h.0,
          cut_on-part s rest h.1,
        )
        refl

  pub cut_on_all : (s : String) → Avoids (code d) s → cut_on mark s ≡ (s, none)
  unfolding cut_on cut_prefix
  cut_on_all String.[] h = refl
  cut_on_all (String.◌∷◌ c s) h = rw (cut_on, no_mark c s h.0, cut_on_all s h.1) refl

  split_n_on-more :
      (n : ℕ) (a b : String)
      → Avoids (code d) a
      → split_n_on mark (suc (suc n)) (a ++ (mark ++ b)) ≡ a ∷ split_n_on mark (suc n) b
  unfolding split_n_on
  split_n_on-more n a b h =
      ap
        (λ (p : String × Option String). elim p.1 [
          | none ↦ p.0 ∷ []
          | some rest ↦ p.0 ∷ split_n_on mark (suc n) rest
        ])
        (cut_on-part a b h)

  split_n_on-last : (n : ℕ) (a : String) → Avoids (code d) a → split_n_on mark (suc n) a ≡ a ∷ []
  unfolding split_n_on
  split_n_on-last zero a h = refl
  split_n_on-last (suc n) a h =
      ap
        (λ (p : String × Option String). elim p.1 [
          | none ↦ p.0 ∷ []
          | some rest ↦ p.0 ∷ split_n_on mark (suc n) rest
        ])
        (cut_on_all a h)

  pub split_two_on :
      (a b : String) → Avoids (code d) a → split_n_on mark 2 (a ++ (mark ++ b)) ≡ a ∷ b ∷ []
  unfolding split_n_on
  split_two_on a b h = split_n_on-more 0 a b h

  pub split_three_on :
      (a b c : String)
      → Avoids (code d) a
      → Avoids (code d) b
      → split_n_on mark 3 (a ++ (mark ++ (b ++ (mark ++ c)))) ≡ a ∷ b ∷ c ∷ []
  split_three_on a b c ha hb =
      split_n_on-more 1 a (b ++ (mark ++ c)) ha ∙ ap (◌∷◌ a) (split_two_on b c hb)

  -- Parts without the separator's first character.
  abbrev pub AllAvoid : List String → Type 0
  AllAvoid [] = Unit
  AllAvoid (s ∷ ss) = Avoids (code d) s × AllAvoid ss

  split_n_on-join :
      (n : ℕ) (s : String) (ss : List String)
      → AllAvoid (s ∷ ss)
      → length ss ≤ n
      → split_n_on mark (suc n) (join mark (s ∷ ss)) ≡ s ∷ ss
  unfolding join
  split_n_on-join n s [] h enough = split_n_on-last n s h.0
  split_n_on-join zero s (t ∷ ss) h enough = absurd (omega arith)
  split_n_on-join (suc n) s (t ∷ ss) h enough =
      split_n_on-more n s (join mark (t ∷ ss)) h.0
      ∙ ap (◌∷◌ s) (split_n_on-join n t ss h.1 (omega arith))

  size-append : (s t : String) → size (s ++ t) ≡ size s + size t
  size-append String.[] t = rw (nil-append t) (omega arith)
  size-append (String.◌∷◌ c s) t = rw (cons-append c s t) (omega (arith, size-append s t))

  size-join : (s : String) (ss : List String) → length ss ≤ size (join mark (s ∷ ss))
  unfolding join
  size-join s [] = omega arith
  size-join s (t ∷ ss) = omega (
    arith,
    size-join t ss,
    size-append s (mark ++ join mark (t ∷ ss)),
    size-append mark (join mark (t ∷ ss)),
  )

  -- Splitting undoes joining.
  pub split_on-join :
      (s : String) (ss : List String)
      → AllAvoid (s ∷ ss)
      → split_on mark (join mark (s ∷ ss)) ≡ s ∷ ss
  unfolding split_on
  split_on-join s ss h = split_n_on-join (size (join mark (s ∷ ss))) s ss h (size-join s ss)

-- A word in front of a space.
abbrev pub IsSolid : String → Type 0
IsSolid String.[] = Unit
IsSolid (String.◌∷◌ c s) = (is_space (code c) ≡ false) × IsSolid s

pub IsSolid-append : (s t : String) → IsSolid s → IsSolid t → IsSolid (s ++ t)
IsSolid-append String.[] t hs ht = rw (nil-append t) ht
IsSolid-append (String.◌∷◌ c s) t hs ht =
    rw (cons-append c s t) ((hs.0, IsSolid-append s t hs.1 ht))

words-part : (w rest : String) → IsSolid w → words (w ++ (" " ++ rest)) ≡ (w, fields rest)
unfolding words fields
words-part String.[] rest h = rw (nil-append, cons-append " " "" rest, nil-append rest, words) refl
words-part (String.◌∷◌ c w) rest h =
    rw (cons-append c w (" " ++ rest), words, h.0, words-part w rest h.1) refl

words_all : (w : String) → IsSolid w → words w ≡ (w, [])
unfolding words
words_all String.[] h = refl
words_all (String.◌∷◌ c w) h = rw (words, h.0, words_all w h.1) refl

pub fields-part :
    (w rest : String) → IsSolid w → w ≢ "" → fields (w ++ (" " ++ rest)) ≡ w ∷ fields rest
unfolding fields
fields-part String.[] rest h some_text = absurd (some_text refl)
fields-part (String.◌∷◌ c w) rest h some_text =
    ap (λ (p : String × List String). keep_word p.0 p.1) (words-part (String.◌∷◌ c w) rest h)

pub fields_all : (w : String) → IsSolid w → w ≢ "" → fields w ≡ w ∷ []
unfolding fields
fields_all String.[] h some_text = absurd (some_text refl)
fields_all (String.◌∷◌ c w) h some_text =
    ap (λ (p : String × List String). keep_word p.0 p.1) (words_all (String.◌∷◌ c w) h)

-- The same by computation, for literals.
abbrev pub lacks : ℕ → String → Bool
lacks k String.[] = true
lacks k (String.◌∷◌ c s) = not (code c == k) && lacks k s

pub lacks-Avoids : (k : ℕ) (s : String) → lacks k s ≡ true → Avoids k s
lacks-Avoids k String.[] h = tt
lacks-Avoids k (String.◌∷◌ c s) h = elim (Bool-cases (code c == k)) [
  | inl e ↦ absurd (ground (arith, h, e))
  | inr e ↦ (ground (arith, e), lacks-Avoids k s (ground (arith, h, e)))
]

abbrev pub is_solid : String → Bool
is_solid String.[] = true
is_solid (String.◌∷◌ c s) = not (is_space (code c)) && is_solid s

pub is_solid-IsSolid : (s : String) → is_solid s ≡ true → IsSolid s
is_solid-IsSolid String.[] h = tt
is_solid-IsSolid (String.◌∷◌ c s) h = elim (Bool-cases (is_space (code c))) [
  | inl e ↦ absurd (ground (arith, h, e))
  | inr e ↦ (e, is_solid-IsSolid s (ground (arith, h, e)))
]
