-- ===== src/Client/Text/Split.antt =====
-- Trimming and splitting a line that was put together from words.
use Prim.Native.Char.{Char, code}
use Prim.Native.String.{String, ◌++◌}
use text.Mathlib.TextLemmas.{nil-append, cons-append, append-ne-nil_of_right_ne-nil}
use orris.Prelude.{
  ℕ, suc, not, ◌&&◌, ◌≡◌, ◌≢◌, refl, ◌∙◌, ap, Bool, true, false, Option, none, some, [], ◌∷◌, arith,
  ◌==◌, nat_eq, string_eq, inl, inr, Bool-cases,
}
use orris.Client.Text.{trim_left, trim_right, trim_space, cut, split_n, cons_trimmed, is_space}

-- No space in a text.
abbrev pub IsWord : String → Type 0
IsWord String.[] = Unit
IsWord (String.◌∷◌ c s) = (code c ≢ 32) × IsWord s

-- Nothing to trim at the end of a text that is not empty.
abbrev pub IsTrimmed : String → Type 0
IsTrimmed s = (trim_right s ≡ s) × (s ≢ "")

cons_trimmed-keep : (c : Char) (s : String) → s ≢ "" → cons_trimmed c s ≡ String.◌∷◌ c s
cons_trimmed-keep c String.[] h = absurd (h refl)
cons_trimmed-keep c (String.◌∷◌ d s) h = refl

trim_right-append : (s t : String) → IsTrimmed t → trim_right (s ++ t) ≡ s ++ t
unfolding trim_right
trim_right-append String.[] t h = rw (nil-append t) (h.0)
trim_right-append (String.◌∷◌ c s) t h =
    rw (cons-append c s t, trim_right, trim_right-append s t h)
      (cons_trimmed-keep c (s ++ t) (append-ne-nil_of_right_ne-nil s h.1))

space-append : (rest : String) → " " ++ rest ≡ String.◌∷◌ " " rest
space-append rest = cons-append " " "" rest ∙ ap (String.◌∷◌ " ") (nil-append rest)

cut-word : (s rest : String) → IsWord s → cut (s ++ (" " ++ rest)) ≡ (s, some rest)
unfolding cut
cut-word String.[] rest h = rw (nil-append, space-append) refl
cut-word (String.◌∷◌ c s) rest h =
    let test : (code c == 32) ≡ false = ground (arith, h.0) in
    rw (cons-append, cut, test, cut-word s rest h.1) refl

cut_all : (s : String) → IsWord s → cut s ≡ (s, none)
unfolding cut
cut_all String.[] h = refl
cut_all (String.◌∷◌ c s) h =
    let test : (code c == 32) ≡ false = ground (arith, h.0) in rw (test, cut_all s h.1) refl

pub IsTrimmed-append : (s t : String) → IsTrimmed t → IsTrimmed (s ++ t)
IsTrimmed-append s t h = (trim_right-append s t h, append-ne-nil_of_right_ne-nil s h.1)

pub trim_space-append :
    (c : Char) (s t : String)
    → is_space (code c) ≡ false
    → IsTrimmed t
    → trim_space (String.◌∷◌ c s ++ t) ≡ String.◌∷◌ c s ++ t
unfolding trim_space trim_left
trim_space-append c s t first h =
    rw (cons-append, trim_left, first, ← cons-append) (trim_right-append (String.◌∷◌ c s) t h)

split_n-some :
    (k : ℕ) (s first rest : String)
    → cut s ≡ (first, some rest)
    → split_n (suc (suc k)) s ≡ first ∷ split_n (suc k) rest
unfolding split_n
split_n-some k s first rest h =
    rw (split_n, h) (ap (λ (p : String × Option String). p.0 ∷ split_n (suc k) rest) h)

split_n-none :
    (k : ℕ) (s first : String) → cut s ≡ (first, none) → split_n (suc (suc k)) s ≡ first ∷ []
unfolding split_n
split_n-none k s first h = rw (split_n, h) (ap (λ (p : String × Option String). p.0 ∷ []) h)

pub split_two : (a b : String) → IsWord a → IsWord b → split_n 3 (a ++ (" " ++ b)) ≡ a ∷ b ∷ []
split_two a b ha hb =
    split_n-some 1 _ a b (cut-word a b ha) ∙ ap (◌∷◌ a) (split_n-none 0 b b (cut_all b hb))

pub split_three :
    (a b c : String)
    → IsWord a
    → IsWord b
    → split_n 3 (a ++ (" " ++ (b ++ (" " ++ c)))) ≡ a ∷ b ∷ c ∷ []
unfolding split_n
split_three a b c ha hb =
    split_n-some 1 _ a _ (cut-word a (b ++ (" " ++ c)) ha)
    ∙ ap (◌∷◌ a) (split_n-some 0 _ b c (cut-word b c hb))

-- The same by computation, for the words of the protocol.
abbrev pub is_word : String → Bool
is_word String.[] = true
is_word (String.◌∷◌ c s) = not (code c == 32) && is_word s

pub is_word-IsWord : (s : String) → is_word s ≡ true → IsWord s
is_word-IsWord String.[] h = tt
is_word-IsWord (String.◌∷◌ c s) h = elim (Bool-cases (code c == 32)) [
  | inl e ↦ absurd (ground (arith, h, e))
  | inr e ↦ (ground (arith, e), is_word-IsWord s (ground (arith, h, e)))
]
