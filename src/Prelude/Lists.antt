-- ===== src/Prelude/Lists.antt =====
-- Slices: lists measured and indexed by native numbers, and by a Go index that may be out of range.
use Prim.Native.Nat.{ℕ, zero, suc, ◌+◌, ◌-◌, ◌≤◌, ◌<◌, min}
use mathlib.Core.Path.{◌≡◌, refl, ap}
use mathlib.Core.List.{List, [], ◌∷◌, ◌++◌}
use mathlib.Core.Option.{Option, none, some}
use native.Mathlib.Omega.{arith}
use orris.Prelude.Int.{ℤ, pos, negsuc}

module _ {ℓ} {A : Type ℓ} where
  abbrev pub length : List A → ℕ
  length [] = 0
  length (x ∷ xs) = suc (length xs)

  abbrev pub get_elem? : List A → ℕ → Option A
  get_elem? [] i = none
  get_elem? (x ∷ xs) zero = some x
  get_elem? (x ∷ xs) (suc i) = get_elem? xs i

  abbrev pub take : ℕ → List A → List A
  take zero xs = []
  take (suc n) [] = []
  take (suc n) (x ∷ xs) = x ∷ take n xs

  abbrev pub drop : ℕ → List A → List A
  drop zero xs = xs
  drop (suc n) [] = []
  drop (suc n) (x ∷ xs) = drop n xs

  abbrev pub get_last? : List A → Option A
  get_last? [] = none
  get_last? (x ∷ []) = some x
  get_last? (x ∷ y ∷ xs) = get_last? (y ∷ xs)

module _ {ℓ} {A : Type ℓ} where
  -- `xs[i]`: a panic where `i` is negative or past the end.
  abbrev pub at : List A → ℤ → Option A
  at xs (pos i) = get_elem? xs i
  at xs (negsuc i) = none

  -- `xs[:k]`, for a `k` of at most `len(xs)`; a negative `k` panics.
  abbrev pub slice_to : List A → ℤ → Option (List A)
  slice_to xs (pos k) = some (take k xs)
  slice_to xs (negsuc k) = none

  pub length-append : (xs ys : List A) → length (xs ++ ys) ≡ length xs + length ys
  length-append [] ys = omega arith
  length-append (x ∷ xs) ys = omega (arith, length-append xs ys)

  pub length-take : (n : ℕ) (xs : List A) → length (take n xs) ≡ min n (length xs)
  length-take zero xs = omega arith
  length-take (suc n) [] = omega arith
  length-take (suc n) (x ∷ xs) = omega (arith, length-take n xs)

  pub length-drop : (n : ℕ) (xs : List A) → length (drop n xs) ≡ length xs - n
  length-drop zero xs = omega arith
  length-drop (suc n) [] = omega arith
  length-drop (suc n) (x ∷ xs) = omega (arith, length-drop n xs)

  pub take_all : (n : ℕ) (xs : List A) → length xs ≤ n → take n xs ≡ xs
  take_all zero [] h = refl
  take_all zero (x ∷ xs) h = absurd (omega arith)
  take_all (suc n) [] h = refl
  take_all (suc n) (x ∷ xs) h = ap (◌∷◌ x) (take_all n xs (omega arith))

  pub take-append_left : (n : ℕ) (xs ys : List A) → n ≤ length xs → take n (xs ++ ys) ≡ take n xs
  take-append_left zero xs ys h = refl
  take-append_left (suc n) [] ys h = absurd (omega arith)
  take-append_left (suc n) (x ∷ xs) ys h = ap (◌∷◌ x) (take-append_left n xs ys (omega arith))

  pub take-append : (xs ys : List A) → take (length xs) (xs ++ ys) ≡ xs
  take-append [] ys = refl
  take-append (x ∷ xs) ys = ap (◌∷◌ x) (take-append xs ys)

  pub take-append_right :
      (n : ℕ) (xs ys : List A) → take (length xs + n) (xs ++ ys) ≡ xs ++ take n ys
  take-append_right n [] ys = ap (λ k. take k ys) (omega arith)
  take-append_right n (x ∷ xs) ys =
      let e : suc (length xs) + n ≡ suc (length xs + n) = omega arith in
      rw e (ap (◌∷◌ x) (take-append_right n xs ys))

  pub drop-append : (xs ys : List A) → drop (length xs) (xs ++ ys) ≡ ys
  drop-append [] ys = refl
  drop-append (x ∷ xs) ys = drop-append xs ys

  pub take-append-drop : (n : ℕ) (xs : List A) → take n xs ++ drop n xs ≡ xs
  take-append-drop zero xs = refl
  take-append-drop (suc n) [] = refl
  take-append-drop (suc n) (x ∷ xs) = ap (◌∷◌ x) (take-append-drop n xs)

  pub get_elem?-take : (n i : ℕ) (xs : List A) → i < n → get_elem? (take n xs) i ≡ get_elem? xs i
  get_elem?-take zero i xs h = absurd (omega arith)
  get_elem?-take (suc n) i [] h = refl
  get_elem?-take (suc n) zero (x ∷ xs) h = refl
  get_elem?-take (suc n) (suc i) (x ∷ xs) h = get_elem?-take n i xs (omega arith)

  pub get_elem?-append_left :
      (i : ℕ) (xs ys : List A) → i < length xs → get_elem? (xs ++ ys) i ≡ get_elem? xs i
  get_elem?-append_left i [] ys h = absurd (omega arith)
  get_elem?-append_left zero (x ∷ xs) ys h = refl
  get_elem?-append_left (suc i) (x ∷ xs) ys h = get_elem?-append_left i xs ys (omega arith)

  pub get_elem?_lt : (i : ℕ) (xs : List A) → i < length xs → (x : A) × (get_elem? xs i ≡ some x)
  get_elem?_lt i [] h = absurd (omega arith)
  get_elem?_lt zero (x ∷ xs) h = (x, refl)
  get_elem?_lt (suc i) (x ∷ xs) h = get_elem?_lt i xs (omega arith)

  pub lt_of_get_elem? : (i : ℕ) (xs : List A) (x : A) → get_elem? xs i ≡ some x → i < length xs
  lt_of_get_elem? i [] x h = ground arith
  lt_of_get_elem? zero (y ∷ xs) x h = omega arith
  lt_of_get_elem? (suc i) (y ∷ xs) x h = omega (arith, lt_of_get_elem? i xs x h)

  -- One more element at the cut.
  pub take-suc :
      (n : ℕ) (xs : List A) (x : A)
      → get_elem? xs n ≡ some x
      → take (suc n) xs ≡ take n xs ++ x ∷ []
  take-suc n [] x h = ground arith
  take-suc zero (y ∷ xs) x h = ground arith
  take-suc (suc n) (y ∷ xs) x h = ap (◌∷◌ y) (take-suc n xs x h)

  pub drop-cons :
      (n : ℕ) (xs : List A) (x : A) → get_elem? xs n ≡ some x → drop n xs ≡ x ∷ drop (suc n) xs
  drop-cons n [] x h = ground arith
  drop-cons zero (y ∷ xs) x h = ground arith
  drop-cons (suc n) (y ∷ xs) x h = drop-cons n xs x h

  pub drop_all : (n : ℕ) (xs : List A) → length xs ≤ n → drop n xs ≡ []
  drop_all zero [] h = refl
  drop_all zero (x ∷ xs) h = absurd (omega arith)
  drop_all (suc n) [] h = refl
  drop_all (suc n) (x ∷ xs) h = drop_all n xs (omega arith)

  pub le_of_get_elem?-none : (i : ℕ) (xs : List A) → get_elem? xs i ≡ none → length xs ≤ i
  le_of_get_elem?-none i [] h = omega arith
  le_of_get_elem?-none zero (x ∷ xs) h = absurd (cc)
  le_of_get_elem?-none (suc i) (x ∷ xs) h = omega (arith, le_of_get_elem?-none i xs h)

  pub get_elem?-append_right :
      (xs ys : List A) (i : ℕ) → get_elem? (xs ++ ys) (length xs + i) ≡ get_elem? ys i
  get_elem?-append_right [] ys i = ap (get_elem? ys) (omega arith)
  get_elem?-append_right (x ∷ xs) ys i =
      let e : suc (length xs) + i ≡ suc (length xs + i) = omega arith in
      rw e (get_elem?-append_right xs ys i)

  pub get_elem?_of_drop :
      (i : ℕ) (xs : List A) (x : A) (rest : List A) → drop i xs ≡ x ∷ rest → get_elem? xs i ≡ some x
  get_elem?_of_drop zero (y ∷ xs) x rest h = ground (arith, h)
  get_elem?_of_drop zero [] x rest h = absurd (cc)
  get_elem?_of_drop (suc i) [] x rest h = absurd (cc)
  get_elem?_of_drop (suc i) (y ∷ xs) x rest h = get_elem?_of_drop i xs x rest h
