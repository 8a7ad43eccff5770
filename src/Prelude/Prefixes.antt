-- ===== src/Prelude/Prefixes.antt =====
-- Lists that begin alike.
use Prim.Native.Nat.{ℕ, ◌≤◌}
use mathlib.Core.Path.{◌≡◌, refl, sym, subst, ◌∙◌}
use mathlib.Core.Option.{some}
use mathlib.Core.List.{List, [], ◌++◌, append-nil, append_assoc}
use native.Mathlib.Omega.{arith}
use orris.Prelude.Lists.{
  length, get_elem?, take, drop, length-append, length-take, take-append, take-append_left,
  take-append-drop, get_elem?-append_left, lt_of_get_elem?,
}

module _ {ℓ} {A : Type ℓ} where
  abbrev pub Prefix : List A → List A → Type ℓ
  Prefix xs ys = (zs : List A) × (ys ≡ xs ++ zs)

  pub Prefix-refl : (xs : List A) → Prefix xs xs
  Prefix-refl xs = ([], sym (append-nil xs))

  pub Prefix-nil : (xs : List A) → Prefix [] xs
  Prefix-nil xs = (xs, refl)

  pub Prefix-trans : (xs ys zs : List A) → Prefix xs ys → Prefix ys zs → Prefix xs zs
  Prefix-trans xs ys zs (u, p) (v, q) = (u ++ v, q ∙ rw p (append_assoc xs u v))

  pub Prefix-append : (xs ys : List A) → Prefix xs (xs ++ ys)
  Prefix-append xs ys = (ys, refl)

  pub Prefix-take : (n : ℕ) (xs : List A) → Prefix (take n xs) xs
  Prefix-take n xs = (drop n xs, sym (take-append-drop n xs))

  pub take-Prefix : (n : ℕ) (xs ys : List A) → n ≤ length xs → Prefix xs ys → take n ys ≡ take n xs
  take-Prefix n xs ys h (zs, p) = rw p (take-append_left n xs zs h)

  pub Prefix-eq_take : (xs ys : List A) → Prefix xs ys → take (length xs) ys ≡ xs
  Prefix-eq_take xs ys (zs, p) = rw p (take-append xs zs)

  pub length-Prefix : (xs ys : List A) → Prefix xs ys → length xs ≤ length ys
  length-Prefix xs ys (zs, p) = rw p (omega (arith, length-append xs zs))

  pub get_elem?-Prefix :
      (k : ℕ) (xs ys : List A) (x : A)
      → get_elem? xs k ≡ some x
      → Prefix xs ys
      → get_elem? ys k ≡ some x
  get_elem?-Prefix k xs ys x got (zs, p) =
      rw p (get_elem?-append_left k xs zs (lt_of_get_elem? k xs x got) ∙ got)

  pub length-take_le : (n : ℕ) (xs : List A) → n ≤ length xs → length (take n xs) ≡ n
  length-take_le n xs h = omega (arith, length-take n xs)

  -- Of two that a list begins with, the longer begins with the shorter.
  pub Prefix-both :
      (xs ys zs : List A) → Prefix xs zs → Prefix ys zs → length xs ≤ length ys → Prefix xs ys
  Prefix-both xs ys zs p q h =
      let same : xs ≡ take (length xs) ys =
        sym (Prefix-eq_take xs zs p) ∙ take-Prefix (length xs) ys zs h q in
      rw same (Prefix-take (length xs) ys)

  -- Prefixes of one list that have one length are the same.
  pub take-of_both :
      (n : ℕ) (xs ys zs : List A)
      → n ≤ length xs
      → n ≤ length ys
      → Prefix (take n xs) zs
      → Prefix (take n ys) zs
      → take n xs ≡ take n ys
  take-of_both n xs ys zs hx hy p q =
      let left = Prefix-eq_take (take n xs) zs p in
      let right = Prefix-eq_take (take n ys) zs q in
      sym (subst (λ j. take j zs ≡ take n xs) (length-take_le n xs hx) left)
      ∙ subst (λ j. take j zs ≡ take n ys) (length-take_le n ys hy) right
