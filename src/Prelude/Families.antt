-- ===== src/Prelude/Families.antt =====
-- Families indexed by numbers: a write at one index, and how many of the first ones pass a test.
use Prim.Native.Nat.{ℕ, zero, suc, ◌+◌, ◌≤◌, ◌<◌}
use native.Mathlib.Decide.{ℕ_discrete}
use mathlib.Core.Path.{◌≡◌, refl}
use mathlib.Core.Logic.{◌≢◌, inl, inr}
use mathlib.Core.Bool.{Bool, true, false}
use native.Mathlib.Omega.{arith}
use orris.Prelude.Tests.{◌==◌, nat_eq, if◌then◌else◌, Bool-cases}

abbrev pub bit : Bool → ℕ
bit true = 1
bit false = 0

pub bit_le : (b : Bool) → bit b ≤ 1
bit_le true = omega arith
bit_le false = omega arith

module _ {ℓ} {A : Type ℓ} where
  abbrev pub put : (ℕ → A) → ℕ → A → ℕ → A
  put f i a j = if j == i then a else f j

  pub put_there : (f : ℕ → A) (i : ℕ) (a : A) → put f i a i ≡ a
  put_there f i a = ground arith

  pub put_elsewhere : (f : ℕ → A) (i : ℕ) (a : A) (j : ℕ) → j ≢ i → put f i a j ≡ f j
  put_elsewhere f i a j other = ground arith

  -- What the new value and the old ones satisfy, the family satisfies.
  pub put_all {κ} :
      (P : ℕ → A → Type κ) (f : ℕ → A) (i : ℕ) (a : A)
      → P i a
      → ((j : ℕ) → j ≢ i → P j (f j))
      → (j : ℕ) → P j (put f i a j)
  put_all P f i a new old j = elim (ℕ_discrete j i) [
    | yes same ↦ rw same (rw (put_there f i a) new)
    | no other ↦ rw (put_elsewhere f i a j other) (old j other)
  ]

  module _ (test : A → Bool) where
    -- How many `j < n` have `test (f j)`.
    unfoldable pub tally : (ℕ → A) → ℕ → ℕ
    tally f zero = 0
    tally f (suc n) = bit (test (f n)) + tally f n

    tally-put_beyond : (f : ℕ → A) (i : ℕ) (a : A) (n : ℕ) → n ≤ i → tally (put f i a) n ≡ tally f n
    unfolding tally
    tally-put_beyond f i a zero h = refl
    tally-put_beyond f i a (suc n) h =
        let below = tally-put_beyond f i a n (omega arith) in ground arith

    pub tally-put :
        (f : ℕ → A) (i : ℕ) (a : A) (n : ℕ)
        → i < n
        → tally (put f i a) n + bit (test (f i)) ≡ tally f n + bit (test a)
    unfolding tally
    tally-put f i a zero h = absurd (omega arith)
    tally-put f i a (suc n) h = elim (ℕ_discrete n i) [
      | yes last ↦
          let there = put_there f i a in
          rw (last, there) (omega (arith, tally-put_beyond f i a i (omega arith)))
      | no before ↦
          let below = tally-put f i a n (omega arith) in
          rw (put_elsewhere f i a n before) (omega arith)
    ]

    pub tally_none : (f : ℕ → A) → ((j : ℕ) → test (f j) ≡ false) → (n : ℕ) → tally f n ≡ 0
    unfolding tally
    tally_none f none_passes zero = refl
    tally_none f none_passes (suc n) =
        let rest = tally_none f none_passes n in rw (none_passes n) (omega arith)

module _ {ℓ κ} {A : Type ℓ} {B : Type κ} (test : A → Bool) (test' : B → Bool) where
  -- Two counts that are together more than there are indices share one.
  pub tally_overlap :
      (f : ℕ → A) (g : ℕ → B) (n : ℕ)
      → n < tally test f n + tally test' g n
      → (k : ℕ) × (k < n) × (test (f k) ≡ true) × (test' (g k) ≡ true)
  unfolding tally
  tally_overlap f g zero h = absurd (omega arith)
  tally_overlap f g (suc n) h =
      let below : n < tally test f n + tally test' g n
          → (k : ℕ) × (k < suc n) × (test (f k) ≡ true) × (test' (g k) ≡ true) =
        λ enough.
          let (k, less, first, second) = tally_overlap f g n enough in
          (k, omega arith, first, second) in
      elim (Bool-cases (test (f n))) [
        | inr failed ↦ below (ground (arith, h, failed, bit_le (test' (g n))))
        | inl passed ↦ elim (Bool-cases (test' (g n))) [
          | inl both ↦ (n, omega arith, passed, both)
          | inr failed ↦ below (ground (arith, h, failed, bit_le (test (f n))))
        ]
      ]
