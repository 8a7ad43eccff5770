-- ===== src/Prelude/Int.antt =====
-- Go's `int` where it may be negative, as an unbounded integer over the native numbers, with the
-- comparisons that the code makes. Sums and orders go through the two parts of an integer.
use Prim.Native.Nat.{ℕ, zero, suc, ◌+◌, ◌-◌, ◌≤◌}
use mathlib.Core.Path.{◌≡◌, ap}
use mathlib.Core.Bool.{Bool, true, false}
use native.Mathlib.Omega.{arith}
use orris.Prelude.Tests.{ltb, leb, nat_beq, if◌then◌else◌}

-- `negsuc n` is -(n + 1).
pub data ℤ : Type 0 where
  pos : ℕ → ℤ
  negsuc : ℕ → ℤ

abbrev pub pos_part : ℤ → ℕ
pos_part (pos n) = n
pos_part (negsuc n) = 0

abbrev pub neg_part : ℤ → ℕ
neg_part (pos n) = 0
neg_part (negsuc n) = suc n

-- a - b, as an integer.
abbrev pub sub_ℕ : ℕ → ℕ → ℤ
sub_ℕ a b = if leb b a then pos (a - b) else negsuc (b - a - 1)

infixl 65 ◌+ℤ◌ ◌-ℤ◌
infix 50 ◌≤ℤ◌ ◌<ℤ◌
unfoldable pub ◌+ℤ◌ : ℤ → ℤ → ℤ
a +ℤ b = sub_ℕ (pos_part a + pos_part b) (neg_part a + neg_part b)

unfoldable pub ◌-ℤ◌ : ℤ → ℤ → ℤ
a -ℤ b = sub_ℕ (pos_part a + neg_part b) (neg_part a + pos_part b)

abbrev pub ◌≤ℤ◌ : ℤ → ℤ → Type 0
a ≤ℤ b = pos_part a + neg_part b ≤ pos_part b + neg_part a

abbrev pub ◌<ℤ◌ : ℤ → ℤ → Type 0
a <ℤ b = suc (pos_part a + neg_part b) ≤ pos_part b + neg_part a

abbrev pub ltb_ℤ : ℤ → ℤ → Bool
ltb_ℤ a b = ltb (pos_part a + neg_part b) (pos_part b + neg_part a)

abbrev pub leb_ℤ : ℤ → ℤ → Bool
leb_ℤ a b = leb (pos_part a + neg_part b) (pos_part b + neg_part a)

abbrev pub beq_ℤ : ℤ → ℤ → Bool
beq_ℤ a b = nat_beq (pos_part a + neg_part b) (pos_part b + neg_part a)

-- The index before the first one: where the code starts its counters.
abbrev pub minus_one : ℤ
minus_one = negsuc 0

pub +ℤ_parts :
    (a b : ℤ)
    → pos_part (a +ℤ b) + neg_part a + neg_part b ≡ neg_part (a +ℤ b) + pos_part a + pos_part b
unfolding ◌+ℤ◌
+ℤ_parts a b = ground arith

pub -ℤ_parts :
    (a b : ℤ)
    → pos_part (a -ℤ b) + neg_part a + pos_part b ≡ neg_part (a -ℤ b) + pos_part a + neg_part b
unfolding ◌-ℤ◌
-ℤ_parts a b = ground arith

pub ltb_ℤ→lt : (a b : ℤ) → ltb_ℤ a b ≡ true → a <ℤ b
ltb_ℤ→lt a b h = ground arith

pub ltb_ℤ→le : (a b : ℤ) → ltb_ℤ a b ≡ false → b ≤ℤ a
ltb_ℤ→le a b h = ground arith

pub eq_of_parts : (a b : ℤ) → pos_part a + neg_part b ≡ pos_part b + neg_part a → a ≡ b
eq_of_parts a b h = ground arith

pub ruleset int_laws = (arith, +ℤ_parts, -ℤ_parts, eq_of_parts)

pub pos_succ : (n : ℕ) → pos n +ℤ pos 1 ≡ pos (suc n)
pos_succ n = omega int_laws

pub pos_add : (a b : ℕ) → pos a +ℤ pos b ≡ pos (a + b)
pos_add a b = omega int_laws

-- The parts of an index, from the position behind it.
pub pred_parts : (a : ℤ) (k : ℕ) → a +ℤ pos 1 ≡ pos k → pos_part a + 1 ≡ k + neg_part a
pred_parts a k h = omega (int_laws, ap pos_part h, ap neg_part h)

pub pred_eq : (a : ℤ) (k : ℕ) → a +ℤ pos 1 ≡ pos k → a ≡ pos k -ℤ pos 1
pred_eq a k h = omega (int_laws, pred_parts a k h)

pub pred_succ : (k : ℕ) → pos (suc k) -ℤ pos 1 ≡ pos k
pred_succ k = omega int_laws

pub succ_pred : (k : ℕ) → pos k -ℤ pos 1 +ℤ pos 1 ≡ pos k
succ_pred k = omega int_laws

-- An index at -1 or above, by the position behind it.
pub succ_of_above : (i : ℤ) → minus_one ≤ℤ i → (k : ℕ) × (i +ℤ pos 1 ≡ pos k)
succ_of_above (pos k) h = (suc k, pos_succ k)
succ_of_above (negsuc zero) h = (0, omega int_laws)
succ_of_above (negsuc (suc k)) h = absurd (omega arith)
