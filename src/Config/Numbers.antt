-- ===== src/Config/Numbers.antt =====
-- Python's integers, with the comparisons and the product that the settings use.
use camouflare.Prelude.{zero, refl, ℕ, suc, ◌*◌, ◌≤◌, Bool, true, false, leb, ◌≡◌, arith}

pub data ℤ : Type 0 where
  pos negsuc : ℕ → ℤ

abbrev pub at_most : ℤ → ℤ → Bool
at_most (pos a) (pos b) = leb a b
at_most (pos a) (negsuc b) = false
at_most (negsuc a) (pos b) = true
at_most (negsuc a) (negsuc b) = leb b a

-- `- n`
abbrev pub negate : ℕ → ℤ
negate n = elim n [ zero ↦ pos 0 | suc k ↦ negsuc k ]

abbrev pub times : ℤ → ℤ → ℤ
times (pos a) (pos b) = pos (a * b)
times (pos a) (negsuc b) = negate (a * suc b)
times (negsuc a) (pos b) = negate (suc a * b)
times (negsuc a) (negsuc b) = pos (suc a * suc b)

-- A number that is known not to be negative, as a count.
abbrev pub to_nat : ℤ → ℕ
to_nat (pos n) = n
to_nat (negsuc n) = 0

-- The facts that a failed test gives about the counts.
pub above_zero : (a : ℤ) → at_most a (pos 0) ≡ false → 1 ≤ to_nat a
above_zero (pos n) h = ground (arith, h)
above_zero (negsuc n) h = absurd (ground (arith, h))

pub not_above : (a b : ℤ) → at_most (pos 0) a ≡ true → at_most a b ≡ true → to_nat a ≤ to_nat b
not_above (pos n) (pos m) h k = ground (arith, k)
not_above (pos n) (negsuc m) h k = absurd (ground (arith, k))
not_above (negsuc n) b h k = absurd (ground (arith, h))

pub to_nat-times :
    (a b : ℤ)
    → at_most (pos 0) a ≡ true
    → at_most (pos 0) b ≡ true
    → to_nat (times a b) ≡ to_nat a * to_nat b
to_nat-times (pos a) (pos b) h k = refl
to_nat-times (pos a) (negsuc b) h k = absurd (ground (arith, k))
to_nat-times (negsuc a) b h k = absurd (ground (arith, h))

pub positive-not_negative : (a : ℤ) → at_most a (pos 0) ≡ false → at_most (pos 0) a ≡ true
positive-not_negative (pos n) h = ground arith
positive-not_negative (negsuc n) h = absurd (ground (arith, h))
