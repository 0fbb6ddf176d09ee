-- ===== src/Prelude/Magnitude.antt =====
-- Integers ordered by magnitude, the order in which Euclid's algorithm ends.
use mathlib.Core.WellFounded.{Acc, WellFounded}
use native.Mathlib.Nat
use parted.Prelude.{ℕ, zero, suc, ◌≤◌, ◌<◌, arith}
use parted.Prelude.Int.{ℤ, pos_part, neg_part, abs_ℕ, ◌%ℤ◌, abs_ℕ-%ℤ, abs_ℕ_lem}

infix 50 ◌⊏◌
abbrev pub ◌⊏◌ : ℤ → ℤ → Type 0
a ⊏ b = abs_ℕ a < abs_ℕ b

Acc_below : (k : ℕ) (a : ℤ) → abs_ℕ a < k → Acc ◌⊏◌ a
Acc_below zero a h = absurd (omega arith)
Acc_below (suc k) a h = Acc.intro a (λ b hb. Acc_below k b (omega arith))

unfoldable pub ⊏_wf : WellFounded ◌⊏◌
unfolding Acc_below
⊏_wf = record { apply = λ a. Acc_below (suc (abs_ℕ a)) a (omega arith) }

pub %ℤ-⊏ : (a b : ℤ) → 0 < abs_ℕ b → a %ℤ b ⊏ b
%ℤ-⊏ a b h = rw (abs_ℕ-%ℤ a b) (Nat.mod-lt (abs_ℕ a) h)

pub lt-⊏ : (a b : ℤ) → neg_part a ≤ 0 → pos_part a < pos_part b → a ⊏ b
lt-⊏ a b h k = omega (arith, abs_ℕ_lem a, abs_ℕ_lem b)
