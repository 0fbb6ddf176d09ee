-- ===== src/Prelude/Int/Ring.antt =====
-- The laws of a commutative ring, proved on differences of numbers.
use parted.Prelude.{ℕ, ◌+◌, ◌*◌, ◌≡◌, refl, sym, ap, ◌∙◌, arith}
use parted.Prelude.Int.Defs.{ℤ, pos, negsuc, pos_part, neg_part, diff, ◌≤ℤ◌, ◌+ℤ◌, ◌-ℤ◌, ◌*ℤ◌}
use parted.Prelude.Int.Parts.{int_laws, diff_parts}

pub diff_eq : (a b c d : ℕ) → a + d ≡ c + b → diff a b ≡ diff c d
diff_eq a b c d h = omega int_laws

pub as_diff : (a : ℤ) → a ≡ diff (pos_part a) (neg_part a)
as_diff a = omega int_laws

pub +ℤ-diff : (a b c d : ℕ) → diff a b +ℤ diff c d ≡ diff (a + c) (b + d)
+ℤ-diff a b c d = omega int_laws

pub -ℤ-diff : (a b c d : ℕ) → diff a b -ℤ diff c d ≡ diff (a + d) (b + c)
-ℤ-diff a b c d = omega int_laws

pub *ℤ_lem :
    (x y : ℤ)
    → x *ℤ y
      ≡ diff
          (pos_part x * pos_part y + neg_part x * neg_part y)
          (pos_part x * neg_part y + neg_part x * pos_part y)
unfolding ◌*ℤ◌
*ℤ_lem x y = refl

-- Two differences have the same product as the numbers that stand for them.
product_eq :
    (p n q m a b c d : ℕ)
    → p + b ≡ n + a
    → q + d ≡ m + c
    → p * q + n * m + (a * d + b * c) ≡ a * c + b * d + (p * m + n * q)
product_eq p n q m a b c d h k = omega (
  arith,
  ap (λ (t : ℕ). t * q) h,
  ap (λ (t : ℕ). t * m) h,
  ap (λ (t : ℕ). a * t) k,
  ap (λ (t : ℕ). b * t) k,
)

pub *ℤ-diff : (a b c d : ℕ) → diff a b *ℤ diff c d ≡ diff (a * c + b * d) (a * d + b * c)
*ℤ-diff a b c d =
    *ℤ_lem (diff a b) (diff c d)
    ∙ diff_eq _ _ _ _ (product_eq _ _ _ _ a b c d (diff_parts a b) (diff_parts c d))

pub ruleset on_diffs = (+ℤ-diff, -ℤ-diff, *ℤ-diff)

pub *ℤ_parts :
    (x y : ℤ)
    → pos_part (x *ℤ y) + (pos_part x * neg_part y + neg_part x * pos_part y)
      ≡ neg_part (x *ℤ y) + (pos_part x * pos_part y + neg_part x * neg_part y)
*ℤ_parts x y = rw (*ℤ_lem x y) (diff_parts _ _)

pub *ℤ_comm : (a b : ℤ) → a *ℤ b ≡ b *ℤ a
*ℤ_comm a b = rw (as_diff a, as_diff b) (simp on_diffs (diff_eq _ _ _ _ (omega arith)))

pub *ℤ_assoc : (a b c : ℤ) → a *ℤ b *ℤ c ≡ a *ℤ (b *ℤ c)
*ℤ_assoc a b c =
    rw (as_diff a, as_diff b, as_diff c) (simp on_diffs (diff_eq _ _ _ _ (omega arith)))

pub *ℤ-+ℤ : (a b c : ℤ) → a *ℤ (b +ℤ c) ≡ a *ℤ b +ℤ a *ℤ c
*ℤ-+ℤ a b c = rw (as_diff a, as_diff b, as_diff c) (simp on_diffs (diff_eq _ _ _ _ (omega arith)))

pub *ℤ--ℤ : (a b c : ℤ) → a *ℤ (b -ℤ c) ≡ a *ℤ b -ℤ a *ℤ c
*ℤ--ℤ a b c = rw (as_diff a, as_diff b, as_diff c) (simp on_diffs (diff_eq _ _ _ _ (omega arith)))

pub +ℤ-*ℤ : (a b c : ℤ) → (a +ℤ b) *ℤ c ≡ a *ℤ c +ℤ b *ℤ c
+ℤ-*ℤ a b c = rw (as_diff a, as_diff b, as_diff c) (simp on_diffs (diff_eq _ _ _ _ (omega arith)))

pub -ℤ-*ℤ : (a b c : ℤ) → (a -ℤ b) *ℤ c ≡ a *ℤ c -ℤ b *ℤ c
-ℤ-*ℤ a b c = rw (as_diff a, as_diff b, as_diff c) (simp on_diffs (diff_eq _ _ _ _ (omega arith)))

pub one-*ℤ : (a : ℤ) → pos 1 *ℤ a ≡ a
one-*ℤ a = *ℤ_lem (pos 1) a ∙ diff_eq _ _ _ _ (omega arith) ∙ sym (as_diff a)

pub zero-*ℤ : (a : ℤ) → pos 0 *ℤ a ≡ pos 0
zero-*ℤ a = *ℤ_lem (pos 0) a ∙ diff_eq _ _ 0 0 (omega arith) ∙ sym (as_diff (pos 0))

-- A product over numbers.
pub pos-*ℤ : (a b : ℕ) → pos a *ℤ pos b ≡ pos (a * b)
pos-*ℤ a b =
    *ℤ_lem (pos a) (pos b) ∙ diff_eq _ _ (a * b) 0 (omega arith) ∙ sym (as_diff (pos (a * b)))

pub pos_add : (a b : ℕ) → pos a +ℤ pos b ≡ pos (a + b)
unfolding ◌+ℤ◌ diff
pos_add a b = ground arith

pub mul_nonneg : (a b : ℤ) → pos 0 ≤ℤ a → pos 0 ≤ℤ b → pos 0 ≤ℤ a *ℤ b
mul_nonneg (pos a) (pos b) ha hb = rw (pos-*ℤ a b) (omega arith)
mul_nonneg (pos a) (negsuc b) ha hb = omega arith
mul_nonneg (negsuc a) b ha hb = omega arith
