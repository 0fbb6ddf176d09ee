-- ===== src/Prelude/Int/Division.antt =====
-- The quotient and the remainder of C, by their parts and by the equation between them.
use native.Mathlib.Nat
use parted.Prelude.{ℕ, suc, ◌+◌, ◌*◌, ◌/◌, ◌%◌, ◌≡◌, refl, sym, ◌∙◌, arith}
use parted.Prelude.Int.Defs.{
  ℤ, pos, negsuc, pos_part, neg_part, abs_ℕ, diff, ◌+ℤ◌, ◌*ℤ◌, ◌/ℤ◌, ◌%ℤ◌,
}
use parted.Prelude.Int.Parts.{int_laws}
use parted.Prelude.Int.Ring.{*ℤ_parts}

pub diff_zero : (t : ℕ) → (pos_part (diff 0 t) ≡ 0) × (neg_part (diff 0 t) ≡ t)
unfolding diff
diff_zero t = ground arith

pub %ℤ_parts :
    (a b : ℤ)
    → (pos_part (a %ℤ b) ≡ pos_part a % abs_ℕ b) × (neg_part (a %ℤ b) ≡ neg_part a % abs_ℕ b)
unfolding ◌%ℤ◌
%ℤ_parts (pos n) b = (refl, sym (Nat.zero-mod _))
%ℤ_parts (negsuc n) b =
    ((diff_zero (suc n % abs_ℕ b)).0 ∙ sym (Nat.zero-mod _), (diff_zero (suc n % abs_ℕ b)).1)

pub /ℤ_parts :
    (a : ℤ) (m : ℕ)
    → (pos_part (a /ℤ pos m) ≡ pos_part a / m) × (neg_part (a /ℤ pos m) ≡ neg_part a / m)
unfolding ◌/ℤ◌
/ℤ_parts (pos n) m = (refl, sym (Nat.zero-div _))
/ℤ_parts (negsuc n) m =
    ((diff_zero (suc n / m)).0 ∙ sym (Nat.zero-div _), (diff_zero (suc n / m)).1)

split_digits : (n m : ℕ) → n ≡ n / m * m + n % m
split_digits n m = sym (Nat.div-add-mod' n m)

-- The equation of a signed division from that of the magnitudes.
recompose :
    (a b q r : ℤ)
    → pos_part a + (pos_part q * neg_part b + neg_part q * pos_part b) + neg_part r
      ≡ neg_part a + (pos_part q * pos_part b + neg_part q * neg_part b) + pos_part r
    → a ≡ q *ℤ b +ℤ r
recompose a b q r h = omega (int_laws, *ℤ_parts q b)

-- The quotient and the remainder make up the dividend.
pub div_rem : (a b : ℤ) → a ≡ a /ℤ b *ℤ b +ℤ a %ℤ b
unfolding ◌/ℤ◌ ◌%ℤ◌
div_rem (pos n) (pos m) =
    recompose (pos n) (pos m) (pos (n / m)) (pos (n % m)) (omega (arith, split_digits n m))
div_rem (pos n) (negsuc m) =
    let t = n / suc m in
    recompose (pos n) (negsuc m) (diff 0 t) (pos (n % suc m))
      (rw ((diff_zero t).0, (diff_zero t).1) (omega (arith, split_digits n (suc m))))
div_rem (negsuc n) (pos m) =
    let t = suc n / m in
    let r = suc n % m in
    recompose (negsuc n) (pos m) (diff 0 t) (diff 0 r) (
      rw ((diff_zero t).0, (diff_zero t).1, (diff_zero r).0, (diff_zero r).1)
        (omega (arith, split_digits (suc n) m)))
div_rem (negsuc n) (negsuc m) =
    let t = suc n / suc m in
    let r = suc n % suc m in
    recompose (negsuc n) (negsuc m) (pos t) (diff 0 r)
      (rw ((diff_zero r).0, (diff_zero r).1) (omega (arith, split_digits (suc n) (suc m))))
