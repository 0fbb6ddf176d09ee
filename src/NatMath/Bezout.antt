-- ===== src/NatMath/Bezout.antt =====
-- How large the factors of `extended_euclid` are.
use mathlib.Core.Logic.{dif_pos, dif_neg}
use mathlib.Core.WellFounded.{Acc}
use native.Mathlib.Bridge.{le_prop}
use native.Mathlib.Nat
use parted.Prelude.{ℕ, ◌+◌, ◌*◌, ◌/◌, ◌%◌, ◌≤◌, ◌<◌, ◌≡◌, refl, ap, ◌∙◌, arith, dec_lt}
use parted.Prelude.Int.{
  ℤ, pos, abs_ℕ, ◌+ℤ◌, ◌-ℤ◌, ◌*ℤ◌, ◌/ℤ◌, ◌%ℤ◌, int_laws, parts_disjoint, abs_ℕ-*ℤ,
}
use parted.Prelude.Magnitude.{◌⊏◌, ⊏_wf, %ℤ-⊏}
use parted.NatMath.{euclid_calls, extended_euclid}

pub abs_ℕ--ℤ : (a b : ℤ) → abs_ℕ (a -ℤ b) ≤ abs_ℕ a + abs_ℕ b
abs_ℕ--ℤ a b = grind (int_laws, parts_disjoint (a -ℤ b))

pub abs_ℕ-+ℤ : (a b : ℤ) → abs_ℕ (a +ℤ b) ≤ abs_ℕ a + abs_ℕ b
abs_ℕ-+ℤ a b = grind (int_laws, parts_disjoint (a +ℤ b))

-- At the end the factors are 1 and 0; before, each is not above the other number.
abbrev pub IsSmall : (A B : ℕ) → (x y : ℤ) → Type 0
IsSmall A B x y = (B ≡ 0 → (abs_ℕ x ≡ 1) × (abs_ℕ y ≡ 0)) × (0 < B → (abs_ℕ x ≤ B) × (abs_ℕ y ≤ A))

-- The second factor: `q` is the quotient.
step_small :
    (n m : ℕ) (x y : ℤ) → 0 < n → 0 < m → IsSmall m (n % m) x y → abs_ℕ (x -ℤ pos (n / m) *ℤ y) ≤ n
step_small n m x y n0 m0 (last, before) = elim (dec_lt 0 (n % m)) [
  | yes more ↦
      let (x_small, y_small) = before more in
      let product : (n / m) * abs_ℕ y ≤ (n / m) * m = Nat.mul-le-mul_left (n / m) y_small in
      omega (arith, total, abs_ℕ--ℤ x (pos (n / m) *ℤ y), abs_ℕ-*ℤ (pos (n / m)) y, product)
  | no zero_rest ↦
      let (x_one, y_zero) = last (omega arith) in
      let product : (n / m) * abs_ℕ y ≡ 0 = ap (λ k. (n / m) * k) y_zero ∙ Nat.mul-zero (n / m) in
      omega (arith, abs_ℕ--ℤ x (pos (n / m) *ℤ y), abs_ℕ-*ℤ (pos (n / m)) y, product)
]
  where
    total : (n / m) * m + n % m ≡ n
    total = Nat.div-add-mod' n m

one_small : (m : ℕ) (x y : ℤ) → 0 < m → (r : ℕ) → r < m → IsSmall m r x y → abs_ℕ y ≤ m
one_small m x y m0 r lt (last, before) = elim (dec_lt 0 r) [
  | yes more ↦ (before more).1
  | no zero_rest ↦ omega (arith, (last (omega arith)).1)
]

euclid_calls-IsSmall :
    (n m : ℕ) (w : Acc ◌⊏◌ (pos m))
    → 0 < n
    → IsSmall n m (euclid_calls (pos n) (pos m) w).x (euclid_calls (pos n) (pos m) w).y
unfolding euclid_calls ◌/ℤ◌ ◌%ℤ◌
euclid_calls-IsSmall n m (Acc.intro _ smaller) n0 = elim (dec_lt 0 m) [
  | yes nz ↦ rw (dif_pos (dec_lt 0 m) le_prop nz) (
      let tmp = euclid_calls (pos m) (pos (n % m)) (smaller _ (%ℤ-⊏ (pos n) (pos m) nz)) in
      let rest = euclid_calls-IsSmall m (n % m) (smaller _ (%ℤ-⊏ (pos n) (pos m) nz)) nz in
      (
        λ z. absurd (omega arith),
        λ _. (
          one_small m tmp.x tmp.y nz (n % m) (Nat.mod-lt n nz) rest,
          step_small n m tmp.x tmp.y n0 nz rest,
        ),
      ))
  | no z ↦ rw (dif_neg (dec_lt 0 m) z) (λ _. (refl, refl), λ nz. absurd (z nz))
]

-- The factors of two numbers, the first positive.
pub extended_euclid-IsSmall :
    (n m : ℕ)
    → 0 < n
    → IsSmall n m (extended_euclid (pos n) (pos m)).x (extended_euclid (pos n) (pos m)).y
unfolding extended_euclid
extended_euclid-IsSmall n m n0 = euclid_calls-IsSmall n m (⊏_wf.apply (pos m)) n0
