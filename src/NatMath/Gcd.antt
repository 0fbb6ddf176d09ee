-- ===== src/NatMath/Gcd.antt =====
-- The two versions of Euclid's algorithm in natmath.c.
use mathlib.Core.Logic.{dif_pos, dif_neg}
use mathlib.Core.WellFounded.{Acc}
use native.Mathlib.Bridge.{le_prop}
use native.Mathlib.Decide.{dec_le}
use parted.Prelude.{◌≤◌, ◌<◌, ◌≡◌, sym, ap, ◌∙◌, arith, dec_lt}
use parted.Prelude.Int.{
  ℤ, pos, pos_part, neg_part, abs_ℕ, ◌+ℤ◌, ◌-ℤ◌, ◌*ℤ◌, ◌/ℤ◌, ◌%ℤ◌, ◌≤ℤ◌, int_laws, ◌∣ℤ◌, ∣ℤ-+ℤ,
  ∣ℤ--ℤ, ∣ℤ-*ℤ, ∣ℤ_refl, ∣ℤ_cong, ∣ℤ-zero, div_rem, parts_of_eq, parts_disjoint, as_diff, on_diffs,
  diff_eq, one-*ℤ, zero-*ℤ, abs_ℕ_lem,
}
use parted.Prelude.Magnitude.{◌⊏◌, ⊏_wf, %ℤ-⊏}
use parted.Prelude.Run.{Returns, Returns_map}
use parted.NatMath.{gcd_calls, greatest_common_divisor, euclid_calls, extended_euclid}
use parted.NatMath.Rounding.{rem_range}

-- `g` is the greatest common divisor: a common one that every other divides.
pub record IsGcd (a b g : ℤ) : Type 0 where
  pub nonneg : pos 0 ≤ℤ g
  pub left : g ∣ℤ a
  pub right : g ∣ℤ b
  pub greatest : (d : ℤ) → d ∣ℤ a → d ∣ℤ b → d ∣ℤ g

pub IsGcd-swap : (a b g : ℤ) → IsGcd b a g → IsGcd a b g
IsGcd-swap a b g h = record {
  nonneg = h.nonneg;
  left = h.right;
  right = h.left;
  greatest = λ d p q. h.greatest d q p;
}

IsGcd-zero : (a b : ℤ) → pos 0 ≤ℤ a → ¬ (0 < abs_ℕ b) → IsGcd a b a
IsGcd-zero a b h zero = record {
  nonneg = h;
  left = ∣ℤ_refl a;
  right = ∣ℤ_cong a {a = pos 0} (omega (int_laws, abs_ℕ_lem b)) (∣ℤ-zero a);
  greatest = λ d p q. p;
}

-- A common divisor of the divisor and the remainder divides the dividend, and the other way round.
IsGcd-step : (a b g : ℤ) → IsGcd b (a %ℤ b) g → IsGcd a b g
IsGcd-step a b g h = record {
  nonneg = h.nonneg;
  left =
      ∣ℤ_cong g (sym (div_rem a b))
        (∣ℤ-+ℤ g (a /ℤ b *ℤ b) (a %ℤ b) (∣ℤ-*ℤ g (a /ℤ b) b h.left) h.right);
  right = h.left;
  greatest = λ d p q. h.greatest d q (
      ∣ℤ_cong d {a = a -ℤ a /ℤ b *ℤ b} (omega (int_laws, parts_of_eq (div_rem a b)))
        (∣ℤ--ℤ d a (a /ℤ b *ℤ b) p (∣ℤ-*ℤ d (a /ℤ b) b q)));
}

rem_nonneg : (a b : ℤ) → pos 0 ≤ℤ a → pos 0 ≤ℤ b → 0 < abs_ℕ b → pos 0 ≤ℤ a %ℤ b
rem_nonneg a b ha hb nz =
    omega (arith, rem_range a b (omega (arith, abs_ℕ_lem b, parts_disjoint b)), parts_disjoint a)

no_neg_part : (a : ℤ) → pos 0 ≤ℤ a → neg_part a ≤ 0
no_neg_part a h = omega (arith, parts_disjoint a)

gcd_calls-IsGcd :
    (a b : ℤ) (w : Acc ◌⊏◌ b) → pos 0 ≤ℤ a → pos 0 ≤ℤ b → Returns (gcd_calls a b w) (IsGcd a b)
unfolding gcd_calls
gcd_calls-IsGcd a b (Acc.intro _ smaller) ha hb =
    rw
      (
        dif_pos (dec_le (neg_part a) 0) le_prop (no_neg_part a ha),
        dif_pos (dec_le (neg_part b) 0) le_prop (no_neg_part b hb),
      )
      (elim (dec_lt (pos_part a) (pos_part b)) [
        | yes lt ↦
            rw (dif_pos (dec_lt (pos_part a) (pos_part b)) le_prop lt)
              (Returns_map _ (IsGcd-swap a b) (gcd_calls-IsGcd b a (smaller a _) hb ha))
        | no ge ↦ rw (dif_neg (dec_lt (pos_part a) (pos_part b)) ge) (elim (dec_lt 0 (abs_ℕ b)) [
          | yes nz ↦ rw (dif_pos (dec_lt 0 (abs_ℕ b)) le_prop nz) (
              Returns_map _ (IsGcd-step a b) (
                gcd_calls-IsGcd b (a %ℤ b) (smaller (a %ℤ b) (%ℤ-⊏ a b nz)) hb
                  (rem_nonneg a b ha hb nz)))
          | no z ↦ rw (dif_neg (dec_lt 0 (abs_ℕ b)) z) (IsGcd-zero a b ha z)
        ])
      ])

-- For numbers that are not negative `greatest_common_divisor` returns, and returns their greatest
-- common divisor.
pub greatest_common_divisor-IsGcd :
    (a b : ℤ) → pos 0 ≤ℤ a → pos 0 ≤ℤ b → Returns (greatest_common_divisor a b) (IsGcd a b)
unfolding greatest_common_divisor
greatest_common_divisor-IsGcd a b ha hb = gcd_calls-IsGcd a b (⊏_wf.apply b) ha hb

euclid_calls-IsGcd :
    (a b : ℤ) (w : Acc ◌⊏◌ b) → pos 0 ≤ℤ a → pos 0 ≤ℤ b → IsGcd a b (euclid_calls a b w).gcd
unfolding euclid_calls
euclid_calls-IsGcd a b (Acc.intro _ smaller) ha hb = elim (dec_lt 0 (abs_ℕ b)) [
  | yes nz ↦ rw (dif_pos (dec_lt 0 (abs_ℕ b)) le_prop nz) (
      IsGcd-step a b _
        (euclid_calls-IsGcd b (a %ℤ b) (smaller _ (%ℤ-⊏ a b nz)) hb (rem_nonneg a b ha hb nz)))
  | no z ↦ rw (dif_neg (dec_lt 0 (abs_ℕ b)) z) (IsGcd-zero a b ha z)
]

-- The coefficients of the recursive call give those of the call.
combine : (a b q r x y : ℤ) → a ≡ q *ℤ b +ℤ r → x *ℤ b +ℤ y *ℤ r ≡ y *ℤ a +ℤ (x -ℤ q *ℤ y) *ℤ b
combine a b q r x y e = ring ∙ ap (λ t. y *ℤ t +ℤ (x -ℤ q *ℤ y) *ℤ b) (sym e)
  where
    ring : x *ℤ b +ℤ y *ℤ r ≡ y *ℤ (q *ℤ b +ℤ r) +ℤ (x -ℤ q *ℤ y) *ℤ b
    ring =
        rw (as_diff b, as_diff q, as_diff r, as_diff x, as_diff y)
          (simp on_diffs (diff_eq _ _ _ _ (omega arith)))

euclid_calls_bezout :
    (a b : ℤ) (w : Acc ◌⊏◌ b)
    → (euclid_calls a b w).gcd ≡ (euclid_calls a b w).x *ℤ a +ℤ (euclid_calls a b w).y *ℤ b
unfolding euclid_calls
euclid_calls_bezout a b (Acc.intro _ smaller) = elim (dec_lt 0 (abs_ℕ b)) [
  | yes nz ↦
      rw (dif_pos (dec_lt 0 (abs_ℕ b)) le_prop nz) (
        euclid_calls_bezout b (a %ℤ b) (smaller _ (%ℤ-⊏ a b nz))
        ∙ combine a b _ _ _ _ (div_rem a b))
  | no z ↦
      rw (dif_neg (dec_lt 0 (abs_ℕ b)) z)
        (sym (omega (int_laws, parts_of_eq (one-*ℤ a), parts_of_eq (zero-*ℤ b))))
]

-- Of numbers that are not negative, `extended_euclid` computes the greatest common divisor, as a
-- combination of the two with the coefficients that it returns.
pub extended_euclid-IsGcd :
    (a b : ℤ)
    → pos 0 ≤ℤ a
    → pos 0 ≤ℤ b
    → IsGcd a b (extended_euclid a b).gcd
      × ((extended_euclid a b).gcd ≡ (extended_euclid a b).x *ℤ a +ℤ (extended_euclid a b).y *ℤ b)
unfolding extended_euclid
extended_euclid-IsGcd a b ha hb =
    (euclid_calls-IsGcd a b (⊏_wf.apply b) ha hb, euclid_calls_bezout a b (⊏_wf.apply b))
