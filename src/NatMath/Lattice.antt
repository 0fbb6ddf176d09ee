-- ===== src/NatMath/Lattice.antt =====
-- The common multiples of two numbers with a greatest common divisor: the Chinese remainder
-- theorem that `alignment_intersect` rests on.
use parted.Prelude.{ℕ, ◌*◌, ◌≡◌, ◌≢◌, sym, ap, ap₂, ◌∙◌, arith}
use parted.Prelude.Int.{
  ℤ, pos, negsuc, abs_ℕ, ◌+ℤ◌, ◌-ℤ◌, ◌*ℤ◌, ◌/ℤ◌, ◌≤ℤ◌, int_laws, ◌∣ℤ◌, ∣ℤ-*ℤ, %ℤ_zero_iff, div_rem,
  *ℤ_comm, *ℤ_assoc, -ℤ-*ℤ, abs_ℕ-*ℤ, pos-*ℤ, as_diff, on_diffs, diff_eq, *ℤ-+ℤ,
}
use parted.NatMath.Gcd.{IsGcd}

-- The quotient of C is exact at a multiple.
pub div_exact : (a g : ℤ) → g ∣ℤ a → a ≡ a /ℤ g *ℤ g
div_exact a g d = div_rem a g ∙ rw ((%ℤ_zero_iff a g).1 d) (omega int_laws)

zero_factor : (n m : ℕ) → n * m ≡ 0 → m ≢ 0 → n ≡ 0
zero_factor n m h ne = grind arith

pub *ℤ_cancel : (a b g : ℤ) → g ≢ pos 0 → a *ℤ g ≡ b *ℤ g → a ≡ b
*ℤ_cancel a b g ne h =
    let no_diff : (a -ℤ b) *ℤ g ≡ pos 0 = -ℤ-*ℤ a b g ∙ rw h (omega int_laws) in
    let no_abs : abs_ℕ (a -ℤ b) ≡ 0 =
      zero_factor (abs_ℕ (a -ℤ b)) (abs_ℕ g) (sym (abs_ℕ-*ℤ (a -ℤ b) g) ∙ ap abs_ℕ no_diff)
        (λ e. ne (omega (int_laws, e))) in
    omega (int_laws, no_abs)

pub *ℤ_nonneg : (a b : ℤ) → pos 0 ≤ℤ a → pos 0 ≤ℤ b → pos 0 ≤ℤ a *ℤ b
*ℤ_nonneg (pos n) (pos m) h k = rw (pos-*ℤ n m) (omega arith)
*ℤ_nonneg (pos n) (negsuc m) h k = absurd (omega arith)
*ℤ_nonneg (negsuc n) b h k = absurd (omega arith)

pub /ℤ_nonneg : (a b : ℤ) → pos 0 ≤ℤ a → pos 0 ≤ℤ b → pos 0 ≤ℤ a /ℤ b
unfolding ◌/ℤ◌
/ℤ_nonneg (pos n) (pos m) h k = omega arith
/ℤ_nonneg (pos n) (negsuc m) h k = absurd (omega arith)
/ℤ_nonneg (negsuc n) b h k = absurd (omega arith)

swap_last : (a b c : ℤ) → a *ℤ b *ℤ c ≡ a *ℤ c *ℤ b
swap_last a b c =
    rw (as_diff a, as_diff b, as_diff c) (simp on_diffs (diff_eq _ _ _ _ (omega arith)))

collect :
    (A B x y i j : ℤ) → j *ℤ B *ℤ (x *ℤ A) +ℤ i *ℤ A *ℤ (y *ℤ B) ≡ (j *ℤ x +ℤ i *ℤ y) *ℤ (A *ℤ B)
collect A B x y i j =
    rw (as_diff A, as_diff B, as_diff x, as_diff y, as_diff i, as_diff j)
      (simp on_diffs (diff_eq _ _ _ _ (omega arith)))

module _ (A B x y g : ℤ) (isg : IsGcd A B g) (bezout : g ≡ x *ℤ A +ℤ y *ℤ B) (ne : g ≢ pos 0) where
  -- The least common multiple, as the code computes it.
  abbrev lcm : ℤ
  lcm = A *ℤ B /ℤ g

  lcm-*ℤ : A *ℤ B ≡ lcm *ℤ g
  lcm-*ℤ = div_exact (A *ℤ B) g (∣ℤ-*ℤ g A B isg.right)

  pub left-∣ℤ-lcm : A ∣ℤ lcm
  left-∣ℤ-lcm =
      let (b, h) = isg.right in
      (
        b,
        *ℤ_cancel lcm (b *ℤ A) g ne (
            sym lcm-*ℤ
            ∙ ap (λ t. A *ℤ t) h
            ∙ sym (*ℤ_assoc A b g)
            ∙ ap (λ t. t *ℤ g) (*ℤ_comm A b)),
      )

  pub right-∣ℤ-lcm : B ∣ℤ lcm
  right-∣ℤ-lcm =
      let (a, h) = isg.left in
      (a, *ℤ_cancel lcm (a *ℤ B) g ne (sym lcm-*ℤ ∙ ap (λ t. t *ℤ B) h ∙ swap_last a g B))

  pub lcm_least : (t : ℤ) → A ∣ℤ t → B ∣ℤ t → lcm ∣ℤ t
  lcm_least t (i, p) (j, q) = (
    j *ℤ x +ℤ i *ℤ y,
    *ℤ_cancel t ((j *ℤ x +ℤ i *ℤ y) *ℤ lcm) g ne (
        ap (λ z. t *ℤ z) bezout
        ∙ *ℤ-+ℤ t (x *ℤ A) (y *ℤ B)
        ∙ ap₂ (λ z w. z *ℤ (x *ℤ A) +ℤ w *ℤ (y *ℤ B)) q p
        ∙ collect A B x y i j
        ∙ ap (λ z. (j *ℤ x +ℤ i *ℤ y) *ℤ z) lcm-*ℤ
        ∙ sym (*ℤ_assoc (j *ℤ x +ℤ i *ℤ y) lcm g)),
  )
