-- ===== src/NatMath/Rounding.antt =====
-- The remainder and the rounding functions of natmath.c, against the multiples of the grain.
use native.Mathlib.Nat
use parted.Prelude.{ℕ, ◌*◌, ◌%◌, ◌≤◌, ◌<◌, ◌≡◌, ◌≢◌, ◌⊎◌, inl, inr, Bool-cases, arith}
use parted.Prelude.Int.{
  ℤ, pos, pos_part, neg_part, abs_ℕ, ◌+ℤ◌, ◌-ℤ◌, ◌/ℤ◌, ◌%ℤ◌, ◌≤ℤ◌, ◌<ℤ◌, ltb_ℤ, ◌==ℤ◌, ==ℤ_iff,
  ltb_ℤ_iff, ltb_ℤ_false, int_laws, ◌∣ℤ◌, ∣ℤ-+ℤ, ∣ℤ--ℤ, ∣ℤ_refl, ∣ℤ_cong, %ℤ_zero_iff, %ℤ_parts,
  div_rem, abs_ℕ_lem, lt_of_le_of_ne, /ℤ_parts, parts_of_eq, parts_disjoint,
}
use parted.NatMath.{abs_mod, round_down_to, round_up_to, round_to_nearest}

module _ (a g : ℤ) where
  pub multiple_below : g ∣ℤ a -ℤ a %ℤ g
  multiple_below = (a /ℤ g, omega (int_laws, parts_of_eq (div_rem a g)))

  -- C's remainder lies between -g and g, on the side of the dividend.
  pub rem_range :
      pos 0 <ℤ g
      → (pos_part (a %ℤ g) ≤ pos_part a)
        × (neg_part (a %ℤ g) ≤ neg_part a)
        × (pos_part (a %ℤ g) < pos_part g)
        × (neg_part (a %ℤ g) < pos_part g)
  rem_range h = (
    rw (%ℤ_parts a g).0 (Nat.mod-le _ _),
    rw (%ℤ_parts a g).1 (Nat.mod-le _ _),
    rw (%ℤ_parts a g).0 (small (pos_part a)),
    rw (%ℤ_parts a g).1 (small (neg_part a)),
  )
    where
      small : (n : ℕ) → n % abs_ℕ g < pos_part g
      small n = omega (
        arith,
        abs_ℕ_lem g,
        parts_disjoint g,
        Nat.mod-lt n {m = abs_ℕ g} (omega (arith, abs_ℕ_lem g)),
      )

  above : g ∣ℤ a -ℤ a %ℤ g +ℤ g
  above = ∣ℤ-+ℤ g (a -ℤ a %ℤ g) g multiple_below (∣ℤ_refl g)

  below : g ∣ℤ a -ℤ a %ℤ g -ℤ g
  below = ∣ℤ--ℤ g (a -ℤ a %ℤ g) g multiple_below (∣ℤ_refl g)

-- `r` is the greatest multiple of `g` that is not above `a`.
abbrev pub RoundsDown : ℤ → ℤ → ℤ → Type 0
RoundsDown g a r = (g ∣ℤ r) × (r ≤ℤ a) × (a <ℤ r +ℤ g)

-- `r` is the least multiple of `g` that is not below `a`.
abbrev pub RoundsUp : ℤ → ℤ → ℤ → Type 0
RoundsUp g a r = (g ∣ℤ r) × (a ≤ℤ r) × (r <ℤ a +ℤ g)

-- The remainder of a negative number that is no multiple is negative.
rem_negative :
    (a g : ℤ) → pos 0 <ℤ g → a <ℤ pos 0 → (pos 0 ≤ℤ a) ⊎ (a %ℤ g ≢ pos 0) → a %ℤ g <ℤ pos 0
rem_negative a g h negative (inl positive) = absurd (omega arith)
rem_negative a g h negative (inr ne) =
    lt_of_le_of_ne (a %ℤ g) (pos 0) (omega (arith, rem_range a g h, parts_disjoint a)) ne

-- Whatever the signs, `abs_mod` takes a multiple of the divisor away.
pub ∣ℤ-abs_mod : (a g : ℤ) → g ∣ℤ a -ℤ abs_mod a g
unfolding abs_mod
∣ℤ-abs_mod a g = elim (Bool-cases (ltb_ℤ a (pos 0))) [
  | inl negative ↦ rw negative (∣ℤ_cong g (omega int_laws) (below a g))
  | inr positive ↦ rw positive (multiple_below a g)
]

pub ∣ℤ-round_down_to : (a g : ℤ) → g ∣ℤ round_down_to a g
unfolding round_down_to
∣ℤ-round_down_to a g = ∣ℤ-abs_mod a g

pub round_down_to-le : (a g : ℤ) → pos 0 <ℤ g → round_down_to a g ≤ℤ a
unfolding round_down_to abs_mod
round_down_to-le a g h = elim (Bool-cases (ltb_ℤ a (pos 0))) [
  | inl negative ↦ rw negative (omega (int_laws, rem_range a g h, parts_disjoint g))
  | inr positive ↦
      rw positive
        (omega (int_laws, rem_range a g h, parts_disjoint a, ltb_ℤ_false a (pos 0) positive))
]

round_down_to_nonneg : (a g : ℤ) → pos 0 ≤ℤ a → round_down_to a g ≡ a -ℤ a %ℤ g
unfolding round_down_to abs_mod
round_down_to_nonneg a g h = ground arith

-- Where it is right, `abs_mod` gives the remainder between 0 and the divisor.
pub abs_mod_range :
    (a g : ℤ)
    → pos 0 <ℤ g
    → (pos 0 ≤ℤ a) ⊎ (a %ℤ g ≢ pos 0)
    → (g ∣ℤ a -ℤ abs_mod a g) × (pos 0 ≤ℤ abs_mod a g) × (abs_mod a g <ℤ g)
unfolding abs_mod
abs_mod_range a g h right = elim (Bool-cases (ltb_ℤ a (pos 0))) [
  | inl negative ↦ rw negative (
    ∣ℤ_cong g (omega int_laws) (below a g),
    omega (int_laws, rem_range a g h, parts_disjoint g),
    omega (int_laws, rem_negative a g h (ground arith) right),
  )
  | inr positive ↦
      rw positive
        (multiple_below a g, grind (int_laws, rem_range a g h), grind (int_laws, rem_range a g h))
]

-- The remainder of a negative multiple is the divisor itself, not 0.
pub abs_mod_negative_multiple : (a g : ℤ) → a <ℤ pos 0 → g ∣ℤ a → abs_mod a g ≡ g
unfolding abs_mod
abs_mod_negative_multiple a g h d = elim (Bool-cases (ltb_ℤ a (pos 0))) [
  | inl negative ↦ rw (negative, (%ℤ_zero_iff a g).1 d) (omega int_laws)
  | inr positive ↦ ground arith
]

-- For a positive grain, `round_down_to` of a number that is not negative, or is no multiple of the
-- grain, is the greatest multiple of the grain that is not above it.
pub round_down_to-RoundsDown :
    (a g : ℤ) → pos 0 <ℤ g → (pos 0 ≤ℤ a) ⊎ (a %ℤ g ≢ pos 0) → RoundsDown g a (round_down_to a g)
unfolding round_down_to
round_down_to-RoundsDown a g h right =
    let (multiple, low, high) = abs_mod_range a g h right in
    (multiple, omega int_laws, omega int_laws)

-- A negative multiple of the grain is not rounded to itself by `round_down_to`, but to one grain
-- below.
pub round_down_to_negative_multiple : (a g : ℤ) → a <ℤ pos 0 → g ∣ℤ a → round_down_to a g ≡ a -ℤ g
unfolding round_down_to
round_down_to_negative_multiple a g h d = rw (abs_mod_negative_multiple a g h d)

-- A multiple below a number that is no multiple is strictly below it.
multiple-lt : (a g r : ℤ) → a %ℤ g ≢ pos 0 → g ∣ℤ r → r ≤ℤ a → r <ℤ a
multiple-lt a g r ne multiple low =
    lt_of_le_of_ne r a low (λ e. ne ((%ℤ_zero_iff a g).1 (∣ℤ_cong g e multiple)))

-- For a positive grain, `round_up_to` is the least multiple of the grain that is not below the
-- number, negative ones included.
pub round_up_to-RoundsUp : (a g : ℤ) → pos 0 <ℤ g → RoundsUp g a (round_up_to a g)
unfolding round_up_to
round_up_to-RoundsUp a g h = elim (Bool-cases (a %ℤ g ==ℤ pos 0)) [
  | inl even ↦ rw even ((%ℤ_zero_iff a g).0 ((==ℤ_iff _ _).0 even), omega int_laws, omega int_laws)
  | inr uneven ↦ rw uneven (
      let ne : a %ℤ g ≢ pos 0 = λ e. cc ((==ℤ_iff _ _).1 e) in
      let (multiple, low, high) = round_down_to-RoundsDown a g h (inr ne) in
      (
        ∣ℤ-+ℤ g (round_down_to a g) g multiple (∣ℤ_refl g),
        omega int_laws,
        omega (int_laws, multiple-lt a g (round_down_to a g) ne multiple low),
      ))
]

round_up_to_nonneg : (a g : ℤ) → pos 0 ≤ℤ a → a %ℤ g ≢ pos 0 → round_up_to a g ≡ a -ℤ a %ℤ g +ℤ g
unfolding round_up_to
round_up_to_nonneg a g h ne = elim (Bool-cases (a %ℤ g ==ℤ pos 0)) [
  | inl even ↦ absurd (ne ((==ℤ_iff _ _).0 even))
  | inr uneven ↦ rw (uneven, round_down_to_nonneg a g h)
]

-- For a positive grain and a number that is not negative, `round_to_nearest` is a multiple of the
-- grain at a distance of at most half the grain.
pub round_to_nearest-IsNearest :
    (a g : ℤ)
    → pos 0 <ℤ g
    → pos 0 ≤ℤ a
    → (g ∣ℤ round_to_nearest a g) × (abs_ℕ (round_to_nearest a g -ℤ a) * 2 ≤ abs_ℕ g)
unfolding round_to_nearest
round_to_nearest-IsNearest a g h p = elim (Bool-cases (ltb_ℤ (g /ℤ pos 2) (a %ℤ g))) [
  | inl more ↦ rw more (
    (round_up_to-RoundsUp a g h).0,
    rw
        (round_up_to_nonneg a g p (λ e.
          omega (arith, (ltb_ℤ_iff (g /ℤ pos 2) (a %ℤ g)).0 more, /ℤ_parts g 2, parts_of_eq e)))
        (grind (int_laws, rem_range a g h, /ℤ_parts g 2)),
  )
  | inr less ↦ rw less (
    (round_down_to-RoundsDown a g h (inl p)).0,
    rw (round_down_to_nonneg a g p) (grind (int_laws, rem_range a g h, /ℤ_parts g 2)),
  )
]
