-- ===== src/NatMath/Sides.antt =====
-- The first and the last aligned sector on the sides of a sector: where `alignment_align_up` and
-- `alignment_align_down` look.
use parted.Prelude.{◌≡◌, ◌≢◌, ◌⊎◌, inl, inr, Bool-cases, some, arith}
use parted.Prelude.Int.{
  ℤ, pos, ◌+ℤ◌, ◌-ℤ◌, ◌≤ℤ◌, ◌<ℤ◌, ◌==ℤ◌, ==ℤ_iff, int_laws, ∣ℤ_cong, %ℤ_zero_iff, parts_of_eq,
}
use parted.Geom.{Geometry}
use parted.NatMath.{
  Alignment, round_up_to, round_down_to, closest_inside_geometry, alignment_align_up,
  alignment_align_down,
}
use parted.NatMath.Rounding.{
  round_up_to-RoundsUp, round_down_to-RoundsDown, ∣ℤ-round_down_to, round_down_to-le,
}
use parted.NatMath.Aligned.{Satisfies}
use parted.NatMath.Align.{Chooses, Between, le_of_gap}

pub ℤ_pos_cases : (z : ℤ) → pos 0 ≤ℤ z → (z ≡ pos 0) ⊎ (pos 0 <ℤ z)
ℤ_pos_cases z h = ground arith

-- `r` is the first aligned sector from `s` on, if there is one, and else the last before.
abbrev pub IsUp : ℤ → ℤ → ℤ → Type 0
IsUp s r t = (s ≤ℤ t → (s ≤ℤ r) × (r ≤ℤ t)) × (t ≤ℤ s → t ≤ℤ r)

-- `r` is the last aligned sector up to `s`, if there is one, and else the first behind.
abbrev pub IsDown : ℤ → ℤ → ℤ → Type 0
IsDown s r t = (t ≤ℤ s → (t ≤ℤ r) × (r ≤ℤ s)) × (s ≤ℤ t → r ≤ℤ t)

abbrev pub Chooses_map :
    (a : Alignment) (g : Geometry) (r : ℤ) (P Q : ℤ → Type 0)
    → ((t : ℤ) → Satisfies a t → P t → Q t)
    → Chooses a g r P
    → Chooses a g r Q
Chooses_map a g r P Q f (inl (i, h)) = inl (i, λ t k. f t k.0 (h t k))
Chooses_map a g r P Q f (inr n) = inr n

module _ (a : Alignment) (g : Geometry) (s : ℤ) where
  pub up_start : ℤ
  up_start = round_up_to (s -ℤ a.offset) a.grain_size +ℤ a.offset

  pub down_start : ℤ
  down_start = round_down_to (s -ℤ a.offset) a.grain_size +ℤ a.offset

  pub up_start_lem :
      pos 0 <ℤ a.grain_size
      → Satisfies a up_start × (s ≤ℤ up_start) × (up_start <ℤ s +ℤ a.grain_size)
  unfolding up_start
  up_start_lem h =
      let (multiple, low, high) = round_up_to-RoundsUp (s -ℤ a.offset) a.grain_size h in
      (∣ℤ_cong a.grain_size (omega int_laws) multiple, omega int_laws, omega int_laws)

  pub down_start_lem :
      pos 0 <ℤ a.grain_size
      → (a.offset ≤ℤ s) ⊎ ¬ Satisfies a s
      → Satisfies a down_start × (down_start ≤ℤ s) × (s <ℤ down_start +ℤ a.grain_size)
  unfolding down_start
  down_start_lem h right =
      let (multiple, low, high) =
        round_down_to-RoundsDown (s -ℤ a.offset) a.grain_size h (elim right [
          | inl le ↦ inl (omega int_laws)
          | inr other ↦ inr (λ e. other ((%ℤ_zero_iff _ _).0 e))
        ]) in
      (∣ℤ_cong a.grain_size (omega int_laws) multiple, omega int_laws, omega int_laws)

  pub up_single :
      a.grain_size ≡ pos 0 → alignment_align_up a (some g) s ≡ closest_inside_geometry a g a.offset
  unfolding alignment_align_up
  up_single e = rw ((==ℤ_iff a.grain_size (pos 0)).1 e)

  pub up_many :
      a.grain_size ≢ pos 0 → alignment_align_up a (some g) s ≡ closest_inside_geometry a g up_start
  unfolding alignment_align_up up_start
  up_many ne = elim (Bool-cases (a.grain_size ==ℤ pos 0)) [
    | inl single ↦ absurd (ne ((==ℤ_iff a.grain_size (pos 0)).0 single))
    | inr many ↦ rw many
  ]

  pub down_single :
      a.grain_size ≡ pos 0
      → alignment_align_down a (some g) s ≡ closest_inside_geometry a g a.offset
  unfolding alignment_align_down
  down_single e = rw ((==ℤ_iff a.grain_size (pos 0)).1 e)

  pub down_many :
      a.grain_size ≢ pos 0
      → alignment_align_down a (some g) s ≡ closest_inside_geometry a g down_start
  unfolding alignment_align_down down_start
  down_many ne = elim (Bool-cases (a.grain_size ==ℤ pos 0)) [
    | inl single ↦ absurd (ne ((==ℤ_iff a.grain_size (pos 0)).0 single))
    | inr many ↦ rw many
  ]

  pub single_IsUp : (r : ℤ) → Chooses a g r (λ t. t ≡ a.offset) → Chooses a g r (IsUp s r)
  single_IsUp r (inr n) = inr n
  single_IsUp r (inl (i, h)) = inl (
    i,
    λ t k. (
      λ l. omega (arith, parts_of_eq (h t k), parts_of_eq (h r i)),
      λ l. omega (arith, parts_of_eq (h t k), parts_of_eq (h r i)),
    ),
  )

  pub single_IsDown : (r : ℤ) → Chooses a g r (λ t. t ≡ a.offset) → Chooses a g r (IsDown s r)
  single_IsDown r (inr n) = inr n
  single_IsDown r (inl (i, h)) = inl (
    i,
    λ t k. (
      λ l. omega (arith, parts_of_eq (h t k), parts_of_eq (h r i)),
      λ l. omega (arith, parts_of_eq (h t k), parts_of_eq (h r i)),
    ),
  )

  pub Between-IsUp :
      pos 0 <ℤ a.grain_size → (r t : ℤ) → Satisfies a t → Between up_start r t → IsUp s r t
  Between-IsUp h r t st (above, below) =
      let (aligned, low, high) = up_start_lem h in
      (
        λ l. omega (arith, above (le_of_gap a t up_start h st aligned (omega int_laws))),
        λ l. omega (arith, below (omega arith)),
      )

  pub Between-IsDown :
      pos 0 <ℤ a.grain_size
      → (a.offset ≤ℤ s) ⊎ ¬ Satisfies a s
      → (r t : ℤ) → Satisfies a t
      → Between down_start r t
      → IsDown s r t
  Between-IsDown h right r t st (above, below) =
      let (aligned, low, high) = down_start_lem h right in
      (
        λ l. omega (arith, below (le_of_gap a down_start t h aligned st (omega int_laws))),
        λ l. omega (arith, above (omega arith)),
      )

  pub down_multiple : Satisfies a down_start
  unfolding down_start
  down_multiple =
      ∣ℤ_cong a.grain_size (omega int_laws) (∣ℤ-round_down_to (s -ℤ a.offset) a.grain_size)

  pub down_start-le : pos 0 <ℤ a.grain_size → down_start ≤ℤ s
  unfolding down_start
  down_start-le h = omega (int_laws, round_down_to-le (s -ℤ a.offset) a.grain_size h)
