-- ===== src/Device/Aligned.antt =====
-- The constraints of a device: the regions of whole grains.
use parted.Prelude.{◌≡◌, ◌↔◌, Bool-cases, inl, inr, Option, none, some, refl, arith}
use parted.Prelude.Int.{
  ℤ, pos, ◌+ℤ◌, ◌-ℤ◌, ◌/ℤ◌, ◌≤ℤ◌, ◌<ℤ◌, ◌==ℤ◌, ==ℤ_iff, int_laws, ◌∣ℤ◌, ∣ℤ_cong, ∣ℤ--ℤ, ∣ℤ-+ℤ,
  parts_of_eq,
}
use parted.Prelude.Run.{done, ◌>>=◌, Returns, Returns_map}
use parted.Geom.{Geometry, geometry_new}
use parted.Geom.Valid.{IsValid, start-le-end, geometry_new_iff}
use parted.NatMath.{Alignment}
use parted.NatMath.Aligned.{Satisfies, Normalises, alignment_new-Normalises}
use parted.NatMath.Lattice.{/ℤ_nonneg}
use parted.Constraint.Solution.{Parts, SolvedBy}
use parted.Constraint.Builders.{IsFor, IsFor-map, constraint_new-IsFor}
use parted.Constraint.Largest.{whole_device}
use parted.Device.{
  Device, or_grain, divide, asked, device_get_minimal_aligned_constraint,
  device_get_optimal_aligned_constraint, device_get_minimum_alignment, device_get_optimum_alignment,
  device_get_aligned_constraint, with_end, whole_constraint,
}

abbrev full : Device → Geometry
full dev = whole_device (λ _. dev.length) dev.address

-- The regions that start at an aligned sector, and end in front of one, on the device.
abbrev pub Whole : Device → Alignment → Geometry → Type 0
Whole dev a g = Satisfies a g.start × Satisfies a (g.end +ℤ pos 1) × (g.end <ℤ dev.length)

module _ (dev : Device) (a : Alignment) (length_pos : pos 0 <ℤ dev.length)
    (nonneg : pos 0 ≤ℤ a.grain_size) where
  full-IsValid : IsValid (full dev)
  full-IsValid = record {
    ends = omega int_laws;
    not_empty = length_pos;
    not_negative = omega arith;
  }

  geometry_new-full : geometry_new dev.address (pos 0) dev.length ≡ done (some (full dev))
  geometry_new-full =
      (geometry_new_iff dev.address (pos 0) dev.length (full dev) (omega arith)).1
        (full-IsValid, refl, refl, refl)

  parts : Alignment → Parts
  parts b = record {
    start_align = a;
    end_align = b;
    start_range = full dev;
    end_range = full dev;
    min_size = pos 1;
    max_size = dev.length;
  }

  parts_iff :
      (b : Alignment)
      → ((s : ℤ) → Satisfies b s ↔ Satisfies a (s +ℤ pos 1))
      → (g : Geometry) → IsValid g
      → SolvedBy (parts b) g ↔ Whole dev a g
  unfolding parts
  parts_iff b next g v = (
    λ s. (s.start_aligned, (next g.end).0 s.end_aligned, omega (int_laws, s.end_below)),
    λ (sa, ea, on). record {
      start_aligned = sa;
      end_aligned = (next g.end).1 ea;
      start_above = v.not_negative;
      start_below = omega (int_laws, start-le-end v);
      end_above = omega (arith, start-le-end v, v.not_negative);
      end_below = omega int_laws;
      long_enough = omega (arith, v.not_empty);
      short_enough = omega (int_laws, parts_of_eq v.ends, v.not_negative);
    },
  )

  with_end-IsFor :
      (r : Option Alignment)
      → Normalises (a.offset -ℤ pos 1) a.grain_size r
      → Returns (with_end dev a r) (IsFor (Whole dev a))
  unfolding with_end whole_constraint parts
  with_end-IsFor none negative = absurd (omega arith)
  with_end-IsFor (some b) (_, same, sat) = rw geometry_new-full (
      Returns_map _
        (IsFor-map _ _ (λ g v.
          parts_iff b
            (λ s. (
              λ k. ∣ℤ_cong a.grain_size (omega int_laws) ((sat s).0 k),
              λ k. (sat s).1 (∣ℤ_cong a.grain_size (omega int_laws) k),
            ))
            g v))
        (constraint_new-IsFor (parts b) (record {
          start_grain = nonneg;
          end_grain = omega (arith, parts_of_eq same);
          start_valid = full-IsValid;
          end_valid = full-IsValid;
          min_pos = omega arith;
          max_pos = length_pos;
        })))

  -- On a device of positive length and for an alignment with a grain that is not negative,
  -- `device_get_aligned_constraint` returns a sound constraint that the valid regions of the device
  -- satisfy which start at an aligned sector and end right in front of one.
  pub device_get_aligned_constraint-IsFor :
      Returns (device_get_aligned_constraint dev (some a)) (IsFor (Whole dev a))
  unfolding device_get_aligned_constraint
  device_get_aligned_constraint-IsFor =
      with_end-IsFor _ (alignment_new-Normalises (a.offset -ℤ pos 1) a.grain_size)

-- The regions of whole grains, from a multiple of the grain on, on the device.
abbrev pub Grains : Device → ℤ → Geometry → Type 0
Grains dev grain g = (grain ∣ℤ g.start) × (grain ∣ℤ g.length) × (g.end <ℤ dev.length)

module _ (dev : Device) (size : ℤ) (length_pos : pos 0 <ℤ dev.length)
    (sector_pos : pos 0 <ℤ dev.sector_size) (size_nonneg : pos 0 ≤ℤ size) where
  grain : ℤ
  grain = size /ℤ dev.sector_size

  Whole-Grains :
      (a : Alignment)
      → a.grain_size ≡ grain
      → ((s : ℤ) → Satisfies a s ↔ (grain ∣ℤ s -ℤ pos 0))
      → (g : Geometry) → IsValid g
      → Whole dev a g ↔ Grains dev grain g
  Whole-Grains a same sat g v = (
    λ (sa, ea, on).
        let at_start : grain ∣ℤ g.start = ∣ℤ_cong grain (omega int_laws) ((sat g.start).0 sa) in
        let behind : grain ∣ℤ g.end +ℤ pos 1 -ℤ pos 0 = (sat (g.end +ℤ pos 1)).0 ea in
        (
          at_start,
          ∣ℤ_cong grain (omega (int_laws, parts_of_eq v.ends)) (∣ℤ--ℤ grain _ _ behind at_start),
          on,
        ),
    λ (ds, dl, on). (
      (sat g.start).1 (∣ℤ_cong grain (omega int_laws) ds),
      (sat (g.end +ℤ pos 1)).1
          (∣ℤ_cong grain (omega (int_laws, parts_of_eq v.ends)) (∣ℤ-+ℤ grain _ _ ds dl)),
      on,
    ),
  )

  new_grain-IsFor :
      (r : Option Alignment)
      → Normalises (pos 0) grain r
      → Returns (device_get_aligned_constraint dev r) (IsFor (Grains dev grain))
  unfolding grain
  new_grain-IsFor none negative =
      absurd (omega (arith, /ℤ_nonneg size dev.sector_size size_nonneg (omega arith)))
  new_grain-IsFor (some a) (h, same, sat) =
      Returns_map _ (IsFor-map _ _ (Whole-Grains a same sat))
        (device_get_aligned_constraint-IsFor dev a length_pos (omega (arith, parts_of_eq same)))

  divide-grain : divide size dev.sector_size ≡ done grain
  unfolding divide grain
  divide-grain = elim (Bool-cases (dev.sector_size ==ℤ pos 0)) [
    | inl zero_size ↦
        absurd (omega (arith, parts_of_eq ((==ℤ_iff dev.sector_size (pos 0)).0 zero_size)))
    | inr other ↦ rw other refl
  ]

  or_grain-IsFor :
      Returns
        (or_grain none size dev.sector_size >>= device_get_aligned_constraint dev)
        (IsFor (Grains dev grain))
  unfolding or_grain
  or_grain-IsFor = rw divide-grain (new_grain-IsFor _ (alignment_new-Normalises (pos 0) grain))

module _
    (arch_get_minimum_alignment arch_get_optimum_alignment : Option (Device → Option Alignment))
    (dev : Device) (length_pos : pos 0 <ℤ dev.length) (sector_pos : pos 0 <ℤ dev.sector_size) where
  -- On a device with a positive length and sector size for which the architecture knows no optimum
  -- alignment, the constraint of `device_get_optimal_aligned_constraint` is satisfied by the valid
  -- regions of the device whose start and length are multiples of 1 MiB, in sectors.
  pub device_get_optimal_aligned_constraint-IsFor :
      asked arch_get_optimum_alignment dev ≡ none
      → Returns
          (device_get_optimal_aligned_constraint arch_get_minimum_alignment
            arch_get_optimum_alignment dev)
          (IsFor (Grains dev (pos 1048576 /ℤ dev.sector_size)))
  unfolding device_get_optimal_aligned_constraint device_get_optimum_alignment grain
  device_get_optimal_aligned_constraint-IsFor no_hook =
      rw no_hook (or_grain-IsFor dev (pos 1048576) length_pos sector_pos (omega arith))

  -- On a device with a positive length and sector size and a physical sector size that is not
  -- negative, for which the architecture knows no minimum alignment, the constraint of
  -- `device_get_minimal_aligned_constraint` is satisfied by the valid regions of the device whose
  -- start and length are multiples of the number of sectors in a physical one.
  pub device_get_minimal_aligned_constraint-IsFor :
      pos 0 ≤ℤ dev.phys_sector_size
      → asked arch_get_minimum_alignment dev ≡ none
      → Returns
          (device_get_minimal_aligned_constraint arch_get_minimum_alignment
            arch_get_optimum_alignment dev)
          (IsFor (Grains dev (dev.phys_sector_size /ℤ dev.sector_size)))
  unfolding device_get_minimal_aligned_constraint device_get_minimum_alignment grain
  device_get_minimal_aligned_constraint-IsFor phys no_hook =
      rw no_hook (or_grain-IsFor dev dev.phys_sector_size length_pos sector_pos phys)
