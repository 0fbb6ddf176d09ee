-- ===== src/NatMath/Tests.antt =====
-- Examples of the numbers and the alignments of natmath.c.
use parted.Prelude.{◌*◌, ◌^◌, ◌≡◌, ◌≤◌, inl, refl, some, arith}
use parted.Prelude.Int.{pos, negsuc, abs_ℕ, ◌+ℤ◌, ◌-ℤ◌, ◌*ℤ◌, ◌/ℤ◌, ◌%ℤ◌, ◌∣ℤ◌, diff, int_laws}
use parted.Prelude.Run.{fault, Returns, done}
use parted.Geom.{Geometry, geometry_test_sector_inside}
use parted.Geom.Valid.{IsValid}
use parted.NatMath.{
  Alignment, closest_inside_geometry, lowered, raised, abs_mod, round_down_to, round_up_to,
  greatest_common_divisor, extended_euclid, alignment_intersect, alignment_align_up,
  alignment_align_down, alignment_align_nearest,
}
use parted.NatMath.Gcd.{IsGcd, greatest_common_divisor-IsGcd, extended_euclid-IsGcd}
use parted.NatMath.Intersect.{IsMeet, alignment_intersect-IsMeet, alignment_intersect_wide}
use parted.NatMath.Align.{Chooses}
use parted.NatMath.Sides.{IsUp}
use parted.NatMath.Nearest.{alignment_align_up-IsUp, alignment_align_nearest-IsNearest}

-- 3, 11, 19, 27, ... and 1, 7, 13, 19, ...
abbrev eighths : Alignment
eighths = record { offset = pos 3; grain_size = pos 8 }

abbrev sixths : Alignment
sixths = record { offset = pos 1; grain_size = pos 6 }

-- Sectors 10 to 29 of device 1.
abbrev low : Geometry
low = record { dev = 1; start = pos 10; length = pos 20; end = pos 29 }

low-IsValid : IsValid low
low-IsValid = record { ends = omega int_laws; not_empty = omega arith; not_negative = omega arith }

round_down_13 : round_down_to (pos 13) (pos 8) ≡ pos 8
unfolding round_down_to ◌-ℤ◌ ◌+ℤ◌ ◌%ℤ◌ abs_mod
round_down_13 = refl

up_14 : alignment_align_up eighths (some low) (pos 14) ≡ pos 19
unfolding alignment_align_up round_up_to ◌-ℤ◌ ◌+ℤ◌ ◌%ℤ◌ ◌/ℤ◌ closest_inside_geometry
    geometry_test_sector_inside lowered raised round_down_to abs_mod
up_14 = refl

down_14 : alignment_align_down eighths (some low) (pos 14) ≡ pos 11
unfolding alignment_align_down round_down_to ◌-ℤ◌ ◌+ℤ◌ ◌%ℤ◌ ◌/ℤ◌ closest_inside_geometry
    geometry_test_sector_inside lowered raised abs_mod
down_14 = refl

minus_16 : pos 8 ∣ℤ negsuc 15
unfolding ◌*ℤ◌ diff
minus_16 = (negsuc 1, refl)

greatest_common_divisor-IsGcd_example :
    Returns (greatest_common_divisor (pos 12) (pos 18)) (IsGcd (pos 12) (pos 18))
greatest_common_divisor-IsGcd_example =
    greatest_common_divisor-IsGcd (pos 12) (pos 18) (omega arith) (omega arith)

extended_euclid-IsGcd_example :
    IsGcd (pos 12) (pos 18) (extended_euclid (pos 12) (pos 18)).gcd
    × ((extended_euclid (pos 12) (pos 18)).gcd
        ≡ (extended_euclid (pos 12) (pos 18)).x *ℤ pos 12
          +ℤ (extended_euclid (pos 12) (pos 18)).y *ℤ pos 18)
extended_euclid-IsGcd_example = extended_euclid-IsGcd (pos 12) (pos 18) (omega arith) (omega arith)

alignment_intersect-IsMeet_example :
    Returns (alignment_intersect (some eighths) (some sixths)) (IsMeet eighths sixths)
alignment_intersect-IsMeet_example =
    alignment_intersect-IsMeet eighths sixths (omega arith, omega arith, omega arith)
      (omega arith, omega arith, omega arith)

-- A grain of 2^32 sectors.
abbrev huge : Alignment
huge = record { offset = pos 0; grain_size = pos (2 ^ 32 * 1) }

alignment_intersect_wide_example : alignment_intersect (some huge) (some huge) ≡ fault
alignment_intersect_wide_example = alignment_intersect_wide huge huge 0 1 refl refl

alignment_align_up-IsUp_example :
    Chooses eighths low
      (alignment_align_up eighths (some low) (pos 14))
      (IsUp (pos 14) (alignment_align_up eighths (some low) (pos 14)))
alignment_align_up-IsUp_example =
    alignment_align_up-IsUp eighths low low-IsValid (pos 14) (omega arith)

alignment_align_nearest-IsNearest_example :
    Chooses eighths low (alignment_align_nearest eighths (some low) (pos 14)) (λ t.
      abs_ℕ (pos 14 -ℤ alignment_align_nearest eighths (some low) (pos 14)) ≤ abs_ℕ (pos 14 -ℤ t))
alignment_align_nearest-IsNearest_example =
    alignment_align_nearest-IsNearest eighths low low-IsValid (pos 14) (omega arith)
      (inl (omega arith))

abbrev wide : Alignment
wide = record { offset = pos 0; grain_size = pos 2147483647 }

abbrev wide_too : Alignment
wide_too = record { offset = pos 1234567890; grain_size = pos 2147483645 }

-- Grains below 2^31 and above what 64 bits hold: the new offset is in neither of the alignments.
wrapped :
    alignment_intersect (some wide) (some wide_too)
    ≡ done
        (some (record { offset = pos 2016349869405633116; grain_size = pos 4611686009837453315 }))
unfolding alignment_intersect ◌%ℤ◌ ◌+ℤ◌ ◌*ℤ◌ ◌-ℤ◌ ◌/ℤ◌
wrapped = refl
