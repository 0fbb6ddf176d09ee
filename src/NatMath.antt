-- ===== src/NatMath.antt =====
-- Alignments: libparted/cs/natmath.c and the struct of include/parted/natmath.in.h. `none` is a
-- NULL pointer. ped_malloc is taken to succeed. A division by zero is shown as a fault only where
-- the callers' guards do not rule it out.
pub mod Rounding
pub mod Tests
pub mod Gcd
pub mod Aligned
pub mod Lattice
pub mod Intersect
pub mod Bezout
pub mod Width
pub mod Align
pub mod Sides
pub mod Nearest
use mathlib.Core.Logic.{dite}
use mathlib.Core.WellFounded.{Acc}
use native.Mathlib.Decide.{dec_le}
use parted.Prelude.{
  ℕ, ◌+◌, ◌-◌, ◌%◌, ◌^◌, ◌≤◌, ◌<◌, ltb, Bool, true, false, not, ◌&&◌, Option, none, some,
  if◌then◌else◌, dec_lt,
}
use parted.Prelude.Int.{
  ℤ, pos, negsuc, pos_part, neg_part, abs_ℕ, ◌+ℤ◌, ◌-ℤ◌, ◌*ℤ◌, ◌/ℤ◌, ◌%ℤ◌, ltb_ℤ, leb_ℤ, ◌==ℤ◌,
}
use parted.Prelude.Magnitude.{◌⊏◌, ⊏_wf, %ℤ-⊏, lt-⊏}
use parted.Prelude.Run.{Run, done, fault}
use parted.Geom.{Geometry, geometry_test_sector_inside}

pub record Alignment : Type 0 where
  pub offset : ℤ
  pub grain_size : ℤ

pub record EuclidTriple : Type 0 where
  pub gcd : ℤ
  pub x : ℤ
  pub y : ℤ

abbrev pub alignment_any : Option Alignment
alignment_any = some (record { offset = pos 0; grain_size = pos 1 })

unfoldable pub abs_mod : ℤ → ℤ → ℤ
abs_mod a b = if ltb_ℤ a (pos 0) then a %ℤ b +ℤ b else a %ℤ b

unfoldable pub round_down_to : ℤ → ℤ → ℤ
round_down_to sector grain_size = sector -ℤ abs_mod sector grain_size

unfoldable pub round_up_to : ℤ → ℤ → ℤ
round_up_to sector grain_size =
    if not (sector %ℤ grain_size ==ℤ pos 0)
    then round_down_to sector grain_size +ℤ grain_size
    else sector

unfoldable pub round_to_nearest : ℤ → ℤ → ℤ
round_to_nearest sector grain_size =
    if ltb_ℤ (grain_size /ℤ pos 2) (sector %ℤ grain_size)
    then round_up_to sector grain_size
    else round_down_to sector grain_size

-- One call, with the assertions that each of the recursive calls makes too.
unfoldable pub gcd_calls : (a b : ℤ) → Acc ◌⊏◌ b → Run ℤ
gcd_calls a b (Acc.intro _ smaller) =
    dite (dec_le (neg_part a) 0)
      (λ ha.
        dite (dec_le (neg_part b) 0)
          (λ hb.
            dite (dec_lt (pos_part a) (pos_part b)) (λ h. gcd_calls b a (smaller a (lt-⊏ a b ha h)))
              (λ _.
                dite (dec_lt 0 (abs_ℕ b))
                  (λ nz. gcd_calls b (a %ℤ b) (smaller (a %ℤ b) (%ℤ-⊏ a b nz))) (λ _. done a)))
          (λ _. fault))
      (λ _. fault)

unfoldable pub greatest_common_divisor : ℤ → ℤ → Run ℤ
unfolding gcd_calls ⊏_wf dec_lt dec_le
greatest_common_divisor a b = gcd_calls a b (⊏_wf.apply b)

-- What is stored in the alignment, or `none` where 0 is returned.
unfoldable pub alignment_init : ℤ → ℤ → Option Alignment
unfolding abs_mod
alignment_init offset grain_size =
    if ltb_ℤ grain_size (pos 0)
    then none
    else if not (grain_size ==ℤ pos 0)
    then some (record { offset = abs_mod offset grain_size; grain_size = grain_size })
    else some (record { offset = offset; grain_size = grain_size })

unfoldable pub alignment_new : ℤ → ℤ → Option Alignment
unfolding alignment_init
alignment_new offset grain_size = alignment_init offset grain_size

unfoldable pub alignment_duplicate : Option Alignment → Option Alignment
unfolding alignment_new
alignment_duplicate none = none
alignment_duplicate (some align) = alignment_new align.offset align.grain_size

-- The conversion of a PedSector to the `int` that `extended_euclid` takes.
unfoldable pub to_int : ℤ → ℤ
to_int z =
    let low = (pos_part z % 2 ^ 32 + (2 ^ 32 - neg_part z % 2 ^ 32)) % 2 ^ 32 in
    if ltb low (2 ^ 31) then pos low else negsuc (2 ^ 32 - low - 1)

unfoldable pub euclid_calls : (a b : ℤ) → Acc ◌⊏◌ b → EuclidTriple
euclid_calls a b (Acc.intro _ smaller) =
    dite (dec_lt 0 (abs_ℕ b))
      (λ nz.
        let tmp = euclid_calls b (a %ℤ b) (smaller (a %ℤ b) (%ℤ-⊏ a b nz)) in
        record { gcd = tmp.gcd; x = tmp.y; y = tmp.x -ℤ a /ℤ b *ℤ tmp.y })
      (λ _. record { gcd = a; x = pos 1; y = pos 0 })

unfoldable pub extended_euclid : ℤ → ℤ → EuclidTriple
unfolding euclid_calls ⊏_wf dec_lt
extended_euclid a b = euclid_calls a b (⊏_wf.apply b)

-- The conversion of a number to a PedSector, which has 64 bits.
unfoldable pub to_sector : ℤ → ℤ
to_sector z =
    let low = (pos_part z % 2 ^ 64 + (2 ^ 64 - neg_part z % 2 ^ 64)) % 2 ^ 64 in
    if ltb low (2 ^ 63) then pos low else negsuc (2 ^ 64 - low - 1)

-- The new alignment from the factors, with the products of 64 bits. Without a divisor the first
-- division traps.
unfoldable pub intersect_with : Alignment → Alignment → EuclidTriple → Run (Option Alignment)
unfolding to_sector
intersect_with a b factors =
    let delta_on_gcd = to_sector (b.offset -ℤ a.offset) /ℤ factors.gcd in
    let new_offset =
      to_sector (a.offset +ℤ to_sector (to_sector (factors.x *ℤ delta_on_gcd) *ℤ a.grain_size)) in
    let new_grain_size = to_sector (a.grain_size *ℤ b.grain_size) /ℤ factors.gcd in
    let other_offset =
      to_sector (b.offset -ℤ to_sector (to_sector (factors.y *ℤ delta_on_gcd) *ℤ b.grain_size)) in
    if factors.gcd ==ℤ pos 0
    then fault
    else if not (new_offset ==ℤ other_offset)
    then done none
    else done (alignment_new new_offset new_grain_size)

-- The general case of `alignment_intersect`, where a's grain is not below b's.
intersect_general : Alignment → Alignment → Run (Option Alignment)
unfolding intersect_with
intersect_general a b =
    intersect_with a b (extended_euclid (to_int a.grain_size) (to_int b.grain_size))

intersect_ordered : Alignment → Alignment → Run (Option Alignment)
intersect_ordered a b =
    if a.grain_size ==ℤ pos 0 && b.grain_size ==ℤ pos 0
    then (if a.offset ==ℤ b.offset then done (alignment_duplicate (some a)) else done none)
    else intersect_general a b

unfoldable pub alignment_intersect : Option Alignment → Option Alignment → Run (Option Alignment)
unfolding intersect_ordered intersect_general extended_euclid to_int alignment_duplicate
alignment_intersect (some a) (some b) =
    if ltb_ℤ a.grain_size b.grain_size then intersect_ordered b a else intersect_ordered a b
alignment_intersect _ _ = done none

inside_if_given : Option Geometry → ℤ → Bool
unfolding geometry_test_sector_inside
inside_if_given none sector = true
inside_if_given (some geom) sector = geometry_test_sector_inside geom sector

unfoldable pub alignment_is_aligned : Option Alignment → Option Geometry → ℤ → Bool
unfolding inside_if_given
alignment_is_aligned none geom sector = false
alignment_is_aligned (some align) geom sector =
    if not (inside_if_given geom sector)
    then false
    else if not (align.grain_size ==ℤ pos 0)
    then (sector -ℤ align.offset) %ℤ align.grain_size ==ℤ pos 0
    else sector ==ℤ align.offset

-- The two moves of `closest_inside_geometry`, to the start and to the end of the region.
unfoldable pub raised : Alignment → Geometry → ℤ → ℤ
raised align geom sector =
    if ltb_ℤ sector geom.start
    then sector +ℤ round_up_to (geom.start -ℤ sector) align.grain_size
    else sector

unfoldable pub lowered : Alignment → Geometry → ℤ → ℤ
lowered align geom sector =
    if ltb_ℤ geom.end sector
    then sector -ℤ round_up_to (sector -ℤ geom.end) align.grain_size
    else sector

-- Its callers pass a `geom` that is not NULL.
unfoldable pub closest_inside_geometry : Alignment → Geometry → ℤ → ℤ
closest_inside_geometry align geom sector =
    let moved = lowered align geom (raised align geom sector) in
    if align.grain_size ==ℤ pos 0
    then (if alignment_is_aligned (some align) (some geom) sector
          && geometry_test_sector_inside geom sector
        then sector
        else negsuc 0)
    else if not (geometry_test_sector_inside geom moved)
    then negsuc 0
    else moved

within_if_given : Alignment → Option Geometry → ℤ → ℤ
within_if_given align none result = result
within_if_given align (some geom) result = closest_inside_geometry align geom result

unfoldable pub alignment_align_up : Alignment → Option Geometry → ℤ → ℤ
unfolding within_if_given
alignment_align_up align geom sector = within_if_given align geom (
    if align.grain_size ==ℤ pos 0
    then align.offset
    else round_up_to (sector -ℤ align.offset) align.grain_size +ℤ align.offset)

unfoldable pub alignment_align_down : Alignment → Option Geometry → ℤ → ℤ
unfolding within_if_given
alignment_align_down align geom sector = within_if_given align geom (
    if align.grain_size ==ℤ pos 0
    then align.offset
    else round_down_to (sector -ℤ align.offset) align.grain_size +ℤ align.offset)

unfoldable pub closest : ℤ → ℤ → ℤ → ℤ
closest sector a b =
    if a ==ℤ negsuc 0
    then b
    else if b ==ℤ negsuc 0
    then a
    else if ltb (abs_ℕ (sector -ℤ a)) (abs_ℕ (sector -ℤ b))
    then a
    else b

unfoldable pub alignment_align_nearest : Alignment → Option Geometry → ℤ → ℤ
unfolding closest
alignment_align_nearest align geom sector =
    closest sector (alignment_align_up align geom sector) (alignment_align_down align geom sector)
