-- ===== src/Geom/Sectors.antt =====
-- Regions as sets of sectors: what the tests and the intersection of geom.c say of them.
use parted.Prelude.{ℕ, ◌≡◌, ◌↔◌, true, none, some, arith, Option}
use parted.Prelude.Int.{ℤ, pos, negsuc, ◌+ℤ◌, ◌-ℤ◌, ◌≤ℤ◌, ◌<ℤ◌, max_ℤ, int_laws}
use parted.Prelude.Run.{Returns}
use parted.Geom.{
  Geometry, geometry_intersect, geometry_test_overlap, geometry_test_inside, geometry_test_equal,
  geometry_test_sector_inside, geometry_map,
}
use parted.Geom.Valid.{IsValid}

-- Sector `s` of device `d` lies in the region.
abbrev pub Covers : Geometry → ℕ → ℤ → Type 0
Covers g d s = (g.dev ≡ d) × (g.start ≤ℤ s) × (s ≤ℤ g.end)

pub geometry_test_sector_inside_iff :
    (g : Geometry) (s : ℤ) → (geometry_test_sector_inside g s ≡ true) ↔ Covers g g.dev s
unfolding geometry_test_sector_inside
geometry_test_sector_inside_iff g s = ground arith

-- What the intersection of two regions has to be.
abbrev pub IsMeet : Geometry → Geometry → Option Geometry → Type 0
IsMeet a b none = (d : ℕ) (s : ℤ) → Covers a d s → ¬ Covers b d s
IsMeet a b (some g) = IsValid g × ((d : ℕ) (s : ℤ) → Covers g d s ↔ (Covers a d s × Covers b d s))

-- The intersection of two valid regions is a valid region that covers the sectors that both cover,
-- or NULL if there is none.
pub geometry_intersect-IsMeet :
    (a b : Geometry)
    → IsValid a
    → IsValid b
    → Returns (geometry_intersect (some a) (some b)) (IsMeet a b)
unfolding geometry_intersect
geometry_intersect-IsMeet a b va vb = grind int_laws

abbrev pub Meets : Geometry → Geometry → Type 0
Meets a b = (d : ℕ) × (s : ℤ) × Covers a d s × Covers b d s

-- Two valid regions overlap by the test exactly when some sector of some device is covered by
-- both.
pub geometry_test_overlap_iff :
    (a b : Geometry) → IsValid a → IsValid b → (geometry_test_overlap a b ≡ true) ↔ Meets a b
unfolding geometry_test_overlap
geometry_test_overlap_iff a b va vb = (
  λ h. (a.dev, max_ℤ a.start b.start, grind int_laws, grind int_laws),
  λ (d, s, p, q). grind int_laws,
)

-- A valid region lies inside another one by the test exactly when the other covers all its
-- sectors.
pub geometry_test_inside_iff :
    (a b : Geometry)
    → IsValid b
    → (geometry_test_inside a b ≡ true) ↔ ((d : ℕ) (s : ℤ) → Covers b d s → Covers a d s)
unfolding geometry_test_inside
geometry_test_inside_iff a b vb =
    (λ h d s c. ground arith, λ h. grind (int_laws, h b.dev b.start, h b.dev b.end))

-- Two valid regions are equal by the test exactly when they cover the same sectors.
pub geometry_test_equal_iff :
    (a b : Geometry)
    → IsValid a
    → IsValid b
    → (geometry_test_equal a b ≡ true) ↔ ((d : ℕ) (s : ℤ) → Covers a d s ↔ Covers b d s)
unfolding geometry_test_equal
geometry_test_equal_iff a b va vb = (
  λ h d s. ground arith,
  λ h.
      grind
        (int_laws, (h a.dev a.start).0, (h a.dev a.end).0, (h b.dev b.start).1, (h b.dev b.end).1),
)

-- Where the source region starts at sector 0, a result that is not negative is the offset of the
-- sector from the start of the destination, on the device of both regions, and it is at most the
-- destination's length. The sector lies in the source region.
pub geometry_map_sound :
    (dst src : Geometry) (sector r : ℤ)
    → src.start ≡ pos 0
    → geometry_map dst src sector ≡ r
    → pos 0 ≤ℤ r
    → Covers src dst.dev sector × (dst.start +ℤ r ≡ sector) × (r ≤ℤ dst.length)
unfolding geometry_map
geometry_map_sound dst src sector r zero_start e h = grind int_laws

-- Where the source region starts at sector 0, a sector that both regions cover is mapped to its
-- offset from the start of the valid destination.
pub geometry_map_complete :
    (dst src : Geometry) (sector : ℤ)
    → IsValid dst
    → src.start ≡ pos 0
    → Covers src dst.dev sector
    → Covers dst dst.dev sector
    → geometry_map dst src sector ≡ sector -ℤ dst.start
unfolding geometry_map
geometry_map_complete dst src sector v zero_start p q = grind int_laws

-- Where the source region starts at sector 0 and covers the sector just behind the valid
-- destination, that sector is mapped to the destination's length, although the destination does
-- not cover it.
pub geometry_map_past_end :
    (dst src : Geometry)
    → IsValid dst
    → src.start ≡ pos 0
    → Covers src dst.dev (dst.end +ℤ pos 1)
    → (geometry_map dst src (dst.end +ℤ pos 1) ≡ dst.length)
      × ¬ Covers dst dst.dev (dst.end +ℤ pos 1)
unfolding geometry_map
geometry_map_past_end dst src v zero_start p = grind int_laws

-- Where the source region starts at or behind its own length, each offset below that length is
-- mapped to -1.
pub geometry_map_far :
    (dst src : Geometry) (sector : ℤ)
    → src.length ≤ℤ src.start
    → sector <ℤ src.length
    → geometry_map dst src sector ≡ negsuc 0
unfolding geometry_map
geometry_map_far dst src sector far h = ground arith
