-- ===== src/Dos/Align/Primary.antt =====
-- What the alignment of the DOS label does with a primary partition that is not extended.
use parted.Prelude.{ℕ, ◌≡◌, Bool, true, false}
use parted.Prelude.Int.{ℤ, pos, ◌≤ℤ◌, ◌<ℤ◌}
use parted.Prelude.Run.{Run}
use parted.Geom.{Geometry}
use parted.Geom.Valid.{IsValid}
use parted.NatMath.Intersect.{IsNarrow}
use parted.Constraint.{Constraint}
use parted.Constraint.Solution.{Parts, IsSound, SolvedBy}
use parted.Disk.{Disk, is_extended, is_logical}
use parted.Dos.{ChsGeometry}
use parted.Dos.Align.{Aligned}
use parted.Dos.Align.Internal.{IsUsable}

-- A region of the device that satisfies the constraint and leaves sector 0 to the table.
abbrev pub IsGood : ℕ → Parts → Geometry → Type 0
IsGood dev p g = IsValid g × (g.dev ≡ dev) × SolvedBy p g × (pos 1 ≤ℤ g.start)

-- The constraint of the caller: sound, on the device, with narrow grains.
pub record IsExternal (dev : ℕ) (length : ℤ) (p : Parts) : Type 0 where
  pub sound : IsSound p
  pub narrow_start : IsNarrow p.start_align
  pub narrow_end : IsNarrow p.end_align
  pub start_dev : p.start_range.dev ≡ dev
  pub end_dev : p.end_range.dev ≡ dev
  pub on_device : p.end_range.end <ℤ length

-- Success with a good region, or failure and the old region.
abbrev pub IsPlaced : ℕ → Parts → Geometry → Bool × Geometry → Type 0
IsPlaced dev p geom r = (r.0 ≡ true → IsGood dev p r.1) × (r.0 ≡ false → r.1 ≡ geom)

module _ (length_of : ℕ → ℤ) (disk : Disk) (part : Aligned) (bios_geom : ChsGeometry) (p : Parts)
    (not_extended : is_extended part.part.type ≡ false)
    (not_logical : is_logical part.part.type ≡ false) (same : part.part.geom.dev ≡ disk.dev)
    (positive : pos 1 <ℤ disk.length) (on_disk : length_of disk.dev ≡ disk.length)
    (usable : IsUsable bios_geom) (external : IsExternal disk.dev disk.length p) where
  abbrev geom : Geometry
  geom = part.part.geom
