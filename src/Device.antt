-- ===== src/Device.antt =====
-- Devices: libparted/device.c. The functions of the architecture (include/parted/device.in.h,
-- struct _PedDeviceArchOps) are parameters; a hook that may be NULL is an Option. Not modelled: the
-- list of the devices that are known, and the probing.
pub mod Access
pub mod Reachable
pub mod Linux
pub mod Aligned
pub mod Tests
use parted.Prelude.{ℕ, Option, none, some, if◌then◌else◌}
use parted.Prelude.Int.{ℤ, pos, ◌-ℤ◌, ◌*ℤ◌, ◌/ℤ◌, ◌==ℤ◌}
use parted.Prelude.Run.{Run, done, fault, deref, ◌>>=◌}
use parted.Geom.{Geometry, geometry_new}
use parted.NatMath.{Alignment, alignment_any, alignment_new}
use parted.Constraint.{Constraint, constraint_new}

-- The fields that the functions on alignments read, and the address.
pub record Device : Type 0 where
  pub address : ℕ
  pub sector_size : ℤ
  pub phys_sector_size : ℤ
  pub length : ℤ

-- C's division, which traps at a divisor of 0.
unfoldable pub divide : ℤ → ℤ → Run ℤ
divide a b = if b ==ℤ pos 0 then fault else done (a /ℤ b)

unfoldable pub device_get_constraint : Device → Run (Option Constraint)
device_get_constraint dev = do
  s ← geometry_new dev.address (pos 0) dev.length
  e ← geometry_new dev.address (pos 0) dev.length
  start_range ← deref s
  end_range ← deref e
  constraint_new alignment_any alignment_any start_range end_range (pos 1) dev.length

-- `constraint_new` on the whole device: it asserts that its ranges are not NULL.
unfoldable pub whole_constraint :
    Device → Option Alignment → Option Alignment → Run (Option Constraint)
whole_constraint dev start_align end_align = do
  whole_dev_geom ← geometry_new dev.address (pos 0) dev.length
  range ← deref whole_dev_geom
  constraint_new start_align end_align range range (pos 1) dev.length

unfoldable pub with_end : Device → Alignment → Option Alignment → Run (Option Constraint)
unfolding whole_constraint
with_end dev start_align none = done none
with_end dev start_align (some end_align) = whole_constraint dev (some start_align) (some end_align)

unfoldable pub device_get_aligned_constraint : Device → Option Alignment → Run (Option Constraint)
unfolding with_end whole_constraint
device_get_aligned_constraint dev none = whole_constraint dev alignment_any alignment_any
device_get_aligned_constraint dev (some start_align) =
    with_end dev start_align (alignment_new (start_align.offset -ℤ pos 1) start_align.grain_size)

-- The alignment of the architecture's hook, if there is a hook.
unfoldable pub asked : Option (Device → Option Alignment) → Device → Option Alignment
asked none dev = none
asked (some hook) dev = hook dev

unfoldable pub or_grain : Option Alignment → ℤ → ℤ → Run (Option Alignment)
unfolding divide
or_grain (some align) size sector_size = done (some align)
or_grain none size sector_size = do
  grain_size ← divide size sector_size
  done (alignment_new (pos 0) grain_size)

module _
    (arch_get_minimum_alignment arch_get_optimum_alignment : Option
      (Device → Option Alignment)) where
  unfoldable pub device_get_minimum_alignment : Device → Run (Option Alignment)
  unfolding or_grain asked
  device_get_minimum_alignment dev =
      or_grain (asked arch_get_minimum_alignment dev) dev.phys_sector_size dev.sector_size

  -- PED_DEFAULT_ALIGNMENT is 1024 * 1024.
  unfoldable pub device_get_optimum_alignment : Device → Run (Option Alignment)
  unfolding or_grain asked
  device_get_optimum_alignment dev =
      or_grain (asked arch_get_optimum_alignment dev) (pos 1048576) dev.sector_size

  unfoldable pub device_get_minimal_aligned_constraint : Device → Run (Option Constraint)
  unfolding device_get_minimum_alignment device_get_aligned_constraint
  device_get_minimal_aligned_constraint dev = do
    align ← device_get_minimum_alignment dev
    device_get_aligned_constraint dev align

  unfoldable pub device_get_optimal_aligned_constraint : Device → Run (Option Constraint)
  unfolding device_get_optimum_alignment device_get_aligned_constraint
  device_get_optimal_aligned_constraint dev = do
    align ← device_get_optimum_alignment dev
    device_get_aligned_constraint dev align
