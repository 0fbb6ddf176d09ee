-- ===== src/Dos.antt =====
-- Cylinders, heads and sectors in the label of MS-DOS: libparted/labels/dos.c from
-- `chs_get_cylinder` to `probe_partition_for_geom`, and PedCHSGeometry of
-- include/parted/device.in.h.
pub mod Chs
pub mod Probe
pub mod TypeId
pub mod Flags
pub mod Number
pub mod Constraints
pub mod Align
mod Tests
use parted.Prelude.{
  ℕ, suc, ◌+◌, ◌-◌, ◌*◌, ◌/◌, ◌%◌, ◌^◌, Bool, true, false, not, ◌||◌, ◌&&◌, Option, none, some,
  if◌then◌else◌,
}
use parted.Prelude.Int.{ℤ, pos, negsuc, ◌+ℤ◌, ◌-ℤ◌, ◌*ℤ◌, ◌/ℤ◌, ◌%ℤ◌, ltb_ℤ, leb_ℤ, ◌==ℤ◌}
use parted.Prelude.Run.{Run, done, fault, ◌>>=◌, ◌>>◌}

pub record ChsGeometry : Type 0 where
  pub cylinders : ℤ
  pub heads : ℤ
  pub sectors : ℤ

-- Three bytes.
pub record RawChs : Type 0 where
  pub head : ℕ
  pub sector : ℕ
  pub cylinder : ℕ

abbrev pub max_chs_cylinder : ℤ
max_chs_cylinder = pos 1021

unfoldable pub chs_get_cylinder : RawChs → ℤ
chs_get_cylinder chs = pos (chs.cylinder + chs.sector / 64 * 256)

unfoldable pub chs_get_head : RawChs → ℤ
chs_get_head chs = pos chs.head

-- Counts from 0.
unfoldable pub chs_get_sector : RawChs → ℤ
chs_get_sector chs = pos (chs.sector % 64) -ℤ pos 1

-- The sector of a cylinder, a head and a sector in it: 0 where they are irrelevant.
unfoldable pub sector_at : ChsGeometry → ℤ → ℤ → ℤ → ℤ
sector_at bios_geom c h s =
    if ltb_ℤ max_chs_cylinder c
    then pos 0
    else if ltb_ℤ s (pos 0)
    then pos 0
    else (c *ℤ bios_geom.heads +ℤ h) *ℤ bios_geom.sectors +ℤ s

unfoldable pub chs_to_sector : ChsGeometry → RawChs → ℤ
unfolding sector_at
chs_to_sector bios_geom chs =
    sector_at bios_geom (chs_get_cylinder chs) (chs_get_head chs) (chs_get_sector chs)

-- What a byte keeps of a number.
unfoldable pub as_byte : ℤ → ℕ
as_byte (pos n) = n % 256
as_byte (negsuc n) = 255 - n % 256

-- `>> 8`, which keeps the sign.
unfoldable pub shift_right_8 : ℤ → ℤ
shift_right_8 (pos n) = pos (n / 256)
shift_right_8 (negsuc n) = negsuc (n / 256)

-- A division by zero traps.
abbrev nonzero : ℤ → Run (Unit {0})
nonzero divisor = if divisor ==ℤ pos 0 then fault else done tt

abbrev or_default : Option ChsGeometry → ChsGeometry → ChsGeometry
or_default none bios_geom = bios_geom
or_default (some bios_geom) _ = bios_geom

-- The place (cylinder, head, sector), within the limits of the three bytes.
unfoldable pub limited : ChsGeometry → ℤ → ℤ → ℤ → ℤ × ℤ × ℤ
limited bios_geom real_c real_h real_s =
    if ltb_ℤ max_chs_cylinder real_c
    then (pos 1023, bios_geom.heads -ℤ pos 1, bios_geom.sectors -ℤ pos 1)
    else (real_c, real_h, real_s)

-- The stores into the three bytes.
unfoldable pub as_raw : ℤ × ℤ × ℤ → RawChs
unfolding as_byte shift_right_8
as_raw (real_c, real_h, real_s) = record {
  head = as_byte real_h;
  sector = as_byte (real_s +ℤ pos 1 +ℤ shift_right_8 real_c *ℤ pos 64);
  cylinder = as_byte (real_c %ℤ pos 256);
}

-- The first argument is the geometry of the device.
unfoldable pub sector_to_chs : ChsGeometry → Option ChsGeometry → ℤ → Run RawChs
unfolding limited as_raw
sector_to_chs dev_geom geom sector = do
  let bios_geom : ChsGeometry = or_default geom dev_geom
  nonzero (bios_geom.heads *ℤ bios_geom.sectors)
  done (
      as_raw (
        limited bios_geom (sector /ℤ (bios_geom.heads *ℤ bios_geom.sectors))
          (sector /ℤ bios_geom.sectors %ℤ bios_geom.heads) (sector %ℤ bios_geom.sectors)))

-- A partition as the table has it: both ends in cylinders, heads and sectors, and as sectors.
pub record OrigState : Type 0 where
  pub chs_start : RawChs
  pub chs_end : RawChs
  pub start : ℤ
  pub end : ℤ

unfoldable pub partition_check_bios_geometry : Option OrigState → ChsGeometry → Bool
unfolding chs_to_sector
partition_check_bios_geometry none bios_geom = true
partition_check_bios_geometry (some orig) bios_geom =
    let leg_start = chs_to_sector bios_geom orig.chs_start in
    let leg_end = chs_to_sector bios_geom orig.chs_end in
    if not (leg_start ==ℤ pos 0) && not (leg_start ==ℤ orig.start)
    then false
    else not (not (leg_end ==ℤ pos 0) && not (leg_end ==ℤ orig.end))

-- One end of the partition, as (c, h, s, a).
pub record Place : Type 0 where
  pub c : ℤ
  pub h : ℤ
  pub s : ℤ
  pub a : ℤ

abbrev pub place : RawChs → ℤ → Place
place chs a = record {
  c = chs_get_cylinder chs;
  h = chs_get_head chs;
  s = chs_get_sector chs;
  a = a;
}

-- The largest number that a head count does not let overflow.
abbrev dont_overflow : ℤ
dont_overflow = pos (2 ^ 55 - 1)

-- The early returns of `probe_partition_for_geom`.
unfoldable pub too_little : Place → Place → Bool
too_little start end =
    (ltb_ℤ start.h (pos 0)
      || ltb_ℤ end.h (pos 0)
      || ltb_ℤ (pos 254) start.h
      || ltb_ℤ (pos 254) end.h)
    || ltb_ℤ end.c start.c
    || ltb_ℤ ((end.c +ℤ pos 1) *ℤ pos 255 *ℤ pos 63) end.a
    || ltb_ℤ max_chs_cylinder end.c
    || (end.c ==ℤ pos 0)
    || (ltb_ℤ dont_overflow (start.a -ℤ start.s) || ltb_ℤ dont_overflow (end.a -ℤ end.s))

-- The end of `probe_partition_for_geom`, from the sizes of a cylinder and a head on.
unfoldable pub check_sizes : ℤ → Place → Place → ℤ → ℤ → Option ChsGeometry
check_sizes length start end cyl_size head_size =
    let heads = cyl_size /ℤ head_size in
    let sectors = head_size in
    let at_end : ℤ → Bool = λ c. (c *ℤ heads +ℤ end.h) *ℤ sectors +ℤ end.s ==ℤ end.a in
    let end_c = if at_end (end.c +ℤ pos 1) then end.c +ℤ pos 1 else end.c in
    if not (ltb_ℤ (pos 0) head_size) || not (leb_ℤ head_size (pos 63))
    then none
    else if not (ltb_ℤ (pos 0) heads) || not (ltb_ℤ heads (pos 256))
    then none
    else if not ((start.c *ℤ heads +ℤ start.h) *ℤ sectors +ℤ start.s ==ℤ start.a)
    then none
    else if not (at_end end_c)
    then none
    else some (record { cylinders = length /ℤ cyl_size; heads = heads; sectors = sectors })

-- The size of a head from the size of a cylinder, with the assertion that one of the heads is not
-- 0.
unfoldable pub head_size_of : Place → Place → ℤ → Run ℤ
head_size_of start end cyl_size =
    if ltb_ℤ (pos 0) start.h
    then done ((start.a -ℤ start.s -ℤ start.c *ℤ cyl_size) /ℤ start.h)
    else if ltb_ℤ (pos 0) end.h
    then done ((end.a -ℤ end.s -ℤ end.c *ℤ cyl_size) /ℤ end.h)
    else fault

-- The equations for both ends.
unfoldable pub solve_places : ℤ → Place → Place → Run (Option ChsGeometry)
unfolding head_size_of check_sizes
solve_places length start end =
    let denum = start.c *ℤ end.h -ℤ end.c *ℤ start.h in
    let numerator = (start.a -ℤ start.s) *ℤ end.h -ℤ (end.a -ℤ end.s) *ℤ start.h in
    let cyl_size = numerator /ℤ denum in
    if denum ==ℤ pos 0
    then done none
    else if not (cyl_size *ℤ denum ==ℤ numerator)
    then done none
    else if not (ltb_ℤ (pos 0) cyl_size) || not (leb_ℤ cyl_size (pos 16065))
    then done none
    else head_size_of start end cyl_size
      >>= (λ head_size. done (check_sizes length start end cyl_size head_size))

-- `length` is that of the device.
unfoldable pub probe_partition_for_geom : ℤ → Option OrigState → Run (Option ChsGeometry)
unfolding too_little solve_places
probe_partition_for_geom length none = done none
probe_partition_for_geom length (some orig) =
    let start = place orig.chs_start orig.start in
    let end = place orig.chs_end orig.end in
    if too_little start end then done none else solve_places length start end
