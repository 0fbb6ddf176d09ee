-- ===== src/Unit.antt =====
-- Units of locations on a device: libparted/unit.c and the enumeration of include/parted/unit.in.h.
-- Texts are lists of bytes. Floating point numbers are a parameter, and the text of exceptions is
-- left out.
pub mod Parse
pub mod Located
pub mod Names
pub mod Printed
pub mod Stripped
mod Tests
pub mod RoundTrip
use mathlib.Core.List.{List, [], ◌∷◌, ◌++◌}
use parted.Prelude.{ℕ, Option, none, some, if◌then◌else◌}
use parted.Prelude.Int.{ℤ, pos, ◌*ℤ◌, ◌/ℤ◌, ◌%ℤ◌, leb_ℤ, ◌==ℤ◌}
use parted.Prelude.Run.{Run, done, fault, ◌>>=◌}
use parted.Prelude.Text.{Text, codes, same_text, print_int}
use parted.NatMath.{to_int}
use parted.Dos.{ChsGeometry}

pub data PedUnit : Type 0 where
  sector : PedUnit
  byte : PedUnit
  kilobyte : PedUnit
  megabyte : PedUnit
  gigabyte : PedUnit
  terabyte : PedUnit
  compact : PedUnit
  cylinder : PedUnit
  chs : PedUnit
  percent : PedUnit
  kibibyte : PedUnit
  mebibyte : PedUnit
  gibibyte : PedUnit
  tebibyte : PedUnit

-- The fields of a device that this module reads.
pub record UnitDevice : Type 0 where
  pub address : ℕ
  pub sector_size : ℤ
  pub length : ℤ
  pub bios_geom : ChsGeometry

-- The product of two ints.
abbrev pub cyl_size : UnitDevice → ℤ
cyl_size dev = to_int (dev.bios_geom.heads *ℤ dev.bios_geom.sectors)

-- For `compact` an exception is thrown and 0 returned.
unfoldable pub unit_get_size : UnitDevice → PedUnit → ℤ
unit_get_size dev sector = dev.sector_size
unit_get_size dev byte = pos 1
unit_get_size dev kilobyte = pos 1000
unit_get_size dev megabyte = pos 1000000
unit_get_size dev gigabyte = pos 1000000000
unit_get_size dev terabyte = pos 1000000000000
unit_get_size dev compact = pos 0
unit_get_size dev cylinder = cyl_size dev *ℤ dev.sector_size
unit_get_size dev chs = dev.sector_size
unit_get_size dev percent = dev.length *ℤ dev.sector_size /ℤ pos 100
unit_get_size dev kibibyte = pos 1024
unit_get_size dev mebibyte = pos 1048576
unit_get_size dev gibibyte = pos 1073741824
unit_get_size dev tebibyte = pos 1099511627776

-- `unit_names`.
unfoldable pub unit_get_name : PedUnit → Text
unit_get_name sector = codes "s"
unit_get_name byte = codes "B"
unit_get_name kilobyte = codes "kB"
unit_get_name megabyte = codes "MB"
unit_get_name gigabyte = codes "GB"
unit_get_name terabyte = codes "TB"
unit_get_name compact = codes "compact"
unit_get_name cylinder = codes "cyl"
unit_get_name chs = codes "chs"
unit_get_name percent = codes "%"
unit_get_name kibibyte = codes "kiB"
unit_get_name mebibyte = codes "MiB"
unit_get_name gibibyte = codes "GiB"
unit_get_name tebibyte = codes "TiB"

-- From PED_UNIT_FIRST to PED_UNIT_LAST.
abbrev pub all_units : List PedUnit
all_units =
    sector ∷ byte ∷ kilobyte ∷ megabyte ∷ gigabyte ∷ terabyte ∷ compact ∷ cylinder ∷ chs ∷ percent
    ∷ kibibyte ∷ mebibyte ∷ gibibyte ∷ tebibyte ∷ []

abbrev pub first_named : Text → List PedUnit → Option PedUnit
first_named unit_name [] = none
first_named unit_name (unit ∷ units) =
    if same_text (unit_get_name unit) unit_name then some unit else first_named unit_name units

-- NULL stands for -1.
unfoldable pub unit_get_by_name : Text → Option PedUnit
unit_get_by_name unit_name = first_named unit_name all_units

-- A division by zero traps.
abbrev pub divided : ℤ → ℤ → Run ℤ
divided a b = if b ==ℤ pos 0 then fault else done (a /ℤ b)

abbrev pub remainder : ℤ → ℤ → Run ℤ
remainder a b = if b ==ℤ pos 0 then fault else done (a %ℤ b)

-- "%lld,%lld,%lld".
unfoldable pub format_chs : UnitDevice → ℤ → Run Text
format_chs dev sect = do
  track ← divided sect dev.bios_geom.sectors
  c ← divided track dev.bios_geom.heads
  h ← remainder track dev.bios_geom.heads
  s ← remainder sect dev.bios_geom.sectors
  done (print_int c (b',' ∷ print_int h (b',' ∷ print_int s [])))

-- The unit for PED_UNIT_COMPACT.
unfoldable pub compact_unit : ℤ → PedUnit
compact_unit bytes =
    if leb_ℤ (pos 10000000000000) bytes
    then terabyte
    else if leb_ℤ (pos 10000000000) bytes
    then gigabyte
    else if leb_ℤ (pos 10000000) bytes
    then megabyte
    else if leb_ℤ (pos 10000) bytes
    then kilobyte
    else byte

-- Texts with a fraction are printed by a parameter, from the number of bytes and the unit's size.
module _ (print_double : ℤ → ℤ → Text) where
  abbrev format_double : UnitDevice → ℤ → PedUnit → Text
  format_double dev bytes unit = print_double bytes (unit_get_size dev unit) ++ unit_get_name unit

  abbrev format_whole : UnitDevice → ℤ → PedUnit → Run Text
  format_whole dev bytes unit =
      divided bytes (unit_get_size dev unit) >>= (λ n. done (print_int n (unit_get_name unit)))

  unfoldable pub unit_format_custom_byte : UnitDevice → ℤ → PedUnit → Run Text
  unfolding format_chs
  unit_format_custom_byte dev bytes unit = divided bytes dev.sector_size >>= (λ sect. elim unit [
    | chs ↦ format_chs dev sect
    | cylinder ↦ format_whole dev bytes cylinder
    | sector ↦ format_whole dev bytes sector
    | byte ↦ format_whole dev bytes byte
    | compact ↦ done (format_double dev bytes (compact_unit bytes))
    | other ↦ done (format_double dev bytes other)
  ])

  unfoldable pub unit_format_custom : UnitDevice → ℤ → PedUnit → Run Text
  unit_format_custom dev sect unit = unit_format_custom_byte dev (sect *ℤ dev.sector_size) unit

  -- `default_unit` is the static variable.
  unfoldable pub unit_format_byte : PedUnit → UnitDevice → ℤ → Run Text
  unit_format_byte default_unit dev bytes = unit_format_custom_byte dev bytes default_unit

  unfoldable pub unit_format : PedUnit → UnitDevice → ℤ → Run Text
  unit_format default_unit dev sect =
      unit_format_custom_byte dev (sect *ℤ dev.sector_size) default_unit

-- `default_unit` and what it becomes.
abbrev unit_set_default : PedUnit → PedUnit → PedUnit
unit_set_default default_unit unit = unit

abbrev unit_get_default : PedUnit → PedUnit
unit_get_default default_unit = default_unit
