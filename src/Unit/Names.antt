-- ===== src/Unit/Names.antt =====
-- The names of units in libparted/unit.c: `ped_unit_get_by_name` and `parse_unit_suffix` on them.
use parted.Prelude.{◌≡◌, refl, some}
use parted.Prelude.Text.{same_text}
use parted.Unit.{
  PedUnit, sector, byte, kilobyte, megabyte, gigabyte, terabyte, compact, cylinder, chs, percent,
  kibibyte, mebibyte, gibibyte, tebibyte, unit_get_name, unit_get_by_name,
}
use parted.Unit.Parse.{parse_unit_suffix}

-- What the name of a unit is read as behind a number.
abbrev pub ReadsAs : (default_unit suggested_unit unit : PedUnit) → PedUnit → Type 0
ReadsAs default_unit suggested_unit compact read = read ≡ cylinder
ReadsAs default_unit suggested_unit chs read = read ≡ cylinder
ReadsAs default_unit suggested_unit unit read = read ≡ unit

-- The name of each unit, looked up, gives the unit, and as the suffix of a location it is read as
-- the unit, whatever the default and the suggested units are, except that the names of the units
-- that begin with a c, compact and CHS, are read as cylinders.
pub unit_get_name-IsRead :
    (default_unit suggested_unit unit : PedUnit)
    → (unit_get_by_name (unit_get_name unit) ≡ some unit)
      × ReadsAs default_unit suggested_unit unit
          (parse_unit_suffix default_unit (unit_get_name unit) suggested_unit)
unfolding unit_get_name unit_get_by_name parse_unit_suffix same_text
unit_get_name-IsRead default_unit suggested_unit sector = (refl, refl)
unit_get_name-IsRead default_unit suggested_unit byte = (refl, refl)
unit_get_name-IsRead default_unit suggested_unit kilobyte = (refl, refl)
unit_get_name-IsRead default_unit suggested_unit megabyte = (refl, refl)
unit_get_name-IsRead default_unit suggested_unit gigabyte = (refl, refl)
unit_get_name-IsRead default_unit suggested_unit terabyte = (refl, refl)
unit_get_name-IsRead default_unit suggested_unit compact = (refl, refl)
unit_get_name-IsRead default_unit suggested_unit cylinder = (refl, refl)
unit_get_name-IsRead default_unit suggested_unit chs = (refl, refl)
unit_get_name-IsRead default_unit suggested_unit percent = (refl, refl)
unit_get_name-IsRead default_unit suggested_unit kibibyte = (refl, refl)
unit_get_name-IsRead default_unit suggested_unit mebibyte = (refl, refl)
unit_get_name-IsRead default_unit suggested_unit gibibyte = (refl, refl)
unit_get_name-IsRead default_unit suggested_unit tebibyte = (refl, refl)
