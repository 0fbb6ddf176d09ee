-- ===== src/Unit/Parse.antt =====
-- Reading locations: `strip_string` to `ped_unit_parse_custom` in libparted/unit.c.
use mathlib.Core.List.{[], ◌∷◌}
use parted.Prelude.{
  ℕ, zero, suc, ◌+◌, Bool, true, false, ◌||◌, ◌==◌, Option, none, some, if◌then◌else◌,
}
use parted.Prelude.Int.{ℤ, pos, ◌+ℤ◌, ◌-ℤ◌, ◌*ℤ◌, ◌/ℤ◌, ltb_ℤ, leb_ℤ}
use parted.Prelude.Run.{Run, done, ◌>>=◌}
use parted.Prelude.Text.{Text, isdigit, isspace, ispunct, tolower, scan_int}
use parted.Geom.{Geometry, geometry_new}
use parted.NatMath.{to_int}
use parted.Dos.{ChsGeometry}
use parted.Unit.{
  PedUnit, UnitDevice, sector, byte, kilobyte, megabyte, gigabyte, terabyte, compact, cylinder,
  percent, kibibyte, mebibyte, gibibyte, tebibyte, unit_get_size, divided, cyl_size,
}

abbrev pub strlen : Text → ℕ
strlen [] = 0
strlen (c ∷ s) = suc (strlen s)

-- The inner loop of `strip_string` from the space `c` on: each byte moves one place to the front,
-- and the last one is left where it was.
abbrev pub shift : ℕ → Text → Text
shift c [] = c ∷ []
shift c (d ∷ s) = d ∷ shift d s

-- The outer loop, with the bytes that are left; the byte that moves into the place of a space is
-- not looked at.
abbrev pub keep_head : (Text → Text) → Text → Text
keep_head strip [] = []
keep_head strip (c ∷ s) = c ∷ strip s

unfoldable pub strip_rounds : ℕ → Text → Text
strip_rounds zero s = s
strip_rounds (suc rounds) [] = []
strip_rounds (suc rounds) (c ∷ s) =
    keep_head (strip_rounds rounds) (if isspace c then shift c s else c ∷ s)

unfoldable pub strip_string : Text → Text
unfolding strip_rounds
strip_string str = strip_rounds (strlen str) str

-- What is before the suffix, and the suffix.
abbrev pub is_number_part : ℕ → Bool
is_number_part c = isdigit c || (c == b',' || (c == b'.' || c == b'-'))

unfoldable pub find_suffix : Text → Text × Text
find_suffix [] = ([], [])
find_suffix (c ∷ s) =
    if is_number_part c then (let r = find_suffix s in (c ∷ r.0, r.1)) else ([], c ∷ s)

unfoldable pub remove_punct : Text → Text
remove_punct [] = []
remove_punct (c ∷ s) = (if ispunct c then 32 else c) ∷ remove_punct s

abbrev pub punct_count : Text → ℕ
punct_count [] = 0
punct_count (c ∷ s) = (if ispunct c then 1 else 0) + punct_count s

unfoldable pub is_chs : Text → Bool
is_chs str = punct_count str == 2

abbrev pub or_zero : {A : Type 0} → Option (ℤ × Text) → (ℤ → Text → Option A) → Option A
or_zero none f = none
or_zero (some (n, s)) f = f n s

-- `sscanf (copy, "%d %d %d", …) == 3`; an int keeps 32 bits.
unfoldable pub scan_three : Text → Option ChsGeometry
scan_three copy = or_zero (scan_int copy) (λ c s. or_zero (scan_int s) (λ h s.
    or_zero (scan_int s)
      (λ t s. some (record { cylinders = to_int c; heads = to_int h; sectors = to_int t }))))

-- The result: `*sector`, and `*range` where it was asked for.
pub record Location : Type 0 where
  pub ok : Bool
  pub sect : ℤ
  pub range : Option Geometry

abbrev pub no_location : Location
no_location = record { ok = false; sect = pos 0; range = none }

-- The end of `parse_chs`.
unfoldable pub chs_location : UnitDevice → Bool → ℤ → Run Location
chs_location dev with_range sect =
    if leb_ℤ dev.length sect
    then done no_location
    else if with_range
    then geometry_new dev.address sect (pos 1) >>= (λ r. done (elim r [
      | none ↦ record { ok = false; sect = sect; range = none }
      | some range ↦ record { ok = true; sect = sect; range = some range }
    ]))
    else done (record { ok = true; sect = sect; range = none })

unfoldable pub checked_chs : UnitDevice → Bool → Option ChsGeometry → Run Location
unfolding chs_location
checked_chs dev with_range none = done no_location
checked_chs dev with_range (some read) =
    if leb_ℤ dev.bios_geom.heads read.heads
    then done no_location
    else if leb_ℤ dev.bios_geom.sectors read.sectors
    then done no_location
    else chs_location dev with_range (
        read.cylinders *ℤ cyl_size dev
        +ℤ to_int (read.heads *ℤ dev.bios_geom.sectors)
        +ℤ read.sectors)

unfoldable pub parse_chs : UnitDevice → Bool → Text → Run Location
unfolding checked_chs
parse_chs dev with_range str =
    checked_chs dev with_range (scan_three (remove_punct (strip_string str)))

unfoldable pub clip : UnitDevice → ℤ → ℤ
clip dev sect =
    if ltb_ℤ sect (pos 0)
    then pos 0
    else if ltb_ℤ (dev.length -ℤ pos 1) sect
    then dev.length -ℤ pos 1
    else sect

unfoldable pub geometry_from_centre_radius : UnitDevice → ℤ → ℤ → Run (Option Geometry)
unfolding clip
geometry_from_centre_radius dev sect radius =
    let start = clip dev (sect -ℤ radius) in
    let end = clip dev (sect +ℤ radius) in
    if ltb_ℤ radius (sect -ℤ end) || ltb_ℤ radius (start -ℤ sect)
    then done none
    else geometry_new dev.address start (end -ℤ start +ℤ pos 1)

-- The static `default_unit` comes first.
unfoldable pub or_default_unit : PedUnit → PedUnit → PedUnit
or_default_unit default_unit suggested_unit = elim suggested_unit [
  | compact ↦ elim default_unit [ compact ↦ megabyte | other ↦ other ]
  | other ↦ other
]

abbrev pub iec_unit : ℕ → PedUnit → PedUnit
iec_unit c otherwise =
    if tolower c == b'k'
    then kibibyte
    else if tolower c == b'm'
    then mebibyte
    else if tolower c == b'g'
    then gibibyte
    else if tolower c == b't'
    then tebibyte
    else otherwise

abbrev pub si_unit : ℕ → PedUnit → PedUnit
si_unit c otherwise =
    if tolower c == b's'
    then sector
    else if tolower c == b'b'
    then byte
    else if tolower c == b'k'
    then kilobyte
    else if tolower c == b'm'
    then megabyte
    else if tolower c == b'g'
    then gigabyte
    else if tolower c == b't'
    then terabyte
    else if tolower c == b'c'
    then cylinder
    else if tolower c == b'%'
    then percent
    else otherwise

unfoldable pub parse_unit_suffix : PedUnit → Text → PedUnit → PedUnit
parse_unit_suffix default_unit [] suggested_unit = or_default_unit default_unit suggested_unit
parse_unit_suffix default_unit (c ∷ []) suggested_unit =
    si_unit c (or_default_unit default_unit suggested_unit)
parse_unit_suffix default_unit (c ∷ d ∷ s) suggested_unit =
    if tolower d == b'i'
    then iec_unit c (or_default_unit default_unit suggested_unit)
    else si_unit c (or_default_unit default_unit suggested_unit)

abbrev pub is_iec : PedUnit → Bool
is_iec kibibyte = true
is_iec mebibyte = true
is_iec gibibyte = true
is_iec tebibyte = true
is_iec other = false

unfoldable pub div_round_up : ℤ → ℤ → Run ℤ
div_round_up numerator divisor = divided (numerator +ℤ divisor -ℤ pos 1) divisor

-- Half of a unit in sectors, less one; 0 for the units of 1024.
unfoldable pub radius_of : UnitDevice → PedUnit → Run ℤ
unfolding div_round_up
radius_of dev unit =
    if is_iec unit
    then done (pos 0)
    else div_round_up (unit_get_size dev unit) dev.sector_size >>= (λ n.
      let radius = n /ℤ pos 2 -ℤ pos 1 in done (if ltb_ℤ radius (pos 0) then pos 0 else radius))

-- What is used of floating point numbers: `sscanf (copy, "%lf", &num)`, `num > 0 && num < 1`, and
-- `num * unit_size / dev->sector_size` as a PedSector.
pub record Doubles : Type 1 where
  pub Double : Type 0
  pub scan : Text → Option Double
  pub is_fraction : Double → Bool
  pub scaled : Double → ℤ → ℤ → ℤ

abbrev pub starts_with_minus : Text → Bool
starts_with_minus [] = false
starts_with_minus (c ∷ s) = c == b'-'

-- `*sector` is `sect` before it is clipped.
unfoldable pub located : UnitDevice → Bool → ℤ → ℤ → Run Location
located dev with_range sect radius =
    if with_range
    then geometry_from_centre_radius dev sect radius >>= (λ r. done (elim r [
      | none ↦ no_location
      | some range ↦ record { ok = true; sect = clip dev sect; range = some range }
    ]))
    else done (record { ok = true; sect = clip dev sect; range = none })

module _ (doubles : Doubles) (default_unit : PedUnit) (dev : UnitDevice) (with_range : Bool) where
  unfoldable pub located_at : PedUnit → Text → Option doubles.Double → Run Location
  unfolding located
  located_at unit copy none = done no_location
  located_at unit copy (some num) =
      if doubles.is_fraction num
      then done no_location
      else radius_of dev unit >>= (λ radius.
        let sect = doubles.scaled num (unit_get_size dev unit) dev.sector_size in
        located dev with_range (if starts_with_minus copy then sect +ℤ dev.length else sect) radius)

  unfoldable pub unit_parse_custom : Text → PedUnit → Run Location
  unfolding located_at parse_chs
  unit_parse_custom str unit =
      if is_chs str
      then parse_chs dev with_range str
      else (let (copy, suffix) = find_suffix (strip_string str) in
          located_at (parse_unit_suffix default_unit suffix unit) copy (doubles.scan copy))

  unfoldable pub unit_parse : Text → Run Location
  unit_parse str = unit_parse_custom str default_unit
