-- ===== src/Unit/Tests.antt =====
-- Runs of the parser and the printer of locations of libparted/unit.c.
use mathlib.Core.List.{[], ◌++◌}
use parted.Prelude.{◌≡◌, refl, none, some, arith, true, false}
use parted.Prelude.Int.{ℤ, pos, ◌*ℤ◌, ◌/ℤ◌, ◌%ℤ◌, diff}
use parted.Prelude.Run.{done, ◌>>=◌, Returns}
use parted.Prelude.Text.{Text, codes, print_int, scan_int}
use parted.NatMath.{to_int}
use parted.Unit.{UnitDevice, megabyte, compact, chs, format_chs, unit_format_custom}
use parted.Unit.Parse.{Doubles, unit_parse_custom, strip_string, scan_three, remove_punct}
use parted.Unit.Located.{IsLocated, unit_parse_custom-IsLocated}
use parted.Unit.RoundTrip.{unit_parse_custom-format_chs}
use parted.Unit.Stripped.{strip_string-IsDoubled}

abbrev disk : UnitDevice
disk = record {
  address = 1;
  sector_size = pos 512;
  length = pos 200000;
  bios_geom = record { cylinders = pos 12; heads = pos 255; sectors = pos 63 };
}

-- Doubles without a fraction.
abbrev whole : Doubles
whole = record {
  Double = ℤ;
  scan = λ s. (elim (scan_int s) [ none ↦ none | some r ↦ some r.0 ]);
  is_fraction = λ n. false;
  scaled = λ n unit_size sector_size. n *ℤ unit_size /ℤ sector_size;
}

abbrev print_whole : ℤ → ℤ → Text
print_whole bytes unit_size = print_int (bytes /ℤ unit_size) []

printed : format_chs disk (pos 100000) ≡ done (codes "6,57,19")
unfolding format_chs print_int ◌/ℤ◌ ◌%ℤ◌
printed = refl

unit_parse_custom-IsLocated_example :
    Returns
      (unit_parse_custom whole megabyte disk true (codes "6,57,19") compact)
      (IsLocated disk true)
unfolding scan_three remove_punct strip_string scan_int to_int ◌*ℤ◌ diff
unit_parse_custom-IsLocated_example =
    unit_parse_custom-IsLocated whole megabyte disk true (codes "6,57,19") compact (omega arith)
      (omega arith) (omega arith) (omega arith) (omega arith)
      (omega arith, omega arith, omega arith)

unit_parse_custom-format_chs_example :
    (unit_format_custom print_whole disk (pos 100000) chs
      >>= (λ str. unit_parse_custom whole megabyte disk false str compact))
    ≡ done (record { ok = true; sect = pos 100000; range = none })
unit_parse_custom-format_chs_example =
    unit_parse_custom-format_chs print_whole whole megabyte compact disk 100000 255 63 512 refl refl
      refl (omega arith) (omega arith) (omega arith) (omega arith) (omega arith) (omega arith)

-- "1, 2, 3" as a CHS location.
strip_string-IsDoubled_example : strip_string (codes "1,2," ++ codes " 3") ≡ codes "1,2,33"
strip_string-IsDoubled_example =
    strip_string-IsDoubled (codes "1,2,") b'3' [] (refl, (refl, (refl, (refl, tt)))) (refl, tt)

read_with_spaces :
    scan_three (remove_punct (strip_string (codes "1, 2, 3")))
    ≡ some (record { cylinders = pos 1; heads = pos 2; sectors = pos 333 })
unfolding scan_three remove_punct strip_string scan_int to_int ◌*ℤ◌ diff
read_with_spaces = refl
