-- ===== src/Geom/Tests.antt =====
-- Examples of the regions of geom.c.
use parted.Prelude.{◌≡◌, true, false, Bool, refl, some, arith}
use parted.Prelude.Int.{pos, negsuc, ◌+ℤ◌, ◌-ℤ◌, int_laws}
use parted.Prelude.Run.{done, fault, Returns}
use parted.Geom.{Geometry, geometry_set, geometry_intersect, geometry_map}
use mathlib.Core.List.{[]}
use parted.Device.Access.{DevOps, Access}
use parted.Geom.Transfer.{Confined, geometry_write, geometry_write-Confined}
use parted.Geom.Valid.{IsValid}
use parted.Geom.Sectors.{IsMeet, geometry_intersect-IsMeet}

-- Sectors 10 to 29, 25 to 44 and 0 to 99 of device 1.
abbrev low : Geometry
low = record { dev = 1; start = pos 10; length = pos 20; end = pos 29 }

abbrev high : Geometry
high = record { dev = 1; start = pos 25; length = pos 20; end = pos 44 }

abbrev disk : Geometry
disk = record { dev = 1; start = pos 0; length = pos 100; end = pos 99 }

low-IsValid : IsValid low
low-IsValid = record { ends = omega int_laws; not_empty = omega arith; not_negative = omega arith }

high-IsValid : IsValid high
high-IsValid = record { ends = omega int_laws; not_empty = omega arith; not_negative = omega arith }

low_and_high :
    geometry_intersect (some low) (some high)
    ≡ done (some (record { dev = 1; start = pos 25; length = pos 5; end = pos 29 }))
unfolding geometry_intersect ◌+ℤ◌ ◌-ℤ◌
low_and_high = refl

set_negative : geometry_set low (negsuc 0) (pos 5) ≡ fault
unfolding geometry_set
set_negative = refl

geometry_intersect-IsMeet_example :
    Returns (geometry_intersect (some low) (some high)) (IsMeet low high)
geometry_intersect-IsMeet_example = geometry_intersect-IsMeet low high low-IsValid high-IsValid

map_12 : geometry_map low disk (pos 12) ≡ pos 2
unfolding geometry_map ◌+ℤ◌ ◌-ℤ◌
map_12 = refl

-- A device that is open, and whose functions succeed and change nothing.
abbrev idle : DevOps Bool
idle = record {
  open_dev = λ w. (true, w);
  refresh_open = λ w. (true, w);
  close = λ w. (true, w);
  refresh_close = λ w. (true, w);
  read = λ w start count. (true, []);
  write = λ w buffer start count. (true, w);
  check = λ w start count. pos 0;
  sync = λ w. (true, w);
  sync_fast = λ w. (true, w);
}

abbrev opened : Access Bool
opened = record { open_count = 1; external_mode = false; world = true }

write_past_end : geometry_write idle false low opened [] (pos 19) (pos 2) ≡ done (false, opened)
unfolding geometry_write ◌+ℤ◌ ◌-ℤ◌
write_past_end = refl

geometry_write-Confined_example :
    Confined idle false low opened []
      (pos 4)
      (pos 2)
      (geometry_write idle false low opened [] (pos 4) (pos 2))
geometry_write-Confined_example =
    geometry_write-Confined idle false low opened [] (pos 4) (pos 2) (omega arith) (omega arith)
