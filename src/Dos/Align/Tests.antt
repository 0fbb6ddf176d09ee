-- ===== src/Dos/Align/Tests.antt =====
-- Examples for the alignment of the DOS label.
use mathlib.Core.List.{[]}
use parted.Prelude.{true, false, none, ◌≢◌, ◌≡◌, ◌⊎◌}
use parted.Prelude.Int.{◌==ℤ◌, ℤ, pos, ◌+ℤ◌, ◌-ℤ◌, negsuc, ◌≤ℤ◌, ◌<ℤ◌}
use parted.Geom.{Geometry}
use parted.Constraint.Solution.{Parts}
use parted.Constraint.Free.{free}
use parted.Disk.{Disk, Partition}
use parted.Dos.Number.{IsNumber, msdos_partition_enumerate, msdos_partition_enumerate-IsNumbered}
use parted.Dos.{ChsGeometry, not}
use parted.Dos.Align.{Aligned}

abbrev region : ℤ → ℤ → Geometry
region start end = record { dev = 0; start = start; length = end -ℤ start +ℤ pos 1; end = end }

abbrev device : Geometry
device = record { dev = 0; start = pos 0; length = pos 1000000; end = pos 999999 }

abbrev empty_disk : Disk
empty_disk = record {
  dev = 0;
  length = pos 1000000;
  part_list = [];
  needs_clobber = false;
  update_mode = 1;
}

abbrev usual : ChsGeometry
usual = record { cylinders = pos 62; heads = pos 255; sectors = pos 63 }

-- From sector 0, where the table is.
abbrev wanted : Aligned
wanted = record {
  part = record {
    id = 7;
    geom = record { dev = 0; start = pos 0; length = pos 200000; end = pos 199999 };
    num = pos 1;
    type = record {
      logical = false;
      extended = false;
      freespace = false;
      metadata = false;
      protected = false;
    };
  };
  part_list = [];
  system = 0x83;
  orig_geom = none;
}

abbrev anywhere : Parts
anywhere = free device device (pos 1) (pos 1000000)

abbrev unnumbered_part : Partition
unnumbered_part = record wanted.part { num = negsuc 0 }

msdos_partition_enumerate-IsNumbered_example :
    (unnumbered_part.num ≢ negsuc 0
      → unnumbered_part.num ≤ℤ pos 4
      → msdos_partition_enumerate empty_disk unnumbered_part ≡ (true, unnumbered_part.num))
    × ((unnumbered_part.num ≡ negsuc 0) ⊎ (pos 4 <ℤ unnumbered_part.num)
        → (num : ℤ) × IsNumber empty_disk unnumbered_part num
          × (msdos_partition_enumerate empty_disk unnumbered_part ≡ (not (num ==ℤ negsuc 0), num)))
msdos_partition_enumerate-IsNumbered_example =
    msdos_partition_enumerate-IsNumbered empty_disk unnumbered_part
