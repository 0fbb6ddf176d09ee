-- ===== src/Dos/Tests.antt =====
-- Examples for cylinders, heads and sectors.
use parted.Prelude.{◌≡◌, some, refl, arith}
use parted.Prelude.Int.{pos, ◌+ℤ◌, ◌-ℤ◌, ◌*ℤ◌, ◌/ℤ◌}
use parted.Prelude.Run.{done, Returns}
use parted.Dos.{
  ChsGeometry, OrigState, sector_to_chs, probe_partition_for_geom, chs_get_cylinder, chs_get_head,
  chs_get_sector,
}
use parted.Dos.Probe.{IsProbed, probe_partition_for_geom-IsProbed}
use parted.Dos.Chs.{chs_geometry, IsBack, sector_to_chs-IsBack}

abbrev usual : ChsGeometry
usual = chs_geometry (pos 1000) 255 63

sector_to_chs-IsBack_example :
    Returns (sector_to_chs usual (some usual) (pos 5000000)) (IsBack (pos 1000) 255 63 5000000)
sector_to_chs-IsBack_example =
    sector_to_chs-IsBack usual (pos 1000) 255 63 5000000 (omega arith) (omega arith) (omega arith)
      (omega arith)

-- From sector 63 to the end of cylinder 10, with 255 heads.
abbrev first_partition : OrigState
first_partition = record {
  chs_start = record { head = 1; sector = 1; cylinder = 0 };
  chs_end = record { head = 254; sector = 63; cylinder = 10 };
  start = pos 63;
  end = pos 176714;
}

first_partition_found :
    probe_partition_for_geom (pos 1000000) (some first_partition)
    ≡ done (some (chs_geometry (pos 62) 255 63))
unfolding probe_partition_for_geom chs_get_cylinder chs_get_head chs_get_sector ◌+ℤ◌ ◌-ℤ◌ ◌*ℤ◌ ◌/ℤ◌
first_partition_found = refl

probe_partition_for_geom-IsProbed_example :
    Returns
      (probe_partition_for_geom (pos 1000000) (some first_partition))
      (IsProbed first_partition)
probe_partition_for_geom-IsProbed_example =
    probe_partition_for_geom-IsProbed (pos 1000000) first_partition
