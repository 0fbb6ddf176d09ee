-- ===== src/Fat/Tests.antt =====
-- Runs of the calculations of libparted/fs/r/fat/calc.c.
use parted.Prelude.{◌≡◌, refl, true, some, arith}
use parted.Prelude.Int.{pos, ◌+ℤ◌, ◌-ℤ◌, ◌*ℤ◌, ◌/ℤ◌}
use parted.Prelude.Run.{done, Returns, OrNull, ◌>>=◌}
use parted.Unit.Parse.{div_round_up}
use parted.Fat.{
  FatSpecific, FileSystem, fat16, fat_calc_align_sectors, fat_cluster_to_sector,
  fat_sector_to_cluster, fat_is_sector_in_clusters,
}
use parted.Fat.Calc.{calc_sizes, fat_calc_sizes}
use parted.Fat.Aligning.{MatchesUp, fat_calc_align_sectors-MatchesUp}
use parted.Fat.Clusters.{sector_of, fat_sector_to_cluster-IsBack}
use parted.Fat.Search.{IsFound, fat_calc_sizes-IsFound}
use parted.Fat.Sizes.{IsSize, calc_sizes-IsSize}

abbrev old_info : FatSpecific
old_info = record {
  fat_type = fat16;
  fat_sectors = pos 200;
  root_dir_sector_count = pos 32;
  cluster_offset = pos 433;
  cluster_sectors = pos 4;
  cluster_count = 50000;
  free_cluster_count = 20000;
  total_dir_clusters = 10;
  frag_sectors = pos 2;
  frag_count = pos 100000;
  cluster_frags = pos 2;
}

abbrev old_fs : FileSystem
old_fs = record {
  geom = record { dev = 1; start = pos 63; length = pos 200500; end = pos 200562 };
  type_specific = old_info;
}

abbrev new_fs : FileSystem
new_fs = record {
  geom = record { dev = 1; start = pos 2048; length = pos 150000; end = pos 152047 };
  type_specific = record old_info { fat_sectors = pos 150; cluster_count = 37000 };
}

fat_calc_align_sectors-MatchesUp_example :
    Returns (fat_calc_align_sectors new_fs old_fs) (MatchesUp new_fs old_fs)
fat_calc_align_sectors-MatchesUp_example =
    fat_calc_align_sectors-MatchesUp new_fs old_fs (omega arith)

fat_sector_to_cluster-IsBack_example :
    ((fat_cluster_to_sector old_info 7
        >>= (λ sector. fat_sector_to_cluster old_info (sector +ℤ pos 3)))
      ≡ done 7)
    × (fat_is_sector_in_clusters old_info (sector_of old_info 7 3) ≡ true)
fat_sector_to_cluster-IsBack_example =
    fat_sector_to_cluster-IsBack old_info 4 7 3 refl (omega arith) (omega arith) (omega arith)
      (omega arith)

calc_sizes-IsSize_example :
    Returns (calc_sizes (pos 200500) (pos 0) fat16 (pos 32) (pos 4)) (OrNull (IsSize fat16))
calc_sizes-IsSize_example =
    calc_sizes-IsSize (pos 200500) (pos 0) fat16 (pos 32) (pos 4) (omega arith)

-- The reserved sector, the root directory, two FATs and the clusters take 65825 sectors of 65823.
two_sectors_too_many :
    calc_sizes (pos 65823) (pos 0) fat16 (pos 32) (pos 2) ≡ done (some (32767, pos 129))
unfolding calc_sizes div_round_up ◌+ℤ◌ ◌-ℤ◌ ◌*ℤ◌ ◌/ℤ◌
two_sectors_too_many = refl

fat_calc_sizes-IsFound_example :
    Returns
      (fat_calc_sizes (pos 200500) (pos 0) fat16 (pos 32))
      (OrNull (IsFound (calc_sizes (pos 200500) (pos 0) fat16 (pos 32)) (IsSize fat16)))
fat_calc_sizes-IsFound_example = fat_calc_sizes-IsFound (pos 200500) (pos 0) fat16 (pos 32)
