-- ===== src/Dos/Flags/Tests.antt =====
-- Examples for the flags of the DOS label.
use mathlib.Core.List.{List, [], ◌∷◌}
use parted.Prelude.{◌≡◌, true, false, some, refl, arith, ℕ}
use parted.Prelude.Int.{pos}
use parted.Prelude.Run.{done, Returns}
use parted.Dos.TypeId.{flag_boot, find_flag_id_mapping}
use parted.Dos.Flags.{
  DosPartition, partition_set_flag, set_own_flag, msdos_partition_get_flag,
  msdos_partition_set_type_id, msdos_partition_is_flag_available, msdos_partition_set_flag,
  store_one,
}
use parted.Dos.Flags.Setting.{AreSet, partition_set_flag-AreSet, get_flag_empty}

abbrev primary : ℕ → DosPartition
primary n = record {
  part = record {
    id = n;
    geom = record { dev = 0; start = pos n; length = pos 1; end = pos n };
    num = pos n;
    type = record {
      logical = false;
      extended = false;
      freespace = false;
      metadata = false;
      protected = false;
    };
  };
  fs_type = some "ext4";
  system = 0x83;
  boot = true;
}

abbrev two : List DosPartition
two = primary 1 ∷ primary 2 ∷ []

partition_set_flag-AreSet_example :
    Returns
      (partition_set_flag two (primary 2) flag_boot true)
      (λ r. (r.0 ≡ true) × AreSet (primary 2) flag_boot true two r.1)
unfolding msdos_partition_is_flag_available find_flag_id_mapping
partition_set_flag-AreSet_example =
    partition_set_flag-AreSet two (primary 2) flag_boot true (omega arith) refl refl
      ((λ e. cc e), (λ e. absurd (omega arith)), λ e. absurd (omega arith))

-- The boot flag moves from one partition to the other.
boot_moves :
    partition_set_flag two (primary 2) flag_boot true
    ≡ done (true, record (primary 1) { boot = false } ∷ primary 2 ∷ [])
unfolding partition_set_flag msdos_partition_set_flag set_own_flag store_one find_flag_id_mapping
    msdos_partition_is_flag_available
boot_moves = refl

get_flag_empty_example :
    msdos_partition_get_flag (msdos_partition_set_type_id (primary 1) 0) 18 ≡ true
unfolding find_flag_id_mapping
get_flag_empty_example =
    get_flag_empty (primary 1) 18 (record { flag = 18; type_id = 0xef; alt_type_id = 0 }) refl refl
