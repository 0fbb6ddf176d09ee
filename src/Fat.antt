-- ===== src/Fat.antt =====
-- The calculations of the FAT resizer: libparted/fs/r/fat/calc.c. A FatCluster is an unsigned int
-- of 32 bits.
pub mod Aligning
pub mod Calc
pub mod Clusters
pub mod Sizes
pub mod Search
pub mod Fragments
mod Tests
use parted.Prelude.{
  ℕ, zero, suc, ◌+◌, ◌-◌, ◌%◌, ◌*◌, ◌/◌, ◌^◌, Bool, true, false, ◌||◌, ◌&&◌, ltb, leb, ◌==◌, Option,
  none, some, if◌then◌else◌,
}
use parted.Prelude.Int.{ℤ, pos, negsuc, pos_part, ◌+ℤ◌, ◌-ℤ◌, ◌*ℤ◌, ◌/ℤ◌, ◌%ℤ◌, ltb_ℤ, leb_ℤ, max_ℤ}
use parted.Prelude.Run.{Run, done, fault, ped_assert, ◌>>=◌, ◌>>◌}
use parted.NatMath.{to_int}
use parted.Geom.{Geometry}
use parted.Unit.{divided, remainder}
use parted.Unit.Parse.{div_round_up}

pub data FatType : Type 0 where
  fat12 : FatType
  fat16 : FatType
  fat32 : FatType

-- The fields that these functions read.
pub record FatSpecific : Type 0 where
  pub fat_type : FatType
  pub fat_sectors : ℤ
  pub root_dir_sector_count : ℤ
  pub cluster_offset : ℤ
  pub cluster_sectors : ℤ
  pub cluster_count : ℕ
  pub free_cluster_count : ℕ
  pub total_dir_clusters : ℕ
  pub frag_sectors : ℤ
  pub frag_count : ℤ
  pub cluster_frags : ℤ

pub record FileSystem : Type 0 where
  pub geom : Geometry
  pub type_specific : FatSpecific

abbrev pub fat_min_reserved_sector_count : FatType → ℤ
fat_min_reserved_sector_count fat12 = pos 1
fat_min_reserved_sector_count fat16 = pos 1
fat_min_reserved_sector_count fat32 = pos 32

-- Only FAT16 counts the root directory.
abbrev pub root_dir_sectors_of : FatType → ℤ → ℤ
root_dir_sectors_of fat12 root_dir_sectors = pos 0
root_dir_sectors_of fat16 root_dir_sectors = root_dir_sectors
root_dir_sectors_of fat32 root_dir_sectors = pos 0

abbrev pub new_meta_data_size : FatSpecific → ℤ
new_meta_data_size fs_info =
    fat_min_reserved_sector_count fs_info.fat_type
    +ℤ fs_info.fat_sectors *ℤ pos 2
    +ℤ root_dir_sectors_of fs_info.fat_type fs_info.root_dir_sector_count

-- The first value of `align`.
unfoldable pub match_up : ℤ → ℤ → ℤ → Run ℤ
match_up raw_old_meta_data_end min_new_meta_data_end cluster_sectors =
    if ltb_ℤ min_new_meta_data_end raw_old_meta_data_end
    then remainder (raw_old_meta_data_end -ℤ min_new_meta_data_end) cluster_sectors
    else (remainder (min_new_meta_data_end -ℤ raw_old_meta_data_end) cluster_sectors
        >>= (λ over. remainder (cluster_sectors -ℤ over) cluster_sectors))

-- The loop, with the rounds that are left.
unfoldable pub use_up : ℕ → ℤ → ℤ → ℤ → ℤ → ℤ
use_up zero align clusters_size cluster_sectors data_size = align
use_up (suc rounds) align clusters_size cluster_sectors data_size =
    let rest = use_up rounds (align +ℤ cluster_sectors) clusters_size cluster_sectors data_size in
    if leb_ℤ (clusters_size +ℤ align +ℤ cluster_sectors) data_size then rest else align

-- Clusters are at least a sector, so there are no more rounds than sectors of the file system.
unfoldable pub fat_calc_align_sectors : FileSystem → FileSystem → Run ℤ
unfolding match_up use_up
fat_calc_align_sectors new_fs old_fs = do
  let new_fs_info = new_fs.type_specific
  let meta_data_size = new_meta_data_size new_fs_info
  let data_size = new_fs.geom.length -ℤ meta_data_size
  let clusters_size = pos new_fs_info.cluster_count *ℤ new_fs_info.cluster_sectors
  align ←
      match_up (old_fs.geom.start +ℤ old_fs.type_specific.cluster_offset)
        (new_fs.geom.start +ℤ meta_data_size) new_fs_info.cluster_sectors
  done (use_up (suc (pos_part data_size)) align clusters_size new_fs_info.cluster_sectors data_size)

-- Conversion to a FatCluster.
abbrev pub to_cluster : ℤ → ℕ
to_cluster (pos n) = n % 2 ^ 32
to_cluster (negsuc n) = 2 ^ 32 - 1 - n % 2 ^ 32

unfoldable pub fat_is_sector_in_clusters : FatSpecific → ℤ → Bool
fat_is_sector_in_clusters fs_info sector =
    leb_ℤ fs_info.cluster_offset sector
    && ltb_ℤ sector (fs_info.cluster_offset +ℤ fs_info.cluster_sectors *ℤ pos fs_info.cluster_count)

unfoldable pub fat_cluster_to_sector : FatSpecific → ℕ → Run ℤ
fat_cluster_to_sector fs_info cluster = do
  ped_assert (leb 2 cluster && ltb cluster ((fs_info.cluster_count + 2) % 2 ^ 32))
  done (pos (cluster - 2) *ℤ fs_info.cluster_sectors +ℤ fs_info.cluster_offset)

unfoldable pub fat_sector_to_cluster : FatSpecific → ℤ → Run ℕ
fat_sector_to_cluster fs_info sector = do
  ped_assert (leb_ℤ fs_info.cluster_offset sector)
  n ← divided (sector -ℤ fs_info.cluster_offset) fs_info.cluster_sectors
  done (to_cluster (n +ℤ pos 2))

-- A FatFragment is an int.
unfoldable pub fat_cluster_to_frag : FatSpecific → ℕ → Run ℤ
fat_cluster_to_frag fs_info cluster = do
  ped_assert (leb 2 cluster && ltb cluster ((fs_info.cluster_count + 2) % 2 ^ 32))
  done (to_int (pos ((cluster - 2) * to_cluster fs_info.cluster_frags % 2 ^ 32)))

abbrev pub is_fragment : FatSpecific → ℤ → Bool
is_fragment fs_info frag = leb_ℤ (pos 0) frag && ltb_ℤ frag fs_info.frag_count

unfoldable pub fat_frag_to_cluster : FatSpecific → ℤ → Run ℕ
fat_frag_to_cluster fs_info frag = do
  ped_assert (is_fragment fs_info frag)
  n ← divided frag fs_info.cluster_frags
  done (to_cluster (n +ℤ pos 2))

unfoldable pub fat_frag_to_sector : FatSpecific → ℤ → Run ℤ
fat_frag_to_sector fs_info frag = do
  ped_assert (is_fragment fs_info frag)
  done (frag *ℤ fs_info.frag_sectors +ℤ fs_info.cluster_offset)

unfoldable pub fat_sector_to_frag : FatSpecific → ℤ → Run ℤ
fat_sector_to_frag fs_info sector = do
  ped_assert (leb_ℤ fs_info.cluster_offset sector)
  n ← divided (sector -ℤ fs_info.cluster_offset) fs_info.frag_sectors
  done (to_int n)
