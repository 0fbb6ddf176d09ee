-- ===== src/Fat/Calc.antt =====
-- The sizes of clusters and FATs in libparted/fs/r/fat/calc.c: `fat_min_cluster_size` to
-- `fat_calc_resize_sizes`.
use parted.Prelude.{
  ℕ, zero, suc, ◌+◌, ◌%◌, ◌*◌, ◌/◌, ◌^◌, Bool, ◌||◌, ltb, leb, Option, none, some, if◌then◌else◌,
}
use parted.Prelude.Int.{ℤ, pos, pos_part, ◌+ℤ◌, ◌-ℤ◌, ◌*ℤ◌, ◌/ℤ◌, ltb_ℤ, leb_ℤ, max_ℤ}
use parted.Prelude.Run.{Run, done, fault, ped_assert, ◌>>=◌, ◌>>◌}
use parted.Geom.{Geometry}
use parted.Unit.{divided}
use parted.Unit.Parse.{div_round_up}
use parted.Fat.{
  FatType, fat12, fat16, fat32, FatSpecific, fat_min_reserved_sector_count, root_dir_sectors_of,
  to_cluster,
}

abbrev pub fat_min_cluster_size : FatType → ℤ
fat_min_cluster_size fat12 = pos 1
fat_min_cluster_size fat16 = pos 2
fat_min_cluster_size fat32 = pos 8

abbrev pub fat_max_cluster_size : FatType → ℤ
fat_max_cluster_size fat12 = pos 1
fat_max_cluster_size fat16 = pos 128
fat_max_cluster_size fat32 = pos 128

abbrev pub fat_max_cluster_count : FatType → ℕ
fat_max_cluster_count fat12 = 0xff0
fat_max_cluster_count fat16 = 0xfff0
fat_max_cluster_count fat32 = 0x0ffffff0

abbrev pub fat_min_cluster_count : FatType → ℕ
fat_min_cluster_count fat12 = fat_max_cluster_count fat12 / 2
fat_min_cluster_count fat16 = fat_max_cluster_count fat16 / 2
fat_min_cluster_count fat32 = 0xfff0

-- The loop, with the rounds that are left.
unfoldable pub power2_from : ℕ → ℤ → ℤ → ℤ
power2_from zero result ceiling = result
power2_from (suc rounds) result ceiling =
    let rest = power2_from rounds (result *ℤ pos 2) ceiling in
    if ltb_ℤ result ceiling then rest else result

unfoldable pub smallest_power2_over : ℤ → ℤ
unfolding power2_from
smallest_power2_over ceiling = power2_from (pos_part ceiling) (pos 1) ceiling

unfoldable pub fat_recommend_min_cluster_size : FatType → ℤ → ℤ
unfolding smallest_power2_over
fat_recommend_min_cluster_size fat12 size = pos 1
fat_recommend_min_cluster_size fat16 size = fat_min_cluster_size fat16
fat_recommend_min_cluster_size fat32 size =
    max_ℤ (smallest_power2_over (size /ℤ pos 2000000)) (fat_min_cluster_size fat32)

abbrev pub entries_per_sector : FatType → ℕ
entries_per_sector fat12 = 512 * 3 / 2
entries_per_sector fat16 = 512 / 2
entries_per_sector fat32 = 512 / 4

abbrev pub data_fat_space : (size align : ℤ) → FatType → (root_dir_sectors : ℤ) → ℤ
data_fat_space size align fat_type root_dir_sectors =
    size
    -ℤ fat_min_reserved_sector_count fat_type
    -ℤ align
    -ℤ root_dir_sectors_of fat_type root_dir_sectors

-- The space of a FAT for so many clusters.
abbrev pub fat_space_for : FatType → ℕ → Run ℤ
fat_space_for fat_type cluster_count =
    div_round_up (pos ((cluster_count + 2) % 2 ^ 32)) (pos (entries_per_sector fat_type))

-- How many FATs the loop takes off the space.
abbrev pub fats_in_loop : FatType → ℤ
fats_in_loop fat12 = pos 2
fats_in_loop fat16 = pos 2
fats_in_loop fat32 = pos 1

-- A round of the loop, from the old space of a FAT to the new one.
unfoldable pub next_fat_space : (space : ℤ) → FatType → (cluster_sectors fat_space : ℤ) → Run ℤ
next_fat_space space fat_type cluster_sectors fat_space =
    divided (space -ℤ fats_in_loop fat_type *ℤ fat_space) cluster_sectors
    >>= (λ n. fat_space_for fat_type (to_cluster n))

-- The end: the cluster count and the space of a FAT, or none if the count is out of bounds.
abbrev pub checked_sizes : FatType → (cluster_count : ℕ) → (fat_space needed : ℤ) → Option (ℕ × ℤ)
checked_sizes fat_type cluster_count fat_space needed =
    if ltb (fat_max_cluster_count fat_type) cluster_count
      || ltb cluster_count (fat_min_cluster_count fat_type)
    then none
    else some (cluster_count, if ltb_ℤ fat_space needed then needed else fat_space)

abbrev pub enlarged_sizes : FatType → (cluster_count : ℕ) → (fat_space : ℤ) → Run (Option (ℕ × ℤ))
enlarged_sizes fat_type cluster_count fat_space =
    fat_space_for fat_type cluster_count
    >>= (λ needed. done (checked_sizes fat_type cluster_count fat_space needed))

unfoldable pub final_sizes :
    (space : ℤ) → FatType → (cluster_sectors fat_space : ℤ) → Run (Option (ℕ × ℤ))
final_sizes space fat_type cluster_sectors fat_space =
    divided (space -ℤ pos 2 *ℤ fat_space) cluster_sectors
    >>= (λ n. enlarged_sizes fat_type (to_cluster n) fat_space)

unfoldable pub calc_sizes :
    (size align : ℤ) → FatType → (root_dir_sectors cluster_sectors : ℤ) → Run (Option (ℕ × ℤ))
unfolding next_fat_space final_sizes
calc_sizes size align fat_type root_dir_sectors cluster_sectors = do
  let space = data_fat_space size align fat_type root_dir_sectors
  first ← next_fat_space space fat_type cluster_sectors (pos 0)
  second ← next_fat_space space fat_type cluster_sectors first
  final_sizes space fat_type cluster_sectors second

-- The sectors of a cluster, the number of clusters and the space of a FAT.
abbrev pub Sizes : Type 0
Sizes = Option (ℤ × (ℕ × ℤ))

abbrev pub or_next : ℤ → Option (ℕ × ℤ) → Run Sizes → Run Sizes
or_next cluster_sectors none next = next
or_next cluster_sectors (some sizes) next = done (some (cluster_sectors, sizes))

-- The loops over cluster sizes, with the rounds that are left; `calc` is `calc_sizes`.
module _ (calc : ℤ → Run (Option (ℕ × ℤ))) where
  unfoldable pub doubling : ℕ → (most : ℤ) → (cluster_sectors : ℤ) → Run Sizes
  doubling zero most cluster_sectors = fault
  doubling (suc rounds) most cluster_sectors =
      let next = doubling rounds most (cluster_sectors *ℤ pos 2) in
      if leb_ℤ cluster_sectors most
      then calc cluster_sectors >>= (λ sizes. or_next cluster_sectors sizes next)
      else done none

  unfoldable pub halving : ℕ → (least : ℤ) → (cluster_sectors : ℤ) → Run Sizes
  halving zero least cluster_sectors = fault
  halving (suc rounds) least cluster_sectors =
      let next = halving rounds least (cluster_sectors /ℤ pos 2) in
      if leb_ℤ least cluster_sectors
      then calc cluster_sectors >>= (λ sizes. or_next cluster_sectors sizes next)
      else done none

-- What the next loop gives, if the one before it gave nothing.
abbrev pub or_loop : Sizes → Run Sizes → Run Sizes
or_loop none loop = loop
or_loop (some sizes) loop = done (some sizes)

unfoldable pub fat_calc_sizes : (size align : ℤ) → FatType → (root_dir_sectors : ℤ) → Run Sizes
unfolding doubling halving
fat_calc_sizes size align fat_type root_dir_sectors =
    let calc = calc_sizes size align fat_type root_dir_sectors in
    let first = fat_recommend_min_cluster_size fat_type size in
    doubling calc (suc (pos_part (fat_max_cluster_size fat_type))) (fat_max_cluster_size fat_type)
      first
    >>= (λ larger. or_loop larger (
        halving calc (suc (pos_part first)) (fat_min_cluster_size fat_type) first
        >>= (λ smaller. or_loop smaller (halving calc 5 (pos 1) (pos 4)))))

unfoldable pub fat_calc_resize_sizes :
    Geometry → (align : ℤ) → FatType → (root_dir_sectors cluster_sectors : ℤ) → Run Sizes
unfolding halving
fat_calc_resize_sizes geom align fat_type root_dir_sectors cluster_sectors =
    halving (calc_sizes geom.length align fat_type root_dir_sectors)
      (suc (pos_part cluster_sectors)) (fat_min_cluster_size fat_type) cluster_sectors

-- Whether the free space is enough to shrink to so many clusters.
unfoldable pub fat_check_resize_geometry : FatSpecific → (new_cluster_sectors : ℤ) → ℕ → Run Bool
fat_check_resize_geometry fs_info new_cluster_sectors new_cluster_count = do
  let dir_space = pos fs_info.total_dir_clusters *ℤ fs_info.cluster_sectors
  let free_space = pos fs_info.free_cluster_count *ℤ fs_info.cluster_sectors
  let total_space = pos fs_info.cluster_count *ℤ fs_info.cluster_sectors
  let new_total_space = pos new_cluster_count *ℤ new_cluster_sectors
  ped_assert (leb new_cluster_count (fat_max_cluster_count fat32))
  done (leb_ℤ (total_space -ℤ new_total_space +ℤ dir_space) free_space)
