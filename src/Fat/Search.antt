-- ===== src/Fat/Search.antt =====
-- The loops of libparted/fs/r/fat/calc.c that try cluster sizes.
use parted.Prelude.{ℕ, zero, suc, ◌≡◌, refl, Bool-cases, inl, inr, false, Option, none, some, arith}
use parted.Prelude.Int.{
  ℤ, pos, pos_part, ◌+ℤ◌, ◌*ℤ◌, ◌/ℤ◌, ◌≤ℤ◌, ◌<ℤ◌, leb_ℤ, int_laws, *ℤ_parts, /ℤ_parts,
  parts_disjoint,
}
use parted.Prelude.Run.{Run, done, fault, OrNull, Returns, ◌>>=◌}
use parted.Geom.{Geometry}
use parted.Fat.{FatType, fat12, fat16, fat32}
use parted.Fat.Calc.{
  Sizes, or_next, or_loop, doubling, halving, calc_sizes, fat_calc_sizes, fat_calc_resize_sizes,
  fat_min_cluster_size, fat_max_cluster_size, fat_recommend_min_cluster_size,
}
use parted.Fat.Sizes.{IsSize, calc_sizes-IsSize}

-- Sizes that were found for a cluster size.
abbrev pub IsFound : (ℤ → Run (Option (ℕ × ℤ))) → (ℕ × ℤ → Type 0) → ℤ × (ℕ × ℤ) → Type 0
IsFound calc IsGood (cs, sizes) = (pos 0 <ℤ cs) × (calc cs ≡ done (some sizes)) × IsGood sizes

module _ (calc : ℤ → Run (Option (ℕ × ℤ))) (IsGood : ℕ × ℤ → Type 0)
    (good : (cs : ℤ) → pos 0 <ℤ cs → Returns (calc cs) (OrNull IsGood)) where
  tried-IsFound :
      (cs : ℤ) (m : Run (Option (ℕ × ℤ))) (next : Run Sizes)
      → calc cs ≡ m
      → pos 0 <ℤ cs
      → Returns m (OrNull IsGood)
      → Returns next (OrNull (IsFound calc IsGood))
      → Returns (m >>= (λ sizes. or_next cs sizes next)) (OrNull (IsFound calc IsGood))
  tried-IsFound cs (done none) next is positive h rest = rest
  tried-IsFound cs (done (some sizes)) next is positive h rest = (positive, is, h)
  tried-IsFound cs fault next is positive h rest = absurd h

  doubling-IsFound :
      (rounds : ℕ) (most cs : ℤ)
      → pos 0 <ℤ cs
      → most <ℤ cs +ℤ pos rounds
      → Returns (doubling calc (suc rounds) most cs) (OrNull (IsFound calc IsGood))
  unfolding doubling
  doubling-IsFound zero most cs positive enough =
      let stops : leb_ℤ cs most ≡ false = grind int_laws in rw stops tt
  doubling-IsFound (suc rounds) most cs positive enough =
      let rest =
        doubling-IsFound rounds most (cs *ℤ pos 2) (omega (int_laws, *ℤ_parts cs (pos 2)))
          (omega (int_laws, *ℤ_parts cs (pos 2))) in
      elim (Bool-cases (leb_ℤ cs most)) [
        | inl goes ↦ rw goes (tried-IsFound cs (calc cs) _ refl positive (good cs positive) rest)
        | inr stops ↦ rw stops tt
      ]

  halving-IsFound :
      (rounds : ℕ) (least cs : ℤ)
      → pos 0 <ℤ least
      → cs ≤ℤ pos rounds
      → Returns (halving calc (suc rounds) least cs) (OrNull (IsFound calc IsGood))
  unfolding halving
  halving-IsFound zero least cs positive enough =
      let stops : leb_ℤ least cs ≡ false = ground arith in rw stops tt
  halving-IsFound (suc rounds) least cs positive enough = elim (Bool-cases (leb_ℤ least cs)) [
    | inl goes ↦
        let above : pos 0 <ℤ cs = ground arith in
        let smaller : cs /ℤ pos 2 ≤ℤ pos rounds = omega (arith, /ℤ_parts cs 2, parts_disjoint cs) in
        rw goes (
          tried-IsFound cs (calc cs) _ refl above (good cs above)
            (halving-IsFound rounds least (cs /ℤ pos 2) positive smaller))
    | inr stops ↦ rw stops tt
  ]

  or_loop-IsFound :
      (first second : Run Sizes)
      → Returns first (OrNull (IsFound calc IsGood))
      → Returns second (OrNull (IsFound calc IsGood))
      → Returns (first >>= (λ found. or_loop found second)) (OrNull (IsFound calc IsGood))
  or_loop-IsFound (done none) second h k = k
  or_loop-IsFound (done (some found)) second h k = h
  or_loop-IsFound fault second h k = absurd h

recommended_positive :
    (fat_type : FatType) (size : ℤ) → pos 0 <ℤ fat_recommend_min_cluster_size fat_type size
unfolding fat_recommend_min_cluster_size
recommended_positive fat12 size = omega arith
recommended_positive fat16 size = omega arith
recommended_positive fat32 size = ground arith

least_positive : (fat_type : FatType) → pos 0 <ℤ fat_min_cluster_size fat_type
least_positive fat12 = omega arith
least_positive fat16 = omega arith
least_positive fat32 = omega arith

-- The loops of `fat_calc_sizes` end. Where one finds a size of clusters, it is at least one sector,
-- and the number of clusters and the space of a FAT are those that `calc_sizes` gives for it: a
-- number of clusters that the type of FAT allows, and for FAT16 and FAT32, with entries of 2 and 4
-- bytes and sectors of 512 bytes, a space with an entry for each of them and two more.
pub fat_calc_sizes-IsFound :
    (size align : ℤ) (fat_type : FatType) (root_dir_sectors : ℤ)
    → Returns
        (fat_calc_sizes size align fat_type root_dir_sectors)
        (OrNull (IsFound (calc_sizes size align fat_type root_dir_sectors) (IsSize fat_type)))
unfolding fat_calc_sizes
fat_calc_sizes-IsFound size align fat_type root_dir_sectors =
    let calc = calc_sizes size align fat_type root_dir_sectors in
    let first = fat_recommend_min_cluster_size fat_type size in
    let good = calc_sizes-IsSize size align fat_type root_dir_sectors in
    let most = fat_max_cluster_size fat_type in
    let least = fat_min_cluster_size fat_type in
    or_loop-IsFound calc (IsSize fat_type) good _ _
      (doubling-IsFound calc (IsSize fat_type) good (pos_part most) most first
        (recommended_positive fat_type size) (omega (int_laws, recommended_positive fat_type size)))
      (or_loop-IsFound calc (IsSize fat_type) good _ _
        (halving-IsFound calc (IsSize fat_type) good (pos_part first) least first
          (least_positive fat_type) (omega int_laws))
        (halving-IsFound calc (IsSize fat_type) good 4 (pos 1) (pos 4) (omega arith) (omega arith)))

-- The same of `fat_calc_resize_sizes`.
pub fat_calc_resize_sizes-IsFound :
    (geom : Geometry) (align : ℤ) (fat_type : FatType) (root_dir_sectors cluster_sectors : ℤ)
    → Returns (fat_calc_resize_sizes geom align fat_type root_dir_sectors cluster_sectors) (
        OrNull (IsFound (calc_sizes geom.length align fat_type root_dir_sectors) (IsSize fat_type)))
unfolding fat_calc_resize_sizes
fat_calc_resize_sizes-IsFound geom align fat_type root_dir_sectors cluster_sectors =
    halving-IsFound (calc_sizes geom.length align fat_type root_dir_sectors) (IsSize fat_type)
      (calc_sizes-IsSize geom.length align fat_type root_dir_sectors) (pos_part cluster_sectors)
      (fat_min_cluster_size fat_type) cluster_sectors (least_positive fat_type) (omega int_laws)
