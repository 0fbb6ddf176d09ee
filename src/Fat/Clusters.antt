-- ===== src/Fat/Clusters.antt =====
-- Clusters and sectors in libparted/fs/r/fat/calc.c.
use native.Mathlib.Nat
use parted.Prelude.{
  ℕ, ◌+◌, ◌-◌, ◌*◌, ◌/◌, ◌%◌, ◌^◌, ◌≤◌, ◌<◌, ◌≡◌, refl, ap, ◌∙◌, true, false, ◌&&◌, leb, ltb, arith,
}
use parted.Prelude.Int.{
  ℤ, pos, ◌+ℤ◌, ◌-ℤ◌, ◌*ℤ◌, ◌/ℤ◌, leb_ℤ, ltb_ℤ, ◌==ℤ◌, int_laws, pos-*ℤ, pos_add, ltb_ℤ_iff, ◌<ℤ◌,
}
use parted.Prelude.Run.{done, ◌>>=◌}
use parted.Fat.{
  FatSpecific, fat_is_sector_in_clusters, fat_cluster_to_sector, fat_sector_to_cluster,
}

-- The sector with number `j` in a cluster.
abbrev pub sector_of : FatSpecific → ℕ → ℕ → ℤ
sector_of fs_info cluster j =
    pos (cluster - 2) *ℤ fs_info.cluster_sectors +ℤ fs_info.cluster_offset +ℤ pos j

pub quotient_of : (a c j : ℕ) → j < c → (a * c + j) / c ≡ a
quotient_of a c j small =
    ap (λ m. m / c) (omega arith)
    ∙ Nat.add-mul-div_right j a (omega arith)
    ∙ rw (Nat.div-eq_of_lt small) (omega arith)

pub below_end : (a c j count : ℕ) → j < c → a < count → a * c + j < c * count
below_end a c j count small last =
    let whole : (a + 1) * c ≤ count * c = Nat.mul-le-mul_right c (omega arith) in
    let next : (a + 1) * c ≡ a * c + 1 * c = Nat.add-mul a 1 c in
    let turned : count * c ≡ c * count = Nat.mul_comm count c in omega (arith, next, whole, turned)

-- On a file system with clusters of at least one sector, and fewer than 2 ^ 32 - 2 of them, each
-- sector of a cluster, from its first one on, is one of the clusters and is in this cluster.
pub fat_sector_to_cluster-IsBack :
    (fs_info : FatSpecific) (c cluster j : ℕ)
    → fs_info.cluster_sectors ≡ pos c
    → j < c
    → 2 ≤ cluster
    → cluster < fs_info.cluster_count + 2
    → fs_info.cluster_count + 2 < 2 ^ 32
    → ((fat_cluster_to_sector fs_info cluster
          >>= (λ sector. fat_sector_to_cluster fs_info (sector +ℤ pos j)))
        ≡ done cluster)
      × (fat_is_sector_in_clusters fs_info (sector_of fs_info cluster j) ≡ true)
unfolding fat_cluster_to_sector fat_sector_to_cluster fat_is_sector_in_clusters ◌/ℤ◌
fat_sector_to_cluster-IsBack fs_info c cluster j size small first last count =
    let positive : 0 < c = omega arith in
    let no_trap : (pos c ==ℤ pos 0) ≡ false = grind arith in
    let whole : (fs_info.cluster_count + 2) % 2 ^ 32 ≡ fs_info.cluster_count + 2 =
      Nat.mod-eq_of_lt count in
    let in_range : (leb 2 cluster && ltb cluster (fs_info.cluster_count + 2)) ≡ true =
      grind arith in
    let a = cluster - 2 in
    let moved : pos (a * c) +ℤ fs_info.cluster_offset +ℤ pos j -ℤ fs_info.cluster_offset
        ≡ pos (a * c + j) =
      omega int_laws in
    let behind : leb_ℤ fs_info.cluster_offset (pos (a * c) +ℤ fs_info.cluster_offset +ℤ pos j)
        ≡ true =
      grind int_laws in
    let last_sector = pos (a * c) +ℤ fs_info.cluster_offset +ℤ pos j in
    let end = fs_info.cluster_offset +ℤ pos (c * fs_info.cluster_count) in
    let before_end : last_sector <ℤ end =
      omega (int_laws, below_end a c j fs_info.cluster_count small (omega arith)) in
    let inside : ltb_ℤ last_sector end ≡ true = (ltb_ℤ_iff last_sector end).1 before_end in
    (
      rw (whole, in_range, size, pos-*ℤ a c, behind, no_trap, moved, quotient_of a c j small)
          (ap done (
            rw (pos_add a 2)
              (ap (λ n. n % 2 ^ 32) (omega arith) ∙ Nat.mod-eq_of_lt (omega arith)))),
      rw (size, pos-*ℤ a c, pos-*ℤ c fs_info.cluster_count, behind, inside) refl,
    )
