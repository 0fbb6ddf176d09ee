-- ===== src/Fat/Fragments.antt =====
-- Fragments in libparted/fs/r/fat/calc.c.
use native.Mathlib.Nat
use parted.Prelude.{
  ℕ, ◌+◌, ◌-◌, ◌*◌, ◌%◌, ◌^◌, ◌≤◌, ◌<◌, ◌≡◌, refl, ap, ◌∙◌, true, false, ◌&&◌, leb, ltb, arith,
}
use parted.Prelude.Int.{pos, ◌+ℤ◌, ◌-ℤ◌, ◌/ℤ◌, ◌<ℤ◌, leb_ℤ, ltb_ℤ, ◌==ℤ◌, int_laws, pos-*ℤ, pos_add}
use parted.Prelude.Run.{done, ◌>>=◌}
use parted.NatMath.{to_int}
use parted.NatMath.Intersect.{to_int_small}
use parted.Fat.{
  FatSpecific, fat_cluster_to_frag, fat_frag_to_cluster, is_fragment, fat_frag_to_sector,
  fat_sector_to_frag,
}
use parted.Fat.Clusters.{quotient_of, below_end}

-- With `c` fragments in a cluster, and fewer than 2 ^ 31 in all, each fragment of a cluster, from
-- its first one on, is in this cluster.
pub fat_frag_to_cluster-IsBack :
    (fs_info : FatSpecific) (c cluster j : ℕ)
    → fs_info.cluster_frags ≡ pos c
    → fs_info.frag_count ≡ pos (c * fs_info.cluster_count)
    → j < c
    → 2 ≤ cluster
    → cluster < fs_info.cluster_count + 2
    → fs_info.cluster_count + 2 < 2 ^ 32
    → c * fs_info.cluster_count < 2 ^ 31
    → (fat_cluster_to_frag fs_info cluster
        >>= (λ frag. fat_frag_to_cluster fs_info (frag +ℤ pos j)))
      ≡ done cluster
unfolding fat_cluster_to_frag fat_frag_to_cluster ◌/ℤ◌
fat_frag_to_cluster-IsBack fs_info c cluster j size total small first last count bound =
    let a = cluster - 2 in
    let fits : a * c + j < c * fs_info.cluster_count =
      below_end a c j fs_info.cluster_count small (omega arith) in
    let one_cluster : c * 1 ≤ c * fs_info.cluster_count = Nat.mul-le-mul_left c (omega arith) in
    let c_small : c < 2 ^ 32 = omega arith in
    let no_trap : (pos c ==ℤ pos 0) ≡ false = grind arith in
    let whole : (fs_info.cluster_count + 2) % 2 ^ 32 ≡ fs_info.cluster_count + 2 =
      Nat.mod-eq_of_lt count in
    let in_range : (leb 2 cluster && ltb cluster (fs_info.cluster_count + 2)) ≡ true =
      grind arith in
    let product : a * c % 2 ^ 32 ≡ a * c = Nat.mod-eq_of_lt (omega arith) in
    let as_int : to_int (pos (a * c)) ≡ pos (a * c) =
      to_int_small (pos (a * c)) (omega arith) (omega arith) in
    let is_one : (leb_ℤ (pos 0) (pos (a * c + j))
          && ltb_ℤ (pos (a * c + j)) (pos (c * fs_info.cluster_count)))
        ≡ true =
      grind arith in
    rw
      (
        whole,
        in_range,
        size,
        total,
        Nat.mod-eq_of_lt c_small,
        product,
        as_int,
        pos_add (a * c) j,
        is_one,
        no_trap,
        quotient_of a c j small,
      )
      (ap done
        (rw (pos_add a 2) (ap (λ n. n % 2 ^ 32) (omega arith) ∙ Nat.mod-eq_of_lt (omega arith))))

-- With `c` sectors in a fragment, each sector of a fragment, from its first one on, is in this
-- fragment, if its number fits in an int.
pub fat_sector_to_frag-IsBack :
    (fs_info : FatSpecific) (c k j : ℕ)
    → fs_info.frag_sectors ≡ pos c
    → pos k <ℤ fs_info.frag_count
    → k < 2 ^ 31
    → j < c
    → (fat_frag_to_sector fs_info (pos k)
        >>= (λ sector. fat_sector_to_frag fs_info (sector +ℤ pos j)))
      ≡ done (pos k)
unfolding fat_frag_to_sector fat_sector_to_frag ◌/ℤ◌
fat_sector_to_frag-IsBack fs_info c k j size known bound small =
    let no_trap : (pos c ==ℤ pos 0) ≡ false = grind arith in
    let is_one : is_fragment fs_info (pos k) ≡ true = grind arith in
    let offset = fs_info.cluster_offset in
    let moved : pos (k * c) +ℤ offset +ℤ pos j -ℤ offset ≡ pos (k * c + j) = omega int_laws in
    let behind : leb_ℤ offset (pos (k * c) +ℤ offset +ℤ pos j) ≡ true = grind int_laws in
    let as_int : to_int (pos k) ≡ pos k = to_int_small (pos k) (omega arith) (omega arith) in
    rw (is_one, size, pos-*ℤ k c, behind, no_trap, moved, quotient_of k c j small, as_int) refl
