-- ===== src/Fat/Sizes.antt =====
-- The sizes of clusters and FATs that libparted/fs/r/fat/calc.c computes.
use native.Mathlib.Nat
use parted.Prelude.{
  ℕ, zero, suc, ◌+◌, ◌-◌, ◌*◌, ◌/◌, ◌%◌, ◌^◌, ◌≤◌, ◌<◌, ◌≡◌, inl, inr, refl, sym, ap, ◌∙◌, subst,
  dec_lt, false, ◌||◌, Bool-cases, ltb, arith,
}
use parted.Prelude.Int.{
  ℤ, pos, pos_part, ◌+ℤ◌, ◌-ℤ◌, ◌*ℤ◌, ◌/ℤ◌, ◌≤ℤ◌, ◌<ℤ◌, ltb_ℤ, ◌==ℤ◌, int_laws, pos-*ℤ, *ℤ_parts,
  mul_nonneg, -ℤ-*ℤ,
}
use parted.Prelude.Run.{done, OrNull, Returns, Returns_bind, ◌>>=◌}
use parted.Unit.Parse.{div_round_up}
use parted.Fat.{fat12, fat16, fat32, to_cluster, FatType}
use parted.Fat.Calc.{
  entries_per_sector, fat_space_for, fat_min_cluster_count, fat_max_cluster_count, final_sizes,
  next_fat_space, calc_sizes, data_fat_space, checked_sizes, enlarged_sizes, power2_from,
  smallest_power2_over,
}

-- The least power of two that is not below the ceiling.
abbrev pub IsLeastPower : ℤ → ℤ → Type 0
IsLeastPower ceiling result =
    (k : ℕ) × (result ≡ pos (2 ^ k))
    × (ceiling ≤ℤ result)
    × ((n : ℕ) → n < k → pos (2 ^ n) <ℤ ceiling)

power_grows : (k : ℕ) → 0 < 2 ^ k
power_grows zero = omega arith
power_grows (suc k) = omega (arith, Nat.pow-suc 2 k, power_grows k)

power2_from-IsLeastPower :
    (rounds k : ℕ) (ceiling : ℤ)
    → ceiling ≤ℤ pos (2 ^ k + rounds)
    → ((n : ℕ) → n < k → pos (2 ^ n) <ℤ ceiling)
    → IsLeastPower ceiling (power2_from rounds (pos (2 ^ k)) ceiling)
unfolding power2_from
power2_from-IsLeastPower zero k ceiling enough below = (k, refl, omega arith, below)
power2_from-IsLeastPower (suc rounds) k ceiling enough below =
    let double : pos (2 ^ k) *ℤ pos 2 ≡ pos (2 ^ suc k) =
      pos-*ℤ (2 ^ k) 2 ∙ ap (λ n. pos n) (sym (Nat.pow-suc 2 k)) in
    elim (Bool-cases (ltb_ℤ (pos (2 ^ k)) ceiling)) [
      | inl less ↦
          rw (less, double)
            (power2_from-IsLeastPower rounds (suc k) ceiling
              (omega (arith, Nat.pow-suc 2 k, power_grows k))
              (λ n lt. elim (dec_lt n k) [
                | yes small ↦ below n small
                | no equal ↦
                    subst (λ m. pos (2 ^ m) <ℤ ceiling) {x = k} (omega arith) (ground arith)
              ]))
      | inr reached ↦ rw reached (k, refl, ground arith, below)
    ]

-- `_smallest_power2_over` gives the least power of two that is not below the number; its loop ends.
pub smallest_power2_over-IsLeastPower :
    (ceiling : ℤ) → IsLeastPower ceiling (smallest_power2_over ceiling)
unfolding smallest_power2_over
smallest_power2_over-IsLeastPower ceiling =
    power2_from-IsLeastPower (pos_part ceiling) 0 ceiling (omega arith)
      (λ n lt. absurd (omega arith))

covered : (m e : ℕ) → 0 < e → m ≤ (m + e - 1) / e * e
covered m e positive =
    omega (arith, Nat.div-add-mod' (m + e - 1) e, Nat.mod-lt (m + e - 1) {m = e} positive)

div_round_up-pos : (m e : ℕ) → 0 < e → div_round_up (pos m) (pos e) ≡ done (pos ((m + e - 1) / e))
unfolding div_round_up ◌/ℤ◌
div_round_up-pos m e positive =
    let no_trap : (pos e ==ℤ pos 0) ≡ false = grind arith in
    let sum : pos m +ℤ pos e -ℤ pos 1 ≡ pos (m + e - 1) = omega int_laws in rw (no_trap, sum) refl

entries_positive : (fat_type : FatType) → 0 < entries_per_sector fat_type
entries_positive fat12 = omega arith
entries_positive fat16 = omega arith
entries_positive fat32 = omega arith

-- A FAT of this space has an entry for each cluster and two more, as `entries_per_sector` counts.
abbrev pub Covers : FatType → ℕ → ℤ → Type 0
Covers fat_type cluster_count fat_space =
    pos (cluster_count + 2) ≤ℤ fat_space *ℤ pos (entries_per_sector fat_type)

fat_space_for-Covers :
    (fat_type : FatType) (count : ℕ)
    → Returns
        (fat_space_for fat_type count)
        (λ needed. count + 2 < 2 ^ 32 → Covers fat_type count needed)
fat_space_for-Covers fat_type count =
    let e = entries_per_sector fat_type in
    rw (div_round_up-pos ((count + 2) % 2 ^ 32) e (entries_positive fat_type)) (λ small.
      rw (Nat.mod-eq_of_lt small, pos-*ℤ ((count + 2 + e - 1) / e) e)
        (omega (arith, covered (count + 2) e (entries_positive fat_type))))

larger-Covers :
    (fat_type : FatType) (count : ℕ) (less more : ℤ)
    → less ≤ℤ more
    → Covers fat_type count less
    → Covers fat_type count more
larger-Covers fat_type count less more le covers =
    let e : ℤ = pos (entries_per_sector fat_type) in
    let more_entries : pos 0 ≤ℤ (more -ℤ less) *ℤ e =
      mul_nonneg (more -ℤ less) e (omega int_laws) (omega arith) in
    let difference : pos 0 ≤ℤ more *ℤ e -ℤ less *ℤ e =
      subst (λ z. pos 0 ≤ℤ z) (-ℤ-*ℤ more less e) more_entries in
    omega int_laws

-- Room for an entry for each cluster and two more, in sectors of 512 bytes: an entry of FAT16 takes
-- 2 bytes and one of FAT32 takes 4. Nothing is said of FAT12, where the room is too small.
abbrev pub HasRoom : FatType → ℕ → ℤ → Type 0
HasRoom fat12 count fat_space = Unit {0}
HasRoom fat16 count fat_space = pos ((count + 2) * 2) ≤ℤ fat_space *ℤ pos 512
HasRoom fat32 count fat_space = pos ((count + 2) * 4) ≤ℤ fat_space *ℤ pos 512

Covers-HasRoom :
    (fat_type : FatType) (count : ℕ) (fat_space : ℤ)
    → Covers fat_type count fat_space
    → HasRoom fat_type count fat_space
Covers-HasRoom fat12 count fat_space covers = tt
Covers-HasRoom fat16 count fat_space covers =
    omega (int_laws, *ℤ_parts fat_space (pos 256), *ℤ_parts fat_space (pos 512))
Covers-HasRoom fat32 count fat_space covers =
    omega (int_laws, *ℤ_parts fat_space (pos 128), *ℤ_parts fat_space (pos 512))

-- A count of clusters that the type allows, and room for the FAT.
abbrev pub IsSize : FatType → ℕ × ℤ → Type 0
IsSize fat_type (count, fat_space) =
    (fat_min_cluster_count fat_type ≤ count)
    × (count ≤ fat_max_cluster_count fat_type)
    × HasRoom fat_type count fat_space

limits_small : (fat_type : FatType) → fat_max_cluster_count fat_type + 2 < 2 ^ 32
limits_small fat12 = omega arith
limits_small fat16 = omega arith
limits_small fat32 = omega arith

-- The last test and the last correction of `calc_sizes`.
checked-IsSize :
    (fat_type : FatType) (count : ℕ) (needed fat_space : ℤ)
    → (count + 2 < 2 ^ 32 → Covers fat_type count needed)
    → OrNull (IsSize fat_type) (checked_sizes fat_type count fat_space needed)
checked-IsSize fat_type count needed fat_space covers =
    elim (Bool-cases
      (ltb (fat_max_cluster_count fat_type) count || ltb count (fat_min_cluster_count fat_type))) [
        | inl out ↦ rw out tt
        | inr allowed ↦
            let top : count ≤ fat_max_cluster_count fat_type = ground arith in
            let bottom : fat_min_cluster_count fat_type ≤ count = ground arith in
            let enough : Covers fat_type count needed =
              covers (omega (arith, limits_small fat_type)) in
            elim (Bool-cases (ltb_ℤ fat_space needed)) [
              | inl short ↦
                  rw (allowed, short) (bottom, top, Covers-HasRoom fat_type count needed enough)
              | inr long ↦
                  rw (allowed, long)
                    (
                      bottom,
                      top,
                      Covers-HasRoom fat_type count fat_space
                          (larger-Covers fat_type count needed fat_space (grind int_laws) enough),
                    )
            ]
      ]

enlarged-IsSize :
    (fat_type : FatType) (count : ℕ) (fat_space : ℤ)
    → Returns (enlarged_sizes fat_type count fat_space) (OrNull (IsSize fat_type))
enlarged-IsSize fat_type count fat_space =
    Returns_bind (λ needed. count + 2 < 2 ^ 32 → Covers fat_type count needed)
      (OrNull (IsSize fat_type)) (fat_space_for fat_type count)
      (λ needed. done (checked_sizes fat_type count fat_space needed))
      (fat_space_for-Covers fat_type count)
      (λ needed covers. checked-IsSize fat_type count needed fat_space covers)

fat_space_for_returns :
    (fat_type : FatType) (count : ℕ) → Returns (fat_space_for fat_type count) (λ _. Unit {0})
fat_space_for_returns fat_type count =
    rw
      (div_round_up-pos ((count + 2) % 2 ^ 32) (entries_per_sector fat_type)
        (entries_positive fat_type))
      tt

module _ (space : ℤ) (fat_type : FatType) (cs : ℤ) (positive : pos 0 <ℤ cs) where
  final_sizes-IsSize :
      (fat_space : ℤ) → Returns (final_sizes space fat_type cs fat_space) (OrNull (IsSize fat_type))
  unfolding final_sizes
  final_sizes-IsSize fat_space =
      let no_trap : (cs ==ℤ pos 0) ≡ false = grind int_laws in
      rw no_trap
        (enlarged-IsSize fat_type (to_cluster ((space -ℤ pos 2 *ℤ fat_space) /ℤ cs)) fat_space)

  next_fat_space_returns :
      (fat_space : ℤ) → Returns (next_fat_space space fat_type cs fat_space) (λ _. Unit {0})
  unfolding next_fat_space
  next_fat_space_returns fat_space =
      let no_trap : (cs ==ℤ pos 0) ≡ false = grind int_laws in
      rw no_trap (search (fat_space_for_returns fat_type))

-- For clusters of at least one sector, the computation returns. Where it succeeds, the number of
-- clusters is one that the type of FAT allows, and with entries of 2 bytes for FAT16 and of 4 for
-- FAT32, and sectors of 512 bytes, the FAT has an entry for each cluster and two more. Of the space
-- of a FAT12 nothing is said.
pub calc_sizes-IsSize :
    (size align : ℤ) (fat_type : FatType) (root_dir_sectors cluster_sectors : ℤ)
    → pos 0 <ℤ cluster_sectors
    → Returns
        (calc_sizes size align fat_type root_dir_sectors cluster_sectors)
        (OrNull (IsSize fat_type))
unfolding calc_sizes
calc_sizes-IsSize size align fat_type root_dir_sectors cluster_sectors positive =
    let space = data_fat_space size align fat_type root_dir_sectors in
    Returns_bind (λ _. Unit {0}) (OrNull (IsSize fat_type))
      (next_fat_space space fat_type cluster_sectors (pos 0))
      (λ first.
        next_fat_space space fat_type cluster_sectors first
        >>= final_sizes space fat_type cluster_sectors)
      (next_fat_space_returns space fat_type cluster_sectors positive (pos 0))
      (λ first _.
        Returns_bind (λ _. Unit {0}) (OrNull (IsSize fat_type))
          (next_fat_space space fat_type cluster_sectors first)
          (final_sizes space fat_type cluster_sectors)
          (next_fat_space_returns space fat_type cluster_sectors positive first)
          (λ second _. final_sizes-IsSize space fat_type cluster_sectors positive second))
