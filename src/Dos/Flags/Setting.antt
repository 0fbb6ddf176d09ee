-- ===== src/Dos/Flags/Setting.antt =====
-- What setting a flag of a partition of the DOS label does to the partitions of the disk.
use mathlib.Core.List.{List, [], ◌∷◌}
use parted.Prelude.{
  ℕ, ◌<◌, subst, ap, ◌≡◌, ◌≢◌, ◌∙◌, inl, inr, refl, Bool, Bool-cases, Option-cases, true, false,
  ◌&&◌, ◌||◌, ◌==◌, none, some, arith, if◌then◌else◌,
}
use parted.Prelude.Run.{done, Returns, Returns_map, Returns_bind}
use parted.Disk.{Partition, is_extended, partition_is_active}
use parted.Dos.TypeId.{
  FlagId, find_flag_id_mapping, flag_swap, flag_boot, flag_lba, is_hidden, supports_lba,
  partition_linux, is_skip_type,
}
use parted.Dos.Flags.{
  DosPartition, set_mapped, set_own_flag, store_one, store_part, store_type, set_by, get_by,
  available_by, msdos_partition_set_flag, msdos_partition_get_flag,
  msdos_partition_is_flag_available, msdos_partition_set_type_id, partition_set_flag,
}
use parted.Dos.Flags.Types.{
  IsSwap, set_hidden-is_hidden, set_lba-is_lba, cleared_lem, set_lba_hidden,
}

-- What else is needed of a partition for which the flag is available: the bit of an extended
-- partition stands alone, a hidden type is not set to lba, and swap space does not lose that flag.
abbrev pub CanSet : DosPartition → ℕ → Bool → Type 0
CanSet part flag state =
    (part.part.type.extended ≡ true → is_extended part.part.type ≡ true)
    × (flag ≡ flag_lba → is_hidden part.system ≡ false)
    × (flag ≡ flag_swap → state ≡ false → ¬ IsSwap part.fs_type)

-- The flag is as it was asked for, and the region, the number and the file system are kept.
abbrev pub IsFlagged : DosPartition → ℕ → Bool → DosPartition → Type 0
IsFlagged part flag state part' =
    (msdos_partition_get_flag part' flag ≡ state)
    × (part'.part ≡ part.part)
    × (part'.fs_type ≡ part.fs_type)

-- The boot flag of the other active partitions is cleared if that of `part` is set, and else they
-- are kept.
abbrev pub OthersKept : DosPartition → ℕ → Bool → DosPartition → DosPartition → Type 0
OthersKept part flag state walk walk' = walk' ≡ (
    if (state && flag == flag_boot) && partition_is_active walk.part
    then record walk { boot = false }
    else walk)

-- The partitions of the disk one by one.
abbrev pub AreSet : DosPartition → ℕ → Bool → List DosPartition → List DosPartition → Type 0
AreSet part flag state [] [] = Unit {0}
AreSet part flag state [] (walk' ∷ walks') = ⊥
AreSet part flag state (walk ∷ walks) [] = ⊥
AreSet part flag state (walk ∷ walks) (walk' ∷ walks') =
    (walk.part.id ≡ part.part.id → IsFlagged part flag state walk')
    × (walk.part.id ≢ part.part.id → OthersKept part flag state walk walk')
    × AreSet part flag state walks walks'

get_flag_mapped :
    (p : FlagId) (part : DosPartition) (flag : ℕ)
    → find_flag_id_mapping flag ≡ some p
    → msdos_partition_get_flag part flag
      ≡ (part.system == p.type_id || part.system == p.alt_type_id)
unfolding msdos_partition_get_flag
get_flag_mapped p part flag e = rw e refl

get_flag_unmapped :
    (part : DosPartition) (flag : ℕ)
    → find_flag_id_mapping flag ≡ none
    → msdos_partition_get_flag part flag ≡ get_by none part flag
unfolding msdos_partition_get_flag
get_flag_unmapped part flag e = ap (λ o. get_by o part flag) e

linux_not_skipped : is_skip_type partition_linux ≡ false
unfolding is_skip_type
linux_not_skipped = refl

mapped-IsFlagged :
    (p : FlagId) (part : DosPartition) (flag : ℕ) (state : Bool)
    → find_flag_id_mapping flag ≡ some p
    → partition_is_active part.part ≡ true
    → part.part.type.extended ≡ false
    → (flag ≡ flag_swap → state ≡ false → ¬ IsSwap part.fs_type)
    → Returns (set_mapped p part state) (λ r. (r.0 ≡ true) × IsFlagged part flag state r.1)
unfolding set_mapped
mapped-IsFlagged p part flag true e active plain swap =
    simp plain (refl, (get_flag_mapped p _ flag e ∙ ground arith, refl, refl))
mapped-IsFlagged p part flag false e active plain swap =
    elim (Bool-cases (part.system == p.type_id || part.system == p.alt_type_id)) [
      | inr other ↦ simp (plain, other) (refl, (get_flag_mapped p part flag e ∙ other, refl, refl))
      | inl is ↦
          simp (plain, is, active, linux_not_skipped)
            (
              refl,
              (
                get_flag_mapped p _ flag e ∙ cleared_lem flag p part.fs_type e (λ f. swap f refl),
                refl,
                refl,
              ),
            )
    ]

-- `flag` is hidden, lba or boot.
unmapped-IsFlagged :
    (part : DosPartition) (flag : ℕ) (state : Bool)
    → find_flag_id_mapping flag ≡ none
    → part.system < 256
    → available_by none part flag ≡ true
    → (flag ≡ flag_lba → is_hidden part.system ≡ false)
    → Returns (set_by none part flag state) (λ r.
      (r.0 ≡ true)
      × (get_by none r.1 flag ≡ state)
      × (r.1.part ≡ part.part)
      × (r.1.fs_type ≡ part.fs_type))
unfolding set_by get_by available_by
unmapped-IsFlagged part flag state e byte avail lba =
    ground
      (arith, set_hidden-is_hidden part.system state byte, set_lba-is_lba part.system state byte)

set_own_flag-IsFlagged :
    (part : DosPartition) (flag : ℕ) (state : Bool)
    → part.system < 256
    → partition_is_active part.part ≡ true
    → msdos_partition_is_flag_available part flag ≡ true
    → CanSet part flag state
    → Returns (set_own_flag part flag state) (λ r. (r.0 ≡ true) × IsFlagged part flag state r.1)
unfolding set_own_flag set_by msdos_partition_is_flag_available
set_own_flag-IsFlagged part flag state byte active avail (alone, lba, swap) =
    elim (Option-cases (find_flag_id_mapping flag)) [
      | inr (p, e) ↦
          let avail' : available_by (some p) part flag ≡ true =
            subst (λ o. available_by o part flag ≡ true) e avail in
          rw e (
            mapped-IsFlagged p part flag state e active (not_extended alone (mapped_avail p avail'))
              swap)
      | inl e ↦
          let avail' : available_by none part flag ≡ true =
            subst (λ o. available_by o part flag ≡ true) e avail in
          rw e (
            Returns_map (set_by none part flag state) (unmapped e)
              (unmapped-IsFlagged part flag state e byte avail' lba))
    ]
  where
    mapped_avail :
        (p : FlagId) → available_by (some p) part flag ≡ true → is_extended part.part.type ≡ false
    mapped_avail p h = ground arith

    not_extended :
        (part.part.type.extended ≡ true → is_extended part.part.type ≡ true)
        → is_extended part.part.type ≡ false
        → part.part.type.extended ≡ false
    not_extended h k = ground arith

    unmapped :
        find_flag_id_mapping flag ≡ none
        → (r : Bool × DosPartition)
        → (r.0 ≡ true)
          × (get_by none r.1 flag ≡ state)
          × (r.1.part ≡ part.part)
          × (r.1.fs_type ≡ part.fs_type)
        → (r.0 ≡ true) × IsFlagged part flag state r.1
    unmapped e r (ok, got, kept, fs) = (ok, (get_flag_unmapped r.1 flag e ∙ got, kept, fs))

clear_boot_lem :
    (walk : DosPartition)
    → set_own_flag walk flag_boot false ≡ done (true, record walk { boot = false })
unfolding set_own_flag set_by find_flag_id_mapping
clear_boot_lem walk = refl

store_one-kept :
    (part part' : DosPartition) (flag : ℕ) (state : Bool) (walk : DosPartition)
    → IsFlagged part flag state part'
    → Returns (store_one (state && flag == flag_boot) part' walk) (λ walk'.
      (walk.part.id ≡ part.part.id → IsFlagged part flag state walk')
      × (walk.part.id ≢ part.part.id → OthersKept part flag state walk walk'))
unfolding store_one
store_one-kept part part' flag state walk set = elim (Bool-cases (walk.part.id == part'.part.id)) [
  | inl own ↦
      rw own (λ _. set, λ ne. absurd (ne (ground (arith, ap (λ (p : Partition). p.id) set.1))))
  | inr other ↦ elim (Bool-cases ((state && flag == flag_boot) && partition_is_active walk.part)) [
    | inl clears ↦
        simp (other, clears, clear_boot_lem)
          ((λ e. absurd (ground (arith, ap (λ (p : Partition). p.id) set.1))), λ _. refl)
    | inr keeps ↦
        simp (other, keeps)
          ((λ e. absurd (ground (arith, ap (λ (p : Partition). p.id) set.1))), λ _. refl)
  ]
]

store_part-AreSet :
    (part part' : DosPartition) (flag : ℕ) (state : Bool)
    → IsFlagged part flag state part'
    → (disk : List DosPartition)
    → Returns (store_part (state && flag == flag_boot) part' disk) (AreSet part flag state disk)
unfolding store_part
store_part-AreSet part part' flag state set [] = tt
store_part-AreSet part part' flag state set (walk ∷ walks) =
    Returns_bind _ _ (store_one (state && flag == flag_boot) part' walk) _
      (store_one-kept part part' flag state walk set)
      (λ walk' one.
        Returns_bind _ _ (store_part (state && flag == flag_boot) part' walks) _
          (store_part-AreSet part part' flag state set walks) (λ walks' rest. (one.0, one.1, rest)))

-- Setting a flag that is available for an active partition (one whose type is a byte, in which the
-- bit of an extended partition stands alone), unless it is lba and the type is hidden, or swap is
-- to be cleared and the file system is swap space, returns and succeeds. The flag of the partition
-- is then what was asked for, its region, number and file system are what they were, and every
-- other partition of the disk is what it was, but for its boot flag, which is cleared if it is
-- active and the flag that was set is boot.
pub partition_set_flag-AreSet :
    (disk : List DosPartition) (part : DosPartition) (flag : ℕ) (state : Bool)
    → part.system < 256
    → partition_is_active part.part ≡ true
    → msdos_partition_is_flag_available part flag ≡ true
    → CanSet part flag state
    → Returns
        (partition_set_flag disk part flag state)
        (λ r. (r.0 ≡ true) × AreSet part flag state disk r.1)
unfolding partition_set_flag msdos_partition_set_flag
partition_set_flag-AreSet disk part flag state byte active avail can =
    rw (active, avail)
      (Returns_bind _ _ (set_own_flag part flag state) _
        (set_own_flag-IsFlagged part flag state byte active avail can)
        (λ r set.
          Returns_bind _ _ (store_part (state && flag == flag_boot) r.1 disk) _
            (store_part-AreSet part r.1 flag state set.1 disk) (λ disk' all. (set.0, all))))

-- With a type of 0, whatever `msdos_partition_set_type_id` was called for, every flag in the table
-- with one type only is found set.
pub get_flag_empty :
    (part : DosPartition) (flag : ℕ) (p : FlagId)
    → find_flag_id_mapping flag ≡ some p
    → p.alt_type_id ≡ 0
    → msdos_partition_get_flag (msdos_partition_set_type_id part 0) flag ≡ true
unfolding msdos_partition_set_type_id
get_flag_empty part flag p e none_else =
    get_flag_mapped p (msdos_partition_set_type_id part 0) flag e ∙ ground arith

-- For a partition of a hidden type for which the flag lba is available, setting it and clearing it
-- both succeed, and both leave the partition as it is.
pub set_own_flag-lba_hidden :
    (part : DosPartition) (state : Bool)
    → supports_lba part.system ≡ true
    → is_hidden part.system ≡ true
    → set_own_flag part flag_lba state ≡ done (true, part)
unfolding set_own_flag set_by find_flag_id_mapping
set_own_flag-lba_hidden part state supports hides =
    ap (λ r. done (store_type part r)) (set_lba_hidden part.system state supports hides)
