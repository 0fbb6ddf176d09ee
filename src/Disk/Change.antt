-- ===== src/Disk/Change.antt =====
-- Adding and removing partitions and changing their regions: libparted/disk.c from
-- `_partition_get_overlap_constraint` to `ped_disk_maximize_partition`. `ignore` tells whether the
-- user answers "ignore" to the exceptions that may be ignored. A failed change returns the disk
-- too.
use mathlib.Core.List.{List, [], ◌∷◌}
use parted.Prelude.{
  ℕ, ◌-◌, ◌^◌, Bool, true, false, not, ◌&&◌, ◌||◌, ◌==◌, ltb, Option, none, some, if◌then◌else◌,
}
use parted.Prelude.Int.{ℤ, pos, ◌+ℤ◌, ◌-ℤ◌, ltb_ℤ, leb_ℤ}
use parted.Prelude.Run.{Run, done, ped_assert, deref, ◌>>=◌, ◌>>◌}
use parted.Geom.{Geometry, unset, geometry_init, geometry_test_inside}
use parted.Constraint.{Constraint, init_unchecked, constraint_new_from_max, constraint_intersect}
use parted.Disk.{
  Disk, Partition, Entry, is_extended, is_logical, partition_is_active, disk_extended_partition,
  disk_get_primary_partition_count,
}
use parted.Disk.Label.{DiskOps, partition_align}
use parted.Disk.Chain.{skip_before, end_before}
use parted.Disk.Update.{
  entry_geom, part_geom, change, current, disk_raw_remove, disk_raw_add, disk_push_update_mode,
  disk_pop_update_mode, delete_in_update_mode, disk_enumerate_partitions,
}

-- The end of `_partition_get_overlap_constraint`: the room from `min_start` to `max_end`.
unfoldable pub room_constraint : ℕ → ℤ → ℤ → Run (Option Constraint)
unfolding init_unchecked
room_constraint dev min_start max_end =
    if ltb_ℤ max_end min_start
    then done none
    else init_unchecked dev min_start (max_end -ℤ min_start +ℤ pos 1) >>= constraint_new_from_max

module _ {A : Type 0} (geom_of : A → Geometry) where
  unfoldable pub room_in : ℕ → (A → Bool) → ℤ → ℤ → ℤ → List A → Run (Option Constraint)
  unfolding room_constraint
  room_in dev is_part start min_start max_end list =
      let (room_start, walk) = skip_before geom_of is_part start min_start list in
      room_constraint dev room_start (end_before geom_of is_part max_end walk)

-- LLONG_MAX - 1.
abbrev pub max_sector : ℤ
max_sector = pos (2 ^ 63 - 2)

unfoldable pub partition_get_overlap_constraint :
    Disk → Partition → Geometry → Run (Option Constraint)
unfolding room_in
partition_get_overlap_constraint disk part geom = do
  ped_assert (ltb 0 disk.update_mode)
  ped_assert (part.geom.dev == geom.dev)
  if part.type.logical
      then deref (disk_extended_partition disk) >>= (λ ext_part.
        room_in part_geom disk.dev (λ walk. walk.id == part.id) geom.start ext_part.part.geom.start
          ext_part.part.geom.end ext_part.part_list)
      else room_in entry_geom disk.dev (λ walk. walk.part.id == part.id) geom.start (pos 0)
          max_sector disk.part_list

abbrev pub all_inside : Geometry → List Partition → Bool
all_inside geom [] = true
all_inside geom (walk ∷ walks) = geometry_test_inside geom walk.geom && all_inside geom walks

abbrev pub is_none : {A : Type 0} → Option A → Bool
is_none none = true
is_none (some _) = false

abbrev pub or_else : {A : Type 0} → Option A → A → A
or_else none a = a
or_else (some a) _ = a

module _ (ops : DiskOps) (ignore : Bool) where
  unfoldable pub partition_check_basic_sanity : Disk → Partition → Run Bool
  partition_check_basic_sanity disk part = do
    ped_assert (leb_ℤ (pos 0) part.geom.start)
    ped_assert (leb_ℤ part.geom.start part.geom.end)
    done (
        if not ops.supports_extended && (is_extended part.type || is_logical part.type)
        then false
        else if (partition_is_active part && not part.type.logical)
            && ltb_ℤ (ops.get_max_primary_partition_count disk)
                (disk_get_primary_partition_count disk +ℤ pos 1)
        then false
        else not (part.type.logical && is_none (disk_extended_partition disk)))

  unfoldable pub check_extended_partition : Disk → Entry → Bool
  check_extended_partition disk part =
      let ext_part : Entry = or_else (disk_extended_partition disk) part in
      (part.part.id == ext_part.part.id) && all_inside ext_part.part.geom ext_part.part_list

  abbrev pub in_extended : Option Entry → Partition → Bool
  in_extended none part = false
  in_extended (some ext_part) part =
      not (ext_part.part.id == part.id) && geometry_test_inside ext_part.part.geom part.geom

  -- The tests of `_check_partition` behind those on the extended partition.
  unfoldable pub check_place : Disk → Partition → Bool
  check_place disk part =
      (ignore || not (not part.type.logical && in_extended (disk_extended_partition disk) part))
      && ((ignore || ltb_ℤ part.geom.end disk.length)
          && (part.type.metadata || ops.partition_check disk part))

  -- For a logical partition the extended one is read.
  unfoldable pub check_logical : Disk → Partition → Run Bool
  check_logical disk part =
      if not part.type.logical
      then done true
      else deref (disk_extended_partition disk)
        >>= (λ ext_part. done (ignore || geometry_test_inside ext_part.part.geom part.geom))

  unfoldable pub check_partition : Disk → Entry → Run Bool
  unfolding check_extended_partition check_logical check_place
  check_partition disk part = do
    ped_assert (leb_ℤ part.part.geom.start part.part.geom.end)
    if is_extended part.part.type && not (check_extended_partition disk part)
        then done false
        else check_logical disk part.part
          >>= (λ inside. done (inside && check_place disk part.part))

  abbrev pub popped : Bool → Disk → Run (Bool × Disk)
  popped status disk = disk_pop_update_mode ops disk >>= (λ disk'. done (status, disk'))

  -- `goto error` of `ped_disk_add_partition`, unless `status` tells of success.
  unfoldable pub or_pop : Bool → Disk → Run (Bool × Disk) → Run (Bool × Disk)
  or_pop status disk next = if status then next else popped false disk

  unfoldable pub add_checked : Disk → Entry → Run (Bool × Disk)
  unfolding or_pop
  add_checked disk part = do
    fits ← check_partition disk part
    or_pop fits disk (disk_raw_add disk part >>= popped true)

  abbrev pub with_num : Entry → ℤ → Entry
  with_num part num = record part { part = record part.part { num = num } }

  abbrev pub with_geom : Entry → Geometry → Entry
  with_geom part geom = record part { part = record part.part { geom = geom } }

  -- The partition is numbered and aligned.
  unfoldable pub add_aligned : Disk → Entry → Option Constraint → Run (Bool × Disk)
  unfolding add_checked or_pop
  add_aligned disk part constraint = do
    (numbered, num) ← ops.partition_enumerate disk part.part
    or_pop numbered disk (
        partition_align ops disk (with_num part num).part constraint >>= (λ (aligned, geom).
          or_pop aligned disk (add_checked disk (with_geom (with_num part num) geom))))

  -- The constraint that counts, and whether the partition may be added: with a constraint of the
  -- caller that leaves no room, only if that is ignored.
  abbrev pub chosen_constraint : Option Constraint → Option Constraint → Bool × Option Constraint
  chosen_constraint none (some constraint) = (ignore, some constraint)
  chosen_constraint none none = (true, none)
  chosen_constraint (some constraints) constraint = (true, some constraints)

  unfoldable pub add_active : Disk → Entry → Option Constraint → Run (Bool × Disk)
  unfolding add_aligned or_pop
  add_active disk part constraint = do
    overlap_constraint ← partition_get_overlap_constraint disk part.part part.part.geom
    constraints ← constraint_intersect overlap_constraint constraint
    let (may_add, chosen) = chosen_constraint constraints constraint
    or_pop may_add disk (add_aligned disk part chosen)

  unfoldable pub disk_add_partition : Disk → Entry → Option Constraint → Run (Bool × Disk)
  unfolding add_active add_checked
  disk_add_partition disk part constraint = do
    sane ← partition_check_basic_sanity disk part.part
    if not sane
        then done (false, disk)
        else disk_push_update_mode ops disk >>= (λ disk'.
          if partition_is_active part.part
          then add_active disk' part constraint
          else add_checked disk' part)

  -- Outside of update mode too.
  unfoldable pub disk_remove_partition : Disk → Entry → Run Disk
  disk_remove_partition disk part = do
    pushed ← disk_push_update_mode ops disk
    ped_assert (elim (current pushed part).part_list [ [] ↦ true | _ ∷ _ ↦ false ])
    removed ← disk_pop_update_mode ops (disk_raw_remove pushed part.part)
    (_, result) ← disk_enumerate_partitions ops removed
    done result

  -- Once pushed, what is left is done in update mode.
  unfoldable pub disk_delete_partition : Disk → Entry → Run Disk
  disk_delete_partition disk part = do
    pushed ← disk_push_update_mode ops disk
    removed ←
        delete_in_update_mode ops (record pushed { update_mode = pushed.update_mode - 1 })
          (current pushed part)
    disk_pop_update_mode ops (record removed { update_mode = pushed.update_mode })

  delete_each : Disk → List Entry → Run Disk
  delete_each disk [] = done disk
  delete_each disk (walk ∷ walks) = do
    removed ← delete_in_update_mode ops disk walk
    delete_each removed walks

  unfoldable pub disk_delete_all : Disk → Run Disk
  unfolding delete_each
  disk_delete_all disk = do
    pushed ← disk_push_update_mode ops disk
    deleted ← delete_each pushed pushed.part_list
    disk_pop_update_mode ops deleted

  -- The region of the partition in the list, too.
  abbrev pub placed : Disk → Entry → Geometry → Disk
  placed disk part geom = change disk part.part.id (λ walk. record walk { geom = geom })

  -- `error_pop_update_mode`: the old region is stored behind the pop.
  unfoldable pub set_failed : Disk → Entry → Run (Bool × Disk)
  set_failed disk part =
      disk_pop_update_mode ops disk >>= (λ disk'. done (false, placed disk' part part.part.geom))

  unfoldable pub set_checked : Disk → Entry → Geometry → Run (Bool × Disk)
  unfolding set_failed
  set_checked disk part geom = do
    let new = with_geom part geom
    fits ← check_partition (placed disk part geom) new
    if not fits
        then set_failed (placed disk part geom) part
        else disk_raw_add (disk_raw_remove (placed disk part geom) part.part) new >>= popped true

  unfoldable pub set_aligned : Disk → Entry → Geometry → Option Constraint → Run (Bool × Disk)
  unfolding set_checked set_failed
  set_aligned disk part new_geom constraints = do
    let disk' = placed disk part new_geom
    (aligned, geom) ← partition_align ops disk' (with_geom part new_geom).part constraints
    if not aligned then set_failed (placed disk' part geom) part else set_checked disk' part geom

  unfoldable pub set_in_update_mode :
      Disk → Entry → Option Constraint → Geometry → Run (Bool × Disk)
  unfolding set_aligned set_failed
  set_in_update_mode disk part constraint new_geom = do
    overlap_constraint ← partition_get_overlap_constraint disk part.part new_geom
    constraints ← constraint_intersect overlap_constraint constraint
    if is_none constraints && not (is_none constraint)
        then set_failed disk part
        else set_aligned disk part new_geom constraints

  unfoldable pub disk_set_partition_geom :
      Disk → Entry → Option Constraint → ℤ → ℤ → Run (Bool × Disk)
  unfolding set_in_update_mode
  disk_set_partition_geom disk part constraint start end = do
    (ok, new_geom) ← geometry_init unset part.part.geom.dev start (end -ℤ start +ℤ pos 1)
    if not ok
        then done (false, disk)
        else disk_push_update_mode ops disk
          >>= (λ disk'. set_in_update_mode disk' (current disk' part) constraint new_geom)
