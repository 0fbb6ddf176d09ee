-- ===== src/Dos/Align.antt =====
-- The alignment of a partition of the DOS label: `_align_primary` to `msdos_partition_align` in
-- libparted/labels/dos.c, with the BIOS geometry that was probed as an argument.
pub mod Internal
pub mod Primary
mod Tests
use mathlib.Core.List.{List, [], ◌∷◌}
use parted.Prelude.{
  ℕ, zero, suc, Bool, true, false, not, ◌&&◌, ◌||◌, ◌==◌, Option, none, some, if◌then◌else◌,
}
use parted.Prelude.Int.{ℤ, pos, ◌+ℤ◌, ◌-ℤ◌, ◌*ℤ◌, ◌%ℤ◌, ltb_ℤ, leb_ℤ, ◌==ℤ◌, min_ℤ, pos_part}
use parted.Prelude.Run.{Run, done, fault, deref, ◌>>=◌, ◌>>◌}
use parted.Geom.{Geometry, geometry_set, geometry_test_equal}
use parted.NatMath.{round_down_to}
use parted.Constraint.{
  Constraint, init_unchecked, constraint_new_from_max, constraint_intersect, constraint_is_solution,
}
use parted.Disk.{
  Disk, Partition, is_extended, is_logical, partition_is_active, disk_extended_partition,
}
use parted.Dos.{ChsGeometry}
use parted.Dos.Constraints.{
  try_constraint, best_solution, quotient, primary_constraint, primary_start_constraint,
  logical_constraint, get_min_extended_part_geom, no_geom_constraint, no_geom_extended_constraint,
}

-- The partition, with `part_list` if it is extended, and what the label keeps of it: its type in
-- the table and where the table has it.
pub record Aligned : Type 0 where
  pub part : Partition
  pub part_list : List Partition
  pub system : ℕ
  pub orig_geom : Option Geometry

-- The solution is stored in the partition; without one it is as it was, and 0 is returned.
unfoldable pub store_solution : Geometry → Option Geometry → Run (Bool × Geometry)
store_solution geom none = done (false, geom)
store_solution geom (some solution) = do
  (_, geom') ← geometry_set geom solution.start solution.length
  done (true, geom')

module _ (length_of : ℕ → ℤ) (disk : Disk) where
  unfoldable pub min_geom_of : Aligned → ChsGeometry → Run (Option Geometry)
  min_geom_of part bios_geom =
      if is_extended part.part.type
      then get_min_extended_part_geom disk part.part_list bios_geom.sectors
      else done none

  unfoldable pub align_primary : Aligned → ChsGeometry → Option Constraint → Run (Bool × Geometry)
  unfolding min_geom_of store_solution
  align_primary part bios_geom constraint = do
    let geom : Geometry = part.part.geom
    min_geom ← min_geom_of part bios_geom
    start_constraint ← primary_start_constraint disk.dev disk.length geom bios_geom min_geom
    at_start ← try_constraint length_of geom constraint start_constraint
    first ← best_solution geom bios_geom none at_start
    cylinder_constraint ← primary_constraint disk.dev disk.length bios_geom min_geom
    at_cylinder ← try_constraint length_of geom constraint cylinder_constraint
    solution ← best_solution geom bios_geom first at_cylinder
    store_solution geom solution

  unfoldable pub logical_min_start_head : Partition → ChsGeometry → Geometry → Bool → Run ℤ
  logical_min_start_head part bios_geom ext_geom is_start_ext_part = do
    base_head ←
        if is_start_ext_part
        then (if bios_geom.sectors *ℤ bios_geom.heads ==ℤ pos 0
            then fault
            else quotient (ext_geom.start %ℤ (bios_geom.sectors *ℤ bios_geom.heads))
                bios_geom.sectors
              >>= (λ head. done (pos 1 +ℤ head)))
        else done (pos 0)
    done (if part.num ==ℤ pos 5 then base_head else base_head +ℤ pos 1)

  -- 1 for a partition with a table of its own in front, which the first logical one has not.
  abbrev pub not_5 : Partition → ℤ
  not_5 part = if part.num ==ℤ pos 5 then pos 0 else pos 1

  -- The first loop of `_log_meta_overlap_constraint`: `min_start`, and the rest of the list.
  unfoldable pub skip_tables : Partition → Geometry → ℤ → List Partition → ℤ × List Partition
  skip_tables part geom min_start [] = (min_start, [])
  skip_tables part geom min_start (walk ∷ walks) =
      if ltb_ℤ (walk.geom.start -ℤ not_5 walk) (geom.start -ℤ not_5 part)
        || leb_ℤ (walk.geom.start -ℤ not_5 walk) min_start
      then skip_tables part geom
          (if not (walk.id == part.id) && partition_is_active walk
            then walk.geom.end +ℤ pos 1 +ℤ not_5 part
            else min_start)
          walks
      else (min_start, walk ∷ walks)

  -- The second loop, and `max_end`.
  unfoldable pub table_before : Partition → ℤ → List Partition → ℤ
  table_before part max_end [] = max_end
  table_before part max_end (walk ∷ walks) =
      if walk.id == part.id || not (partition_is_active walk)
      then table_before part max_end walks
      else walk.geom.start -ℤ pos 1 -ℤ not_5 walk

  unfoldable pub log_meta_overlap_constraint : Partition → Geometry → Run (Option Constraint)
  unfolding skip_tables table_before
  log_meta_overlap_constraint part geom = do
    ext_part ← deref (disk_extended_partition disk)
    let (min_start, walk) =
        skip_tables part geom (ext_part.part.geom.start +ℤ pos 1 +ℤ not_5 part) ext_part.part_list
    let max_end : ℤ = table_before part ext_part.part.geom.end walk
    if leb_ℤ max_end min_start
        then done none
        else init_unchecked disk.dev min_start (max_end -ℤ min_start +ℤ pos 1)
          >>= (λ safe_space. constraint_new_from_max safe_space)

  -- The loop of `_align_logical` over the heads, with the rounds that are left.
  unfoldable pub try_heads :
      Partition
      → ChsGeometry
      → Geometry
      → Option Constraint
      → ℤ
      → ℕ
      → ℤ
      → Option Geometry
      → Run (Option Geometry)
  try_heads part bios_geom ext_geom intersect start_base zero head solution = done solution
  try_heads part bios_geom ext_geom intersect start_base (suc rounds) head solution = do
    start_head ← logical_min_start_head part bios_geom ext_geom true
    disk_constraint ←
        logical_constraint disk.dev disk.length ext_geom bios_geom
          (start_base +ℤ head *ℤ bios_geom.sectors) (leb_ℤ start_head head)
    found ← try_constraint length_of part.geom intersect disk_constraint
    best ← best_solution part.geom bios_geom solution found
    try_heads part bios_geom ext_geom intersect start_base rounds (head +ℤ pos 1) best

  unfoldable pub align_logical : Partition → ChsGeometry → Option Constraint → Run (Bool × Geometry)
  unfolding store_solution try_heads
  align_logical part bios_geom constraint = do
    ext_part ← deref (disk_extended_partition disk)
    log_meta_overlap ← log_meta_overlap_constraint part part.geom
    intersect ← constraint_intersect constraint log_meta_overlap
    elim intersect [
      | none ↦ done (false, part.geom)
      | some both ↦ do
        if bios_geom.sectors *ℤ bios_geom.heads ==ℤ pos 0 then fault else done tt
        head ← logical_min_start_head part bios_geom ext_part.part.geom false
        solution ←
            try_heads part bios_geom ext_part.part.geom (some both)
              (round_down_to part.geom.start (bios_geom.sectors *ℤ bios_geom.heads))
              (pos_part (min_ℤ (pos 5) bios_geom.heads -ℤ head)) head none
        store_solution part.geom solution
    ]

  unfoldable pub align : Aligned → ChsGeometry → Option Constraint → Run (Bool × Geometry)
  align part bios_geom constraint =
      if is_logical part.part.type
      then align_logical part.part bios_geom constraint
      else align_primary part bios_geom constraint

  unfoldable pub align_primary_no_geom : Aligned → Option Constraint → Run (Bool × Geometry)
  unfolding store_solution
  align_primary_no_geom part constraint = do
    internal ←
        if is_extended part.part.type
        then no_geom_extended_constraint disk part.part_list
        else no_geom_constraint disk.dev (pos 1) (disk.length -ℤ pos 1)
    solution ← try_constraint length_of part.part.geom constraint internal
    store_solution part.part.geom solution

  unfoldable pub align_logical_no_geom : Partition → Option Constraint → Run (Bool × Geometry)
  unfolding store_solution
  align_logical_no_geom part constraint = do
    internal ← log_meta_overlap_constraint part part.geom
    solution ← try_constraint length_of part.geom constraint internal
    store_solution part.geom solution

  unfoldable pub align_no_geom : Aligned → Option Constraint → Run (Bool × Geometry)
  align_no_geom part constraint =
      if is_logical part.part.type
      then align_logical_no_geom part.part constraint
      else align_primary_no_geom part constraint

  -- A partition of a Windows Dynamic Disk stays where the table has it.
  unfoldable pub align_ldm : Geometry → Geometry → Option Constraint → Run (Bool × Geometry)
  align_ldm geom orig_geom constraint = do
    kept ←
        if geometry_test_equal geom orig_geom
        then deref constraint >>= (λ c. constraint_is_solution c geom)
        else done false
    if kept
        then done (true, geom)
        else geometry_set geom orig_geom.start orig_geom.length
          >>= (λ (_, geom'). done (false, geom'))

  -- First with the BIOS geometry, if `cylinder_alignment`, and then without it.
  unfoldable pub align_either :
      Bool → Aligned → ChsGeometry → Option Constraint → Run (Bool × Geometry)
  align_either cylinder_alignment part bios_geom constraint = do
    (ok, geom) ←
        if cylinder_alignment then align part bios_geom constraint else done (false, part.part.geom)
    if ok
        then done (true, geom)
        else align_no_geom (record part { part = record part.part { geom = geom } }) constraint

  -- PARTITION_LDM is 0x42; the first argument is `orig_geom`.
  unfoldable pub align_by :
      Option Geometry → Bool → Aligned → ChsGeometry → Option Constraint → Run (Bool × Geometry)
  unfolding align_either align_ldm
  align_by none cylinder_alignment part bios_geom constraint =
      align_either cylinder_alignment part bios_geom constraint
  align_by (some orig_geom) cylinder_alignment part bios_geom constraint =
      if part.system == 0x42
      then align_ldm part.part.geom orig_geom constraint
      else align_either cylinder_alignment part bios_geom constraint

  unfoldable pub msdos_partition_align :
      Bool → Aligned → ChsGeometry → Option Constraint → Run (Bool × Geometry)
  unfolding align_by
  msdos_partition_align cylinder_alignment part bios_geom constraint =
      align_by part.orig_geom cylinder_alignment part bios_geom constraint
