-- ===== src/Dos/Constraints.antt =====
-- Constraints on the place of a partition of the DOS label: `_try_constraint` to
-- `_get_min_extended_part_geom`, and `_no_geom_constraint`, in libparted/labels/dos.c.
use mathlib.Core.List.{List, [], ◌∷◌}
use parted.Prelude.{ℕ, Bool, true, false, not, ◌||◌, Option, none, some, if◌then◌else◌}
use parted.Prelude.Int.{
  ℤ, pos, negsuc, ◌+ℤ◌, ◌-ℤ◌, ◌*ℤ◌, ◌/ℤ◌, ◌%ℤ◌, ltb_ℤ, leb_ℤ, ◌==ℤ◌, abs_ℕ, max_ℤ,
}
use parted.Prelude.Run.{Run, done, fault, ◌>>=◌, or_null}
use parted.Geom.{Geometry, geometry_new, geometry_duplicate, geometry_set_start, geometry_set_end}
use parted.NatMath.{Alignment, alignment_any, alignment_init, round_up_to, to_int}
use parted.Constraint.{
  Constraint, init_unchecked, constraint_new, constraint_new_from_max, constraint_intersect,
  constraint_solve_nearest,
}
use parted.Disk.{Disk, Partition, partition_is_active, disk_get_partition}
use parted.Dos.{ChsGeometry}

-- The solution that is nearest to `geom` and satisfies both constraints.
unfoldable pub try_constraint :
    (ℕ → ℤ) → Geometry → Option Constraint → Option Constraint → Run (Option Geometry)
try_constraint length_of geom external internal =
    or_null (constraint_intersect external internal)
      (λ intersection. constraint_solve_nearest length_of (some intersection) geom)

-- A division by zero traps.
abbrev pub quotient : ℤ → ℤ → Run ℤ
quotient a b = if b ==ℤ pos 0 then fault else done (a /ℤ b)

-- The head that a sector lies on.
unfoldable pub head_of : ChsGeometry → ℤ → Run ℤ
head_of bios_geom sector = do
  track ← quotient sector bios_geom.sectors
  if bios_geom.heads ==ℤ pos 0 then fault else done (track %ℤ bios_geom.heads)

-- In the same cylinder the one with the lower head, and else the nearer one.
unfoldable pub best_of : Geometry → ChsGeometry → Geometry → Geometry → Run Geometry
unfolding head_of
best_of geom bios_geom a b = do
  a_cylinder ← quotient a.start (bios_geom.heads *ℤ bios_geom.sectors)
  b_cylinder ← quotient b.start (bios_geom.heads *ℤ bios_geom.sectors)
  a_head ← head_of bios_geom a.start
  b_head ← head_of bios_geom b.start
  done (
      if to_int a_cylinder ==ℤ to_int b_cylinder
      then (if ltb_ℤ a_head b_head then a else b)
      else if ltb_ℤ (pos (abs_ℕ (geom.start -ℤ a.start))) (pos (abs_ℕ (geom.start -ℤ b.start)))
      then a
      else b)

unfoldable pub best_solution :
    Geometry → ChsGeometry → Option Geometry → Option Geometry → Run (Option Geometry)
unfolding best_of
best_solution geom bios_geom none b = done b
best_solution geom bios_geom (some a) none = done (some a)
best_solution geom bios_geom (some a) (some b) =
    best_of geom bios_geom a b >>= (λ best. done (some best))

-- Two regions, or NULL where one cannot be made; `ped_geometry_init` is as `geometry_new`, but for
-- the memory.
unfoldable pub both_ranges :
    Run (Option Geometry) → Run (Option Geometry) → Run (Option (Geometry × Geometry))
both_ranges start_geom end_geom =
    or_null start_geom (λ s. or_null end_geom (λ e. done (some (s, e))))

-- `constraint_new` on alignments and ranges, where none of them is NULL.
unfoldable pub new_on :
    Option Alignment
    → Option Alignment
    → Run (Option (Geometry × Geometry))
    → ℤ
    → Run (Option Constraint)
new_on start_align end_align ranges length = or_null (done start_align) (λ s.
    or_null (done end_align)
      (λ e. or_null ranges (λ r. constraint_new (some s) (some e) r.0 r.1 (pos 1) length)))

unfoldable pub primary_ranges : ℕ → ℤ → ℤ → Option Geometry → Run (Option (Geometry × Geometry))
unfolding both_ranges
primary_ranges dev length cylinder_size none =
    let start = if ltb_ℤ cylinder_size length then cylinder_size else pos 1 in
    both_ranges (geometry_new dev start (length -ℤ start)) (geometry_new dev (pos 0) length)
primary_ranges dev length cylinder_size (some min_geom) =
    if ltb_ℤ min_geom.start cylinder_size
    then done none
    else both_ranges (geometry_new dev cylinder_size (min_geom.start +ℤ pos 1 -ℤ cylinder_size))
        (geometry_new dev min_geom.end (length -ℤ min_geom.end))

unfoldable pub primary_constraint : ℕ → ℤ → ChsGeometry → Option Geometry → Run (Option Constraint)
unfolding new_on primary_ranges
primary_constraint dev length bios_geom min_geom =
    let cylinder_size = bios_geom.sectors *ℤ bios_geom.heads in
    new_on (alignment_init (pos 0) cylinder_size) (alignment_init (negsuc 0) cylinder_size)
      (primary_ranges dev length cylinder_size min_geom) length

-- Where Windows Vista starts its partitions, or the second head of the first cylinder.
unfoldable pub start_position : Geometry → ChsGeometry → ℤ
start_position geom bios_geom = if geom.start ==ℤ pos 2048 then pos 2048 else bios_geom.sectors

unfoldable pub primary_start_ranges :
    ℕ → ℤ → ℤ → Option Geometry → Run (Option (Geometry × Geometry))
unfolding both_ranges
primary_start_ranges dev length start_pos none =
    both_ranges (geometry_new dev start_pos (length -ℤ start_pos)) (geometry_new dev (pos 0) length)
primary_start_ranges dev length start_pos (some min_geom) =
    both_ranges (geometry_new dev start_pos (pos 1))
      (geometry_new dev min_geom.end (length -ℤ min_geom.end))

unfoldable pub primary_start_constraint :
    ℕ → ℤ → Geometry → ChsGeometry → Option Geometry → Run (Option Constraint)
unfolding new_on primary_start_ranges start_position
primary_start_constraint dev length geom bios_geom min_geom =
    new_on (alignment_init (start_position geom bios_geom) (pos 0))
      (alignment_init (negsuc 0) (bios_geom.sectors *ℤ bios_geom.heads))
      (primary_start_ranges dev length (start_position geom bios_geom) min_geom) length

-- The room in the extended partition, all of it or from its second cylinder on.
unfoldable pub logical_range : ℕ → Geometry → ℤ → Bool → Run (Option Geometry)
logical_range dev ext_geom cylinder_size true = geometry_new dev ext_geom.start ext_geom.length
logical_range dev ext_geom cylinder_size false =
    let min_start = round_up_to (ext_geom.start +ℤ pos 1) cylinder_size in
    if leb_ℤ ext_geom.end min_start
    then done none
    else geometry_new dev min_start (ext_geom.end -ℤ min_start +ℤ pos 1)

unfoldable pub logical_constraint :
    ℕ → ℤ → Geometry → ChsGeometry → ℤ → Bool → Run (Option Constraint)
unfolding new_on logical_range
logical_constraint dev length ext_geom bios_geom start_offset is_start_part =
    let cylinder_size = bios_geom.sectors *ℤ bios_geom.heads in
    new_on (alignment_init start_offset cylinder_size) (alignment_init (negsuc 0) cylinder_size)
      (or_null (logical_range dev ext_geom cylinder_size is_start_part)
        (λ max_geom. done (some (max_geom, max_geom))))
      length

-- One round of the loop of `_get_min_extended_part_geom`.
unfoldable pub widen : ℤ → Geometry → Partition → Run Geometry
widen head_size min_geom walk =
    if not (partition_is_active walk) || walk.num ==ℤ pos 5
    then done min_geom
    else (if ltb_ℤ walk.geom.start min_geom.start
        then geometry_set_start min_geom (walk.geom.start -ℤ pos 2 *ℤ head_size)
        else done (true, min_geom))
      >>= (λ (_, lower).
          (if ltb_ℤ lower.end walk.geom.end
            then geometry_set_end lower walk.geom.end
            else done (true, lower))
          >>= (λ (_, wider). done wider))

unfoldable pub widen_all : ℤ → Geometry → List Partition → Run Geometry
unfolding widen
widen_all head_size min_geom [] = done min_geom
widen_all head_size min_geom (walk ∷ walks) =
    widen head_size min_geom walk >>= (λ wider. widen_all head_size wider walks)

-- `head_size` is 1 without a BIOS geometry; `part_list` is that of the extended partition.
unfoldable pub get_min_extended_part_geom : Disk → List Partition → ℤ → Run (Option Geometry)
unfolding widen_all
get_min_extended_part_geom disk part_list head_size =
    or_null (done (disk_get_partition disk (pos 5))) (λ walk.
      or_null (geometry_duplicate walk.geom) (λ min_geom. do
        (_, lower) ← geometry_set_start min_geom (walk.geom.start -ℤ max_ℤ head_size (pos 2))
        wider ← widen_all head_size lower part_list
        done (some wider)))

unfoldable pub no_geom_constraint : ℕ → ℤ → ℤ → Run (Option Constraint)
no_geom_constraint dev start end = do
  max ← init_unchecked dev start (end -ℤ start +ℤ pos 1)
  constraint_new_from_max max

-- The ranges of the start and of the end of an extended partition; both calls of
-- `ped_geometry_init` are not checked.
unfoldable pub extended_ranges : ℕ → ℤ → Option Geometry → Run (Geometry × Geometry)
extended_ranges dev length none = do
  start_range ← init_unchecked dev (pos 1) (length -ℤ pos 1)
  end_range ← init_unchecked dev (pos 1) (length -ℤ pos 1)
  done (start_range, end_range)
extended_ranges dev length (some min) = do
  start_range ← init_unchecked dev (pos 1) min.start
  end_range ← init_unchecked dev min.end (length -ℤ min.end)
  done (start_range, end_range)

unfoldable pub no_geom_extended_constraint : Disk → List Partition → Run (Option Constraint)
unfolding extended_ranges
no_geom_extended_constraint disk part_list = do
  min ← get_min_extended_part_geom disk part_list (pos 1)
  (start_range, end_range) ← extended_ranges disk.dev disk.length min
  constraint_new alignment_any alignment_any start_range end_range (pos 1) disk.length
