-- ===== src/Constraint.antt =====
-- Constraints on the place and the size of a region: libparted/cs/constraint.c and the struct of
-- include/parted/constraint.in.h. `none` is a NULL pointer, and a parameter that is asserted not
-- to be NULL is no Option. `length_of` gives the `length` field of the device at an address.
-- ped_malloc is taken to succeed; ped_constraint_done and ped_constraint_destroy only free.
pub mod Solution
pub mod Tests
pub mod Starts
pub mod Canonical
pub mod Ends
pub mod Solver
pub mod Solve
pub mod Builders
pub mod Inside
pub mod Exact
pub mod Intersection
pub mod Made
pub mod Free
pub mod Limits
pub mod Largest
use parted.Prelude.{Bool, true, false, not, ◌&&◌, ◌||◌, ℕ, Option, none, some, ◌==◌, if◌then◌else◌}
use parted.Prelude.Int.{ℤ, pos, negsuc, ◌+ℤ◌, ◌-ℤ◌, ltb_ℤ, leb_ℤ, ◌==ℤ◌, max_ℤ, min_ℤ}
use parted.Prelude.Run.{Run, done, fault, ped_assert, deref, or_null, ◌>>=◌, ◌>>◌}
use parted.Geom.{
  Geometry, unset, geometry_init, geometry_new, geometry_duplicate, geometry_intersect,
  geometry_test_inside, geometry_test_sector_inside,
}
use parted.NatMath.{
  Alignment, alignment_any, alignment_init, alignment_duplicate, alignment_intersect,
  alignment_align_up, alignment_align_down, alignment_align_nearest, alignment_is_aligned,
}

pub record Constraint : Type 0 where
  pub start_align : Option Alignment
  pub end_align : Option Alignment
  pub start_range : Option Geometry
  pub end_range : Option Geometry
  pub min_size : ℤ
  pub max_size : ℤ

unfoldable pub constraint_init :
    Option Alignment → Option Alignment → Geometry → Geometry → ℤ → ℤ → Run Constraint
constraint_init start_align end_align start_range end_range min_size max_size = do
  ped_assert (ltb_ℤ (pos 0) min_size)
  ped_assert (ltb_ℤ (pos 0) max_size)
  own_start_range ← geometry_duplicate start_range
  own_end_range ← geometry_duplicate end_range
  done (record {
    start_align = alignment_duplicate start_align;
    end_align = alignment_duplicate end_align;
    start_range = own_start_range;
    end_range = own_end_range;
    min_size = min_size;
    max_size = max_size;
  })

-- `constraint_init` always returns 1.
unfoldable pub constraint_new :
    Option Alignment → Option Alignment → Geometry → Geometry → ℤ → ℤ → Run (Option Constraint)
unfolding constraint_init
constraint_new start_align end_align start_range end_range min_size max_size = do
  constraint ← constraint_init start_align end_align start_range end_range min_size max_size
  done (some constraint)

-- A region on the stack whose initialisation is not checked: it is read after a failure too.
abbrev assume_set : Bool × Geometry → Run Geometry
assume_set (ok, geom) = if ok then done geom else fault

unfoldable pub init_unchecked : ℕ → ℤ → ℤ → Run Geometry
init_unchecked dev start length = geometry_init unset dev start length >>= assume_set

unfoldable pub constraint_new_from_min_max : Geometry → Geometry → Run (Option Constraint)
unfolding init_unchecked constraint_new
constraint_new_from_min_max min max = do
  ped_assert (geometry_test_inside max min)
  start_range ← init_unchecked min.dev max.start (min.start -ℤ max.start +ℤ pos 1)
  end_range ← init_unchecked min.dev min.end (max.end -ℤ min.end +ℤ pos 1)
  constraint_new alignment_any alignment_any start_range end_range min.length max.length

unfoldable pub constraint_new_from_max : Geometry → Run (Option Constraint)
unfolding constraint_new
constraint_new_from_max max = constraint_new alignment_any alignment_any max max (pos 1) max.length

unfoldable pub constraint_duplicate : Constraint → Run (Option Constraint)
unfolding constraint_new
constraint_duplicate constraint = do
  start_range ← deref constraint.start_range
  end_range ← deref constraint.end_range
  constraint_new constraint.start_align constraint.end_align start_range end_range
      constraint.min_size constraint.max_size

unfoldable pub constraint_intersect :
    Option Constraint → Option Constraint → Run (Option Constraint)
unfolding constraint_new
constraint_intersect (some a) (some b) =
    or_null (alignment_intersect a.start_align b.start_align) (λ start_align.
      or_null (alignment_intersect a.end_align b.end_align) (λ end_align.
        or_null (geometry_intersect a.start_range b.start_range) (λ start_range.
          or_null (geometry_intersect a.end_range b.end_range) (λ end_range.
            constraint_new (some start_align) (some end_align) start_range end_range
              (max_ℤ a.min_size b.min_size) (min_ℤ a.max_size b.max_size)))))
constraint_intersect _ _ = done none

-- A local range, cut down to another one.
pub cut_range : ℕ → ℤ → ℤ → Geometry → Run (Option Geometry)
unfolding init_unchecked
cut_range dev start length other = do
  range ← init_unchecked dev start length
  geometry_intersect (some range) (some other)

-- `if (min_start < 0) min_start = 0;`
unfoldable pub not_below_zero : ℤ → ℤ
not_below_zero min_start = if ltb_ℤ min_start (pos 0) then pos 0 else min_start

-- The starts for the ends from `first_end_soln` to `last_end_soln`.
pub canonical_starts : Constraint → Geometry → ℤ → ℤ → Run (Option Geometry)
canonical_starts constraint start_range first_end_soln last_end_soln =
    let min_start = not_below_zero (first_end_soln -ℤ constraint.max_size +ℤ pos 1) in
    let max_start = last_end_soln -ℤ constraint.min_size +ℤ pos 1 in
    if ltb_ℤ max_start (pos 0)
    then done none
    else cut_range start_range.dev min_start (max_start -ℤ min_start +ℤ pos 1) start_range

unfoldable pub get_canonical_start_range : Constraint → Run (Option Geometry)
unfolding canonical_starts
get_canonical_start_range constraint =
    if ltb_ℤ constraint.max_size constraint.min_size then done none else do
      end_align ← deref constraint.end_align
      end_range ← deref constraint.end_range
      start_range ← deref constraint.start_range
      let first_end_soln = alignment_align_down end_align (some end_range) end_range.start
      let last_end_soln = alignment_align_up end_align (some end_range) end_range.end
      if (first_end_soln ==ℤ negsuc 0)
            || (last_end_soln ==ℤ negsuc 0)
            || ltb_ℤ last_end_soln first_end_soln
            || ltb_ℤ last_end_soln constraint.min_size
          then done none
          else canonical_starts constraint start_range first_end_soln last_end_soln

-- The aligned sector of the range that is nearest, or -1 where there is no range.
pub nearest_in : Option Alignment → Option Geometry → ℤ → Run ℤ
nearest_in align none sector = done (negsuc 0)
nearest_in align (some range) sector = do
  a ← deref align
  done (alignment_align_nearest a (some range) sector)

unfoldable pub get_nearest_start_soln : Constraint → ℤ → Run ℤ
unfolding get_canonical_start_range nearest_in
get_nearest_start_soln constraint start = do
  start_range ← get_canonical_start_range constraint
  nearest_in constraint.start_align start_range start

module _ (length_of : ℕ → ℤ) where
  unfoldable pub constraint_new_from_min : Geometry → Run (Option Constraint)
  unfolding init_unchecked constraint_new_from_min_max
  constraint_new_from_min min = do
    full_dev ← init_unchecked min.dev (pos 0) (length_of min.dev)
    constraint_new_from_min_max min full_dev

  unfoldable pub get_end_range : Constraint → ℤ → Run (Option Geometry)
  get_end_range constraint start = do
    end_range ← deref constraint.end_range
    let last_sector = length_of end_range.dev -ℤ pos 1
    let first_min_max_end = start +ℤ constraint.min_size -ℤ pos 1
    let furthest = start +ℤ constraint.max_size -ℤ pos 1
    let last_min_max_end = if ltb_ℤ last_sector furthest then last_sector else furthest
    if ltb_ℤ last_sector first_min_max_end
        then done none
        else cut_range end_range.dev first_min_max_end
            (last_min_max_end -ℤ first_min_max_end +ℤ pos 1) end_range

  unfoldable pub get_nearest_end_soln : Constraint → ℤ → ℤ → Run ℤ
  unfolding get_end_range nearest_in
  get_nearest_end_soln constraint start end = do
    end_range ← get_end_range constraint start
    nearest_in constraint.end_align end_range end

-- The tests of `constraint_is_solution` behind the alignments, in their order.
unfoldable pub constraint_is_solution : Constraint → Geometry → Run Bool
constraint_is_solution constraint geom =
    if not (alignment_is_aligned constraint.start_align none geom.start)
    then done false
    else if not (alignment_is_aligned constraint.end_align none geom.end)
    then done false
    else do
      start_range ← deref constraint.start_range
      if not (geometry_test_sector_inside start_range geom.start) then done false else do
        end_range ← deref constraint.end_range
        if not (geometry_test_sector_inside end_range geom.end)
            then done false
            else if ltb_ℤ geom.length constraint.min_size
            then done false
            else done (not (ltb_ℤ constraint.max_size geom.length))

-- The end of `constraint_solve_nearest`, with its assertion.
pub checked_solution : Constraint → Geometry → Run (Option Geometry)
checked_solution constraint result = do
  is_solution ← constraint_is_solution constraint result
  ped_assert is_solution
  done (some result)

module _ (length_of : ℕ → ℤ) where
  pub solve_from : Constraint → Geometry → Run (Option Geometry)
  unfolding get_nearest_start_soln get_nearest_end_soln checked_solution
  solve_from constraint geom = do
    start_range ← deref constraint.start_range
    ped_assert (start_range.dev == geom.dev)
    start ← get_nearest_start_soln constraint geom.start
    if start ==ℤ negsuc 0 then done none else do
      end ← get_nearest_end_soln length_of constraint start geom.end
      if end ==ℤ negsuc 0
          then done none
          else or_null (geometry_new geom.dev start (end -ℤ start +ℤ pos 1))
              (checked_solution constraint)

  unfoldable pub constraint_solve_nearest : Option Constraint → Geometry → Run (Option Geometry)
  unfolding solve_from
  constraint_solve_nearest none geom = done none
  constraint_solve_nearest (some constraint) geom = solve_from constraint geom

  unfoldable pub constraint_solve_max : Option Constraint → Run (Option Geometry)
  unfolding init_unchecked constraint_solve_nearest
  constraint_solve_max none = done none
  constraint_solve_max (some constraint) = do
    start_range ← deref constraint.start_range
    full_dev ← init_unchecked start_range.dev (pos 0) (length_of start_range.dev)
    constraint_solve_nearest (some constraint) full_dev

  unfoldable pub constraint_any : ℕ → Run (Option Constraint)
  unfolding constraint_new
  constraint_any dev = or_null (geometry_new dev (pos 0) (length_of dev)) (λ full_dev.
      constraint_new alignment_any alignment_any full_dev full_dev (pos 1) (length_of dev))

  -- A region on the stack whose initialisation is checked is as good as a new one.
  unfoldable pub constraint_exact : Geometry → Run (Option Constraint)
  unfolding constraint_new
  constraint_exact geom = do
    start_align ← deref (alignment_init geom.start (pos 0))
    end_align ← deref (alignment_init geom.end (pos 0))
    or_null (geometry_new geom.dev geom.start (pos 1)) (λ start_sector.
        or_null (geometry_new geom.dev geom.end (pos 1)) (λ end_sector.
          constraint_new (some start_align) (some end_align) start_sector end_sector (pos 1)
            (length_of geom.dev)))
