-- ===== src/Constraint/Solution.antt =====
-- What it means to satisfy a constraint, and `constraint_is_solution`.
use parted.Prelude.{◌≡◌, ◌↔◌, Bool, ◌&&◌, &&_iff, true, none, some, refl, arith}
use parted.Prelude.Int.{ℤ, pos, ◌≤ℤ◌, ◌<ℤ◌, leb_ℤ, leb_ℤ_iff}
use parted.Prelude.Run.{done, Returns}
use parted.Geom.{Geometry, geometry_test_sector_inside}
use parted.Geom.Valid.{IsValid}
use parted.Geom.Sectors.{geometry_test_sector_inside_iff}
use parted.NatMath.{Alignment, alignment_is_aligned}
use parted.NatMath.Aligned.{Satisfies, alignment_is_aligned_iff}
use parted.Constraint.{Constraint, constraint_is_solution}

-- A constraint with no NULL pointer in it.
pub record Parts : Type 0 where
  pub start_align : Alignment
  pub end_align : Alignment
  pub start_range : Geometry
  pub end_range : Geometry
  pub min_size : ℤ
  pub max_size : ℤ

abbrev pub whole : Parts → Constraint
whole p = record {
  start_align = some p.start_align;
  end_align = some p.end_align;
  start_range = some p.start_range;
  end_range = some p.end_range;
  min_size = p.min_size;
  max_size = p.max_size;
}

-- The invariant of a constraint: both ranges are valid, no grain is negative, the sizes positive.
pub record IsSound (p : Parts) : Type 0 where
  pub start_grain : pos 0 ≤ℤ p.start_align.grain_size
  pub end_grain : pos 0 ≤ℤ p.end_align.grain_size
  pub start_valid : IsValid p.start_range
  pub end_valid : IsValid p.end_range
  pub min_pos : pos 0 <ℤ p.min_size
  pub max_pos : pos 0 <ℤ p.max_size

-- The region from `start` to `end`, of that length, satisfies the constraint.
pub record Solves (p : Parts) (start end length : ℤ) : Type 0 where
  pub start_aligned : Satisfies p.start_align start
  pub end_aligned : Satisfies p.end_align end
  pub start_above : p.start_range.start ≤ℤ start
  pub start_below : start ≤ℤ p.start_range.end
  pub end_above : p.end_range.start ≤ℤ end
  pub end_below : end ≤ℤ p.end_range.end
  pub long_enough : p.min_size ≤ℤ length
  pub short_enough : length ≤ℤ p.max_size

abbrev pub SolvedBy : Parts → Geometry → Type 0
SolvedBy p g = Solves p g.start g.end g.length

-- The six tests in one.
all_tests : Parts → Geometry → Bool
all_tests p g =
    alignment_is_aligned (some p.start_align) none g.start
    && (alignment_is_aligned (some p.end_align) none g.end
        && (geometry_test_sector_inside p.start_range g.start
            && (geometry_test_sector_inside p.end_range g.end
                && (leb_ℤ p.min_size g.length && leb_ℤ g.length p.max_size))))

constraint_is_solution_tests :
    (p : Parts) (g : Geometry) → constraint_is_solution (whole p) g ≡ done (all_tests p g)
unfolding constraint_is_solution all_tests
constraint_is_solution_tests p g = ground arith

all_tests_iff : (p : Parts) (g : Geometry) → (all_tests p g ≡ true) ↔ SolvedBy p g
unfolding all_tests
all_tests_iff p g = (
  λ e.
      let (e1, r1) = (&&_iff _ _).0 e in
      let (e2, r2) = (&&_iff _ _).0 r1 in
      let (e3, r3) = (&&_iff _ _).0 r2 in
      let (e4, r4) = (&&_iff _ _).0 r3 in
      let (e5, e6) = (&&_iff _ _).0 r4 in
      let (_, start_above, start_below) =
        (geometry_test_sector_inside_iff p.start_range g.start).0 e3 in
      let (_, end_above, end_below) = (geometry_test_sector_inside_iff p.end_range g.end).0 e4 in
      record {
        start_aligned = (alignment_is_aligned_iff p.start_align g.start).0 e1;
        end_aligned = (alignment_is_aligned_iff p.end_align g.end).0 e2;
        start_above = start_above;
        start_below = start_below;
        end_above = end_above;
        end_below = end_below;
        long_enough = (leb_ℤ_iff p.min_size g.length).0 e5;
        short_enough = (leb_ℤ_iff g.length p.max_size).0 e6;
      },
  λ s. (&&_iff _ _).1 (
    (alignment_is_aligned_iff p.start_align g.start).1 s.start_aligned,
    (&&_iff _ _).1 (
      (alignment_is_aligned_iff p.end_align g.end).1 s.end_aligned,
      (&&_iff _ _).1 (
        (geometry_test_sector_inside_iff p.start_range g.start).1
            (refl, s.start_above, s.start_below),
        (&&_iff _ _).1 (
          (geometry_test_sector_inside_iff p.end_range g.end).1 (refl, s.end_above, s.end_below),
          (&&_iff _ _).1 (
            (leb_ℤ_iff p.min_size g.length).1 s.long_enough,
            (leb_ℤ_iff g.length p.max_size).1 s.short_enough,
          ),
        ),
      ),
    ),
  ),
)

-- On a constraint without NULL pointers `constraint_is_solution` returns, and it returns true
-- exactly if both ends of the region are aligned and lie in their ranges and the length is in its
-- bounds.
pub constraint_is_solution_iff :
    (p : Parts) (g : Geometry)
    → Returns (constraint_is_solution (whole p) g) (λ b. (b ≡ true) ↔ SolvedBy p g)
constraint_is_solution_iff p g = rw (constraint_is_solution_tests p g) (all_tests_iff p g)
