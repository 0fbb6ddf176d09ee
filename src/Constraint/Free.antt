-- ===== src/Constraint/Free.antt =====
-- Constraints on the place and the size only, whose alignments are `alignment_any`.
use parted.Prelude.{ℕ, ◌≡◌, true, some, refl, arith}
use parted.Prelude.Int.{ℤ, pos, ◌%ℤ◌, ◌≤ℤ◌, ◌<ℤ◌, ltb_ℤ, int_laws}
use parted.Prelude.Run.{done}
use parted.Geom.{Geometry}
use parted.Geom.Valid.{geometry_duplicate_eq, IsValid}
use parted.NatMath.{alignment_any, alignment_duplicate}
use parted.Constraint.{constraint_new}
use parted.Constraint.Solution.{Parts, whole, IsSound}
use parted.Constraint.Solve.{one-Satisfies}
use parted.NatMath.{Alignment}
use parted.Constraint.Solution.{Solves}

abbrev pub any_sector : Alignment
any_sector = record { offset = pos 0; grain_size = pos 1 }

-- The parts of a constraint on the places only, and on the size.
abbrev pub free : Geometry → Geometry → ℤ → ℤ → Parts
free start_range end_range min_size max_size = record {
  start_align = any_sector;
  end_align = any_sector;
  start_range = start_range;
  end_range = end_range;
  min_size = min_size;
  max_size = max_size;
}

pub free-IsSound :
    (start_range end_range : Geometry) (min_size max_size : ℤ)
    → IsValid start_range
    → IsValid end_range
    → pos 0 <ℤ min_size
    → pos 0 <ℤ max_size
    → IsSound (free start_range end_range min_size max_size)
free-IsSound sr er mi ma vs ve h k = record {
  start_grain = omega arith;
  end_grain = omega arith;
  start_valid = vs;
  end_valid = ve;
  min_pos = h;
  max_pos = k;
}

pub free-Solves :
    (sr er : Geometry) (mi ma s e l : ℤ)
    → sr.start ≤ℤ s
    → s ≤ℤ sr.end
    → er.start ≤ℤ e
    → e ≤ℤ er.end
    → mi ≤ℤ l
    → l ≤ℤ ma
    → Solves (free sr er mi ma) s e l
free-Solves sr er mi ma s e l a b c d h k = record {
  start_aligned = one-Satisfies any_sector s refl;
  end_aligned = one-Satisfies any_sector e refl;
  start_above = a;
  start_below = b;
  end_above = c;
  end_below = d;
  long_enough = h;
  short_enough = k;
}

abbrev pub sector_of : ℕ → ℤ → Geometry
sector_of dev s = record { dev = dev; start = s; length = pos 1; end = s }

pub sector_of-IsValid : (dev : ℕ) (s : ℤ) → pos 0 ≤ℤ s → IsValid (sector_of dev s)
sector_of-IsValid dev s h = record {
  ends = omega int_laws;
  not_empty = omega arith;
  not_negative = h;
}

-- With the alignment of `alignment_any`, `constraint_new` keeps its arguments.
pub constraint_new-free :
    (sr er : Geometry) (min_size max_size : ℤ)
    → IsValid sr
    → IsValid er
    → pos 0 <ℤ min_size
    → pos 0 <ℤ max_size
    → constraint_new alignment_any alignment_any sr er min_size max_size
      ≡ done (some (whole (free sr er min_size max_size)))
unfolding constraint_new alignment_duplicate ◌%ℤ◌
constraint_new-free sr er min_size max_size vs ve h k =
    let min_test : ltb_ℤ (pos 0) min_size ≡ true = ground arith in
    let max_test : ltb_ℤ (pos 0) max_size ≡ true = ground arith in
    rw (min_test, max_test, geometry_duplicate_eq sr vs, geometry_duplicate_eq er ve) refl
