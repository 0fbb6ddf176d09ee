-- ===== src/Constraint/Tests.antt =====
-- Examples of the constraints of constraint.c, on a device of 100 sectors.
use parted.Prelude.{ℕ, ◌≡◌, ◌↔◌, true, refl, some, arith}
use parted.Prelude.Int.{ℤ, pos, ◌+ℤ◌, ◌-ℤ◌, ◌*ℤ◌, diff, ◌∣ℤ◌, int_laws}
use parted.Prelude.Run.{Returns}
use parted.Geom.{Geometry, geometry_test_inside}
use parted.Geom.Valid.{IsValid}
use parted.Constraint.{
  constraint_is_solution, constraint_solve_nearest, constraint_intersect, constraint_new,
  constraint_new_from_min_max,
}
use parted.Constraint.Solution.{Parts, whole, IsSound, Solves, SolvedBy, constraint_is_solution_iff}
use parted.Constraint.Solve.{
  IsAnswer, IsNearest, IsFound, constraint_solve_nearest-IsAnswer,
  constraint_solve_nearest-IsNearest, constraint_solve_nearest-finds,
  constraint_solve_nearest-keeps,
}
use parted.Constraint.Intersection.{IsCommon, constraint_intersect-IsCommon}
use parted.Constraint.Builders.{IsFor, constraint_new-IsFor}
use parted.Constraint.Limits.{IsOverlooked, constraint_new_from_min_max-IsOverlooked}

abbrev lengths : ℕ → ℤ
lengths dev = pos 100

-- Sectors 0 to 99, 10 to 29 and 11 to 20.
abbrev disk : Geometry
disk = record { dev = 1; start = pos 0; length = pos 100; end = pos 99 }

abbrev low : Geometry
low = record { dev = 1; start = pos 10; length = pos 20; end = pos 29 }

abbrev wanted : Geometry
wanted = record { dev = 1; start = pos 11; length = pos 10; end = pos 20 }

abbrev first_five : Geometry
first_five = record { dev = 1; start = pos 0; length = pos 5; end = pos 4 }

disk-IsValid : IsValid disk
disk-IsValid = record { ends = omega int_laws; not_empty = omega arith; not_negative = omega arith }

low-IsValid : IsValid low
low-IsValid = record { ends = omega int_laws; not_empty = omega arith; not_negative = omega arith }

wanted-IsValid : IsValid wanted
wanted-IsValid = record {
  ends = omega int_laws;
  not_empty = omega arith;
  not_negative = omega arith;
}

first_five-IsValid : IsValid first_five
first_five-IsValid = record {
  ends = omega int_laws;
  not_empty = omega arith;
  not_negative = omega arith;
}

-- A start at 3, 11, 19, ... in the sectors 10 to 29, any end, 4 to 50 sectors.
abbrev eighths : Parts
eighths = record {
  start_align = record { offset = pos 3; grain_size = pos 8 };
  end_align = record { offset = pos 0; grain_size = pos 1 };
  start_range = low;
  end_range = disk;
  min_size = pos 4;
  max_size = pos 50;
}

-- A start at 1, 7, 13, ...
abbrev sixths : Parts
sixths = record eighths { start_align = record { offset = pos 1; grain_size = pos 6 } }

eighths-IsSound : IsSound eighths
eighths-IsSound = record {
  start_grain = omega arith;
  end_grain = omega arith;
  start_valid = low-IsValid;
  end_valid = disk-IsValid;
  min_pos = omega arith;
  max_pos = omega arith;
}

sixths-IsSound : IsSound sixths
sixths-IsSound = record {
  start_grain = omega arith;
  end_grain = omega arith;
  start_valid = low-IsValid;
  end_valid = disk-IsValid;
  min_pos = omega arith;
  max_pos = omega arith;
}

one_grain : pos 8 ∣ℤ pos 11 -ℤ pos 3
unfolding ◌*ℤ◌ ◌-ℤ◌ diff
one_grain = (pos 1, refl)

twenty_grains : pos 1 ∣ℤ pos 20 -ℤ pos 0
unfolding ◌*ℤ◌ ◌-ℤ◌ diff
twenty_grains = (pos 20, refl)

wanted-Solves : Solves eighths (pos 11) (pos 20) (pos 10)
wanted-Solves = record {
  start_aligned = one_grain;
  end_aligned = twenty_grains;
  start_above = omega arith;
  start_below = omega arith;
  end_above = omega arith;
  end_below = omega arith;
  long_enough = omega arith;
  short_enough = omega arith;
}

wanted-Solves_from_ends : Solves eighths (pos 11) (pos 20) (pos 20 -ℤ pos 11 +ℤ pos 1)
unfolding ◌-ℤ◌ ◌+ℤ◌ diff
wanted-Solves_from_ends = wanted-Solves

constraint_is_solution_iff_example :
    Returns
      (constraint_is_solution (whole eighths) wanted)
      (λ b. (b ≡ true) ↔ SolvedBy eighths wanted)
constraint_is_solution_iff_example = constraint_is_solution_iff eighths wanted

constraint_solve_nearest-IsAnswer_example :
    Returns (constraint_solve_nearest lengths (some (whole eighths)) low) (IsAnswer eighths low)
constraint_solve_nearest-IsAnswer_example =
    constraint_solve_nearest-IsAnswer lengths eighths low eighths-IsSound refl (omega arith)

constraint_solve_nearest-IsNearest_example :
    Returns (constraint_solve_nearest lengths (some (whole eighths)) low) (IsNearest eighths low)
constraint_solve_nearest-IsNearest_example =
    constraint_solve_nearest-IsNearest lengths eighths low eighths-IsSound refl (omega arith)
      (omega arith) (omega arith)

constraint_solve_nearest-finds_example :
    Returns (constraint_solve_nearest lengths (some (whole eighths)) low) (IsFound eighths low)
constraint_solve_nearest-finds_example =
    constraint_solve_nearest-finds lengths eighths low eighths-IsSound refl (omega arith) refl
      (omega arith) (pos 11) (pos 20) wanted-Solves_from_ends

constraint_solve_nearest-keeps_example :
    Returns (constraint_solve_nearest lengths (some (whole eighths)) wanted) (λ r. r ≡ some wanted)
constraint_solve_nearest-keeps_example =
    constraint_solve_nearest-keeps lengths eighths wanted eighths-IsSound refl (omega arith)
      wanted-IsValid wanted-Solves (omega arith) (omega arith) (omega arith)

constraint_intersect-IsCommon_example :
    Returns
      (constraint_intersect (some (whole eighths)) (some (whole sixths)))
      (IsCommon eighths sixths)
constraint_intersect-IsCommon_example =
    constraint_intersect-IsCommon eighths sixths eighths-IsSound sixths-IsSound
      (omega arith, omega arith, omega arith) (omega arith, omega arith, omega arith)
      (omega arith, omega arith, omega arith) (omega arith, omega arith, omega arith) refl refl

constraint_new-IsFor_example :
    Returns
      (constraint_new (some eighths.start_align) (some eighths.end_align) low disk (pos 4) (pos 50))
      (IsFor (SolvedBy eighths))
constraint_new-IsFor_example = constraint_new-IsFor eighths eighths-IsSound

wanted_inside : geometry_test_inside low wanted ≡ true
unfolding geometry_test_inside
wanted_inside = refl

constraint_new_from_min_max-IsOverlooked_example :
    Returns (constraint_new_from_min_max first_five first_five) (IsOverlooked lengths first_five)
constraint_new_from_min_max-IsOverlooked_example =
    constraint_new_from_min_max-IsOverlooked lengths first_five first_five-IsValid refl
