-- ===== src/Constraint/Limits.antt =====
-- Where the solver finds less than there is, and the largest region of a device.
use parted.Prelude.{
  ℕ, ◌≡◌, ◌↔◌, ◌||◌, ◌==◌, inl, inr, Bool, Bool-cases, Option, true, none, some, refl, ap, ◌∙◌,
  arith,
}
use parted.Prelude.Int.{
  ℤ, pos, ◌+ℤ◌, ◌-ℤ◌, ◌≤ℤ◌, ◌<ℤ◌, leb_ℤ, ltb_ℤ, ltb_ℤ_iff, int_laws, parts_of_eq,
}
use parted.Prelude.Run.{done, Returns, Returns→done}
use parted.Geom.{geometry_test_inside, geometry_init, Geometry}
use parted.Geom.Valid.{start-le-end, IsValid}
use parted.NatMath.Align.{Chooses}
use parted.Constraint.{
  init_unchecked, Constraint, get_canonical_start_range, get_nearest_start_soln, nearest_in,
  solve_from, constraint_solve_nearest, constraint_new_from_min_max, constraint_is_solution,
}
use parted.Constraint.Solution.{Parts, whole, IsSound, SolvedBy, constraint_is_solution_iff}
use parted.Constraint.Free.{
  free, free-IsSound, free-Solves, sector_of, sector_of-IsValid, constraint_new-free,
}
use parted.Constraint.Canonical.{last_end, last_choice}

||-true : (a b c : Bool) → (a || b || c || true) ≡ true
||-true a b c = ground arith

module _ (p : Parts) (sound : IsSound p) (short : p.end_range.end <ℤ p.min_size) where
  last_end-lt : last_end p sound <ℤ p.min_size
  last_end-lt = go (last_end p sound) (last_choice p sound)
    where
      go : (r : ℤ) {P : ℤ → Type 0} → Chooses p.end_align p.end_range r P → r <ℤ p.min_size
      go r (inl ((_, lo, hi), _)) = omega arith
      go r (inr (e, _)) = omega (arith, parts_of_eq e, sound.min_pos)

  no_start_range : get_canonical_start_range (whole p) ≡ done none
  unfolding get_canonical_start_range last_end
  no_start_range =
      let test : ltb_ℤ (last_end p sound) p.min_size ≡ true =
        (ltb_ℤ_iff (last_end p sound) p.min_size).1 last_end-lt in
      elim (Bool-cases (ltb_ℤ p.max_size p.min_size)) [
        | inl crossed ↦ rw crossed refl
        | inr fit ↦ rw (fit, test, ||-true _ _ _) refl
      ]

  -- A sound constraint with a minimal size above the last sector of its end range is not solved,
  -- although a region that starts at sector 0 may satisfy it.
  pub solve-short :
      (length_of : ℕ → ℤ) (wanted : Geometry)
      → p.start_range.dev ≡ wanted.dev
      → constraint_solve_nearest length_of (some (whole p)) wanted ≡ done none
  unfolding constraint_solve_nearest solve_from get_nearest_start_soln nearest_in
  solve-short length_of wanted same =
      let test : (p.start_range.dev == wanted.dev) ≡ true = ground arith in
      rw (test, no_start_range) refl

-- The parts of the constraint for a region between `g` and `g`.
abbrev itself : Geometry → Parts
itself g = free (sector_of g.dev g.start) (sector_of g.dev g.end) g.length g.length

one_apart : (x : ℤ) → x -ℤ x +ℤ pos 1 ≡ pos 1
one_apart x = omega int_laws

same_last : (x : ℤ) → x +ℤ pos 1 -ℤ pos 1 ≡ x
same_last x = omega int_laws

init_unchecked-sector_of :
    (dev : ℕ) (s : ℤ) → pos 0 ≤ℤ s → init_unchecked dev s (pos 1) ≡ done (sector_of dev s)
unfolding init_unchecked geometry_init
init_unchecked-sector_of dev s h =
    let test : leb_ℤ (pos 0) s ≡ true = ground arith in rw (test, same_last s) refl

inside_itself : (g : Geometry) → geometry_test_inside g g ≡ true
unfolding geometry_test_inside
inside_itself g = ground arith

from_itself :
    (g : Geometry) → IsValid g → constraint_new_from_min_max g g ≡ done (some (whole (itself g)))
unfolding constraint_new_from_min_max
from_itself g v =
    let nonneg_end : pos 0 ≤ℤ g.end = omega (arith, start-le-end v, v.not_negative) in
    rw
      (
        inside_itself g,
        one_apart g.start,
        one_apart g.end,
        init_unchecked-sector_of g.dev g.start v.not_negative,
        init_unchecked-sector_of g.dev g.end nonneg_end,
      )
      (constraint_new-free (sector_of g.dev g.start) (sector_of g.dev g.end) g.length g.length
        (sector_of-IsValid g.dev g.start v.not_negative) (sector_of-IsValid g.dev g.end nonneg_end)
        v.not_empty v.not_empty)

-- A constraint that the region satisfies, and that is not solved for the region.
abbrev pub IsOverlooked : (ℕ → ℤ) → Geometry → Option Constraint → Type 0
IsOverlooked length_of g none = ⊥
IsOverlooked length_of g (some c) =
    (constraint_is_solution c g ≡ done true)
    × (constraint_solve_nearest length_of (some c) g ≡ done none)

-- The constraint for a region between `g` and `g`, where `g` is a valid region from sector 0 on, is
-- satisfied by `g`, but `constraint_solve_nearest` returns NULL for it.
pub constraint_new_from_min_max-IsOverlooked :
    (length_of : ℕ → ℤ) (g : Geometry)
    → IsValid g
    → g.start ≡ pos 0
    → Returns (constraint_new_from_min_max g g) (IsOverlooked length_of g)
constraint_new_from_min_max-IsOverlooked length_of g v zero_start = rw (from_itself g v) (
  is_solution,
  solve-short (itself g) sound (omega (int_laws, parts_of_eq zero_start, parts_of_eq v.ends))
      length_of g refl,
)
  where
    sound : IsSound (itself g)
    sound =
        let nonneg_end : pos 0 ≤ℤ g.end = omega (arith, start-le-end v, v.not_negative) in
        free-IsSound (sector_of g.dev g.start) (sector_of g.dev g.end) g.length g.length
          (sector_of-IsValid g.dev g.start v.not_negative)
          (sector_of-IsValid g.dev g.end nonneg_end) v.not_empty v.not_empty

    is_solution : constraint_is_solution (whole (itself g)) g ≡ done true
    is_solution =
        let made : (b : Bool) × (constraint_is_solution (whole (itself g)) g ≡ done b)
            × ((b ≡ true) ↔ SolvedBy (itself g) g) =
          Returns→done _ _ (constraint_is_solution_iff (itself g) g) in
        let (b, e, iff) = made in
        e
        ∙ ap done (
            iff.1 (
              free-Solves (sector_of g.dev g.start) (sector_of g.dev g.end) g.length g.length
                g.start g.end g.length (omega arith) (omega arith) (omega arith) (omega arith)
                (omega arith) (omega arith)))
