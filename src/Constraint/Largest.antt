-- ===== src/Constraint/Largest.antt =====
-- `constraint_solve_max`: the largest region of a device.
use parted.Prelude.{ℕ, ◌≡◌, false, none, some, refl, ap, arith}
use parted.Prelude.Int.{ℤ, pos, ◌-ℤ◌, ◌≤ℤ◌, ◌<ℤ◌, ltb_ℤ, int_laws, parts_of_eq}
use parted.Prelude.Run.{done, ◌>>=◌, Returns}
use parted.Geom.{geometry_init, Geometry}
use parted.Geom.Valid.{geometry_new_iff, IsValid}
use parted.Constraint.{constraint_any, constraint_solve_max, init_unchecked}
use parted.Constraint.Solution.{whole}
use parted.Constraint.Solve.{constraint_solve_nearest-keeps}
use parted.Constraint.Free.{free, free-IsSound, free-Solves, constraint_new-free}
use parted.Constraint.Limits.{solve-short}

-- The whole of a device.
abbrev pub whole_device : (ℕ → ℤ) → ℕ → Geometry
whole_device length_of dev = record {
  dev = dev;
  start = pos 0;
  length = length_of dev;
  end = length_of dev -ℤ pos 1;
}

whole_device-IsValid :
    (length_of : ℕ → ℤ) (dev : ℕ) → pos 0 <ℤ length_of dev → IsValid (whole_device length_of dev)
whole_device-IsValid length_of dev h = record {
  ends = omega int_laws;
  not_empty = h;
  not_negative = omega arith;
}

constraint_any-free :
    (length_of : ℕ → ℤ) (dev : ℕ)
    → pos 0 <ℤ length_of dev
    → constraint_any length_of dev
      ≡ done (
          some (
            whole (
              free
                (whole_device length_of dev)
                (whole_device length_of dev)
                (pos 1)
                (length_of dev))))
unfolding constraint_any
constraint_any-free length_of dev h =
    let v : IsValid (whole_device length_of dev) = whole_device-IsValid length_of dev h in
    rw
      ((geometry_new_iff dev (pos 0) (length_of dev) (whole_device length_of dev) (omega arith)).1
        (v, refl, refl, refl))
      (constraint_new-free _ _ (pos 1) (length_of dev) v v (omega arith) h)

init_unchecked-whole_device :
    (length_of : ℕ → ℤ) (dev : ℕ)
    → pos 0 <ℤ length_of dev
    → init_unchecked dev (pos 0) (length_of dev) ≡ done (whole_device length_of dev)
unfolding init_unchecked geometry_init
init_unchecked-whole_device length_of dev h =
    let test : ltb_ℤ (length_of dev) (pos 1) ≡ false = ground arith in
    rw test (
      ap (λ e. done (record { dev = dev; start = pos 0; length = length_of dev; end = e }))
        (omega int_laws))

-- On a device of at least two sectors, the largest region that `constraint_solve_max` finds for the
-- constraint of `constraint_any` is the whole device.
pub constraint_solve_max-any :
    (length_of : ℕ → ℤ) (dev : ℕ)
    → pos 2 ≤ℤ length_of dev
    → Returns
        (constraint_any length_of dev >>= constraint_solve_max length_of)
        (λ r. r ≡ some (whole_device length_of dev))
unfolding constraint_solve_max
constraint_solve_max-any length_of dev h =
    let full : Geometry = whole_device length_of dev in
    let v : IsValid full = whole_device-IsValid length_of dev (omega arith) in
    rw
      (
        constraint_any-free length_of dev (omega arith),
        init_unchecked-whole_device length_of dev (omega arith),
      )
      (constraint_solve_nearest-keeps length_of (free full full (pos 1) (length_of dev)) full
        (free-IsSound full full (pos 1) (length_of dev) v v (omega arith) (omega arith)) refl
        (omega int_laws) v
        (free-Solves full full (pos 1) (length_of dev) _ _ _ (omega arith) (omega int_laws)
          (omega int_laws) (omega arith) (omega arith) (omega arith))
        (omega arith) (omega int_laws) (omega int_laws))

-- On a device of one sector, `constraint_solve_max` on the constraint of `constraint_any` returns
-- NULL.
pub constraint_solve_max-one_sector :
    (length_of : ℕ → ℤ) (dev : ℕ)
    → length_of dev ≡ pos 1
    → (constraint_any length_of dev >>= constraint_solve_max length_of) ≡ done none
unfolding constraint_solve_max
constraint_solve_max-one_sector length_of dev one =
    let full : Geometry = whole_device length_of dev in
    let v : IsValid full = whole_device-IsValid length_of dev (omega (arith, parts_of_eq one)) in
    rw
      (
        constraint_any-free length_of dev (omega (arith, parts_of_eq one)),
        init_unchecked-whole_device length_of dev (omega (arith, parts_of_eq one)),
      )
      (solve-short (free full full (pos 1) (length_of dev))
        (free-IsSound full full (pos 1) (length_of dev) v v (omega arith)
          (omega (arith, parts_of_eq one)))
        (omega (int_laws, parts_of_eq one)) length_of full refl)
