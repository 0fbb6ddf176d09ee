-- ===== src/Constraint/Inside.antt =====
-- The constraints for the regions inside another one, around another one, or on a device.
use parted.Prelude.{ℕ, ◌≡◌, true, some, refl, arith}
use parted.Prelude.Int.{ℤ, pos, ◌+ℤ◌, ◌-ℤ◌, ◌≤ℤ◌, ◌<ℤ◌, int_laws, parts_of_eq}
use parted.Prelude.Run.{done, Returns, Returns_map, Returns→done}
use parted.Geom.{Geometry, geometry_new, geometry_test_inside}
use parted.Geom.Valid.{IsValid, start-le-end, geometry_new_iff}
use parted.Constraint.{
  init_unchecked, constraint_new_from_max, constraint_new_from_min_max, constraint_any,
}
use parted.Constraint.Starts.{init_unchecked-IsValid}
use parted.Constraint.Free.{free, free-IsSound, free-Solves}
use parted.Constraint.Builders.{IsFor, IsFor-map, constraint_new-IsFor}

-- The constraint of `constraint_new_from_max` is satisfied by the regions inside `max`.
pub constraint_new_from_max-IsFor :
    (max : Geometry)
    → IsValid max
    → Returns
        (constraint_new_from_max max)
        (IsFor (λ g. (max.start ≤ℤ g.start) × (g.end ≤ℤ max.end)))
unfolding constraint_new_from_max
constraint_new_from_max-IsFor max v =
    Returns_map _
      (IsFor-map _ _ (λ g w. (
        λ s. (s.start_above, s.end_below),
        λ (lo, hi).
            free-Solves max max (pos 1) max.length g.start g.end g.length lo
              (omega (arith, start-le-end w)) (omega (arith, start-le-end w)) hi
              (omega (arith, w.not_empty))
              (omega (int_laws, parts_of_eq v.ends, parts_of_eq w.ends)),
      )))
      (constraint_new-IsFor (free max max (pos 1) max.length)
        (free-IsSound max max (pos 1) max.length v v (omega arith) v.not_empty))

inside_bounds :
    (min max : Geometry)
    → geometry_test_inside max min ≡ true
    → (max.start ≤ℤ min.start) × (min.end ≤ℤ max.end)
unfolding geometry_test_inside
inside_bounds min max e = (ground arith, ground arith)

-- The constraint of `constraint_new_from_min_max`, for a `min` inside `max`, is sound and is
-- satisfied by just the valid regions that contain `min` and lie inside `max`.
pub constraint_new_from_min_max-IsFor :
    (min max : Geometry)
    → IsValid min
    → IsValid max
    → geometry_test_inside max min ≡ true
    → Returns (constraint_new_from_min_max min max) (
        IsFor (λ g.
          (max.start ≤ℤ g.start)
          × (g.start ≤ℤ min.start)
          × (min.end ≤ℤ g.end)
          × (g.end ≤ℤ max.end)))
unfolding constraint_new_from_min_max
constraint_new_from_min_max-IsFor min max vmin vmax inside =
    let (lo, hi) = inside_bounds min max inside in
    let made_start : (g : Geometry) × (init_unchecked min.dev max.start
            (min.start -ℤ max.start +ℤ pos 1)
          ≡ done g)
        × (IsValid g
            × (g.dev ≡ min.dev)
            × (g.start ≡ max.start)
            × (g.length ≡ min.start -ℤ max.start +ℤ pos 1)) =
      Returns→done _ _
        (init_unchecked-IsValid min.dev max.start _ vmax.not_negative (omega int_laws)) in
    let made_end : (g : Geometry) × (init_unchecked min.dev min.end (max.end -ℤ min.end +ℤ pos 1)
          ≡ done g)
        × (IsValid g
            × (g.dev ≡ min.dev)
            × (g.start ≡ min.end)
            × (g.length ≡ max.end -ℤ min.end +ℤ pos 1)) =
      Returns→done _ _ (
        init_unchecked-IsValid min.dev min.end _
          (omega (arith, start-le-end vmin, vmin.not_negative)) (omega int_laws)) in
    let (sr, es, (vs, _, ss, ls)) = made_start in
    let (er, ee, (ve, _, se, le)) = made_end in
    let s_end : sr.end ≡ min.start =
      omega (int_laws, parts_of_eq vs.ends, parts_of_eq ss, parts_of_eq ls) in
    let e_end : er.end ≡ max.end =
      omega (int_laws, parts_of_eq ve.ends, parts_of_eq se, parts_of_eq le) in
    rw (inside, es, ee)
      (Returns_map _
        (IsFor-map _ _ (λ g w. (
          λ s. (
            omega (arith, s.start_above, parts_of_eq ss),
            omega (arith, s.start_below, parts_of_eq s_end),
            omega (arith, s.end_above, parts_of_eq se),
            omega (arith, s.end_below, parts_of_eq e_end),
          ),
          λ (p1, p2, p3, p4).
              free-Solves sr er min.length max.length g.start g.end g.length
                (omega (arith, parts_of_eq ss)) (omega (arith, parts_of_eq s_end))
                (omega (arith, parts_of_eq se)) (omega (arith, parts_of_eq e_end))
                (omega (int_laws, parts_of_eq vmin.ends, parts_of_eq w.ends))
                (omega (int_laws, parts_of_eq vmax.ends, parts_of_eq w.ends)),
        )))
        (constraint_new-IsFor (free sr er min.length max.length)
          (free-IsSound sr er min.length max.length vs ve vmin.not_empty vmax.not_empty)))

-- On a device of positive length, the constraint of `constraint_any` is sound and is satisfied by
-- just the valid regions that lie on the device.
pub constraint_any-IsFor :
    (length_of : ℕ → ℤ) (dev : ℕ)
    → pos 0 <ℤ length_of dev
    → Returns (constraint_any length_of dev) (IsFor (λ g. g.end <ℤ length_of dev))
unfolding constraint_any
constraint_any-IsFor length_of dev h =
    let full : Geometry = record {
      dev = dev;
      start = pos 0;
      length = length_of dev;
      end = length_of dev -ℤ pos 1;
    } in
    let v : IsValid full = record {
      ends = omega int_laws;
      not_empty = h;
      not_negative = omega arith;
    } in
    let made : geometry_new dev (pos 0) (length_of dev) ≡ done (some full) =
      (geometry_new_iff dev (pos 0) (length_of dev) full (omega arith)).1 (v, refl, refl, refl) in
    rw made (
      Returns_map _
        (IsFor-map _ _ (λ g w. (
          λ s. omega (int_laws, s.end_below),
          λ le.
              free-Solves full full (pos 1) (length_of dev) g.start g.end g.length w.not_negative
                (omega (int_laws, start-le-end w)) (omega (arith, start-le-end w, w.not_negative))
                (omega int_laws) (omega (arith, w.not_empty))
                (omega (int_laws, parts_of_eq w.ends, w.not_negative)),
        )))
        (constraint_new-IsFor (free full full (pos 1) (length_of dev))
          (free-IsSound full full (pos 1) (length_of dev) v v (omega arith) h)))
