-- ===== src/Constraint/Exact.antt =====
-- The constraint for one region: `constraint_exact`.
use parted.Prelude.{ℕ, ◌≡◌, some, refl, arith}
use parted.Prelude.Int.{ℤ, pos, ◌≤ℤ◌, ◌<ℤ◌, int_laws, parts_of_eq, ∣ℤ_cong, ∣ℤ-zero}
use parted.Prelude.Run.{done, Returns, Returns_map}
use parted.Geom.{Geometry, geometry_new}
use parted.Geom.Valid.{IsValid, start-le-end, geometry_new_iff}
use parted.NatMath.{Alignment, alignment_init}
use parted.NatMath.Aligned.{Satisfies}
use parted.Constraint.{constraint_exact}
use parted.Constraint.Solution.{Parts}
use parted.Constraint.Free.{sector_of, sector_of-IsValid}
use parted.Constraint.Builders.{IsFor, IsFor-map, constraint_new-IsFor}

abbrev one_sector : ℤ → Alignment
one_sector s = record { offset = s; grain_size = pos 0 }

geometry_new-sector_of :
    (dev : ℕ) (s : ℤ) → pos 0 ≤ℤ s → geometry_new dev s (pos 1) ≡ done (some (sector_of dev s))
geometry_new-sector_of dev s h =
    (geometry_new_iff dev s (pos 1) (sector_of dev s) h).1
      (sector_of-IsValid dev s h, refl, refl, refl)

one_sector-Satisfies : (s t : ℤ) → t ≡ s → Satisfies (one_sector s) t
one_sector-Satisfies s t e = ∣ℤ_cong (pos 0) (omega (int_laws, parts_of_eq e)) (∣ℤ-zero (pos 0))

-- The constraint of `constraint_exact` on a valid region of a device is sound and is satisfied by
-- the valid regions with the same start and the same end only.
pub constraint_exact-IsFor :
    (length_of : ℕ → ℤ) (geom : Geometry)
    → IsValid geom
    → geom.end <ℤ length_of geom.dev
    → Returns
        (constraint_exact length_of geom)
        (IsFor (λ g. (g.start ≡ geom.start) × (g.end ≡ geom.end)))
unfolding constraint_exact alignment_init
constraint_exact-IsFor length_of geom v on_device =
    let nonneg_end : pos 0 ≤ℤ geom.end = omega (arith, start-le-end v, v.not_negative) in
    let p : Parts = record {
      start_align = one_sector geom.start;
      end_align = one_sector geom.end;
      start_range = sector_of geom.dev geom.start;
      end_range = sector_of geom.dev geom.end;
      min_size = pos 1;
      max_size = length_of geom.dev;
    } in
    rw
      (
        geometry_new-sector_of geom.dev geom.start v.not_negative,
        geometry_new-sector_of geom.dev geom.end nonneg_end,
      )
      (Returns_map _
        (IsFor-map _ _ (λ g w. (
          λ s. (
            omega (int_laws, s.start_above, s.start_below),
            omega (int_laws, s.end_above, s.end_below),
          ),
          λ (es, ee). record {
            start_aligned = one_sector-Satisfies geom.start g.start es;
            end_aligned = one_sector-Satisfies geom.end g.end ee;
            start_above = omega (arith, parts_of_eq es);
            start_below = omega (arith, parts_of_eq es);
            end_above = omega (arith, parts_of_eq ee);
            end_below = omega (arith, parts_of_eq ee);
            long_enough = omega (arith, w.not_empty);
            short_enough = omega (int_laws, parts_of_eq w.ends, parts_of_eq ee, w.not_negative);
          },
        )))
        (constraint_new-IsFor p (record {
          start_grain = omega arith;
          end_grain = omega arith;
          start_valid = sector_of-IsValid geom.dev geom.start v.not_negative;
          end_valid = sector_of-IsValid geom.dev geom.end nonneg_end;
          min_pos = omega arith;
          max_pos = omega (arith, nonneg_end);
        })))
