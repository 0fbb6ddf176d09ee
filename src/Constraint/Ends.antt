-- ===== src/Constraint/Ends.antt =====
-- The range of the ends: `get_end_range`, and the choice within a range.
use parted.Prelude.{ℕ, if◌then◌else◌, ◌↔◌, Bool-cases, inl, inr, refl, arith}
use parted.Prelude.Int.{ℤ, pos, ◌+ℤ◌, ◌-ℤ◌, ◌≤ℤ◌, ◌<ℤ◌, ltb_ℤ, ltb_ℤ_iff, ltb_ℤ_false, int_laws}
use parted.Prelude.Run.{Returns}
use parted.Constraint.{get_end_range}
use parted.Constraint.Solution.{Parts, whole, IsSound, Solves}
use parted.Constraint.Starts.{IsRange, cut_range-IsRange}

-- An end at which a region from `s` on has a size in the bounds.
pub record IsEnd (p : Parts) (s e : ℤ) : Type 0 where
  pub long : s +ℤ p.min_size ≤ℤ e +ℤ pos 1
  pub short : e <ℤ s +ℤ p.max_size
  pub above : p.end_range.start ≤ℤ e
  pub below : e ≤ℤ p.end_range.end

pub Solves-IsEnd : (p : Parts) (s e : ℤ) → Solves p s e (e -ℤ s +ℤ pos 1) → IsEnd p s e
Solves-IsEnd p s e sol = record {
  long = omega (int_laws, sol.long_enough);
  short = omega (int_laws, sol.short_enough);
  above = sol.end_above;
  below = sol.end_below;
}

module _ (length_of : ℕ → ℤ) (p : Parts) (sound : IsSound p) (s : ℤ) where
  last_sector : ℤ
  last_sector = length_of p.end_range.dev -ℤ pos 1

  furthest : ℤ
  furthest = s +ℤ p.max_size -ℤ pos 1

  last_end : ℤ
  last_end = if ltb_ℤ last_sector furthest then last_sector else furthest

  -- The lower of the two bounds.
  last_end_lem : (e : ℤ) → ((e ≤ℤ last_sector) × (e ≤ℤ furthest)) ↔ (e ≤ℤ last_end)
  unfolding last_end
  last_end_lem e = ground arith

  -- On a sound constraint with an end range that ends before its device does, and sizes in order,
  -- `get_end_range` for a start that is not negative returns a valid range of just the sectors of
  -- the end range at which the region has a size in the bounds, or NULL if there is none.
  pub get_end_range-IsRange :
      pos 0 ≤ℤ s
      → p.min_size ≤ℤ p.max_size
      → p.end_range.end <ℤ length_of p.end_range.dev
      → Returns (get_end_range length_of (whole p) s) (IsRange (IsEnd p s))
  unfolding get_end_range last_end last_sector furthest
  get_end_range-IsRange nonneg le_size on_device =
      let nearest : ℤ = s +ℤ p.min_size -ℤ pos 1 in
      elim (Bool-cases (ltb_ℤ last_sector nearest)) [
        | inl far ↦
            rw far
              (λ e en. omega (int_laws, (ltb_ℤ_iff last_sector nearest).0 far, en.long, en.below))
        | inr near ↦
            let reach : nearest ≤ℤ last_end =
              (last_end_lem nearest).0 (ltb_ℤ_false last_sector nearest near, omega int_laws) in
            rw near (
              cut_range-IsRange p.end_range.dev nearest (last_end -ℤ nearest +ℤ pos 1) p.end_range
                (IsEnd p s) (omega (int_laws, sound.min_pos)) (omega int_laws) sound.end_valid refl
                (λ e. (
                  λ (p1, p2, p3, p4).
                      let (_, low) = (last_end_lem e).1 (omega int_laws) in
                      record {
                        long = omega int_laws;
                        short = omega int_laws;
                        above = p3;
                        below = p4;
                      },
                  λ en.
                      let le : e ≤ℤ last_end =
                        (last_end_lem e).0
                          (omega (int_laws, en.below), omega (int_laws, en.short)) in
                      (omega (int_laws, en.long), omega int_laws, en.above, en.below),
                )))
      ]
