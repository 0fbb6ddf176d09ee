-- ===== src/Constraint/Starts.antt =====
-- The ranges that the solver computes: for the start, and for the end once the start is chosen.
use parted.Prelude.{ℕ, ◌≡◌, ◌↔◌, Bool-cases, inl, inr, Option, none, some, refl, sym, ◌∙◌, arith}
use parted.Prelude.Int.{
  ℤ, pos, ◌+ℤ◌, ◌-ℤ◌, ◌≤ℤ◌, ◌<ℤ◌, ltb_ℤ, ltb_ℤ_iff, ltb_ℤ_false, int_laws, parts_of_eq,
}
use parted.Prelude.Run.{done, Returns, Returns→done}
use parted.Geom.{Geometry, geometry_init, geometry_intersect}
use parted.Geom.Valid.{IsValid}
use parted.Geom.Sectors.{IsMeet, geometry_intersect-IsMeet}
use parted.Constraint.{init_unchecked, cut_range, not_below_zero, canonical_starts}
use parted.Constraint.Solution.{Parts, whole, IsSound}

pub init_unchecked-IsValid :
    (dev : ℕ) (start length : ℤ)
    → pos 0 ≤ℤ start
    → pos 0 <ℤ length
    → Returns
        (init_unchecked dev start length)
        (λ g. IsValid g × (g.dev ≡ dev) × (g.start ≡ start) × (g.length ≡ length))
unfolding init_unchecked geometry_init
init_unchecked-IsValid dev start length h k = ground arith

-- A start from which a region that ends between `first` and `last` has a size in the bounds.
pub record IsStart (p : Parts) (first last s : ℤ) : Type 0 where
  pub nonneg : pos 0 ≤ℤ s
  pub reaches : first <ℤ s +ℤ p.max_size
  pub fits : s +ℤ p.min_size ≤ℤ last +ℤ pos 1
  pub above : p.start_range.start ≤ℤ s
  pub below : s ≤ℤ p.start_range.end

-- A range of just the numbers that satisfy `Q`; NULL if there is none.
abbrev pub IsRange : (ℤ → Type 0) → Option Geometry → Type 0
IsRange Q none = (s : ℤ) → ¬ Q s
IsRange Q (some g) = IsValid g × ((s : ℤ) → ((g.start ≤ℤ s) × (s ≤ℤ g.end)) ↔ Q s)

-- The intersection of a range with a region, as a range.
pub meet-IsRange :
    (a b : Geometry) (r : Option Geometry) (Q : ℤ → Type 0)
    → a.dev ≡ b.dev
    → ((s : ℤ) → ((a.start ≤ℤ s) × (s ≤ℤ a.end) × (b.start ≤ℤ s) × (s ≤ℤ b.end)) ↔ Q s)
    → IsMeet a b r
    → IsRange Q r
meet-IsRange a b none Q same same_set h =
    λ s q. let (p1, p2, p3, p4) = (same_set s).1 q in h a.dev s (refl, p1, p2) (sym same, p3, p4)
meet-IsRange a b (some g) Q same same_set (v, h) = (
  v,
  λ s. (
    λ (lo, hi).
        let ((_, a1, a2), (_, b1, b2)) = (h g.dev s).0 (refl, lo, hi) in
        (same_set s).0 (a1, a2, b1, b2),
    λ q.
        let (p1, p2, p3, p4) = (same_set s).1 q in
        let (_, lo, hi) = (h a.dev s).1 ((refl, p1, p2), (sym same, p3, p4)) in (lo, hi),
  ),
)

pub cut_range-IsRange :
    (dev : ℕ) (start length : ℤ) (other : Geometry) (Q : ℤ → Type 0)
    → pos 0 ≤ℤ start
    → pos 0 <ℤ length
    → IsValid other
    → dev ≡ other.dev
    → ((s : ℤ)
        → ((start ≤ℤ s) × (s <ℤ start +ℤ length) × (other.start ≤ℤ s) × (s ≤ℤ other.end)) ↔ Q s)
    → Returns (cut_range dev start length other) (IsRange Q)
unfolding cut_range
cut_range-IsRange dev start length other Q h k valid same same_set =
    let made : (g : Geometry) × (init_unchecked dev start length ≡ done g)
        × (IsValid g × (g.dev ≡ dev) × (g.start ≡ start) × (g.length ≡ length)) =
      Returns→done _ _ (init_unchecked-IsValid dev start length h k) in
    let (g, e, (v, at_dev, at_start, at_length)) = made in
    let met : (r : Option Geometry) × (geometry_intersect (some g) (some other) ≡ done r)
        × IsMeet g other r =
      Returns→done _ _ (geometry_intersect-IsMeet g other v valid) in
    let (r, e', meet) = met in
    let same_end : (s : ℤ) → (s ≤ℤ g.end) ↔ (s <ℤ start +ℤ length) = λ s. (
      λ l. omega (int_laws, parts_of_eq v.ends, parts_of_eq at_start, parts_of_eq at_length),
      λ l. omega (int_laws, parts_of_eq v.ends, parts_of_eq at_start, parts_of_eq at_length),
    ) in
    rw (e, e')
      (meet-IsRange g other r Q (at_dev ∙ same)
        (λ s. (
          λ (p1, p2, p3, p4).
              (same_set s).0 (omega (arith, parts_of_eq at_start), (same_end s).0 p2, p3, p4),
          λ q.
              let (p1, p2, p3, p4) = (same_set s).1 q in
              (omega (arith, parts_of_eq at_start), (same_end s).1 p2, p3, p4),
        ))
        meet)

not_below_zero_lem :
    (z : ℤ)
    → (pos 0 ≤ℤ not_below_zero z)
      × (z ≤ℤ not_below_zero z)
      × ((s : ℤ) → pos 0 ≤ℤ s → z ≤ℤ s → not_below_zero z ≤ℤ s)
unfolding not_below_zero
not_below_zero_lem z = (ground arith, ground arith, λ s p q. ground arith)

pub canonical_starts-IsRange :
    (p : Parts) (first last : ℤ)
    → IsSound p
    → p.min_size ≤ℤ p.max_size
    → first ≤ℤ last
    → Returns (canonical_starts (whole p) p.start_range first last) (IsRange (IsStart p first last))
unfolding canonical_starts
canonical_starts-IsRange p first last sound le_size le_end =
    let max_start : ℤ = last -ℤ p.min_size +ℤ pos 1 in
    let lowest : ℤ = first -ℤ p.max_size +ℤ pos 1 in
    let (m_pos, m_above, m_least) = not_below_zero_lem lowest in
    let least : ℤ = not_below_zero lowest in
    elim (Bool-cases (ltb_ℤ max_start (pos 0))) [
      | inl none_fits ↦
          rw none_fits (λ s st.
            omega (int_laws, (ltb_ℤ_iff max_start (pos 0)).0 none_fits, st.fits, st.nonneg))
      | inr some_fit ↦
          let fits : pos 0 ≤ℤ max_start = ltb_ℤ_false max_start (pos 0) some_fit in
          let ordered : least ≤ℤ max_start = m_least max_start fits (omega int_laws) in
          rw some_fit (
            cut_range-IsRange p.start_range.dev least (max_start -ℤ least +ℤ pos 1) p.start_range
              (IsStart p first last) m_pos (omega int_laws) sound.start_valid refl
              (λ s. (
                λ (p1, p2, p3, p4). record {
                  nonneg = omega arith;
                  reaches = omega int_laws;
                  fits = omega int_laws;
                  above = p3;
                  below = p4;
                },
                λ st. (
                  m_least s st.nonneg (omega (int_laws, st.reaches)),
                  omega (int_laws, st.fits),
                  st.above,
                  st.below,
                ),
              )))
    ]
