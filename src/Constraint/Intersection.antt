-- ===== src/Constraint/Intersection.antt =====
-- `constraint_intersect`: the regions that satisfy both constraints.
use parted.Prelude.{◌≡◌, ◌↔◌, Option, none, some, arith}
use parted.Prelude.Int.{ℤ, ◌≤ℤ◌, max_ℤ, min_ℤ}
use parted.Prelude.Run.{done, Returns, Returns_map, Returns→done, or_null}
use parted.Geom.{Geometry, geometry_intersect}
use parted.Geom.Valid.{IsValid}
use parted.Geom.Sectors.{geometry_intersect-IsMeet}
use parted.NatMath.{Alignment, alignment_intersect}
use parted.NatMath.Intersect.{IsMeet, IsNarrow, alignment_intersect-IsMeet}
use parted.Constraint.{Constraint, constraint_new, constraint_intersect}
use parted.Constraint.Solution.{Parts, whole, IsSound, SolvedBy}
use parted.Constraint.Starts.{IsRange, meet-IsRange}
use parted.Constraint.Builders.{IsFor, IsFor-map, constraint_new-IsFor}

-- A constraint that just the common solutions satisfy; NULL only if there is no common solution.
abbrev pub IsCommon : Parts → Parts → Option Constraint → Type 0
IsCommon a b none = (g : Geometry) → IsValid g → SolvedBy a g → ¬ SolvedBy b g
IsCommon a b (some c) = IsFor (λ g. SolvedBy a g × SolvedBy b g) (some c)

abbrev Both : Geometry → Geometry → ℤ → Type 0
Both a b s = (a.start ≤ℤ s) × (s ≤ℤ a.end) × (b.start ≤ℤ s) × (s ≤ℤ b.end)

geometry_intersect-IsRange :
    (a b : Geometry)
    → IsValid a
    → IsValid b
    → a.dev ≡ b.dev
    → Returns (geometry_intersect (some a) (some b)) (IsRange (Both a b))
geometry_intersect-IsRange a b va vb same =
    Returns_map _ (λ r. meet-IsRange a b r (Both a b) same (λ s. (λ h. h, λ h. h)))
      (geometry_intersect-IsMeet a b va vb)

max_ℤ_iff : (x y z : ℤ) → (max_ℤ x y ≤ℤ z) ↔ ((x ≤ℤ z) × (y ≤ℤ z))
max_ℤ_iff x y z = ground arith

min_ℤ_iff : (x y z : ℤ) → (z ≤ℤ min_ℤ x y) ↔ ((z ≤ℤ x) × (z ≤ℤ y))
min_ℤ_iff x y z = ground arith

-- All parts intersect.
module _ (a b : Parts) (sa : IsSound a) (sb : IsSound b) where
  parts_of : Alignment → Alignment → Geometry → Geometry → Parts
  parts_of ca ce sr er = record {
    start_align = ca;
    end_align = ce;
    start_range = sr;
    end_range = er;
    min_size = max_ℤ a.min_size b.min_size;
    max_size = min_ℤ a.max_size b.max_size;
  }

  parts_of_iff :
      (ca ce : Alignment) (sr er : Geometry) (g : Geometry)
      → IsMeet a.start_align b.start_align (some ca)
      → IsMeet a.end_align b.end_align (some ce)
      → IsRange (Both a.start_range b.start_range) (some sr)
      → IsRange (Both a.end_range b.end_range) (some er)
      → SolvedBy (parts_of ca ce sr er) g ↔ (SolvedBy a g × SolvedBy b g)
  unfolding parts_of
  parts_of_iff ca ce sr er g (_, ms) (_, me) (_, rs) (_, re) = (
    λ s.
        let (s_a, s_b) = (ms g.start).0 s.start_aligned in
        let (e_a, e_b) = (me g.end).0 s.end_aligned in
        let (s_lo, s_hi, t_lo, t_hi) = (rs g.start).0 (s.start_above, s.start_below) in
        let (e_lo, e_hi, f_lo, f_hi) = (re g.end).0 (s.end_above, s.end_below) in
        let (l_a, l_b) = (max_ℤ_iff a.min_size b.min_size g.length).0 s.long_enough in
        let (h_a, h_b) = (min_ℤ_iff a.max_size b.max_size g.length).0 s.short_enough in
        (
          record {
            start_aligned = s_a;
            end_aligned = e_a;
            start_above = s_lo;
            start_below = s_hi;
            end_above = e_lo;
            end_below = e_hi;
            long_enough = l_a;
            short_enough = h_a;
          },
          record {
            start_aligned = s_b;
            end_aligned = e_b;
            start_above = t_lo;
            start_below = t_hi;
            end_above = f_lo;
            end_below = f_hi;
            long_enough = l_b;
            short_enough = h_b;
          },
        ),
    λ (s, t).
        let (s_lo, s_hi) =
          (rs g.start).1 (s.start_above, s.start_below, t.start_above, t.start_below) in
        let (e_lo, e_hi) = (re g.end).1 (s.end_above, s.end_below, t.end_above, t.end_below) in
        record {
          start_aligned = (ms g.start).1 (s.start_aligned, t.start_aligned);
          end_aligned = (me g.end).1 (s.end_aligned, t.end_aligned);
          start_above = s_lo;
          start_below = s_hi;
          end_above = e_lo;
          end_below = e_hi;
          long_enough = (max_ℤ_iff a.min_size b.min_size g.length).1 (s.long_enough, t.long_enough);
          short_enough =
              (min_ℤ_iff a.max_size b.max_size g.length).1 (s.short_enough, t.short_enough);
        },
  )

  some_parts :
      (ca ce : Alignment) (sr er : Geometry)
      → IsMeet a.start_align b.start_align (some ca)
      → IsMeet a.end_align b.end_align (some ce)
      → IsRange (Both a.start_range b.start_range) (some sr)
      → IsRange (Both a.end_range b.end_range) (some er)
      → Returns
          (constraint_new
            (some ca)
            (some ce)
            sr
            er
            (max_ℤ a.min_size b.min_size)
            (min_ℤ a.max_size b.max_size))
          (IsCommon a b)
  unfolding parts_of
  some_parts ca ce sr er ms me rs re = Returns_map _ common (
      constraint_new-IsFor (parts_of ca ce sr er) (record {
        start_grain = ms.0;
        end_grain = me.0;
        start_valid = rs.0;
        end_valid = re.0;
        min_pos = ground (arith, sa.min_pos, sb.min_pos);
        max_pos = ground (arith, sa.max_pos, sb.max_pos);
      }))
    where
      common : (c : Option Constraint) → IsFor (SolvedBy (parts_of ca ce sr er)) c → IsCommon a b c
      common none n = absurd n
      common (some c) h = IsFor-map _ _ (λ g v. parts_of_iff ca ce sr er g ms me rs re) (some c) h

  -- Two sound constraints, their ranges on the same devices, with grains below 2^15 and
  -- offsets from -2^32 to 2^32, intersect
  -- to a sound constraint that exactly the valid regions satisfy which satisfy both; NULL is
  -- returned only if no valid region satisfies both.
  pub constraint_intersect-IsCommon :
      IsNarrow a.start_align
      → IsNarrow b.start_align
      → IsNarrow a.end_align
      → IsNarrow b.end_align
      → a.start_range.dev ≡ b.start_range.dev
      → a.end_range.dev ≡ b.end_range.dev
      → Returns (constraint_intersect (some (whole a)) (some (whole b))) (IsCommon a b)
  unfolding constraint_intersect
  constraint_intersect-IsCommon nas nbs nae nbe ds de =
      let made_s : (r : Option Alignment) × (alignment_intersect (some a.start_align)
              (some b.start_align)
            ≡ done r)
          × IsMeet a.start_align b.start_align r =
        Returns→done _ _ (alignment_intersect-IsMeet a.start_align b.start_align nas nbs) in
      let made_e : (r : Option Alignment) × (alignment_intersect (some a.end_align)
              (some b.end_align)
            ≡ done r)
          × IsMeet a.end_align b.end_align r =
        Returns→done _ _ (alignment_intersect-IsMeet a.end_align b.end_align nae nbe) in
      let range_s : (r : Option Geometry) × (geometry_intersect (some a.start_range)
              (some b.start_range)
            ≡ done r)
          × IsRange (Both a.start_range b.start_range) r =
        Returns→done _ _ (
          geometry_intersect-IsRange a.start_range b.start_range sa.start_valid sb.start_valid
            ds) in
      let range_e : (r : Option Geometry) × (geometry_intersect (some a.end_range)
              (some b.end_range)
            ≡ done r)
          × IsRange (Both a.end_range b.end_range) r =
        Returns→done _ _
          (geometry_intersect-IsRange a.end_range b.end_range sa.end_valid sb.end_valid de) in
      let (ca, eq1, ms) = made_s in
      let (ce, eq2, me) = made_e in
      let (sr, eq3, rs) = range_s in
      let (er, eq4, re) = range_e in rw (eq1, eq2, eq3, eq4) (go ca ce sr er ms me rs re)
    where
      go :
          (ca ce : Option Alignment) (sr er : Option Geometry)
          → IsMeet a.start_align b.start_align ca
          → IsMeet a.end_align b.end_align ce
          → IsRange (Both a.start_range b.start_range) sr
          → IsRange (Both a.end_range b.end_range) er
          → Returns
              (or_null (done ca) (λ ca. or_null (done ce) (λ ce. or_null (done sr) (λ sr.
                or_null (done er) (λ er.
                  constraint_new
                    (some ca)
                    (some ce)
                    sr
                    er
                    (max_ℤ a.min_size b.min_size)
                    (min_ℤ a.max_size b.max_size))))))
              (IsCommon a b)
      go none ce sr er n me rs re = λ g v s t. n g.start s.start_aligned t.start_aligned
      go (some ca) none sr er ms n rs re = λ g v s t. n g.end s.end_aligned t.end_aligned
      go (some ca) (some ce) none er ms me n re =
          λ g v s t. n g.start (s.start_above, s.start_below, t.start_above, t.start_below)
      go (some ca) (some ce) (some sr) none ms me rs n =
          λ g v s t. n g.end (s.end_above, s.end_below, t.end_above, t.end_below)
      go (some ca) (some ce) (some sr) (some er) ms me rs re = some_parts ca ce sr er ms me rs re
