-- ===== src/Constraint/Solver.antt =====
-- `constraint_solve_nearest`: what it returns, step by step.
use parted.Prelude.{
  ℕ, ◌≡◌, ◌↔◌, ◌⊎◌, ◌==◌, Bool, Bool-cases, inl, inr, Option, true, none, some, refl, arith,
  if◌then◌else◌,
}
use parted.Prelude.Int.{
  ℤ, pos, negsuc, ◌+ℤ◌, ◌-ℤ◌, ◌≤ℤ◌, ◌<ℤ◌, ◌==ℤ◌, ==ℤ_iff, int_laws, parts_of_eq,
}
use parted.Prelude.Run.{Run, done, or_null, ◌>>=◌, Returns, Returns→done}
use parted.Geom.{Geometry, geometry_new}
use parted.Geom.Valid.{geometry_new_iff, IsValid}
use parted.NatMath.{alignment_align_nearest}
use parted.NatMath.Aligned.{Satisfies}
use parted.NatMath.Align.{InSet, Chooses, chosen, not_chosen}
use parted.NatMath.Nearest.{alignment_align_nearest-Chooses}
use parted.Constraint.{
  get_canonical_start_range, get_nearest_start_soln, get_end_range, get_nearest_end_soln,
  nearest_in, constraint_is_solution, checked_solution, solve_from,
}
use parted.Constraint.Solution.{Parts, whole, IsSound, Solves, SolvedBy, constraint_is_solution_iff}
use parted.Constraint.Starts.{IsStart, IsRange}
use parted.Constraint.Canonical.{
  AreEnds, HasNone, IsCanonical, Solves-IsStart, get_canonical_start_range-IsCanonical,
}
use parted.Constraint.Ends.{IsEnd, Solves-IsEnd, get_end_range-IsRange}

-- `s` is the start that is chosen for the wanted sector.
pub record IsChosenStart (p : Parts) (wanted s : ℤ) : Type 0 where
  pub first : ℤ
  pub last : ℤ
  pub range : Geometry
  pub ends : AreEnds p first last
  pub starts : IsRange (IsStart p first last) (some range)
  pub nearest : s ≡ alignment_align_nearest p.start_align (some range) wanted
  pub in_set : InSet p.start_align range s

-- `e` is the end that is chosen for the wanted sector, once the start is `s`.
pub record IsChosenEnd (p : Parts) (s wanted e : ℤ) : Type 0 where
  pub range : Geometry
  pub ends : IsRange (IsEnd p s) (some range)
  pub nearest : e ≡ alignment_align_nearest p.end_align (some range) wanted
  pub in_set : InSet p.end_align range e

-- Why NULL is returned: there is no solution, or the last possible end is below the minimal size,
-- or the start that was chosen has no end.
abbrev pub IsRefused : Parts → ℤ → Type 0
IsRefused p wanted =
    HasNone p
    ⊎ (((first : ℤ) × (last : ℤ) × AreEnds p first last × (last <ℤ p.min_size))
        ⊎ ((s : ℤ) × IsChosenStart p wanted s × ((e : ℤ) → ¬ Solves p s e (e -ℤ s +ℤ pos 1))))

-- A region whose start and end are chosen.
pub record IsChosen (p : Parts) (wanted found : Geometry) : Type 0 where
  pub valid : IsValid found
  pub device : found.dev ≡ wanted.dev
  pub solves : SolvedBy p found
  pub start_chosen : IsChosenStart p wanted.start found.start
  pub end_chosen : IsChosenEnd p found.start wanted.end found.end

abbrev pub Outcome : Parts → Geometry → Option Geometry → Type 0
Outcome p wanted none = IsRefused p wanted.start
Outcome p wanted (some found) = IsChosen p wanted found

passes : (p : Parts) (g : Geometry) → SolvedBy p g → checked_solution (whole p) g ≡ done (some g)
unfolding checked_solution
passes p g sol =
    let made : (b : Bool) × (constraint_is_solution (whole p) g ≡ done b)
        × ((b ≡ true) ↔ SolvedBy p g) =
      Returns→done _ _ (constraint_is_solution_iff p g) in
    let (b, e, iff) = made in rw (e, iff.1 sol) refl

-- The region from `s` to `e`.
abbrev region : ℕ → ℤ → ℤ → Geometry
region dev s e = record { dev = dev; start = s; length = e -ℤ s +ℤ pos 1; end = e }

region-IsValid : (dev : ℕ) (s e : ℤ) → pos 0 ≤ℤ s → s ≤ℤ e → IsValid (region dev s e)
region-IsValid dev s e h le = record {
  ends = omega int_laws;
  not_empty = omega int_laws;
  not_negative = h;
}

geometry_new-region :
    (dev : ℕ) (s e : ℤ)
    → pos 0 ≤ℤ s
    → s ≤ℤ e
    → geometry_new dev s (e -ℤ s +ℤ pos 1) ≡ done (some (region dev s e))
geometry_new-region dev s e h le =
    (geometry_new_iff dev s (e -ℤ s +ℤ pos 1) (region dev s e) h).1
      (region-IsValid dev s e h le, refl, refl, refl)

-- Both halves of a solution make one.
halves-Solves :
    (p : Parts) (wanted_start wanted_end s e : ℤ)
    → IsChosenStart p wanted_start s
    → IsChosenEnd p s wanted_end e
    → Solves p s e (e -ℤ s +ℤ pos 1)
halves-Solves p wanted_start wanted_end s e cs ce =
    let st : IsStart p cs.first cs.last s = (cs.starts.1 s).0 (cs.in_set.1, cs.in_set.2) in
    let en : IsEnd p s e = (ce.ends.1 e).0 (ce.in_set.1, ce.in_set.2) in
    record {
      start_aligned = cs.in_set.0;
      end_aligned = ce.in_set.0;
      start_above = st.above;
      start_below = st.below;
      end_above = en.above;
      end_below = en.below;
      long_enough = omega (int_laws, en.long);
      short_enough = omega (int_laws, en.short);
    }

module _ (length_of : ℕ → ℤ) (p : Parts) (wanted : Geometry) (sound : IsSound p) where
  -- The part of the solver behind the choice of the end.
  from_end : ℤ → ℤ → Run (Option Geometry)
  from_end start end =
      if end ==ℤ negsuc 0
      then done none
      else or_null (geometry_new wanted.dev start (end -ℤ start +ℤ pos 1))
          (checked_solution (whole p))

  from_end-Outcome :
      (s e : ℤ)
      → IsChosenStart p wanted.start s
      → IsChosenEnd p s wanted.end e
      → Returns (from_end s e) (Outcome p wanted)
  unfolding from_end
  from_end-Outcome s e cs ce =
      let sol : Solves p s e (e -ℤ s +ℤ pos 1) =
        halves-Solves p wanted.start wanted.end s e cs ce in
      let st : IsStart p cs.first cs.last s = (cs.starts.1 s).0 (cs.in_set.1, cs.in_set.2) in
      let nonneg : pos 0 ≤ℤ s = st.nonneg in
      let ordered : s ≤ℤ e = omega (int_laws, sol.long_enough, sound.min_pos) in
      elim (Bool-cases (e ==ℤ negsuc 0)) [
        | inl same ↦ absurd (omega (arith, parts_of_eq ((==ℤ_iff e (negsuc 0)).0 same)))
        | inr other ↦
            rw
              (
                other,
                geometry_new-region wanted.dev s e nonneg ordered,
                passes p (region wanted.dev s e) sol,
              )
              (record {
                valid = region-IsValid wanted.dev s e nonneg ordered;
                device = refl;
                solves = sol;
                start_chosen = cs;
                end_chosen = ce;
              })
      ]

  no_end :
      (s : ℤ)
      → IsChosenStart p wanted.start s
      → ((e : ℤ) → Satisfies p.end_align e → ¬ IsEnd p s e)
      → IsRefused p wanted.start
  no_end s cs n = inr (inr (s, cs, λ e sol. n e sol.end_aligned (Solves-IsEnd p s e sol)))

  end_of_range-Outcome :
      (s : ℤ) (r : Option Geometry)
      → IsChosenStart p wanted.start s
      → IsRange (IsEnd p s) r
      → Returns (nearest_in (some p.end_align) r wanted.end >>= from_end s) (Outcome p wanted)
  unfolding nearest_in from_end
  end_of_range-Outcome s none cs n = no_end s cs (λ e st. n e)
  end_of_range-Outcome s (some range) cs (v, ends) =
      let e : ℤ = alignment_align_nearest p.end_align (some range) wanted.end in
      let choice : Chooses p.end_align range e (λ _. Unit {0}) =
        alignment_align_nearest-Chooses p.end_align range v wanted.end sound.end_grain in
      elim (Bool-cases (e ==ℤ negsuc 0)) [
        | inl same ↦ rw same (
            no_end s cs (λ t st en.
              let (lo, hi) = (ends t).1 en in
              not_chosen p.end_align range e _ v choice ((==ℤ_iff e (negsuc 0)).0 same) t
                (st, lo, hi)))
        | inr other ↦
            let (in_set, _) =
              chosen p.end_align range e _ choice (λ z. cc (other, (==ℤ_iff e (negsuc 0)).1 z)) in
            from_end-Outcome s e cs
              (record { range = range; ends = (v, ends); nearest = refl; in_set = in_set })
      ]

  -- The solver behind its assertion.
  from_range : Option Geometry → Run (Option Geometry)
  from_range r = do
    start ← nearest_in (some p.start_align) r wanted.start
    if start ==ℤ negsuc 0
        then done none
        else do end ← get_nearest_end_soln length_of (whole p) start wanted.end; from_end start end

  from_range-Outcome :
      (r : Option Geometry)
      → p.end_range.end <ℤ length_of p.end_range.dev
      → IsCanonical p r
      → Returns (from_range r) (Outcome p wanted)
  unfolding from_range nearest_in get_nearest_end_soln
  from_range-Outcome none on_device (inl n) = inl n
  from_range-Outcome none on_device (inr short) = inr (inl short)
  from_range-Outcome (some range) on_device (first, last, ends, (v, starts), le_size) =
      let s : ℤ = alignment_align_nearest p.start_align (some range) wanted.start in
      let choice : Chooses p.start_align range s (λ _. Unit {0}) =
        alignment_align_nearest-Chooses p.start_align range v wanted.start sound.start_grain in
      elim (Bool-cases (s ==ℤ negsuc 0)) [
        | inl same ↦ rw same (
            inl (λ s' e sol.
              let (lo, hi) = (starts s').1 (Solves-IsStart p first last s' e sound ends sol) in
              not_chosen p.start_align range s _ v choice ((==ℤ_iff s (negsuc 0)).0 same) s'
                (sol.start_aligned, lo, hi)))
        | inr other ↦
            let (in_set, _) =
              chosen p.start_align range s _ choice (λ z. cc (other, (==ℤ_iff s (negsuc 0)).1 z)) in
            let st : IsStart p first last s = (starts s).0 (in_set.1, in_set.2) in
            let made : (r : Option Geometry) × (get_end_range length_of (whole p) s ≡ done r)
                × IsRange (IsEnd p s) r =
              Returns→done _ _
                (get_end_range-IsRange length_of p sound s st.nonneg le_size on_device) in
            let (r, e, h) = made in
            rw (other, e)
              (end_of_range-Outcome s r
                (record {
                  first = first;
                  last = last;
                  range = range;
                  ends = ends;
                  starts = (v, starts);
                  nearest = refl;
                  in_set = in_set;
                })
                h)
      ]

  pub solve_from-Outcome :
      p.start_range.dev ≡ wanted.dev
      → p.end_range.end <ℤ length_of p.end_range.dev
      → Returns (solve_from length_of (whole p) wanted) (Outcome p wanted)
  unfolding solve_from get_nearest_start_soln from_range from_end
  solve_from-Outcome same on_device =
      let made : (r : Option Geometry) × (get_canonical_start_range (whole p) ≡ done r)
          × IsCanonical p r =
        Returns→done _ _ (get_canonical_start_range-IsCanonical p sound) in
      let (r, e, h) = made in
      let test : (p.start_range.dev == wanted.dev) ≡ true = ground arith in
      rw (test, e) (from_range-Outcome r on_device h)
