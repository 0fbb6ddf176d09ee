-- ===== src/Constraint/Solve.antt =====
-- What `constraint_solve_nearest` promises its callers.
use parted.Prelude.{ℕ, ◌≡◌, ◌≤◌, inl, inr, Option, none, some, ap, sym, subst, arith}
use parted.Prelude.Int.{
  ℤ, pos, abs_ℕ, ◌+ℤ◌, ◌-ℤ◌, ◌≤ℤ◌, ◌<ℤ◌, max_ℤ, int_laws, ∣ℤ_cong, ∣ℤ-*ℤ, ∣ℤ_refl, one-*ℤ, *ℤ_comm,
  parts_of_eq, parts_disjoint, ◌∣ℤ◌,
}
use parted.Prelude.Run.{Returns, Returns_map}
use parted.Geom.{Geometry}
use parted.Geom.Valid.{IsValid}
use parted.NatMath.Aligned.{Satisfies}
use parted.NatMath.{Alignment}
use parted.NatMath.Nearest.{alignment_align_nearest-IsNearest}
use parted.Constraint.{constraint_solve_nearest}
use parted.Constraint.Solution.{Parts, whole, IsSound, Solves, SolvedBy}
use parted.Constraint.Starts.{IsStart}
use parted.Constraint.Canonical.{AreEnds, Solves-IsStart}
use parted.Constraint.Ends.{IsEnd, Solves-IsEnd}
use parted.Constraint.Solver.{Outcome, IsRefused, IsChosenStart, IsChosenEnd, solve_from-Outcome}

-- A solution on the wanted device, or NULL for one of the reasons.
abbrev pub IsAnswer : Parts → Geometry → Option Geometry → Type 0
IsAnswer p wanted none = IsRefused p wanted.start
IsAnswer p wanted (some g) = IsValid g × (g.dev ≡ wanted.dev) × SolvedBy p g

-- No start of a solution is nearer to the wanted one, and no end of one with that start.
abbrev pub IsNearest : Parts → Geometry → Option Geometry → Type 0
IsNearest p wanted none = IsRefused p wanted.start
IsNearest p wanted (some g) =
    ((s e : ℤ)
      → Solves p s e (e -ℤ s +ℤ pos 1)
      → abs_ℕ (wanted.start -ℤ g.start) ≤ abs_ℕ (wanted.start -ℤ s))
    × ((e : ℤ)
        → Solves p g.start e (e -ℤ g.start +ℤ pos 1)
        → abs_ℕ (wanted.end -ℤ g.end) ≤ abs_ℕ (wanted.end -ℤ e))

-- A valid region of the wanted device that satisfies the constraint.
abbrev pub IsFound : Parts → Geometry → Option Geometry → Type 0
IsFound p wanted none = ⊥
IsFound p wanted (some g) = IsValid g × (g.dev ≡ wanted.dev) × SolvedBy p g

same_fields :
    (g h : Geometry)
    → g.dev ≡ h.dev
    → g.start ≡ h.start
    → g.length ≡ h.length
    → g.end ≡ h.end
    → g ≡ h
same_fields g h d s l e = grind int_laws

no_distance : (x y : ℤ) → abs_ℕ (x -ℤ y) ≤ abs_ℕ (x -ℤ x) → y ≡ x
no_distance x y h = omega (int_laws, parts_disjoint (x -ℤ y), parts_disjoint (x -ℤ x))

nearest_start :
    (p : Parts) (wanted s : ℤ)
    → IsSound p
    → p.start_align.offset ≤ℤ wanted
    → IsChosenStart p wanted s
    → (s' e : ℤ) → Solves p s' e (e -ℤ s' +ℤ pos 1)
    → abs_ℕ (wanted -ℤ s) ≤ abs_ℕ (wanted -ℤ s')
nearest_start p wanted s sound offset cs s' e sol =
    let (lo, hi) = (cs.starts.1 s').1 (Solves-IsStart p cs.first cs.last s' e sound cs.ends sol) in
    elim (alignment_align_nearest-IsNearest p.start_align cs.range cs.starts.0 wanted
      sound.start_grain (inl offset)) [
        | inl (i, h) ↦ rw cs.nearest (h s' (sol.start_aligned, lo, hi))
        | inr (e', n) ↦ absurd (n s' (sol.start_aligned, lo, hi))
      ]

nearest_end :
    (p : Parts) (s wanted e : ℤ)
    → IsSound p
    → p.end_align.offset ≤ℤ wanted
    → IsChosenEnd p s wanted e
    → (e' : ℤ) → Solves p s e' (e' -ℤ s +ℤ pos 1)
    → abs_ℕ (wanted -ℤ e) ≤ abs_ℕ (wanted -ℤ e')
nearest_end p s wanted e sound offset ce e' sol =
    let (lo, hi) = (ce.ends.1 e').1 (Solves-IsEnd p s e' sol) in
    elim (alignment_align_nearest-IsNearest p.end_align ce.range ce.ends.0 wanted sound.end_grain
      (inl offset)) [
        | inl (i, h) ↦ rw ce.nearest (h e' (sol.end_aligned, lo, hi))
        | inr (e'', n) ↦ absurd (n e' (sol.end_aligned, lo, hi))
      ]

max_ℤ_lem :
    (x y : ℤ) → (x ≤ℤ max_ℤ x y) × (y ≤ℤ max_ℤ x y) × ((z : ℤ) → x ≤ℤ z → y ≤ℤ z → max_ℤ x y ≤ℤ z)
max_ℤ_lem x y = (ground arith, ground arith, λ z p q. ground arith)

pub one-Satisfies : (a : Alignment) (s : ℤ) → a.grain_size ≡ pos 1 → Satisfies a s
one-Satisfies a s one =
    subst (λ n. n ∣ℤ s -ℤ a.offset) (sym one)
      (∣ℤ_cong (pos 1) (one-*ℤ (s -ℤ a.offset)) (
        ∣ℤ_cong (pos 1) (*ℤ_comm (s -ℤ a.offset) (pos 1))
          (∣ℤ-*ℤ (pos 1) (s -ℤ a.offset) (pos 1) (∣ℤ_refl (pos 1)))))

-- With a grain of one sector every start that is chosen has an end.
start-has-IsEnd :
    (p : Parts) (first last s : ℤ)
    → p.end_align.grain_size ≡ pos 1
    → p.min_size ≤ℤ p.max_size
    → AreEnds p first last
    → IsStart p first last s
    → (e : ℤ) × IsEnd p s e × Satisfies p.end_align e
start-has-IsEnd p first last s one le_size ends st =
    let end : ℤ = max_ℤ (s +ℤ p.min_size -ℤ pos 1) first in
    let (_, first_low, _) = ends.first_in in
    let (_, _, last_high) = ends.last_in in
    let ordered : first ≤ℤ last = ends.first_least last ends.last_in in
    let (below_size, above_first, lowest) = max_ℤ_lem (s +ℤ p.min_size -ℤ pos 1) first in
    (
      end,
      record {
        long = omega (int_laws, below_size);
        short = omega (
          int_laws,
          st.reaches,
          lowest (s +ℤ p.max_size -ℤ pos 1) (omega int_laws) (omega (int_laws, st.reaches)),
        );
        above = omega (int_laws, above_first, first_low);
        below = omega (int_laws, last_high, lowest last (omega (int_laws, st.fits)) ordered);
      },
      one-Satisfies p.end_align end one,
    )

module _ (length_of : ℕ → ℤ) (p : Parts) (wanted : Geometry) (sound : IsSound p)
    (same : p.start_range.dev ≡ wanted.dev)
    (on_device : p.end_range.end <ℤ length_of p.end_range.dev) where
  -- On a sound constraint whose end range ends before its device does, and for a region on the
  -- device of the start range, `constraint_solve_nearest` returns, so the assertion at its end
  -- holds. It returns a valid region of that device that satisfies the constraint. It returns NULL
  -- only if no region satisfies it, or the last aligned sector of the end range is below the
  -- minimal size, or the start that was chosen has no end.
  pub constraint_solve_nearest-IsAnswer :
      Returns (constraint_solve_nearest length_of (some (whole p)) wanted) (IsAnswer p wanted)
  unfolding constraint_solve_nearest
  constraint_solve_nearest-IsAnswer =
      Returns_map _ answer (solve_from-Outcome length_of p wanted sound same on_device)
    where
      answer : (r : Option Geometry) → Outcome p wanted r → IsAnswer p wanted r
      answer none o = o
      answer (some g) o = (o.valid, o.device, o.solves)

  -- On a sound constraint whose end range ends before its device does, and for a region on the
  -- device of the start range, and if the start and the end that are wanted are not below the
  -- offsets of their alignments: the start of a region that is found is as near to the wanted one
  -- as that of any solution, and its end as near as that of any solution with the same start.
  pub constraint_solve_nearest-IsNearest :
      p.start_align.offset ≤ℤ wanted.start
      → p.end_align.offset ≤ℤ wanted.end
      → Returns (constraint_solve_nearest length_of (some (whole p)) wanted) (IsNearest p wanted)
  unfolding constraint_solve_nearest
  constraint_solve_nearest-IsNearest start_offset end_offset =
      Returns_map _ near (solve_from-Outcome length_of p wanted sound same on_device)
    where
      near : (r : Option Geometry) → Outcome p wanted r → IsNearest p wanted r
      near none o = o
      near (some g) o = (
        nearest_start p wanted.start g.start sound start_offset o.start_chosen,
        nearest_end p g.start wanted.end g.end sound end_offset o.end_chosen,
      )

  -- On a sound constraint whose end range ends before its device does, and for a region on the
  -- device of the start range, with an end grain of one sector and if the end range reaches to the
  -- minimal size: if some region satisfies the constraint, then a valid region of the wanted
  -- device that satisfies it is found.
  pub constraint_solve_nearest-finds :
      p.end_align.grain_size ≡ pos 1
      → p.min_size ≤ℤ p.end_range.end
      → (s e : ℤ) → Solves p s e (e -ℤ s +ℤ pos 1)
      → Returns (constraint_solve_nearest length_of (some (whole p)) wanted) (IsFound p wanted)
  constraint_solve_nearest-finds one high s e sol =
      Returns_map _ found constraint_solve_nearest-IsAnswer
    where
      refused : IsRefused p wanted.start → ⊥
      refused (inl n) = n s e sol
      refused (inr (inl (first, last, ends, short))) =
          let end_in : p.end_range.end ≤ℤ last = ends.last_greatest p.end_range.end (
            one-Satisfies p.end_align _ one,
            omega (arith, sol.end_above, sol.end_below),
            omega arith,
          ) in
          omega arith
      refused (inr (inr (s', cs, n))) =
          let st : IsStart p cs.first cs.last s' = (cs.starts.1 s').0 (cs.in_set.1, cs.in_set.2) in
          let (e', en, aligned) =
            start-has-IsEnd p cs.first cs.last s' one
              (omega (arith, sol.long_enough, sol.short_enough)) cs.ends st in
          n e' (record {
            start_aligned = cs.in_set.0;
            end_aligned = aligned;
            start_above = st.above;
            start_below = st.below;
            end_above = en.above;
            end_below = en.below;
            long_enough = omega (int_laws, en.long);
            short_enough = omega (int_laws, en.short);
          })

      found : (r : Option Geometry) → IsAnswer p wanted r → IsFound p wanted r
      found none o = refused o
      found (some g) o = o

  -- On a sound constraint whose end range ends before its device does, and for a region on the
  -- device of the start range, a valid region that satisfies the constraint is returned unchanged,
  -- if its start and its end are not below the offsets of their alignments and its end is not
  -- below the minimal size.
  pub constraint_solve_nearest-keeps :
      IsValid wanted
      → SolvedBy p wanted
      → p.start_align.offset ≤ℤ wanted.start
      → p.end_align.offset ≤ℤ wanted.end
      → p.min_size ≤ℤ wanted.end
      → Returns (constraint_solve_nearest length_of (some (whole p)) wanted) (λ r. r ≡ some wanted)
  unfolding constraint_solve_nearest
  constraint_solve_nearest-keeps v solved start_offset end_offset high =
      Returns_map _ keeps (solve_from-Outcome length_of p wanted sound same on_device)
    where
      spans : Solves p wanted.start wanted.end (wanted.end -ℤ wanted.start +ℤ pos 1)
      spans = subst (Solves p wanted.start wanted.end) (omega (int_laws, parts_of_eq v.ends)) solved

      same_start : (s : ℤ) → IsChosenStart p wanted.start s → s ≡ wanted.start
      same_start s cs =
          no_distance wanted.start s
            (nearest_start p wanted.start s sound start_offset cs wanted.start wanted.end spans)

      refused : IsRefused p wanted.start → ⊥
      refused (inl n) = n wanted.start wanted.end spans
      refused (inr (inl (first, last, ends, short))) =
          let le_last : wanted.end ≤ℤ last =
            ends.last_greatest wanted.end (spans.end_aligned, spans.end_above, spans.end_below) in
          omega arith
      refused (inr (inr (s, cs, n))) = n wanted.end (
          subst (λ t. Solves p t wanted.end (wanted.end -ℤ t +ℤ pos 1)) (sym (same_start s cs))
            spans)

      keeps : (r : Option Geometry) → Outcome p wanted r → r ≡ some wanted
      keeps none o = absurd (refused o)
      keeps (some g) o =
          let at_start : g.start ≡ wanted.start = same_start g.start o.start_chosen in
          let at_end : g.end ≡ wanted.end = no_distance wanted.end g.end (
            nearest_end p g.start wanted.end g.end sound end_offset o.end_chosen wanted.end (
              subst (λ t. Solves p t wanted.end (wanted.end -ℤ t +ℤ pos 1)) (sym at_start)
                spans)) in
          let at_length : g.length ≡ wanted.length = omega (
            int_laws,
            parts_of_eq at_start,
            parts_of_eq at_end,
            parts_of_eq v.ends,
            parts_of_eq o.valid.ends,
          ) in
          ap some (same_fields g wanted o.device at_start at_length at_end)
