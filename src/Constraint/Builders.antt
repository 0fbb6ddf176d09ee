-- ===== src/Constraint/Builders.antt =====
-- What the constructors of constraints make: the regions that satisfy the new constraint.
use parted.Prelude.{◌≡◌, ◌↔◌, Option, true, none, some, refl, subst, arith}
use parted.Prelude.Int.{ℤ, pos, ◌≤ℤ◌, ltb_ℤ}
use parted.Prelude.Run.{Returns}
use parted.Geom.{Geometry}
use parted.Geom.Valid.{IsValid, geometry_duplicate_eq}
use parted.NatMath.{Alignment, alignment_duplicate, alignment_new}
use parted.NatMath.Aligned.{Satisfies, Normalises, alignment_new-Normalises}
use parted.Constraint.{Constraint, constraint_new, constraint_duplicate}
use parted.Constraint.Solution.{Parts, whole, IsSound, Solves, SolvedBy}

-- A sound constraint, without a NULL pointer, that the valid regions with `S` satisfy, no others.
abbrev pub IsFor : (Geometry → Type 0) → Option Constraint → Type 0
IsFor S none = ⊥
IsFor S (some c) =
    (p : Parts) × (c ≡ whole p) × IsSound p × ((g : Geometry) → IsValid g → SolvedBy p g ↔ S g)

-- A normalised alignment that stands for the same sectors.
duplicate_lem :
    (a : Alignment)
    → pos 0 ≤ℤ a.grain_size
    → (b : Alignment) × (alignment_duplicate (some a) ≡ some b)
      × (pos 0 ≤ℤ b.grain_size)
      × ((s : ℤ) → Satisfies b s ↔ Satisfies a s)
unfolding alignment_duplicate
duplicate_lem a nonneg =
    go (alignment_new a.offset a.grain_size) refl (alignment_new-Normalises a.offset a.grain_size)
  where
    go :
        (r : Option Alignment)
        → alignment_new a.offset a.grain_size ≡ r
        → Normalises a.offset a.grain_size r
        → (b : Alignment) × (alignment_new a.offset a.grain_size ≡ some b)
          × (pos 0 ≤ℤ b.grain_size)
          × ((s : ℤ) → Satisfies b s ↔ Satisfies a s)
    go none e negative = absurd (omega arith)
    go (some b) e (h, same, sat) = (b, e, rw same h, sat)

pub Solves-map :
    (p q : Parts) (s e l : ℤ)
    → (Satisfies p.start_align s → Satisfies q.start_align s)
    → (Satisfies p.end_align e → Satisfies q.end_align e)
    → p.start_range ≡ q.start_range
    → p.end_range ≡ q.end_range
    → p.min_size ≡ q.min_size
    → p.max_size ≡ q.max_size
    → Solves p s e l
    → Solves q s e l
Solves-map p q s e l fs fe sr er mi ma sol = record {
  start_aligned = fs sol.start_aligned;
  end_aligned = fe sol.end_aligned;
  start_above = subst (λ r. r.start ≤ℤ s) sr sol.start_above;
  start_below = subst (λ r. s ≤ℤ r.end) sr sol.start_below;
  end_above = subst (λ r. r.start ≤ℤ e) er sol.end_above;
  end_below = subst (λ r. e ≤ℤ r.end) er sol.end_below;
  long_enough = subst (λ z. z ≤ℤ l) mi sol.long_enough;
  short_enough = subst (λ z. l ≤ℤ z) ma sol.short_enough;
}

-- `constraint_new` on sound parts makes a sound constraint that the same valid regions satisfy.
pub constraint_new-IsFor :
    (p : Parts)
    → IsSound p
    → Returns
        (constraint_new
          (some p.start_align)
          (some p.end_align)
          p.start_range
          p.end_range
          p.min_size
          p.max_size)
        (IsFor (SolvedBy p))
unfolding constraint_new
constraint_new-IsFor p sound =
    let (sa, es, ns, ss) = duplicate_lem p.start_align sound.start_grain in
    let (ea, ee, ne, se) = duplicate_lem p.end_align sound.end_grain in
    let q : Parts = record p { start_align = sa; end_align = ea } in
    let min_test : ltb_ℤ (pos 0) p.min_size ≡ true = ground (arith, sound.min_pos) in
    let max_test : ltb_ℤ (pos 0) p.max_size ≡ true = ground (arith, sound.max_pos) in
    rw
      (
        min_test,
        max_test,
        geometry_duplicate_eq p.start_range sound.start_valid,
        geometry_duplicate_eq p.end_range sound.end_valid,
        es,
        ee,
      )
      (
        q,
        refl,
        record {
          start_grain = ns;
          end_grain = ne;
          start_valid = sound.start_valid;
          end_valid = sound.end_valid;
          min_pos = sound.min_pos;
          max_pos = sound.max_pos;
        },
        λ g v. (
          Solves-map q p _ _ _ (λ s. (ss g.start).0 s) (λ s. (se g.end).0 s) refl refl refl refl,
          Solves-map p q _ _ _ (λ s. (ss g.start).1 s) (λ s. (se g.end).1 s) refl refl refl refl,
        ),
      )

pub IsFor-map :
    (S T : Geometry → Type 0)
    → ((g : Geometry) → IsValid g → S g ↔ T g)
    → (c : Option Constraint) → IsFor S c
    → IsFor T c
IsFor-map S T h none n = n
IsFor-map S T h (some c) (p, e, sound, iff) =
    (p, e, sound, λ g v. (λ s. (h g v).0 ((iff g v).0 s), λ s. (iff g v).1 ((h g v).1 s)))

pub constraint_duplicate-IsFor :
    (p : Parts) → IsSound p → Returns (constraint_duplicate (whole p)) (IsFor (SolvedBy p))
unfolding constraint_duplicate
constraint_duplicate-IsFor p sound = constraint_new-IsFor p sound
