-- ===== src/Constraint/Made.antt =====
-- The parts of the constraints that `constraint_new` and `constraint_intersect` make.
use parted.Prelude.{
  ℕ, zero, suc, ◌^◌, ◌≤◌, ◌<◌, ◌%◌, ◌≢◌, ◌≡◌, ◌↔◌, Option, true, none, some, refl, arith, ap, ◌∙◌,
  subst, sym, Bool-cases, inl, inr,
}
use parted.Prelude.Int.{
  ℤ, pos, negsuc, abs_ℕ, abs_ℕ-%ℤ, ◌%ℤ◌, ◌<ℤ◌, ◌==ℤ◌, ==ℤ_iff, ◌≤ℤ◌, ltb_ℤ, int_laws, max_ℤ, min_ℤ,
}
use parted.Prelude.Run.{done, Returns, OrNull, Returns→done, or_null}
use parted.Geom.{Geometry, geometry_intersect}
use parted.Geom.Valid.{IsValid, geometry_duplicate_eq}
use parted.NatMath.Bezout.{abs_ℕ-+ℤ}
use parted.NatMath.Width.{abs_short}
use parted.NatMath.{Alignment, alignment_duplicate, alignment_new, alignment_init, abs_mod}
use native.Mathlib.Nat
use mathlib.Core.Option.{some-injective}
use parted.NatMath.Aligned.{Satisfies, Normalises, alignment_new-Normalises}
use parted.NatMath.Intersect.{IsNarrow, IsMeet, alignment_intersect-IsMeet}
use parted.Constraint.{Constraint, constraint_new, constraint_intersect, alignment_intersect}
use parted.Constraint.Solution.{Parts, whole, IsSound, SolvedBy}
use parted.Constraint.Builders.{Solves-map}
use parted.Constraint.Intersection.{IsCommon, constraint_intersect-IsCommon}

-- The same ranges, grains and solutions.
pub record IsCopy (p q : Parts) : Type 0 where
  pub sound : IsSound q
  pub start_range : q.start_range ≡ p.start_range
  pub end_range : q.end_range ≡ p.end_range
  pub start_grain : q.start_align.grain_size ≡ p.start_align.grain_size
  pub end_grain : q.end_align.grain_size ≡ p.end_align.grain_size
  pub solutions : (g : Geometry) → SolvedBy q g ↔ SolvedBy p g
  pub start_narrow : IsNarrow p.start_align → IsNarrow q.start_align
  pub end_narrow : IsNarrow p.end_align → IsNarrow q.end_align

abs_mod_short :
    (o g : ℤ) → pos 0 ≤ℤ g → g <ℤ pos (2 ^ 15) → g ≢ pos 0 → abs_ℕ (abs_mod o g) ≤ 2 ^ 32
unfolding abs_mod
abs_mod_short o g nonneg lt ne =
    let rest : abs_ℕ (o %ℤ g) ≤ abs_ℕ g =
      subst (λ n. n ≤ abs_ℕ g) (sym (abs_ℕ-%ℤ o g)) (short (abs_ℕ o) (abs_ℕ g) (positive g ne)) in
    let sum = abs_ℕ-+ℤ (o %ℤ g) g in
    let size = abs_short g nonneg lt in ground (arith, rest, sum, size)
  where
    positive : (g : ℤ) → g ≢ pos 0 → 0 < abs_ℕ g
    positive (pos zero) ne = absurd (ne refl)
    positive (pos (suc n)) ne = omega arith
    positive (negsuc n) ne = omega arith

    short : (n m : ℕ) → 0 < m → n % m ≤ m
    short n m h = omega (arith, Nat.mod-lt n h)

-- An alignment with a short grain, and with a short offset where the grain is 0, is narrow.
pub alignment_new-IsNarrow :
    (o g : ℤ)
    → pos 0 ≤ℤ g
    → g <ℤ pos (2 ^ 15)
    → (g ≡ pos 0 → abs_ℕ o ≤ 2 ^ 32)
    → (a : Alignment) → alignment_new o g ≡ some a
    → IsNarrow a
unfolding alignment_new alignment_init
alignment_new-IsNarrow o g nonneg lt short a made = elim (Bool-cases (g ==ℤ pos 0)) [
  | inl zero_grain ↦
      let as_given : alignment_new o g ≡ some (record { offset = o; grain_size = g }) =
        ground arith in
      subst IsNarrow (some-injective _ _ (sym as_given ∙ made))
        (nonneg, lt, short ((==ℤ_iff g (pos 0)).0 zero_grain))
  | inr grain ↦
      let reduced : alignment_new o g ≡ some (record { offset = abs_mod o g; grain_size = g }) =
        ground arith in
      subst IsNarrow (some-injective _ _ (sym reduced ∙ made))
        (nonneg, lt, abs_mod_short o g nonneg lt (λ e. cc (grain, (==ℤ_iff g (pos 0)).1 e)))
]

duplicate_lem :
    (a : Alignment)
    → pos 0 ≤ℤ a.grain_size
    → (b : Alignment) × (alignment_duplicate (some a) ≡ some b)
      × (b.grain_size ≡ a.grain_size)
      × ((s : ℤ) → Satisfies b s ↔ Satisfies a s)
      × (IsNarrow a → IsNarrow b)
unfolding alignment_duplicate
duplicate_lem a nonneg =
    go (alignment_new a.offset a.grain_size) refl (alignment_new-Normalises a.offset a.grain_size)
  where
    go :
        (r : Option Alignment)
        → alignment_new a.offset a.grain_size ≡ r
        → Normalises a.offset a.grain_size r
        → (b : Alignment) × (alignment_new a.offset a.grain_size ≡ some b)
          × (b.grain_size ≡ a.grain_size)
          × ((s : ℤ) → Satisfies b s ↔ Satisfies a s)
          × (IsNarrow a → IsNarrow b)
    go none e negative = absurd (omega arith)
    go (some b) e (h, same, sat) = (
      b,
      e,
      same,
      sat,
      λ (na, lt, short). alignment_new-IsNarrow a.offset a.grain_size na lt (λ z. short) b e,
    )

-- `constraint_new` on sound parts makes a copy of them.
pub constraint_new-IsCopy :
    (p : Parts)
    → IsSound p
    → (q : Parts) × (constraint_new
          (some p.start_align)
          (some p.end_align)
          p.start_range
          p.end_range
          p.min_size
          p.max_size
        ≡ done (some (whole q)))
      × IsCopy p q
unfolding constraint_new
constraint_new-IsCopy p sound =
    let (sa, es, gs, ss, ns) = duplicate_lem p.start_align sound.start_grain in
    let (ea, ee, ge, se, ne) = duplicate_lem p.end_align sound.end_grain in
    let q : Parts = record p { start_align = sa; end_align = ea } in
    let min_test : ltb_ℤ (pos 0) p.min_size ≡ true = ground (arith, sound.min_pos) in
    let max_test : ltb_ℤ (pos 0) p.max_size ≡ true = ground (arith, sound.max_pos) in
    (
      q,
      rw
          (
            min_test,
            max_test,
            geometry_duplicate_eq p.start_range sound.start_valid,
            geometry_duplicate_eq p.end_range sound.end_valid,
            es,
            ee,
          )
          refl,
      record {
        sound = record {
          start_grain = rw gs sound.start_grain;
          end_grain = rw ge sound.end_grain;
          start_valid = sound.start_valid;
          end_valid = sound.end_valid;
          min_pos = sound.min_pos;
          max_pos = sound.max_pos;
        };
        start_range = refl;
        end_range = refl;
        start_grain = gs;
        end_grain = ge;
        solutions = λ g. (
          Solves-map q p _ _ _ (λ s. (ss g.start).0 s) (λ s. (se g.end).0 s) refl refl refl refl,
          Solves-map p q _ _ _ (λ s. (ss g.start).1 s) (λ s. (se g.end).1 s) refl refl refl refl,
        );
        start_narrow = ns;
        end_narrow = ne;
      },
    )

-- The ranges of an intersection lie in those of the two constraints.
pub record IsWithin (a b q : Parts) : Type 0 where
  pub start_dev : q.start_range.dev ≡ a.start_range.dev
  pub end_dev : q.end_range.dev ≡ a.end_range.dev
  pub end_end : q.end_range.end ≤ℤ a.end_range.end
  pub end_below : q.end_range.end ≤ℤ b.end_range.end

-- NULL, or a constraint of parts.
abbrev pub MadeOf : (Parts → Type 0) → Option Constraint → Type 0
MadeOf P none = Unit {0}
MadeOf P (some c) = (q : Parts) × (c ≡ whole q) × P q

geometry_intersect-lies :
    (a b : Geometry)
    → IsValid a
    → IsValid b
    → Returns
        (geometry_intersect (some a) (some b))
        (OrNull (λ r. IsValid r × (r.dev ≡ a.dev) × (r.end ≤ℤ a.end) × (r.end ≤ℤ b.end)))
unfolding geometry_intersect
geometry_intersect-lies a b va vb = grind int_laws

whole_injective : {p q : Parts} → whole p ≡ whole q → p ≡ q
whole_injective e = cc e

-- What is known of the intersection of two constraints.
pub record IsIntersection (a b q : Parts) : Type 0 where
  pub sound : IsSound q
  pub within : IsWithin a b q
  pub solutions : (g : Geometry) → IsValid g → SolvedBy q g ↔ (SolvedBy a g × SolvedBy b g)

module _ (a b : Parts) (sa : IsSound a) (sb : IsSound b) where
  range_of :
      (g h : Geometry)
      → IsValid g
      → IsValid h
      → (r : Option Geometry) × (geometry_intersect (some g) (some h) ≡ done r)
        × OrNull (λ r. IsValid r × (r.dev ≡ g.dev) × (r.end ≤ℤ g.end) × (r.end ≤ℤ h.end)) r
  range_of g h vg vh = Returns→done _ _ (geometry_intersect-lies g h vg vh)

  some-IsWithin :
      (ca ce : Alignment) (sr er : Geometry)
      → pos 0 ≤ℤ ca.grain_size
      → pos 0 ≤ℤ ce.grain_size
      → IsValid sr
        × (sr.dev ≡ a.start_range.dev)
        × (sr.end ≤ℤ a.start_range.end)
        × (sr.end ≤ℤ b.start_range.end)
      → IsValid er
        × (er.dev ≡ a.end_range.dev)
        × (er.end ≤ℤ a.end_range.end)
        × (er.end ≤ℤ b.end_range.end)
      → Returns
          (constraint_new
            (some ca)
            (some ce)
            sr
            er
            (max_ℤ a.min_size b.min_size)
            (min_ℤ a.max_size b.max_size))
          (MadeOf (IsWithin a b))
  some-IsWithin ca ce sr er ms me rs re =
      let p : Parts = record {
        start_align = ca;
        end_align = ce;
        start_range = sr;
        end_range = er;
        min_size = max_ℤ a.min_size b.min_size;
        max_size = min_ℤ a.max_size b.max_size;
      } in
      let (q, eq, copy) = constraint_new-IsCopy p (record {
        start_grain = ms;
        end_grain = me;
        start_valid = rs.0;
        end_valid = re.0;
        min_pos = ground (arith, sa.min_pos, sb.min_pos);
        max_pos = ground (arith, sa.max_pos, sb.max_pos);
      }) in
      rw eq (
        q,
        refl,
        record {
          start_dev = ap (λ (g : Geometry). g.dev) copy.start_range ∙ rs.1;
          end_dev = ap (λ (g : Geometry). g.dev) copy.end_range ∙ re.1;
          end_end = subst (λ (g : Geometry). g.end ≤ℤ a.end_range.end) (sym copy.end_range) re.2;
          end_below = subst (λ (g : Geometry). g.end ≤ℤ b.end_range.end) (sym copy.end_range) re.3;
        },
      )

  constraint_intersect-IsWithin :
      IsNarrow a.start_align
      → IsNarrow b.start_align
      → IsNarrow a.end_align
      → IsNarrow b.end_align
      → Returns (constraint_intersect (some (whole a)) (some (whole b))) (MadeOf (IsWithin a b))
  unfolding constraint_intersect
  constraint_intersect-IsWithin nas nbs nae nbe =
      let (ca, eq1, ms) : (r : Option Alignment) × (alignment_intersect (some a.start_align)
              (some b.start_align)
            ≡ done r)
          × IsMeet a.start_align b.start_align r =
        Returns→done _ _ (alignment_intersect-IsMeet a.start_align b.start_align nas nbs) in
      let (ce, eq2, me) : (r : Option Alignment) × (alignment_intersect (some a.end_align)
              (some b.end_align)
            ≡ done r)
          × IsMeet a.end_align b.end_align r =
        Returns→done _ _ (alignment_intersect-IsMeet a.end_align b.end_align nae nbe) in
      let (sr, eq3, rs) = range_of a.start_range b.start_range sa.start_valid sb.start_valid in
      let (er, eq4, re) = range_of a.end_range b.end_range sa.end_valid sb.end_valid in
      rw (eq1, eq2, eq3, eq4) (go ca ce sr er ms me rs re)
    where
      go :
          (ca ce : Option Alignment) (sr er : Option Geometry)
          → IsMeet a.start_align b.start_align ca
          → IsMeet a.end_align b.end_align ce
          → OrNull
              (λ r.
                IsValid r
                × (r.dev ≡ a.start_range.dev)
                × (r.end ≤ℤ a.start_range.end)
                × (r.end ≤ℤ b.start_range.end))
              sr
          → OrNull
              (λ r.
                IsValid r
                × (r.dev ≡ a.end_range.dev)
                × (r.end ≤ℤ a.end_range.end)
                × (r.end ≤ℤ b.end_range.end))
              er
          → Returns
              (or_null (done ca) (λ ca. or_null (done ce) (λ ce. or_null (done sr) (λ sr.
                or_null (done er) (λ er.
                  constraint_new
                    (some ca)
                    (some ce)
                    sr
                    er
                    (max_ℤ a.min_size b.min_size)
                    (min_ℤ a.max_size b.max_size))))))
              (MadeOf (IsWithin a b))
      go none ce sr er ms me rs re = tt
      go (some ca) none sr er ms me rs re = tt
      go (some ca) (some ce) none er ms me rs re = tt
      go (some ca) (some ce) (some sr) none ms me rs re = tt
      go (some ca) (some ce) (some sr) (some er) ms me rs re =
          some-IsWithin ca ce sr er ms.0 me.0 rs re

  -- Two sound constraints, their ranges on the same devices and with narrow grains.
  pub constraint_intersect-IsIntersection :
      IsNarrow a.start_align
      → IsNarrow b.start_align
      → IsNarrow a.end_align
      → IsNarrow b.end_align
      → a.start_range.dev ≡ b.start_range.dev
      → a.end_range.dev ≡ b.end_range.dev
      → Returns
          (constraint_intersect (some (whole a)) (some (whole b)))
          (MadeOf (IsIntersection a b))
  constraint_intersect-IsIntersection nas nbs nae nbe ds de =
      let (r, eq, within) : (r : Option Constraint) × (constraint_intersect (some (whole a))
              (some (whole b))
            ≡ done r)
          × MadeOf (IsWithin a b) r =
        Returns→done _ _ (constraint_intersect-IsWithin nas nbs nae nbe) in
      let common : IsCommon a b r =
        subst (λ m. Returns m (IsCommon a b)) eq
          (constraint_intersect-IsCommon a b sa sb nas nbs nae nbe ds de) in
      rw eq (both r within common)
    where
      both :
          (r : Option Constraint)
          → MadeOf (IsWithin a b) r
          → IsCommon a b r
          → MadeOf (IsIntersection a b) r
      both none _ _ = tt
      both (some c) (q, eq, within) (p, eq', sound, iff) =
          let same : p ≡ q = whole_injective (sym eq' ∙ eq) in
          (
            q,
            eq,
            record {
              sound = subst IsSound same sound;
              within = within;
              solutions =
                  subst
                    (λ (t : Parts).
                      (g : Geometry) → IsValid g → SolvedBy t g ↔ (SolvedBy a g × SolvedBy b g))
                    same iff;
            },
          )
