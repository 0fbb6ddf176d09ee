-- ===== src/Constraint/Canonical.antt =====
-- The range of the starts: `_constraint_get_canonical_start_range`.
use parted.Prelude.{◌≡◌, ◌≢◌, ◌⊎◌, Bool-cases, inl, inr, Option, none, some, refl, arith}
use parted.Prelude.Int.{
  ℤ, pos, negsuc, ◌+ℤ◌, ◌-ℤ◌, ◌≤ℤ◌, ◌<ℤ◌, ltb_ℤ, ltb_ℤ_iff, ltb_ℤ_false, not_ltb_ℤ, ◌==ℤ◌, ==ℤ_iff,
  int_laws,
}
use parted.Prelude.Run.{done, Returns, Returns→done}
use parted.Geom.{Geometry}
use parted.NatMath.{alignment_align_up, alignment_align_down}
use parted.NatMath.Align.{InSet, Chooses, chosen, not_chosen}
use parted.NatMath.Sides.{IsUp}
use parted.NatMath.Nearest.{alignment_align_up-IsUp, alignment_align_down-first}
use parted.Constraint.{canonical_starts, get_canonical_start_range}
use parted.Constraint.Solution.{Parts, whole, IsSound, Solves}
use parted.Constraint.Starts.{IsStart, IsRange, canonical_starts-IsRange}

-- The first and the last sector at which a region may end.
pub record AreEnds (p : Parts) (first last : ℤ) : Type 0 where
  pub first_in : InSet p.end_align p.end_range first
  pub last_in : InSet p.end_align p.end_range last
  pub first_least : (t : ℤ) → InSet p.end_align p.end_range t → first ≤ℤ t
  pub last_greatest : (t : ℤ) → InSet p.end_align p.end_range t → t ≤ℤ last

-- No region satisfies the constraint.
abbrev pub HasNone : Parts → Type 0
HasNone p = (s e : ℤ) → ¬ Solves p s e (e -ℤ s +ℤ pos 1)

-- What the range of the starts is. It is NULL if the constraint has no solution, and also if the
-- last possible end is below the minimal size.
abbrev pub IsCanonical : Parts → Option Geometry → Type 0
IsCanonical p none =
    HasNone p ⊎ ((first : ℤ) × (last : ℤ) × AreEnds p first last × (last <ℤ p.min_size))
IsCanonical p (some range) =
    (first : ℤ) × (last : ℤ) × AreEnds p first last
    × IsRange (IsStart p first last) (some range)
    × (p.min_size ≤ℤ p.max_size)

pub Solves-IsStart :
    (p : Parts) (first last s e : ℤ)
    → IsSound p
    → AreEnds p first last
    → Solves p s e (e -ℤ s +ℤ pos 1)
    → IsStart p first last s
Solves-IsStart p first last s e sound ends sol =
    let at_end : InSet p.end_align p.end_range e =
      (sol.end_aligned, sol.end_above, sol.end_below) in
    record {
      nonneg = omega (arith, sol.start_above, sound.start_valid.not_negative);
      reaches = omega (int_laws, sol.short_enough, ends.first_least e at_end);
      fits = omega (int_laws, sol.long_enough, ends.last_greatest e at_end);
      above = sol.start_above;
      below = sol.start_below;
    }

module _ (p : Parts) (sound : IsSound p) where
  first_end : ℤ
  first_end = alignment_align_down p.end_align (some p.end_range) p.end_range.start

  unfoldable pub last_end : ℤ
  last_end = alignment_align_up p.end_align (some p.end_range) p.end_range.end

  first_choice : Chooses p.end_align p.end_range first_end (λ t. first_end ≤ℤ t)
  unfolding first_end
  first_choice =
      alignment_align_down-first p.end_align p.end_range sound.end_valid p.end_range.start
        sound.end_grain refl

  pub last_choice : Chooses p.end_align p.end_range last_end (IsUp p.end_range.end last_end)
  unfolding last_end
  last_choice =
      alignment_align_up-IsUp p.end_align p.end_range sound.end_valid p.end_range.end
        sound.end_grain

  no_ends : ((t : ℤ) → ¬ InSet p.end_align p.end_range t) → HasNone p
  no_ends n s e sol = n e (sol.end_aligned, sol.end_above, sol.end_below)

  ends_of : first_end ≢ negsuc 0 → last_end ≢ negsuc 0 → AreEnds p first_end last_end
  ends_of nf nl =
      let (first_in, least) = chosen p.end_align p.end_range first_end _ first_choice nf in
      let (last_in, up) = chosen p.end_align p.end_range last_end _ last_choice nl in
      record {
        first_in = first_in;
        last_in = last_in;
        first_least = least;
        last_greatest = λ t i. (up t i).1 i.2;
      }

  starts_range-IsCanonical :
      (r : Option Geometry)
      → AreEnds p first_end last_end
      → p.min_size ≤ℤ p.max_size
      → IsRange (IsStart p first_end last_end) r
      → IsCanonical p r
  starts_range-IsCanonical none ends le_size n =
      inl (λ s e sol. n s (Solves-IsStart p first_end last_end s e sound ends sol))
  starts_range-IsCanonical (some range) ends le_size h = (first_end, last_end, ends, h, le_size)

  -- On a sound constraint `get_canonical_start_range` returns. A range that it returns is valid
  -- and holds exactly the sectors of the start range from which some region that ends between the
  -- first and the last aligned sector of the end range has a size in the bounds. It returns NULL
  -- only if no region satisfies the constraint, or the last aligned sector of the end range is
  -- below the minimal size.
  pub get_canonical_start_range-IsCanonical :
      Returns (get_canonical_start_range (whole p)) (IsCanonical p)
  unfolding get_canonical_start_range first_end last_end
  get_canonical_start_range-IsCanonical = elim (Bool-cases (ltb_ℤ p.max_size p.min_size)) [
    | inl crossed ↦ rw crossed (
        inl (λ s e sol.
          omega (
            arith,
            (ltb_ℤ_iff p.max_size p.min_size).0 crossed,
            sol.long_enough,
            sol.short_enough,
          )))
    | inr le_size ↦ rw le_size (elim (Bool-cases (first_end ==ℤ negsuc 0)) [
      | inl e ↦ rw e (
          inl (
            no_ends (
              not_chosen p.end_align p.end_range _ _ sound.end_valid first_choice
                ((==ℤ_iff first_end _).0 e))))
      | inr nf ↦ elim (Bool-cases (last_end ==ℤ negsuc 0)) [
        | inl e ↦
            rw (nf, e)
              (inl (
                no_ends (
                  not_chosen p.end_align p.end_range _ _ sound.end_valid last_choice
                    ((==ℤ_iff last_end _).0 e))))
        | inr nl ↦
            let ends : AreEnds p first_end last_end =
              ends_of (λ z. cc (nf, (==ℤ_iff first_end _).1 z))
                (λ z. cc (nl, (==ℤ_iff last_end _).1 z)) in
            let ordered : first_end ≤ℤ last_end = ends.first_least last_end ends.last_in in
            elim (Bool-cases (ltb_ℤ last_end p.min_size)) [
              | inl short ↦
                  rw (nf, nl, not_ltb_ℤ last_end first_end ordered, short)
                    (inr (first_end, last_end, ends, (ltb_ℤ_iff last_end p.min_size).0 short))
              | inr long ↦
                  let made : (r : Option Geometry) × (canonical_starts (whole p) p.start_range
                          first_end last_end
                        ≡ done r)
                      × IsRange (IsStart p first_end last_end) r =
                    Returns→done _ _ (
                      canonical_starts-IsRange p first_end last_end sound
                        (ltb_ℤ_false p.max_size p.min_size le_size) ordered) in
                  let (r, e, h) = made in
                  rw (nf, nl, not_ltb_ℤ last_end first_end ordered, long, e)
                    (starts_range-IsCanonical r ends (ltb_ℤ_false p.max_size p.min_size le_size) h)
            ]
      ]
    ])
  ]
