-- ===== src/NatMath/Align.antt =====
-- The aligned sectors of a region, and the functions that choose one: `closest_inside_geometry`,
-- `alignment_align_up` and `alignment_align_down`.
use parted.Prelude.{
  ℕ, zero, suc, ◌≡◌, ◌≢◌, ◌⊎◌, inl, inr, ◌+◌, ◌*◌, ◌≤◌, ◌<◌, Bool-cases, ap, subst, ◌∙◌, refl,
  arith, dec_lt,
}
use parted.Prelude.Int.{
  ℤ, pos, negsuc, pos_part, neg_part, abs_ℕ, ◌+ℤ◌, ◌-ℤ◌, ◌≤ℤ◌, ◌<ℤ◌, ltb_ℤ, ◌==ℤ◌, ==ℤ_iff,
  int_laws, ◌∣ℤ◌, ∣ℤ-+ℤ, ∣ℤ--ℤ, ∣ℤ_cong, ∣ℤ-zero, abs_ℕ-*ℤ, abs_ℕ_lem, parts_of_eq, parts_disjoint,
}
use native.Mathlib.Decide.{dec_le}
use parted.Geom.{Geometry, geometry_test_sector_inside}
use parted.Geom.Valid.{IsValid, start-le-end}
use parted.NatMath.{Alignment, raised, lowered, closest_inside_geometry, alignment_is_aligned}
use parted.NatMath.Rounding.{round_up_to-RoundsUp}
use parted.NatMath.Aligned.{Satisfies, zero-∣ℤ}

-- An aligned sector of a region.
abbrev pub InSet : Alignment → Geometry → ℤ → Type 0
InSet a g s = Satisfies a s × (g.start ≤ℤ s) × (s ≤ℤ g.end)

-- `r` is an aligned sector of the region that compares with each other one as `Q` says, or it is
-- -1 and the region has no aligned sector.
abbrev pub Chooses : Alignment → Geometry → ℤ → (ℤ → Type 0) → Type 0
Chooses a g r Q =
    (InSet a g r × ((t : ℤ) → InSet a g t → Q t)) ⊎ ((r ≡ negsuc 0) × ((t : ℤ) → ¬ InSet a g t))

pub chosen :
    (a : Alignment) (g : Geometry) (r : ℤ) (Q : ℤ → Type 0)
    → Chooses a g r Q
    → r ≢ negsuc 0
    → InSet a g r × ((t : ℤ) → InSet a g t → Q t)
chosen a g r Q (inl c) ne = c
chosen a g r Q (inr (e, n)) ne = absurd (ne e)

-- In a valid region -1 is no sector.
pub not_chosen :
    (a : Alignment) (g : Geometry) (r : ℤ) (Q : ℤ → Type 0)
    → IsValid g
    → Chooses a g r Q
    → r ≡ negsuc 0
    → (t : ℤ) → ¬ InSet a g t
not_chosen a g r Q v (inl (i, h)) e = absurd (omega (arith, i.1, v.not_negative, parts_of_eq e))
not_chosen a g r Q v (inr (e', n)) e = n

pos_of_mul : (k g z : ℕ) → z ≡ k * g → 0 < z → g ≤ z
pos_of_mul zero g z h p = absurd (omega arith)
pos_of_mul (suc k) g z h p = omega arith

-- A positive multiple of the grain is at least the grain.
multiple_gap : (g z : ℤ) → pos 0 <ℤ g → g ∣ℤ z → pos 0 <ℤ z → g ≤ℤ z
multiple_gap g z hg (k, e) hz =
    let sizes =
      pos_of_mul (abs_ℕ k) (abs_ℕ g) (abs_ℕ z) (ap abs_ℕ e ∙ abs_ℕ-*ℤ k g)
        (omega (arith, abs_ℕ_lem z)) in
    omega (arith, sizes, abs_ℕ_lem z, abs_ℕ_lem g, parts_disjoint z, parts_disjoint g)

-- Two aligned sectors are a grain apart.
apart :
    (a : Alignment) (s t : ℤ)
    → pos 0 <ℤ a.grain_size
    → Satisfies a s
    → Satisfies a t
    → s <ℤ t
    → s +ℤ a.grain_size ≤ℤ t
apart a s t h p q lt = omega (
  int_laws,
  multiple_gap a.grain_size (t -ℤ s) h
      (∣ℤ_cong a.grain_size {a = t -ℤ a.offset -ℤ (s -ℤ a.offset)} (omega int_laws)
        (∣ℤ--ℤ _ _ _ q p))
      (omega int_laws),
)

shifted_up : (a : Alignment) (s k : ℤ) → Satisfies a s → a.grain_size ∣ℤ k → Satisfies a (s +ℤ k)
shifted_up a s k p d =
    ∣ℤ_cong a.grain_size {a = s -ℤ a.offset +ℤ k} (omega int_laws) (∣ℤ-+ℤ _ _ _ p d)

shifted_down : (a : Alignment) (s k : ℤ) → Satisfies a s → a.grain_size ∣ℤ k → Satisfies a (s -ℤ k)
shifted_down a s k p d =
    ∣ℤ_cong a.grain_size {a = s -ℤ a.offset -ℤ k} (omega int_laws) (∣ℤ--ℤ _ _ _ p d)

raised_lem :
    (a : Alignment) (g : Geometry) (u : ℤ)
    → pos 0 <ℤ a.grain_size
    → Satisfies a u
    → u <ℤ g.start
    → Satisfies a (raised a g u)
      × (g.start ≤ℤ raised a g u)
      × (raised a g u <ℤ g.start +ℤ a.grain_size)
unfolding raised
raised_lem a g u h su lt =
    let (multiple, low, high) = round_up_to-RoundsUp (g.start -ℤ u) a.grain_size h in
    elim (Bool-cases (ltb_ℤ u g.start)) [
      | inl yes' ↦ rw yes' (shifted_up a u _ su multiple, omega int_laws, omega int_laws)
      | inr no' ↦ absurd (ground arith)
    ]

lowered_lem :
    (a : Alignment) (g : Geometry) (u : ℤ)
    → pos 0 <ℤ a.grain_size
    → Satisfies a u
    → g.end <ℤ u
    → Satisfies a (lowered a g u)
      × (lowered a g u ≤ℤ g.end)
      × (g.end <ℤ lowered a g u +ℤ a.grain_size)
unfolding lowered
lowered_lem a g u h su lt =
    let (multiple, low, high) = round_up_to-RoundsUp (u -ℤ g.end) a.grain_size h in
    elim (Bool-cases (ltb_ℤ g.end u)) [
      | inl yes' ↦ rw yes' (shifted_down a u _ su multiple, omega int_laws, omega int_laws)
      | inr no' ↦ absurd (ground arith)
    ]

raised_stays : (a : Alignment) (g : Geometry) (u : ℤ) → g.start ≤ℤ u → raised a g u ≡ u
unfolding raised
raised_stays a g u h = ground arith

lowered_stays : (a : Alignment) (g : Geometry) (u : ℤ) → u ≤ℤ g.end → lowered a g u ≡ u
unfolding lowered
lowered_stays a g u h = ground arith

-- No aligned sector lies between another and the next.
pub le_of_gap :
    (a : Alignment) (s t : ℤ)
    → pos 0 <ℤ a.grain_size
    → Satisfies a s
    → Satisfies a t
    → t <ℤ s +ℤ a.grain_size
    → t ≤ℤ s
le_of_gap a s t h p q lt = elim (dec_lt (pos_part s + neg_part t) (pos_part t + neg_part s)) [
  | yes above ↦ absurd (omega (arith, apart a s t h p q above))
  | no below ↦ omega arith
]

-- With a grain the function returns the moved sector or -1.
moved_cases :
    (a : Alignment) (g : Geometry) (u m : ℤ)
    → a.grain_size ≢ pos 0
    → lowered a g (raised a g u) ≡ m
    → ((closest_inside_geometry a g u ≡ m) × (g.start ≤ℤ m) × (m ≤ℤ g.end))
      ⊎ ((closest_inside_geometry a g u ≡ negsuc 0) × ((m <ℤ g.start) ⊎ (g.end <ℤ m)))
unfolding closest_inside_geometry geometry_test_sector_inside
moved_cases a g u m ne e = elim (Bool-cases (a.grain_size ==ℤ pos 0)) [
  | inl single ↦ absurd (ne ((==ℤ_iff a.grain_size (pos 0)).0 single))
  | inr many ↦ rw (many, e) (ground arith)
]

-- The sector between `u` and `t`, or one of them.
abbrev pub Between : ℤ → ℤ → ℤ → Type 0
Between u r t = (u ≤ℤ t → (u ≤ℤ r) × (r ≤ℤ t)) × (t ≤ℤ u → (t ≤ℤ r) × (r ≤ℤ u))

module _ (a : Alignment) (g : Geometry) (v : IsValid g) (h : pos 0 <ℤ a.grain_size) (u : ℤ)
    (su : Satisfies a u) where
  abbrev Result : ℤ → Type 0
  Result r = Chooses a g r (Between u r)

  has_grain : a.grain_size ≢ pos 0
  has_grain e = omega (arith, parts_of_eq e)

  below_region : u <ℤ g.start → Result (closest_inside_geometry a g u)
  below_region lt =
      let (aligned, low, high) = raised_lem a g u h su lt in
      let first : (t : ℤ) → Satisfies a t → g.start ≤ℤ t → raised a g u ≤ℤ t =
        λ t st ge. le_of_gap a t (raised a g u) h st aligned (omega int_laws) in
      elim (dec_le (pos_part (raised a g u) + neg_part g.end)
        (pos_part g.end + neg_part (raised a g u))) [
          | yes fits ↦
              elim (moved_cases a g u (raised a g u) has_grain
                (lowered_stays a g (raised a g u) fits)) [
                  | inl (e, lo, hi) ↦ rw e (
                      inl (
                        (aligned, lo, hi),
                        λ t (st, p, q).
                            (λ l. (omega arith, first t st p), λ l. absurd (omega arith)),
                      ))
                  | inr (e, out) ↦ absurd (ground arith)
                ]
          | no past ↦
              let (sl, end_l, gap) = lowered_lem a g (raised a g u) h aligned (omega arith) in
              elim (moved_cases a g u (lowered a g (raised a g u)) has_grain refl) [
                | inl (e, lo, hi) ↦ absurd (omega (arith, first _ sl lo))
                | inr (e, out) ↦
                    rw e (inr (refl, λ t (st, p, q). absurd (omega (arith, first t st p))))
              ]
        ]

  in_region : g.start ≤ℤ u → u ≤ℤ g.end → Result (closest_inside_geometry a g u)
  in_region p q =
      elim (moved_cases a g u u has_grain (rw (raised_stays a g u p) (lowered_stays a g u q))) [
        | inl (e, lo, hi) ↦
            rw e (inl ((su, p, q), λ t k. (λ l. (omega arith, l), λ l. (l, omega arith))))
        | inr (e, out) ↦ absurd (ground arith)
      ]

  above_region : g.end <ℤ u → Result (closest_inside_geometry a g u)
  above_region lt =
      let (aligned, low, high) = lowered_lem a g u h su lt in
      let last : (t : ℤ) → Satisfies a t → t ≤ℤ g.end → t ≤ℤ lowered a g u =
        λ t st le. le_of_gap a (lowered a g u) t h aligned st (omega int_laws) in
      let same : raised a g u ≡ u = raised_stays a g u (omega (arith, start-le-end v)) in
      elim (moved_cases a g u (lowered a g u) has_grain (ap (lowered a g) same)) [
        | inl (e, lo, hi) ↦ rw e (
            inl (
              (aligned, lo, hi),
              λ t (st, p, q). (λ l. absurd (omega arith), λ l. (last t st q, omega arith)),
            ))
        | inr (e, out) ↦ rw e (inr (refl, λ t (st, p, q). absurd (omega (arith, last t st q))))
      ]

  -- The choice that starts from an aligned sector.
  pub closest_inside_geometry-Result : Result (closest_inside_geometry a g u)
  closest_inside_geometry-Result =
      elim (dec_lt (pos_part u + neg_part g.start) (pos_part g.start + neg_part u)) [
        | yes lt ↦ below_region lt
        | no ge ↦ elim (dec_lt (pos_part g.end + neg_part u) (pos_part u + neg_part g.end)) [
          | yes gt ↦ above_region gt
          | no le ↦ in_region (omega arith) (omega arith)
        ]
      ]

single_cases :
    (a : Alignment) (g : Geometry)
    → a.grain_size ≡ pos 0
    → ((closest_inside_geometry a g a.offset ≡ a.offset)
        × (g.start ≤ℤ a.offset)
        × (a.offset ≤ℤ g.end))
      ⊎ ((closest_inside_geometry a g a.offset ≡ negsuc 0)
          × ((a.offset <ℤ g.start) ⊎ (g.end <ℤ a.offset)))
unfolding closest_inside_geometry alignment_is_aligned geometry_test_sector_inside
single_cases a g e = ground arith

-- Without a grain the offset is the one aligned sector.
pub closest_inside_geometry-single :
    (a : Alignment) (g : Geometry)
    → a.grain_size ≡ pos 0
    → Chooses a g (closest_inside_geometry a g a.offset) (λ t. t ≡ a.offset)
closest_inside_geometry-single a g e = elim (single_cases a g e) [
  | inl (kept, lo, hi) ↦ rw kept (
      inl
        ((∣ℤ_cong a.grain_size (omega int_laws) (∣ℤ-zero a.grain_size), lo, hi), λ t k. only t k.0))
  | inr (failed, out) ↦ rw failed (inr (refl, λ t k. outside t (only t k.0) k.1 k.2 out))
]
  where
    only : (t : ℤ) → Satisfies a t → t ≡ a.offset
    only t d =
        let none_left : t -ℤ a.offset ≡ pos 0 = zero-∣ℤ _ (subst (λ n. n ∣ℤ t -ℤ a.offset) e d) in
        omega (int_laws, parts_of_eq none_left)

    outside :
        (t : ℤ)
        → t ≡ a.offset
        → g.start ≤ℤ t
        → t ≤ℤ g.end
        → (a.offset <ℤ g.start) ⊎ (g.end <ℤ a.offset)
        → ⊥
    outside t same p q out = omega (arith, parts_of_eq same)
