-- ===== src/NatMath/Nearest.antt =====
-- The choices of `alignment_align_up`, `alignment_align_down` and `alignment_align_nearest`.
use native.Mathlib.Decide.{dec_le}
use native.Mathlib.Nat.{le_refl}
use parted.Prelude.{ℕ, ◌≡◌, ◌≢◌, ◌⊎◌, inl, inr, ◌+◌, ◌≤◌, Bool-cases, some, refl, arith}
use parted.Prelude.Int.{
  ℤ, pos, negsuc, pos_part, neg_part, abs_ℕ, ◌-ℤ◌, ◌≤ℤ◌, ◌<ℤ◌, ◌==ℤ◌, ==ℤ_iff, int_laws,
  parts_of_eq, parts_disjoint,
}
use parted.Geom.{Geometry}
use parted.Geom.Valid.{IsValid}
use parted.NatMath.{
  Alignment, alignment_align_up, alignment_align_down, alignment_align_nearest, closest,
}
use parted.NatMath.Aligned.{Satisfies}
use parted.NatMath.Align.{
  InSet, Chooses, Between, closest_inside_geometry-Result, closest_inside_geometry-single,
}
use parted.NatMath.Sides.{
  ℤ_pos_cases, IsUp, IsDown, Chooses_map, up_start, down_start, up_start_lem, down_start_lem,
  up_single, up_many, down_single, down_many, single_IsUp, single_IsDown, Between-IsUp,
  Between-IsDown, down_multiple, down_start-le,
}

closest_none : (s : ℤ) → closest s (negsuc 0) (negsuc 0) ≡ negsuc 0
unfolding closest
closest_none s = refl

closest_cases :
    (s x y : ℤ)
    → x ≢ negsuc 0
    → y ≢ negsuc 0
    → ((closest s x y ≡ x) × (abs_ℕ (s -ℤ x) ≤ abs_ℕ (s -ℤ y)))
      ⊎ ((closest s x y ≡ y) × (abs_ℕ (s -ℤ y) ≤ abs_ℕ (s -ℤ x)))
unfolding closest
closest_cases s x y nx ny = elim (Bool-cases (x ==ℤ negsuc 0)) [
  | inl e ↦ absurd (nx ((==ℤ_iff x (negsuc 0)).0 e))
  | inr ex ↦ elim (Bool-cases (y ==ℤ negsuc 0)) [
    | inl e ↦ absurd (ny ((==ℤ_iff y (negsuc 0)).0 e))
    | inr ey ↦ rw (ex, ey) (ground arith)
  ]
]

distance-le_right : (s x t : ℤ) → s ≤ℤ x → x ≤ℤ t → abs_ℕ (s -ℤ x) ≤ abs_ℕ (s -ℤ t)
distance-le_right s x t p q = omega (int_laws, parts_disjoint (s -ℤ x), parts_disjoint (s -ℤ t))

distance-le_left : (s x t : ℤ) → t ≤ℤ x → x ≤ℤ s → abs_ℕ (s -ℤ x) ≤ abs_ℕ (s -ℤ t)
distance-le_left s x t p q = omega (int_laws, parts_disjoint (s -ℤ x), parts_disjoint (s -ℤ t))

-- The nearer of the sectors on both sides is at least as near as any other.
nearer :
    (s x y t : ℤ) (n : ℕ)
    → n ≤ abs_ℕ (s -ℤ x)
    → n ≤ abs_ℕ (s -ℤ y)
    → IsUp s x t
    → IsDown s y t
    → n ≤ abs_ℕ (s -ℤ t)
nearer s x y t n nx ny (up, _) (down, _) =
    elim (dec_le (pos_part s + neg_part t) (pos_part t + neg_part s)) [
      | yes le ↦ omega (arith, distance-le_right s x t (up le).0 (up le).1)
      | no gt ↦
          let below : t ≤ℤ s = omega arith in
          omega (arith, distance-le_left s y t (down below).0 (down below).1)
    ]

module _ (a : Alignment) (g : Geometry) (v : IsValid g) (s : ℤ) where
  -- In a valid region, for a grain that is not negative, `alignment_align_up` returns the first
  -- aligned sector of the region from `s` on; if there is none, the last one before `s`; and -1
  -- only if the region has no aligned sector.
  pub alignment_align_up-IsUp :
      pos 0 ≤ℤ a.grain_size
      → Chooses a g (alignment_align_up a (some g) s) (IsUp s (alignment_align_up a (some g) s))
  alignment_align_up-IsUp nonneg = elim (ℤ_pos_cases a.grain_size nonneg) [
    | inl single ↦
        rw (up_single a g s single)
          (single_IsUp a g s _ (closest_inside_geometry-single a g single))
    | inr h ↦ rw (up_many a g s (λ e. omega (arith, parts_of_eq e))) (
        Chooses_map a g _ _ _ (λ t st. Between-IsUp a g s h _ t st)
          (closest_inside_geometry-Result a g v h (up_start a g s) (up_start_lem a g s h).0))
  ]

  -- In a valid region, for a grain that is not negative and a sector that is not below the offset
  -- or not aligned, `alignment_align_down` returns the last aligned sector of the region up to
  -- `s`; if there is none, the first one behind `s`; and -1 only if the region has no aligned
  -- sector.
  pub alignment_align_down-IsDown :
      pos 0 ≤ℤ a.grain_size
      → (a.offset ≤ℤ s) ⊎ ¬ Satisfies a s
      → Chooses a g
          (alignment_align_down a (some g) s)
          (IsDown s (alignment_align_down a (some g) s))
  alignment_align_down-IsDown nonneg right = elim (ℤ_pos_cases a.grain_size nonneg) [
    | inl single ↦
        rw (down_single a g s single)
          (single_IsDown a g s _ (closest_inside_geometry-single a g single))
    | inr h ↦ rw (down_many a g s (λ e. omega (arith, parts_of_eq e))) (
        Chooses_map a g _ _ _ (λ t st. Between-IsDown a g s h right _ t st)
          (closest_inside_geometry-Result a g v h (down_start a g s)
            (down_start_lem a g s h right).0))
  ]

  pub not_sentinel : (x : ℤ) → InSet a g x → x ≢ negsuc 0
  not_sentinel x i e = omega (arith, i.1, v.not_negative, parts_of_eq e)

  nearest_of_both :
      (x y : ℤ)
      → Chooses a g x (IsUp s x)
      → Chooses a g y (IsDown s y)
      → Chooses a g (closest s x y) (λ t. abs_ℕ (s -ℤ closest s x y) ≤ abs_ℕ (s -ℤ t))
  nearest_of_both x y (inl (ix, up)) (inr (ey, n)) = absurd (n x ix)
  nearest_of_both x y (inr (ex, n)) (inl (iy, down)) = absurd (n y iy)
  nearest_of_both x y (inr (ex, n)) (inr (ey, m)) = rw (ex, ey) (inr (closest_none s, n))
  nearest_of_both x y (inl (ix, up)) (inl (iy, down)) =
      elim (closest_cases s x y (not_sentinel x ix) (not_sentinel y iy)) [
        | inl (e, le) ↦ rw e (inl (ix, λ t k. nearer s x y t _ (le_refl _) le (up t k) (down t k)))
        | inr (e, le) ↦ rw e (inl (iy, λ t k. nearer s x y t _ le (le_refl _) (up t k) (down t k)))
      ]

  -- In a valid region, for a grain that is not negative and a sector that is not below the offset
  -- or not aligned, `alignment_align_nearest` returns an aligned sector of the region as near to
  -- `s` as any other, and -1 only if the region has no aligned sector.
  pub alignment_align_nearest-IsNearest :
      pos 0 ≤ℤ a.grain_size
      → (a.offset ≤ℤ s) ⊎ ¬ Satisfies a s
      → Chooses a g
          (alignment_align_nearest a (some g) s)
          (λ t. abs_ℕ (s -ℤ alignment_align_nearest a (some g) s) ≤ abs_ℕ (s -ℤ t))
  unfolding alignment_align_nearest
  alignment_align_nearest-IsNearest nonneg right =
      nearest_of_both _ _ (alignment_align_up-IsUp nonneg)
        (alignment_align_down-IsDown nonneg right)

  -- Whatever the sector, the downward choice is an aligned sector of the region if it has one.
  pub alignment_align_down-Chooses :
      pos 0 ≤ℤ a.grain_size → Chooses a g (alignment_align_down a (some g) s) (λ _. Unit {0})
  alignment_align_down-Chooses nonneg = elim (ℤ_pos_cases a.grain_size nonneg) [
    | inl single ↦
        rw (down_single a g s single)
          (Chooses_map a g _ _ _ (λ t st k. tt) (closest_inside_geometry-single a g single))
    | inr h ↦ rw (down_many a g s (λ e. omega (arith, parts_of_eq e))) (
        Chooses_map a g _ _ _ (λ t st k. tt)
          (closest_inside_geometry-Result a g v h (down_start a g s) (down_multiple a g s)))
  ]

  single_first : (r : ℤ) → Chooses a g r (λ t. t ≡ a.offset) → Chooses a g r (λ t. r ≤ℤ t)
  single_first r (inr n) = inr n
  single_first r (inl (i, h)) =
      inl (i, λ t k. omega (arith, parts_of_eq (h t k), parts_of_eq (h r i)))

  first_of_Between :
      pos 0 <ℤ a.grain_size
      → s ≡ g.start
      → (r : ℤ) → Chooses a g r (Between (down_start a g s) r)
      → Chooses a g r (λ t. r ≤ℤ t)
  first_of_Between h e r (inr n) = inr n
  first_of_Between h e r (inl (i, k)) = inl (
    i,
    λ t (st, lo, hi).
        ((k t (st, lo, hi)).0 (omega (arith, down_start-le a g s h, parts_of_eq e))).1,
  )

  -- From the start of the region the downward choice is the first aligned sector.
  pub alignment_align_down-first :
      pos 0 ≤ℤ a.grain_size
      → s ≡ g.start
      → Chooses a g
          (alignment_align_down a (some g) s)
          (λ t. alignment_align_down a (some g) s ≤ℤ t)
  alignment_align_down-first nonneg e = elim (ℤ_pos_cases a.grain_size nonneg) [
    | inl single ↦
        rw (down_single a g s single) (single_first _ (closest_inside_geometry-single a g single))
    | inr h ↦ rw (down_many a g s (λ e. omega (arith, parts_of_eq e))) (
        first_of_Between h e _
          (closest_inside_geometry-Result a g v h (down_start a g s) (down_multiple a g s)))
  ]

  choice_of_both :
      (x y : ℤ)
      → Chooses a g x (λ _. Unit {0})
      → Chooses a g y (λ _. Unit {0})
      → Chooses a g (closest s x y) (λ _. Unit {0})
  choice_of_both x y (inl (ix, up)) (inr (ey, n)) = absurd (n x ix)
  choice_of_both x y (inr (ex, n)) (inl (iy, down)) = absurd (n y iy)
  choice_of_both x y (inr (ex, n)) (inr (ey, m)) = rw (ex, ey) (inr (closest_none s, n))
  choice_of_both x y (inl (ix, up)) (inl (iy, down)) =
      elim (closest_cases s x y (not_sentinel x ix) (not_sentinel y iy)) [
        | inl (e, le) ↦ rw e (inl (ix, up))
        | inr (e, le) ↦ rw e (inl (iy, down))
      ]

  -- `alignment_align_nearest` finds an aligned sector of the region exactly if there is one.
  pub alignment_align_nearest-Chooses :
      pos 0 ≤ℤ a.grain_size → Chooses a g (alignment_align_nearest a (some g) s) (λ _. Unit {0})
  unfolding alignment_align_nearest
  alignment_align_nearest-Chooses nonneg =
      choice_of_both _ _ (Chooses_map a g _ _ _ (λ t st k. tt) (alignment_align_up-IsUp nonneg))
        (alignment_align_down-Chooses nonneg)
