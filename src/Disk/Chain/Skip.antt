-- ===== src/Disk/Chain/Skip.antt =====
-- The first loop of `_partition_get_overlap_constraint`: the start of the room around a region.
use mathlib.Core.List.{List, [], ◌∷◌}
use parted.Prelude.{
  ◌≡◌, ◌⊎◌, ◌||◌, Bool-cases, inl, inr, Bool, true, false, refl, sym, subst, arith, if◌then◌else◌,
}
use parted.Prelude.Int.{ℤ, pos, ◌+ℤ◌, ◌≤ℤ◌, ◌<ℤ◌, ltb_ℤ, leb_ℤ, int_laws}
use parted.Geom.{Geometry}
use parted.Geom.Valid.{IsValid, start-le-end}
use parted.Disk.Chain.{skip_before}
use parted.Disk.Chain.Order.{Within}

module _ {A : Type 0} (geom_of : A → Geometry) (is_part : A → Bool) where
  -- Where the room starts.
  abbrev pub room_start : ℤ → ℤ → List A → ℤ
  room_start start min_start l = (skip_before geom_of is_part start min_start l).0

  pub stop_test :
      (x : A) (start min_start : ℤ)
      → (ltb_ℤ (geom_of x).start start || leb_ℤ (geom_of x).start min_start) ≡ false
      → (start ≤ℤ (geom_of x).start) × (min_start <ℤ (geom_of x).start)
  stop_test x start min_start e = (ground arith, ground arith)

  pub skip_test :
      (x : A) (start min_start : ℤ)
      → (ltb_ℤ (geom_of x).start start || leb_ℤ (geom_of x).start min_start) ≡ true
      → ((geom_of x).start <ℤ start) ⊎ ((geom_of x).start ≤ℤ min_start)
  skip_test x start min_start e = ground arith

  pub skip_before_skips :
      (x : A) (xs : List A) (start min_start : ℤ)
      → (ltb_ℤ (geom_of x).start start || leb_ℤ (geom_of x).start min_start) ≡ true
      → skip_before geom_of is_part start min_start (x ∷ xs)
        ≡ skip_before geom_of is_part start
            (if is_part x then min_start else (geom_of x).end +ℤ pos 1)
            xs
  unfolding skip_before
  skip_before_skips x xs start min_start e = rw e refl

  pub skip_before_stops :
      (x : A) (xs : List A) (start min_start : ℤ)
      → (ltb_ℤ (geom_of x).start start || leb_ℤ (geom_of x).start min_start) ≡ false
      → skip_before geom_of is_part start min_start (x ∷ xs) ≡ (min_start, x ∷ xs)
  unfolding skip_before
  skip_before_stops x xs start min_start e = rw e refl

  pub skip_before_empty :
      (start min_start : ℤ) → skip_before geom_of is_part start min_start [] ≡ (min_start, [])
  unfolding skip_before
  skip_before_empty start min_start = refl

  abbrev pub next_min : A → ℤ → ℤ
  next_min x min_start = if is_part x then min_start else (geom_of x).end +ℤ pos 1

  pub next_min_lem :
      (x : A) (low min_start : ℤ)
      → IsValid (geom_of x)
      → low ≤ℤ (geom_of x).start
      → min_start ≤ℤ low
      → (min_start ≤ℤ next_min x min_start) × (next_min x min_start ≤ℤ (geom_of x).end +ℤ pos 1)
  next_min_lem x low min_start v lo le = elim (Bool-cases (is_part x)) [
    | inl is ↦ rw is (omega arith, omega (int_laws, start-le-end v))
    | inr other ↦ rw other (omega (int_laws, start-le-end v), omega arith)
  ]

  pub room_start-mono :
      (start min_start low high : ℤ) (l : List A)
      → min_start ≤ℤ low
      → Within geom_of low high l
      → min_start ≤ℤ room_start start min_start l
  room_start-mono start min_start low high [] le w =
      subst (λ r. min_start ≤ℤ r.0) (sym (skip_before_empty start min_start)) (omega arith)
  room_start-mono start min_start low high (x ∷ xs) le (v, lo, w) =
      elim (Bool-cases (ltb_ℤ (geom_of x).start start || leb_ℤ (geom_of x).start min_start)) [
        | inr stops ↦
            subst (λ r. min_start ≤ℤ r.0) (sym (skip_before_stops x xs start min_start stops))
              (omega arith)
        | inl skips ↦
            let min' : ℤ = next_min x min_start in
            let (above, below) = next_min_lem x low min_start v lo le in
            let higher : min' ≤ℤ room_start start min' xs =
              room_start-mono start min' ((geom_of x).end +ℤ pos 1) high xs below w in
            subst (λ r. min_start ≤ℤ r.0) (sym (skip_before_skips x xs start min_start skips))
              (omega arith)
      ]
