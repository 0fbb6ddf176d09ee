-- ===== src/Disk/Chain/End.antt =====
-- The end of the room around a region in `_partition_get_overlap_constraint`.
use mathlib.Core.List.{List, [], ◌∷◌}
use parted.Prelude.{◌≡◌, Bool-cases, inl, inr, Bool, true, false, refl, sym, subst, arith}
use parted.Prelude.Int.{ℤ, pos, ◌+ℤ◌, ◌-ℤ◌, ◌≤ℤ◌, ◌<ℤ◌, int_laws}
use parted.Geom.{Geometry}
use parted.Geom.Valid.{start-le-end}
use parted.Disk.Chain.{end_before}
use parted.Disk.Chain.Order.{Within, Within-le, Avoids}

module _ {A : Type 0} (geom_of : A → Geometry) (is_part : A → Bool) where
  pub Within-Avoids :
      (g : Geometry) (low high : ℤ) (l : List A)
      → g.end <ℤ low
      → Within geom_of low high l
      → Avoids geom_of is_part g l
  Within-Avoids g low high [] lt w = tt
  Within-Avoids g low high (x ∷ xs) lt (v, lo, w) = (
    inr (inl (omega arith)),
    Within-Avoids g ((geom_of x).end +ℤ pos 1) high xs (omega (int_laws, start-le-end v)) w,
  )

  unfoldable pub next_start : ℤ → List A → ℤ
  next_start max_end [] = max_end
  next_start max_end (next ∷ walks) = (geom_of next).start -ℤ pos 1

  pub end_before_is :
      (x : A) (xs : List A) (max_end : ℤ)
      → is_part x ≡ true
      → end_before geom_of is_part max_end (x ∷ xs) ≡ next_start max_end xs
  unfolding end_before next_start
  end_before_is x [] max_end is = rw is refl
  end_before_is x (y ∷ ys) max_end is = rw is refl

  pub end_before_other :
      (x : A) (xs : List A) (max_end : ℤ)
      → is_part x ≡ false
      → end_before geom_of is_part max_end (x ∷ xs) ≡ (geom_of x).start -ℤ pos 1
  unfolding end_before
  end_before_other x xs max_end other = rw other refl

  next_start-Avoids :
      (g : Geometry) (low high max_end : ℤ) (l : List A)
      → Within geom_of low high l
      → g.end ≤ℤ next_start max_end l
      → Avoids geom_of is_part g l
  unfolding next_start
  next_start-Avoids g low high max_end [] w le = tt
  next_start-Avoids g low high max_end (x ∷ xs) (v, lo, w) le =
      Within-Avoids g (geom_of x).start high (x ∷ xs) (omega int_laws) (v, omega arith, w)

  pub end_before-Avoids :
      (g : Geometry) (low high max_end : ℤ) (l : List A)
      → Within geom_of low high l
      → g.end ≤ℤ end_before geom_of is_part max_end l
      → Avoids geom_of is_part g l
  end_before-Avoids g low high max_end [] w le = tt
  end_before-Avoids g low high max_end (x ∷ xs) (v, lo, w) le = elim (Bool-cases (is_part x)) [
    | inl is ↦ (
      inl is,
      next_start-Avoids g ((geom_of x).end +ℤ pos 1) high max_end xs w
          (subst (λ z. g.end ≤ℤ z) (end_before_is x xs max_end is) le),
    )
    | inr other ↦
        let before : g.end ≤ℤ (geom_of x).start -ℤ pos 1 =
          subst (λ z. g.end ≤ℤ z) (end_before_other x xs max_end other) le in
        Within-Avoids g (geom_of x).start high (x ∷ xs) (omega int_laws) (v, omega arith, w)
  ]

  next_start-le :
      (low high max_end : ℤ) (l : List A)
      → high ≤ℤ max_end
      → Within geom_of low high l
      → next_start max_end l ≤ℤ max_end
  unfolding next_start
  next_start-le low high max_end [] le w = omega arith
  next_start-le low high max_end (x ∷ xs) le (v, lo, w) =
      omega (int_laws, start-le-end v, Within-le geom_of ((geom_of x).end +ℤ pos 1) high xs w)

  pub end_before-le :
      (low high max_end : ℤ) (l : List A)
      → high ≤ℤ max_end
      → Within geom_of low high l
      → end_before geom_of is_part max_end l ≤ℤ max_end
  unfolding end_before
  end_before-le low high max_end [] le w = omega arith
  end_before-le low high max_end (x ∷ xs) le (v, lo, w) = elim (Bool-cases (is_part x)) [
    | inl is ↦
        subst (λ z. z ≤ℤ max_end) (sym (end_before_is x xs max_end is))
          (next_start-le ((geom_of x).end +ℤ pos 1) high max_end xs le w)
    | inr other ↦
        subst (λ z. z ≤ℤ max_end) (sym (end_before_other x xs max_end other))
          (omega (int_laws, start-le-end v, Within-le geom_of ((geom_of x).end +ℤ pos 1) high xs w))
  ]
