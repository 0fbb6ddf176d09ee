-- ===== src/Disk/Chain/Overlap.antt =====
-- The free room around a region in a list of regions in order, as the loops of
-- `_partition_get_overlap_constraint` leave it.
use mathlib.Core.List.{List, [], ◌∷◌}
use parted.Prelude.{
  ◌≡◌, ◌⊎◌, ◌||◌, Bool-cases, inl, inr, Bool, true, false, refl, sym, subst, arith,
}
use parted.Prelude.Int.{ℤ, pos, ◌+ℤ◌, ◌-ℤ◌, ◌≤ℤ◌, ◌<ℤ◌, ltb_ℤ, leb_ℤ, int_laws, parts_of_eq}
use parted.Geom.{Geometry}
use parted.Geom.Valid.{IsValid, start-le-end}
use parted.Disk.Chain.{skip_before, end_before}
use parted.Disk.Chain.Order.{Apart, Within, Avoids, NoneWith}
use parted.Disk.Chain.Skip.{
  room_start, stop_test, skip_test, skip_before_skips, skip_before_stops, skip_before_empty,
  next_min, next_min_lem, room_start-mono,
}
use parted.Disk.Chain.End.{
  next_start, end_before_is, end_before_other, end_before-Avoids, end_before-le,
}

module _ {A : Type 0} (geom_of : A → Geometry) (is_part : A → Bool) where
  -- The part comes at most once.
  abbrev pub OnceWith : List A → Type 0
  OnceWith [] = Unit {0}
  OnceWith (x ∷ xs) = ((is_part x ≡ true) → NoneWith geom_of is_part xs) × OnceWith xs

  -- Where the room ends.
  abbrev pub room_end : ℤ → ℤ → ℤ → List A → ℤ
  room_end start min_start max_end l =
      end_before geom_of is_part max_end (skip_before geom_of is_part start min_start l).1

  pub room_end-le :
      (start min_start max_end low high : ℤ) (l : List A)
      → high ≤ℤ max_end
      → Within geom_of low high l
      → room_end start min_start max_end l ≤ℤ max_end
  room_end-le start min_start max_end low high [] le w =
      subst (λ r. end_before geom_of is_part max_end r.1 ≤ℤ max_end)
        (sym (skip_before_empty geom_of is_part start min_start))
        (end_before-le geom_of is_part low high max_end [] le w)
  room_end-le start min_start max_end low high (x ∷ xs) le (v, lo, w) =
      elim (Bool-cases (ltb_ℤ (geom_of x).start start || leb_ℤ (geom_of x).start min_start)) [
        | inr stops ↦
            subst (λ r. end_before geom_of is_part max_end r.1 ≤ℤ max_end)
              (sym (skip_before_stops geom_of is_part x xs start min_start stops))
              (end_before-le geom_of is_part low high max_end (x ∷ xs) le (v, lo, w))
        | inl skips ↦
            subst (λ r. end_before geom_of is_part max_end r.1 ≤ℤ max_end)
              (sym (skip_before_skips geom_of is_part x xs start min_start skips))
              (room_end-le start (next_min geom_of is_part x min_start) max_end
                ((geom_of x).end +ℤ pos 1) high xs le w)
      ]

  -- A region in the room avoids the others.
  pub room-Avoids :
      (g : Geometry) (start min_start max_end low high : ℤ) (l : List A)
      → min_start ≤ℤ low
      → Within geom_of low high l
      → room_start geom_of is_part start min_start l ≤ℤ g.start
      → g.end ≤ℤ room_end start min_start max_end l
      → Avoids geom_of is_part g l
  room-Avoids g start min_start max_end low high [] le w a b = tt
  room-Avoids g start min_start max_end low high (x ∷ xs) le (v, lo, w) a b =
      elim (Bool-cases (ltb_ℤ (geom_of x).start start || leb_ℤ (geom_of x).start min_start)) [
        | inr stops ↦
            end_before-Avoids geom_of is_part g low high max_end (x ∷ xs) (v, lo, w)
              (subst (λ r. g.end ≤ℤ end_before geom_of is_part max_end r.1)
                (skip_before_stops geom_of is_part x xs start min_start stops) b)
        | inl skips ↦
            let min' : ℤ = next_min geom_of is_part x min_start in
            let eq : skip_before geom_of is_part start min_start (x ∷ xs)
                ≡ skip_before geom_of is_part start min' xs =
              skip_before_skips geom_of is_part x xs start min_start skips in
            let a' : room_start geom_of is_part start min' xs ≤ℤ g.start =
              subst (λ r. r.0 ≤ℤ g.start) eq a in
            let b' : g.end ≤ℤ room_end start min' max_end xs =
              subst (λ r. g.end ≤ℤ end_before geom_of is_part max_end r.1) eq b in
            let low' : ℤ = (geom_of x).end +ℤ pos 1 in
            let min_low : min' ≤ℤ low' = (next_min_lem geom_of is_part x low min_start v lo le).1 in
            let rest : Avoids geom_of is_part g xs =
              room-Avoids g start min' max_end low' high xs min_low w a' b' in
            let mono : min' ≤ℤ room_start geom_of is_part start min' xs =
              room_start-mono geom_of is_part start min' low' high xs min_low w in
            elim (Bool-cases (is_part x)) [
              | inl is ↦ (inl is, rest)
              | inr other ↦
                  let set : min' ≡ low' = rw other refl in
                  (inr (inr (omega (int_laws, parts_of_eq set))), rest)
            ]
      ]

  -- A valid region that avoids the others fits into the room, if it does between the bounds.
  pub room-fits :
      (g : Geometry) (min_start max_end low high : ℤ) (l : List A)
      → IsValid g
      → OnceWith l
      → Within geom_of low high l
      → min_start ≤ℤ g.start
      → g.end ≤ℤ max_end
      → Avoids geom_of is_part g l
      → (room_start geom_of is_part g.start min_start l ≤ℤ g.start)
        × (g.end ≤ℤ room_end g.start min_start max_end l)
  unfolding end_before next_start
  room-fits g min_start max_end low high [] v once w lo hi a =
      subst (λ r. (r.0 ≤ℤ g.start) × (g.end ≤ℤ end_before geom_of is_part max_end r.1))
        (sym (skip_before_empty geom_of is_part g.start min_start)) (lo, end_before_empty)
    where
      end_before_empty : g.end ≤ℤ end_before geom_of is_part max_end []
      end_before_empty = hi
  room-fits g min_start max_end low high (x ∷ xs) v (one, once) (vx, low_x, w) lo hi (apart, a) =
      elim (Bool-cases (ltb_ℤ (geom_of x).start g.start || leb_ℤ (geom_of x).start min_start)) [
        | inl skips ↦
            subst (λ r. (r.0 ≤ℤ g.start) × (g.end ≤ℤ end_before geom_of is_part max_end r.1))
              (sym (skip_before_skips geom_of is_part x xs g.start min_start skips))
              (room-fits g (next_min geom_of is_part x min_start) max_end ((geom_of x).end +ℤ pos 1)
                high xs v once w
                (behind apart (skip_test geom_of is_part x g.start min_start skips)) hi a)
        | inr stops ↦
            subst (λ r. (r.0 ≤ℤ g.start) × (g.end ≤ℤ end_before geom_of is_part max_end r.1))
              (sym (skip_before_stops geom_of is_part x xs g.start min_start stops))
              (lo, in_front (stop_test geom_of is_part x g.start min_start stops).0 apart)
      ]
    where
      other_apart :
          is_part x ≡ false → (is_part x ≡ true) ⊎ Apart g (geom_of x) → Apart g (geom_of x)
      other_apart other (inl is) = cc (other, is)
      other_apart other (inr p) = p

      behind_part :
          Apart g (geom_of x)
          → ((geom_of x).start <ℤ g.start) ⊎ ((geom_of x).start ≤ℤ min_start)
          → (geom_of x).end +ℤ pos 1 ≤ℤ g.start
      behind_part (inr lt) q = omega int_laws
      behind_part (inl lt) (inl q) = absurd (omega (arith, start-le-end v))
      behind_part (inl lt) (inr q) = absurd (omega (arith, start-le-end v))

      behind :
          (is_part x ≡ true) ⊎ Apart g (geom_of x)
          → ((geom_of x).start <ℤ g.start) ⊎ ((geom_of x).start ≤ℤ min_start)
          → next_min geom_of is_part x min_start ≤ℤ g.start
      behind p q = elim (Bool-cases (is_part x)) [
        | inl is ↦ rw is lo
        | inr other ↦ rw other (behind_part (other_apart other p) q)
      ]

      before_next :
          (ys : List A)
          → g.start ≤ℤ (geom_of x).start
          → NoneWith geom_of is_part ys
          → Within geom_of ((geom_of x).end +ℤ pos 1) high ys
          → Avoids geom_of is_part g ys
          → g.end ≤ℤ next_start geom_of is_part max_end ys
      before_next [] le n wy ay = hi
      before_next (y ∷ ys) le (n, _) (vy, low_y, _) (inl is, _) = cc (n, is)
      before_next (y ∷ ys) le (n, _) (vy, low_y, _) (inr (inl lt), _) = omega int_laws
      before_next (y ∷ ys) le (n, _) (vy, low_y, _) (inr (inr lt), _) =
          absurd (omega (int_laws, start-le-end vx, start-le-end vy))

      before_part :
          g.start ≤ℤ (geom_of x).start → Apart g (geom_of x) → g.end ≤ℤ (geom_of x).start -ℤ pos 1
      before_part le (inl lt) = omega int_laws
      before_part le (inr lt) = absurd (omega (arith, start-le-end vx))

      in_front :
          g.start ≤ℤ (geom_of x).start
          → (is_part x ≡ true) ⊎ Apart g (geom_of x)
          → g.end ≤ℤ end_before geom_of is_part max_end (x ∷ xs)
      in_front le p = elim (Bool-cases (is_part x)) [
        | inl is ↦
            subst (λ z. g.end ≤ℤ z) (sym (end_before_is geom_of is_part x xs max_end is))
              (before_next xs le (one is) w a)
        | inr other ↦
            subst (λ z. g.end ≤ℤ z) (sym (end_before_other geom_of is_part x xs max_end other))
              (before_part le (other_apart other p))
      ]
