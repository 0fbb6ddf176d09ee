-- ===== src/Disk/Chain/Order.antt =====
-- Lists of regions in order, one behind the other, and the loops of disk.c on them.
use mathlib.Core.List.{List, [], ◌∷◌}
use parted.Prelude.{
  ◌≡◌, ◌⊎◌, Bool-cases, inl, inr, Bool, true, false, Option, some, refl, ap, arith,
}
use parted.Prelude.Int.{
  ℤ, pos, ◌+ℤ◌, ◌-ℤ◌, ◌≤ℤ◌, ◌<ℤ◌, ltb_ℤ, ltb_ℤ_iff, ltb_ℤ_false, int_laws, parts_of_eq,
}
use parted.Prelude.Run.{done, Returns, Returns→done}
use parted.Geom.{Geometry}
use parted.Geom.Valid.{IsValid, start-le-end}
use parted.Disk.Chain.{raw_add, last_gap, fill_gaps, without}

-- No sector in common, on one device.
abbrev pub Apart : Geometry → Geometry → Type 0
Apart a b = (a.end <ℤ b.start) ⊎ (b.end <ℤ a.start)

module _ {A : Type 0} (geom_of : A → Geometry) where
  -- Valid regions from `low` to `high`, each behind the one before.
  abbrev pub Within : ℤ → ℤ → List A → Type 0
  Within low high [] = low ≤ℤ high +ℤ pos 1
  Within low high (x ∷ xs) =
      IsValid (geom_of x) × (low ≤ℤ (geom_of x).start) × Within ((geom_of x).end +ℤ pos 1) high xs

  -- The same without a gap: each sector from `low` to `high` lies in just one of them.
  abbrev pub Tiles : ℤ → ℤ → List A → Type 0
  Tiles low high [] = low ≡ high +ℤ pos 1
  Tiles low high (x ∷ xs) =
      IsValid (geom_of x) × ((geom_of x).start ≡ low) × Tiles ((geom_of x).end +ℤ pos 1) high xs

  -- The region has no sector in common with the others.
  abbrev pub Avoids : (A → Bool) → Geometry → List A → Type 0
  Avoids is_part g [] = Unit {0}
  Avoids is_part g (x ∷ xs) = ((is_part x ≡ true) ⊎ Apart g (geom_of x)) × Avoids is_part g xs

  pub Within_lower :
      (low low' high : ℤ) (l : List A) → low' ≤ℤ low → Within low high l → Within low' high l
  Within_lower low low' high [] le w = omega (int_laws, w)
  Within_lower low low' high (x ∷ xs) le (v, lo, w) = (v, omega arith, w)

  pub Within-le : (low high : ℤ) (l : List A) → Within low high l → low ≤ℤ high +ℤ pos 1
  Within-le low high [] w = w
  Within-le low high (x ∷ xs) (v, lo, w) =
      omega (int_laws, start-le-end v, Within-le ((geom_of x).end +ℤ pos 1) high xs w)

  pub raw_add-Within :
      (x : A) (low high : ℤ) (l : List A)
      → IsValid (geom_of x)
      → low ≤ℤ (geom_of x).start
      → (geom_of x).end ≤ℤ high
      → Avoids (λ _. false) (geom_of x) l
      → Within low high l
      → Within low high (raw_add geom_of x l)
  unfolding raw_add
  raw_add-Within x low high [] v lo hi a w = (v, lo, omega int_laws)
  raw_add-Within x low high (y ∷ ys) v lo hi (apart, a) (vy, low_y, w) =
      elim (Bool-cases (ltb_ℤ (geom_of x).end (geom_of y).start)) [
        | inl before ↦
            let lt : (geom_of x).end <ℤ (geom_of y).start =
              (ltb_ℤ_iff (geom_of x).end (geom_of y).start).0 before in
            rw before (v, lo, (vy, omega int_laws, w))
        | inr behind ↦
            let le : (geom_of y).start ≤ℤ (geom_of x).end =
              ltb_ℤ_false (geom_of x).end (geom_of y).start behind in
            let after : (geom_of y).end <ℤ (geom_of x).start = behind_of apart le in
            rw behind (
              vy,
              low_y,
              raw_add-Within x ((geom_of y).end +ℤ pos 1) high ys v (omega int_laws) hi a w,
            )
      ]
    where
      behind_of :
          (false ≡ true) ⊎ Apart (geom_of x) (geom_of y)
          → (geom_of y).start ≤ℤ (geom_of x).end
          → (geom_of y).end <ℤ (geom_of x).start
      behind_of (inl e) le = cc e
      behind_of (inr (inl lt)) le = absurd (omega arith)
      behind_of (inr (inr lt)) le = lt

  abbrev pub NoneWith : (A → Bool) → List A → Type 0
  NoneWith test [] = Unit {0}
  NoneWith test (x ∷ xs) = (test x ≡ false) × NoneWith test xs

  pub without-NoneWith : (test : A → Bool) (l : List A) → NoneWith test l → without test l ≡ l
  unfolding without
  without-NoneWith test [] n = refl
  without-NoneWith test (x ∷ xs) (e, n) = rw (e, without-NoneWith test xs n) refl

  -- What is made for a gap: a free region from `s` to `e`.
  abbrev pub Fills : (A → Bool) → (ℤ → ℤ → Option A) → ℤ → ℤ → Type 0
  Fills is_free new s e =
      (x : A) × (new s e ≡ some x)
      × IsValid (geom_of x)
      × ((geom_of x).start ≡ s)
      × ((geom_of x).end ≡ e)
      × (is_free x ≡ true)

  module _ (is_free : A → Bool) (new : ℤ → ℤ → Option A)
      (made : (s e : ℤ) → pos 0 ≤ℤ s → s ≤ℤ e → Fills is_free new s e) where
    -- A list without gaps that is the given one once the free regions are taken out.
    abbrev pub Filled : ℤ → ℤ → List A → List A → Type 0
    Filled low high l r = Tiles low high r × (without is_free r ≡ l)

    last_gap-Filled :
        (seen : Bool) (last_end limit : ℤ)
        → pos 0 ≤ℤ last_end +ℤ pos 1
        → last_end ≤ℤ limit
        → Returns (last_gap geom_of new seen last_end limit) (Filled (last_end +ℤ pos 1) limit [])
    unfolding last_gap without
    last_gap-Filled seen last_end limit nonneg le = elim (Bool-cases (ltb_ℤ last_end limit)) [
      | inl gap ↦
          let lt : last_end <ℤ limit = (ltb_ℤ_iff last_end limit).0 gap in
          let (x, e, v, at_start, at_end, is) =
            made (last_end +ℤ pos 1) limit nonneg (omega int_laws) in
          rw (gap, e, is) ((v, at_start, ap (λ z. z +ℤ pos 1) at_end), refl)
      | inr full ↦
          let ge : limit ≤ℤ last_end = ltb_ℤ_false last_end limit full in
          rw full (omega int_laws, refl)
    ]

    pub fill_gaps-Filled :
        (seen : Bool) (last_end limit : ℤ) (l : List A)
        → pos 0 ≤ℤ last_end +ℤ pos 1
        → NoneWith is_free l
        → Within (last_end +ℤ pos 1) limit l
        → Returns (fill_gaps geom_of new seen last_end limit l) (Filled (last_end +ℤ pos 1) limit l)
    unfolding fill_gaps without
    fill_gaps-Filled seen last_end limit [] nonneg n w =
        last_gap-Filled seen last_end limit nonneg (omega int_laws)
    fill_gaps-Filled seen last_end limit (x ∷ xs) nonneg (taken, n) (v, lo, w) =
        let filled : (r : List A) × (fill_gaps geom_of new true (geom_of x).end limit xs ≡ done r)
            × Filled ((geom_of x).end +ℤ pos 1) limit xs r =
          Returns→done _ _ (
            fill_gaps-Filled true (geom_of x).end limit xs
              (omega (int_laws, start-le-end v, v.not_negative)) n w) in
        let (r, e, (tiles, same)) = filled in
        elim (Bool-cases (ltb_ℤ (last_end +ℤ pos 1) (geom_of x).start)) [
          | inl gap ↦
              let lt : last_end +ℤ pos 1 <ℤ (geom_of x).start =
                (ltb_ℤ_iff (last_end +ℤ pos 1) (geom_of x).start).0 gap in
              let (f, e', vf, at_start, at_end, is) =
                made (last_end +ℤ pos 1) ((geom_of x).start -ℤ pos 1) nonneg (omega int_laws) in
              rw (e, gap, e', is, taken, same)
                ((vf, at_start, (v, omega (int_laws, parts_of_eq at_end), tiles)), refl)
          | inr full ↦
              let ge : (geom_of x).start ≤ℤ last_end +ℤ pos 1 =
                ltb_ℤ_false (last_end +ℤ pos 1) (geom_of x).start full in
              rw (e, full, taken, same) ((v, omega int_laws, tiles), refl)
        ]
