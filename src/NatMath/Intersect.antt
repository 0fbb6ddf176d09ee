-- ===== src/NatMath/Intersect.antt =====
-- The intersection of two alignments, as sets of sectors.
use parted.Prelude.{
  ℕ, zero, suc, ◌<◌, ◌≤◌, dec_lt, ◌*◌, ◌^◌, ◌≡◌, ◌≢◌, ◌↔◌, Bool-cases, inl, inr, Option, none, some,
  refl, sym, ap, subst, subst₂, ◌&&◌, true, false, ◌∙◌, arith,
}
use parted.Prelude.Int.{
  ℤ, pos, negsuc, ◌+ℤ◌, ◌-ℤ◌, ◌*ℤ◌, ◌/ℤ◌, ◌≤ℤ◌, ◌<ℤ◌, ltb_ℤ, ◌==ℤ◌, ==ℤ_iff, int_laws, ◌∣ℤ◌, ∣ℤ-+ℤ,
  ∣ℤ--ℤ, ∣ℤ_cong, ∣ℤ_trans, parts_of_eq, as_diff, on_diffs, diff_eq, abs_ℕ,
}
use parted.Prelude.Run.{fault, Returns, Returns_map}
use parted.NatMath.{
  Alignment, alignment_new, alignment_duplicate, to_int, extended_euclid, intersect_general,
  EuclidTriple, intersect_ordered, alignment_intersect,
}
use parted.NatMath.Bezout.{extended_euclid-IsSmall}
use parted.NatMath.Width.{abs_short, intersect_exact, intersect_with-exact}
use parted.NatMath.Gcd.{IsGcd, extended_euclid-IsGcd}
use parted.NatMath.Aligned.{Satisfies, zero-∣ℤ, Normalises, alignment_new-Normalises}
use parted.NatMath.Lattice.{div_exact, left-∣ℤ-lcm, right-∣ℤ-lcm, lcm_least, *ℤ_nonneg, /ℤ_nonneg}

-- What the intersection of two alignments has to be: NULL only if no sector satisfies both.
abbrev pub IsMeet : Alignment → Alignment → Option Alignment → Type 0
IsMeet a b none = (s : ℤ) → Satisfies a s → ¬ Satisfies b s
IsMeet a b (some c) =
    (pos 0 ≤ℤ c.grain_size) × ((s : ℤ) → Satisfies c s ↔ (Satisfies a s × Satisfies b s))

IsMeet-swap : (a b : Alignment) (r : Option Alignment) → IsMeet b a r → IsMeet a b r
IsMeet-swap a b none h = λ s p q. h s q p
IsMeet-swap a b (some c) (nonneg, h) =
    (nonneg, λ s. (λ k. (((h s).0 k).1, ((h s).0 k).0), λ (p, q). (h s).1 (q, p)))

-- A grain that an `int` holds is passed on unchanged.
pub to_int_small : (z : ℤ) → pos 0 ≤ℤ z → z <ℤ pos (2 ^ 31) → to_int z ≡ z
unfolding to_int
to_int_small (pos n) h k = ground arith
to_int_small (negsuc n) h k = absurd (omega arith)

multiply_out : (A B x y d : ℤ) → d *ℤ (x *ℤ A +ℤ y *ℤ B) ≡ x *ℤ d *ℤ A +ℤ y *ℤ d *ℤ B
multiply_out A B x y d =
    rw (as_diff A, as_diff B, as_diff x, as_diff y, as_diff d)
      (simp on_diffs (diff_eq _ _ _ _ (omega arith)))

module _ (a b : Alignment) (x y g : ℤ) (isg : IsGcd a.grain_size b.grain_size g)
    (bezout : g ≡ x *ℤ a.grain_size +ℤ y *ℤ b.grain_size) (ne : g ≢ pos 0) where
  abbrev delta : ℤ
  delta = (b.offset -ℤ a.offset) /ℤ g

  abbrev from_a : ℤ
  from_a = a.offset +ℤ x *ℤ delta *ℤ a.grain_size

  abbrev from_b : ℤ
  from_b = b.offset -ℤ y *ℤ delta *ℤ b.grain_size

  -- The two ways to compute the new offset agree if there is a common sector.
  agree : (s : ℤ) → Satisfies a s → Satisfies b s → from_a ≡ from_b
  agree s p q =
      let gap : g ∣ℤ b.offset -ℤ a.offset =
        ∣ℤ_cong g {a = s -ℤ a.offset -ℤ (s -ℤ b.offset)} (omega int_laws) (
          ∣ℤ--ℤ g (s -ℤ a.offset) (s -ℤ b.offset)
            (∣ℤ_trans g a.grain_size (s -ℤ a.offset) isg.left p)
            (∣ℤ_trans g b.grain_size (s -ℤ b.offset) isg.right q)) in
      let filled : b.offset -ℤ a.offset ≡ x *ℤ delta *ℤ a.grain_size +ℤ y *ℤ delta *ℤ b.grain_size =
        div_exact (b.offset -ℤ a.offset) g gap
        ∙ ap (λ t. delta *ℤ t) bezout
        ∙ multiply_out a.grain_size b.grain_size x y delta in
      omega (int_laws, parts_of_eq filled)

  step_a : a.grain_size ∣ℤ x *ℤ delta *ℤ a.grain_size
  step_a = (x *ℤ delta, refl)

  step_b : b.grain_size ∣ℤ y *ℤ delta *ℤ b.grain_size
  step_b = (y *ℤ delta, refl)

  common_iff :
      from_a ≡ from_b
      → (s : ℤ)
      → (a.grain_size *ℤ b.grain_size /ℤ g ∣ℤ s -ℤ from_a) ↔ (Satisfies a s × Satisfies b s)
  common_iff e s = (
    λ h. (
      ∣ℤ_cong a.grain_size {a = s -ℤ from_a +ℤ x *ℤ delta *ℤ a.grain_size} (omega int_laws) (
          ∣ℤ-+ℤ a.grain_size (s -ℤ from_a) _
            (∣ℤ_trans a.grain_size _ (s -ℤ from_a)
              (left-∣ℤ-lcm a.grain_size b.grain_size x y g isg bezout ne) h)
            step_a),
      ∣ℤ_cong b.grain_size {a = s -ℤ from_a -ℤ y *ℤ delta *ℤ b.grain_size}
          (omega (int_laws, parts_of_eq e))
          (∣ℤ--ℤ b.grain_size (s -ℤ from_a) _
            (∣ℤ_trans b.grain_size _ (s -ℤ from_a)
              (right-∣ℤ-lcm a.grain_size b.grain_size x y g isg bezout ne) h)
            step_b),
    ),
    λ (p, q).
        lcm_least a.grain_size b.grain_size x y g isg bezout ne (s -ℤ from_a)
          (∣ℤ_cong a.grain_size {a = s -ℤ a.offset -ℤ x *ℤ delta *ℤ a.grain_size} (omega int_laws)
            (∣ℤ--ℤ a.grain_size (s -ℤ a.offset) _ p step_a))
          (∣ℤ_cong b.grain_size {a = s -ℤ b.offset +ℤ y *ℤ delta *ℤ b.grain_size}
            (omega (int_laws, parts_of_eq e)) (∣ℤ-+ℤ b.grain_size (s -ℤ b.offset) _ q step_b)),
  )

-- A new alignment with the given set of sectors.
new-IsMeet :
    (a b : Alignment) (offset grain : ℤ)
    → pos 0 ≤ℤ grain
    → ((s : ℤ) → (grain ∣ℤ s -ℤ offset) ↔ (Satisfies a s × Satisfies b s))
    → IsMeet a b (alignment_new offset grain)
new-IsMeet a b offset grain nonneg common =
    go (alignment_new offset grain) (alignment_new-Normalises offset grain)
  where
    go : (r : Option Alignment) → Normalises offset grain r → IsMeet a b r
    go none negative = absurd (omega arith)
    go (some c) (h, e, same) =
        (rw e h, λ s. (λ p. (common s).0 ((same s).0 p), λ q. (same s).1 ((common s).1 q)))

module _ (a b : Alignment) (f : EuclidTriple) (isg : IsGcd a.grain_size b.grain_size f.gcd)
    (bezout : f.gcd ≡ f.x *ℤ a.grain_size +ℤ f.y *ℤ b.grain_size) (ne : f.gcd ≢ pos 0) where
  intersect_exact-IsMeet :
      pos 0 ≤ℤ a.grain_size → pos 0 ≤ℤ b.grain_size → Returns (intersect_exact a b f) (IsMeet a b)
  intersect_exact-IsMeet ha hb = elim (Bool-cases (f.gcd ==ℤ pos 0)) [
    | inl z ↦ absurd (ne ((==ℤ_iff f.gcd (pos 0)).0 z))
    | inr nz ↦
        rw nz
          (elim (Bool-cases
            (from_a a b f.x f.y f.gcd isg bezout ne ==ℤ from_b a b f.x f.y f.gcd isg bezout ne)) [
              | inl same ↦ rw same (
                  new-IsMeet a b _ _ (/ℤ_nonneg _ _ (*ℤ_nonneg _ _ ha hb) isg.nonneg)
                    (common_iff a b f.x f.y f.gcd isg bezout ne ((==ℤ_iff _ _).0 same)))
              | inr differ ↦ rw differ (λ s p q.
                  cc (differ, (==ℤ_iff _ _).1 (agree a b f.x f.y f.gcd isg bezout ne s p q)))
            ])
  ]

-- An alignment that the calculation with 64 bits can take.
abbrev pub IsNarrow : Alignment → Type 0
IsNarrow a = (pos 0 ≤ℤ a.grain_size) × (a.grain_size <ℤ pos (2 ^ 15)) × (abs_ℕ a.offset ≤ 2 ^ 32)

-- The factors for two such grains.
euclid_short :
    (a b : ℤ)
    → pos 0 ≤ℤ a
    → a <ℤ pos (2 ^ 15)
    → pos 0 ≤ℤ b
    → b <ℤ pos (2 ^ 15)
    → a ≢ pos 0
    → (abs_ℕ (extended_euclid a b).x < 2 ^ 15) × (abs_ℕ (extended_euclid a b).y < 2 ^ 15)
euclid_short (negsuc n) b ha na hb nb ne = absurd (omega arith)
euclid_short (pos n) (negsuc m) ha na hb nb ne = absurd (omega arith)
euclid_short (pos n) (pos m) ha na hb nb ne =
    let (last, before) = extended_euclid-IsSmall n m (pos_of n ne) in
    elim (dec_lt 0 m) [
      | yes more ↦ (omega (arith, (before more).0), omega (arith, (before more).1))
      | no none_left ↦
          let (x_one, y_zero) = last (omega arith) in (omega (arith, x_one), omega (arith, y_zero))
    ]
  where
    pos_of : (n : ℕ) → pos n ≢ pos 0 → 0 < n
    pos_of zero ne = absurd (ne refl)
    pos_of (suc n) ne = omega arith

intersect_general-IsMeet :
    (a b : Alignment)
    → IsNarrow a
    → IsNarrow b
    → a.grain_size ≢ pos 0
    → Returns (intersect_general a b) (IsMeet a b)
unfolding intersect_general
intersect_general-IsMeet a b (ha, na, oa) (hb, nb, ob) ne =
    let (hx, hy) = euclid_short a.grain_size b.grain_size ha na hb nb ne in
    rw
      (
        to_int_small a.grain_size ha (omega arith),
        to_int_small b.grain_size hb (omega arith),
        intersect_with-exact a b (extended_euclid a.grain_size b.grain_size)
            (abs_short a.grain_size ha na, oa) (abs_short b.grain_size hb nb, ob) hx hy,
      )
      (let (isg, bezout) = extended_euclid-IsGcd a.grain_size b.grain_size ha hb in
        intersect_exact-IsMeet a b _ isg bezout
          (λ e. ne (zero-∣ℤ a.grain_size (subst (λ g. g ∣ℤ a.grain_size) e isg.left))) ha hb)

module _ (a b : Alignment) (za : a.grain_size ≡ pos 0) (zb : b.grain_size ≡ pos 0) where
  same_sector : a.offset ≡ b.offset → IsMeet a b (alignment_duplicate (some a))
  unfolding alignment_duplicate
  same_sector e =
      new-IsMeet a b a.offset a.grain_size (omega (arith, parts_of_eq za))
        (λ s. (λ p. (p, subst₂ (λ g o. g ∣ℤ s -ℤ o) (za ∙ sym zb) e p), λ h. h.0))

  other_sector : a.offset ≢ b.offset → IsMeet a b none
  other_sector ne s p q =
      let at_a : s -ℤ a.offset ≡ pos 0 = zero-∣ℤ _ (subst (λ g. g ∣ℤ s -ℤ a.offset) za p) in
      let at_b : s -ℤ b.offset ≡ pos 0 = zero-∣ℤ _ (subst (λ g. g ∣ℤ s -ℤ b.offset) zb q) in
      ne (omega (int_laws, parts_of_eq at_a, parts_of_eq at_b))

both_zero :
    (a b : Alignment)
    → (a.grain_size ==ℤ pos 0 && b.grain_size ==ℤ pos 0) ≡ true
    → (a.grain_size ≡ pos 0) × (b.grain_size ≡ pos 0)
both_zero a b h = ground arith

not_zero :
    (a b : Alignment)
    → b.grain_size ≤ℤ a.grain_size
    → pos 0 ≤ℤ b.grain_size
    → (a.grain_size ==ℤ pos 0 && b.grain_size ==ℤ pos 0) ≡ false
    → a.grain_size ≢ pos 0
not_zero a b le nonneg h e = ground arith

-- Both grains zero: the two sectors are compared.
intersect_ordered-IsMeet :
    (a b : Alignment)
    → IsNarrow a
    → IsNarrow b
    → b.grain_size ≤ℤ a.grain_size
    → Returns (intersect_ordered a b) (IsMeet a b)
unfolding intersect_ordered
intersect_ordered-IsMeet a b na nb le =
    elim (Bool-cases (a.grain_size ==ℤ pos 0 && b.grain_size ==ℤ pos 0)) [
      | inl single ↦ rw single (
          let (za, zb) = both_zero a b single in
          elim (Bool-cases (a.offset ==ℤ b.offset)) [
            | inl same ↦ rw same (same_sector a b za zb ((==ℤ_iff a.offset b.offset).0 same))
            | inr other ↦
                rw other (other_sector a b za zb (λ e. cc (other, (==ℤ_iff a.offset b.offset).1 e)))
          ])
      | inr many ↦ rw many (intersect_general-IsMeet a b na nb (not_zero a b le nb.0 many))
    ]

-- For two alignments with grains from 0 to 2^15 - 1 and offsets from -2^32 to 2^32,
-- `alignment_intersect` returns an alignment, its grain not negative, that just the sectors satisfy
-- which satisfy both, or NULL if there is no such sector.
pub alignment_intersect-IsMeet :
    (a b : Alignment)
    → IsNarrow a
    → IsNarrow b
    → Returns (alignment_intersect (some a) (some b)) (IsMeet a b)
unfolding alignment_intersect
alignment_intersect-IsMeet a b na nb = elim (Bool-cases (ltb_ℤ a.grain_size b.grain_size)) [
  | inl less ↦
      rw less (Returns_map _ (IsMeet-swap a b) (intersect_ordered-IsMeet b a nb na (ground arith)))
  | inr not_less ↦ rw not_less (intersect_ordered-IsMeet a b na nb (ground arith))
]

to_int_wide : (n : ℕ) → to_int (pos (2 ^ 32 * n)) ≡ pos 0
unfolding to_int
to_int_wide n = ground arith

no_divisor : (extended_euclid (pos 0) (pos 0)).gcd ≡ pos 0
unfolding extended_euclid
no_divisor = refl

intersect_general_wide :
    (a b : Alignment) (n m : ℕ)
    → a.grain_size ≡ pos (2 ^ 32 * n)
    → b.grain_size ≡ pos (2 ^ 32 * m)
    → intersect_general a b ≡ fault
unfolding intersect_general
intersect_general_wide a b n m ea eb = rw (ea, eb, to_int_wide n, to_int_wide m, no_divisor)

-- For two grains that are multiples of 2^32, the first not 0, `alignment_intersect` divides by
-- zero.
pub alignment_intersect_wide :
    (a b : Alignment) (n m : ℕ)
    → a.grain_size ≡ pos (2 ^ 32 * suc n)
    → b.grain_size ≡ pos (2 ^ 32 * m)
    → alignment_intersect (some a) (some b) ≡ fault
unfolding alignment_intersect
alignment_intersect_wide a b n m ea eb =
    ground (
      arith,
      intersect_general_wide a b (suc n) m ea eb,
      intersect_general_wide b a m (suc n) eb ea,
    )
