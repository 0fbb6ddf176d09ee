-- ===== src/NatMath/Aligned.antt =====
-- Alignments as sets of sectors, and how they are made.
use parted.Prelude.{◌≡◌, ◌↔◌, inl, inr, Bool-cases, true, none, some, Option, refl, ◌∙◌, arith}
use parted.Prelude.Int.{
  ℤ, pos, ◌+ℤ◌, ◌-ℤ◌, ◌%ℤ◌, ◌≤ℤ◌, ◌<ℤ◌, ltb_ℤ, ◌==ℤ◌, ==ℤ_iff, int_laws, ◌∣ℤ◌, ∣ℤ-+ℤ, ∣ℤ--ℤ,
  ∣ℤ_cong, %ℤ_zero_iff, parts_of_eq, *ℤ_comm, zero-*ℤ,
}
use parted.NatMath.{Alignment, alignment_init, alignment_new, alignment_is_aligned}
use parted.NatMath.Rounding.{∣ℤ-abs_mod}

-- The sectors offset + X * grain_size, for any integer X. With a grain of 0 that is one sector.
abbrev pub Satisfies : Alignment → ℤ → Type 0
Satisfies a s = a.grain_size ∣ℤ s -ℤ a.offset

pub zero-∣ℤ : (a : ℤ) → pos 0 ∣ℤ a → a ≡ pos 0
zero-∣ℤ a (k, h) = h ∙ *ℤ_comm k (pos 0) ∙ zero-*ℤ k

single_iff : (a s : ℤ) → ((s ==ℤ a) ≡ true) ↔ (pos 0 ∣ℤ s -ℤ a)
single_iff a s = (
  λ h. (pos 0, rw ((==ℤ_iff s a).0 h) (omega (int_laws, parts_of_eq (zero-*ℤ (pos 0))))),
  λ d. (==ℤ_iff s a).1 (omega (int_laws, parts_of_eq (zero-∣ℤ (s -ℤ a) d))),
)

many_iff : (g a : ℤ) → ((a %ℤ g ==ℤ pos 0) ≡ true) ↔ (g ∣ℤ a)
many_iff g a =
    (λ h. (%ℤ_zero_iff a g).0 ((==ℤ_iff _ _).0 h), λ d. (==ℤ_iff _ _).1 ((%ℤ_zero_iff a g).1 d))

-- Without a region, `alignment_is_aligned` returns true exactly for the sectors offset + X *
-- grain_size, and with a grain of 0 for the offset alone.
pub alignment_is_aligned_iff :
    (a : Alignment) (s : ℤ) → (alignment_is_aligned (some a) none s ≡ true) ↔ Satisfies a s
unfolding alignment_is_aligned
alignment_is_aligned_iff a s = elim (Bool-cases (a.grain_size ==ℤ pos 0)) [
  | inl single ↦ rw (single, (==ℤ_iff a.grain_size (pos 0)).0 single) (single_iff a.offset s)
  | inr many ↦ rw many (many_iff a.grain_size (s -ℤ a.offset))
]

-- What `alignment_init` stores: the same set of sectors. A negative grain is refused.
abbrev pub Normalises : ℤ → ℤ → Option Alignment → Type 0
Normalises offset grain_size none = grain_size <ℤ pos 0
Normalises offset grain_size (some a) =
    (pos 0 ≤ℤ grain_size)
    × (a.grain_size ≡ grain_size)
    × ((s : ℤ) → Satisfies a s ↔ (grain_size ∣ℤ s -ℤ offset))

same_set : (g o o' : ℤ) → g ∣ℤ o -ℤ o' → (s : ℤ) → (g ∣ℤ s -ℤ o') ↔ (g ∣ℤ s -ℤ o)
same_set g o o' d s = (
  λ h. ∣ℤ_cong g {a = s -ℤ o' -ℤ (o -ℤ o')} (omega int_laws) (∣ℤ--ℤ g _ _ h d),
  λ h. ∣ℤ_cong g {a = s -ℤ o +ℤ (o -ℤ o')} (omega int_laws) (∣ℤ-+ℤ g _ _ h d),
)

-- `alignment_new` returns NULL only for a negative grain, and else an alignment with that grain
-- that the same sectors satisfy as with the offset given.
pub alignment_new-Normalises :
    (offset grain_size : ℤ) → Normalises offset grain_size (alignment_new offset grain_size)
unfolding alignment_new alignment_init
alignment_new-Normalises offset g = elim (Bool-cases (ltb_ℤ g (pos 0))) [
  | inl negative ↦ rw negative (ground arith)
  | inr positive ↦ rw positive (elim (Bool-cases (g ==ℤ pos 0)) [
    | inl single ↦ rw single (ground arith, refl, λ s. (λ d. d, λ d. d))
    | inr many ↦ rw many (ground arith, refl, same_set g offset _ (∣ℤ-abs_mod offset g))
  ])
]
