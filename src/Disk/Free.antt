-- ===== src/Disk/Free.antt =====
-- The lists of a disk when the free space is taken out.
use mathlib.Core.List.{List, [], ◌∷◌}
use parted.Prelude.{
  ◌≡◌, ◌&&◌, ◌||◌, not, Bool-cases, inl, inr, Bool, true, false, none, some, refl, sym, subst, ap,
  ◌∙◌, arith, if◌then◌else◌,
}
use parted.Prelude.Int.{ℤ, pos, ◌+ℤ◌, int_laws}
use parted.Geom.{Geometry}
use parted.Geom.Valid.{start-le-end}
use parted.Disk.{Partition, Entry, is_extended, first_extended}
use parted.Disk.Chain.{without}
use parted.Disk.Chain.Order.{Within, Within_lower, NoneWith}
use parted.Disk.Update.{entry_geom, on_extended}

abbrev pub entry_free : Entry → Bool
entry_free walk = walk.part.type.freespace

abbrev pub part_free : Partition → Bool
part_free walk = walk.type.freespace

module _ {A : Type 0} (geom_of : A → Geometry) (test : A → Bool) where
  pub without-Within :
      (low high : ℤ) (l : List A)
      → Within geom_of low high l
      → Within geom_of low high (without test l)
  unfolding without
  without-Within low high [] w = w
  without-Within low high (x ∷ xs) (v, lo, w) =
      let rest : Within geom_of ((geom_of x).end +ℤ pos 1) high (without test xs) =
        without-Within ((geom_of x).end +ℤ pos 1) high xs w in
      elim (Bool-cases (test x)) [
        | inl out ↦ rw out (
            Within_lower geom_of ((geom_of x).end +ℤ pos 1) low high (without test xs)
              (omega (int_laws, start-le-end v)) rest)
        | inr kept ↦ rw kept (v, lo, rest)
      ]

  pub NoneWith-without : (l : List A) → NoneWith geom_of test (without test l)
  unfolding without
  NoneWith-without [] = tt
  NoneWith-without (x ∷ xs) = elim (Bool-cases (test x)) [
    | inl out ↦ rw out (NoneWith-without xs)
    | inr kept ↦ rw kept (kept, NoneWith-without xs)
  ]

-- A change of the list of the extended partition leaves what is free.
pub NoneWith-on_extended :
    (f : List Partition → List Partition) (l : List Entry)
    → NoneWith entry_geom entry_free l
    → NoneWith entry_geom entry_free (on_extended f l)
NoneWith-on_extended f [] n = tt
NoneWith-on_extended f (x ∷ xs) (e, n) = elim (Bool-cases (is_extended x.part.type)) [
  | inl is ↦ rw is (e, n)
  | inr other ↦ rw other (e, NoneWith-on_extended f xs n)
]

without_out :
    (x : Entry) (xs : List Entry)
    → entry_free x ≡ true
    → without entry_free (x ∷ xs) ≡ without entry_free xs
unfolding without
without_out x xs out = ap (λ b. if b then without entry_free xs else x ∷ without entry_free xs) out

without_kept :
    (x : Entry) (xs : List Entry)
    → entry_free x ≡ false
    → without entry_free (x ∷ xs) ≡ x ∷ without entry_free xs
unfolding without
without_kept x xs kept =
    ap (λ b. if b then without entry_free xs else x ∷ without entry_free xs) kept

first_extended_other :
    (x : Entry) (xs : List Entry)
    → is_extended x.part.type ≡ false
    → first_extended (x ∷ xs) ≡ first_extended xs
first_extended_other x xs other = ap (λ b. if b then some x else first_extended xs) other

-- The extended partition is no free space.
pub first_extended-without :
    (l : List Entry) → first_extended (without entry_free l) ≡ first_extended l
unfolding without
first_extended-without [] = refl
first_extended-without (x ∷ xs) = elim (Bool-cases (entry_free x)) [
  | inl free ↦
      let no_extended : is_extended x.part.type ≡ false = free_no_extended _ _ _ _ _ free in
      ap (λ l. first_extended l) (without_out x xs free)
      ∙ first_extended-without xs
      ∙ sym (first_extended_other x xs no_extended)
  | inr kept ↦
      ap (λ l. first_extended l) (without_kept x xs kept)
      ∙ ap (λ o. if is_extended x.part.type then some x else o) (first_extended-without xs)
]
  where
    free_no_extended : (e l f m p : Bool) → f ≡ true → (e && not (l || f || m || p)) ≡ false
    free_no_extended e l f m p free = ground arith

pub on_extended-none :
    (f : List Partition → List Partition) (l : List Entry)
    → first_extended l ≡ none
    → on_extended f l ≡ l
on_extended-none f [] eq = refl
on_extended-none f (x ∷ xs) eq = elim (Bool-cases (is_extended x.part.type)) [
  | inl is ↦
      let head : some x ≡ none =
        subst (λ b. (if b then some x else first_extended xs) ≡ none) is eq in
      cc head
  | inr other ↦
      let tail : first_extended xs ≡ none =
        subst (λ b. (if b then some x else first_extended xs) ≡ none) other eq in
      ap (λ b. if b then record x { part_list = f x.part_list } ∷ xs else x ∷ on_extended f xs)
        other
      ∙ ap (λ l. x ∷ l) (on_extended-none f xs tail)
]

-- The lists of a disk without free space.
unfoldable pub taken : List Entry → List Entry
taken l = on_extended (without part_free) (without entry_free l)
