-- ===== src/Disk/Insert.antt =====
-- The lists of a disk when a partition goes in and comes out again.
use mathlib.Core.List.{List, [], ◌∷◌, ◌++◌}
use parted.Prelude.{
  ℕ, ◌≡◌, ◌==◌, Bool-cases, inl, inr, Bool, true, false, none, some, refl, subst, ap, ◌∙◌,
  if◌then◌else◌,
}
use parted.Prelude.Int.{ℤ, pos, ◌+ℤ◌, ltb_ℤ}
use parted.Geom.{Geometry}
use parted.Disk.{Partition, Entry, is_extended, first_extended, first_with, walk_entries}
use parted.Disk.Chain.{raw_add, without}
use parted.Disk.Chain.Order.{Within, Avoids, NoneWith, without-NoneWith}
use parted.Disk.Update.{entry_geom, part_geom, on_extended}

-- No partition of the disk stands at the address.
abbrev pub Fresh : ℕ → List Entry → Type 0
Fresh id [] = Unit {0}
Fresh id (x ∷ xs) =
    ((x.part.id == id) ≡ false)
    × NoneWith part_geom (λ walk. walk.id == id) x.part_list
    × Fresh id xs

module _ {A : Type 0} (geom_of : A → Geometry) (test : A → Bool) where
  pub without-raw_add :
      (x : A) (l : List A)
      → test x ≡ true
      → NoneWith geom_of test l
      → without test (raw_add geom_of x l) ≡ l
  unfolding raw_add without
  without-raw_add x [] is n = rw is refl
  without-raw_add x (y ∷ ys) is (e, n) =
      elim (Bool-cases (ltb_ℤ (geom_of x).end (geom_of y).start)) [
        | inl before ↦ rw (before, is, e) (ap (λ l. y ∷ l) (without-NoneWith geom_of test ys n))
        | inr behind ↦ rw (behind, e) (ap (λ l. y ∷ l) (without-raw_add x ys is n))
      ]

  -- Another partition stays avoided, and there is none with the address in the list still.
  pub NoneWith-Avoids :
      (g : Geometry) (l : List A)
      → NoneWith geom_of test l
      → Avoids geom_of test g l
      → Avoids geom_of (λ _. false) g l
  NoneWith-Avoids g [] n a = tt
  NoneWith-Avoids g (x ∷ xs) (n, ns) (inl is, a) = cc (n, is)
  NoneWith-Avoids g (x ∷ xs) (n, ns) (inr apart, a) = (inr apart, NoneWith-Avoids g xs ns a)

-- The list of the extended partition alone is changed.
module _ (f : List Partition → List Partition) where
  pub on_extended-Within :
      (low high : ℤ) (l : List Entry)
      → Within entry_geom low high l
      → Within entry_geom low high (on_extended f l)
  on_extended-Within low high [] w = w
  on_extended-Within low high (x ∷ xs) (v, lo, w) = elim (Bool-cases (is_extended x.part.type)) [
    | inl is ↦ rw is (v, lo, w)
    | inr other ↦ rw other (v, lo, on_extended-Within ((entry_geom x).end +ℤ pos 1) high xs w)
  ]

  pub first_extended-on_extended :
      (l : List Entry) (e : Entry)
      → first_extended l ≡ some e
      → first_extended (on_extended f l) ≡ some (record e { part_list = f e.part_list })
  first_extended-on_extended [] e eq = cc eq
  first_extended-on_extended (x ∷ xs) e eq = elim (Bool-cases (is_extended x.part.type)) [
    | inl is ↦
        let head : some x ≡ some e =
          subst (λ b. (if b then some x else first_extended xs) ≡ some e) is eq in
        let same : x ≡ e = cc head in
        rw (is, is) (ap (λ (y : Entry). some (record y { part_list = f y.part_list })) same)
    | inr other ↦
        let tail : first_extended xs ≡ some e =
          subst (λ b. (if b then some x else first_extended xs) ≡ some e) other eq in
        rw (other, other) (first_extended-on_extended xs e tail)
  ]

  pub on_extended_inverse :
      (g : List Partition → List Partition) (l : List Entry)
      → ((e : Entry) → first_extended l ≡ some e → f (g e.part_list) ≡ e.part_list)
      → on_extended f (on_extended g l) ≡ l
  on_extended_inverse g [] back = refl
  on_extended_inverse g (x ∷ xs) back = elim (Bool-cases (is_extended x.part.type)) [
    | inl is ↦
        let here : first_extended (x ∷ xs) ≡ some x = rw is refl in
        rw (is, is) (ap (λ l. record x { part_list = l } ∷ xs) (back x here))
    | inr other ↦
        rw (other, other)
          (ap (λ l. x ∷ l) (on_extended_inverse g xs (λ e eq. back e (rw other eq))))
  ]

module _ (test : Partition → Bool) where
  first_with-append :
      (l r : List Partition)
      → NoneWith part_geom test l
      → first_with test (l ++ r) ≡ first_with test r
  first_with-append [] r n = refl
  first_with-append (x ∷ xs) r (e, n) = rw e (first_with-append xs r n)

  first_with-raw_add :
      (p : Partition) (l r : List Partition)
      → test p ≡ true
      → NoneWith part_geom test l
      → first_with test (raw_add part_geom p l ++ r) ≡ some p
  unfolding raw_add
  first_with-raw_add p [] r is n = rw is refl
  first_with-raw_add p (x ∷ xs) r is (e, n) = elim (Bool-cases (ltb_ℤ p.geom.end x.geom.start)) [
    | inl before ↦ rw (before, is) refl
    | inr behind ↦ rw (behind, e) (first_with-raw_add p xs r is n)
  ]

  walk_entries_first :
      (x : Entry) (xs : List Entry)
      → test x.part ≡ true
      → first_with test (walk_entries (x ∷ xs)) ≡ some x.part
  walk_entries_first x xs is = elim (Bool-cases (is_extended x.part.type)) [
    | inl ext ↦ rw (ext, is) refl
    | inr other ↦ rw (other, is) refl
  ]

  walk_entries_skip :
      (x : Entry) (xs : List Entry)
      → test x.part ≡ false
      → NoneWith part_geom test x.part_list
      → first_with test (walk_entries (x ∷ xs)) ≡ first_with test (walk_entries xs)
  walk_entries_skip x xs is n = elim (Bool-cases (is_extended x.part.type)) [
    | inl ext ↦ rw (ext, is) (first_with-append x.part_list (walk_entries xs) n)
    | inr other ↦ rw (other, is) refl
  ]

-- The partition is found at its address.
pub found_entry :
    (x : Entry) (id : ℕ) (l : List Entry)
    → (x.part.id == id) ≡ true
    → Fresh id l
    → first_with (λ p. p.id == id) (walk_entries (raw_add entry_geom x l)) ≡ some x.part
unfolding raw_add
found_entry x id [] is fresh = walk_entries_first (λ p. p.id == id) x [] is
found_entry x id (y ∷ ys) is (other, none_in, fresh) =
    elim (Bool-cases (ltb_ℤ x.part.geom.end y.part.geom.start)) [
      | inl before ↦ rw before (walk_entries_first (λ p. p.id == id) x (y ∷ ys) is)
      | inr behind ↦ rw behind (
          walk_entries_skip (λ p. p.id == id) y (raw_add entry_geom x ys) other none_in
          ∙ found_entry x id ys is fresh)
    ]

pub found_logical :
    (p : Partition) (id : ℕ) (l : List Entry) (e : Entry)
    → (p.id == id) ≡ true
    → Fresh id l
    → first_extended l ≡ some e
    → first_with (λ p. p.id == id) (walk_entries (on_extended (raw_add part_geom p) l)) ≡ some p
found_logical p id [] e is fresh eq = cc eq
found_logical p id (x ∷ xs) e is (other, none_in, fresh) eq =
    elim (Bool-cases (is_extended x.part.type)) [
      | inl ext ↦
          rw (ext, ext, other)
            (first_with-raw_add (λ p. p.id == id) p x.part_list (walk_entries xs) is none_in)
      | inr plain ↦
          let tail : first_extended xs ≡ some e =
            subst (λ b. (if b then some x else first_extended xs) ≡ some e) plain eq in
          rw plain (
            walk_entries_skip (λ p. p.id == id) x (on_extended (raw_add part_geom p) xs) other
              none_in
            ∙ found_logical p id xs e is fresh tail)
    ]

pub Fresh-NoneWith :
    (id : ℕ) (l : List Entry) → Fresh id l → NoneWith entry_geom (λ walk. walk.part.id == id) l
Fresh-NoneWith id [] fresh = tt
Fresh-NoneWith id (x ∷ xs) (other, none_in, fresh) = (other, Fresh-NoneWith id xs fresh)

pub Fresh-extended :
    (id : ℕ) (l : List Entry) (e : Entry)
    → Fresh id l
    → first_extended l ≡ some e
    → NoneWith part_geom (λ walk. walk.id == id) e.part_list
Fresh-extended id [] e fresh eq = cc eq
Fresh-extended id (x ∷ xs) e (other, none_in, fresh) eq =
    elim (Bool-cases (is_extended x.part.type)) [
      | inl is ↦
          let head : some x ≡ some e =
            subst (λ b. (if b then some x else first_extended xs) ≡ some e) is eq in
          let same : x ≡ e = cc head in
          subst (λ (y : Entry). NoneWith part_geom (λ walk. walk.id == id) y.part_list) same none_in
      | inr plain ↦
          Fresh-extended id xs e fresh
            (subst (λ b. (if b then some x else first_extended xs) ≡ some e) plain eq)
    ]

-- The extended partition is the old one, or the new one.
pub first_extended-raw_add :
    (x : Entry) (l : List Entry)
    → is_extended x.part.type ≡ false
    → first_extended (raw_add entry_geom x l) ≡ first_extended l
unfolding raw_add
first_extended-raw_add x [] plain = rw plain refl
first_extended-raw_add x (y ∷ ys) plain =
    elim (Bool-cases (ltb_ℤ x.part.geom.end y.part.geom.start)) [
      | inl before ↦ rw (before, plain) refl
      | inr behind ↦ rw (behind, first_extended-raw_add x ys plain) refl
    ]

pub first_extended_new :
    (x : Entry) (l : List Entry)
    → is_extended x.part.type ≡ true
    → first_extended l ≡ none
    → first_extended (raw_add entry_geom x l) ≡ some x
unfolding raw_add
first_extended_new x [] is eq = rw is refl
first_extended_new x (y ∷ ys) is eq = elim (Bool-cases (is_extended y.part.type)) [
  | inl ext ↦
      let head : some y ≡ none =
        subst (λ b. (if b then some y else first_extended ys) ≡ none) ext eq in
      cc head
  | inr plain ↦
      let tail : first_extended ys ≡ none =
        subst (λ b. (if b then some y else first_extended ys) ≡ none) plain eq in
      elim (Bool-cases (ltb_ℤ x.part.geom.end y.part.geom.start)) [
        | inl before ↦ rw (before, is) refl
        | inr behind ↦ rw (behind, plain) (first_extended_new x ys is tail)
      ]
]
