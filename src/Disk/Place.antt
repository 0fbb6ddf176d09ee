-- ===== src/Disk/Place.antt =====
-- A new region for a partition in the lists of a disk, and the old one again.
use mathlib.Core.List.{List, [], ◌∷◌, map}
use parted.Prelude.{
  ℕ, ◌≡◌, ◌==◌, Bool-cases, inl, inr, Bool, true, false, some, refl, sym, subst, ap, ap₂, ◌∙◌,
  if◌then◌else◌,
}
use parted.Geom.{Geometry}
use parted.Disk.{Partition, Entry, is_extended, first_extended}
use parted.Disk.Chain.{without}
use parted.Disk.Chain.Order.{NoneWith}
use parted.Disk.Insert.{Fresh}
use parted.Disk.Update.{part_geom, on_extended, at_part, at_entry}

module _ {A : Type 0} (test : A → Bool) where
  pub without_drop : (x : A) (xs : List A) → test x ≡ true → without test (x ∷ xs) ≡ without test xs
  unfolding without
  without_drop x xs out = ap (λ b. if b then without test xs else x ∷ without test xs) out

  pub without_keep :
      (x : A) (xs : List A) → test x ≡ false → without test (x ∷ xs) ≡ x ∷ without test xs
  unfolding without
  without_keep x xs kept = ap (λ b. if b then without test xs else x ∷ without test xs) kept

extended_step :
    (f : List Partition → List Partition) (x : Entry) (xs : List Entry)
    → is_extended x.part.type ≡ true
    → on_extended f (x ∷ xs) ≡ record x { part_list = f x.part_list } ∷ xs
extended_step f x xs is =
    ap (λ b. if b then record x { part_list = f x.part_list } ∷ xs else x ∷ on_extended f xs) is

plain_step :
    (f : List Partition → List Partition) (x : Entry) (xs : List Entry)
    → is_extended x.part.type ≡ false
    → on_extended f (x ∷ xs) ≡ x ∷ on_extended f xs
plain_step f x xs plain =
    ap (λ b. if b then record x { part_list = f x.part_list } ∷ xs else x ∷ on_extended f xs) plain

-- The partition lies in the region `g`.
abbrev pub set_geom : Geometry → Partition → Partition
set_geom g walk = record walk { geom = g }

module _ (id : ℕ) where
  -- What stands at the address is the partition.
  abbrev pub StandIn : Partition → List Partition → Type 0
  StandIn part [] = Unit {0}
  StandIn part (p ∷ ps) = ((p.id == id) ≡ true → p ≡ part) × StandIn part ps

  abbrev pub StandsIn : Partition → List Entry → Type 0
  StandsIn part [] = Unit {0}
  StandsIn part (x ∷ xs) =
      ((x.part.id == id) ≡ true → x.part ≡ part) × StandIn part x.part_list × StandsIn part xs

  at_part_here :
      (f : Partition → Partition) (p : Partition) → (p.id == id) ≡ true → at_part id f p ≡ f p
  at_part_here f p here = ap (λ b. if b then f p else p) here

  at_part_other :
      (f : Partition → Partition) (p : Partition) → (p.id == id) ≡ false → at_part id f p ≡ p
  at_part_other f p other = ap (λ b. if b then f p else p) other

  at_part_again :
      (g new : Geometry) (p : Partition)
      → at_part id (set_geom new) (at_part id (set_geom g) p) ≡ at_part id (set_geom new) p
  at_part_again g new p = elim (Bool-cases (p.id == id)) [
    | inl here ↦
        ap (at_part id (set_geom new)) (at_part_here (set_geom g) p here)
        ∙ at_part_here (set_geom new) (set_geom g p) here
        ∙ sym (at_part_here (set_geom new) p here)
    | inr other ↦ ap (at_part id (set_geom new)) (at_part_other (set_geom g) p other)
  ]

  parts_again :
      (g new : Geometry) (l : List Partition)
      → map (at_part id (set_geom new)) (map (at_part id (set_geom g)) l)
        ≡ map (at_part id (set_geom new)) l
  parts_again g new [] = refl
  parts_again g new (p ∷ ps) =
      ap₂ (λ (x : Partition) l. x ∷ l) (at_part_again g new p) (parts_again g new ps)

  -- Of two regions the second counts.
  pub entries_again :
      (g new : Geometry) (l : List Entry)
      → map (at_entry id (set_geom new)) (map (at_entry id (set_geom g)) l)
        ≡ map (at_entry id (set_geom new)) l
  entries_again g new [] = refl
  entries_again g new (x ∷ xs) =
      ap₂ (λ (y : Entry) l. y ∷ l)
        (ap₂ (λ p l. record { part = p; part_list = l }) (at_part_again g new x.part)
          (parts_again g new x.part_list))
        (entries_again g new xs)

  -- A region that it has already changes nothing.
  at_part_same :
      (part p : Partition)
      → ((p.id == id) ≡ true → p ≡ part)
      → at_part id (set_geom part.geom) p ≡ p
  at_part_same part p stands = elim (Bool-cases (p.id == id)) [
    | inl here ↦
        at_part_here (set_geom part.geom) p here
        ∙ ap (λ (q : Partition). set_geom q.geom p) (sym (stands here))
    | inr other ↦ at_part_other (set_geom part.geom) p other
  ]

  parts_same :
      (part : Partition) (l : List Partition)
      → StandIn part l
      → map (at_part id (set_geom part.geom)) l ≡ l
  parts_same part [] stands = refl
  parts_same part (p ∷ ps) (stands, rest) =
      ap₂ (λ (x : Partition) l. x ∷ l) (at_part_same part p stands) (parts_same part ps rest)

  pub entries_same :
      (part : Partition) (l : List Entry)
      → StandsIn part l
      → map (at_entry id (set_geom part.geom)) l ≡ l
  entries_same part [] stands = refl
  entries_same part (x ∷ xs) (stands, inner, rest) =
      ap₂ (λ (y : Entry) l. y ∷ l)
        (ap₂ (λ p l. record { part = p; part_list = l }) (at_part_same part x.part stands)
          (parts_same part x.part_list inner))
        (entries_same part xs rest)

  module _ (g : Geometry) where
    at_part_type : (p : Partition) → (at_part id (set_geom g) p).type ≡ p.type
    at_part_type p = elim (Bool-cases (p.id == id)) [
      | inl here ↦ ap (λ (q : Partition). q.type) (at_part_here (set_geom g) p here)
      | inr other ↦ ap (λ (q : Partition). q.type) (at_part_other (set_geom g) p other)
    ]

    -- The extended partition is there still.
    pub first_extended_still :
        (l : List Entry) (e : Entry)
        → first_extended l ≡ some e
        → (e' : Entry) × (first_extended (map (at_entry id (set_geom g)) l) ≡ some e')
    first_extended_still [] e eq = cc eq
    first_extended_still (x ∷ xs) e eq =
        let kept : is_extended (at_part id (set_geom g) x.part).type ≡ is_extended x.part.type =
          ap (λ t. is_extended t) (at_part_type x.part) in
        elim (Bool-cases (is_extended x.part.type)) [
          | inl is ↦ (
            at_entry id (set_geom g) x,
            ap
                (λ b.
                  if b
                  then some (at_entry id (set_geom g) x)
                  else first_extended (map (at_entry id (set_geom g)) xs))
                (kept ∙ is),
          )
          | inr plain ↦
              let tail : first_extended xs ≡ some e =
                subst (λ b. (if b then some x else first_extended xs) ≡ some e) plain eq in
              let (e', eq') = first_extended_still xs e tail in
              (
                e',
                ap
                      (λ b.
                        if b
                        then some (at_entry id (set_geom g) x)
                        else first_extended (map (at_entry id (set_geom g)) xs))
                      (kept ∙ plain)
                    ∙ eq',
              )
        ]

    parts_other :
        (l : List Partition)
        → NoneWith part_geom (λ walk. walk.id == id) l
        → map (at_part id (set_geom g)) l ≡ l
    parts_other [] n = refl
    parts_other (p ∷ ps) (other, n) =
        ap₂ (λ (x : Partition) l. x ∷ l) (at_part_other (set_geom g) p other) (parts_other ps n)

    entry_other :
        (x : Entry)
        → (x.part.id == id) ≡ false
        → NoneWith part_geom (λ walk. walk.id == id) x.part_list
        → at_entry id (set_geom g) x ≡ x
    entry_other x other n =
        ap₂ (λ p l. record { part = p; part_list = l }) (at_part_other (set_geom g) x.part other)
          (parts_other x.part_list n)

    entries_other : (l : List Entry) → Fresh id l → map (at_entry id (set_geom g)) l ≡ l
    entries_other [] fresh = refl
    entries_other (x ∷ xs) (other, n, fresh) =
        ap₂ (λ (y : Entry) l. y ∷ l) (entry_other x other n) (entries_other xs fresh)

    -- Without it the lists are the same with either region.
    parts_removed :
        (l : List Partition)
        → without (λ walk. walk.id == id) (map (at_part id (set_geom g)) l)
          ≡ without (λ walk. walk.id == id) l
    parts_removed [] = refl
    parts_removed (p ∷ ps) = elim (Bool-cases (p.id == id)) [
      | inl here ↦
          without_drop (λ walk. walk.id == id) (at_part id (set_geom g) p)
            (map (at_part id (set_geom g)) ps)
            (ap (λ (x : Partition). x.id == id) (at_part_here (set_geom g) p here) ∙ here)
          ∙ parts_removed ps
          ∙ sym (without_drop (λ walk. walk.id == id) p ps here)
      | inr other ↦
          without_keep (λ walk. walk.id == id) (at_part id (set_geom g) p)
            (map (at_part id (set_geom g)) ps)
            (ap (λ (x : Partition). x.id == id) (at_part_other (set_geom g) p other) ∙ other)
          ∙ ap₂ (λ (x : Partition) l. x ∷ l) (at_part_other (set_geom g) p other) (parts_removed ps)
          ∙ sym (without_keep (λ walk. walk.id == id) p ps other)
    ]

    pub entries_removed :
        (l : List Entry)
        → Fresh id (without (λ walk. walk.part.id == id) l)
        → without (λ walk. walk.part.id == id) (map (at_entry id (set_geom g)) l)
          ≡ without (λ walk. walk.part.id == id) l
    entries_removed [] fresh = refl
    entries_removed (x ∷ xs) fresh = elim (Bool-cases (x.part.id == id)) [
      | inl here ↦
          without_drop (λ walk. walk.part.id == id) (at_entry id (set_geom g) x)
            (map (at_entry id (set_geom g)) xs)
            (ap (λ (p : Partition). p.id == id) (at_part_here (set_geom g) x.part here) ∙ here)
          ∙ entries_removed xs
              (subst (Fresh id) (without_drop (λ walk. walk.part.id == id) x xs here) fresh)
          ∙ sym (without_drop (λ walk. walk.part.id == id) x xs here)
      | inr other ↦
          let (_, n, rest) : Fresh id (x ∷ without (λ walk. walk.part.id == id) xs) =
            subst (Fresh id) (without_keep (λ walk. walk.part.id == id) x xs other) fresh in
          without_keep (λ walk. walk.part.id == id) (at_entry id (set_geom g) x)
            (map (at_entry id (set_geom g)) xs)
            (ap (λ (p : Partition). p.id == id) (at_part_other (set_geom g) x.part other) ∙ other)
          ∙ ap₂ (λ (y : Entry) l. y ∷ l) (entry_other x other n) (entries_removed xs rest)
          ∙ sym (without_keep (λ walk. walk.part.id == id) x xs other)
    ]

    pub logicals_removed :
        (l : List Entry)
        → Fresh id (on_extended (without (λ walk. walk.id == id)) l)
        → on_extended (without (λ walk. walk.id == id)) (map (at_entry id (set_geom g)) l)
          ≡ on_extended (without (λ walk. walk.id == id)) l
    logicals_removed [] fresh = refl
    logicals_removed (x ∷ xs) fresh = elim (Bool-cases (is_extended x.part.type)) [
      | inl is ↦
          let (other, _, rest) : Fresh id
              (record x { part_list = without (λ walk. walk.id == id) x.part_list } ∷ xs) =
            subst (Fresh id) (extended_step (without (λ walk. walk.id == id)) x xs is) fresh in
          let same : at_entry id (set_geom g) x
              ≡ record x { part_list = map (at_part id (set_geom g)) x.part_list } =
            ap (λ p. record { part = p; part_list = map (at_part id (set_geom g)) x.part_list })
              (at_part_other (set_geom g) x.part other) in
          ap
            (λ (y : Entry).
              on_extended (without (λ walk. walk.id == id)) (y ∷ map (at_entry id (set_geom g)) xs))
            same
          ∙ extended_step (without (λ walk. walk.id == id))
              (record x { part_list = map (at_part id (set_geom g)) x.part_list })
              (map (at_entry id (set_geom g)) xs) is
          ∙ ap₂ (λ l (l' : List Entry). record x { part_list = l } ∷ l') (parts_removed x.part_list)
              (entries_other xs rest)
          ∙ sym (extended_step (without (λ walk. walk.id == id)) x xs is)
      | inr plain ↦
          let (other, n, rest) : Fresh id (x ∷ on_extended (without (λ walk. walk.id == id)) xs) =
            subst (Fresh id) (plain_step (without (λ walk. walk.id == id)) x xs plain) fresh in
          ap
            (λ (y : Entry).
              on_extended (without (λ walk. walk.id == id)) (y ∷ map (at_entry id (set_geom g)) xs))
            (entry_other x other n)
          ∙ plain_step (without (λ walk. walk.id == id)) x (map (at_entry id (set_geom g)) xs) plain
          ∙ ap (λ l. x ∷ l) (logicals_removed xs rest)
          ∙ sym (plain_step (without (λ walk. walk.id == id)) x xs plain)
    ]
