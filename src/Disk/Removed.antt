-- ===== src/Disk/Removed.antt =====
-- The lists of a disk without one of the partitions in them.
use mathlib.Core.List.{List, [], ◌∷◌, map}
use parted.Prelude.{
  ℕ, ◌≡◌, ◌==◌, Bool-cases, inl, inr, Bool, true, false, Option, some, refl, sym, subst, ap, ◌∙◌,
  if◌then◌else◌,
}
use parted.Prelude.Int.{pos, ◌-ℤ◌}
use parted.Geom.{Geometry}
use parted.Disk.{Disk, Partition, Entry, is_extended, first_extended}
use parted.Disk.Chain.{without}
use parted.Disk.Chain.Order.{Within, Avoids}
use parted.Disk.Free.{without-Within}
use parted.Disk.Insert.{Fresh, first_extended-on_extended, on_extended-Within}
use parted.Disk.Layout.{IsLaidOut, PlacedIn, OnceIn}
use parted.Disk.Place.{
  StandsIn, set_geom, without_drop, without_keep, entries_removed, logicals_removed,
}
use parted.Disk.Update.{entry_geom, part_geom, on_extended, at_entry, disk_raw_remove}

-- The lists without what stands at the address: those of the logical partitions, or the disk's own.
abbrev pub removed : Bool → ℕ → List Entry → List Entry
removed true id l = on_extended (without (λ walk. walk.id == id)) l
removed false id l = without (λ walk. walk.part.id == id) l

pub disk_raw_remove_eq :
    (disk : Disk) (part : Partition)
    → disk_raw_remove disk part
      ≡ record disk { part_list = removed part.type.logical part.id disk.part_list }
unfolding disk_raw_remove
disk_raw_remove_eq disk part = ap (λ l. record disk { part_list = l }) (go part.type.logical)
  where
    go :
        (logical : Bool)
        → (if logical
            then on_extended (without (λ walk. walk.id == part.id)) disk.part_list
            else without (λ walk. walk.part.id == part.id) disk.part_list)
          ≡ removed logical part.id disk.part_list
    go true = refl
    go false = refl

Avoids-without :
    {A : Type 0} (geom_of : A → Geometry) (is_part : A → Bool) (g : Geometry) (l : List A)
    → Avoids geom_of is_part g l
    → Avoids geom_of is_part g (without is_part l)
unfolding without
Avoids-without geom_of is_part g [] a = a
Avoids-without geom_of is_part g (x ∷ xs) (apart, a) = elim (Bool-cases (is_part x)) [
  | inl out ↦
      subst (Avoids geom_of is_part g) (sym (without_drop is_part x xs out))
        (Avoids-without geom_of is_part g xs a)
  | inr kept ↦
      subst (Avoids geom_of is_part g) (sym (without_keep is_part x xs kept))
        (apart, Avoids-without geom_of is_part g xs a)
]

first_extended-without_part :
    (id : ℕ) (part : Partition) (l : List Entry)
    → is_extended part.type ≡ false
    → StandsIn id part l
    → first_extended (without (λ walk. walk.part.id == id) l) ≡ first_extended l
unfolding without
first_extended-without_part id part [] plain stands = refl
first_extended-without_part id part (x ∷ xs) plain (is, _, stands) =
    elim (Bool-cases (x.part.id == id)) [
      | inl here ↦
          let other : is_extended x.part.type ≡ false =
            ap (λ (p : Partition). is_extended p.type) (is here) ∙ plain in
          ap (λ l. first_extended l) (without_drop (λ walk. walk.part.id == id) x xs here)
          ∙ first_extended-without_part id part xs plain stands
          ∙ sym (ap (λ b. if b then some x else first_extended xs) other)
      | inr other ↦
          ap (λ l. first_extended l) (without_keep (λ walk. walk.part.id == id) x xs other)
          ∙ ap (λ o. if is_extended x.part.type then some x else o)
              (first_extended-without_part id part xs plain stands)
    ]

module _ (id : ℕ) where
  -- The region fits in as well.
  pub removed-PlacedIn :
      (logical : Bool) (l : List Entry) (g : Geometry)
      → PlacedIn logical l id g
      → PlacedIn logical (removed logical id l) id g
  removed-PlacedIn true l g (e, eq, (lo, hi, a)) = (
    record e { part_list = without (λ walk. walk.id == id) e.part_list },
    first_extended-on_extended (without (λ walk. walk.id == id)) l e eq,
    (lo, hi, Avoids-without part_geom (λ walk. walk.id == id) g e.part_list a),
  )
  removed-PlacedIn false l g (lo, hi, a) =
      (lo, hi, Avoids-without entry_geom (λ walk. walk.part.id == id) g l a)

  -- Whatever region the partition has.
  pub removed_anywhere :
      (logical : Bool) (g : Geometry) (l : List Entry)
      → Fresh id (removed logical id l)
      → removed logical id (map (at_entry id (set_geom g)) l) ≡ removed logical id l
  removed_anywhere true g l fresh = logicals_removed id g l fresh
  removed_anywhere false g l fresh = entries_removed id g l fresh

  pub removed-IsLaidOut :
      (logical : Bool) (disk : Disk) (part : Partition)
      → IsLaidOut disk
      → is_extended part.type ≡ false
      → StandsIn id part disk.part_list
      → OnceIn logical disk.part_list id
      → IsLaidOut (record disk { part_list = removed logical id disk.part_list })
  removed-IsLaidOut true disk part laid plain stands (ext, at, _) = record {
    entries =
        on_extended-Within (without (λ walk. walk.id == id)) (pos 0) (disk.length -ℤ pos 1)
          disk.part_list laid.entries;
    logicals = λ e eq.
        let same : record ext { part_list = without (λ walk. walk.id == id) ext.part_list } ≡ e =
          same_entry
            (first_extended-on_extended (without (λ walk. walk.id == id)) disk.part_list ext at)
            eq in
        subst (λ (y : Entry). Within part_geom y.part.geom.start y.part.geom.end y.part_list) same
          (without-Within part_geom (λ walk. walk.id == id) ext.part.geom.start ext.part.geom.end
            ext.part_list (laid.logicals ext at));
    addressable = laid.addressable;
  }
    where
      same_entry : {o : Option Entry} {a b : Entry} → o ≡ some a → o ≡ some b → a ≡ b
      same_entry p q = cc (p, q)
  removed-IsLaidOut false disk part laid plain stands once = record {
    entries =
        without-Within entry_geom (λ walk. walk.part.id == id) (pos 0) (disk.length -ℤ pos 1)
          disk.part_list laid.entries;
    logicals = λ e eq.
        laid.logicals e
          (sym (first_extended-without_part id part disk.part_list plain stands) ∙ eq);
    addressable = laid.addressable;
  }
