-- ===== src/Disk/RawAdd.antt =====
-- A partition goes into the lists of a disk and comes out again: `_disk_raw_add` and
-- `_disk_raw_remove`.
use mathlib.Core.List.{List, []}
use parted.Prelude.{
  ℕ, ◌≡◌, ◌==◌, ltb, Bool-cases, inl, inr, true, false, none, some, refl, sym, subst, ap, ◌∙◌,
  arith, if◌then◌else◌,
}
use parted.Prelude.Int.{pos, ◌-ℤ◌, ◌≤ℤ◌, int_laws}
use parted.Prelude.Run.{done, deref, ◌>>=◌, Returns}
use parted.Geom.Valid.{IsValid, start-le-end}
use parted.Disk.{
  Disk, Partition, Entry, is_extended, first_extended, first_with, walk_entries,
  disk_extended_partition,
}
use parted.Disk.Chain.{raw_add, without}
use parted.Disk.Chain.Order.{Within, raw_add-Within}
use parted.Disk.Layout.{IsLaidOut, PlacedIn}
use parted.Disk.Update.{entry_geom, part_geom, on_extended, disk_raw_add, disk_raw_remove}
use parted.Disk.Insert.{
  Fresh, found_entry, found_logical, Fresh-NoneWith, Fresh-extended, first_extended-raw_add,
  first_extended_new, first_extended-on_extended, on_extended_inverse, on_extended-Within,
  without-raw_add, NoneWith-Avoids,
}

-- The disk is laid out still, the partition stands at its address, and without it the disk is as
-- before.
abbrev pub IsAdded : Disk → Partition → Disk → Type 0
IsAdded disk part disk' =
    IsLaidOut disk'
    × (first_with (λ walk. walk.id == part.id) (walk_entries disk'.part_list) ≡ some part)
    × (disk_raw_remove disk' part ≡ disk)

-- A partition that is new to the disk and that fits in.
pub record IsNew (disk : Disk) (x : Entry) : Type 0 where
  pub fresh : Fresh x.part.id disk.part_list
  pub valid : IsValid x.part.geom
  pub empty : x.part_list ≡ []
  pub only_extended : is_extended x.part.type ≡ true → first_extended disk.part_list ≡ none
  pub on_device : x.part.geom.end ≤ℤ disk.length -ℤ pos 1
  pub placed : PlacedIn x.part.type.logical disk.part_list x.part.id x.part.geom

same_id : (n : ℕ) → (n == n) ≡ true
same_id n = ground arith

with_logicals : (List Partition → List Partition) → Disk → Disk
with_logicals f disk = record disk { part_list = on_extended f disk.part_list }

disk_raw_add_logical :
    (disk : Disk) (x ext : Entry)
    → ltb 0 disk.update_mode ≡ true
    → x.part.type.logical ≡ true
    → first_extended disk.part_list ≡ some ext
    → disk_raw_add disk x ≡ done (with_logicals (raw_add part_geom x.part) disk)
unfolding disk_raw_add disk_extended_partition with_logicals
disk_raw_add_logical disk x ext updating is at = rw updating (
    subst
      (λ b.
        (if b
          then deref (first_extended disk.part_list)
            >>= (λ _. done (with_logicals (raw_add part_geom x.part) disk))
          else done (record disk { part_list = raw_add entry_geom x disk.part_list }))
        ≡ done (with_logicals (raw_add part_geom x.part) disk))
      (sym is) (rw at refl))

disk_raw_remove_logical :
    (disk : Disk) (part : Partition)
    → part.type.logical ≡ true
    → disk_raw_remove disk part ≡ with_logicals (without (λ walk. walk.id == part.id)) disk
unfolding disk_raw_remove with_logicals
disk_raw_remove_logical disk part is =
    ap
      (λ b. record disk {
        part_list =
            if b
            then on_extended (without (λ walk. walk.id == part.id)) disk.part_list
            else without (λ walk. walk.part.id == part.id) disk.part_list;
      })
      is

with_entries : (List Entry → List Entry) → Disk → Disk
with_entries f disk = record disk { part_list = f disk.part_list }

disk_raw_add_primary :
    (disk : Disk) (x : Entry)
    → ltb 0 disk.update_mode ≡ true
    → x.part.type.logical ≡ false
    → disk_raw_add disk x ≡ done (with_entries (raw_add entry_geom x) disk)
unfolding disk_raw_add with_entries
disk_raw_add_primary disk x updating plain = rw updating (
    ap
      (λ b.
        if b
        then deref (disk_extended_partition disk) >>= (λ _.
          done (record disk { part_list = on_extended (raw_add part_geom x.part) disk.part_list }))
        else done (record disk { part_list = raw_add entry_geom x disk.part_list }))
      plain)

disk_raw_remove_primary :
    (disk : Disk) (part : Partition)
    → part.type.logical ≡ false
    → disk_raw_remove disk part ≡ with_entries (without (λ walk. walk.part.id == part.id)) disk
unfolding disk_raw_remove with_entries
disk_raw_remove_primary disk part plain =
    ap
      (λ b. record disk {
        part_list =
            if b
            then on_extended (without (λ walk. walk.id == part.id)) disk.part_list
            else without (λ walk. walk.part.id == part.id) disk.part_list;
      })
      plain

module _ (disk : Disk) (x : Entry) (laid : IsLaidOut disk) (new : IsNew disk x) where
  primary-IsLaidOut :
      x.part.type.logical ≡ false
      → IsLaidOut (record disk { part_list = raw_add entry_geom x disk.part_list })
  primary-IsLaidOut plain =
      let fits : PlacedIn false disk.part_list x.part.id x.part.geom =
        subst (λ b. PlacedIn b disk.part_list x.part.id x.part.geom) plain new.placed in
      record {
        entries =
            raw_add-Within entry_geom x (pos 0) (disk.length -ℤ pos 1) disk.part_list new.valid
              new.valid.not_negative new.on_device
              (NoneWith-Avoids entry_geom (λ walk. walk.part.id == x.part.id) x.part.geom
                disk.part_list (Fresh-NoneWith x.part.id disk.part_list new.fresh) fits.2)
              laid.entries;
        logicals = λ e eq. elim (Bool-cases (is_extended x.part.type)) [
          | inl ext ↦
              let added : some x ≡ some e =
                sym (first_extended_new x disk.part_list ext (new.only_extended ext)) ∙ eq in
              let same : x ≡ e = cc added in
              subst (λ (y : Entry). Within part_geom y.part.geom.start y.part.geom.end y.part_list)
                same (rw new.empty (omega (int_laws, start-le-end new.valid)))
          | inr other ↦ laid.logicals e (sym (first_extended-raw_add x disk.part_list other) ∙ eq)
        ];
        addressable = laid.addressable;
      }

  logical-IsLaidOut :
      x.part.type.logical ≡ true
      → IsLaidOut
          (record disk { part_list = on_extended (raw_add part_geom x.part) disk.part_list })
  logical-IsLaidOut is =
      let (ext, at, (lo, hi, avoids)) : PlacedIn true disk.part_list x.part.id x.part.geom =
        subst (λ b. PlacedIn b disk.part_list x.part.id x.part.geom) is new.placed in
      record {
        entries =
            on_extended-Within (raw_add part_geom x.part) (pos 0) (disk.length -ℤ pos 1)
              disk.part_list laid.entries;
        logicals = λ e eq.
            let same_entry : some
                  (record ext { part_list = raw_add part_geom x.part ext.part_list })
                ≡ some e =
              sym (first_extended-on_extended (raw_add part_geom x.part) disk.part_list ext at)
              ∙ eq in
            let same : record ext { part_list = raw_add part_geom x.part ext.part_list } ≡ e =
              cc same_entry in
            subst (λ (y : Entry). Within part_geom y.part.geom.start y.part.geom.end y.part_list)
              same
              (raw_add-Within part_geom x.part ext.part.geom.start ext.part.geom.end ext.part_list
                new.valid lo hi
                (NoneWith-Avoids part_geom (λ walk. walk.id == x.part.id) x.part.geom ext.part_list
                  (Fresh-extended x.part.id disk.part_list ext new.fresh at) avoids)
                (laid.logicals ext at));
        addressable = laid.addressable;
      }

  -- In update mode, a partition that is new to a disk that is laid out, is valid and has no sector
  -- of another one, lies on the device, or in the extended partition if it is logical, goes into
  -- the disk, which stays laid out. There it is found at its address, and to remove it again gives
  -- the old disk.
  pub disk_raw_add-IsAdded :
      ltb 0 disk.update_mode ≡ true → Returns (disk_raw_add disk x) (IsAdded disk x.part)
  unfolding with_entries with_logicals
  disk_raw_add-IsAdded updating = elim (Bool-cases x.part.type.logical) [
    | inr plain ↦
        subst (λ r. Returns r (IsAdded disk x.part))
          (sym (disk_raw_add_primary disk x updating plain))
          (
            primary-IsLaidOut plain,
            found_entry x x.part.id disk.part_list (same_id x.part.id) new.fresh,
            disk_raw_remove_primary (with_entries (raw_add entry_geom x) disk) x.part plain
                ∙ ap (λ l. record disk { part_list = l })
                    (without-raw_add entry_geom (λ walk. walk.part.id == x.part.id) x disk.part_list
                      (same_id x.part.id) (Fresh-NoneWith x.part.id disk.part_list new.fresh)),
          )
    | inl is ↦
        let (ext, at, _) : PlacedIn true disk.part_list x.part.id x.part.geom =
          subst (λ b. PlacedIn b disk.part_list x.part.id x.part.geom) is new.placed in
        subst (λ r. Returns r (IsAdded disk x.part))
          (sym (disk_raw_add_logical disk x ext updating is at))
          (
            logical-IsLaidOut is,
            found_logical x.part x.part.id disk.part_list ext (same_id x.part.id) new.fresh at,
            disk_raw_remove_logical (with_logicals (raw_add part_geom x.part) disk) x.part is
                ∙ ap (λ l. record disk { part_list = l })
                    (on_extended_inverse (without (λ walk. walk.id == x.part.id))
                      (raw_add part_geom x.part) disk.part_list
                      (λ e eq.
                        without-raw_add part_geom (λ walk. walk.id == x.part.id) x.part e.part_list
                          (same_id x.part.id)
                          (Fresh-extended x.part.id disk.part_list e new.fresh eq))),
          )
  ]
