-- ===== src/Disk/Moving.antt =====
-- The steps of `ped_disk_set_partition_geom` behind the choice of the constraint.
use mathlib.Core.List.{List, [], map}
use parted.Prelude.{
  not, suc, ◌≡◌, ◌==◌, Bool, true, false, some, refl, sym, subst, ap, ◌∙◌, if◌then◌else◌,
}
use parted.Prelude.Int.{negsuc, ◌<ℤ◌, ◌==ℤ◌, int_laws}
use parted.Prelude.Run.{done, ◌>>=◌, Returns, Returns→done}
use parted.Geom.{Geometry}
use parted.Geom.Valid.{IsValid}
use parted.Constraint.Solution.{Parts, whole, IsSound, SolvedBy}
use parted.Disk.{Disk, Entry, is_extended, first_extended}
use parted.Disk.Label.{DiskOps}
use parted.Disk.Contract.{IsLabel, IsOnDisk}
use parted.Disk.Layout.{IsLaidOut, PlacedIn, OnceIn}
use parted.Disk.Insert.{Fresh}
use parted.Disk.RawAdd.{IsAdded, disk_raw_add-IsAdded}
use parted.Disk.Checking.{check_partition-checks}
use parted.Disk.Place.{StandsIn, set_geom, entries_again, entries_same, first_extended_still}
use parted.Disk.Removed.{
  removed, disk_raw_remove_eq, removed-PlacedIn, removed_anywhere, removed-IsLaidOut,
}
use parted.Disk.Counting.{
  pop_counts, positive, counted_down_up, counted_down-IsAdded, partition_align_label,
}
use parted.Disk.Update.{
  counted_up, counted_down, change, at_entry, current_in, disk_raw_add, disk_raw_remove,
}
use parted.Disk.Change.{
  popped, check_extended_partition, check_partition, with_geom, placed, set_failed, set_checked,
  set_aligned,
}

-- A numbered partition that is not extended stands in the disk, at its address and nowhere else.
pub record IsIn (disk : Disk) (part : Entry) : Type 0 where
  pub stands : current_in disk.part_list part ≡ part
  pub alone : StandsIn part.part.id part.part disk.part_list
  pub once : OnceIn part.part.type.logical disk.part_list part.part.id
  pub fresh : Fresh part.part.id (disk_raw_remove disk part.part).part_list
  pub plain : is_extended part.part.type ≡ false
  pub empty : part.part_list ≡ []
  pub numbered : (part.part.num ==ℤ negsuc 0) ≡ false

module _ (ops : DiskOps) (disk : Disk) (part : Entry) (S : Geometry → Type 0) where
  -- The partition has a new region, in `S`, or nothing has changed.
  abbrev pub Changed : Bool × Disk → Type 0
  Changed (false, disk') = disk' ≡ disk
  Changed (true, disk') =
      (g : Geometry) × IsValid g
      × S g
      × IsAdded (disk_raw_remove disk part.part) (set_geom g part.part) disk'

  abbrev with_list : List Entry → Disk
  with_list l = record disk { part_list = l; update_mode = suc disk.update_mode }

  module _ (label : IsLabel ops) (inside : (disk.update_mode == 0) ≡ false) (laid : IsLaidOut disk)
      (is_in : IsIn disk part) where
    pub failed-Changed :
        (l : List Entry)
        → map (at_entry part.part.id (set_geom part.part.geom)) l ≡ disk.part_list
        → Returns (set_failed ops false (with_list l) part) Changed
    unfolding set_failed change
    failed-Changed l back =
        rw (pop_counts ops (with_list l) disk.update_mode refl inside)
          (ap (λ l. counted_down (with_list l)) back ∙ counted_down_up disk)

    -- The disk without the partition.
    abbrev rest : List Entry
    rest = removed part.part.type.logical part.part.id disk.part_list

    rest-Fresh : Fresh part.part.id rest
    rest-Fresh =
        subst (λ (d : Disk). Fresh part.part.id d.part_list) (disk_raw_remove_eq disk part.part)
          is_in.fresh

    has_extended :
        (g : Geometry)
        → part.part.type.logical ≡ true
        → (e : Entry) × (first_extended (map (at_entry part.part.id (set_geom g)) disk.part_list)
            ≡ some e)
    has_extended g is =
        let (e, at, _) : OnceIn true disk.part_list part.part.id =
          subst (λ b. OnceIn b disk.part_list part.part.id) is is_in.once in
        first_extended_still part.part.id g disk.part_list e at

    added-Changed :
        (g : Geometry)
        → IsValid g
        → S g
        → g.end <ℤ disk.length
        → PlacedIn part.part.type.logical disk.part_list part.part.id g
        → Returns
            (disk_raw_add (with_list rest) (with_geom ops false part g) >>= popped ops false true)
            Changed
    added-Changed g v s on_device fits =
        let gone : Disk = record disk { part_list = rest } in
        let laid_gone : IsLaidOut gone =
          removed-IsLaidOut part.part.id part.part.type.logical disk part.part laid is_in.plain
            is_in.alone is_in.once in
        let (d, e, added) : (d : Disk) × (disk_raw_add (with_list rest) (with_geom ops false part g)
              ≡ done d)
            × IsAdded (counted_up gone) (set_geom g part.part) d =
          Returns→done _ _ (
            disk_raw_add-IsAdded (with_list rest) (with_geom ops false part g)
              (record {
                entries = laid_gone.entries;
                logicals = laid_gone.logicals;
                addressable = laid.addressable;
              })
              (record {
                fresh = rest-Fresh;
                valid = v;
                empty = is_in.empty;
                only_extended = λ is. cc (is, is_in.plain);
                on_device = omega int_laws;
                placed = removed-PlacedIn part.part.id part.part.type.logical disk.part_list g fits;
              })
              (positive disk.update_mode)) in
        let (down, mode) = counted_down-IsAdded gone d (set_geom g part.part) added in
        rw (e, pop_counts ops d disk.update_mode mode inside)
          (
            g,
            v,
            s,
            subst (λ (x : Disk). IsAdded x (set_geom g part.part) (counted_down d))
                (sym (disk_raw_remove_eq disk part.part)) down,
          )

    abbrev moved : Geometry → List Entry
    moved g = map (at_entry part.part.id (set_geom g)) disk.part_list

    moved_back :
        (g : Geometry)
        → map (at_entry part.part.id (set_geom part.part.geom)) (moved g) ≡ disk.part_list
    moved_back g =
        entries_again part.part.id g part.part.geom disk.part_list
        ∙ entries_same part.part.id part.part disk.part_list is_in.alone

    without_moved :
        (g : Geometry) → disk_raw_remove (with_list (moved g)) part.part ≡ with_list rest
    without_moved g =
        disk_raw_remove_eq (with_list (moved g)) part.part
        ∙ ap with_list
            (removed_anywhere part.part.id part.part.type.logical g disk.part_list rest-Fresh)

    checked-Changed :
        (g : Geometry) (l : List Entry)
        → map (at_entry part.part.id (set_geom g)) l
          ≡ map (at_entry part.part.id (set_geom g)) disk.part_list
        → IsValid g
        → S g
        → PlacedIn part.part.type.logical disk.part_list part.part.id g
        → Returns (set_checked ops false (with_list l) part g) Changed
    unfolding set_checked change
    checked-Changed g l same v s fits =
        let (ok, e, checks) : (ok : Bool) × (check_partition ops false (with_list (moved g))
                (with_geom ops false part g)
              ≡ done ok)
            × (ok ≡ true
                → (g.end <ℤ disk.length)
                  × (is_extended part.part.type ≡ true
                      → check_extended_partition ops false (with_list (moved g))
                          (with_geom ops false part g)
                        ≡ true)) =
          Returns→done _ _ (
            check_partition-checks ops (with_list (moved g)) (with_geom ops false part g) v
              (has_extended g)) in
        rw (same, e) (go ok checks)
      where
        go :
            (ok : Bool)
            → (ok ≡ true
                → (g.end <ℤ disk.length)
                  × (is_extended part.part.type ≡ true
                      → check_extended_partition ops false
                          (with_list (moved g))
                          (with_geom ops false part g)
                        ≡ true))
            → Returns
                (if not ok
                  then set_failed ops false (with_list (moved g)) part
                  else disk_raw_add
                      (disk_raw_remove (with_list (moved g)) part.part)
                      (with_geom ops false part g)
                    >>= popped ops false true)
                Changed
        go false checks = failed-Changed (moved g) (moved_back g)
        go true checks = rw (without_moved g) (added-Changed g v s (checks refl).0 fits)

    pub aligned-Changed :
        disk.needs_clobber ≡ false
        → (new : Geometry) (p : Parts) → IsSound p
        → IsOnDisk disk new p
        → ((h : Geometry)
            → IsValid h
            → SolvedBy p h
            → S h × PlacedIn part.part.type.logical disk.part_list part.part.id h)
        → Returns
            (set_aligned ops false (with_list disk.part_list) part new (some (whole p)))
            Changed
    unfolding set_aligned change
    aligned-Changed clean new p sound on_disk within =
        let ((aligned, g), e, solved) : (r : Bool × Geometry) × (ops.partition_align
                (with_list (moved new)) (with_geom ops false part new).part (some (whole p))
              ≡ done r)
            × (r.0 ≡ true → IsValid r.1 × SolvedBy p r.1) =
          Returns→done _ _ (
            label.aligns (with_list (moved new)) (with_geom ops false part new).part p sound
              on_disk) in
        rw
          (
            partition_align_label ops (with_list (moved new)) (with_geom ops false part new).part
                (some (whole p)) is_in.numbered (positive disk.update_mode) clean,
            e,
          )
          (go aligned g solved)
      where
        go :
            (aligned : Bool) (g : Geometry)
            → (aligned ≡ true → IsValid g × SolvedBy p g)
            → Returns
                (if not aligned
                  then set_failed ops false (placed ops false (with_list (moved new)) part g) part
                  else set_checked ops false (with_list (moved new)) part g)
                Changed
        go false g solved = failed-Changed (map (at_entry part.part.id (set_geom g)) (moved new)) (
            ap (map (at_entry part.part.id (set_geom part.part.geom)))
              (entries_again part.part.id new g disk.part_list)
            ∙ moved_back g)
        go true g solved =
            let (v, s) = solved refl in
            let (in_S, fits) = within g v s in
            checked-Changed g (moved new) (entries_again part.part.id new g disk.part_list) v in_S
              fits
