-- ===== src/Disk/Adding.antt =====
-- `ped_disk_add_partition` in update mode.
use mathlib.Core.List.{[]}
use parted.Prelude.{
  not, ℕ, ◌≡◌, ◌==◌, Bool, true, false, Option, none, some, refl, sym, subst, ◌∙◌, arith,
  if◌then◌else◌,
}
use parted.Prelude.Int.{ℤ, negsuc, ◌<ℤ◌, ◌==ℤ◌, int_laws}
use parted.Prelude.Run.{done, ◌>>=◌, Returns, Returns→done}
use parted.Geom.{Geometry}
use parted.Geom.Valid.{IsValid}
use parted.NatMath.Intersect.{IsNarrow}
use parted.Constraint.{Constraint, constraint_intersect}
use parted.Constraint.Solution.{Parts, whole, IsSound, SolvedBy}
use parted.Constraint.Made.{MadeOf, IsIntersection, constraint_intersect-IsIntersection}
use parted.Disk.{Disk, Entry, is_extended, first_extended, partition_is_active}
use parted.Disk.Label.{DiskOps, partition_align}
use parted.Disk.Contract.{IsLabel, IsOnDisk}
use parted.Disk.Layout.{IsLaidOut, PlacedIn}
use parted.Disk.Room.{RoomFor}
use parted.Disk.Overlap.{partition_get_overlap_constraint-IsRoom}
use parted.Disk.Insert.{Fresh}
use parted.Disk.RawAdd.{IsAdded, disk_raw_add-IsAdded}
use parted.Disk.Checking.{check_partition-Passes, basic_sanity-extended}
use parted.Disk.Update.{counted_up, disk_raw_add, disk_push_update_mode}
use parted.Disk.Change.{
  or_pop, popped, check_partition, add_checked, add_aligned, add_active, disk_add_partition,
  chosen_constraint, with_num, with_geom, partition_check_basic_sanity,
  partition_get_overlap_constraint,
}
use parted.Disk.Counting.{
  intersect_null, push_counts, pop_counts, positive, counted_down_up, counted_down-IsAdded,
  Fresh-OnceIn, partition_align_label,
}

module _ (ops : DiskOps) (disk : Disk) (part : Entry) (S : Geometry → Type 0) where
  -- The partition is in the disk now, with a number and in a region in `S`; or nothing has changed.
  abbrev pub Added : Bool × Disk → Type 0
  Added (false, disk') = disk' ≡ disk
  Added (true, disk') =
      (num : ℤ) × (g : Geometry) × IsValid g
      × S g
      × IsAdded disk (record part.part { num = num; geom = g }) disk'

  popped-Added :
      (disk.update_mode == 0) ≡ false → Returns (popped ops false false (counted_up disk)) Added
  popped-Added inside =
      rw (pop_counts ops (counted_up disk) disk.update_mode refl inside) (counted_down_up disk)

  module _ (label : IsLabel ops) (inside : (disk.update_mode == 0) ≡ false) (laid : IsLaidOut disk)
      (fresh : Fresh part.part.id disk.part_list) (empty : part.part_list ≡ [])
      (has : part.part.type.logical ≡ true
        → (e : Entry) × (first_extended disk.part_list ≡ some e)) where
    add_checked-Added :
        (num : ℤ) (g : Geometry)
        → IsValid g
        → S g
        → PlacedIn part.part.type.logical disk.part_list part.part.id g
        → Returns
            (add_checked ops false
              (counted_up disk)
              (with_geom ops false (with_num ops false part num) g))
            Added
    unfolding add_checked or_pop
    add_checked-Added num g v s placed =
        let x : Entry = with_geom ops false (with_num ops false part num) g in
        let (ok, e, passes) : (ok : Bool) × (check_partition ops false (counted_up disk) x
              ≡ done ok)
            × (ok ≡ true
                → (g.end <ℤ disk.length)
                  × (is_extended part.part.type ≡ true → first_extended disk.part_list ≡ none)) =
          Returns→done _ _ (check_partition-Passes ops (counted_up disk) x v fresh has) in
        rw e (go ok passes)
      where
        go :
            (ok : Bool)
            → (ok ≡ true
                → (g.end <ℤ disk.length)
                  × (is_extended part.part.type ≡ true → first_extended disk.part_list ≡ none))
            → Returns
                (or_pop ops false ok (counted_up disk) (
                  disk_raw_add
                    (counted_up disk)
                    (with_geom ops false (with_num ops false part num) g)
                  >>= popped ops false true))
                Added
        go false passes = popped-Added inside
        go true passes =
            let (on_device, only) = passes refl in
            let x : Entry = with_geom ops false (with_num ops false part num) g in
            let (d, e, added) : (d : Disk) × (disk_raw_add (counted_up disk) x ≡ done d)
                × IsAdded (counted_up disk) x.part d =
              Returns→done _ _ (
                disk_raw_add-IsAdded (counted_up disk) x
                  (record {
                    entries = laid.entries;
                    logicals = laid.logicals;
                    addressable = laid.addressable;
                  })
                  (record {
                    fresh = fresh;
                    valid = v;
                    empty = empty;
                    only_extended = only;
                    on_device = omega int_laws;
                    placed = placed;
                  })
                  (positive disk.update_mode)) in
            let (down, mode) = counted_down-IsAdded disk d x.part added in
            rw (e, pop_counts ops d disk.update_mode mode inside) (num, g, v, s, down)

    add_aligned-Added :
        disk.needs_clobber ≡ false
        → (p : Parts) → IsSound p
        → IsOnDisk disk part.part.geom p
        → ((h : Geometry)
            → IsValid h
            → SolvedBy p h
            → S h × PlacedIn part.part.type.logical disk.part_list part.part.id h)
        → Returns (add_aligned ops false (counted_up disk) part (some (whole p))) Added
    unfolding add_aligned or_pop
    add_aligned-Added clean p sound on_disk within =
        let ((ok, num), e, numbered) : (r : Bool × ℤ) × (ops.partition_enumerate (counted_up disk)
                part.part
              ≡ done r)
            × (r.0 ≡ true → (r.1 ==ℤ negsuc 0) ≡ false) =
          Returns→done _ _ (label.enumerates (counted_up disk) part.part) in
        rw e (go ok num numbered)
      where
        placed :
            (num : ℤ) (aligned : Bool) (g : Geometry)
            → (aligned ≡ true → IsValid g × SolvedBy p g)
            → Returns
                (or_pop ops false aligned (counted_up disk) (
                  add_checked ops false
                    (counted_up disk)
                    (with_geom ops false (with_num ops false part num) g)))
                Added
        placed num false g solved = popped-Added inside
        placed num true g solved =
            let (v, s) = solved refl in
            let (in_S, fits) = within g v s in add_checked-Added num g v in_S fits

        go :
            (ok : Bool) (num : ℤ)
            → (ok ≡ true → (num ==ℤ negsuc 0) ≡ false)
            → Returns
                (or_pop ops false ok (counted_up disk) (
                  partition_align ops
                    (counted_up disk)
                    (with_num ops false part num).part
                    (some (whole p))
                  >>= (λ (aligned, geom). or_pop ops false aligned (counted_up disk) (
                      add_checked ops false
                        (counted_up disk)
                        (with_geom ops false (with_num ops false part num) geom)))))
                Added
        go false num numbered = popped-Added inside
        go true num numbered =
            let ((aligned, g), e, solved) : (r : Bool × Geometry) × (ops.partition_align
                    (counted_up disk) (with_num ops false part num).part (some (whole p))
                  ≡ done r)
                × (r.0 ≡ true → IsValid r.1 × SolvedBy p r.1) =
              Returns→done _ _ (
                label.aligns (counted_up disk) (with_num ops false part num).part p sound
                  on_disk) in
            rw
              (
                partition_align_label ops (counted_up disk) (with_num ops false part num).part
                    (some (whole p)) (numbered refl) (positive disk.update_mode) clean,
                e,
              )
              (placed num aligned g solved)

-- The regions that satisfy the constraint, and where the partition goes among the others.
module _ (ops : DiskOps) (disk : Disk) (part : Entry) (c : Parts) (label : IsLabel ops)
    (inside : (disk.update_mode == 0) ≡ false) (clean : disk.needs_clobber ≡ false)
    (laid : IsLaidOut disk) (fresh : Fresh part.part.id disk.part_list)
    (empty : part.part_list ≡ []) (valid : IsValid part.part.geom) (sound : IsSound c)
    (narrow : IsNarrow c.start_align × IsNarrow c.end_align)
    (devs : (c.start_range.dev ≡ disk.dev) × (c.end_range.dev ≡ disk.dev))
    (device : part.part.geom.dev ≡ disk.dev) (on_device : c.end_range.end <ℤ disk.length) where
  add_active-Added :
      (part.part.type.logical ≡ true → (e : Entry) × (first_extended disk.part_list ≡ some e))
      → Returns
          (add_active ops false (counted_up disk) part (some (whole c)))
          (Added ops disk part (SolvedBy c))
  unfolding add_active or_pop
  add_active-Added has =
      let (overlap, e, room) : (o : Option Constraint) × (partition_get_overlap_constraint
              (counted_up disk) part.part part.part.geom
            ≡ done o)
          × RoomFor disk.dev (λ h. PlacedIn part.part.type.logical disk.part_list part.part.id h)
              part.part.geom o =
        Returns→done _ _ (
          partition_get_overlap_constraint-IsRoom (counted_up disk) part.part part.part.geom
            (record {
              entries = laid.entries;
              logicals = laid.logicals;
              addressable = laid.addressable;
            })
            (positive disk.update_mode) (same_device part.part.geom.dev)
            (Fresh-OnceIn part.part.type.logical part.part.id disk.part_list fresh has) valid) in
      rw e (go overlap room)
    where
      same_device : (n : ℕ) → (n == n) ≡ true
      same_device n = ground arith

      go :
          (overlap : Option Constraint)
          → RoomFor disk.dev
              (λ h. PlacedIn part.part.type.logical disk.part_list part.part.id h)
              part.part.geom
              overlap
          → Returns
              (constraint_intersect overlap (some (whole c)) >>= (λ constraints.
                let (may_add, chosen) = chosen_constraint ops false constraints (some (whole c)) in
                or_pop ops false may_add
                  (counted_up disk)
                  (add_aligned ops false (counted_up disk) part chosen)))
              (Added ops disk part (SolvedBy c))
      go none room = rw (intersect_null (whole c)) (popped-Added ops disk part (SolvedBy c) inside)
      go (some o) (p, eq, sound_p, (ns, ne), (ds, de), (keeps, allows)) =
          let (common, e, is_common) : (r : Option Constraint) × (constraint_intersect
                  (some (whole p)) (some (whole c))
                ≡ done r)
              × MadeOf (IsIntersection p c) r =
            Returns→done _ _ (
              constraint_intersect-IsIntersection p c sound_p sound ns narrow.0 ne narrow.1
                (ds ∙ sym devs.0) (de ∙ sym devs.1)) in
          rw (eq, e) (chosen common is_common)
        where
          chosen :
              (r : Option Constraint)
              → MadeOf (IsIntersection p c) r
              → Returns
                  (let (may_add, chosen) = chosen_constraint ops false r (some (whole c)) in
                    or_pop ops false may_add
                      (counted_up disk)
                      (add_aligned ops false (counted_up disk) part chosen))
                  (Added ops disk part (SolvedBy c))
          chosen none is_common = popped-Added ops disk part (SolvedBy c) inside
          chosen (some q) (both, eq, common) = rw eq (
              add_aligned-Added ops disk part (SolvedBy c) label inside laid fresh empty has clean
                both common.sound
                (
                  common.within.start_dev ∙ ds ∙ sym device,
                  common.within.end_dev ∙ de,
                  omega (arith, common.within.end_below, on_device),
                )
                (λ h v s.
                  let (in_room, in_c) = (common.solutions h v).0 s in (in_c, keeps h v in_room)))

  -- In update mode, on a disk that is not to be clobbered, with a label that numbers and aligns as
  -- it should and when no exception is ignored, adding an active partition that is new to a disk
  -- that is laid out and that has a region on its device returns. If it succeeds, the partition has
  -- a valid region that satisfies the given constraint (a sound one for that device whose end range
  -- ends on it, with grains below 2^15 and offsets from -2^32 to 2^32), the disk is laid out still,
  -- so that no two partitions share a sector and logical ones lie in the extended one, and removing
  -- the partition gives the old disk. If not, the disk is unchanged.
  pub disk_add_partition-Added :
      partition_is_active part.part ≡ true
      → Returns
          (disk_add_partition ops false disk part (some (whole c)))
          (Added ops disk part (SolvedBy c))
  unfolding disk_add_partition
  disk_add_partition-Added active =
      let (ok, e, has) : (ok : Bool) × (partition_check_basic_sanity ops false disk part.part
            ≡ done ok)
          × (ok ≡ true
              → part.part.type.logical ≡ true
              → (e : Entry) × (first_extended disk.part_list ≡ some e)) =
        Returns→done _ _ (basic_sanity-extended ops disk part valid) in
      rw e (sane ok has)
    where
      sane :
          (ok : Bool)
          → (ok ≡ true
              → part.part.type.logical ≡ true
              → (e : Entry) × (first_extended disk.part_list ≡ some e))
          → Returns
              (if not ok
                then done (false, disk)
                else disk_push_update_mode ops disk >>= (λ disk'.
                  if partition_is_active part.part
                  then add_active ops false disk' part (some (whole c))
                  else add_checked ops false disk' part))
              (Added ops disk part (SolvedBy c))
      sane false has = refl
      sane true has = rw (push_counts ops disk inside) (
          subst
            (λ b.
              Returns
                (if b
                  then add_active ops false (counted_up disk) part (some (whole c))
                  else add_checked ops false (counted_up disk) part)
                (Added ops disk part (SolvedBy c)))
            (sym active) (add_active-Added (has refl)))
