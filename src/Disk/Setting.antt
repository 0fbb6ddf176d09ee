-- ===== src/Disk/Setting.antt =====
-- `ped_disk_set_partition_geom` in update mode.
use parted.Prelude.{
  ℕ, ◌≡◌, ◌==◌, ◌&&◌, true, false, Option, none, some, sym, ◌∙◌, arith, if◌then◌else◌,
}
use parted.Prelude.Int.{ℤ, pos, ◌+ℤ◌, ◌-ℤ◌, ◌≤ℤ◌, ◌<ℤ◌, int_laws}
use parted.Prelude.Run.{done, ◌>>=◌, Returns, Returns→done}
use parted.Geom.{Geometry, unset, geometry_init}
use parted.Geom.Valid.{IsValid}
use parted.NatMath.Intersect.{IsNarrow}
use parted.Constraint.{Constraint, constraint_intersect}
use parted.Constraint.Solution.{Parts, whole, IsSound, SolvedBy}
use parted.Constraint.Made.{MadeOf, IsIntersection, constraint_intersect-IsIntersection}
use parted.Disk.{Disk, Entry}
use parted.Disk.Label.{DiskOps}
use parted.Disk.Contract.{IsLabel}
use parted.Disk.Layout.{IsLaidOut, PlacedIn}
use parted.Disk.Room.{RoomFor}
use parted.Disk.Overlap.{partition_get_overlap_constraint-IsRoom}
use parted.Disk.Place.{entries_same}
use parted.Disk.Counting.{push_counts, positive, intersect_null}
use parted.Disk.Update.{counted_up, current}
use parted.Disk.Change.{
  is_none, set_failed, set_aligned, set_in_update_mode, disk_set_partition_geom,
  partition_get_overlap_constraint,
}
use parted.Disk.Moving.{IsIn, Changed, failed-Changed, aligned-Changed}

region_from : ℕ → ℤ → ℤ → Geometry
region_from dev s e = record { dev = dev; start = s; length = e -ℤ s +ℤ pos 1; end = e }

geometry_init_from :
    (dev : ℕ) (s e : ℤ)
    → pos 0 ≤ℤ s
    → s ≤ℤ e
    → geometry_init unset dev s (e -ℤ s +ℤ pos 1) ≡ done (true, region_from dev s e)
unfolding geometry_init region_from
geometry_init_from dev s e nonneg le = grind int_laws

region_from-IsValid : (dev : ℕ) (s e : ℤ) → pos 0 ≤ℤ s → s ≤ℤ e → IsValid (region_from dev s e)
unfolding region_from
region_from-IsValid dev s e nonneg le = record {
  ends = omega int_laws;
  not_empty = omega int_laws;
  not_negative = nonneg;
}

module _ (ops : DiskOps) (disk : Disk) (part : Entry) (c : Parts) (label : IsLabel ops)
    (inside : (disk.update_mode == 0) ≡ false) (clean : disk.needs_clobber ≡ false)
    (laid : IsLaidOut disk) (is_in : IsIn disk part) (sound : IsSound c)
    (narrow : IsNarrow c.start_align × IsNarrow c.end_align)
    (devs : (c.start_range.dev ≡ disk.dev) × (c.end_range.dev ≡ disk.dev))
    (on_device : c.end_range.end <ℤ disk.length) where
  set_in_update_mode-Changed :
      (new : Geometry)
      → (part.part.geom.dev == new.dev) ≡ true
      → IsValid new
      → new.dev ≡ disk.dev
      → Returns
          (set_in_update_mode ops false (counted_up disk) part (some (whole c)) new)
          (Changed ops disk part (SolvedBy c))
  unfolding set_in_update_mode
  set_in_update_mode-Changed new same_dev v device =
      let (overlap, e, room) : (o : Option Constraint) × (partition_get_overlap_constraint
              (counted_up disk) part.part new
            ≡ done o)
          × RoomFor disk.dev (λ h. PlacedIn part.part.type.logical disk.part_list part.part.id h)
              new o =
        Returns→done _ _ (
          partition_get_overlap_constraint-IsRoom (counted_up disk) part.part new
            (record {
              entries = laid.entries;
              logicals = laid.logicals;
              addressable = laid.addressable;
            })
            (positive disk.update_mode) same_dev is_in.once v) in
      rw e (go overlap room)
    where
      unchanged :
          Returns (set_failed ops false (counted_up disk) part) (Changed ops disk part (SolvedBy c))
      unchanged =
          failed-Changed ops disk part (SolvedBy c) label inside laid is_in disk.part_list
            (entries_same part.part.id part.part disk.part_list is_in.alone)

      go :
          (overlap : Option Constraint)
          → RoomFor disk.dev
              (λ h. PlacedIn part.part.type.logical disk.part_list part.part.id h)
              new
              overlap
          → Returns
              (constraint_intersect overlap (some (whole c)) >>= (λ constraints.
                if is_none constraints && true
                then set_failed ops false (counted_up disk) part
                else set_aligned ops false (counted_up disk) part new constraints))
              (Changed ops disk part (SolvedBy c))
      go none room = rw (intersect_null (whole c)) unchanged
      go (some o) (p, eq, sound_p, (ns, ne), (ds, de), (keeps, allows)) =
          let (common, e, is_common) : (r : Option Constraint) × (constraint_intersect
                  (some (whole p)) (some (whole c))
                ≡ done r)
              × MadeOf (IsIntersection p c) r =
            Returns→done _ _ (
              constraint_intersect-IsIntersection p c sound_p sound ns narrow.0 ne narrow.1
                (ds ∙ sym devs.0) (de ∙ sym devs.1)) in
          rw (eq, e) (chosen common is_common)
        where
          chosen :
              (r : Option Constraint)
              → MadeOf (IsIntersection p c) r
              → Returns
                  (if is_none r && true
                    then set_failed ops false (counted_up disk) part
                    else set_aligned ops false (counted_up disk) part new r)
                  (Changed ops disk part (SolvedBy c))
          chosen none is_common = unchanged
          chosen (some q) (both, eq, common) = rw eq (
              aligned-Changed ops disk part (SolvedBy c) label inside laid is_in clean new both
                common.sound
                (
                  common.within.start_dev ∙ ds ∙ sym device,
                  common.within.end_dev ∙ de,
                  omega (arith, common.within.end_below, on_device),
                )
                (λ h v s.
                  let (in_room, in_c) = (common.solutions h v).0 s in (in_c, keeps h v in_room)))

  -- In update mode, on a disk that is not to be clobbered, with a label that aligns as it should
  -- and when no exception is ignored, to set a region from `start` to `end` for a partition that is
  -- numbered, not extended, on the disk's device and stands in a disk that is laid out, returns. If
  -- it succeeds, the partition has a valid region that satisfies the given constraint (a sound one
  -- for that device whose end range ends on it, with grains below 2^15 and offsets from -2^32 to
  -- 2^32), the disk is laid out still, and without the partition it is what it was without it. If
  -- not, the disk is unchanged, old region included.
  pub disk_set_partition_geom-Changed :
      (start end : ℤ)
      → pos 0 ≤ℤ start
      → start ≤ℤ end
      → part.part.geom.dev ≡ disk.dev
      → Returns
          (disk_set_partition_geom ops false disk part (some (whole c)) start end)
          (Changed ops disk part (SolvedBy c))
  unfolding disk_set_partition_geom current region_from
  disk_set_partition_geom-Changed start end nonneg le device =
      rw
        (
          geometry_init_from part.part.geom.dev start end nonneg le,
          push_counts ops disk inside,
          is_in.stands,
        )
        (set_in_update_mode-Changed (region_from part.part.geom.dev start end)
          (same_device part.part.geom.dev)
          (region_from-IsValid part.part.geom.dev start end nonneg le) device)
    where
      same_device : (n : ℕ) → (n == n) ≡ true
      same_device n = ground arith
