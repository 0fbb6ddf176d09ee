-- ===== src/Disk/Overlap.antt =====
-- `_partition_get_overlap_constraint` on a disk.
use mathlib.Core.List.{List, [], ◌∷◌}
use parted.Prelude.{
  Bool-cases, subst, inl, inr, if◌then◌else◌, ◌≡◌, ◌==◌, ltb, Bool, true, false, some, arith,
  Option,
}
use parted.Prelude.Int.{ℤ, pos, ◌+ℤ◌, ◌-ℤ◌, ◌≤ℤ◌, int_laws}
use parted.Prelude.Run.{deref, Returns_map, ◌>>=◌, Returns}
use parted.Geom.{Geometry}
use parted.Geom.Valid.{IsValid, start-le-end}
use parted.Disk.{Disk, Partition, Entry, is_extended, first_extended, disk_extended_partition}
use parted.Disk.Layout.{IsLaidOut, Placed, PlacedIn, OnceIn}
use parted.Disk.Chain.Order.{Within, Within-le}
use parted.Disk.Room.{FitsIn, RoomFor, RoomFor-map, room_in-RoomFor}
use parted.Disk.Update.{entry_geom, part_geom}
use parted.Disk.Change.{partition_get_overlap_constraint, room_in, max_sector}

-- The extended partition lies on the device.
pub extended_on_device :
    (low high : ℤ) (l : List Entry) (e : Entry)
    → Within entry_geom low high l
    → first_extended l ≡ some e
    → (low ≤ℤ e.part.geom.start) × IsValid e.part.geom × (e.part.geom.end ≤ℤ high)
extended_on_device low high [] e w eq = cc eq
extended_on_device low high (x ∷ xs) e (v, lo, w) eq = elim (Bool-cases (is_extended x.part.type)) [
  | inl is ↦
      let head : some x ≡ some e =
        subst (λ b. (if b then some x else first_extended xs) ≡ some e) is eq in
      let same : x ≡ e = cc head in
      subst (λ y. (low ≤ℤ y.part.geom.start) × IsValid y.part.geom × (y.part.geom.end ≤ℤ high)) same
        (lo, v, omega (int_laws, Within-le entry_geom ((entry_geom x).end +ℤ pos 1) high xs w))
  | inr other ↦
      let tail : first_extended xs ≡ some e =
        subst (λ b. (if b then some x else first_extended xs) ≡ some e) other eq in
      let (lo', v', hi) = extended_on_device ((entry_geom x).end +ℤ pos 1) high xs e w tail in
      (omega (int_laws, start-le-end v), v', hi)
]

pub IsLaidOut-extended :
    (disk : Disk) (e : Entry)
    → IsLaidOut disk
    → first_extended disk.part_list ≡ some e
    → (pos 0 ≤ℤ e.part.geom.start) × IsValid e.part.geom × (e.part.geom.end ≤ℤ disk.length -ℤ pos 1)
IsLaidOut-extended disk e laid eq =
    extended_on_device (pos 0) (disk.length -ℤ pos 1) disk.part_list e laid.entries eq

-- In update mode, on a disk that is laid out and has the partition once at most, the constraint for
-- a partition, and for a valid region near it on the same device, is sound; a region that satisfies
-- it has no sector of the other partitions of the list, and lies in the extended partition if the
-- partition is logical, which needs an extended one. The given region satisfies it, if it is such a
-- region; if there is no constraint, it is not.
pub partition_get_overlap_constraint-IsRoom :
    (disk : Disk) (part : Partition) (g : Geometry)
    → IsLaidOut disk
    → ltb 0 disk.update_mode ≡ true
    → (part.geom.dev == g.dev) ≡ true
    → OnceIn part.type.logical disk.part_list part.id
    → IsValid g
    → Returns (partition_get_overlap_constraint disk part g) (RoomFor disk.dev (Placed disk part) g)
unfolding partition_get_overlap_constraint disk_extended_partition
partition_get_overlap_constraint-IsRoom disk part g laid updating same once v =
    rw (updating, same) (go part.type.logical once)
  where
    same_entry : {o : Option Entry} {a b : Entry} → o ≡ some a → o ≡ some b → a ≡ b
    same_entry p q = cc (p, q)

    go :
        (logical : Bool)
        → OnceIn logical disk.part_list part.id
        → Returns
            (if logical
              then deref (first_extended disk.part_list) >>= (λ ext_part.
                room_in part_geom disk.dev
                  (λ walk. walk.id == part.id)
                  g.start
                  ext_part.part.geom.start
                  ext_part.part.geom.end
                  ext_part.part_list)
              else room_in entry_geom disk.dev
                  (λ walk. walk.part.id == part.id)
                  g.start
                  (pos 0)
                  max_sector
                  disk.part_list)
            (RoomFor disk.dev (PlacedIn logical disk.part_list part.id) g)
    go false once =
        room_in-RoomFor entry_geom (λ walk. walk.part.id == part.id) disk.dev g (pos 0) max_sector
          (disk.length -ℤ pos 1) disk.part_list v (omega arith) (omega (int_laws, laid.addressable))
          once laid.entries
    go true (e, eq, once) = rw eq (
        Returns_map _
          (RoomFor-map disk.dev _ (PlacedIn true disk.part_list part.id) g (λ h. (
            λ f. (e, eq, f),
            λ (e', eq', f).
                subst
                  (λ (x : Entry).
                    FitsIn part_geom (λ walk. walk.id == part.id) x.part.geom.start x.part.geom.end
                      x.part_list h)
                  (same_entry eq' eq) f,
          )))
          (room_in-RoomFor part_geom (λ walk. walk.id == part.id) disk.dev g e.part.geom.start
            e.part.geom.end e.part.geom.end e.part_list v (IsLaidOut-extended disk e laid eq).0
            (omega arith) once (laid.logicals e eq)))
