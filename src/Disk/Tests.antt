-- ===== src/Disk/Tests.antt =====
-- Examples for the modules on the partitions of a disk.
use mathlib.Core.List.{[], ◌∷◌}
use parted.Prelude.{inl, ◌≡◌, subst, inr, true, false, Option, some, refl, arith}
use parted.Prelude.Int.{ℤ, pos, negsuc, ◌+ℤ◌, ◌-ℤ◌, ◌≤ℤ◌, int_laws}
use parted.Prelude.Run.{Returns}
use parted.Geom.{Geometry}
use parted.Geom.Valid.{IsValid}
use parted.Constraint.Solution.{Parts, whole, IsSound, SolvedBy}
use parted.Constraint.Free.{free, free-IsSound}
use parted.Disk.{Disk, Partition, Entry, PartitionType, first_extended}
use parted.Disk.Chain.Order.{Within}
use parted.Disk.Label.{DiskOps}
use parted.Disk.Contract.{IsLabel, IsMaker}
use parted.Loop.{loop_disk_ops, loop-IsLabel, loop-IsMaker}
use parted.Disk.Moving.{IsIn, Changed}
use parted.Disk.Setting.{disk_set_partition_geom-Changed}
use parted.Disk.Chain.{without}
use parted.Disk.Limits.{LimitsOn, limits-AreWidest}
use parted.Disk.Resize.{limits}
use parted.Disk.Layout.{IsLaidOut, Placed}
use parted.Disk.Room.{RoomFor}
use parted.Disk.Overlap.{partition_get_overlap_constraint-IsRoom}
use parted.Disk.RawAdd.{IsNew, IsAdded, disk_raw_add-IsAdded}
use parted.Disk.Adding.{Added, disk_add_partition-Added}
use parted.Disk.Freespace.{Covers, disk_alloc_freespace-Covers}
use parted.Disk.Update.{disk_raw_remove, part_geom, disk_raw_add, disk_alloc_freespace}
use parted.Disk.Change.{
  disk_set_partition_geom, partition_get_overlap_constraint, disk_add_partition,
}

abbrev region : ℤ → ℤ → Geometry
region s e = record { dev = 1; start = s; length = e -ℤ s +ℤ pos 1; end = e }

-- The label of loop.c, on a disk with one partition.
abbrev loop_label : DiskOps
loop_label = loop_disk_ops (λ dev. pos 0) 99 (λ disk part. true)

loop_label-IsLabel : IsLabel loop_label
loop_label-IsLabel = loop-IsLabel (λ dev. pos 0) 99 (λ disk part. true)

loop_label-IsMaker : IsMaker loop_label
loop_label-IsMaker = loop-IsMaker (λ dev. pos 0) 99 (λ disk part. true)

region-IsValid : (s e : ℤ) → pos 0 ≤ℤ s → s ≤ℤ e → IsValid (region s e)
region-IsValid s e nonneg le = record {
  ends = omega int_laws;
  not_empty = omega int_laws;
  not_negative = nonneg;
}

abbrev plain_type : PartitionType
plain_type = record {
  logical = false;
  extended = false;
  freespace = false;
  metadata = false;
  protected = false;
}

abbrev extended_type : PartitionType
extended_type = record plain_type { extended = true }

abbrev logical_type : PartitionType
logical_type = record plain_type { logical = true }

abbrev old_logical : Partition
old_logical = record { id = 3; geom = region (pos 150) (pos 199); num = pos 5; type = logical_type }

-- An extended partition with a logical one in it, and with a primary one in front.
abbrev big : Entry
big = record {
  part = record { id = 2; geom = region (pos 100) (pos 499); num = pos 2; type = extended_type };
  part_list = old_logical ∷ [];
}

abbrev small_disk : Disk
small_disk = record {
  dev = 1;
  length = pos 1000;
  part_list =
      record {
        part = record { id = 1; geom = region (pos 10) (pos 19); num = pos 1; type = plain_type };
        part_list = [];
      }
      ∷ big
      ∷ [];
  needs_clobber = false;
  update_mode = 1;
}

same_entry : {o : Option Entry} {a b : Entry} → o ≡ some a → o ≡ some b → a ≡ b
same_entry p q = cc (p, q)

small_disk-IsLaidOut : IsLaidOut small_disk
unfolding ◌+ℤ◌ ◌-ℤ◌
small_disk-IsLaidOut = record {
  entries = (
    region-IsValid _ _ (omega arith) (omega arith),
    omega arith,
    (region-IsValid _ _ (omega arith) (omega arith), omega arith, omega arith),
  );
  logicals = λ e eq.
      let same : big ≡ e = same_entry refl eq in
      subst (λ (y : Entry). Within part_geom y.part.geom.start y.part.geom.end y.part_list) same
        (region-IsValid _ _ (omega arith) (omega arith), omega arith, omega arith);
  addressable = omega arith;
}

-- A logical partition behind the old one.
abbrev wanted : Entry
wanted = record {
  part = record { id = 4; geom = region (pos 200) (pos 299); num = negsuc 0; type = logical_type };
  part_list = [];
}

abbrev bounds : Parts
bounds = free (region (pos 100) (pos 400)) (region (pos 200) (pos 400)) (pos 50) (pos 100)

bounds-IsSound : IsSound bounds
bounds-IsSound =
    free-IsSound _ _ _ _ (region-IsValid _ _ (omega arith) (omega arith))
      (region-IsValid _ _ (omega arith) (omega arith)) (omega arith) (omega arith)

wanted-IsValid : IsValid wanted.part.geom
wanted-IsValid = region-IsValid (pos 200) (pos 299) (omega arith) (omega arith)

partition_get_overlap_constraint-IsRoom_example :
    Returns
      (partition_get_overlap_constraint small_disk wanted.part wanted.part.geom)
      (RoomFor 1 (Placed small_disk wanted.part) wanted.part.geom)
partition_get_overlap_constraint-IsRoom_example =
    partition_get_overlap_constraint-IsRoom small_disk wanted.part wanted.part.geom
      small_disk-IsLaidOut refl refl (big, refl, (λ e. tt, tt)) wanted-IsValid

wanted-IsNew : IsNew small_disk wanted
unfolding ◌+ℤ◌ ◌-ℤ◌
wanted-IsNew = record {
  fresh = (refl, tt, (refl, (refl, tt), tt));
  valid = wanted-IsValid;
  empty = refl;
  only_extended = λ e. cc e;
  on_device = omega arith;
  placed = (big, refl, (omega arith, omega arith, (inr (inr (omega arith)), tt)));
}

disk_raw_add-IsAdded_example :
    Returns (disk_raw_add small_disk wanted) (IsAdded small_disk wanted.part)
disk_raw_add-IsAdded_example =
    disk_raw_add-IsAdded small_disk wanted small_disk-IsLaidOut wanted-IsNew refl

-- A disk without a partition, and one for it.
abbrev empty_disk : Disk
empty_disk = record small_disk { part_list = [] }

empty_disk-IsLaidOut : IsLaidOut empty_disk
unfolding ◌+ℤ◌ ◌-ℤ◌
empty_disk-IsLaidOut = record {
  entries = omega arith;
  logicals = λ e eq. cc eq;
  addressable = omega arith;
}

abbrev single : Entry
single = record wanted { part = record wanted.part { type = plain_type } }

disk_add_partition-Added_example :
    Returns
      (disk_add_partition loop_label false empty_disk single (some (whole bounds)))
      (Added loop_label empty_disk single (SolvedBy bounds))
disk_add_partition-Added_example =
    disk_add_partition-Added loop_label empty_disk single bounds loop_label-IsLabel refl refl
      empty_disk-IsLaidOut tt refl wanted-IsValid bounds-IsSound
      ((omega arith, omega arith, omega arith), (omega arith, omega arith, omega arith))
      (refl, refl) refl (omega arith) refl

small_disk_behind_first :
    (e : Entry)
    → first_extended small_disk.part_list ≡ some e
    → Within part_geom (e.part.geom.start +ℤ pos 1) e.part.geom.end e.part_list
unfolding ◌+ℤ◌ ◌-ℤ◌
small_disk_behind_first e eq =
    let same : big ≡ e = same_entry refl eq in
    subst (λ (y : Entry). Within part_geom (y.part.geom.start +ℤ pos 1) y.part.geom.end y.part_list)
      same (region-IsValid _ _ (omega arith) (omega arith), omega arith, omega arith)

disk_alloc_freespace-Covers_example :
    Returns
      (disk_alloc_freespace loop_label small_disk)
      (Covers loop_label loop_label-IsMaker small_disk small_disk-IsLaidOut small_disk_behind_first)
disk_alloc_freespace-Covers_example =
    disk_alloc_freespace-Covers loop_label loop_label-IsMaker small_disk small_disk-IsLaidOut
      small_disk_behind_first

abbrev old_entry : Entry
old_entry = record { part = old_logical; part_list = [] }

old_entry-IsIn : IsIn small_disk old_entry
unfolding disk_raw_remove without
old_entry-IsIn = record {
  stands = refl;
  alone = (λ e. cc e, tt, (λ e. cc e, ((λ e. refl), tt), tt));
  once = (big, refl, (λ e. tt, tt));
  fresh = (refl, tt, (refl, tt, tt));
  plain = refl;
  empty = refl;
  numbered = refl;
}

abbrev single_entry : Entry
single_entry = record single { part = record single.part { num = pos 1 } }

abbrev single_disk : Disk
single_disk = record small_disk { part_list = single_entry ∷ [] }

single_disk-IsLaidOut : IsLaidOut single_disk
unfolding ◌+ℤ◌ ◌-ℤ◌
single_disk-IsLaidOut = record {
  entries = (region-IsValid _ _ (omega arith) (omega arith), omega arith, omega arith);
  logicals = λ e eq. cc eq;
  addressable = omega arith;
}

single_entry-IsIn : IsIn single_disk single_entry
unfolding disk_raw_remove without
single_entry-IsIn = record {
  stands = refl;
  alone = ((λ e. refl), tt, tt);
  once = (λ e. tt, tt);
  fresh = tt;
  plain = refl;
  empty = refl;
  numbered = refl;
}

disk_set_partition_geom-Changed_example :
    Returns
      (disk_set_partition_geom loop_label false single_disk single_entry
        (some (whole bounds))
        (pos 150)
        (pos 249))
      (Changed loop_label single_disk single_entry (SolvedBy bounds))
disk_set_partition_geom-Changed_example =
    disk_set_partition_geom-Changed loop_label single_disk single_entry bounds loop_label-IsLabel
      refl refl single_disk-IsLaidOut single_entry-IsIn bounds-IsSound
      ((omega arith, omega arith, omega arith), (omega arith, omega arith, omega arith))
      (refl, refl) (omega arith) (pos 150) (pos 249) (omega arith) (omega arith) refl

limits-AreWidest_example :
    Returns (limits small_disk old_logical) (LimitsOn true small_disk old_logical)
limits-AreWidest_example =
    limits-AreWidest small_disk old_logical small_disk-IsLaidOut (omega arith)
      (big, refl, inl (refl, refl, tt))
