-- ===== src/Disk/Counting.antt =====
-- Nested update mode, where the calls that enter and leave it only count, and what a change in it
-- needs.
use mathlib.Core.List.{List, [], ◌∷◌}
use parted.Prelude.{
  ℕ, suc, ◌-◌, ◌≡◌, ◌==◌, ltb, Bool, true, false, Option, none, some, refl, ap, ◌∙◌, arith,
  if◌then◌else◌,
}
use parted.Prelude.Int.{negsuc, ◌==ℤ◌}
use parted.Prelude.Run.{done}
use parted.Geom.{Geometry}
use parted.Constraint.{Constraint, constraint_intersect}
use parted.Disk.{Disk, Partition, Entry, first_extended}
use parted.Disk.Label.{DiskOps, partition_align}
use parted.Disk.Layout.{OnceIn}
use parted.Disk.Insert.{Fresh, Fresh-NoneWith, Fresh-extended}
use parted.Disk.Chain.Order.{NoneWith}
use parted.Disk.Chain.Overlap.{OnceWith}
use parted.Disk.RawAdd.{IsAdded}
use parted.Disk.Update.{
  entry_geom, part_geom, counted_up, counted_down, disk_raw_remove, disk_pop_update_mode,
  disk_push_update_mode,
}

-- In update mode the calls that push and pop only count.
pub push_counts :
    (ops : DiskOps) (disk : Disk)
    → (disk.update_mode == 0) ≡ false
    → disk_push_update_mode ops disk ≡ done (counted_up disk)
unfolding disk_push_update_mode
push_counts ops disk inside = rw inside refl

pub pop_counts :
    (ops : DiskOps) (disk : Disk) (n : ℕ)
    → disk.update_mode ≡ suc n
    → (n == 0) ≡ false
    → disk_pop_update_mode ops disk ≡ done (counted_down disk)
unfolding disk_pop_update_mode
pop_counts ops disk n eq inside =
    let positive : ltb 0 disk.update_mode ≡ true = ground arith in
    let not_last : (disk.update_mode == 1) ≡ false = ground arith in rw (positive, not_last) refl

pub positive : (n : ℕ) → ltb 0 (suc n) ≡ true
positive n = ground arith

pub counted_down_up : (disk : Disk) → counted_down (counted_up disk) ≡ disk
counted_down_up disk = ap (λ n. record disk { update_mode = n }) (back disk.update_mode)
  where
    back : (n : ℕ) → suc n - 1 ≡ n
    back n = omega arith

pub counted_down-IsAdded :
    (disk disk' : Disk) (part : Partition)
    → IsAdded (counted_up disk) part disk'
    → IsAdded disk part (counted_down disk') × (disk'.update_mode ≡ suc disk.update_mode)
unfolding disk_raw_remove
counted_down-IsAdded disk disk' part (laid, found, removed) = (
  (
    record { entries = laid.entries; logicals = laid.logicals; addressable = laid.addressable },
    found,
    ap (λ (d : Disk). counted_down d) removed ∙ counted_down_up disk,
  ),
  ap (λ (d : Disk). d.update_mode) removed,
)

NoneWith-OnceWith :
    {A : Type 0} (geom_of : A → Geometry) (test : A → Bool) (l : List A)
    → NoneWith geom_of test l
    → OnceWith geom_of test l
NoneWith-OnceWith geom_of test [] n = tt
NoneWith-OnceWith geom_of test (x ∷ xs) (other, n) = (λ is. n, NoneWith-OnceWith geom_of test xs n)

pub Fresh-OnceIn :
    (logical : Bool) (id : ℕ) (l : List Entry)
    → Fresh id l
    → (logical ≡ true → (e : Entry) × (first_extended l ≡ some e))
    → OnceIn logical l id
Fresh-OnceIn false id l fresh has =
    NoneWith-OnceWith entry_geom (λ walk. walk.part.id == id) l (Fresh-NoneWith id l fresh)
Fresh-OnceIn true id l fresh has =
    let (e, eq) = has refl in
    (
      e,
      eq,
      NoneWith-OnceWith part_geom (λ walk. walk.id == id) e.part_list
          (Fresh-extended id l e fresh eq),
    )

pub partition_align_label :
    (ops : DiskOps) (disk : Disk) (part : Partition) (c : Option Constraint)
    → (part.num ==ℤ negsuc 0) ≡ false
    → ltb 0 disk.update_mode ≡ true
    → disk.needs_clobber ≡ false
    → partition_align ops disk part c ≡ ops.partition_align disk part c
unfolding partition_align
partition_align_label ops disk part c numbered updating clean =
    rw (numbered, updating)
      (ap (λ b. if b then done (true, part.geom) else ops.partition_align disk part c) clean)

pub intersect_null : (c : Constraint) → constraint_intersect none (some c) ≡ done none
unfolding constraint_intersect
intersect_null c = refl
