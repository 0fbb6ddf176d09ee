-- ===== src/Disk/Layout.antt =====
-- What disk.c keeps true of the partitions of a disk, and where a partition may lie beside them.
use mathlib.Core.List.{List}
use parted.Prelude.{ℕ, ◌≡◌, ◌==◌, Bool, true, false, some}
use parted.Prelude.Int.{pos, ◌+ℤ◌, ◌-ℤ◌, ◌≤ℤ◌}
use parted.Geom.{Geometry}
use parted.Disk.{Disk, Partition, Entry, first_extended}
use parted.Disk.Chain.Order.{Within}
use parted.Disk.Chain.Overlap.{OnceWith}
use parted.Disk.Room.{FitsIn}
use parted.Disk.Update.{entry_geom, part_geom}
use parted.Disk.Change.{max_sector}

-- The partitions are valid, in order, without a sector in common and on the device, and the logical
-- ones lie inside of the extended one in the same way.
pub record IsLaidOut (disk : Disk) : Type 0 where
  pub entries : Within entry_geom (pos 0) (disk.length -ℤ pos 1) disk.part_list
  pub logicals :
      (e : Entry)
      → first_extended disk.part_list ≡ some e
      → Within part_geom e.part.geom.start e.part.geom.end e.part_list
  pub addressable : disk.length ≤ℤ max_sector +ℤ pos 1

-- Where a partition may lie as far as the others in its list go.
abbrev pub PlacedIn : Bool → List Entry → ℕ → Geometry → Type 0
PlacedIn true list id g =
    (e : Entry) × (first_extended list ≡ some e)
    × FitsIn part_geom (λ walk. walk.id == id) e.part.geom.start e.part.geom.end e.part_list g
PlacedIn false list id g = FitsIn entry_geom (λ walk. walk.part.id == id) (pos 0) max_sector list g

abbrev pub Placed : Disk → Partition → Geometry → Type 0
Placed disk part g = PlacedIn part.type.logical disk.part_list part.id g

-- A partition comes once in its list, at most; and a logical one has an extended one.
abbrev pub OnceIn : Bool → List Entry → ℕ → Type 0
OnceIn true list id =
    (e : Entry) × (first_extended list ≡ some e)
    × OnceWith part_geom (λ walk. walk.id == id) e.part_list
OnceIn false list id = OnceWith entry_geom (λ walk. walk.part.id == id) list
