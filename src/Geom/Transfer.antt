-- ===== src/Geom/Transfer.antt =====
-- Reading and writing the sectors of a region: `geometry_read`, `geometry_write`, `geometry_sync`
-- and `geometry_sync_fast` of libparted/cs/geom.c, on the state of access to the region's device.
use mathlib.Core.List.{List, []}
use parted.Prelude.{ℕ, ◌≡◌, ◌⊎◌, Bool-cases, inl, inr, Bool, false, if◌then◌else◌, refl}
use parted.Prelude.Int.{
  ℤ, pos, ◌+ℤ◌, ◌-ℤ◌, ◌≤ℤ◌, ◌<ℤ◌, ltb_ℤ, leb_ℤ, ltb_ℤ_iff, ltb_ℤ_false, leb_ℤ_iff, int_laws,
}
use parted.Prelude.Run.{Run, done, ped_assert, ◌>>◌}
use parted.Device.Access.{DevOps, Access, device_read, device_write, device_sync, device_sync_fast}
use parted.Geom.{Geometry}
use parted.Geom.Sectors.{Covers}

module _ {World : Type 0} (dev_ops : DevOps World) where
  -- The value is what is returned, and what is stored in the buffer.
  unfoldable pub geometry_read : Geometry → Access World → ℤ → ℤ → Run (Bool × List ℕ)
  geometry_read geom dev offset count =
      let real_start = geom.start +ℤ offset in
      ped_assert (leb_ℤ (pos 0) offset)
      >> (ped_assert (leb_ℤ (pos 0) count)
          >> (if ltb_ℤ geom.end (real_start +ℤ count -ℤ pos 1)
              then done (false, [])
              else device_read dev_ops dev real_start count))

  -- `ignore` tells whether the exception that is thrown outside of the region is ignored.
  unfoldable pub geometry_write :
      Bool → Geometry → Access World → List ℕ → ℤ → ℤ → Run (Bool × Access World)
  geometry_write ignore geom dev buffer offset count =
      let real_start = geom.start +ℤ offset in
      ped_assert (leb_ℤ (pos 0) offset)
      >> (ped_assert (leb_ℤ (pos 0) count)
          >> (if ltb_ℤ geom.end (real_start +ℤ count -ℤ pos 1)
              then done (ignore, dev)
              else device_write dev_ops dev buffer real_start count))

  unfoldable pub geometry_sync : Access World → Run (Bool × Access World)
  geometry_sync dev = device_sync dev_ops dev

  unfoldable pub geometry_sync_fast : Access World → Run (Bool × Access World)
  geometry_sync_fast dev = device_sync_fast dev_ops dev

-- The sectors from `first` on are sectors of the region.
abbrev pub AreInside : Geometry → ℤ → ℤ → Type 0
AreInside geom first count = (s : ℤ) → first ≤ℤ s → s <ℤ first +ℤ count → Covers geom geom.dev s

-- What a write may do: nothing, where a sector lies behind the region, or else the write of the
-- device, of sectors of the region.
abbrev pub Confined :
    {World : Type 0}
    → DevOps World
    → Bool
    → Geometry
    → Access World
    → List ℕ
    → ℤ
    → ℤ
    → Run (Bool × Access World)
    → Type 0
Confined dev_ops ignore geom dev buffer offset count result =
    ((geom.end <ℤ geom.start +ℤ offset +ℤ count -ℤ pos 1) × (result ≡ done (ignore, dev)))
    ⊎ (AreInside geom (geom.start +ℤ offset) count
        × (result ≡ device_write dev_ops dev buffer (geom.start +ℤ offset) count))

-- For an offset and a count that are not negative, `geometry_write` leaves the device alone if a
-- sector would lie behind the region, and else writes sectors of the region only, with one write of
-- the device.
pub geometry_write-Confined :
    {World : Type 0} (dev_ops : DevOps World) (ignore : Bool) (geom : Geometry) (dev : Access World)
    (buffer : List ℕ) (offset count : ℤ)
    → pos 0 ≤ℤ offset
    → pos 0 ≤ℤ count
    → Confined dev_ops ignore geom dev buffer offset count
        (geometry_write dev_ops ignore geom dev buffer offset count)
unfolding geometry_write
geometry_write-Confined dev_ops ignore geom dev buffer offset count h k =
    let last : ℤ = geom.start +ℤ offset +ℤ count -ℤ pos 1 in
    rw ((leb_ℤ_iff (pos 0) offset).1 h, (leb_ℤ_iff (pos 0) count).1 k)
      (elim (Bool-cases (ltb_ℤ geom.end last)) [
        | inl behind ↦ rw behind (inl ((ltb_ℤ_iff geom.end last).0 behind, refl))
        | inr inside ↦
            let within : last ≤ℤ geom.end = ltb_ℤ_false geom.end last inside in
            rw inside (inr (λ s lo hi. (refl, omega int_laws, omega int_laws), refl))
      ])
