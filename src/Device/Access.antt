-- ===== src/Device/Access.antt =====
-- The state of access to a device: `device_open` to `device_sync_fast` of libparted/device.c.
-- `World` is what the functions of the architecture read and change, the descriptor included; the
-- contents of a buffer are a list of bytes.
use parted.Prelude.{ℕ, suc, ◌-◌, ltb, Bool, true, false, not, if◌then◌else◌}
use parted.Prelude.Int.{ℤ}
use parted.Prelude.Run.{Run, done, ped_assert, ◌>>◌}
use mathlib.Core.List.{List}

-- The functions that are called here, each with its result and the world afterwards.
pub record DevOps (World : Type 0) : Type 0 where
  -- The field `open` of the source.
  pub open_dev : World → Bool × World
  pub refresh_open : World → Bool × World
  pub close : World → Bool × World
  pub refresh_close : World → Bool × World
  pub read : World → ℤ → ℤ → Bool × List ℕ
  pub write : World → List ℕ → ℤ → ℤ → Bool × World
  pub check : World → ℤ → ℤ → ℤ
  pub sync : World → Bool × World
  pub sync_fast : World → Bool × World

-- The fields of a device that these functions change, and the world.
pub record Access (World : Type 0) : Type 0 where
  pub open_count : ℕ
  pub external_mode : Bool
  pub world : World

module _ {World : Type 0} (dev_ops : DevOps World) where
  -- The result of the call, stored.
  abbrev answer : Access World → Bool × World → Bool × Access World
  answer dev (status, world) = (status, record dev { world = world })

  -- `if (status) dev->open_count++;`
  unfoldable pub counted : Access World → Bool × World → Bool × Access World
  counted dev (status, world) = (
    status,
    record dev {
      open_count = if status then suc dev.open_count else dev.open_count;
      world = world;
    },
  )

  unfoldable pub device_open : Access World → Run (Bool × Access World)
  unfolding counted
  device_open dev = do
    ped_assert (not dev.external_mode)
    done (
        counted dev (
          if ltb 0 dev.open_count
          then dev_ops.refresh_open dev.world
          else dev_ops.open_dev dev.world))

  unfoldable pub device_close : Access World → Run (Bool × Access World)
  device_close dev = do
    ped_assert (not dev.external_mode)
    ped_assert (ltb 0 dev.open_count)
    let left = dev.open_count - 1
    done (
        answer (record dev { open_count = left })
          (if ltb 0 left then dev_ops.refresh_close dev.world else dev_ops.close dev.world))

  unfoldable pub device_begin_external_access : Access World → Run (Bool × Access World)
  device_begin_external_access dev = do
    ped_assert (not dev.external_mode)
    done (
        answer (record dev { external_mode = true })
          (if ltb 0 dev.open_count then dev_ops.close dev.world else (true, dev.world)))

  unfoldable pub device_end_external_access : Access World → Run (Bool × Access World)
  device_end_external_access dev = do
    ped_assert dev.external_mode
    done (
        answer (record dev { external_mode = false })
          (if ltb 0 dev.open_count then dev_ops.open_dev dev.world else (true, dev.world)))

  unfoldable pub device_read : Access World → ℤ → ℤ → Run (Bool × List ℕ)
  device_read dev start count = do
    ped_assert (not dev.external_mode)
    ped_assert (ltb 0 dev.open_count)
    done (dev_ops.read dev.world start count)

  unfoldable pub device_write : Access World → List ℕ → ℤ → ℤ → Run (Bool × Access World)
  device_write dev buffer start count = do
    ped_assert (not dev.external_mode)
    ped_assert (ltb 0 dev.open_count)
    done (answer dev (dev_ops.write dev.world buffer start count))

  unfoldable pub device_check : Access World → ℤ → ℤ → Run ℤ
  device_check dev start count = do
    ped_assert (not dev.external_mode)
    ped_assert (ltb 0 dev.open_count)
    done (dev_ops.check dev.world start count)

  unfoldable pub device_sync : Access World → Run (Bool × Access World)
  device_sync dev = do
    ped_assert (not dev.external_mode)
    ped_assert (ltb 0 dev.open_count)
    done (answer dev (dev_ops.sync dev.world))

  unfoldable pub device_sync_fast : Access World → Run (Bool × Access World)
  device_sync_fast dev = do
    ped_assert (not dev.external_mode)
    ped_assert (ltb 0 dev.open_count)
    done (answer dev (dev_ops.sync_fast dev.world))
