-- ===== src/Device/Reachable.antt =====
-- The states of access that calls of device.c lead to.
use parted.Prelude.{ℕ, ◌≡◌, ◌↔◌, ltb, Bool, true, false, not, ◌&&◌, ◌||◌, arith}
use parted.Prelude.Int.{ℤ}
use mathlib.Core.List.{List}
use parted.Prelude.Run.{done}
use parted.Device.Access.{
  DevOps, Access, device_open, counted, device_close, device_begin_external_access,
  device_end_external_access, device_read, device_write, device_sync, device_sync_fast,
}

-- What the functions of the architecture are to do with the descriptor, which `is_open` tells of:
-- `open` opens it or fails, `close` closes it where `can_close` holds, and the others leave it.
pub record IsDevOps {World : Type 0} (dev_ops : DevOps World) (is_open can_close : World → Bool)
    : Type 0 where
  pub open_dev :
      (w : World) → is_open w ≡ false → is_open (dev_ops.open_dev w).1 ≡ (dev_ops.open_dev w).0
  pub refresh_open : (w : World) → is_open (dev_ops.refresh_open w).1 ≡ is_open w
  pub close : (w : World) → can_close w ≡ true → is_open (dev_ops.close w).1 ≡ false
  pub refresh_close : (w : World) → is_open (dev_ops.refresh_close w).1 ≡ is_open w
  pub write :
      (w : World) (buffer : List ℕ) (start count : ℤ)
      → is_open (dev_ops.write w buffer start count).1 ≡ is_open w
  pub sync : (w : World) → is_open (dev_ops.sync w).1 ≡ is_open w
  pub sync_fast : (w : World) → is_open (dev_ops.sync_fast w).1 ≡ is_open w

-- One call. Opening, writing and syncing may fail; the others are calls that succeed, and where
-- they close the descriptor, it can be closed.
pub data Step {World : Type 0} (dev_ops : DevOps World) (can_close : World → Bool)
    : Access World → Access World → Type 0 where
  opens :
      (status : Bool) (a b : Access World)
      → device_open dev_ops a ≡ done (status, b)
      → Step dev_ops can_close a b
  closes :
      (a b : Access World)
      → device_close dev_ops a ≡ done (true, b)
      → (ltb 1 a.open_count || can_close a.world) ≡ true
      → Step dev_ops can_close a b
  begins :
      (a b : Access World)
      → device_begin_external_access dev_ops a ≡ done (true, b)
      → (not (ltb 0 a.open_count) || can_close a.world) ≡ true
      → Step dev_ops can_close a b
  ends :
      (a b : Access World)
      → device_end_external_access dev_ops a ≡ done (true, b)
      → Step dev_ops can_close a b
  writes :
      (status : Bool) (buffer : List ℕ) (start count : ℤ) (a b : Access World)
      → device_write dev_ops a buffer start count ≡ done (status, b)
      → Step dev_ops can_close a b
  syncs :
      (status : Bool) (a b : Access World)
      → device_sync dev_ops a ≡ done (status, b)
      → Step dev_ops can_close a b
  syncs_fast :
      (status : Bool) (a b : Access World)
      → device_sync_fast dev_ops a ≡ done (status, b)
      → Step dev_ops can_close a b

pub data Reachable {World : Type 0} (dev_ops : DevOps World) (can_close : World → Bool)
    : Access World → Access World → Type 0 where
  here : (a : Access World) → Reachable dev_ops can_close a a
  then_step :
      (a b c : Access World)
      → Reachable dev_ops can_close a b
      → Step dev_ops can_close b c
      → Reachable dev_ops can_close a c

-- The descriptor is open exactly while the device is open and not in external use.
abbrev pub InStep : {World : Type 0} → (World → Bool) → Access World → Type 0
InStep is_open a = is_open a.world ≡ (ltb 0 a.open_count && not a.external_mode)

module _ {World : Type 0} (dev_ops : DevOps World) (is_open can_close : World → Bool)
    (laws : IsDevOps dev_ops is_open can_close) where
  open-InStep :
      (status : Bool) (a b : Access World)
      → device_open dev_ops a ≡ done (status, b)
      → InStep is_open a
      → InStep is_open b
  unfolding device_open counted
  open-InStep status a b e h = ground (arith, laws.open_dev a.world, laws.refresh_open a.world)

  close-InStep :
      (a b : Access World)
      → device_close dev_ops a ≡ done (true, b)
      → (ltb 1 a.open_count || can_close a.world) ≡ true
      → InStep is_open a
      → InStep is_open b
  unfolding device_close
  close-InStep a b e can h = ground (arith, laws.close a.world, laws.refresh_close a.world)

  begin-InStep :
      (a b : Access World)
      → device_begin_external_access dev_ops a ≡ done (true, b)
      → (not (ltb 0 a.open_count) || can_close a.world) ≡ true
      → InStep is_open a
      → InStep is_open b
  unfolding device_begin_external_access
  begin-InStep a b e can h = ground (arith, laws.close a.world)

  end-InStep :
      (a b : Access World)
      → device_end_external_access dev_ops a ≡ done (true, b)
      → InStep is_open a
      → InStep is_open b
  unfolding device_end_external_access
  end-InStep a b e h = ground (arith, laws.open_dev a.world)

  write-InStep :
      (status : Bool) (buffer : List ℕ) (start count : ℤ) (a b : Access World)
      → device_write dev_ops a buffer start count ≡ done (status, b)
      → InStep is_open a
      → InStep is_open b
  unfolding device_write
  write-InStep status buffer start count a b e h =
      ground (arith, laws.write a.world buffer start count)

  sync-InStep :
      (status : Bool) (a b : Access World)
      → device_sync dev_ops a ≡ done (status, b)
      → InStep is_open a
      → InStep is_open b
  unfolding device_sync
  sync-InStep status a b e h = ground (arith, laws.sync a.world)

  sync_fast-InStep :
      (status : Bool) (a b : Access World)
      → device_sync_fast dev_ops a ≡ done (status, b)
      → InStep is_open a
      → InStep is_open b
  unfolding device_sync_fast
  sync_fast-InStep status a b e h = ground (arith, laws.sync_fast a.world)

  Step-InStep :
      (a b : Access World) → Step dev_ops can_close a b → InStep is_open a → InStep is_open b
  Step-InStep a b (Step.opens status _ _ e) = open-InStep status a b e
  Step-InStep a b (Step.closes _ _ e can) = close-InStep a b e can
  Step-InStep a b (Step.begins _ _ e can) = begin-InStep a b e can
  Step-InStep a b (Step.ends _ _ e) = end-InStep a b e
  Step-InStep a b (Step.writes status buffer start count _ _ e) =
      write-InStep status buffer start count a b e
  Step-InStep a b (Step.syncs status _ _ e) = sync-InStep status a b e
  Step-InStep a b (Step.syncs_fast status _ _ e) = sync_fast-InStep status a b e

  -- For an architecture whose `open` opens the descriptor if it succeeds and leaves it closed if
  -- not, whose `close` closes it where it can be closed, and whose other functions leave it as it
  -- is: if the descriptor is open exactly while the device is open and not in external use, then
  -- this stays so in all states that openings, writes and syncs, failed ones included, successful
  -- ends of the external mode, and successful closings and beginnings of the external mode, where
  -- the descriptor can be closed if they close it, lead to.
  pub Reachable-InStep :
      (a b : Access World) → InStep is_open a → Reachable dev_ops can_close a b → InStep is_open b
  Reachable-InStep a b h (Reachable.here _) = h
  Reachable-InStep a b h (Reachable.then_step _ m _ r s) =
      Step-InStep m b s (Reachable-InStep a m h r)

  -- For an architecture whose `open` opens the descriptor if it succeeds and leaves it closed if
  -- not, whose `close` closes it where it can be closed, and whose other functions leave it as it
  -- is: from a state where the descriptor is open exactly while the device is open and not in
  -- external use, and after openings, writes and syncs, failed ones included, successful ends of
  -- the external mode, and successful closings and beginnings of it, where the descriptor can be
  -- closed if they close it, `device_read` passes its assertions exactly if the descriptor is open.
  pub device_read-open_iff :
      (a b : Access World) (start count : ℤ)
      → InStep is_open a
      → Reachable dev_ops can_close a b
      → (device_read dev_ops b start count ≡ done (dev_ops.read b.world start count))
        ↔ (is_open b.world ≡ true)
  unfolding device_read
  device_read-open_iff a b start count h r =
      let stays : InStep is_open b = Reachable-InStep a b h r in ground (arith, stays)
