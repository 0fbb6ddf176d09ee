-- ===== src/Device/Linux.antt =====
-- How the descriptor of a device is opened and closed on Linux: `_device_open`, `linux_open` to
-- `linux_refresh_close` and `_flush_cache` of libparted/arch/linux.c. The calls of the kernel and
-- the answers of the user are parameters, and so are the functions of linux.c that work on the open
-- descriptor (reading, writing and syncing).
use mathlib.Core.List.{List}
use parted.Prelude.{ℕ, suc, zero, ◌≡◌, ◌&&◌, ◌||◌, Bool, true, false, refl, arith, if◌then◌else◌}
use parted.Prelude.Int.{ℤ}
use parted.Device.Access.{DevOps}
use parted.Device.Reachable.{IsDevOps}

-- `open_file` is told whether the device is to be written too, and a call tells whether it
-- succeeded. `answers_retry` is `ped_exception_throw`, with whether the answer is to retry.
-- `flush_files` are the calls of `_flush_cache`. `write` tells whether the device is dirty, too.
pub record Kernel (K : Type 0) : Type 0 where
  pub open_file : K → Bool → Bool × K
  pub fsync : K → Bool × K
  pub close_file : K → Bool × K
  pub answers_retry : K → Bool × K
  pub flush_files : K → K
  pub read : K → ℤ → ℤ → Bool × List ℕ
  pub write : K → List ℕ → ℤ → ℤ → Bool × Bool × K
  pub check : K → ℤ → ℤ → ℤ
  pub sync : K → Bool × K
  pub sync_fast : K → Bool × K

-- `fd` tells whether the descriptor is open, `is_ram` whether the type is PED_DEVICE_RAM.
pub record LinuxDevice (K : Type 0) : Type 0 where
  pub fd : Bool
  pub dirty : Bool
  pub read_only : Bool
  pub is_ram : Bool
  pub kernel : K

module _ {K : Type 0} (calls : Kernel K) where
  unfoldable pub flush_cache : LinuxDevice K → LinuxDevice K
  flush_cache dev =
      if dev.read_only || dev.is_ram
      then dev
      else record dev { dirty = false; kernel = calls.flush_files dev.kernel }

  -- One round of `_device_open`, with what a retry does.
  unfoldable pub open_round :
      LinuxDevice K → (LinuxDevice K → Bool × LinuxDevice K) → Bool × LinuxDevice K
  unfolding flush_cache
  open_round dev retry =
      let (both, k) = calls.open_file dev.kernel true in
      let (only_read, k') = calls.open_file k false in
      let (again, k'') = calls.answers_retry k' in
      let failed = record dev { fd = false; kernel = k'' } in
      if both
      then (true, flush_cache (record dev { fd = true; read_only = false; kernel = k }))
      else if only_read
      then (true, flush_cache (record dev { fd = true; read_only = true; kernel = k'' }))
      else if again
      then retry failed
      else (false, failed)

  -- One round of `linux_close`. The device is told to be closed also where an error is ignored.
  unfoldable pub close_round :
      LinuxDevice K → (LinuxDevice K → Bool × LinuxDevice K) → Bool × LinuxDevice K
  close_round dev retry =
      let (synced, k) = calls.fsync dev.kernel in
      let (closed, k') = calls.close_file k in
      let (again, k'') = calls.answers_retry (if synced then k' else k) in
      let failed = record dev { kernel = k'' } in
      if synced && closed
      then (true, record dev { fd = false; kernel = k' })
      else if again
      then retry failed
      else (true, failed)

  -- The user is willing to retry as often as the number says.
  unfoldable pub linux_open : ℕ → LinuxDevice K → Bool × LinuxDevice K
  unfolding open_round
  linux_open zero dev = open_round dev (λ failed. (false, failed))
  linux_open (suc retries) dev = open_round dev (linux_open retries)

  close_rounds : ℕ → LinuxDevice K → Bool × LinuxDevice K
  unfolding close_round
  close_rounds zero dev = close_round dev (λ failed. (true, failed))
  close_rounds (suc retries) dev = close_round dev (close_rounds retries)

  flushed_if_dirty : LinuxDevice K → LinuxDevice K
  unfolding flush_cache
  flushed_if_dirty dev = if dev.dirty then flush_cache dev else dev

  unfoldable pub linux_close : ℕ → LinuxDevice K → Bool × LinuxDevice K
  unfolding close_rounds flushed_if_dirty
  linux_close retries dev = close_rounds retries (flushed_if_dirty dev)

  unfoldable pub linux_refresh_open : LinuxDevice K → Bool × LinuxDevice K
  linux_refresh_open dev = (true, dev)

  unfoldable pub linux_refresh_close : LinuxDevice K → Bool × LinuxDevice K
  unfolding flushed_if_dirty
  linux_refresh_close dev = (true, flushed_if_dirty dev)

  abbrev on_kernel : LinuxDevice K → Bool × K → Bool × LinuxDevice K
  on_kernel dev (status, k) = (status, record dev { kernel = k })

  abbrev written : LinuxDevice K → Bool × Bool × K → Bool × LinuxDevice K
  written dev (status, dirty, k) = (status, record dev { dirty = dirty; kernel = k })

  abbrev pub linux_dev_ops : ℕ → DevOps (LinuxDevice K)
  linux_dev_ops retries = record {
    open_dev = linux_open retries;
    refresh_open = linux_refresh_open;
    close = linux_close retries;
    refresh_close = linux_refresh_close;
    read = λ dev start count. calls.read dev.kernel start count;
    write = λ dev buffer start count. written dev (calls.write dev.kernel buffer start count);
    check = λ dev start count. calls.check dev.kernel start count;
    sync = λ dev. on_kernel dev (calls.sync dev.kernel);
    sync_fast = λ dev. on_kernel dev (calls.sync_fast dev.kernel);
  }

  -- `fsync` and `close` succeed at once.
  unfoldable pub can_close : LinuxDevice K → Bool
  unfolding flushed_if_dirty
  can_close dev =
      let (synced, k) = calls.fsync (flushed_if_dirty dev).kernel in
      let (closed, _) = calls.close_file k in synced && closed

  open_round-fd :
      (dev : LinuxDevice K) (retry : LinuxDevice K → Bool × LinuxDevice K)
      → ((d : LinuxDevice K) → d.fd ≡ false → (retry d).1.fd ≡ (retry d).0)
      → (open_round dev retry).1.fd ≡ (open_round dev retry).0
  unfolding open_round flush_cache
  open_round-fd dev retry next = grind (arith, next)

  linux_open-fd :
      (retries : ℕ) (dev : LinuxDevice K)
      → (linux_open retries dev).1.fd ≡ (linux_open retries dev).0
  unfolding linux_open
  linux_open-fd zero dev = open_round-fd dev (λ failed. (false, failed)) (λ d closed. closed)
  linux_open-fd (suc retries) dev =
      open_round-fd dev (linux_open retries) (λ d closed. linux_open-fd retries d)

  close_round-fd :
      (dev : LinuxDevice K) (retry : LinuxDevice K → Bool × LinuxDevice K)
      → ((calls.fsync dev.kernel).0 && (calls.close_file (calls.fsync dev.kernel).1).0) ≡ true
      → (close_round dev retry).1.fd ≡ false
  unfolding close_round
  close_round-fd dev retry h = ground (arith, h)

  linux_close-fd :
      (retries : ℕ) (dev : LinuxDevice K)
      → can_close dev ≡ true
      → (linux_close retries dev).1.fd ≡ false
  unfolding linux_close can_close close_rounds
  linux_close-fd zero dev h = close_round-fd (flushed_if_dirty dev) (λ failed. (true, failed)) h
  linux_close-fd (suc retries) dev h =
      close_round-fd (flushed_if_dirty dev) (close_rounds retries) h

  flushed-fd : (dev : LinuxDevice K) → (flushed_if_dirty dev).fd ≡ dev.fd
  unfolding flushed_if_dirty flush_cache
  flushed-fd dev = ground arith

  -- The functions of linux.c keep the descriptor as they should.
  pub linux_dev_ops-IsDevOps :
      (retries : ℕ) → IsDevOps (linux_dev_ops retries) (λ dev. dev.fd) can_close
  unfolding linux_refresh_open linux_refresh_close
  linux_dev_ops-IsDevOps retries = record {
    open_dev = λ dev closed. linux_open-fd retries dev;
    refresh_open = λ dev. refl;
    close = λ dev h. linux_close-fd retries dev h;
    refresh_close = λ dev. flushed-fd dev;
    write = λ dev buffer start count. refl;
    sync = λ dev. refl;
    sync_fast = λ dev. refl;
  }
