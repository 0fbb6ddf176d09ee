-- ===== src/Device/Tests.antt =====
-- Examples of devices: one on Linux that can only be read, and a disk of 4096 sectors of 512 bytes.
use mathlib.Core.List.{[]}
use parted.Prelude.{◌≡◌, ◌↔◌, ℕ, suc, not, ◌||◌, true, false, none, refl, arith}
use parted.Prelude.Int.{pos, ◌/ℤ◌}
use parted.Prelude.Run.{done, Returns}
use parted.Constraint.Builders.{IsFor}
use parted.Device.{Device, asked, device_get_optimal_aligned_constraint}
use parted.Device.Access.{
  DevOps, Access, device_open, counted, device_read, device_begin_external_access,
}
use parted.Device.Linux.{
  Kernel, LinuxDevice, linux_dev_ops, linux_dev_ops-IsDevOps, linux_open, linux_close, open_round,
  close_round, flush_cache, can_close,
}
use parted.Device.Reachable.{Step, Reachable, InStep, Reachable-InStep, device_read-open_iff}
use parted.Device.Aligned.{Grains, device_get_optimal_aligned_constraint-IsFor}

-- A kernel whose calls succeed, except that the device cannot be opened to be written.
abbrev quiet : Kernel ℕ
quiet = record {
  open_file = λ k writes. (not writes, k);
  fsync = λ k. (true, suc k);
  close_file = λ k. (true, k);
  answers_retry = λ k. (false, k);
  flush_files = λ k. k;
  read = λ k start count. (true, []);
  write = λ k buffer start count. (true, true, k);
  check = λ k start count. pos 0;
  sync = λ k. (true, k);
  sync_fast = λ k. (true, k);
}

abbrev quiet_ops : DevOps (LinuxDevice ℕ)
quiet_ops = linux_dev_ops quiet 3

abbrev closed_device : LinuxDevice ℕ
closed_device = record { fd = false; dirty = false; read_only = false; is_ram = false; kernel = 0 }

abbrev open_device : LinuxDevice ℕ
open_device = record closed_device { fd = true; read_only = true }

abbrev unopened : Access (LinuxDevice ℕ)
unopened = record { open_count = 0; external_mode = false; world = closed_device }

abbrev opened : Access (LinuxDevice ℕ)
opened = record { open_count = 1; external_mode = false; world = open_device }

abbrev lent : Access (LinuxDevice ℕ)
lent = record {
  open_count = 1;
  external_mode = true;
  world = record open_device { fd = false; kernel = 1 };
}

opening : device_open quiet_ops unopened ≡ done (true, opened)
unfolding device_open counted linux_open open_round flush_cache
opening = refl

lending : device_begin_external_access quiet_ops opened ≡ done (true, lent)
unfolding device_begin_external_access linux_close close_round
lending = refl

can_lend : (not true || can_close quiet open_device) ≡ true
unfolding can_close
can_lend = refl

opened-Reachable : Reachable quiet_ops (can_close quiet) unopened opened
opened-Reachable =
    Reachable.then_step unopened unopened opened (Reachable.here unopened)
      (Step.opens true unopened opened opening)

lent-Reachable : Reachable quiet_ops (can_close quiet) unopened lent
lent-Reachable =
    Reachable.then_step unopened opened lent opened-Reachable
      (Step.begins opened lent lending can_lend)

Reachable-InStep_example : InStep (λ dev. dev.fd) lent
Reachable-InStep_example =
    Reachable-InStep quiet_ops (λ dev. dev.fd) (can_close quiet) (linux_dev_ops-IsDevOps quiet 3)
      unopened lent refl lent-Reachable

device_read-open_iff_example :
    (device_read quiet_ops opened (pos 0) (pos 1) ≡ done (true, [])) ↔ (true ≡ true)
device_read-open_iff_example =
    device_read-open_iff quiet_ops (λ dev. dev.fd) (can_close quiet)
      (linux_dev_ops-IsDevOps quiet 3) unopened opened (pos 0) (pos 1) refl opened-Reachable

abbrev disk : Device
disk = record { address = 1; sector_size = pos 512; phys_sector_size = pos 4096; length = pos 4096 }

no_hook : asked none disk ≡ none
unfolding asked
no_hook = refl

device_get_optimal_aligned_constraint-IsFor_example :
    Returns
      (device_get_optimal_aligned_constraint none none disk)
      (IsFor (Grains disk (pos 1048576 /ℤ pos 512)))
device_get_optimal_aligned_constraint-IsFor_example =
    device_get_optimal_aligned_constraint-IsFor none none disk (omega arith) (omega arith) no_hook
