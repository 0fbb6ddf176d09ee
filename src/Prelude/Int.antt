-- ===== src/Prelude/Int.antt =====
-- Signed integers over the native numbers, with the division and remainder of C.
mod Defs
mod Parts
mod Ring
mod Division
mod Divides
pub use Defs.{
  ℤ, pos, negsuc, pos_part, neg_part, abs_ℕ, ◌≤ℤ◌, ◌<ℤ◌, ltb_ℤ, leb_ℤ, ◌==ℤ◌, max_ℤ, min_ℤ,
}
unfoldable pub use Defs.{diff, ◌+ℤ◌, ◌-ℤ◌, ◌*ℤ◌, ◌/ℤ◌, ◌%ℤ◌}
pub use Parts.*
pub use Ring.*
pub use Division.*
pub use Divides.*
