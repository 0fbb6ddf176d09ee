-- ===== src/Geom.antt =====
-- Regions of a device: libparted/cs/geom.c and the struct of include/parted/geom.in.h. A device
-- is its address, a number. `none` is a NULL pointer; a parameter that is asserted not to be NULL
-- is no Option. ped_malloc is taken to succeed, and the exception that `geometry_set` throws is
-- left out but for the 0 that is returned after it.
pub mod Valid
pub mod Tests
pub mod Sectors
pub mod Transfer
use parted.Prelude.{ℕ, ◌==◌, Bool, true, false, not, ◌&&◌, ◌||◌, Option, none, some, if◌then◌else◌}
use parted.Prelude.Int.{ℤ, pos, negsuc, ◌+ℤ◌, ◌-ℤ◌, ltb_ℤ, leb_ℤ, ◌==ℤ◌, max_ℤ, min_ℤ}
use parted.Prelude.Run.{Run, done, fault, ped_assert, ◌>>=◌, ◌>>◌}

pub record Geometry : Type 0 where
  pub dev : ℕ
  pub start : ℤ
  pub length : ℤ
  pub end : ℤ

-- Memory that nothing was stored in yet.
abbrev pub unset : Geometry
unset = record { dev = 0; start = pos 0; length = pos 0; end = pos 0 }

-- The value is the int that is returned, and what the pointer refers to afterwards.
unfoldable pub geometry_set : Geometry → ℤ → ℤ → Run (Bool × Geometry)
geometry_set geom start length = do
  ped_assert (leb_ℤ (pos 0) start)
  if ltb_ℤ length (pos 1)
      then done (false, geom)
      else done
          (true, record geom { start = start; length = length; end = start +ℤ length -ℤ pos 1 })

unfoldable pub geometry_init : Geometry → ℕ → ℤ → ℤ → Run (Bool × Geometry)
unfolding geometry_set
geometry_init geom dev start length = geometry_set (record geom { dev = dev }) start length

abbrev kept_if_set : Bool × Geometry → Option Geometry
kept_if_set (ok, geom) = if ok then some geom else none

unfoldable pub geometry_new : ℕ → ℤ → ℤ → Run (Option Geometry)
unfolding geometry_init
geometry_new dev start length = do
  set ← geometry_init unset dev start length
  done (kept_if_set set)

unfoldable pub geometry_duplicate : Geometry → Run (Option Geometry)
unfolding geometry_new
geometry_duplicate geom = geometry_new geom.dev geom.start geom.length

intersect_regions : Geometry → Geometry → Run (Option Geometry)
unfolding geometry_new
intersect_regions a b =
    let start = max_ℤ a.start b.start in
    let end = min_ℤ a.end b.end in
    if not (a.dev == b.dev)
    then done none
    else if ltb_ℤ end start
    then done none
    else geometry_new a.dev start (end -ℤ start +ℤ pos 1)

unfoldable pub geometry_intersect : Option Geometry → Option Geometry → Run (Option Geometry)
unfolding intersect_regions
geometry_intersect (some a) (some b) = intersect_regions a b
geometry_intersect _ _ = done none

unfoldable pub geometry_set_start : Geometry → ℤ → Run (Bool × Geometry)
unfolding geometry_set
geometry_set_start geom start = geometry_set geom start (geom.end -ℤ start +ℤ pos 1)

unfoldable pub geometry_set_end : Geometry → ℤ → Run (Bool × Geometry)
unfolding geometry_set
geometry_set_end geom end = geometry_set geom geom.start (end -ℤ geom.start +ℤ pos 1)

unfoldable pub geometry_test_overlap : Geometry → Geometry → Bool
geometry_test_overlap a b =
    if not (a.dev == b.dev)
    then false
    else if ltb_ℤ a.start b.start
    then leb_ℤ b.start a.end
    else leb_ℤ a.start b.end

unfoldable pub geometry_test_inside : Geometry → Geometry → Bool
geometry_test_inside a b =
    if not (a.dev == b.dev) then false else leb_ℤ a.start b.start && leb_ℤ b.end a.end

unfoldable pub geometry_test_equal : Geometry → Geometry → Bool
geometry_test_equal a b = (a.dev == b.dev) && (a.start ==ℤ b.start) && (a.end ==ℤ b.end)

unfoldable pub geometry_test_sector_inside : Geometry → ℤ → Bool
geometry_test_sector_inside geom sector = leb_ℤ geom.start sector && leb_ℤ sector geom.end

unfoldable pub geometry_map : Geometry → Geometry → ℤ → ℤ
unfolding geometry_test_sector_inside
geometry_map dst src sector =
    let result = src.start +ℤ sector -ℤ dst.start in
    if not (geometry_test_sector_inside src sector)
    then negsuc 0
    else if not (dst.dev == src.dev)
    then negsuc 0
    else if ltb_ℤ result (pos 0) || ltb_ℤ dst.length result
    then negsuc 0
    else result
