-- ===== src/Geom/Valid.antt =====
-- The conditions that geom.c states of every region, and which operations keep them.
use parted.Prelude.{ℕ, ◌≡◌, ◌↔◌, Bool, true, false, some, arith}
use parted.Prelude.Int.{ℤ, pos, ◌+ℤ◌, ◌-ℤ◌, ◌≤ℤ◌, ◌<ℤ◌, int_laws, parts_of_eq}
use parted.Prelude.Run.{Run, done, fault}
use parted.Geom.{
  Geometry, geometry_set, geometry_new, geometry_duplicate, geometry_set_start, geometry_set_end,
}

-- Three of the four conditions at the head of geom.c. The fourth speaks of the device's length.
pub record IsValid (g : Geometry) : Type 0 where
  pub ends : g.start +ℤ g.length -ℤ pos 1 ≡ g.end
  pub not_empty : pos 0 <ℤ g.length
  pub not_negative : pos 0 ≤ℤ g.start

pub start-le-end : {g : Geometry} → IsValid g → g.start ≤ℤ g.end
start-le-end v = omega (int_laws, parts_of_eq v.ends)

-- What `geometry_set` may do with a region `g`: change its place, refuse a length below 1 and
-- leave the region alone, or fail its assertion.
abbrev pub Sets : Geometry → ℤ → ℤ → Run (Bool × Geometry) → Type 0
Sets g start length (done (true, g')) =
    IsValid g' × (g'.dev ≡ g.dev) × (g'.start ≡ start) × (g'.length ≡ length)
Sets g start length (done (false, g')) = (pos 0 ≤ℤ start) × (length <ℤ pos 1) × (g' ≡ g)
Sets g start length fault = start <ℤ pos 0

-- `geometry_set` gives a region the start and the length and makes it valid, on the same device;
-- or it returns 0 for a length below 1 and leaves the region alone; or its assertion fails, for a
-- negative start only.
pub geometry_set-Sets :
    (g : Geometry) (start length : ℤ) → Sets g start length (geometry_set g start length)
unfolding geometry_set
geometry_set-Sets g start length = ground arith

-- A new region exists exactly for a positive length, and is the valid one with the given fields.
pub geometry_new_iff :
    (dev : ℕ) (start length : ℤ) (g : Geometry)
    → pos 0 ≤ℤ start
    → (geometry_new dev start length ≡ done (some g))
      ↔ (IsValid g × (g.dev ≡ dev) × (g.start ≡ start) × (g.length ≡ length))
unfolding geometry_new
geometry_new_iff dev start length g h = ground arith

-- Duplicating a valid region gives an equal one.
pub geometry_duplicate_eq : (g : Geometry) → IsValid g → geometry_duplicate g ≡ done (some g)
unfolding geometry_duplicate
geometry_duplicate_eq g v = ground arith

-- From a valid region, for a start that is not negative, `geometry_set_start` succeeds exactly
-- when the start is not behind the end, with the valid region of the same device and end that
-- starts there.
pub geometry_set_start_iff :
    (g g' : Geometry) (start : ℤ)
    → IsValid g
    → pos 0 ≤ℤ start
    → (geometry_set_start g start ≡ done (true, g'))
      ↔ ((start ≤ℤ g.end) × IsValid g' × (g'.dev ≡ g.dev) × (g'.start ≡ start) × (g'.end ≡ g.end))
unfolding geometry_set_start
geometry_set_start_iff g g' start v h = grind int_laws

-- From a valid region `geometry_set_end` succeeds exactly when the end is not before the start,
-- with the valid region of the same device and start that ends there.
pub geometry_set_end_iff :
    (g g' : Geometry) (end : ℤ)
    → IsValid g
    → (geometry_set_end g end ≡ done (true, g'))
      ↔ ((g.start ≤ℤ end) × IsValid g' × (g'.dev ≡ g.dev) × (g'.start ≡ g.start) × (g'.end ≡ end))
unfolding geometry_set_end
geometry_set_end_iff g g' end v = grind int_laws

-- To set the place of a valid region gives the region.
pub set_again :
    (geom g : Geometry)
    → IsValid g
    → geom.dev ≡ g.dev
    → geometry_set geom g.start g.length ≡ done (true, g)
unfolding geometry_set
set_again geom g v same = grind int_laws
