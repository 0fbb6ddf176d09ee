-- ===== src/Disk/Room.antt =====
-- The constraint that keeps a partition off the others: `_partition_get_overlap_constraint`.
use mathlib.Core.List.{List}
use parted.Prelude.{ℕ, ◌≡◌, ◌↔◌, Bool-cases, inl, inr, Bool, Option, none, some, refl, arith}
use parted.Prelude.Int.{
  ℤ, pos, ◌+ℤ◌, ◌-ℤ◌, ◌≤ℤ◌, ltb_ℤ, ltb_ℤ_iff, ltb_ℤ_false, int_laws, parts_of_eq,
}
use parted.Prelude.Run.{done, Returns, Returns_map}
use parted.Geom.{Geometry, geometry_init}
use parted.Geom.Valid.{IsValid, start-le-end}
use parted.Constraint.{Constraint, init_unchecked, constraint_new_from_max}
use parted.NatMath.Intersect.{IsNarrow}
use parted.Constraint.Solution.{Parts, whole, IsSound, SolvedBy}
use parted.Constraint.Free.{free, free-IsSound, free-Solves, constraint_new-free}
use parted.Disk.Chain.Order.{Within, Avoids}
use parted.Disk.Chain.Skip.{room_start, room_start-mono}
use parted.Disk.Chain.Overlap.{OnceWith, room_end, room_end-le, room-Avoids, room-fits}
use parted.Disk.Change.{room_constraint, room_in}

-- The parts of the constraint for the room from `s` to `e`.
abbrev pub room : ℕ → ℤ → ℤ → Parts
room dev s e =
    let g : Geometry = record { dev = dev; start = s; length = e -ℤ s +ℤ pos 1; end = e } in
    free g g (pos 1) (e -ℤ s +ℤ pos 1)

abbrev RoomFrom : ℕ → ℤ → ℤ → Option Constraint → Type 0
RoomFrom dev s e none = ¬ (s ≤ℤ e)
RoomFrom dev s e (some c) = (s ≤ℤ e) × (c ≡ whole (room dev s e))

room_IsValid :
    (dev : ℕ) (s e : ℤ)
    → pos 0 ≤ℤ s
    → s ≤ℤ e
    → IsValid (record { dev = dev; start = s; length = e -ℤ s +ℤ pos 1; end = e })
room_IsValid dev s e nonneg le = record {
  ends = omega int_laws;
  not_empty = omega int_laws;
  not_negative = nonneg;
}

room-IsSound : (dev : ℕ) (s e : ℤ) → pos 0 ≤ℤ s → s ≤ℤ e → IsSound (room dev s e)
room-IsSound dev s e nonneg le =
    free-IsSound _ _ (pos 1) (e -ℤ s +ℤ pos 1) (room_IsValid dev s e nonneg le)
      (room_IsValid dev s e nonneg le) (omega arith) (omega int_laws)

init_unchecked_eq :
    (dev : ℕ) (s e : ℤ)
    → pos 0 ≤ℤ s
    → s ≤ℤ e
    → init_unchecked dev s (e -ℤ s +ℤ pos 1)
      ≡ done (record { dev = dev; start = s; length = e -ℤ s +ℤ pos 1; end = e })
unfolding init_unchecked geometry_init
init_unchecked_eq dev s e nonneg le = grind int_laws

room_constraint-RoomFrom :
    (dev : ℕ) (s e : ℤ) → pos 0 ≤ℤ s → Returns (room_constraint dev s e) (RoomFrom dev s e)
unfolding room_constraint constraint_new_from_max
room_constraint-RoomFrom dev s e nonneg = elim (Bool-cases (ltb_ℤ e s)) [
  | inl empty ↦ rw empty (λ le. absurd (omega (arith, (ltb_ℤ_iff e s).0 empty)))
  | inr space ↦
      let le : s ≤ℤ e = ltb_ℤ_false e s space in
      let v = room_IsValid dev s e nonneg le in
      rw
        (
          space,
          init_unchecked_eq dev s e nonneg le,
          constraint_new-free _ _ (pos 1) (e -ℤ s +ℤ pos 1) v v (omega arith) (omega int_laws),
        )
        (le, refl)
]

-- A sound constraint on the sectors of a device, with grains below 2^15 and offsets from -2^32 to
-- 2^32.
abbrev pub IsOn : ℕ → Constraint → (Parts → Type 0) → Type 0
IsOn dev c P =
    (p : Parts) × (c ≡ whole p)
    × IsSound p
    × (IsNarrow p.start_align × IsNarrow p.end_align)
    × ((p.start_range.dev ≡ dev) × (p.end_range.dev ≡ dev))
    × P p

-- The constraint keeps to the regions in `Fits`, and allows `g` if it is one of these. NULL if not.
abbrev pub RoomFor : ℕ → (Geometry → Type 0) → Geometry → Option Constraint → Type 0
RoomFor dev Fits g none = ¬ Fits g
RoomFor dev Fits g (some c) =
    IsOn dev c (λ p. ((h : Geometry) → IsValid h → SolvedBy p h → Fits h) × (Fits g → SolvedBy p g))

pub RoomFor-map :
    (dev : ℕ) (F G : Geometry → Type 0) (g : Geometry)
    → ((h : Geometry) → F h ↔ G h)
    → (c : Option Constraint) → RoomFor dev F g c
    → RoomFor dev G g c
RoomFor-map dev F G g iff none n = λ x. n ((iff g).1 x)
RoomFor-map dev F G g iff (some c) (p, e, sound, narrow, devs, (keeps, allows)) =
    (p, e, sound, narrow, devs, (λ h v s. (iff h).0 (keeps h v s), λ x. allows ((iff g).1 x)))

module _ {A : Type 0} (geom_of : A → Geometry) (is_part : A → Bool) where
  -- Between the bounds, and without a sector of another partition of the list.
  abbrev pub FitsIn : ℤ → ℤ → List A → Geometry → Type 0
  FitsIn min_start max_end l g =
      (min_start ≤ℤ g.start) × (g.end ≤ℤ max_end) × Avoids geom_of is_part g l

  pub room_in-RoomFor :
      (dev : ℕ) (g : Geometry) (min_start max_end high : ℤ) (l : List A)
      → IsValid g
      → pos 0 ≤ℤ min_start
      → high ≤ℤ max_end
      → OnceWith geom_of is_part l
      → Within geom_of min_start high l
      → Returns
          (room_in geom_of dev is_part g.start min_start max_end l)
          (RoomFor dev (FitsIn min_start max_end l) g)
  unfolding room_in
  room_in-RoomFor dev g min_start max_end high l v nonneg le once w =
      let s : ℤ = room_start geom_of is_part g.start min_start l in
      let e : ℤ = room_end geom_of is_part g.start min_start max_end l in
      let above : min_start ≤ℤ s =
        room_start-mono geom_of is_part g.start min_start min_start high l (omega arith) w in
      let below : e ≤ℤ max_end =
        room_end-le geom_of is_part g.start min_start max_end min_start high l le w in
      let fits : FitsIn min_start max_end l g → (s ≤ℤ g.start) × (g.end ≤ℤ e) = λ (lo, hi, a).
        room-fits geom_of is_part g min_start max_end min_start high l v once w lo hi a in
      let avoids : (h : Geometry) → s ≤ℤ h.start → h.end ≤ℤ e → Avoids geom_of is_part h l =
        λ h lo hi.
          room-Avoids geom_of is_part h g.start min_start max_end min_start high l (omega arith) w
            lo hi in
      Returns_map _ (room_for s e above below avoids fits)
        (room_constraint-RoomFrom dev s e (omega arith))
    where
      room_for :
          (s e : ℤ)
          → min_start ≤ℤ s
          → e ≤ℤ max_end
          → ((h : Geometry) → s ≤ℤ h.start → h.end ≤ℤ e → Avoids geom_of is_part h l)
          → (FitsIn min_start max_end l g → (s ≤ℤ g.start) × (g.end ≤ℤ e))
          → (c : Option Constraint) → RoomFrom dev s e c
          → RoomFor dev (FitsIn min_start max_end l) g c
      room_for s e above below avoids fits none empty =
          λ f. empty (let (lo, hi) = fits f in omega (arith, start-le-end v))
      room_for s e above below avoids fits (some c) (space, eq) = (
        room dev s e,
        eq,
        room-IsSound dev s e (omega arith) space,
        ((omega arith, omega arith, omega arith), (omega arith, omega arith, omega arith)),
        (refl, refl),
        (
          λ h vh sol. (
            omega (arith, sol.start_above),
            omega (arith, sol.end_below),
            avoids h sol.start_above sol.end_below,
          ),
          λ f.
              let (lo, hi) = fits f in
              free-Solves _ _ (pos 1) (e -ℤ s +ℤ pos 1) g.start g.end g.length lo
                (omega (arith, start-le-end v)) (omega (arith, start-le-end v)) hi
                (omega (arith, v.not_empty)) (omega (int_laws, parts_of_eq v.ends)),
        ),
      )
