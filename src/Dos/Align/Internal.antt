-- ===== src/Dos/Align/Internal.antt =====
-- The constraints of the DOS label on primary partitions that are not extended.
use parted.Prelude.{
  ℕ, ◌≤◌, ◌^◌, ◌≡◌, ◌∙◌, Option, none, some, refl, ap, sym, subst, arith, if◌then◌else◌,
}
use parted.Prelude.Int.{
  *ℤ_comm, one-*ℤ, ℤ, abs_ℕ, mul_nonneg, as_diff, on_diffs, diff_eq, pos, negsuc, ◌+ℤ◌, ◌-ℤ◌, ◌*ℤ◌,
  ◌≤ℤ◌, ◌<ℤ◌, int_laws, ltb_ℤ, parts_of_eq,
}
use parted.Prelude.Run.{Run, done, fault, Returns, Returns_bind, OrNull}
use parted.Geom.{Geometry, geometry_new}
use parted.Geom.Valid.{IsValid}
use parted.NatMath.{Alignment, alignment_init, alignment_new}
use parted.NatMath.Aligned.{Normalises, alignment_new-Normalises}
use parted.NatMath.Intersect.{IsNarrow}
use parted.Constraint.{init_unchecked, constraint_new_from_max}
use parted.Constraint.Solution.{Parts, IsSound}
use parted.Constraint.Starts.{init_unchecked-IsValid}
use parted.Constraint.Free.{free, free-IsSound, constraint_new-free}
use parted.NatMath.Width.{abs_short}
use parted.Constraint.Made.{alignment_new-IsNarrow, MadeOf, constraint_new-IsCopy}
use parted.Dos.{ChsGeometry}
use parted.Dos.Constraints.{
  both_ranges, new_on, primary_ranges, primary_constraint, start_position, primary_start_ranges,
  primary_start_constraint, no_geom_constraint,
}

-- A sound constraint on the device with narrow grains, whose start range leaves out sector 0.
pub record IsInternal (dev : ℕ) (q : Parts) : Type 0 where
  pub sound : IsSound q
  pub narrow_start : IsNarrow q.start_align
  pub narrow_end : IsNarrow q.end_align
  pub start_dev : q.start_range.dev ≡ dev
  pub end_dev : q.end_range.dev ≡ dev
  pub after_table : pos 1 ≤ℤ q.start_range.start

-- The sizes of a BIOS geometry are positive, and its cylinders below 2^15 sectors.
pub record IsUsable (bios_geom : ChsGeometry) : Type 0 where
  pub heads : pos 0 <ℤ bios_geom.heads
  pub sectors : pos 0 <ℤ bios_geom.sectors
  pub cylinder : pos 0 <ℤ bios_geom.sectors *ℤ bios_geom.heads
  pub narrow : bios_geom.sectors *ℤ bios_geom.heads <ℤ pos (2 ^ 15)

init-Normalises :
    (offset grain_size : ℤ) → Normalises offset grain_size (alignment_init offset grain_size)
unfolding alignment_new
init-Normalises offset grain_size = alignment_new-Normalises offset grain_size

alignment_init-IsNarrow :
    (offset grain_size : ℤ)
    → pos 0 ≤ℤ grain_size
    → grain_size <ℤ pos (2 ^ 15)
    → abs_ℕ offset ≤ 2 ^ 32
    → (a : Alignment) × (alignment_init offset grain_size ≡ some a) × IsNarrow a
unfolding alignment_new
alignment_init-IsNarrow offset grain_size nonneg lt short =
    go (alignment_init offset grain_size) refl (init-Normalises offset grain_size)
  where
    go :
        (r : Option Alignment)
        → alignment_init offset grain_size ≡ r
        → Normalises offset grain_size r
        → (a : Alignment) × (alignment_init offset grain_size ≡ some a) × IsNarrow a
    go none e negative = absurd (omega arith)
    go (some a) e (_, same, _) =
        (a, e, alignment_new-IsNarrow offset grain_size nonneg lt (λ z. short) a e)

abbrev LiesOn : ℕ → ℤ → Geometry → Type 0
LiesOn dev start g = IsValid g × (g.dev ≡ dev) × (start ≤ℤ g.start)

geometry_new-LiesOn :
    (dev : ℕ) (low start length : ℤ)
    → pos 0 ≤ℤ start
    → low ≤ℤ start
    → Returns (geometry_new dev start length) (OrNull (LiesOn dev low))
unfolding geometry_new
geometry_new-LiesOn dev low start length h k = grind int_laws

both_ranges-LiesOn :
    (dev : ℕ) (low : ℤ) (s e : Run (Option Geometry))
    → Returns s (OrNull (LiesOn dev low))
    → Returns e (OrNull (LiesOn dev (pos 0)))
    → Returns (both_ranges s e) (OrNull (λ r. LiesOn dev low r.0 × LiesOn dev (pos 0) r.1))
unfolding both_ranges
both_ranges-LiesOn dev low (done none) e hs he = tt
both_ranges-LiesOn dev low (done (some s)) (done none) hs he = tt
both_ranges-LiesOn dev low (done (some s)) (done (some e)) hs he = (hs, he)
both_ranges-LiesOn dev low (done (some s)) fault hs he = elim he [ ]
both_ranges-LiesOn dev low fault e hs he = elim hs [ ]

new_on-IsInternal :
    (dev : ℕ) (length : ℤ) (sa ea : Alignment) (ranges : Run (Option (Geometry × Geometry)))
    → IsNarrow sa
    → IsNarrow ea
    → pos 0 <ℤ length
    → Returns ranges (OrNull (λ r. LiesOn dev (pos 1) r.0 × LiesOn dev (pos 0) r.1))
    → Returns (new_on (some sa) (some ea) ranges length) (MadeOf (IsInternal dev))
unfolding new_on
new_on-IsInternal dev length sa ea fault ns ne positive h = elim h [ ]
new_on-IsInternal dev length sa ea (done none) ns ne positive h = tt
new_on-IsInternal dev length sa ea (done (some (s, e))) ns ne positive
      ((vs, ds, low), (ve, de, _)) =
    let p : Parts = record {
      start_align = sa;
      end_align = ea;
      start_range = s;
      end_range = e;
      min_size = pos 1;
      max_size = length;
    } in
    let (q, eq, copy) = constraint_new-IsCopy p (record {
      start_grain = ns.0;
      end_grain = ne.0;
      start_valid = vs;
      end_valid = ve;
      min_pos = omega arith;
      max_pos = positive;
    }) in
    rw eq (
      q,
      refl,
      record {
        sound = copy.sound;
        narrow_start = copy.start_narrow ns;
        narrow_end = copy.end_narrow ne;
        start_dev = ap (λ (g : Geometry). g.dev) copy.start_range ∙ ds;
        end_dev = ap (λ (g : Geometry). g.dev) copy.end_range ∙ de;
        after_table = subst (λ (g : Geometry). pos 1 ≤ℤ g.start) (sym copy.start_range) low;
      },
    )

product_more : (s h : ℤ) → pos 0 ≤ℤ s → pos 1 ≤ℤ h → s ≤ℤ s *ℤ h
product_more s h ps ph =
    let more = mul_nonneg s (h -ℤ pos 1) ps (omega int_laws) in
    omega (int_laws, parts_of_eq (spread s h))
  where
    distribute : (s h k : ℤ) → s *ℤ (h -ℤ k) ≡ s *ℤ h -ℤ s *ℤ k
    distribute s h k =
        rw (as_diff s, as_diff h, as_diff k) (simp on_diffs (diff_eq _ _ _ _ (omega arith)))

    spread : (s h : ℤ) → s *ℤ (h -ℤ pos 1) ≡ s *ℤ h -ℤ s
    spread s h = distribute s h (pos 1) ∙ ap (λ k. s *ℤ h -ℤ k) (*ℤ_comm s (pos 1) ∙ one-*ℤ s)

module _ (dev : ℕ) (length : ℤ) (bios_geom : ChsGeometry) (usable : IsUsable bios_geom)
    (positive : pos 1 <ℤ length) where
  primary_ranges-LiesOn :
      (cylinder_size : ℤ)
      → pos 0 <ℤ cylinder_size
      → Returns
          (primary_ranges dev length cylinder_size none)
          (OrNull (λ r. LiesOn dev (pos 1) r.0 × LiesOn dev (pos 0) r.1))
  unfolding primary_ranges
  primary_ranges-LiesOn cylinder_size h =
      let start : ℤ = if ltb_ℤ cylinder_size length then cylinder_size else pos 1 in
      let low : pos 1 ≤ℤ start = ground arith in
      both_ranges-LiesOn dev (pos 1) (geometry_new dev start (length -ℤ start))
        (geometry_new dev (pos 0) length)
        (geometry_new-LiesOn dev (pos 1) start (length -ℤ start) (omega arith) low)
        (geometry_new-LiesOn dev (pos 0) (pos 0) length (omega arith) (omega arith))

  pub primary_constraint-IsInternal :
      Returns (primary_constraint dev length bios_geom none) (MadeOf (IsInternal dev))
  unfolding primary_constraint
  primary_constraint-IsInternal =
      let cylinder_size : ℤ = bios_geom.sectors *ℤ bios_geom.heads in
      let nonneg : pos 0 ≤ℤ cylinder_size = omega (arith, usable.cylinder) in
      let (sa, es, ns) =
        alignment_init-IsNarrow (pos 0) cylinder_size nonneg usable.narrow (omega arith) in
      let (ea, ee, ne) =
        alignment_init-IsNarrow (negsuc 0) cylinder_size nonneg usable.narrow (omega arith) in
      rw (es, ee)
        (new_on-IsInternal dev length sa ea (primary_ranges dev length cylinder_size none) ns ne
          (omega arith) (primary_ranges-LiesOn cylinder_size usable.cylinder))

  pub primary_start_constraint-IsInternal :
      (geom : Geometry)
      → Returns (primary_start_constraint dev length geom bios_geom none) (MadeOf (IsInternal dev))
  unfolding primary_start_constraint primary_start_ranges
  primary_start_constraint-IsInternal geom =
      let cylinder_size : ℤ = bios_geom.sectors *ℤ bios_geom.heads in
      let start : ℤ = start_position geom bios_geom in
      let low : pos 1 ≤ℤ start = start_position-low geom in
      let nonneg : pos 0 ≤ℤ cylinder_size = omega (arith, usable.cylinder) in
      let (sa, es, ns) =
        alignment_init-IsNarrow start (pos 0) (omega arith) (omega arith)
          (start_position-short geom) in
      let (ea, ee, ne) =
        alignment_init-IsNarrow (negsuc 0) cylinder_size nonneg usable.narrow (omega arith) in
      rw (es, ee)
        (new_on-IsInternal dev length sa ea _ ns ne (omega arith) (
          both_ranges-LiesOn dev (pos 1) (geometry_new dev start (length -ℤ start))
            (geometry_new dev (pos 0) length)
            (geometry_new-LiesOn dev (pos 1) start (length -ℤ start) (omega arith) low)
            (geometry_new-LiesOn dev (pos 0) (pos 0) length (omega arith) (omega arith))))
    where
      -- A track is not above a cylinder.
      track : bios_geom.sectors ≤ℤ bios_geom.sectors *ℤ bios_geom.heads
      track =
          product_more bios_geom.sectors bios_geom.heads (omega (arith, usable.sectors))
            (omega (arith, usable.heads))

      start_position-short : (geom : Geometry) → abs_ℕ (start_position geom bios_geom) ≤ 2 ^ 32
      start_position-short geom =
          let size =
            abs_short bios_geom.sectors (omega (arith, usable.sectors))
              (omega (arith, track, usable.narrow)) in
          ground (arith, size)

      start_position-low : (geom : Geometry) → pos 1 ≤ℤ start_position geom bios_geom
      start_position-low geom = ground (arith, usable.sectors)

  pub no_geom_constraint-IsInternal :
      Returns (no_geom_constraint dev (pos 1) (length -ℤ pos 1)) (MadeOf (IsInternal dev))
  unfolding no_geom_constraint constraint_new_from_max
  no_geom_constraint-IsInternal =
      Returns_bind _ _ (init_unchecked dev (pos 1) (length -ℤ pos 1 -ℤ pos 1 +ℤ pos 1)) _
        (init_unchecked-IsValid dev (pos 1) (length -ℤ pos 1 -ℤ pos 1 +ℤ pos 1) (omega arith)
          (omega int_laws))
        (λ max (v, d, s, l). from_max max v d s)
    where
      from_max :
          (max : Geometry)
          → IsValid max
          → max.dev ≡ dev
          → max.start ≡ pos 1
          → Returns (constraint_new_from_max max) (MadeOf (IsInternal dev))
      from_max max v d s =
          rw (constraint_new-free max max (pos 1) max.length v v (omega arith) v.not_empty) (
            free max max (pos 1) max.length,
            refl,
            record {
              sound = free-IsSound max max (pos 1) max.length v v (omega arith) v.not_empty;
              narrow_start = (omega arith, omega arith, omega arith);
              narrow_end = (omega arith, omega arith, omega arith);
              start_dev = d;
              end_dev = d;
              after_table = omega (arith, parts_of_eq s);
            },
          )
