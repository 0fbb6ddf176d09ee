-- ===== src/Dos/Probe.antt =====
-- The geometry that fits both ends of a partition: `probe_partition_for_geom`.
use parted.Prelude.{
  ◌≡◌, ◌⊎◌, Bool-cases, inl, inr, not, ◌||◌, Bool, true, false, Option, none, some, refl, sym, ap,
  ap₂, ◌∙◌, arith, if◌then◌else◌,
}
use parted.Prelude.Int.{
  ℤ, pos, ◌+ℤ◌, ◌-ℤ◌, ◌*ℤ◌, ◌/ℤ◌, ◌≤ℤ◌, ◌<ℤ◌, ltb_ℤ, leb_ℤ, ◌==ℤ◌, *ℤ_comm, zero-*ℤ, +ℤ-*ℤ, one-*ℤ,
  not_ltb_ℤ, parts_of_eq, ==ℤ_iff, ltb_ℤ_false, int_laws,
}
use parted.Prelude.Run.{done, Returns, Returns_map}
use parted.Dos.{
  ChsGeometry, OrigState, Place, place, too_little, check_sizes, head_size_of, solve_places,
  probe_partition_for_geom, chs_to_sector, sector_at, chs_get_cylinder, chs_get_head,
  chs_get_sector,
}

-- The place, of so many cylinders, is that sector of a disk with the geometry.
abbrev pub FitsAt : ChsGeometry → ℤ → Place → Type 0
FitsAt g c p = (c *ℤ g.heads +ℤ p.h) *ℤ g.sectors +ℤ p.s ≡ p.a

-- A geometry within the limits that fits both ends; of the end, or of the end one cylinder further.
abbrev pub FitsBoth : Place → Place → Option ChsGeometry → Type 0
FitsBoth start end none = Unit {0}
FitsBoth start end (some g) =
    ((pos 0 <ℤ g.heads) × (g.heads <ℤ pos 256))
    × ((pos 0 <ℤ g.sectors) × (g.sectors ≤ℤ pos 63))
    × FitsAt g start.c start
    × (FitsAt g end.c end ⊎ FitsAt g (end.c +ℤ pos 1) end)

check_sizes-FitsBoth :
    (length : ℤ) (start end : Place) (cyl_size head_size : ℤ)
    → FitsBoth start end (check_sizes length start end cyl_size head_size)
unfolding check_sizes
check_sizes-FitsBoth length start end cyl_size head_size =
    let heads : ℤ = cyl_size /ℤ head_size in
    let at_end : ℤ → Bool = λ c. (c *ℤ heads +ℤ end.h) *ℤ head_size +ℤ end.s ==ℤ end.a in
    let at_start : Bool = (start.c *ℤ heads +ℤ start.h) *ℤ head_size +ℤ start.s ==ℤ start.a in
    go (not (ltb_ℤ (pos 0) head_size) || not (leb_ℤ head_size (pos 63))) refl
      (not (ltb_ℤ (pos 0) heads) || not (ltb_ℤ heads (pos 256))) refl at_start refl
      (at_end (end.c +ℤ pos 1)) refl (at_end end.c) refl
  where
    go :
        (bad_head : Bool)
        → (not (ltb_ℤ (pos 0) head_size) || not (leb_ℤ head_size (pos 63))) ≡ bad_head
        → (bad_heads : Bool)
        → (not (ltb_ℤ (pos 0) (cyl_size /ℤ head_size))
            || not (ltb_ℤ (cyl_size /ℤ head_size) (pos 256)))
          ≡ bad_heads
        → (at_start : Bool)
        → ((start.c *ℤ (cyl_size /ℤ head_size) +ℤ start.h) *ℤ head_size +ℤ start.s ==ℤ start.a)
          ≡ at_start
        → (further : Bool)
        → (((end.c +ℤ pos 1) *ℤ (cyl_size /ℤ head_size) +ℤ end.h) *ℤ head_size +ℤ end.s ==ℤ end.a)
          ≡ further
        → (at_end : Bool)
        → ((end.c *ℤ (cyl_size /ℤ head_size) +ℤ end.h) *ℤ head_size +ℤ end.s ==ℤ end.a) ≡ at_end
        → FitsBoth start end (
            let end_c = if further then end.c +ℤ pos 1 else end.c in
            if bad_head
            then none
            else if bad_heads
            then none
            else if not at_start
            then none
            else if not
                ((end_c *ℤ (cyl_size /ℤ head_size) +ℤ end.h) *ℤ head_size +ℤ end.s ==ℤ end.a)
            then none
            else some (record {
              cylinders = length /ℤ cyl_size;
              heads = cyl_size /ℤ head_size;
              sectors = head_size;
            }))
    go true e1 b2 e2 b3 e3 b4 e4 b5 e5 = tt
    go false e1 true e2 b3 e3 b4 e4 b5 e5 = tt
    go false e1 false e2 false e3 b4 e4 b5 e5 = tt
    go false e1 false e2 true e3 true e4 b5 e5 = rw e4 (
      (ground arith, ground arith),
      (ground arith, ground arith),
      (==ℤ_iff _ _).0 e3,
      inr ((==ℤ_iff _ _).0 e4),
    )
    go false e1 false e2 true e3 false e4 true e5 = rw e5 (
      (ground arith, ground arith),
      (ground arith, ground arith),
      (==ℤ_iff _ _).0 e3,
      inl ((==ℤ_iff _ _).0 e5),
    )
    go false e1 false e2 true e3 false e4 false e5 = rw e5 tt

times_zero : (a z : ℤ) → z ≡ pos 0 → a *ℤ z ≡ pos 0
times_zero a z e = ap (λ x. a *ℤ x) e ∙ *ℤ_comm a (pos 0) ∙ zero-*ℤ a

-- One of the heads is not 0, so that the assertion holds.
head_size_of-done :
    (start end : Place) (cyl_size : ℤ)
    → pos 0 ≤ℤ start.h
    → pos 0 ≤ℤ end.h
    → (start.c *ℤ end.h -ℤ end.c *ℤ start.h ==ℤ pos 0) ≡ false
    → (z : ℤ) × (head_size_of start end cyl_size ≡ done z)
unfolding head_size_of
head_size_of-done start end cyl_size h0 h1 regular = elim (Bool-cases (ltb_ℤ (pos 0) start.h)) [
  | inl is ↦ ((start.a -ℤ start.s -ℤ start.c *ℤ cyl_size) /ℤ start.h, rw is refl)
  | inr zero_h ↦ elim (Bool-cases (ltb_ℤ (pos 0) end.h)) [
    | inl is ↦ ((end.a -ℤ end.s -ℤ end.c *ℤ cyl_size) /ℤ end.h, rw (zero_h, is) refl)
    | inr zero_end ↦
        let at_zero : start.h ≡ pos 0 = omega (int_laws, h0, ltb_ℤ_false (pos 0) start.h zero_h) in
        let end_at_zero : end.h ≡ pos 0 =
          omega (int_laws, h1, ltb_ℤ_false (pos 0) end.h zero_end) in
        let singular : start.c *ℤ end.h -ℤ end.c *ℤ start.h ≡ pos 0 =
          ap₂ (λ x y. x -ℤ y) (times_zero start.c end.h end_at_zero)
            (times_zero end.c start.h at_zero)
          ∙ zero_less_zero in
        let is_zero : (start.c *ℤ end.h -ℤ end.c *ℤ start.h ==ℤ pos 0) ≡ true =
          (==ℤ_iff _ _).1 singular in
        absurd (cc (is_zero, regular))
  ]
]
  where
    zero_less_zero : pos 0 -ℤ pos 0 ≡ pos 0
    zero_less_zero = omega int_laws

solve_places-FitsBoth :
    (length : ℤ) (start end : Place)
    → pos 0 ≤ℤ start.h
    → pos 0 ≤ℤ end.h
    → Returns (solve_places length start end) (FitsBoth start end)
unfolding solve_places
solve_places-FitsBoth length start end h0 h1 =
    let denum : ℤ = start.c *ℤ end.h -ℤ end.c *ℤ start.h in
    let numerator : ℤ = (start.a -ℤ start.s) *ℤ end.h -ℤ (end.a -ℤ end.s) *ℤ start.h in
    let cyl_size : ℤ = numerator /ℤ denum in
    elim (Bool-cases (denum ==ℤ pos 0)) [
      | inl singular ↦ rw singular tt
      | inr regular ↦
          let (head_size, e) = head_size_of-done start end cyl_size h0 h1 regular in
          elim (Bool-cases (cyl_size *ℤ denum ==ℤ numerator)) [
            | inr inexact ↦ rw (regular, inexact) tt
            | inl exact ↦
                elim (Bool-cases
                  (not (ltb_ℤ (pos 0) cyl_size) || not (leb_ℤ cyl_size (pos 16065)))) [
                    | inl bad ↦ rw (regular, exact, bad) tt
                    | inr good ↦
                        rw (regular, exact, good, e)
                          (check_sizes-FitsBoth length start end cyl_size head_size)
                  ]
          ]
    ]

-- The cylinders of both ends count, if their heads are not negative.
too_little_lem :
    (start end : Place) → too_little start end ≡ false → (start.c ≤ℤ end.c) × (end.c ≤ℤ pos 1021)
unfolding too_little
too_little_lem start end e = (ground arith, ground arith)

-- A geometry within the limits of a table. The start of the partition is the sector that its three
-- bytes stand for, and the end is too, or is the sector one cylinder further, unless a byte has no
-- sector number.
abbrev pub IsProbed : OrigState → Option ChsGeometry → Type 0
IsProbed orig none = Unit {0}
IsProbed orig (some g) =
    ((pos 0 <ℤ g.heads) × (g.heads <ℤ pos 256))
    × ((pos 0 <ℤ g.sectors) × (g.sectors ≤ℤ pos 63))
    × (pos 0 ≤ℤ chs_get_sector orig.chs_start → chs_to_sector g orig.chs_start ≡ orig.start)
    × (pos 0 ≤ℤ chs_get_sector orig.chs_end
        → (chs_to_sector g orig.chs_end ≡ orig.end)
          ⊎ (chs_to_sector g orig.chs_end +ℤ g.heads *ℤ g.sectors ≡ orig.end))

sector_at_place :
    (g : ChsGeometry) (c h s : ℤ)
    → c ≤ℤ pos 1021
    → pos 0 ≤ℤ s
    → sector_at g c h s ≡ (c *ℤ g.heads +ℤ h) *ℤ g.sectors +ℤ s
unfolding sector_at
sector_at_place g c h s few nonneg =
    ap₂ (λ a b. if a then pos 0 else if b then pos 0 else (c *ℤ g.heads +ℤ h) *ℤ g.sectors +ℤ s)
      (not_ltb_ℤ (pos 1021) c few) (not_ltb_ℤ s (pos 0) nonneg)

-- One cylinder further.
one_further :
    (g : ChsGeometry) (c h s : ℤ)
    → ((c +ℤ pos 1) *ℤ g.heads +ℤ h) *ℤ g.sectors +ℤ s
      ≡ (c *ℤ g.heads +ℤ h) *ℤ g.sectors +ℤ s +ℤ g.heads *ℤ g.sectors
one_further g c h s =
    let spread : (c +ℤ pos 1) *ℤ g.heads ≡ c *ℤ g.heads +ℤ g.heads =
      +ℤ-*ℤ c (pos 1) g.heads ∙ ap (λ x. c *ℤ g.heads +ℤ x) (one-*ℤ g.heads) in
    let sum : (c +ℤ pos 1) *ℤ g.heads +ℤ h ≡ c *ℤ g.heads +ℤ h +ℤ g.heads =
      omega (int_laws, parts_of_eq spread) in
    let product : ((c +ℤ pos 1) *ℤ g.heads +ℤ h) *ℤ g.sectors
        ≡ (c *ℤ g.heads +ℤ h) *ℤ g.sectors +ℤ g.heads *ℤ g.sectors =
      ap (λ x. x *ℤ g.sectors) sum ∙ +ℤ-*ℤ (c *ℤ g.heads +ℤ h) g.heads g.sectors in
    omega (int_laws, parts_of_eq product)

-- For every partition of a table, `probe_partition_for_geom` returns: its assertion holds. A
-- geometry that it finds has 1 to 255 heads and 1 to 63 sectors; `chs_to_sector` with it gives the
-- start of the partition from the three bytes for it, and the end, or the sector one cylinder
-- before it, from the three for the end, unless these bytes have no sector number.
pub probe_partition_for_geom-IsProbed :
    (length : ℤ) (orig : OrigState)
    → Returns (probe_partition_for_geom length (some orig)) (IsProbed orig)
unfolding probe_partition_for_geom chs_get_head chs_to_sector
probe_partition_for_geom-IsProbed length orig =
    elim (Bool-cases (too_little (place orig.chs_start orig.start) (place orig.chs_end orig.end))) [
      | inl little ↦ rw little tt
      | inr enough ↦
          let (up, few) =
            too_little_lem (place orig.chs_start orig.start) (place orig.chs_end orig.end) enough in
          rw enough (
            Returns_map _ (probed up few) (
              solve_places-FitsBoth length (place orig.chs_start orig.start)
                (place orig.chs_end orig.end) (omega arith) (omega arith)))
    ]
  where
    probed :
        chs_get_cylinder orig.chs_start ≤ℤ chs_get_cylinder orig.chs_end
        → chs_get_cylinder orig.chs_end ≤ℤ pos 1021
        → (r : Option ChsGeometry)
        → FitsBoth (place orig.chs_start orig.start) (place orig.chs_end orig.end) r
        → IsProbed orig r
    probed up few none f = tt
    probed up few (some g) (heads, sectors, at_start, at_end) = (
      heads,
      sectors,
      (λ s.
          sector_at_place g (chs_get_cylinder orig.chs_start) (chs_get_head orig.chs_start)
            (chs_get_sector orig.chs_start) (omega arith) s
          ∙ at_start),
      (λ s.
          let value =
            sector_at_place g (chs_get_cylinder orig.chs_end) (chs_get_head orig.chs_end)
              (chs_get_sector orig.chs_end) few s in
          elim at_end [
            | inl here ↦ inl (value ∙ here)
            | inr further ↦ inr (
                ap (λ x. x +ℤ g.heads *ℤ g.sectors) value
                ∙ sym (
                    one_further g (chs_get_cylinder orig.chs_end) (chs_get_head orig.chs_end)
                      (chs_get_sector orig.chs_end))
                ∙ further)
          ]),
    )
