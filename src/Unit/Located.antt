-- ===== src/Unit/Located.antt =====
-- What a location that was read is: a sector of the device and a region around it.
use parted.Prelude.{
  ◌^◌, ◌≡◌, ◌∙◌, Bool, true, false, ◌||◌, Option, none, some, refl, sym, ap, Bool-cases, inl, inr,
  arith, if◌then◌else◌,
}
use mathlib.Core.Bool.{false≢true}
use parted.Prelude.Int.{
  ℤ, pos, ◌+ℤ◌, ◌-ℤ◌, ◌*ℤ◌, ◌≤ℤ◌, ◌<ℤ◌, ltb_ℤ, leb_ℤ, ◌==ℤ◌, int_laws, mul_nonneg, parts_of_eq,
  as_diff, on_diffs, diff_eq,
}
use parted.Prelude.Run.{done, Returns, OrNull, Returns_bind}
use parted.Prelude.Text.{Text}
use parted.Geom.{Geometry, geometry_new}
use parted.Geom.Valid.{IsValid}
use parted.Dos.{ChsGeometry}
use parted.NatMath.{to_int}
use parted.NatMath.Intersect.{to_int_small}
use parted.Unit.{PedUnit, UnitDevice, cyl_size}
use parted.Unit.Parse.{
  Location, no_location, chs_location, checked_chs, parse_chs, scan_three, remove_punct,
  strip_string, clip, geometry_from_centre_radius, radius_of, is_iec, located, located_at, Doubles,
  unit_parse_custom, is_chs, div_round_up,
}

-- A region of the device around the sector.
abbrev pub IsAround : UnitDevice → ℤ → Geometry → Type 0
IsAround dev sect g =
    IsValid g × (g.dev ≡ dev.address) × (g.end <ℤ dev.length) × (g.start ≤ℤ sect) × (sect ≤ℤ g.end)

abbrev pub HasRange : UnitDevice → Bool → Location → Type 0
HasRange dev with_range loc =
    with_range ≡ true → (g : Geometry) × (loc.range ≡ some g) × IsAround dev loc.sect g

abbrev pub IsLocated : UnitDevice → Bool → Location → Type 0
IsLocated dev with_range loc =
    loc.ok ≡ true → (pos 0 ≤ℤ loc.sect) × (loc.sect <ℤ dev.length) × HasRange dev with_range loc

abbrev pub NonNegative : ChsGeometry → Type 0
NonNegative read = (pos 0 ≤ℤ read.cylinders) × (pos 0 ≤ℤ read.heads) × (pos 0 ≤ℤ read.sectors)

product_mono : (a b c : ℤ) → a ≤ℤ b → pos 0 ≤ℤ c → a *ℤ c ≤ℤ b *ℤ c
product_mono a b c le nonneg =
    let gap = mul_nonneg (b -ℤ a) c (omega int_laws) nonneg in
    omega (int_laws, parts_of_eq (spread a b c))
  where
    spread : (a b c : ℤ) → (b -ℤ a) *ℤ c ≡ b *ℤ c -ℤ a *ℤ c
    spread a b c =
        rw (as_diff a, as_diff b, as_diff c) (simp on_diffs (diff_eq _ _ _ _ (omega arith)))

lt_le : (a b : ℤ) → a <ℤ b → a ≤ℤ b
lt_le a b h = omega int_laws

module _ (dev : UnitDevice) (with_range : Bool) (positive : pos 0 <ℤ dev.length) where
  geometry_new-IsAround :
      (start end sect : ℤ)
      → pos 0 ≤ℤ start
      → start ≤ℤ sect
      → sect ≤ℤ end
      → end <ℤ dev.length
      → (g : Geometry) × (geometry_new dev.address start (end -ℤ start +ℤ pos 1) ≡ done (some g))
        × IsAround dev sect g
  unfolding geometry_new
  geometry_new-IsAround start end sect a b c d = (
    record { dev = dev.address; start = start; length = end -ℤ start +ℤ pos 1; end = end },
    grind int_laws,
    (record { ends = omega int_laws; not_empty = omega int_laws; not_negative = a }, refl, d, b, c),
  )

  clip_bounds : (sect : ℤ) → (pos 0 ≤ℤ clip dev sect) × (clip dev sect <ℤ dev.length)
  unfolding clip
  clip_bounds sect = grind int_laws

  clip_mono : (a b : ℤ) → a ≤ℤ b → clip dev a ≤ℤ clip dev b
  unfolding clip
  clip_mono a b h = grind int_laws

  -- The region around a sector is never refused for its length.
  region-IsAround :
      (sect radius : ℤ)
      → pos 0 ≤ℤ radius
      → (g : Geometry) × (geometry_new dev.address
            (clip dev (sect -ℤ radius))
            (clip dev (sect +ℤ radius) -ℤ clip dev (sect -ℤ radius) +ℤ pos 1)
          ≡ done (some g))
        × IsAround dev (clip dev sect) g
  region-IsAround sect radius nonneg =
      geometry_new-IsAround (clip dev (sect -ℤ radius)) (clip dev (sect +ℤ radius)) (clip dev sect)
        (clip_bounds (sect -ℤ radius)).0 (clip_mono (sect -ℤ radius) sect (omega int_laws))
        (clip_mono sect (sect +ℤ radius) (omega int_laws)) (clip_bounds (sect +ℤ radius)).1

  geometry_from_centre_radius-IsAround :
      (sect radius : ℤ)
      → pos 0 ≤ℤ radius
      → Returns
          (geometry_from_centre_radius dev sect radius)
          (OrNull (IsAround dev (clip dev sect)))
  unfolding geometry_from_centre_radius
  geometry_from_centre_radius-IsAround sect radius nonneg =
      let (g, made, around) = region-IsAround sect radius nonneg in
      elim (Bool-cases (
        ltb_ℤ radius (sect -ℤ clip dev (sect +ℤ radius))
        || ltb_ℤ radius (clip dev (sect -ℤ radius) -ℤ sect))) [
          | inl far ↦ rw far tt
          | inr near ↦ rw (near, made) around
        ]

  located-IsLocated :
      (sect radius : ℤ)
      → pos 0 ≤ℤ radius
      → Returns (located dev with_range sect radius) (IsLocated dev with_range)
  unfolding located
  located-IsLocated sect radius nonneg = elim (Bool-cases with_range) [
    | inl asked ↦ rw asked (
        Returns_bind (OrNull (IsAround dev (clip dev sect))) (IsLocated dev true) _ _
          (geometry_from_centre_radius-IsAround sect radius nonneg) found_range)
    | inr only ↦
        rw only
          (λ e. ((clip_bounds sect).0, (clip_bounds sect).1, λ asked. absurd (false≢true asked)))
  ]
    where
      found_range :
          (r : Option Geometry)
          → OrNull (IsAround dev (clip dev sect)) r
          → IsLocated dev true (elim r [
            | none ↦ no_location
            | some range ↦ record { ok = true; sect = clip dev sect; range = some range }
          ])
      found_range none h e = absurd (false≢true e)
      found_range (some g) h e =
          ((clip_bounds sect).0, (clip_bounds sect).1, λ asked_again. (g, refl, h))

  chs_location-IsLocated :
      (sect : ℤ)
      → pos 0 ≤ℤ sect
      → Returns (chs_location dev with_range sect) (IsLocated dev with_range)
  unfolding chs_location
  chs_location-IsLocated sect nonneg = elim (Bool-cases (leb_ℤ dev.length sect)) [
    | inl behind ↦ rw behind (λ e. absurd (false≢true e))
    | inr inside ↦
        let lt : sect <ℤ dev.length = grind int_laws in
        elim (Bool-cases with_range) [
          | inl asked ↦
              let (g, made, around) =
                geometry_new-IsAround sect sect sect nonneg (omega arith) (omega arith) lt in
              let one : sect -ℤ sect +ℤ pos 1 ≡ pos 1 = grind int_laws in
              rw (inside, asked, sym (ap (λ n. geometry_new dev.address sect n) one) ∙ made)
                (λ e. (nonneg, lt, λ asked_again. (g, refl, around)))
          | inr only ↦ rw (inside, only) (λ e. (nonneg, lt, λ asked. absurd (false≢true asked)))
        ]
  ]

  cut_at_zero : (n : ℤ) → pos 0 ≤ℤ (if ltb_ℤ n (pos 0) then pos 0 else n)
  cut_at_zero n = grind int_laws

  radius_of_nonneg :
      (unit : PedUnit)
      → pos 0 <ℤ dev.sector_size
      → Returns (radius_of dev unit) (λ radius. pos 0 ≤ℤ radius)
  unfolding radius_of div_round_up
  radius_of_nonneg unit sized = elim (Bool-cases (is_iec unit)) [
    | inl iec ↦ rw iec (omega arith)
    | inr other ↦
        let nonzero : (dev.sector_size ==ℤ pos 0) ≡ false = grind int_laws in
        rw (other, nonzero) (search cut_at_zero)
  ]

  module _ (has_heads : pos 0 ≤ℤ dev.bios_geom.heads) (has_sectors : pos 0 ≤ℤ dev.bios_geom.sectors)
      (int_size : dev.bios_geom.heads *ℤ dev.bios_geom.sectors <ℤ pos (2 ^ 31)) where
    chs_nonneg :
        (read : ChsGeometry)
        → NonNegative read
        → read.heads <ℤ dev.bios_geom.heads
        → pos 0 ≤ℤ (
            read.cylinders *ℤ cyl_size dev
            +ℤ to_int (read.heads *ℤ dev.bios_geom.sectors)
            +ℤ read.sectors)
    chs_nonneg read (c, h, s) lt =
        let size = mul_nonneg _ _ has_heads has_sectors in
        let b = mul_nonneg read.heads _ h has_sectors in
        let less : read.heads *ℤ dev.bios_geom.sectors
            ≤ℤ dev.bios_geom.heads *ℤ dev.bios_geom.sectors =
          product_mono read.heads _ dev.bios_geom.sectors (lt_le read.heads dev.bios_geom.heads lt)
            has_sectors in
        let a = mul_nonneg read.cylinders _ c size in
        rw (to_int_small _ size int_size, to_int_small _ b (omega arith)) (omega int_laws)

    checked_chs-IsLocated :
        (read : Option ChsGeometry)
        → OrNull NonNegative read
        → Returns (checked_chs dev with_range read) (IsLocated dev with_range)
    unfolding checked_chs
    checked_chs-IsLocated none nonneg = λ e. absurd (false≢true e)
    checked_chs-IsLocated (some read) nonneg =
        elim (Bool-cases (leb_ℤ dev.bios_geom.heads read.heads)) [
          | inl large ↦ rw large (λ e. absurd (false≢true e))
          | inr fits ↦ elim (Bool-cases (leb_ℤ dev.bios_geom.sectors read.sectors)) [
            | inl large ↦ rw (fits, large) (λ e. absurd (false≢true e))
            | inr fits_too ↦
                rw (fits, fits_too)
                  (chs_location-IsLocated _ (chs_nonneg read nonneg (grind int_laws)))
          ]
        ]

    parse_chs-IsLocated :
        (str : Text)
        → OrNull NonNegative (scan_three (remove_punct (strip_string str)))
        → Returns (parse_chs dev with_range str) (IsLocated dev with_range)
    unfolding parse_chs
    parse_chs-IsLocated str nonneg = checked_chs-IsLocated _ nonneg

  module _ (doubles : Doubles) (default_unit : PedUnit) (sized : pos 0 <ℤ dev.sector_size) where
    located_at-IsLocated :
        (unit : PedUnit) (copy : Text) (num : Option doubles.Double)
        → Returns
            (located_at doubles default_unit dev with_range unit copy num)
            (IsLocated dev with_range)
    unfolding located_at
    located_at-IsLocated unit copy none = λ e. absurd (false≢true e)
    located_at-IsLocated unit copy (some num) = elim (Bool-cases (doubles.is_fraction num)) [
      | inl small ↦ rw small (λ e. absurd (false≢true e))
      | inr whole ↦ rw whole (
          Returns_bind _ _ _ _ (radius_of_nonneg unit sized)
            (λ radius nonneg. located-IsLocated _ radius nonneg))
    ]

-- Parsing a location in a custom unit, on a device with a sector size, a length and heads and
-- sectors that are not negative and whose product is below 2^31, returns, if none of the three
-- numbers of a CHS location is negative as an int. Where it succeeds, the sector is one of the
-- device, and the range, if one is asked for, is a region of the device around the sector.
pub unit_parse_custom-IsLocated :
    (doubles : Doubles) (default_unit : PedUnit) (dev : UnitDevice) (with_range : Bool) (str : Text)
    (unit : PedUnit)
    → pos 0 <ℤ dev.length
    → pos 0 <ℤ dev.sector_size
    → pos 0 ≤ℤ dev.bios_geom.heads
    → pos 0 ≤ℤ dev.bios_geom.sectors
    → dev.bios_geom.heads *ℤ dev.bios_geom.sectors <ℤ pos (2 ^ 31)
    → OrNull NonNegative (scan_three (remove_punct (strip_string str)))
    → Returns
        (unit_parse_custom doubles default_unit dev with_range str unit)
        (IsLocated dev with_range)
unfolding unit_parse_custom
unit_parse_custom-IsLocated doubles default_unit dev with_range str unit positive sized has_heads
      has_sectors int_size nonneg =
    elim (Bool-cases (is_chs str)) [
      | inl chs ↦
          rw chs
            (parse_chs-IsLocated dev with_range positive has_heads has_sectors int_size str nonneg)
      | inr other ↦
          rw other
            (search (located_at-IsLocated dev with_range positive doubles default_unit sized))
    ]
