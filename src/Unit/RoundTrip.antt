-- ===== src/Unit/RoundTrip.antt =====
-- Printing and parsing again: `ped_unit_format_custom_byte` and `ped_unit_parse_custom` of
-- libparted/unit.c for CHS locations.
use native.Mathlib.Nat
use native.Mathlib.Nat.{mod-lt}
use mathlib.Core.List.{[], ◌∷◌}
use parted.Prelude.{
  ℕ, ◌+◌, ◌*◌, ◌/◌, ◌%◌, ◌^◌, ◌<◌, ◌≡◌, refl, sym, ap, ◌∙◌, true, false, none, some, arith, ◌≤◌,
}
use parted.Prelude.Int.{ℤ, pos, ◌+ℤ◌, ◌*ℤ◌, ◌/ℤ◌, ◌%ℤ◌, leb_ℤ, ◌<ℤ◌, ◌==ℤ◌, pos-*ℤ, pos_add}
use parted.Prelude.Run.{done, ◌>>=◌}
use parted.Prelude.Text.{
  Text, digits, print_int, scan_int-digits, scan_int-digits_end, scan_int-space,
}
use parted.NatMath.{to_int}
use parted.NatMath.Intersect.{to_int_small}
use parted.Unit.{
  PedUnit, chs, UnitDevice, format_chs, unit_format_custom, unit_format_custom_byte, divided,
}
use parted.Unit.Parse.{
  Doubles, unit_parse_custom, parse_chs, is_chs, strip_string, remove_punct, scan_three,
  checked_chs, chs_location,
}
use parted.Unit.Printed.{
  strip_string-NoSpaces, digits-NoSpaces, remove_punct-digits, punct_count-digits,
}

-- The text that is printed.
abbrev chs_text : ℕ → ℕ → ℕ → Text
chs_text c h s = digits c c (44 ∷ digits h h (44 ∷ digits s s []))

is_chs_text : (c h s : ℕ) → is_chs (chs_text c h s) ≡ true
unfolding is_chs
is_chs_text c h s =
    rw
      (
        punct_count-digits c (44 ∷ digits h h (44 ∷ digits s s [])),
        punct_count-digits h (44 ∷ digits s s []),
        punct_count-digits s [],
      )
      refl

strip_chs_text : (c h s : ℕ) → strip_string (chs_text c h s) ≡ chs_text c h s
strip_chs_text c h s =
    strip_string-NoSpaces (chs_text c h s)
      (digits-NoSpaces c _ (refl, digits-NoSpaces h _ (refl, digits-NoSpaces s [] tt)))

spaced :
    (c h s : ℕ) → remove_punct (chs_text c h s) ≡ digits c c (32 ∷ digits h h (32 ∷ digits s s []))
unfolding remove_punct
spaced c h s =
    rw
      (
        remove_punct-digits c (44 ∷ digits h h (44 ∷ digits s s [])),
        remove_punct-digits h (44 ∷ digits s s []),
        remove_punct-digits s [],
      )
      refl

int_of : (n : ℕ) → n < 2 ^ 31 → to_int (pos n) ≡ pos n
int_of n small = to_int_small (pos n) (omega arith) (omega arith)

scan_three_spaced :
    (c h s : ℕ)
    → c < 2 ^ 31
    → h < 2 ^ 31
    → s < 2 ^ 31
    → scan_three (digits c c (32 ∷ digits h h (32 ∷ digits s s [])))
      ≡ some (record { cylinders = pos c; heads = pos h; sectors = pos s })
unfolding scan_three
scan_three_spaced c h s c_small h_small s_small =
    rw
      (
        scan_int-digits c 32 (digits h h (32 ∷ digits s s [])) refl,
        scan_int-space (digits h h (32 ∷ digits s s [])),
        scan_int-digits h 32 (digits s s []) refl,
        scan_int-space (digits s s []),
        scan_int-digits_end s,
        int_of c c_small,
        int_of h h_small,
        int_of s s_small,
      )
      refl

module _ (n heads sectors : ℕ) (h0 : 0 < heads) (s0 : 0 < sectors) where
  abbrev cylinder_number : ℕ
  cylinder_number = n / sectors / heads

  abbrev head_number : ℕ
  head_number = n / sectors % heads

  abbrev sector_number : ℕ
  sector_number = n % sectors

  -- The three numbers make up the sector.
  makes_up :
      pos cylinder_number *ℤ (pos heads *ℤ pos sectors)
        +ℤ pos head_number *ℤ pos sectors
        +ℤ pos sector_number
      ≡ pos n
  makes_up =
      let e : n / sectors ≡ cylinder_number * heads + head_number =
        sym (Nat.div-add-mod' (n / sectors) heads) in
      let split : n ≡ n / sectors * sectors + sector_number = sym (Nat.div-add-mod' n sectors) in
      let products : cylinder_number * (heads * sectors) + head_number * sectors
          ≡ n / sectors * sectors =
        ap (λ m. m + head_number * sectors) (sym (Nat.mul_assoc cylinder_number heads sectors))
        ∙ sym (Nat.add-mul (cylinder_number * heads) head_number sectors)
        ∙ ap (λ q. q * sectors) (sym e) in
      rw
        (
          pos-*ℤ heads sectors,
          pos-*ℤ cylinder_number (heads * sectors),
          pos-*ℤ head_number sectors,
          pos_add (cylinder_number * (heads * sectors)) (head_number * sectors),
          products,
          pos_add (n / sectors * sectors) sector_number,
        )
        (ap (λ m. pos m) (sym split))

  format_chs-IsText :
      (dev : UnitDevice)
      → dev.bios_geom.heads ≡ pos heads
      → dev.bios_geom.sectors ≡ pos sectors
      → format_chs dev (pos n) ≡ done (chs_text cylinder_number head_number sector_number)
  unfolding format_chs print_int ◌/ℤ◌ ◌%ℤ◌
  format_chs-IsText dev eh es =
      let h_no_trap : (pos heads ==ℤ pos 0) ≡ false = grind arith in
      let s_no_trap : (pos sectors ==ℤ pos 0) ≡ false = grind arith in
      rw (eh, es, h_no_trap, s_no_trap) refl

  parse_chs-IsBack :
      (dev : UnitDevice)
      → dev.bios_geom.heads ≡ pos heads
      → dev.bios_geom.sectors ≡ pos sectors
      → cylinder_number < 2 ^ 31
      → heads * sectors < 2 ^ 31
      → pos n <ℤ dev.length
      → parse_chs dev false (chs_text cylinder_number head_number sector_number)
        ≡ done (record { ok = true; sect = pos n; range = none })
  unfolding parse_chs checked_chs chs_location
  parse_chs-IsBack dev eh es c_int size_int inside =
      let h_small : head_number < heads = mod-lt (n / sectors) h0 in
      let s_small : sector_number < sectors = mod-lt n s0 in
      let h_int : heads ≤ heads * sectors = Nat.le-mul_of_pos_right heads s0 in
      let s_int : sectors ≤ heads * sectors =
        rw (Nat.mul_comm heads sectors) (Nat.le-mul_of_pos_right sectors h0) in
      let b_le : head_number * sectors ≤ heads * sectors =
        Nat.mul-le-mul_right sectors (omega arith) in
      let size_same : to_int (pos heads *ℤ pos sectors) ≡ pos heads *ℤ pos sectors =
        rw (pos-*ℤ heads sectors) (int_of _ size_int) in
      let part_same : to_int (pos head_number *ℤ pos sectors) ≡ pos head_number *ℤ pos sectors =
        rw (pos-*ℤ head_number sectors) (int_of _ (omega arith)) in
      let h_fits : leb_ℤ (pos heads) (pos head_number) ≡ false = grind arith in
      let s_fits : leb_ℤ (pos sectors) (pos sector_number) ≡ false = grind arith in
      let on_device : leb_ℤ dev.length (pos n) ≡ false = grind arith in
      rw
        (
          strip_chs_text cylinder_number head_number sector_number,
          spaced cylinder_number head_number sector_number,
          scan_three_spaced cylinder_number head_number sector_number c_int (omega arith)
              (omega arith),
          eh,
          es,
          h_fits,
          s_fits,
          size_same,
          part_same,
          makes_up,
          on_device,
        )
        refl

divided_back :
    (dev : UnitDevice) (n size : ℕ)
    → dev.sector_size ≡ pos size
    → 0 < size
    → divided (pos n *ℤ dev.sector_size) dev.sector_size ≡ done (pos n)
unfolding ◌/ℤ◌
divided_back dev n size ez z0 =
    let no_trap : (pos size ==ℤ pos 0) ≡ false = grind arith in
    rw (ez, pos-*ℤ n size, no_trap, Nat.mul-div_cancel n z0) refl

unit_format_custom-chs :
    (print_double : ℤ → ℤ → Text) (dev : UnitDevice) (n size : ℕ)
    → dev.sector_size ≡ pos size
    → 0 < size
    → unit_format_custom print_double dev (pos n) chs ≡ format_chs dev (pos n)
unfolding unit_format_custom unit_format_custom_byte
unit_format_custom-chs print_double dev n size ez z0 =
    ap (λ m. m >>= format_chs dev) (divided_back dev n size ez z0)

unit_parse_custom-chs_text :
    (doubles : Doubles) (default_unit unit : PedUnit) (dev : UnitDevice) (c h s : ℕ)
    → unit_parse_custom doubles default_unit dev false (chs_text c h s) unit
      ≡ parse_chs dev false (chs_text c h s)
unfolding unit_parse_custom
unit_parse_custom-chs_text doubles default_unit unit dev c h s = rw (is_chs_text c h s) refl

-- On a device with positive heads, sectors and sector size, the product of heads and sectors below
-- 2^31, formatting a sector of the device as a CHS location and parsing the text, with any unit,
-- gives the sector back, if its cylinder is below 2^31.
pub unit_parse_custom-format_chs :
    (print_double : ℤ → ℤ → Text) (doubles : Doubles) (default_unit unit : PedUnit)
    (dev : UnitDevice) (n heads sectors size : ℕ)
    → dev.bios_geom.heads ≡ pos heads
    → dev.bios_geom.sectors ≡ pos sectors
    → dev.sector_size ≡ pos size
    → 0 < heads
    → 0 < sectors
    → heads * sectors < 2 ^ 31
    → 0 < size
    → n / sectors / heads < 2 ^ 31
    → pos n <ℤ dev.length
    → (unit_format_custom print_double dev (pos n) chs
        >>= (λ str. unit_parse_custom doubles default_unit dev false str unit))
      ≡ done (record { ok = true; sect = pos n; range = none })
unit_parse_custom-format_chs print_double doubles default_unit unit dev n heads sectors size eh es
      ez h0 s0 size_int z0 c_int inside =
    ap (λ m. m >>= (λ str. unit_parse_custom doubles default_unit dev false str unit))
      (unit_format_custom-chs print_double dev n size ez z0
        ∙ format_chs-IsText n heads sectors h0 s0 dev eh es)
    ∙ unit_parse_custom-chs_text doubles default_unit unit dev _ _ _
    ∙ parse_chs-IsBack n heads sectors h0 s0 dev eh es c_int size_int inside
