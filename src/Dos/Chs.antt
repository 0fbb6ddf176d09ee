-- ===== src/Dos/Chs.antt =====
-- A sector as cylinder, head and sector, and back.
use native.Mathlib.Nat.{div-div-eq-div-mul, div-add-mod', mul_comm, mul-pos, mod-lt}
use parted.Prelude.{
  if◌then◌else◌, false, true, ℕ, suc, ◌+◌, ◌-◌, ◌*◌, ◌/◌, ◌%◌, ◌≤◌, ◌<◌, ◌≡◌, some, refl, sym, ap,
  ap₂, ◌∙◌, arith,
}
use parted.Prelude.Int.{ℤ, pos, ◌+ℤ◌, ◌-ℤ◌, ◌*ℤ◌, ◌/ℤ◌, ◌%ℤ◌, ltb_ℤ, ◌==ℤ◌, pos-*ℤ, pos_add}
use parted.Prelude.Run.{Returns}
use parted.Dos.{
  ChsGeometry, RawChs, limited, as_raw, as_byte, shift_right_8, sector_to_chs, chs_to_sector,
  sector_at, chs_get_cylinder, chs_get_head, chs_get_sector,
}

pos_sub_one : (a : ℕ) → pos (suc a) -ℤ pos 1 ≡ pos a
unfolding ◌-ℤ◌
pos_sub_one a = ground arith

-- The three bytes for a place with fewer than 1024 cylinders, 256 heads and 63 sectors.
as_raw_eq :
    (c h s : ℕ)
    → c < 1024
    → h < 256
    → s < 63
    → as_raw (pos c, pos h, pos s)
      ≡ record { head = h; sector = suc s + c / 256 * 64; cylinder = c % 256 }
unfolding as_raw as_byte shift_right_8 ◌%ℤ◌
as_raw_eq c h s hc hh hs =
    let head : h % 256 ≡ h = omega arith in
    let sector : (suc s + c / 256 * 64) % 256 ≡ suc s + c / 256 * 64 = omega arith in
    let cylinder : c % 256 % 256 ≡ c % 256 = omega arith in
    let sum : pos s +ℤ pos 1 +ℤ pos (c / 256) *ℤ pos 64 ≡ pos (suc s + c / 256 * 64) =
      ap₂ (λ x y. x +ℤ y) (pos_add s 1) (pos-*ℤ (c / 256) 64)
      ∙ pos_add (s + 1) (c / 256 * 64)
      ∙ ap pos (omega arith) in
    rw (sum, head, sector, cylinder) refl

get_cylinder_back :
    (c h s : ℕ)
    → s < 63
    → chs_get_cylinder (record { head = h; sector = suc s + c / 256 * 64; cylinder = c % 256 })
      ≡ pos c
unfolding chs_get_cylinder
get_cylinder_back c h s hs = ap pos (omega arith)

get_sector_back :
    (c h s : ℕ)
    → s < 63
    → chs_get_sector (record { head = h; sector = suc s + c / 256 * 64; cylinder = c % 256 })
      ≡ pos s
unfolding chs_get_sector
get_sector_back c h s hs =
    let low : (suc s + c / 256 * 64) % 64 ≡ suc s = omega arith in
    ap (λ n. pos n -ℤ pos 1) low ∙ pos_sub_one s

-- Quotients and remainders give the number again.
recompose :
    (n heads sectors : ℕ)
    → (n / (heads * sectors) * heads + n / sectors % heads) * sectors + n % sectors ≡ n
recompose n heads sectors =
    let cylinder : n / (heads * sectors) ≡ n / sectors / heads =
      ap (λ m. n / m) (mul_comm heads sectors) ∙ sym (div-div-eq-div-mul n sectors heads) in
    ap (λ c. (c * heads + n / sectors % heads) * sectors + n % sectors) cylinder
    ∙ ap (λ m. m * sectors + n % sectors) (div-add-mod' (n / sectors) heads)
    ∙ div-add-mod' n sectors

-- A geometry of so many heads and sectors.
abbrev pub chs_geometry : ℤ → ℕ → ℕ → ChsGeometry
chs_geometry cylinders heads sectors = record {
  cylinders = cylinders;
  heads = pos heads;
  sectors = pos sectors;
}

-- The sector of the bytes is that of the place.
sector-as_raw :
    (g : ChsGeometry) (c h s : ℕ)
    → c < 1024
    → h < 256
    → s < 63
    → chs_to_sector g (as_raw (pos c, pos h, pos s)) ≡ sector_at g (pos c) (pos h) (pos s)
unfolding chs_to_sector chs_get_head
sector-as_raw g c h s hc hh hs =
    ap (λ r. chs_to_sector g r) (as_raw_eq c h s hc hh hs)
    ∙ ap₂ (λ x y. sector_at g x (pos h) y) (get_cylinder_back c h s hs) (get_sector_back c h s hs)

sector_at_eq :
    (cylinders : ℤ) (heads sectors c h s : ℕ)
    → c < 1022
    → sector_at (chs_geometry cylinders heads sectors) (pos c) (pos h) (pos s)
      ≡ pos ((c * heads + h) * sectors + s)
unfolding sector_at
sector_at_eq cylinders heads sectors c h s hc =
    let few : ltb_ℤ (pos 1021) (pos c) ≡ false = ground arith in
    let not_negative : ltb_ℤ (pos s) (pos 0) ≡ false = ground arith in
    ap₂
      (λ a b.
        if a
        then pos 0
        else if b
        then pos 0
        else (pos c *ℤ pos heads +ℤ pos h) *ℤ pos sectors +ℤ pos s)
      few not_negative
    ∙ ap (λ x. x *ℤ pos sectors +ℤ pos s)
        (ap (λ x. x +ℤ pos h) (pos-*ℤ c heads) ∙ pos_add (c * heads) h)
    ∙ ap (λ x. x +ℤ pos s) (pos-*ℤ (c * heads + h) sectors)
    ∙ pos_add ((c * heads + h) * sectors) s

limited_inside :
    (g : ChsGeometry) (c h s : ℕ)
    → c < 1022
    → limited g (pos c) (pos h) (pos s) ≡ (pos c, pos h, pos s)
unfolding limited
limited_inside g c h s hc =
    let few : ltb_ℤ (pos 1021) (pos c) ≡ false = ground arith in
    ap (λ b. if b then (pos 1023, g.heads -ℤ pos 1, g.sectors -ℤ pos 1) else (pos c, pos h, pos s))
      few

limited_behind :
    (g : ChsGeometry) (c h s : ℕ)
    → 1021 < c
    → limited g (pos c) (pos h) (pos s) ≡ (pos 1023, g.heads -ℤ pos 1, g.sectors -ℤ pos 1)
unfolding limited
limited_behind g c h s hc =
    let many : ltb_ℤ (pos 1021) (pos c) ≡ true = ground arith in
    ap (λ b. if b then (pos 1023, g.heads -ℤ pos 1, g.sectors -ℤ pos 1) else (pos c, pos h, pos s))
      many

pos_pred : (n : ℕ) → 0 < n → pos n -ℤ pos 1 ≡ pos (n - 1)
unfolding ◌-ℤ◌
pos_pred n h = ground arith

-- The limits of the bytes stand for no sector.
no_sector :
    (g : ChsGeometry) (heads sectors : ℕ)
    → 0 < heads
    → heads ≤ 256
    → 0 < sectors
    → sectors ≤ 63
    → chs_to_sector g (as_raw (pos 1023, pos heads -ℤ pos 1, pos sectors -ℤ pos 1)) ≡ pos 0
unfolding sector_at
no_sector g heads sectors h0 h1 s0 s1 =
    ap₂ (λ h s. chs_to_sector g (as_raw (pos 1023, h, s))) (pos_pred heads h0) (pos_pred sectors s0)
    ∙ sector-as_raw g 1023 (heads - 1) (sectors - 1) (omega arith) (omega arith) (omega arith)

-- The sector, up to the last cylinder that counts, and 0 behind it.
abbrev pub IsBack : ℤ → ℕ → ℕ → ℕ → RawChs → Type 0
IsBack cylinders heads sectors n chs =
    (n / (heads * sectors) ≤ 1021
      → chs_to_sector (chs_geometry cylinders heads sectors) chs ≡ pos n)
    × (1021 < n / (heads * sectors)
        → chs_to_sector (chs_geometry cylinders heads sectors) chs ≡ pos 0)

-- In a geometry of 1 to 256 heads and 1 to 63 sectors, `sector_to_chs` returns for each sector, and
-- `chs_to_sector` gives the sector back from the three bytes, if its cylinder is 1021 at most. If
-- not, it gives 0.
pub sector_to_chs-IsBack :
    (dev_geom : ChsGeometry) (cylinders : ℤ) (heads sectors n : ℕ)
    → 0 < heads
    → heads ≤ 256
    → 0 < sectors
    → sectors ≤ 63
    → Returns
        (sector_to_chs dev_geom (some (chs_geometry cylinders heads sectors)) (pos n))
        (IsBack cylinders heads sectors n)
unfolding sector_to_chs ◌/ℤ◌ ◌%ℤ◌
sector_to_chs-IsBack dev_geom cylinders heads sectors n h0 h1 s0 s1 =
    let size : pos heads *ℤ pos sectors ≡ pos (heads * sectors) = pos-*ℤ heads sectors in
    let positive : 0 < heads * sectors = mul-pos h0 s0 in
    let no_trap : (pos (heads * sectors) ==ℤ pos 0) ≡ false = ground arith in
    let g : ChsGeometry = chs_geometry cylinders heads sectors in
    let c : ℕ = n / (heads * sectors) in
    let h : ℕ = n / sectors % heads in
    let s : ℕ = n % sectors in
    let h_small : h < heads = mod-lt (n / sectors) h0 in
    let s_small : s < sectors = mod-lt n s0 in
    rw (size, no_trap)
      (
        λ near.
            ap (λ p. chs_to_sector g (as_raw p)) (limited_inside g c h s (omega arith))
            ∙ sector-as_raw g c h s (omega arith) (omega (arith, h_small)) (omega (arith, s_small))
            ∙ sector_at_eq cylinders heads sectors c h s (omega arith)
            ∙ ap pos (recompose n heads sectors),
        λ far.
            ap (λ p. chs_to_sector g (as_raw p)) (limited_behind g c h s far)
            ∙ no_sector g heads sectors h0 h1 s0 s1,
      )
