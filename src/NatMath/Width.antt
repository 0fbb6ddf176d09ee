-- ===== src/NatMath/Width.antt =====
-- Where the 64-bit products of `ped_alignment_intersect` do not wrap.
use native.Mathlib.Nat
use parted.Prelude.{
  ℕ, ◌+◌, ◌*◌, ◌-◌, ◌^◌, ◌≤◌, ◌<◌, ◌≡◌, refl, arith, not, Option, none, if◌then◌else◌,
}
use parted.Prelude.Int.{
  ℤ, pos, negsuc, abs_ℕ, ◌+ℤ◌, ◌-ℤ◌, ◌*ℤ◌, ◌/ℤ◌, ◌==ℤ◌, abs_ℕ-*ℤ, diff, ◌≤ℤ◌, ◌<ℤ◌,
}
use parted.Prelude.Run.{Run, done, fault}
use parted.NatMath.{Alignment, EuclidTriple, to_sector, intersect_with, alignment_new}
use parted.NatMath.Bezout.{abs_ℕ-+ℤ, abs_ℕ--ℤ}

to_sector_small : (z : ℤ) → abs_ℕ z < 2 ^ 63 → to_sector z ≡ z
unfolding to_sector
to_sector_small (pos n) h = ground arith
to_sector_small (negsuc n) h = ground arith

abs_ℕ-/ℤ : (a b : ℤ) → abs_ℕ (a /ℤ b) ≤ abs_ℕ a
unfolding ◌/ℤ◌ diff
abs_ℕ-/ℤ (pos n) (pos m) = Nat.div-le_self n m
abs_ℕ-/ℤ (pos n) (negsuc m) = ground (arith, Nat.div-le_self n (m + 1))
abs_ℕ-/ℤ (negsuc n) (pos m) = ground (arith, Nat.div-le_self (n + 1) m)
abs_ℕ-/ℤ (negsuc n) (negsuc m) = ground (arith, Nat.div-le_self (n + 1) (m + 1))

abs_product : (a b : ℤ) (n m : ℕ) → abs_ℕ a ≤ n → abs_ℕ b ≤ m → abs_ℕ (a *ℤ b) ≤ n * m
abs_product a b n m h k = rw (abs_ℕ-*ℤ a b) (Nat.mul-le-mul h k)

-- A factor, a distance and a grain.
module _ (x d a : ℤ) (hx : abs_ℕ x < 2 ^ 15) (hd : abs_ℕ d ≤ 2 ^ 33) (ha : abs_ℕ a < 2 ^ 15) where
  shift_bound : abs_ℕ (x *ℤ d *ℤ a) ≤ 2 ^ 63 - 2 ^ 48
  shift_bound =
      let once = abs_product x d (2 ^ 15 - 1) (2 ^ 33) (omega arith) hd in
      let twice =
        abs_product (x *ℤ d) a (2 ^ 48 - 2 ^ 33) (2 ^ 15 - 1) (omega arith) (omega arith) in
      omega arith

  shift_small : to_sector (to_sector (x *ℤ d) *ℤ a) ≡ x *ℤ d *ℤ a
  shift_small =
      let once = abs_product x d (2 ^ 15 - 1) (2 ^ 33) (omega arith) hd in
      rw (to_sector_small (x *ℤ d) (omega arith))
        (to_sector_small (x *ℤ d *ℤ a) (omega (arith, shift_bound)))

-- The new alignment, as it would be without a limit on the numbers.
abbrev pub intersect_exact : Alignment → Alignment → EuclidTriple → Run (Option Alignment)
intersect_exact a b factors =
    let delta_on_gcd = (b.offset -ℤ a.offset) /ℤ factors.gcd in
    let new_offset = a.offset +ℤ factors.x *ℤ delta_on_gcd *ℤ a.grain_size in
    let new_grain_size = a.grain_size *ℤ b.grain_size /ℤ factors.gcd in
    let other_offset = b.offset -ℤ factors.y *ℤ delta_on_gcd *ℤ b.grain_size in
    if factors.gcd ==ℤ pos 0
    then fault
    else if not (new_offset ==ℤ other_offset)
    then done none
    else done (alignment_new new_offset new_grain_size)

pub abs_short : (g : ℤ) → pos 0 ≤ℤ g → g <ℤ pos (2 ^ 15) → abs_ℕ g < 2 ^ 15
abs_short (pos n) nonneg lt = omega arith
abs_short (negsuc n) nonneg lt = absurd (omega arith)

-- Numbers that the 64-bit calculation takes: grains below 2^15, offsets from -2^32 to 2^32.
abbrev pub IsShort : Alignment → Type 0
IsShort a = (abs_ℕ a.grain_size < 2 ^ 15) × (abs_ℕ a.offset ≤ 2 ^ 32)

pub intersect_with-exact :
    (a b : Alignment) (f : EuclidTriple)
    → IsShort a
    → IsShort b
    → abs_ℕ f.x < 2 ^ 15
    → abs_ℕ f.y < 2 ^ 15
    → intersect_with a b f ≡ intersect_exact a b f
unfolding intersect_with
intersect_with-exact a b f (ga, oa) (gb, ob) hx hy =
    let gap : abs_ℕ (b.offset -ℤ a.offset) ≤ 2 ^ 33 = omega (arith, abs_ℕ--ℤ b.offset a.offset) in
    let d : ℤ = (b.offset -ℤ a.offset) /ℤ f.gcd in
    let hd : abs_ℕ d ≤ 2 ^ 33 = omega (arith, abs_ℕ-/ℤ (b.offset -ℤ a.offset) f.gcd) in
    let grain =
      abs_product a.grain_size b.grain_size (2 ^ 15) (2 ^ 15) (omega arith) (omega arith) in
    let low = shift_bound f.x d a.grain_size hx hd ga in
    let high = shift_bound f.y d b.grain_size hy hd gb in
    rw
      (
        to_sector_small (b.offset -ℤ a.offset) (omega arith),
        shift_small f.x d a.grain_size hx hd ga,
        shift_small f.y d b.grain_size hy hd gb,
        to_sector_small (a.grain_size *ℤ b.grain_size) (omega arith),
        to_sector_small (a.offset +ℤ f.x *ℤ d *ℤ a.grain_size)
            (omega (arith, abs_ℕ-+ℤ a.offset (f.x *ℤ d *ℤ a.grain_size))),
        to_sector_small (b.offset -ℤ f.y *ℤ d *ℤ b.grain_size)
            (omega (arith, abs_ℕ--ℤ b.offset (f.y *ℤ d *ℤ b.grain_size))),
      )
      refl
