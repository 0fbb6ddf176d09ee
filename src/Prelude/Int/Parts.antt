-- ===== src/Prelude/Int/Parts.antt =====
-- What `omega` has to know of the operations on integers, in terms of the parts.
use parted.Prelude.{ℕ, ◌+◌, ◌≡◌, ◌⊎◌, ◌↔◌, ◌≢◌, true, false, ap, arith, dec_lt}
use parted.Prelude.Int.Defs.{
  ℤ, pos_part, neg_part, abs_ℕ, diff, ◌+ℤ◌, ◌-ℤ◌, ◌≤ℤ◌, ◌<ℤ◌, ltb_ℤ, leb_ℤ, ◌==ℤ◌,
}

pub diff_parts : (a b : ℕ) → pos_part (diff a b) + b ≡ neg_part (diff a b) + a
unfolding diff
diff_parts a b = ground arith

pub +ℤ_parts :
    (a b : ℤ)
    → pos_part (a +ℤ b) + neg_part a + neg_part b ≡ neg_part (a +ℤ b) + pos_part a + pos_part b
unfolding ◌+ℤ◌
+ℤ_parts a b = ground arith

pub -ℤ_parts :
    (a b : ℤ)
    → pos_part (a -ℤ b) + neg_part a + pos_part b ≡ neg_part (a -ℤ b) + pos_part a + neg_part b
unfolding ◌-ℤ◌
-ℤ_parts a b = ground arith

pub eq_of_parts : (a b : ℤ) → pos_part a + neg_part b ≡ pos_part b + neg_part a → a ≡ b
eq_of_parts a b h = ground arith

-- An equation of integers as `omega` reads it.
pub parts_of_eq : {a b : ℤ} → a ≡ b → (pos_part a ≡ pos_part b) × (neg_part a ≡ neg_part b)
parts_of_eq h = (ap pos_part h, ap neg_part h)

pub abs_ℕ_lem : (a : ℤ) → abs_ℕ a ≡ pos_part a + neg_part a
abs_ℕ_lem a = ground arith

-- One of the two parts is zero.
pub parts_disjoint : (a : ℤ) → (pos_part a ≡ 0) ⊎ (neg_part a ≡ 0)
parts_disjoint a = ground arith

pub ruleset int_laws = (arith, diff_parts, +ℤ_parts, -ℤ_parts, abs_ℕ_lem, eq_of_parts)

pub ≤ℤ_antisym : (a b : ℤ) → a ≤ℤ b → b ≤ℤ a → a ≡ b
≤ℤ_antisym a b h k = omega int_laws

pub lt_of_le_of_ne : (a b : ℤ) → a ≤ℤ b → a ≢ b → a <ℤ b
lt_of_le_of_ne a b h ne = elim (dec_lt (pos_part a + neg_part b) (pos_part b + neg_part a)) [
  | yes lt ↦ lt
  | no ge ↦ absurd (ne (omega int_laws))
]

pub ==ℤ_iff : (a b : ℤ) → ((a ==ℤ b) ≡ true) ↔ (a ≡ b)
==ℤ_iff a b = ground arith

pub ltb_ℤ_iff : (a b : ℤ) → (ltb_ℤ a b ≡ true) ↔ (a <ℤ b)
ltb_ℤ_iff a b = ground arith

pub leb_ℤ_iff : (a b : ℤ) → (leb_ℤ a b ≡ true) ↔ (a ≤ℤ b)
leb_ℤ_iff a b = ground arith

pub ltb_ℤ_false : (a b : ℤ) → ltb_ℤ a b ≡ false → b ≤ℤ a
ltb_ℤ_false a b h = ground arith

pub not_ltb_ℤ : (a b : ℤ) → b ≤ℤ a → ltb_ℤ a b ≡ false
not_ltb_ℤ a b h = ground arith
