-- ===== src/Prelude/Int/Divides.antt =====
-- Divisibility of integers.
use native.Mathlib.Nat
use parted.Prelude.{◌*◌, ◌%◌, ◌≡◌, refl, sym, ap, ◌∙◌, ◌↔◌, arith}
use parted.Prelude.Int.Defs.{ℤ, pos, negsuc, abs_ℕ, diff, ◌+ℤ◌, ◌-ℤ◌, ◌*ℤ◌, ◌/ℤ◌, ◌%ℤ◌}
use parted.Prelude.Int.Parts.{int_laws}
use parted.Prelude.Int.Ring.{+ℤ-*ℤ, -ℤ-*ℤ, *ℤ_assoc, one-*ℤ, zero-*ℤ}
use parted.Prelude.Int.Division.{div_rem}

-- `b ∣ℤ a`: a is a multiple of b, with the quotient.
infix 50 ◌∣ℤ◌
abbrev pub ◌∣ℤ◌ : ℤ → ℤ → Type 0
b ∣ℤ a = (k : ℤ) × (a ≡ k *ℤ b)

pub ∣ℤ-+ℤ : (b a c : ℤ) → b ∣ℤ a → b ∣ℤ c → b ∣ℤ a +ℤ c
∣ℤ-+ℤ b a c (k, h) (l, e) = (k +ℤ l, rw (+ℤ-*ℤ k l b, h, e))

pub ∣ℤ--ℤ : (b a c : ℤ) → b ∣ℤ a → b ∣ℤ c → b ∣ℤ a -ℤ c
∣ℤ--ℤ b a c (k, h) (l, e) = (k -ℤ l, rw (-ℤ-*ℤ k l b, h, e))

pub ∣ℤ-*ℤ : (b c a : ℤ) → b ∣ℤ a → b ∣ℤ c *ℤ a
∣ℤ-*ℤ b c a (k, h) = (c *ℤ k, rw h (sym (*ℤ_assoc c k b)))

pub ∣ℤ_refl : (g : ℤ) → g ∣ℤ g
∣ℤ_refl g = (pos 1, sym (one-*ℤ g))

pub ∣ℤ_cong : (g : ℤ) {a b : ℤ} → a ≡ b → g ∣ℤ a → g ∣ℤ b
∣ℤ_cong g e (k, h) = (k, sym e ∙ h)

pub ∣ℤ-zero : (g : ℤ) → g ∣ℤ pos 0
∣ℤ-zero g = (pos 0, sym (zero-*ℤ g))

pub ∣ℤ_trans : (c b a : ℤ) → c ∣ℤ b → b ∣ℤ a → c ∣ℤ a
∣ℤ_trans c b a (k, h) (l, e) = (l *ℤ k, e ∙ ap (λ t. l *ℤ t) h ∙ sym (*ℤ_assoc l k c))

-- The remainder of C is zero exactly at the multiples, also at a divisor of zero.
pub abs_ℕ-*ℤ : (k b : ℤ) → abs_ℕ (k *ℤ b) ≡ abs_ℕ k * abs_ℕ b
unfolding ◌*ℤ◌ diff
abs_ℕ-*ℤ (pos n) (pos m) = ground arith
abs_ℕ-*ℤ (pos n) (negsuc m) = ground arith
abs_ℕ-*ℤ (negsuc n) (pos m) = ground arith
abs_ℕ-*ℤ (negsuc n) (negsuc m) = ground arith

pub abs_ℕ-%ℤ : (a b : ℤ) → abs_ℕ (a %ℤ b) ≡ abs_ℕ a % abs_ℕ b
unfolding ◌%ℤ◌ diff
abs_ℕ-%ℤ (pos n) b = refl
abs_ℕ-%ℤ (negsuc n) b = ground arith

pub %ℤ_zero_iff : (a b : ℤ) → (a %ℤ b ≡ pos 0) ↔ (b ∣ℤ a)
%ℤ_zero_iff a b = (
  λ e. (a /ℤ b, div_rem a b ∙ rw e (omega int_laws)),
  λ (k, h).
      let zero_abs : abs_ℕ (a %ℤ b) ≡ 0 =
        abs_ℕ-%ℤ a b ∙ rw (h, abs_ℕ-*ℤ k b) (Nat.mul-mod_left (abs_ℕ k) (abs_ℕ b)) in
      omega int_laws,
)
