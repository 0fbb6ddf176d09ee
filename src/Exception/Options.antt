-- ===== src/Exception/Options.antt =====
-- The logarithm by which libparted/exception.c finds the name of an option.
use parted.Prelude.{
  subst, dec_lt, ltb, ℕ, zero, suc, ◌+◌, ◌-◌, ◌^◌, ◌≤◌, ◌<◌, ◌≡◌, leb, inl, inr, Bool-cases, arith,
  true,
}
use parted.Prelude.Run.{Returns}
use parted.Exception.{log2, log2_from}

-- The first power of two above `n`.
log2_from-IsFirst :
    (rounds x n : ℕ)
    → n < 2 ^ (x + rounds)
    → (n < 2 ^ log2_from rounds x n)
      × (x ≤ log2_from rounds x n)
      × ((y : ℕ) → x ≤ y → y < log2_from rounds x n → 2 ^ y ≤ n)
unfolding log2_from
log2_from-IsFirst zero x n small =
    (subst (λ k. n < 2 ^ k) (omega arith) small, omega arith, λ y lo hi. absurd (omega arith))
log2_from-IsFirst (suc rounds) x n small = elim (Bool-cases (leb (2 ^ x) n)) [
  | inl le ↦
      let (above, up, below) =
        log2_from-IsFirst rounds (suc x) n (subst (λ k. n < 2 ^ k) (omega arith) small) in
      rw le (
        above,
        omega arith,
        λ y lo hi. elim (dec_lt x y) [
          | yes past ↦ below y (omega arith) hi
          | no equal ↦ subst (λ k. 2 ^ k ≤ n) {x = x} (omega arith) (ground arith)
        ],
      )
  | inr gt ↦ rw gt (ground arith, omega arith, λ y lo hi. absurd (omega arith))
]

before_first :
    (n r : ℕ)
    → 0 < n
    → n < 2 ^ r
    → ((y : ℕ) → 0 ≤ y → y < r → 2 ^ y ≤ n)
    → (2 ^ (r - 1) ≤ n) × (n < 2 ^ (r - 1 + 1))
before_first n zero positive above below = absurd (omega arith)
before_first n (suc r) positive above below = (
  below (suc r - 1) (omega arith) (omega arith),
  subst (λ k. n < 2 ^ k) {x = suc r} (omega arith) above,
)

-- For a positive int below 2 ^ 30, `ped_log2` gives the rounded logarithm: 2 to it is at most the
-- number, and 2 to the next one is above the number.
pub log2-IsLog :
    (n : ℕ) → 0 < n → n < 2 ^ 30 → Returns (log2 n) (λ x. (2 ^ x ≤ n) × (n < 2 ^ (x + 1)))
unfolding log2
log2-IsLog n positive small =
    let (above, up, below) = log2_from-IsFirst 31 0 n (omega arith) in
    let test : ltb 0 n ≡ true = ground arith in
    rw test (before_first n (log2_from 31 0 n) positive above below)
