-- ===== src/Dos/Flags/Types.antt =====
-- The tests on the types of partitions, for all bytes.
use Prim.Native.String.{String}
use mathlib.Core.List.{List, [], ◌∷◌}
use parted.Prelude.{
  ℕ, ◌<◌, ◌≡◌, ◌⊎◌, inl, inr, refl, Bool, true, false, not, ◌&&◌, ◌||◌, ◌==◌, Option, none, some,
  arith, ltb,
}
use parted.Prelude.Bytes.{all_below, all_below_sound}
use parted.Dos.TypeId.{
  FlagId, find_flag_id_mapping, flag_swap, one_of, is_hidden, set_hidden, supports_hidden, is_lba,
  set_lba, supports_lba,
}
use parted.Dos.Flags.{is_linux_swap, type_of}

abbrev eq_Bool : Bool → Bool → Bool
eq_Bool true b = b
eq_Bool false b = not b

eq_Bool-eq : (a b : Bool) → eq_Bool a b ≡ true → a ≡ b
eq_Bool-eq a b h = ground arith

-- The bit hidden is stored as it is asked for, in a byte.
hidden_test : Bool → ℕ → Bool
hidden_test state x =
    not (supports_hidden x)
    || ((set_hidden x state).0
        && eq_Bool (is_hidden (set_hidden x state).1) state
        && ltb (set_hidden x state).1 256)

hidden_tests : (state : Bool) → all_below 256 (hidden_test state) ≡ true
unfolding all_below hidden_test supports_hidden set_hidden is_hidden
hidden_tests true = refl
hidden_tests false = refl

lba_test : Bool → ℕ → Bool
lba_test state x =
    not (supports_lba x && not (is_hidden x))
    || ((set_lba x state).0
        && eq_Bool (is_lba (set_lba x state).1) state
        && ltb (set_lba x state).1 256)

lba_tests : (state : Bool) → all_below 256 (lba_test state) ≡ true
unfolding all_below lba_test supports_lba set_lba is_lba is_hidden
lba_tests true = refl
lba_tests false = refl

pub set_hidden-is_hidden :
    (x : ℕ) (state : Bool)
    → x < 256
    → supports_hidden x ≡ true
    → ((set_hidden x state).0 ≡ true) × (is_hidden (set_hidden x state).1 ≡ state)
unfolding hidden_test
set_hidden-is_hidden x state byte supports =
    ground (arith, all_below_sound 256 (hidden_test state) x (hidden_tests state) byte)

pub set_lba-is_lba :
    (x : ℕ) (state : Bool)
    → x < 256
    → supports_lba x ≡ true
    → is_hidden x ≡ false
    → ((set_lba x state).0 ≡ true) × (is_lba (set_lba x state).1 ≡ state)
unfolding lba_test
set_lba-is_lba x state byte supports plain =
    ground (arith, all_below_sound 256 (lba_test state) x (lba_tests state) byte)

-- For a hidden type the bit lba stays as it is, whatever is asked for.
pub set_lba_hidden :
    (x : ℕ) (state : Bool)
    → supports_lba x ≡ true
    → is_hidden x ≡ true
    → set_lba x state ≡ (true, x)
unfolding set_lba is_hidden
set_lba_hidden x state supports hides = ground arith

-- The types that file systems have.
abbrev fs_types : List ℕ
fs_types = 0x83 ∷ 0x06 ∷ 0x0b ∷ 0x07 ∷ 0xaf ∷ 0xbf ∷ []

abbrev pub IsSwap : Option String → Type 0
IsSwap none = ⊥
IsSwap (some name) = is_linux_swap name ≡ true

type_of_types :
    (fs_type : Option String)
    → (one_of (type_of fs_type) fs_types ≡ true) ⊎ (type_of fs_type ≡ 0x82) × IsSwap fs_type
unfolding type_of
type_of_types none = inl refl
type_of_types (some name) = ground arith

one_of-ne : (x y : ℕ) (l : List ℕ) → one_of x l ≡ true → one_of y l ≡ false → (x == y) ≡ false
one_of-ne x y [] h k = cc
one_of-ne x y (id ∷ ids) h k = ground (arith, one_of-ne x y ids)

-- No type of a file system stands for a flag, but for that of swap.
mapped_apart :
    (flag : ℕ) (p : FlagId)
    → find_flag_id_mapping flag ≡ some p
    → (one_of p.type_id fs_types ≡ false) × (one_of p.alt_type_id fs_types ≡ false)
unfolding find_flag_id_mapping
mapped_apart flag p e = ground arith

swap_lem :
    (flag : ℕ) (p : FlagId)
    → find_flag_id_mapping flag ≡ some p
    → (flag ≡ flag_swap) ⊎ ((0x82 == p.type_id || 0x82 == p.alt_type_id) ≡ false)
unfolding find_flag_id_mapping
swap_lem flag p e = ground arith

pub cleared_lem :
    (flag : ℕ) (p : FlagId) (fs_type : Option String)
    → find_flag_id_mapping flag ≡ some p
    → (flag ≡ flag_swap → ¬ IsSwap fs_type)
    → (type_of fs_type == p.type_id || type_of fs_type == p.alt_type_id) ≡ false
cleared_lem flag p fs_type e no_swap = elim (type_of_types fs_type) [
  | inl plain ↦
      let (other, alt) = mapped_apart flag p e in
      ground (
        arith,
        one_of-ne (type_of fs_type) p.type_id fs_types plain other,
        one_of-ne (type_of fs_type) p.alt_type_id fs_types plain alt,
      )
  | inr (swap, is) ↦ elim (swap_lem flag p e) [
    | inl flag_is ↦ absurd (no_swap flag_is is)
    | inr apart ↦ rw swap apart
  ]
]
