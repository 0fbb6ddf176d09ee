-- ===== src/Prelude/Text.antt =====
-- What the C library does with texts, which are lists of bytes: the tests of ctype.h in the C
-- locale, strcasecmp, and the conversions of decimal integers in printf and sscanf.
use Prim.Native.Char.{code}
use Prim.Native.String.{String}
use mathlib.Core.List.{List, [], ◌∷◌, ◌++◌, append_assoc}
use parted.Prelude.{
  ℕ, zero, suc, ◌+◌, ◌-◌, ◌*◌, ◌/◌, ◌%◌, ◌≤◌, ◌≡◌, refl, sym, ap, ◌∙◌, Bool, true, false, ◌&&◌,
  ◌||◌, leb, ltb, ◌==◌, if◌then◌else◌, Option, none, some, Bool-cases, inl, inr, arith,
}
use parted.Prelude.Int.{ℤ, pos, negsuc, ◌-ℤ◌}

abbrev pub Text : Type 0
Text = List ℕ

-- The bytes of an ASCII literal.
abbrev pub codes : String → Text
codes String.[] = []
codes (String.◌∷◌ c s) = code c ∷ codes s

abbrev pub isdigit : ℕ → Bool
isdigit c = leb 48 c && leb c 57

abbrev pub isspace : ℕ → Bool
isspace c = c == 32 || (leb 9 c && leb c 13)

abbrev pub ispunct : ℕ → Bool
ispunct c =
    (leb 33 c && leb c 47)
    || ((leb 58 c && leb c 64) || ((leb 91 c && leb c 96) || (leb 123 c && leb c 126)))

abbrev pub tolower : ℕ → ℕ
tolower c = if leb 65 c && leb c 90 then c + 32 else c

-- `!strcasecmp (s, t)`.
unfoldable pub same_text : Text → Text → Bool
same_text [] [] = true
same_text [] (d ∷ t) = false
same_text (c ∷ s) [] = false
same_text (c ∷ s) (d ∷ t) = tolower c == tolower d && same_text s t

-- The digits of `n` in front of `out`, with enough fuel if `n` is not above it.
unfoldable pub digits : ℕ → ℕ → Text → Text
digits zero n out = (48 + n % 10) ∷ out
digits (suc fuel) n out =
    let rest = digits fuel (n / 10) ((48 + n % 10) ∷ out) in
    if ltb n 10 then (48 + n % 10) ∷ out else rest

-- `%lld` in printf, before `out`.
unfoldable pub print_int : ℤ → Text → Text
unfolding digits
print_int (pos n) out = digits n n out
print_int (negsuc n) out = b'-' ∷ digits (suc n) (suc n) out

-- The number that the leading digits stand for behind `n`, and the rest.
unfoldable pub scan_digits : Text → ℕ → ℕ × Text
scan_digits [] n = (n, [])
scan_digits (c ∷ s) n = if isdigit c then scan_digits s (n * 10 + (c - 48)) else (n, c ∷ s)

unfoldable pub skip_spaces : Text → Text
skip_spaces [] = []
skip_spaces (c ∷ s) = if isspace c then skip_spaces s else c ∷ s

-- At least one digit.
unfoldable pub scan_number : (ℕ → ℤ) → Text → Option (ℤ × Text)
unfolding scan_digits
scan_number signed [] = none
scan_number signed (c ∷ s) =
    if isdigit c then (let r = scan_digits (c ∷ s) 0 in some (signed r.0, r.1)) else none

abbrev signed_number : Text → Option (ℤ × Text)
signed_number [] = none
signed_number (c ∷ s) =
    if c == b'-'
    then scan_number (λ n. pos 0 -ℤ pos n) s
    else if c == b'+'
    then scan_number pos s
    else scan_number pos (c ∷ s)

-- `%d` in sscanf, which skips white space.
unfoldable pub scan_int : Text → Option (ℤ × Text)
unfolding scan_number skip_spaces
scan_int s = signed_number (skip_spaces s)

scan_last : (n : ℕ) (out : Text) → scan_digits ((48 + n % 10) ∷ out) (n / 10) ≡ scan_digits out n
unfolding scan_digits
scan_last n out = ground arith

-- Scanning what was printed, with a text behind it.
pub scan_digits-digits :
    (fuel n : ℕ) (out : Text) → n ≤ fuel → scan_digits (digits fuel n out) 0 ≡ scan_digits out n
unfolding digits scan_digits
scan_digits-digits zero n out le = ground arith
scan_digits-digits (suc fuel) n out le = elim (Bool-cases (ltb n 10)) [
  | inl small ↦ rw small (ground arith)
  | inr large ↦
      rw large
        (scan_digits-digits fuel (n / 10) ((48 + n % 10) ∷ out) (ground arith) ∙ scan_last n out)
]

pub digits-append : (fuel n : ℕ) (out : Text) → digits fuel n out ≡ digits fuel n [] ++ out
unfolding digits
digits-append zero n out = refl
digits-append (suc fuel) n out = elim (Bool-cases (ltb n 10)) [
  | inl small ↦ rw small refl
  | inr large ↦ rw large (
      digits-append fuel (n / 10) ((48 + n % 10) ∷ out)
      ∙ sym (
          ap (λ s. s ++ out) (digits-append fuel (n / 10) ((48 + n % 10) ∷ []))
          ∙ append_assoc (digits fuel (n / 10) []) ((48 + n % 10) ∷ []) out))
]

abbrev pub AllDigits : Text → Type 0
AllDigits [] = Unit {0}
AllDigits (c ∷ s) = (isdigit c ≡ true) × AllDigits s

pub digits-AllDigits : (fuel n : ℕ) (out : Text) → AllDigits out → AllDigits (digits fuel n out)
unfolding digits
digits-AllDigits zero n out all = (ground arith, all)
digits-AllDigits (suc fuel) n out all = elim (Bool-cases (ltb n 10)) [
  | inl small ↦ rw small (ground arith, all)
  | inr large ↦ rw large (digits-AllDigits fuel (n / 10) _ (ground arith, all))
]

pub digits-head :
    (fuel n : ℕ) (out : Text)
    → (d : ℕ) × (t : Text) × (digits fuel n out ≡ d ∷ t) × (isdigit d ≡ true)
unfolding digits
digits-head zero n out = (48 + n % 10, out, refl, ground arith)
digits-head (suc fuel) n out = elim (Bool-cases (ltb n 10)) [
  | inl small ↦ rw small (48 + n % 10, out, refl, ground arith)
  | inr large ↦ rw large (digits-head fuel (n / 10) ((48 + n % 10) ∷ out))
]

scan_int_digit :
    (d : ℕ) (t : Text)
    → isdigit d ≡ true
    → scan_int (d ∷ t) ≡ some (pos (scan_digits (d ∷ t) 0).0, (scan_digits (d ∷ t) 0).1)
unfolding scan_int
scan_int_digit d t h =
    let no_space : isspace d ≡ false = ground arith in
    let no_minus : (d == b'-') ≡ false = ground arith in
    let no_plus : (d == b'+') ≡ false = ground arith in rw (no_space, no_minus, no_plus, h) refl

scan_digits_stop : (n c : ℕ) (s : Text) → isdigit c ≡ false → scan_digits (c ∷ s) n ≡ (n, c ∷ s)
unfolding scan_digits
scan_digits_stop n c s other = rw other refl

-- `%d` reads a printed number that no digit follows.
pub scan_int-digits :
    (n c : ℕ) (s : Text) → isdigit c ≡ false → scan_int (digits n n (c ∷ s)) ≡ some (pos n, c ∷ s)
scan_int-digits n c s other =
    let (d, t, e, digit) = digits-head n n (c ∷ s) in
    let read : scan_digits (d ∷ t) 0 ≡ (n, c ∷ s) =
      ap (λ u. scan_digits u 0) (sym e)
      ∙ scan_digits-digits n n (c ∷ s) (omega arith)
      ∙ scan_digits_stop n c s other in
    ap scan_int e ∙ scan_int_digit d t digit ∙ ap (λ (r : ℕ × Text). some (pos r.0, r.1)) read

pub scan_int-digits_end : (n : ℕ) → scan_int (digits n n []) ≡ some (pos n, [])
unfolding scan_digits
scan_int-digits_end n =
    let (d, t, e, digit) = digits-head n n [] in
    let read : scan_digits (d ∷ t) 0 ≡ (n, []) =
      ap (λ u. scan_digits u 0) (sym e) ∙ scan_digits-digits n n [] (omega arith) in
    ap scan_int e ∙ scan_int_digit d t digit ∙ ap (λ (r : ℕ × Text). some (pos r.0, r.1)) read

-- A space in front changes nothing.
pub scan_int-space : (s : Text) → scan_int (32 ∷ s) ≡ scan_int s
unfolding scan_int
scan_int-space s = refl
