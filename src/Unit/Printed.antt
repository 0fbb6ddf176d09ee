-- ===== src/Unit/Printed.antt =====
-- What the parser of locations in libparted/unit.c does with texts that were printed: decimal
-- numbers with commas between them.
use native.Mathlib.Nat
use mathlib.Core.List.{[], ◌∷◌, ◌++◌}
use parted.Prelude.{ℕ, zero, suc, ◌≡◌, refl, sym, ap, ◌∙◌, false, arith}
use parted.Prelude.Text.{Text, isspace, ispunct, digits, AllDigits, digits-AllDigits, digits-append}
use parted.Unit.Parse.{strlen, strip_rounds, strip_string, remove_punct, punct_count}

abbrev pub NoSpaces : Text → Type 0
NoSpaces [] = Unit {0}
NoSpaces (c ∷ s) = (isspace c ≡ false) × NoSpaces s

pub strip_rounds-NoSpaces : (rounds : ℕ) (s : Text) → NoSpaces s → strip_rounds rounds s ≡ s
unfolding strip_rounds
strip_rounds-NoSpaces zero s none_in = refl
strip_rounds-NoSpaces (suc rounds) [] none_in = refl
strip_rounds-NoSpaces (suc rounds) (c ∷ s) (other, none_in) =
    rw other (ap (λ t. c ∷ t) (strip_rounds-NoSpaces rounds s none_in))

-- A text without spaces stays as it is.
pub strip_string-NoSpaces : (s : Text) → NoSpaces s → strip_string s ≡ s
unfolding strip_string
strip_string-NoSpaces s none_in = strip_rounds-NoSpaces (strlen s) s none_in

digits_in_front-NoSpaces : (s t : Text) → AllDigits s → NoSpaces t → NoSpaces (s ++ t)
digits_in_front-NoSpaces [] t all none_in = none_in
digits_in_front-NoSpaces (c ∷ s) t (digit, all) none_in =
    (ground arith, digits_in_front-NoSpaces s t all none_in)

remove_punct_append : (s t : Text) → AllDigits s → remove_punct (s ++ t) ≡ s ++ remove_punct t
unfolding remove_punct
remove_punct_append [] t all = refl
remove_punct_append (c ∷ s) t (digit, all) =
    let number : ispunct c ≡ false = ground arith in
    rw number (ap (λ u. c ∷ u) (remove_punct_append s t all))

punct_count_append : (s t : Text) → AllDigits s → punct_count (s ++ t) ≡ punct_count t
punct_count_append [] t all = refl
punct_count_append (c ∷ s) t (digit, all) =
    let number : ispunct c ≡ false = ground arith in
    rw number (Nat.zero-add _ ∙ punct_count_append s t all)

number-AllDigits : (n : ℕ) → AllDigits (digits n n [])
number-AllDigits n = digits-AllDigits n n [] tt

-- The same for a printed number in front.
pub digits-NoSpaces : (n : ℕ) (t : Text) → NoSpaces t → NoSpaces (digits n n t)
digits-NoSpaces n t none_in =
    rw (digits-append n n t)
      (digits_in_front-NoSpaces (digits n n []) t (number-AllDigits n) none_in)

pub remove_punct-digits :
    (n : ℕ) (t : Text) → remove_punct (digits n n t) ≡ digits n n (remove_punct t)
remove_punct-digits n t =
    ap remove_punct (digits-append n n t)
    ∙ remove_punct_append (digits n n []) t (number-AllDigits n)
    ∙ sym (digits-append n n (remove_punct t))

pub punct_count-digits : (n : ℕ) (t : Text) → punct_count (digits n n t) ≡ punct_count t
punct_count-digits n t =
    ap punct_count (digits-append n n t) ∙ punct_count_append (digits n n []) t (number-AllDigits n)
