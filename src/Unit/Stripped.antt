-- ===== src/Unit/Stripped.antt =====
-- What `strip_string` of libparted/unit.c leaves of a text with a space in it.
use mathlib.Core.List.{[], ◌∷◌, ◌++◌}
use parted.Prelude.{ℕ, zero, suc, ◌≡◌, refl, ap, arith, ◌<◌}
use parted.Prelude.Text.{Text}
use parted.Unit.Parse.{strlen, shift, strip_rounds, strip_string}
use parted.Unit.Printed.{NoSpaces, strip_rounds-NoSpaces}

abbrev pub end_byte : ℕ → Text → ℕ
end_byte c [] = c
end_byte c (d ∷ s) = end_byte d s

-- The bytes behind the space, with the last one twice.
shift-last : (d : ℕ) (t : Text) → shift d t ≡ t ++ (end_byte d t ∷ [])
shift-last d [] = refl
shift-last d (e ∷ t) = ap (λ u. e ∷ u) (shift-last e t)

end_byte_lem : (d : ℕ) (t : Text) → NoSpaces (d ∷ t) → NoSpaces (d ∷ (t ++ (end_byte d t ∷ [])))
end_byte_lem d [] (other, none_in) = (other, (other, tt))
end_byte_lem d (e ∷ t) (other, none_in) = (other, end_byte_lem e t none_in)

strip_rounds-shift :
    (rounds : ℕ) (s : Text) (d : ℕ) (t : Text)
    → NoSpaces s
    → NoSpaces (d ∷ t)
    → strlen s < rounds
    → strip_rounds rounds (s ++ 32 ∷ d ∷ t) ≡ s ++ d ∷ (t ++ (end_byte d t ∷ []))
unfolding strip_rounds
strip_rounds-shift zero s d t before behind enough = absurd (omega arith)
strip_rounds-shift (suc rounds) [] d t before behind enough =
    rw (shift-last d t)
      (ap (λ u. d ∷ u) (strip_rounds-NoSpaces rounds _ (end_byte_lem d t behind).1))
strip_rounds-shift (suc rounds) (c ∷ s) d t (other, before) behind enough =
    rw other (ap (λ u. c ∷ u) (strip_rounds-shift rounds s d t before behind (omega arith)))

strlen_append : (s : Text) (t : Text) (c : ℕ) → strlen s < strlen (s ++ c ∷ t)
strlen_append [] t c = omega arith
strlen_append (b ∷ s) t c = omega (arith, strlen_append s t c)

-- Of a text with one space in it, which is not the last byte, `strip_string` removes the space, but
-- the last byte stands there twice.
pub strip_string-IsDoubled :
    (s : Text) (d : ℕ) (t : Text)
    → NoSpaces s
    → NoSpaces (d ∷ t)
    → strip_string (s ++ 32 ∷ d ∷ t) ≡ s ++ d ∷ (t ++ (end_byte d t ∷ []))
unfolding strip_string
strip_string-IsDoubled s d t before behind =
    strip_rounds-shift (strlen (s ++ 32 ∷ d ∷ t)) s d t before behind (strlen_append s (d ∷ t) 32)
