-- ===== src/CommandLine/Numbers.antt =====
-- presentation/cli/CommandLine: `parse_number` of an unsigned type, by `std::from_chars`.
use companion_lab.Prelude.{
  ℕ, ◌+◌, ◌-◌, ◌*◌, ◌≤◌, Bool, ◌&&◌, Option, none, some, [], ◌∷◌, arith, leb, if◌then◌else◌,
  Bool-cases, inl, inr,
}
use companion_lab.Prelude.Text.{Bytes}

abbrev is_digit : ℕ → Bool
is_digit c = leb b'0' c && leb c b'9'

-- All digits up to the end of the text, read on from `value`; `none` if some character is no digit.
unfoldable pub digits_from : ℕ → Bytes → Option ℕ
digits_from value [] = some value
digits_from value (c ∷ cs) =
    let rest = digits_from (value * 10 + (c - b'0')) cs in if is_digit c then rest else none

abbrev within : ℕ → Option ℕ → Option ℕ
within maximum none = none
within maximum (some n) = if leb n maximum then some n else none

-- `none` without a digit, with another character, or with a number that is too large for the type.
unfoldable pub parse_unsigned : ℕ → Bytes → Option ℕ
unfolding digits_from
parse_unsigned maximum [] = none
parse_unsigned maximum (c ∷ cs) = within maximum (digits_from 0 (c ∷ cs))

abbrev pub AtMost : ℕ → Option ℕ → Type 0
AtMost maximum none = Unit
AtMost maximum (some n) = n ≤ maximum

within-AtMost : (maximum : ℕ) (o : Option ℕ) → AtMost maximum (within maximum o)
within-AtMost maximum none = tt
within-AtMost maximum (some n) = elim (Bool-cases (leb n maximum)) [
  | inl e ↦ rw e (ground arith)
  | inr e ↦ rw e tt
]

-- A number that is accepted fits the type.
pub parse_unsigned-AtMost :
    (maximum : ℕ) (text : Bytes) → AtMost maximum (parse_unsigned maximum text)
unfolding parse_unsigned
parse_unsigned-AtMost maximum [] = tt
parse_unsigned-AtMost maximum (c ∷ cs) = within-AtMost maximum (digits_from 0 (c ∷ cs))
