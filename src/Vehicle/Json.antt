-- ===== src/Vehicle/Json.antt =====
-- domain/VehicleState: `json_escape`, which the JSON output applies to every text.
use companion_lab.Prelude.{
  ltb, All, ◌≤◌, ◌⊎◌, ℕ, ◌≡◌, refl, ◌≢◌, inl, inr, Option, none, some, [], ◌∷◌, arith, ◌==◌,
  if◌then◌else◌, Bool-cases,
}
use companion_lab.Prelude.Text.{Bytes}
use mathlib.Core.List.{◌++◌ as append, append_assoc}

unfoldable escape_character : ℕ → Bytes
escape_character c =
    if c == 92
    then 92 ∷ 92 ∷ []
    else (if c == 34
        then 92 ∷ 34 ∷ []
        else (if c == 10
            then 92 ∷ 110 ∷ []
            else (if c == 13 then 92 ∷ 114 ∷ [] else (if c == 9 then 92 ∷ 116 ∷ [] else c ∷ []))))

unfoldable pub json_escape : Bytes → Bytes
unfolding escape_character
json_escape [] = []
json_escape (c ∷ s) = append (escape_character c) (json_escape s)

-- The character that a reader of JSON takes `\c` for.
meant : ℕ → Option ℕ
meant c =
    if c == 92
    then some 92
    else (if c == 34
        then some 34
        else (if c == 110
            then some 10
            else (if c == 114 then some 13 else (if c == 116 then some 9 else none))))

also : Option ℕ → Option (Bytes × Bytes) → Option (Bytes × Bytes)
also none more = none
also (some c) none = none
also (some c) (some (s, rest)) = some (c ∷ s, rest)

-- A reader of JSON, behind the opening quote of a string: the text up to the closing quote, and what
-- follows. It refuses a character below 32, which JSON allows in no string.
pub read_string : Bytes → Option (Bytes × Bytes)
unfolding also meant
read_string [] = none
read_string (c ∷ []) = if c == 34 then some ([], []) else none
read_string (c ∷ e ∷ s) =
    let plain = also (some c) (read_string (e ∷ s)) in
    let escaped = also (meant e) (read_string s) in
    if ltb c 32
    then none
    else (if c == 34 then some ([], e ∷ s) else (if c == 92 then escaped else plain))

-- A character of a text that can be shown: a printable one, a tab or an end of line.
abbrev pub IsShown : ℕ → Type 0
IsShown c = (32 ≤ c) ⊎ (c ≡ 10) ⊎ (c ≡ 13) ⊎ (c ≡ 9)

read_plain :
    (c : ℕ) (x : Bytes)
    → 32 ≤ c
    → c ≢ 34
    → c ≢ 92
    → read_string (c ∷ x) ≡ also (some c) (read_string x)
unfolding read_string also
read_plain c [] l h k = ground arith
read_plain c (e ∷ x) l h k = ground arith

read_pair : (e : ℕ) (x : Bytes) → read_string (92 ∷ e ∷ x) ≡ also (meant e) (read_string x)
unfolding read_string
read_pair e x = refl

-- One of the characters that are escaped, with the letter that stands for it.
read_escaped :
    (c e : ℕ) (x : Bytes)
    → escape_character c ≡ 92 ∷ e ∷ []
    → meant e ≡ some c
    → read_string (append (escape_character c) x) ≡ also (some c) (read_string x)
read_escaped c e x h k = rw (h, read_pair e x, k) refl

read_escape :
    (c : ℕ) (x : Bytes)
    → IsShown c
    → read_string (append (escape_character c) x) ≡ also (some c) (read_string x)
unfolding escape_character meant
read_escape c x shown = elim (Bool-cases (c == 92)) [
  | inl a ↦ read_escaped c 92 x (ground arith) (ground arith)
  | inr a ↦ elim (Bool-cases (c == 34)) [
    | inl b ↦ read_escaped c 34 x (ground arith) (ground arith)
    | inr b ↦ elim (Bool-cases (c == 10)) [
      | inl h ↦ read_escaped c 110 x (ground arith) (ground arith)
      | inr h ↦ elim (Bool-cases (c == 13)) [
        | inl k ↦ read_escaped c 114 x (ground arith) (ground arith)
        | inr k ↦ elim (Bool-cases (c == 9)) [
          | inl l ↦ read_escaped c 116 x (ground arith) (ground arith)
          | inr l ↦ rw (a, b, h, k, l) (read_plain c x (ground arith) (ground arith) (ground arith))
        ]
      ]
    ]
  ]
]

-- A text of characters from 32 on, tabs, line feeds and carriage returns that is escaped and put in
-- quotes is read back as it was, by a reader that refuses any raw character below 32, up to the closing
-- quote and not beyond it, whatever follows: no such text breaks the JSON or ends its string early.
pub read_string-json_escape :
    (s rest : Bytes)
    → All IsShown s
    → read_string (append (json_escape s) (34 ∷ rest)) ≡ some (s, rest)
unfolding read_string json_escape also
read_string-json_escape [] [] h = refl
read_string-json_escape [] (r ∷ rest) h = refl
read_string-json_escape (c ∷ s) rest h =
    rw
      (
        append_assoc (escape_character c) (json_escape s) (34 ∷ rest),
        read_escape c (append (json_escape s) (34 ∷ rest)) h.0,
        read_string-json_escape s rest h.1,
      )
      refl
