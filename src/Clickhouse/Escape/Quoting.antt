-- ===== src/Clickhouse/Escape/Quoting.antt =====
-- A reader of quoted identifiers for what escape.go writes. A backslash starts an escape, a doubled
-- backtick stands for one, and any other backtick ends the identifier. The reader refuses escapes that
-- escape.go does not write.
use mathlib.Core.List.{append_assoc}
use terraform_provider_aiven.Prelude.{
  ℕ, ◌+◌, ◌*◌, ◌/◌, ◌%◌, ◌<◌, ◌≡◌, refl, ◌∙◌, ap, ◌||◌, Option, none, some, [], ◌∷◌, ◌++◌, arith,
  inl, inr, ◌==◌, ==_iff, ltb, Bool-cases, All, Bool, false, is_empty, Str, if◌then◌else◌, is_hex,
  unhex, lower_hex, unhex-lower_hex, is_hex-lower_hex,
}
use terraform_provider_aiven.Clickhouse.Escape.{escape_map, escape_byte, escape_body, escape}

-- The reader stands in the text, behind a backslash, behind a backtick, behind `\x`, or behind that and
-- one digit.
pub data Mode : Type 0 where
  plain slash closing hex : Mode
  hex_low : ℕ → Mode

pub data Action : Type 0 where
  finish reject : Action
  emit : ℕ → Action
  go : Mode → Action

unfoldable pub after_slash : ℕ → Action
after_slash b =
    if b == b'0'
    then emit 0
    else if b == b'b'
    then emit 8
    else if b == b'f'
    then emit 12
    else if b == b'r'
    then emit 13
    else if b == b'n'
    then emit 10
    else if b == b't'
    then emit 9
    else if b == b'\\'
    then emit b'\\'
    else if b == b'`'
    then emit b'`'
    else if b == b'x'
    then go hex
    else reject

unfoldable pub act : Mode → ℕ → Action
act plain b = if b == b'`' then go closing else if b == b'\\' then go slash else emit b
act slash b = after_slash b
act closing b = if b == b'`' then emit b'`' else finish
act hex b = if is_hex b then go (hex_low (unhex b)) else reject
act (hex_low h) b = if is_hex b then emit (16 * h + unhex b) else reject

abbrev pub prepend : ℕ → Option (Str × Str) → Option (Str × Str)
prepend b none = none
prepend b (some (name, rest)) = some (b ∷ name, rest)

abbrev pub at_end : Mode → Option (Str × Str)
at_end closing = some ([], [])
at_end _ = none

-- The identifier and the text behind its closing backtick.
unfoldable pub read_body : Mode → Str → Option (Str × Str)
read_body m [] = at_end m
read_body m (b ∷ s) = elim (act m b) [
  | finish ↦ some ([], b ∷ s)
  | reject ↦ none
  | emit c ↦ prepend c (read_body plain s)
  | go m' ↦ read_body m' s
]

-- A quoted name, which may be empty.
unfoldable pub read_quoted : Str → Option (Str × Str)
read_quoted [] = none
read_quoted (b ∷ s) = if b == b'`' then read_body plain s else none

abbrev pub nonempty : Option (Str × Str) → Option (Str × Str)
nonempty none = none
nonempty (some (name, rest)) = if is_empty name then none else some (name, rest)

-- An identifier is a quoted name that is not empty.
unfoldable pub read_identifier : Str → Option (Str × Str)
unfolding read_quoted
read_identifier s = nonempty (read_quoted s)

abbrev pub starts_with_backtick : Str → Bool
starts_with_backtick [] = false
starts_with_backtick (b ∷ s) = b == b'`'

step_emit :
    (m : Mode) (b c : ℕ) (s : Str)
    → act m b ≡ emit c
    → read_body m (b ∷ s) ≡ prepend c (read_body plain s)
unfolding read_body
step_emit m b c s h = rw (h, read_body) refl

step_finish :
    (m : Mode) (b : ℕ) (s : Str) → act m b ≡ finish → read_body m (b ∷ s) ≡ some ([], b ∷ s)
unfolding read_body
step_finish m b s h = rw (h, read_body) refl

step_go : (m m' : Mode) (b : ℕ) (s : Str) → act m b ≡ go m' → read_body m (b ∷ s) ≡ read_body m' s
unfolding read_body
step_go m m' b s h = rw (h, read_body) refl

-- A byte of the map reads back in two steps.
read_escaped :
    (b c : ℕ) (s : Str)
    → after_slash c ≡ emit b
    → read_body plain (b'\\' ∷ c ∷ s) ≡ prepend b (read_body plain s)
unfolding act
read_escaped b c s h = step_go plain slash b'\\' (c ∷ s) refl ∙ step_emit slash c b s h

read_hex :
    (b : ℕ) (s : Str)
    → b < 256
    → read_body plain (b'\\' ∷ b'x' ∷ lower_hex (b / 16) ∷ lower_hex (b % 16) ∷ s)
      ≡ prepend b (read_body plain s)
unfolding act after_slash
read_hex b s h =
    step_go plain slash b'\\' _ refl
    ∙ step_go slash hex b'x' _ refl
    ∙ step_go hex (hex_low (b / 16)) (lower_hex (b / 16)) (lower_hex (b % 16) ∷ s)
        (rw (is_hex-lower_hex (b / 16) (omega arith), unhex-lower_hex (b / 16) (omega arith)) refl)
    ∙ step_emit (hex_low (b / 16)) (lower_hex (b % 16)) b s (
        rw (is_hex-lower_hex (b % 16) (omega arith), unhex-lower_hex (b % 16) (omega arith))
          (ap emit (omega arith)))

-- What the map and the `switch` make of a byte.
data Escaped (b : ℕ) : Type 0 where
  short : (c : ℕ) → escape_byte b ≡ b'\\' ∷ c ∷ [] → after_slash c ≡ emit b → Escaped b
  long : escape_byte b ≡ b'\\' ∷ b'x' ∷ lower_hex (b / 16) ∷ lower_hex (b % 16) ∷ [] → Escaped b
  same : escape_byte b ≡ b ∷ [] → act plain b ≡ emit b → Escaped b

escape_byte-cases : (b : ℕ) → Escaped b
unfolding escape_byte after_slash escape_map act
escape_byte-cases b = elim (Bool-cases (b == 0)) [
  | inl e ↦ rw ((==_iff b (0)).0 e) (short b'0' refl refl)
  | inr e0 ↦ elim (Bool-cases (b == 8)) [
    | inl e ↦ rw ((==_iff b (8)).0 e) (short b'b' refl refl)
    | inr e1 ↦ elim (Bool-cases (b == 12)) [
      | inl e ↦ rw ((==_iff b (12)).0 e) (short b'f' refl refl)
      | inr e2 ↦ elim (Bool-cases (b == 13)) [
        | inl e ↦ rw ((==_iff b (13)).0 e) (short b'r' refl refl)
        | inr e3 ↦ elim (Bool-cases (b == 10)) [
          | inl e ↦ rw ((==_iff b (10)).0 e) (short b'n' refl refl)
          | inr e4 ↦ elim (Bool-cases (b == 9)) [
            | inl e ↦ rw ((==_iff b (9)).0 e) (short b't' refl refl)
            | inr e5 ↦ elim (Bool-cases (b == b'\\')) [
              | inl e ↦ rw ((==_iff b (b'\\')).0 e) (short b'\\' refl refl)
              | inr e6 ↦ elim (Bool-cases (b == b'`')) [
                | inl e ↦ rw ((==_iff b (b'`')).0 e) (short b'`' refl refl)
                | inr e7 ↦ elim (Bool-cases (ltb b 0x20 || ltb 0x7e b)) [
                  | inl e ↦ long (ground arith)
                  | inr e ↦ same (ground arith) (ground arith)
                ]
              ]
            ]
          ]
        ]
      ]
    ]
  ]
]

Escaped-read :
    (b : ℕ) (s : Str)
    → b < 256
    → Escaped b
    → read_body plain (escape_byte b ++ s) ≡ prepend b (read_body plain s)
Escaped-read b s h (short c e a) = rw e (read_escaped b c s a)
Escaped-read b s h (long e) = rw e (read_hex b s h)
Escaped-read b s h (same e a) = rw e (step_emit plain b b s a)

read_closing :
    (rest : Str)
    → starts_with_backtick rest ≡ false
    → read_body plain (b'`' ∷ rest) ≡ some ([], rest)
unfolding read_body act
read_closing [] h = refl
read_closing (b ∷ rest) h =
    step_go plain closing b'`' (b ∷ rest) refl ∙ step_finish closing b rest (rw (act, h) refl)

read-escape_body :
    (name rest : Str)
    → All (λ b. b < 256) name
    → starts_with_backtick rest ≡ false
    → read_body plain (escape_body name ++ b'`' ∷ rest) ≡ some (name, rest)
unfolding escape_body
read-escape_body [] rest h k = read_closing rest k
read-escape_body (b ∷ name) rest h k =
    rw (append_assoc (escape_byte b) (escape_body name) (b'`' ∷ rest)) (
      Escaped-read b (escape_body name ++ b'`' ∷ rest) h.0 (escape_byte-cases b)
      ∙ ap (prepend b) (read-escape_body name rest h.1 k))

pub read_quoted-escape :
    (name rest : Str)
    → All (λ b. b < 256) name
    → starts_with_backtick rest ≡ false
    → read_quoted (escape name ++ rest) ≡ some (name, rest)
unfolding read_quoted escape
read_quoted-escape name rest h k =
    rw (append_assoc (escape_body name) (b'`' ∷ []) rest) (read-escape_body name rest h k)

-- Whatever bytes a name holds, the reader finds in its quoted form exactly the name and leaves exactly
-- the text that follows, if that does not start with a backtick, which would continue the identifier.
-- The quoted form of the empty name is refused.
pub read-escape :
    (name rest : Str)
    → All (λ b. b < 256) name
    → starts_with_backtick rest ≡ false
    → read_identifier (escape name ++ rest) ≡ (if is_empty name then none else some (name, rest))
unfolding read_identifier
read-escape name rest h k = rw (read_quoted-escape name rest h k) refl
