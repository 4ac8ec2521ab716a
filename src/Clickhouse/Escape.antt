-- ===== src/Clickhouse/Escape.antt =====
-- escape.go: quoting of identifiers.
pub mod Quoting
use terraform_provider_aiven.Prelude.{
  ℕ, ◌/◌, ◌%◌, Bool, true, false, ◌||◌, Option, none, some, List, [], ◌∷◌, ◌++◌, ◌==◌, ltb,
  if◌then◌else◌, Str, bytes, lower_hex,
}

-- The map `escapeMap`.
unfoldable pub escape_map : ℕ → Option Str
escape_map b =
    if b == 0
    then some (b'\\' ∷ b'0' ∷ [])
    else if b == 8
    then some (b'\\' ∷ b'b' ∷ [])
    else if b == 12
    then some (b'\\' ∷ b'f' ∷ [])
    else if b == 13
    then some (b'\\' ∷ b'r' ∷ [])
    else if b == 10
    then some (b'\\' ∷ b'n' ∷ [])
    else if b == 9
    then some (b'\\' ∷ b't' ∷ [])
    else if b == b'\\'
    then some (b'\\' ∷ b'\\' ∷ [])
    else if b == b'`'
    then some (b'\\' ∷ b'`' ∷ [])
    else none

-- The `switch` of the loop. `\x%02x` prints two hexadecimal digits of a byte.
unfoldable pub escape_byte : ℕ → Str
escape_byte b = elim (escape_map b) [
  | some escaped ↦ escaped
  | none ↦
      if ltb b 0x20 || ltb 0x7e b
      then b'\\' ∷ b'x' ∷ lower_hex (b / 16) ∷ lower_hex (b % 16) ∷ []
      else b ∷ []
]

unfoldable pub escape_body : Str → Str
escape_body [] = []
escape_body (b ∷ s) = escape_byte b ++ escape_body s

unfoldable pub escape : Str → Str
escape identifier = b'`' ∷ (escape_body identifier ++ b'`' ∷ [])
