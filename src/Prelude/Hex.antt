-- ===== src/Prelude/Hex.antt =====
-- Hexadecimal digits, as the packages `net/url` and `fmt` read and write them.
use Prim.Native.Nat.{ℕ, ◌+◌, ◌-◌, ◌<◌}
use mathlib.Core.Path.{◌≡◌}
use mathlib.Core.Bool.{Bool, true, ◌&&◌, ◌||◌}
use native.Mathlib.Omega.{arith}
use terraform_provider_aiven.Prelude.Tests.{ltb, leb, if◌then◌else◌}

unfoldable pub is_hex : ℕ → Bool
is_hex c = leb 48 c && leb c 57 || leb 97 c && leb c 102 || leb 65 c && leb c 70

unfoldable pub unhex : ℕ → ℕ
unhex c =
    if leb 48 c && leb c 57
    then c - 48
    else if leb 97 c && leb c 102
    then c - 87
    else if leb 65 c && leb c 70
    then c - 55
    else 0

unfoldable pub upper_hex : ℕ → ℕ
upper_hex v = if ltb v 10 then 48 + v else 55 + v

unfoldable pub lower_hex : ℕ → ℕ
lower_hex v = if ltb v 10 then 48 + v else 87 + v

pub unhex-upper_hex : (v : ℕ) → v < 16 → unhex (upper_hex v) ≡ v
unfolding unhex upper_hex
unhex-upper_hex v h = ground arith

pub is_hex-upper_hex : (v : ℕ) → v < 16 → is_hex (upper_hex v) ≡ true
unfolding is_hex upper_hex
is_hex-upper_hex v h = ground arith

pub unhex-lower_hex : (v : ℕ) → v < 16 → unhex (lower_hex v) ≡ v
unfolding unhex lower_hex
unhex-lower_hex v h = ground arith

pub is_hex-lower_hex : (v : ℕ) → v < 16 → is_hex (lower_hex v) ≡ true
unfolding is_hex lower_hex
is_hex-lower_hex v h = ground arith
