-- ===== src/ResourceId/Escape.antt =====
-- About `url.PathEscape` and `url.PathUnescape`, as the ids of resources use them.
use terraform_provider_aiven.Prelude.{
  has_slash, ℕ, ◌+◌, ◌*◌, ◌/◌, ◌%◌, ◌<◌, ◌≡◌, refl, ◌∙◌, ap, true, false, some, [], ◌∷◌, ◌++◌,
  arith, inl, inr, ◌||◌, ◌==◌, Bool-cases, All, Str, is_hex, unhex, upper_hex, unhex-upper_hex,
  is_hex-upper_hex,
}
use terraform_provider_aiven.ResourceId.{
  should_escape, escape_byte, path_escape, prepend, path_unescape,
}

-- The bytes of a Go string are below 256.
abbrev pub IsBytes : Str → Type 0
IsBytes s = All (λ c. c < 256) s

any-append : (s t : Str) → has_slash (s ++ t) ≡ (has_slash s || has_slash t)
any-append [] t = refl
any-append (c ∷ s) t = ground (arith, any-append s t)

escape_byte_no_slash : (c : ℕ) → c < 256 → has_slash (escape_byte c) ≡ false
unfolding escape_byte should_escape upper_hex
escape_byte_no_slash c h = ground arith

pub path_escape_no_slash : (s : Str) → IsBytes s → has_slash (path_escape s) ≡ false
unfolding path_escape
path_escape_no_slash [] h = refl
path_escape_no_slash (c ∷ s) h =
    any-append (escape_byte c) (path_escape s)
    ∙ ground (arith, escape_byte_no_slash c h.0, path_escape_no_slash s h.1)

unescape_plain :
    (c : ℕ) (s : Str) → (c == b'%') ≡ false → path_unescape (c ∷ s) ≡ prepend c (path_unescape s)
unfolding path_unescape
unescape_plain c [] h = rw (h, path_unescape) refl
unescape_plain c (d ∷ []) h = rw (h, path_unescape) refl
unescape_plain c (d ∷ e ∷ s) h = rw (h, path_unescape) refl

unescape_hex :
    (h l : ℕ) (s : Str)
    → is_hex h ≡ true
    → is_hex l ≡ true
    → path_unescape (b'%' ∷ h ∷ l ∷ s) ≡ prepend (16 * unhex h + unhex l) (path_unescape s)
unfolding path_unescape
unescape_hex h l s p q = rw (p, q, path_unescape) refl

escape_kept : (c : ℕ) → should_escape c ≡ false → (c == b'%') ≡ false
unfolding should_escape
escape_kept c h = ground arith

unescape-escape_byte :
    (c : ℕ) (s : Str) → c < 256 → path_unescape (escape_byte c ++ s) ≡ prepend c (path_unescape s)
unfolding escape_byte
unescape-escape_byte c s h = elim (Bool-cases (should_escape c)) [
  | inl e ↦ rw e (
      unescape_hex (upper_hex (c / 16)) (upper_hex (c % 16)) s
        (is_hex-upper_hex (c / 16) (omega arith)) (is_hex-upper_hex (c % 16) (omega arith))
      ∙ rw (unhex-upper_hex (c / 16) (omega arith), unhex-upper_hex (c % 16) (omega arith))
          (ap (λ b. prepend b (path_unescape s)) (omega arith)))
  | inr e ↦ rw e (unescape_plain c s (escape_kept c e))
]

-- Whatever the bytes of a part, unescaping the escaped part gives it back.
pub path_unescape-path_escape : (s : Str) → IsBytes s → path_unescape (path_escape s) ≡ some s
unfolding path_escape
path_unescape-path_escape [] h = unfold path_unescape in refl
path_unescape-path_escape (c ∷ s) h =
    unescape-escape_byte c (path_escape s) h.0 ∙ ap (prepend c) (path_unescape-path_escape s h.1)
