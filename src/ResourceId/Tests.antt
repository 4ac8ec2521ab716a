-- ===== src/ResourceId/Tests.antt =====
-- Ids of resources at concrete inputs.
use terraform_provider_aiven.Prelude.{
  ◌≡◌, refl, some, List, [], ◌∷◌, arith, leb, length, Str, bytes, upper_hex, join,
}
use terraform_provider_aiven.Common.{ok}
use terraform_provider_aiven.ResourceId.{
  path_escape, path_unescape, escape_byte, should_escape, build_resource_id, split_resource_id,
  split_resource_id2, split_resource_id4, split_n, cut, unescape_part, split_resource_id2,
}
use terraform_provider_aiven.ResourceId.Split.{
  split-build, is_ok, split_succeeds_iff, split_four-build,
}

built : build_resource_id (bytes "p" ∷ bytes "a/b%c" ∷ []) ≡ bytes "p/a%2Fb%25c"
unfolding build_resource_id path_escape escape_byte should_escape upper_hex join
built = refl

-- A malformed "%" makes its part empty, with no error.
malformed : split_resource_id2 (bytes "p/a%2") ≡ some (ok (bytes "p", []))
unfolding split_resource_id2 split_resource_id split_n cut unescape_part path_unescape
malformed = refl

split-build_example :
    split_resource_id (build_resource_id (bytes "p" ∷ bytes "a/b%c" ∷ [])) 2
    ≡ ok (bytes "p" ∷ bytes "a/b%c" ∷ [])
split-build_example = split-build (bytes "p") (bytes "a/b%c" ∷ []) (omega arith)

split_succeeds_iff_example :
    (is_ok (split_resource_id (bytes "p/s/t") 2) ≡ leb 1 2)
    × ((parts : List Str) → split_resource_id (bytes "p/s/t") 2 ≡ ok parts → length parts ≡ 2)
split_succeeds_iff_example = split_succeeds_iff (bytes "p/s/t") 1

split_four-build_example :
    split_resource_id4
      (build_resource_id (bytes "p" ∷ bytes "s" ∷ bytes "user" ∷ bytes "me/too" ∷ []))
    ≡ some (ok (bytes "p", bytes "s", bytes "user", bytes "me/too"))
split_four-build_example =
    split_four-build (bytes "p") (bytes "s") (bytes "user") (bytes "me/too") (omega arith)
      (omega arith) (omega arith) (omega arith)
