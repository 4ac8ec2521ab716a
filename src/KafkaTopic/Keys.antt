-- ===== src/KafkaTopic/Keys.antt =====
-- The keys of the repository's caches (`newKey` of repository.go).
use mathlib.Core.List.{append_assoc, append-nil}
use terraform_provider_aiven.Prelude.{
  has_slash, ◌≡◌, refl, sym, ◌∙◌, false, [], ◌∷◌, ◌++◌, arith, Str, bytes, join, join-join,
}
use terraform_provider_aiven.KafkaTopic.Repository.{new_key}

-- The text before the first slash, and the text behind it, are determined.
cut_at_slash :
    (p q r s : Str)
    → has_slash p ≡ false
    → has_slash q ≡ false
    → p ++ 47 ∷ r ≡ q ++ 47 ∷ s
    → (p ≡ q) × (r ≡ s)
cut_at_slash [] [] r s hp hq e = (refl, cc)
cut_at_slash [] (c ∷ q) r s hp hq e = ground arith
cut_at_slash (c ∷ p) [] r s hp hq e = ground arith
cut_at_slash (c ∷ p) (d ∷ q) r s hp hq e =
    let (a, b) = cut_at_slash p q r s (ground arith) (ground arith) (cc) in (cc, b)

-- The key of a topic under its service's key is the key of the three names.
pub new_key-new_key :
    (p s t : Str) → new_key (new_key (p ∷ s ∷ []) ∷ t ∷ []) ≡ new_key (p ∷ s ∷ t ∷ [])
unfolding new_key
new_key-new_key p s t = join-join (bytes "/") p s t

pub new_key_topic : (p s t : Str) → new_key (p ∷ s ∷ t ∷ []) ≡ p ++ 47 ∷ (s ++ 47 ∷ t)
unfolding new_key join
new_key_topic p s t = simp (append-nil)

pub new_key_service : (p s : Str) → new_key (p ∷ s ∷ []) ≡ p ++ 47 ∷ s
unfolding new_key join
new_key_service p s = simp (append-nil)

-- Two topics whose project and service names hold no slash have one key only if all names agree.
pub new_key_injective :
    (p s t p' s' t' : Str)
    → has_slash p ≡ false
    → has_slash s ≡ false
    → has_slash p' ≡ false
    → has_slash s' ≡ false
    → new_key (p ∷ s ∷ t ∷ []) ≡ new_key (p' ∷ s' ∷ t' ∷ [])
    → (p ≡ p') × (s ≡ s') × (t ≡ t')
new_key_injective p s t p' s' t' hp hs hp' hs' e =
    let e' = sym (new_key_topic p s t) ∙ e ∙ new_key_topic p' s' t' in
    let (a, r) = cut_at_slash p p' (s ++ 47 ∷ t) (s' ++ 47 ∷ t') hp hp' e' in
    let (b, c) = cut_at_slash s s' t t' hs hs' r in (a, b, c)

-- Joining the same key and a separator to two names gives one key only for one name.
pub new_key_topic_injective : (k t t' : Str) → new_key (k ∷ t ∷ []) ≡ new_key (k ∷ t' ∷ []) → t ≡ t'
new_key_topic_injective k t t' e =
    let e' = sym (new_key_service k t) ∙ e ∙ new_key_service k t' in append_cancel k e'
  where
    append_cancel : (p : Str) → p ++ 47 ∷ t ≡ p ++ 47 ∷ t' → t ≡ t'
    append_cancel [] h = cc
    append_cancel (c ∷ p) h = append_cancel p (cc)

-- The prefix of a service's topics: `key + "/"`.
pub topic_key_prefix :
    (p s t : Str) → new_key (p ∷ s ∷ t ∷ []) ≡ (new_key (p ∷ s ∷ []) ++ bytes "/") ++ t
topic_key_prefix p s t = rw (new_key_topic, new_key_service) (simp append_assoc)
