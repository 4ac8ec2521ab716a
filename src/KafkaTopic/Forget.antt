-- ===== src/KafkaTopic/Forget.antt =====
-- About `forgetService` of repository.go.
use terraform_provider_aiven.Prelude.{
  has_slash, ◌≡◌, refl, sym, ◌∙◌, true, false, ◌++◌, ◌&&◌, Str, bytes, str_eq, str_eq_iff,
  str_eq_refl, has_prefix, has_prefix_sound, has_prefix-append, if◌then◌else◌, eq_of_iff_true,
  and_split,
}
use terraform_provider_aiven.KafkaTopic.Repository.{Repository, forget_service}
use terraform_provider_aiven.KafkaTopic.Keys.{new_key_injective, topic_key_prefix}
use terraform_provider_aiven.KafkaTopic.Cache.{topic_key, service_key}

-- The prefix test finds exactly the topics of the service.
prefix-eq :
    (p s p' s' t : Str)
    → has_slash p ≡ false
    → has_slash s ≡ false
    → has_slash p' ≡ false
    → has_slash s' ≡ false
    → has_prefix (topic_key p' s' t) (service_key p s ++ bytes "/") ≡ (str_eq p p' && str_eq s s')
prefix-eq p s p' s' t hp hs hp' hs' = eq_of_iff_true _ _ found back
  where
    found :
        has_prefix (topic_key p' s' t) (service_key p s ++ bytes "/") ≡ true
        → (str_eq p p' && str_eq s s') ≡ true
    found h =
        let (r, e) = has_prefix_sound (topic_key p' s' t) (service_key p s ++ bytes "/") h in
        let (a, b, c) =
          new_key_injective p' s' t p s r hp' hs' hp hs (e ∙ sym (topic_key_prefix p s r)) in
        rw (a, b, str_eq_refl, str_eq_refl) refl

    back :
        (str_eq p p' && str_eq s s') ≡ true
        → has_prefix (topic_key p' s' t) (service_key p s ++ bytes "/") ≡ true
    back h =
        let (a, b) = and_split (str_eq p p') (str_eq s s') h in
        let ep = (str_eq_iff p p').0 a in
        let es = (str_eq_iff s s').0 b in
        rw (ep, es, topic_key_prefix) (has_prefix-append (service_key p' s' ++ bytes "/") t)

-- With project and service names that hold no slash, `forgetService` unmarks every topic of its
-- service and leaves the marks of the other services' topics.
forget_service_lem :
    (rep : Repository) (p s p' s' t : Str)
    → has_slash p ≡ false
    → has_slash s ≡ false
    → has_slash p' ≡ false
    → has_slash s' ≡ false
    → ((forget_service p s rep).seen_topics (topic_key p' s' t)
        ≡ (if str_eq p p' && str_eq s s' then false else rep.seen_topics (topic_key p' s' t)))
      × ((forget_service p s rep).seen_services (service_key p s) ≡ false)
unfolding forget_service
forget_service_lem rep p s p' s' t hp hs hp' hs' =
    (rw (prefix-eq p s p' s' t hp hs hp' hs') refl, rw str_eq_refl refl)
