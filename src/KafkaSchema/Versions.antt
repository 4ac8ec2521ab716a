-- ===== src/KafkaSchema/Versions.antt =====
-- About the wait for the version of a schema that has been posted.
use terraform_provider_aiven.Prelude.{
  ℕ, zero, suc, ◌<◌, ◌≡◌, refl, ◌∙◌, arith, true, false, Option, none, some, List, [], ◌∷◌, ◌++◌,
  ◌==◌, ==_iff, Str,
}
use terraform_provider_aiven.Common.{Result, ok}
use terraform_provider_aiven.KafkaSchema.{
  SchemaVersion, Registry, next_ok, find_version, poll_version, after_turn, get_schema_version,
}

module _ {ℓ} {W : Type ℓ} (api : Registry W) (subject : Str × Str × Str) (id : ℕ) where
  -- The world after some versions of the list, each of which has another id.
  pub data Passes : List ℕ → W → W → Type ℓ where
    passes_end : (w : W) → Passes [] w w
    passes_one :
        (v : ℕ) (vs : List ℕ) (s : SchemaVersion) (w w₁ w₂ : W)
        → api.get_version subject v w ≡ (ok s, w₁)
        → (s.id == id) ≡ false
        → Passes vs w₁ w₂
        → Passes (v ∷ vs) w w₂

  -- The world after some turns in which no version of the list has the id.
  pub data Waits : ℕ → W → W → Type ℓ where
    waits_end : (w : W) → Waits zero w w
    waits_turn :
        (n : ℕ) (vs : List ℕ) (w w₁ w₂ w₃ : W)
        → api.cancelled w ≡ none
        → api.get_versions subject w ≡ (ok vs, w₁)
        → Passes vs w₁ w₂
        → Waits n w₂ w₃
        → Waits (suc n) w w₃

  find-Passes :
      (vs : List ℕ) (w w' : W) → Passes vs w w' → find_version api subject id vs w ≡ (ok none, w')
  unfolding find_version next_ok
  find-Passes [] w w' (passes_end _) = refl
  find-Passes (v ∷ vs) w w' (passes_one _ _ s _ w₁ _ e n p) =
      rw (e, next_ok, n) (find-Passes vs w₁ w' p)

  find_there :
      (vs rest : List ℕ) (v : ℕ) (s : SchemaVersion) (w w₁ w₂ : W)
      → Passes vs w w₁
      → api.get_version subject v w₁ ≡ (ok s, w₂)
      → (s.id == id) ≡ true
      → find_version api subject id (vs ++ v ∷ rest) w ≡ (ok (some s.version), w₂)
  unfolding find_version next_ok
  find_there [] rest v s w w₁ w₂ (passes_end _) e h = rw (e, next_ok, h) refl
  find_there (u ∷ vs) rest v s w w₁ w₂ (passes_one _ _ t _ w₃ _ d n p) e h =
      rw (d, next_ok, n) (find_there vs rest v s w₃ w₁ w₂ p e h)

  turn :
      (vs : List ℕ) (r : Result (Option ℕ)) (w w₁ w₂ : W)
      → api.cancelled w ≡ none
      → api.get_versions subject w ≡ (ok vs, w₁)
      → find_version api subject id vs w₁ ≡ (r, w₂)
      → poll_version api subject id w ≡ (r, w₂)
  unfolding poll_version next_ok
  turn vs r w w₁ w₂ c e h = rw (poll_version, c, e) h

  last_turn :
      (k v : ℕ) (w w' : W)
      → poll_version api subject id w ≡ (ok (some v), w')
      → get_schema_version api (suc k) subject id w ≡ (some (ok v), w')
  unfolding get_schema_version after_turn
  last_turn k v w w' e = rw e refl

  other_turn :
      (n : ℕ) (w w' : W)
      → poll_version api subject id w ≡ (ok none, w')
      → get_schema_version api (suc n) subject id w ≡ get_schema_version api n subject id w'
  unfolding get_schema_version after_turn
  other_turn n w w' e = rw (get_schema_version, e) refl

  -- Once a turn of the loop lists a version whose id is the one that was posted, after any number of
  -- turns that did not and where no call failed and the context was not done, the loop ends with that
  -- version, for every bound on the turns that is larger than their number.
  pub get_schema_version_ends :
      (n f v : ℕ) (vs rest : List ℕ) (s : SchemaVersion) (w w₁ w₂ w₃ w₄ : W)
      → n < f
      → Waits n w w₁
      → api.cancelled w₁ ≡ none
      → api.get_versions subject w₁ ≡ (ok (vs ++ v ∷ rest), w₂)
      → Passes vs w₂ w₃
      → api.get_version subject v w₃ ≡ (ok s, w₄)
      → s.id ≡ id
      → get_schema_version api f subject id w ≡ (some (ok s.version), w₄)
  get_schema_version_ends n zero v vs rest s w w₁ w₂ w₃ w₄ b t c l p e h = absurd (omega (arith, b))
  get_schema_version_ends zero (suc k) v vs rest s w w₁ w₂ w₃ w₄ b (waits_end _) c l p e h =
      let f = find_there vs rest v s w₂ w₃ w₄ p e ((==_iff s.id id).1 h) in
      last_turn k s.version w w₄ (turn (vs ++ v ∷ rest) _ w w₂ w₄ c l f)
  get_schema_version_ends (suc n) (suc k) v vs rest s w w₁ w₂ w₃ w₄ b
        (waits_turn _ us _ x y _ d m q t) c l p e h =
      other_turn k w y (turn us _ w x y d m (find-Passes us x y q))
      ∙ get_schema_version_ends n k v vs rest s y w₁ w₂ w₃ w₄ (omega (arith, b)) t c l p e h
