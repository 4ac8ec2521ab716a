-- ===== src/Adapter/Resource/Issued.antt =====
-- resource.go: the outcomes of the deletes that `deleteState` issues, last first.
use terraform_provider_aiven.Prelude.{
  ℕ, suc, ◌+◌, ◌<◌, length, ◌≡◌, Bool, true, false, List, [], ◌∷◌,
}
use terraform_provider_aiven.Adapter.Failure.{Failure}
use terraform_provider_aiven.Adapter.Resource.{Called, DeleteOptions, ResourceAdapter}
use terraform_provider_aiven.Adapter.Resource.Delete.{Deleting, no_error}

unfoldable pub AllFailed : List Bool → Type 0
AllFailed [] = Unit
AllFailed (b ∷ l) = (b ≡ false) × AllFailed l

-- Of the deletes issued before `n` reads only the last may have succeeded. As long as none had, there was
-- one before each read.
unfoldable pub IssuedUntilDone : List Bool → ℕ → Type 0
unfolding AllFailed
IssuedUntilDone [] n = n ≡ 0
IssuedUntilDone (true ∷ l) n = AllFailed l × (length l < n)
IssuedUntilDone (false ∷ l) n = AllFailed l × (suc (length l) ≡ n)

-- The same, where it is known whether the last delete succeeded.
unfoldable Issued : Bool → List Bool → ℕ → Type 0
unfolding AllFailed
Issued false l n = AllFailed l × (length l ≡ n)
Issued true (true ∷ l) n = AllFailed l × (length l < n)
Issued true _ n = ⊥

-- `log` is what the state holds of the deletes and `count` the number of its reads: a read keeps the log
-- and counts one, and a delete adds its outcome and keeps the count.
module _ {S : Type 0} (a : ResourceAdapter S (Deleting S)) (delete : S → Called S)
    (o : DeleteOptions) (log : S → List Bool) (count : S → ℕ)
    (reads : (s : S) → log (a.options.read s).after ≡ log s)
    (counts : (s : S) → count (a.options.read s).after ≡ count s + 1)
    (deletes : (s : S) → log (delete s).after ≡ no_error (delete s).failure ∷ log s)
    (uncounted : (s : S) → count (delete s).after ≡ count s) where
  Logged : Deleting S → Type 0
  Logged d = Issued d.succeeded (log d.data_now) (count d.data_now)
