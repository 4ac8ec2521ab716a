-- ===== src/KafkaTopic/Withdraw.antt =====
-- About `withdraw` of repository.go, which empties the queue.
use terraform_provider_aiven.Prelude.{
  ◌≡◌, refl, sym, ◌∙◌, subst, Option, none, some, List, [], ◌∷◌, arith, inl, inr, Str, All,
  Bool-cases, if◌then◌else◌, str_eq, str_eq_iff,
}
use terraform_provider_aiven.KafkaTopic.Repository.{Request, Repository, request_key}
use terraform_provider_aiven.KafkaTopic.Fetch.{Queue, get, put, put_all, withdraw_from, withdraw}
use terraform_provider_aiven.KafkaTopic.Groups.{requests}

-- The last request of the list with the key.
pub last_with : Str → List Request → Option Request
last_with k [] = none
last_with k (r ∷ rs) = elim (last_with k rs) [
  | some x ↦ some x
  | none ↦ if str_eq (request_key r) k then some r else none
]

-- Each request stands under its own key, and no key stands twice.
abbrev pub Keyed : Queue → Type 0
Keyed [] = Unit
Keyed ((k, r) ∷ q) = (request_key r ≡ k) × (get k q ≡ none) × Keyed q

pub get-put :
    (k j : Str) (r : Request) (q : Queue)
    → get j (put k r q) ≡ (if str_eq k j then some r else get j q)
unfolding get put
get-put k j r [] = refl
get-put k j r ((i, x) ∷ q) =
    ground (arith, get-put k j r q, str_eq_iff k j, str_eq_iff i k, str_eq_iff i j)

put-Keyed : (r : Request) (q : Queue) → Keyed q → Keyed (put (request_key r) r q)
unfolding put get
put-Keyed r [] h = (refl, refl, tt)
put-Keyed r ((j, x) ∷ q) h = elim (Bool-cases (str_eq j (request_key r))) [
  | inl e ↦ rw e (sym ((str_eq_iff j (request_key r)).0 e), h.1, h.2)
  | inr e ↦ rw e (
    h.0,
    ground (
      arith,
      get-put (request_key r) j r q,
      str_eq_iff (request_key r) j,
      str_eq_iff j (request_key r),
      h.1,
    ),
    put-Keyed r q h.2,
  )
]

put_all-Keyed : (rs : List Request) (q : Queue) → Keyed q → Keyed (put_all rs q)
unfolding put_all
put_all-Keyed [] q h = h
put_all-Keyed (r ∷ rs) q h = put_all-Keyed rs (put (request_key r) r q) (put-Keyed r q h)

abbrev pub or_else : Option Request → Option Request → Option Request
or_else none o = o
or_else (some r) o = some r

get-put_all :
    (k : Str) (rs : List Request) (q : Queue)
    → get k (put_all rs q) ≡ or_else (last_with k rs) (get k q)
unfolding put_all last_with
get-put_all k [] q = refl
get-put_all k (r ∷ rs) q =
    get-put_all k rs (put (request_key r) r q) ∙ ground (arith, get-put (request_key r) k r q)

-- The head's key is met by no request behind it.
weaken :
    (k : Str) (r : Request) (q : Queue) (rs : List Request)
    → get k q ≡ none
    → All (λ x. get (request_key x) q ≡ some x) rs
    → All (λ x. get (request_key x) ((k, r) ∷ q) ≡ some x) rs
unfolding get
weaken k r q [] e h = tt
weaken k r q (x ∷ rs) e h =
    (ground (arith, str_eq_iff k (request_key x), h.0), weaken k r q rs e h.1)

pub Keyed-get : (q : Queue) → Keyed q → All (λ x. get (request_key x) q ≡ some x) (requests q)
unfolding get
Keyed-get [] h = tt
Keyed-get ((k, r) ∷ q) h = (
  ground (arith, h.0, str_eq_iff k (request_key r)),
  weaken k r q (requests q) h.1 (Keyed-get q h.2),
)

abbrev pub get_from : Option Queue → Str → Option Request
get_from none k = none
get_from (some q) k = get k q

or_else-none : (o : Option Request) → or_else o none ≡ o
or_else-none none = refl
or_else-none (some r) = refl

withdraw_from_lem :
    (l : List Request) (rep : Repository) (k : Str)
    → rep.queue ≡ l
    → ((withdraw_from l rep).1.queue ≡ []) × (get_from (withdraw_from l rep).0 k ≡ last_with k l)
unfolding withdraw_from
withdraw_from_lem [] rep k e = (e, unfold last_with in refl)
withdraw_from_lem (r ∷ rs) rep k e =
    (refl, get-put_all k (r ∷ rs) [] ∙ unfold get in or_else-none (last_with k (r ∷ rs)))

-- The withdrawn map holds, under every key, the last request that was queued with this key, and the
-- queue is empty behind it.
pub withdraw_lem :
    (rep : Repository) (k : Str)
    → ((withdraw rep).1.queue ≡ []) × (get_from (withdraw rep).0 k ≡ last_with k rep.queue)
unfolding withdraw
withdraw_lem rep k = withdraw_from_lem rep.queue rep k refl

withdraw_from-Keyed :
    (l : List Request) (rep : Repository) (q : Queue) → (withdraw_from l rep).0 ≡ some q → Keyed q
unfolding withdraw_from
withdraw_from-Keyed [] rep q h = cc
withdraw_from-Keyed (r ∷ rs) rep q h =
    let e : put_all (r ∷ rs) [] ≡ q = cc in subst Keyed e (put_all-Keyed (r ∷ rs) [] tt)

pub withdraw-Keyed : (rep : Repository) (q : Queue) → (withdraw rep).0 ≡ some q → Keyed q
unfolding withdraw
withdraw-Keyed rep q h = withdraw_from-Keyed rep.queue rep q h
