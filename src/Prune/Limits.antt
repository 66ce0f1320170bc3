-- ===== src/Prune/Limits.antt =====
-- The authorization of a prune request, over every order of the operations on the requests. The
-- worker ends or retries only the request that its claim returned (internal/cli/pruneworker.go).
use mathlib.Core.List.{Memᴰ}
use mathlib.Core.List.Memᴰ.{head, tail}
use gd_sync_harness.Prelude.{
  ℤ, ◌≤◌, String, ◌≡◌, sym, ap, subst, Bool, true, false, Option, none, some, inl, inr, List, [],
  ◌∷◌, All, All-imp, lt_count, str_eq, arith, Bool-cases, ltb,
}
use gd_sync_harness.Db.Table.{update_where, count_where}
use gd_sync_harness.Db.Table.Laws.{All-update_where, All-and}
use gd_sync_harness.Db.Table.Counts.{All-unique, count-update_same}
use gd_sync_harness.Db.Ledger.{Store, PruneRequest, PruneState, running, retrying, completed}
use gd_sync_harness.Prune.{is_owned, find_request, oldest, older, is_request, set_request}

-- The states of a request that may delete objects, or has.
abbrev pub is_executing : PruneState → Bool
is_executing PruneState.pending = true
is_executing running = true
is_executing retrying = true
is_executing completed = true
is_executing _ = false

-- An executing request has an accepted limit that its candidates do not exceed.
abbrev pub Authorized : PruneRequest → Type 0
Authorized r =
    is_executing r.state ≡ true
    → (limit : ℤ) × (r.authorized_limit ≡ some limit) × (lt_count limit r.candidate_count ≡ false)

pub record Sound (st : Store) : Type 0 where
  pub authorized : All Authorized st.prune_requests
  pub unique : (id : String) → count_where (is_request id) st.prune_requests ≤ 1

pub find_request-mem :
    (test : PruneRequest → Bool) (rs : List PruneRequest) (r : PruneRequest)
    → find_request test rs ≡ some r
    → Memᴰ r rs × (test r ≡ true)
unfolding find_request
find_request-mem test [] r h = ground arith
find_request-mem test (s ∷ rs) r h = elim (Bool-cases (test s)) [
  | inl b ↦ let same = some_inj (rw b at h) in (head (sym same), subst (λ x. test x ≡ true) same b)
  | inr b ↦ let (m, t) = find_request-mem test rs r (rw b at h) in (tail m, t)
]
  where
    some_inj : {a b : PruneRequest} → some a ≡ some b → a ≡ b
    some_inj e = ground arith

pub oldest-mem :
    (test : PruneRequest → Bool) (rs : List PruneRequest) (r : PruneRequest)
    → oldest test rs ≡ some r
    → Memᴰ r rs × (test r ≡ true)
unfolding oldest
oldest-mem test [] r h = ground arith
oldest-mem test (s ∷ rs) r h = elim (Bool-cases (test s)) [
  | inr b ↦ let (m, t) = oldest-mem test rs r (rw b at h) in (tail m, t)
  | inl b ↦ pick (oldest test rs) b (rw b at h) (oldest-mem test rs)
]
  where
    some_inj : {a b : PruneRequest} → some a ≡ some b → a ≡ b
    some_inj e = ground arith

    pick :
        (o : Option PruneRequest)
        → test s ≡ true
        → older s o ≡ some r
        → ((q : PruneRequest) → o ≡ some q → Memᴰ q rs × (test q ≡ true))
        → Memᴰ r (s ∷ rs) × (test r ≡ true)
    pick none b e rest =
        let same = some_inj e in (head (sym same), subst (λ x. test x ≡ true) same b)
    pick (some q) b e rest = elim (Bool-cases (ltb q.created_at s.created_at)) [
      | inl c ↦ let (m, t) = rest r (ap some (some_inj (rw c at e))) in (tail m, t)
      | inr c ↦
          let same = some_inj (rw c at e) in (head (sym same), subst (λ x. test x ≡ true) same b)
    ]

-- A statement on the one request with an id, of which `r` is known.
pub set_request-Sound :
    (id : String) (f : PruneRequest → PruneRequest) (st : Store) (r : PruneRequest)
    → Sound st
    → Memᴰ r st.prune_requests
    → is_request id r ≡ true
    → ((v : PruneRequest) → (f v).request_id ≡ v.request_id)
    → (Authorized r → Authorized (f r))
    → Sound (set_request id f st)
set_request-Sound id f st r w m named keeps step = record {
  authorized = All-update_where Authorized (is_request id) f st.prune_requests (
      All-imp _ _ st.prune_requests
        (λ v h. (
          h.0,
          λ t. subst (λ x. Authorized (f x)) (sym (h.1 t)) (step (subst Authorized (h.1 t) h.0)),
        ))
        (All-and Authorized _ st.prune_requests w.authorized
          (All-unique (is_request id) r st.prune_requests m named (w.unique id))));
  unique = λ j.
      rw
        (count-update_same (is_request j) (is_request id) f st.prune_requests
          (λ v. ap (λ x. str_eq x j) (keeps v)))
        (w.unique j);
}

-- A statement that never makes a request execute.
pub plain-Sound :
    (test : PruneRequest → Bool) (f : PruneRequest → PruneRequest) (st : Store)
    → Sound st
    → ((v : PruneRequest) → (f v).request_id ≡ v.request_id)
    → ((v : PruneRequest) → Authorized v → Authorized (f v))
    → Sound (record st { prune_requests = update_where test f st.prune_requests })
plain-Sound test f st w keeps step = record {
  authorized =
      All-update_where Authorized test f st.prune_requests
        (All-imp _ _ st.prune_requests (λ v h. (h, λ t. step v h)) w.authorized);
  unique = λ j.
      rw
        (count-update_same (is_request j) test f st.prune_requests
          (λ v. ap (λ x. str_eq x j) (keeps v)))
        (w.unique j);
}

-- The worker owns the request.
abbrev pub Owned : String → Store → Type 0
Owned id st =
    (r : PruneRequest) × Memᴰ r st.prune_requests
    × (is_request id r ≡ true)
    × (is_owned r.state ≡ true)
