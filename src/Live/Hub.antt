-- ===== src/Live/Hub.antt =====
-- internal/live/hub.go: the subscribers of one profile, each with a channel that holds one snapshot.
-- `S` is the type of the snapshots. The locks make every method one step.
use gd_sync_harness.Prelude.{
  ℕ, ◌≡◌, refl, Bool, true, false, Option, none, some, inl, inr, List, [], ◌∷◌, ◌++◌, All,
  All-append, map, arith, Bool-cases, ◌==◌, if◌then◌else◌,
}

-- subscriber, with the value that its channel holds; `key` is its address
pub record Subscriber (S : Type 0) : Type 0 where
  pub key : ℕ
  pub ch : Option S
  pub ready : Bool
  pub pending : Option S

pub data Step (S : Type 0) : Type 0 where
  begins : ℕ → Step S
  finishes : (S → S) → ℕ → Step S
  removes : ℕ → Step S
  publishes : S → Step S
  receives : ℕ → Step S

module _ {S : Type 0} where
  -- beginSubscribe
  unfoldable pub begin_subscribe : ℕ → List (Subscriber S) → List (Subscriber S)
  begin_subscribe key subs =
      subs ++ record { key = key; ch = none; ready = false; pending = none } ∷ []

  -- finishSubscribe of one subscriber. The send waits for ever on a full channel; before the
  -- subscriber is ready nothing is sent, so that the channel is empty.
  unfoldable pub finish : (S → S) → Subscriber S → Subscriber S
  finish restamp sub = record sub {
    ch = elim sub.pending [ none ↦ sub.ch | some s ↦ some (restamp s) ];
    pending = none;
    ready = true;
  }

  unfoldable pub finish_subscribe : (S → S) → ℕ → List (Subscriber S) → List (Subscriber S)
  unfolding finish
  finish_subscribe restamp key subs =
      map (λ sub. if sub.key == key then finish restamp sub else sub) subs

  -- removeSubscriber, and Unsubscribe of its channel
  unfoldable pub remove_subscriber : ℕ → List (Subscriber S) → List (Subscriber S)
  remove_subscriber key [] = []
  remove_subscriber key (sub ∷ subs) =
      let rest = remove_subscriber key subs in if sub.key == key then subs else sub ∷ rest

  -- The loop body of Publish: a subscriber that is not ready keeps the snapshot aside; a full
  -- channel is drained and filled again.
  unfoldable pub deliver : S → Subscriber S → Subscriber S
  deliver s sub =
      if sub.ready
      then elim sub.ch [ none ↦ record sub { ch = some s } | some old ↦ record sub { ch = some s } ]
      else record sub { pending = some s }

  -- Publish
  unfoldable pub publish : S → List (Subscriber S) → List (Subscriber S)
  unfolding deliver
  publish s subs = map (deliver s) subs

  -- The client takes what its channel holds.
  unfoldable pub receive : ℕ → List (Subscriber S) → List (Subscriber S)
  receive key subs = map (λ sub. if sub.key == key then record sub { ch = none } else sub) subs

  -- What the subscriber gets next.
  abbrev pub held : Subscriber S → Option S
  held sub = if sub.ready then sub.ch else sub.pending

  unfoldable pub step : Step S → List (Subscriber S) → List (Subscriber S)
  step (begins key) subs = begin_subscribe key subs
  step (finishes restamp key) subs = finish_subscribe restamp key subs
  step (removes key) subs = remove_subscriber key subs
  step (publishes s) subs = publish s subs
  step (receives key) subs = receive key subs

  pub data Reached : List (Subscriber S) → Type 0 where
    empty : Reached []
    then_ : {subs : List (Subscriber S)} (s : Step S) → Reached subs → Reached (step s subs)

  -- Nothing is sent to a subscriber before it is ready, and nothing is kept aside after.
  abbrev pub HandedOff : Subscriber S → Type 0
  HandedOff sub = (sub.ready ≡ false → sub.ch ≡ none) × (sub.ready ≡ true → sub.pending ≡ none)

  All-map :
      (P : Subscriber S → Type 0) (f : Subscriber S → Subscriber S) (subs : List (Subscriber S))
      → ((sub : Subscriber S) → P sub → P (f sub))
      → All P subs
      → All P (map f subs)
  All-map P f [] keeps h = tt
  All-map P f (sub ∷ subs) keeps (h, hs) = (keeps sub h, All-map P f subs keeps hs)

  All-remove :
      (P : Subscriber S → Type 0) (key : ℕ) (subs : List (Subscriber S))
      → All P subs
      → All P (remove_subscriber key subs)
  unfolding remove_subscriber
  All-remove P key [] h = tt
  All-remove P key (sub ∷ subs) (h, hs) = elim (Bool-cases (sub.key == key)) [
    | inl b ↦ rw b hs
    | inr b ↦ rw b (h, All-remove P key subs hs)
  ]

  step-HandedOff :
      (s : Step S) (subs : List (Subscriber S)) → All HandedOff subs → All HandedOff (step s subs)
  unfolding step
  step-HandedOff (begins key) subs w =
      unfold begin_subscribe in All-append HandedOff subs _ w ((λ h. refl, λ h. refl), tt)
  step-HandedOff (finishes restamp key) subs w =
      unfold finish_subscribe in
      All-map HandedOff _ subs (λ sub h. unfold finish in ground (arith, h)) w
  step-HandedOff (removes key) subs w = All-remove HandedOff key subs w
  step-HandedOff (publishes s) subs w =
      unfold publish in
      All-map HandedOff (deliver s) subs (λ sub h. unfold deliver in ground (arith, h)) w
  step-HandedOff (receives key) subs w =
      unfold receive in All-map HandedOff _ subs (λ sub h. ground (arith, h)) w

  -- The send of finishSubscribe never waits: in every reachable hub, whatever the order of
  -- subscriptions, publications and receptions, the channel of a subscriber that is not ready is
  -- empty, and a subscriber that is ready has nothing kept aside.
  pub Reached-HandedOff : {subs : List (Subscriber S)} → Reached subs → All HandedOff subs
  Reached-HandedOff empty = tt
  Reached-HandedOff (then_ {subs} s h) = step-HandedOff s subs (Reached-HandedOff h)

  -- Delivery is of the latest value: after a publication every subscriber holds the published
  -- snapshot, ready or not, whatever it held before and however many snapshots it has missed; and
  -- the completion of a subscription hands over the one that was kept aside, restamped.
  latest_value :
      (old new : S) (restamp : S → S) (subs : List (Subscriber S))
      → All (λ sub. held sub ≡ some new) (publish new (publish old subs))
        × All
            (λ sub. sub.ready ≡ false → held (finish restamp sub) ≡ some (restamp new))
            (publish new (publish old subs))
  unfolding publish finish deliver
  latest_value old new restamp [] = (tt, tt)
  latest_value old new restamp (sub ∷ subs) =
      let (h, k) = latest_value old new restamp subs in
      ((ground arith, h), (λ idle. ground (arith, idle), k))
