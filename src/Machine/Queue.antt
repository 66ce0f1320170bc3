-- ===== src/Machine/Queue.antt =====
-- The queue of pending events, in every database that the transactions reach.
use gd_sync_harness.Prelude.{
  ◌≤◌, String, ◌≡◌, refl, Bool, true, inl, inr, some, List, [], ◌∷◌, All, All-imp, arith, eq_iff,
  str_eq, Bool-cases,
}
use gd_sync_harness.Db.Table.{Table, update_row, delete_where}
use gd_sync_harness.Db.Table.Laws.{All-delete_where}
use gd_sync_harness.Db.Schema.{Db, Runtime, PendingEvent}
use gd_sync_harness.Events.{is_safe_fast_kind, is_at, upsert, merge_observed}

-- A queued event is a creation or a modification, and its generation has been given out by the
-- runtime row of its profile.
abbrev pub EventOk : Table Runtime → PendingEvent → Type 0
EventOk rt e =
    (is_safe_fast_kind e.event_kind ≡ true)
    × ((r : Runtime) × (rt e.profile_id ≡ some r) × (e.source_generation ≤ r.source_generation))

abbrev pub QueueOk : Db → Type 0
QueueOk db = All (EventOk db.runtime) db.pending_events

-- No row disappears and no source generation goes down.
abbrev pub Grows : Table Runtime → Table Runtime → Type 0
Grows rt rt' =
    (p : String) (r : Runtime)
    → rt p ≡ some r
    → (r' : Runtime) × (rt' p ≡ some r') × (r.source_generation ≤ r'.source_generation)

pub EventOk-grow :
    {rt rt' : Table Runtime} → Grows rt rt' → (e : PendingEvent) → EventOk rt e → EventOk rt' e
EventOk-grow g e (safe, (r, row, le)) =
    let (r', row', le') = g e.profile_id r row in (safe, (r', row', omega arith))

pub Grows-refl : (rt : Table Runtime) → Grows rt rt
Grows-refl rt p r e = (r, e, omega arith)

pub Grows-update :
    (p : String) (f : Runtime → Runtime) (rt : Table Runtime)
    → ((r : Runtime) → r.source_generation ≤ (f r).source_generation)
    → Grows rt (update_row p f rt)
Grows-update p f rt up j r e = elim (Bool-cases (str_eq p j)) [
  | inl same ↦ (f r, rw (same, e) refl, up r)
  | inr other ↦ (r, rw other e, omega arith)
]

pub QueueOk-grow :
    (db db' : Db)
    → Grows db.runtime db'.runtime
    → db'.pending_events ≡ db.pending_events
    → QueueOk db
    → QueueOk db'
QueueOk-grow db db' g e w =
    rw e (All-imp (EventOk db.runtime) (EventOk db'.runtime) db.pending_events (EventOk-grow g) w)

-- Statements that delete from the queue.
pub QueueOk-delete :
    (db db' : Db) (test : PendingEvent → Bool)
    → Grows db.runtime db'.runtime
    → db'.pending_events ≡ delete_where test db.pending_events
    → QueueOk db
    → QueueOk db'
QueueOk-delete db db' test g e w = rw e (
    All-imp _ (EventOk db'.runtime) _ (λ v h. EventOk-grow g v h.0)
      (All-delete_where (EventOk db.runtime) test db.pending_events w))

-- The upsert of the fast lane.
pub All-upsert :
    (P : PendingEvent → Type 0) (new : PendingEvent) (merge : PendingEvent → PendingEvent)
    (es : List PendingEvent)
    → P new
    → ((e : PendingEvent) → is_at new.profile_id new.path e ≡ true → P e → P (merge e))
    → All P es
    → All P (upsert new merge es)
unfolding upsert
All-upsert P new merge [] h m w = (h, tt)
All-upsert P new merge (e ∷ es) h m (we, ws) = elim (Bool-cases (is_at new.profile_id new.path e)) [
  | inl b ↦ rw b (m e b we, ws)
  | inr b ↦ rw b (we, All-upsert P new merge es h m ws)
]

pub EventOk-merge :
    (rt : Table Runtime) (new e : PendingEvent)
    → is_at new.profile_id new.path e ≡ true
    → EventOk rt new
    → EventOk rt e
    → EventOk rt (merge_observed new e)
EventOk-merge rt new e at (safe, (r, row, le)) (safe', (r', row', le')) =
    (safe, (r', row', ground (arith, eq_iff e.profile_id new.profile_id)))
