-- ===== src/Billing/Webhooks/Sweep.antt =====
-- The sweep over the pending events (`process_pending` of apps/billing/services.py): each has its
-- turn, whatever the others came to, and what is settled stays settled.
use tenora.Base.{
  ℕ, Bool, true, false, ◌≡◌, refl, ◌==◌, ◌∙◌, arith, Bool-cases, inl, inr, Option, none, some, List,
  [], ◌∷◌, map, if◌then◌else◌, ap,
}
use tenora.Base.Table.{lookup, lookup-save}
use tenora.Exec.{Result, ok, err, continued, rolled_back, require, pure, gets, ◌>>◌, ◌>>=◌}
use tenora.Billing.Rows.{WebhookEvent, Store}
use tenora.Billing.Webhooks.{
  Outcome, skipped, is_deferred, subscription_for, apply_event, settle, process, process_event,
  SweptEvent, sweep_one, sweep, pending, process_pending,
}
use tenora.Billing.Webhooks.Quiet.{Keeps, apply_event-Keeps}
use tenora.Billing.Webhooks.Once.{IsSettled, process_event-IsSettled, process_event_seen}

-- The rows of the other events are as they were.
abbrev Others : ℕ → Store → Result Outcome × Store → Type 0
Others pk db (_, db') = (j : ℕ) → (pk == j) ≡ false → lookup j db'.events ≡ lookup j db.events

settle-Others :
    (pk : ℕ) (event : WebhookEvent) (db : Store) (r : Result Outcome × Store)
    → Keeps db r
    → Others pk db (continued (λ o. settle pk event o >> pure o) r)
unfolding settle
settle-Others pk event db (err e, db') h j apart = rw h refl
settle-Others pk event db (ok o, db') h j apart =
    ground (arith, h, lookup-save j pk (record event { processed = true }) db.events)

process-Others :
    (now fresh pk : ℕ) (db : Store) (row : Option WebhookEvent)
    → Others pk db ((require row >>= process now fresh pk) db)
unfolding process
process-Others now fresh pk db none = λ j apart. refl
process-Others now fresh pk db (some event) = go event.processed
  where
    go :
        (b : Bool)
        → Others pk db (
            (if b
                then pure skipped
                else (gets (subscription_for event) >>= λ sub_before.
                    apply_event now fresh event sub_before >>= λ outcome.
                    settle pk event outcome >> pure outcome))
              db)
    go true = λ j apart. refl
    go false =
        settle-Others pk event db (apply_event now fresh event (subscription_for event db) db)
          (apply_event-Keeps now fresh event (subscription_for event db) db)

rolled_back-Others :
    (pk : ℕ) (db : Store) (r : Result Outcome × Store)
    → Others pk db r
    → Others pk db (rolled_back db r)
rolled_back-Others pk db (ok o, db') h = h
rolled_back-Others pk db (err e, db') h = λ j apart. refl

process_event-Others :
    (now fresh pk : ℕ) (db : Store) → Others pk db (process_event now fresh pk db)
unfolding process_event
process_event-Others now fresh pk db =
    rolled_back-Others pk db _ (process-Others now fresh pk db (lookup pk db.events))

abbrev pub IsProcessed : ℕ → Store → Type 0
IsProcessed pk db = (e : WebhookEvent) × (lookup pk db.events ≡ some e) × (e.processed ≡ true)

process_event-IsProcessed :
    (now fresh pk j : ℕ) (db : Store)
    → IsProcessed j db
    → IsProcessed j (process_event now fresh pk db).1
process_event-IsProcessed now fresh pk j db (e, row, seen) = elim (Bool-cases (pk == j)) [
  | inl same ↦
      let key : j ≡ pk = ground (arith, same) in
      let run : process_event now fresh pk db ≡ (ok skipped, db) =
        process_event_seen now fresh pk e db (rw key at row) seen in
      rw run (e, row, seen)
  | inr apart ↦ (e, process_event-Others now fresh pk db j apart ∙ row, seen)
]

sweep-IsProcessed :
    (now : ℕ) (fresh : ℕ → ℕ) (j : ℕ) (pks : List ℕ) (db : Store)
    → IsProcessed j db
    → IsProcessed j (sweep now fresh pks db).1
unfolding sweep sweep_one
sweep-IsProcessed now fresh j [] db h = h
sweep-IsProcessed now fresh j (pk ∷ pks) db h =
    sweep-IsProcessed now fresh j pks _ (process_event-IsProcessed now (fresh pk) pk j db h)

-- An event that is neither deferred nor failed is processed.
abbrev pub IsDone : ℕ → Result Outcome → Store → Type 0
IsDone pk (err _) db = Unit
IsDone pk (ok o) db = is_deferred o ≡ false → IsProcessed pk db

abbrev pub AreDone : List SweptEvent → Store → Type 0
AreDone [] db = Unit
AreDone (r ∷ rs) db = IsDone r.event r.outcome db × AreDone rs db

turn-IsDone : (pk : ℕ) (r : Result Outcome × Store) → IsSettled pk r → IsDone pk r.0 r.1
turn-IsDone pk (ok o, db) h = h
turn-IsDone pk (err e, db) h = tt

later-IsDone :
    (now : ℕ) (fresh : ℕ → ℕ) (pk : ℕ) (o : Result Outcome) (pks : List ℕ) (db : Store)
    → IsDone pk o db
    → IsDone pk o (sweep now fresh pks db).1
later-IsDone now fresh pk (ok o) pks db h = λ d. sweep-IsProcessed now fresh pk pks db (h d)
later-IsDone now fresh pk (err e) pks db h = tt

sweep-AreDone :
    (now : ℕ) (fresh : ℕ → ℕ) (pks : List ℕ) (db : Store)
    → (map (λ r. r.event) (sweep now fresh pks db).0 ≡ pks)
      × AreDone (sweep now fresh pks db).0 (sweep now fresh pks db).1
unfolding sweep sweep_one
sweep-AreDone now fresh [] db = (refl, tt)
sweep-AreDone now fresh (pk ∷ pks) db =
    let db' : Store = (process_event now (fresh pk) pk db).1 in
    let (each, rest) = sweep-AreDone now fresh pks db' in
    (
      ap (λ l. pk ∷ l) each,
      (
        later-IsDone now fresh pk (process_event now (fresh pk) pk db).0 pks db' (
            turn-IsDone pk (process_event now (fresh pk) pk db)
              (process_event-IsSettled now (fresh pk) pk db)),
        rest,
      ),
    )

-- process_pending gives each event that is pending when it begins one turn, in order, also where
-- a turn raises an error; and at its end every event whose turn came to an outcome other than
-- deferred is marked as processed.
pub process_pending-AreDone :
    (now : ℕ) (fresh : ℕ → ℕ) (db : Store)
    → (map (λ r. r.event) (process_pending now fresh db).0 ≡ pending db)
      × AreDone (process_pending now fresh db).0 (process_pending now fresh db).1
unfolding process_pending
process_pending-AreDone now fresh db = sweep-AreDone now fresh (pending db) db
