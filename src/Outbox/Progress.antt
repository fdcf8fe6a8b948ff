-- ===== src/Outbox/Progress.antt =====
-- No event is dropped from the outbox, and a batch gets through when the broker answers.
use livequiz_platform.Prelude.{
  ℕ, ◌+◌, ◌≡◌, refl, ◌∙◌, Bool, true, false, List, [], ◌∷◌, length, map, arith, update_where, inl,
  inr, Bool-cases, leb,
}
use livequiz_platform.Store.{OutboxEvent}
use livequiz_platform.Outbox.{
  SendOutcome, acked, stored_unacked, not_stored, Publisher, bump, divert, publish, process_row,
  process_rows, mark, process_batch, select_batch, max_publish_attempts,
}

abbrev pub event_ids : List OutboxEvent → List ℕ
event_ids es = map (λ (e : OutboxEvent). e.id) es

event_ids-update :
    (p : OutboxEvent → Bool) (f : OutboxEvent → OutboxEvent) (es : List OutboxEvent)
    → ((e : OutboxEvent) → (f e).id ≡ e.id)
    → event_ids (update_where p f es) ≡ event_ids es
event_ids-update p f [] same = refl
event_ids-update p f (e ∷ es) same = elim (Bool-cases (p e)) [
  | inl hit ↦ rw (hit, same e, event_ids-update p f es same) refl
  | inr miss ↦ rw (miss, event_ids-update p f es same) refl
]

event_ids-divert :
    (o : SendOutcome) (e : OutboxEvent) (st : Publisher)
    → event_ids (divert o e st).outbox ≡ event_ids st.outbox
event_ids-divert acked e st = refl
event_ids-divert stored_unacked e st = refl
event_ids-divert not_stored e st = refl

event_ids-publish :
    (o : SendOutcome) (e : OutboxEvent) (st : Publisher)
    → event_ids (publish o e st).outbox ≡ event_ids st.outbox
event_ids-publish acked e st = refl
event_ids-publish stored_unacked e st = event_ids-update _ bump st.outbox (λ _. refl)
event_ids-publish not_stored e st = event_ids-update _ bump st.outbox (λ _. refl)

event_ids-process_rows :
    (broker : ℕ → SendOutcome) (rows : List OutboxEvent) (st : Publisher)
    → event_ids (process_rows broker rows st).outbox ≡ event_ids st.outbox
unfolding process_rows process_row
event_ids-process_rows broker [] st = refl
event_ids-process_rows broker (e ∷ rows) st =
    event_ids-process_rows broker rows (process_row broker e st)
    ∙ elim (Bool-cases (leb max_publish_attempts e.publish_attempts)) [
      | inl spent ↦ rw spent (event_ids-divert (broker e.id) e st)
      | inr left ↦ rw left (event_ids-publish (broker e.id) e st)
    ]

-- A batch neither drops nor adds nor reorders the events of the outbox, however it goes.
pub event_ids-process_batch :
    (now : ℕ) (locked : ℕ → Bool) (broker : ℕ → SendOutcome) (commits : Bool) (st : Publisher)
    → event_ids (process_batch now locked broker commits st).1.outbox ≡ event_ids st.outbox
unfolding process_batch
event_ids-process_batch now locked broker true st =
    let before : Publisher = record st { published_ids = [] } in
    let rows = select_batch locked st.outbox in
    event_ids-update _ (mark now) (process_rows broker rows before).outbox (λ _. refl)
    ∙ event_ids-process_rows broker rows before
event_ids-process_batch now locked broker false st = refl

published_row :
    (e : OutboxEvent) (st : Publisher)
    → (process_row (λ _. acked) e st).published_ids ≡ e.id ∷ st.published_ids
unfolding process_row
published_row e st = elim (Bool-cases (leb max_publish_attempts e.publish_attempts)) [
  | inl spent ↦ rw spent refl
  | inr left ↦ rw left refl
]

published_all :
    (rows : List OutboxEvent) (st : Publisher)
    → length (process_rows (λ _. acked) rows st).published_ids
      ≡ length rows + length st.published_ids
unfolding process_rows
published_all [] st = omega arith
published_all (e ∷ rows) st =
    published_all rows (process_row (λ _. acked) e st) ∙ rw (published_row e st) (omega arith)

-- When the broker acknowledges every send, a batch publishes every row that it selects.
pub process_batch-all :
    (now : ℕ) (locked : ℕ → Bool) (commits : Bool) (st : Publisher)
    → (process_batch now locked (λ _. acked) commits st).0 ≡ length (select_batch locked st.outbox)
unfolding process_batch
process_batch-all now locked commits st =
    omega (arith, published_all (select_batch locked st.outbox) (record st { published_ids = [] }))
