-- ===== src/Outbox/Delivery.antt =====
-- No event counts as published unless the broker has stored it.
use livequiz_platform.Prelude.{
  ℕ, String, ◌≡◌, refl, Bool, true, false, List, [], ◌∷◌, any, All, arith, is_some, ◌==◌,
  update_where, inl, inr, Bool-cases, leb,
}
use livequiz_platform.Store.{OutboxEvent}
use livequiz_platform.Outbox.Topics.{topic_for, topic_dead_letter}
use livequiz_platform.Outbox.{
  SendOutcome, acked, stored_unacked, not_stored, Sent, Publisher, bump, message, store,
  note_published, note_failed, divert, publish, process_row, process_rows, mark_published,
  process_batch, select_batch, max_publish_attempts,
}

abbrev pub is_sent : List Sent → ℕ → Bool
is_sent sent id = any (λ (s : Sent). s.event_id == id) sent

abbrev pub PublishedSent : List Sent → OutboxEvent → Type 0
PublishedSent sent e = is_some e.published_at ≡ true → is_sent sent e.id ≡ true

-- Every event of the table that is marked published was stored by the broker.
abbrev pub Delivered : Publisher → Type 0
Delivered st = All (PublishedSent st.sent) st.outbox

abbrev Inv : Publisher → Type 0
Inv st = Delivered st × All (λ i. is_sent st.sent i ≡ true) st.published_ids

module _ (s : Sent) (sent : List Sent) where
  sent_more : (i : ℕ) → is_sent sent i ≡ true → is_sent (s ∷ sent) i ≡ true
  sent_more i h = elim (Bool-cases (s.event_id == i)) [
    | inl same ↦ rw same refl
    | inr other ↦ rw other h
  ]

  events_more :
      (es : List OutboxEvent) → All (PublishedSent sent) es → All (PublishedSent (s ∷ sent)) es
  events_more [] h = tt
  events_more (e ∷ es) h = ((λ p. sent_more e.id (h.0 p)), events_more es h.1)

  ids_more :
      (is : List ℕ)
      → All (λ i. is_sent sent i ≡ true) is
      → All (λ i. is_sent (s ∷ sent) i ≡ true) is
  ids_more [] h = tt
  ids_more (i ∷ is) h = (sent_more i h.0, ids_more is h.1)

bump-Delivered :
    (sent : List Sent) (k : ℕ) (es : List OutboxEvent)
    → All (PublishedSent sent) es
    → All (PublishedSent sent) (update_where (λ (r : OutboxEvent). r.id == k) bump es)
bump-Delivered sent k [] h = tt
bump-Delivered sent k (e ∷ es) h = (
  elim (Bool-cases (e.id == k)) [ inl hit ↦ rw hit h.0 | inr miss ↦ rw miss h.0 ],
  bump-Delivered sent k es h.1,
)

note_published-Inv :
    (topic : String) (e : OutboxEvent) (st : Publisher) → Inv st → Inv (note_published topic e st)
note_published-Inv topic e st h = (
  events_more (message topic e) st.sent st.outbox h.0,
  (ground arith, ids_more (message topic e) st.sent st.published_ids h.1),
)

store-Inv : (topic : String) (e : OutboxEvent) (st : Publisher) → Inv st → Inv (store topic e st)
store-Inv topic e st h = (
  events_more (message topic e) st.sent st.outbox h.0,
  ids_more (message topic e) st.sent st.published_ids h.1,
)

note_failed-Inv : (e : OutboxEvent) (st : Publisher) → Inv st → Inv (note_failed e st)
note_failed-Inv e st h = (bump-Delivered st.sent e.id st.outbox h.0, h.1)

divert-Inv : (o : SendOutcome) (e : OutboxEvent) (st : Publisher) → Inv st → Inv (divert o e st)
divert-Inv acked e st h = note_published-Inv topic_dead_letter e st h
divert-Inv stored_unacked e st h = store-Inv topic_dead_letter e st h
divert-Inv not_stored e st h = h

publish-Inv : (o : SendOutcome) (e : OutboxEvent) (st : Publisher) → Inv st → Inv (publish o e st)
publish-Inv acked e st h = note_published-Inv (topic_for e.event_type) e st h
publish-Inv stored_unacked e st h =
    let topic = topic_for e.event_type in
    note_failed-Inv e (store topic e st) (store-Inv topic e st h)
publish-Inv not_stored e st h = note_failed-Inv e st h

process_rows-Inv :
    (broker : ℕ → SendOutcome) (rows : List OutboxEvent) (st : Publisher)
    → Inv st
    → Inv (process_rows broker rows st)
unfolding process_rows process_row
process_rows-Inv broker [] st h = h
process_rows-Inv broker (e ∷ rows) st h =
    process_rows-Inv broker rows (process_row broker e st)
      (elim (Bool-cases (leb max_publish_attempts e.publish_attempts)) [
        | inl spent ↦ rw spent (divert-Inv (broker e.id) e st h)
        | inr left ↦ rw left (publish-Inv (broker e.id) e st h)
      ])

ids_sent :
    (sent : List Sent) (is : List ℕ) (k : ℕ)
    → All (λ i. is_sent sent i ≡ true) is
    → any (λ i. i == k) is ≡ true
    → is_sent sent k ≡ true
ids_sent sent [] k h found = cc
ids_sent sent (i ∷ is) k h found = elim (Bool-cases (i == k)) [
  | inl same ↦ (let e : i ≡ k = ground arith in rw (← e) h.0)
  | inr other ↦ ids_sent sent is k h.1 (ground arith)
]

mark-Delivered :
    (now : ℕ) (sent : List Sent) (is : List ℕ) (es : List OutboxEvent)
    → All (λ i. is_sent sent i ≡ true) is
    → All (PublishedSent sent) es
    → All (PublishedSent sent) (mark_published now is es)
mark-Delivered now sent is [] hi h = tt
mark-Delivered now sent is (e ∷ es) hi h = (
  elim (Bool-cases (any (λ i. i == e.id) is)) [
    | inl hit ↦ rw hit (λ _. ids_sent sent is e.id hi hit)
    | inr miss ↦ rw miss h.0
  ],
  mark-Delivered now sent is es hi h.1,
)

-- A later state of the broker.
abbrev Grows : List Sent → List Sent → Type 0
Grows sent sent' = (i : ℕ) → is_sent sent i ≡ true → is_sent sent' i ≡ true

divert-Grows :
    (o : SendOutcome) (e : OutboxEvent) (st : Publisher) → Grows st.sent (divert o e st).sent
divert-Grows acked e st = sent_more (message topic_dead_letter e) st.sent
divert-Grows stored_unacked e st = sent_more (message topic_dead_letter e) st.sent
divert-Grows not_stored e st = λ i h. h

publish-Grows :
    (o : SendOutcome) (e : OutboxEvent) (st : Publisher) → Grows st.sent (publish o e st).sent
publish-Grows acked e st = sent_more (message (topic_for e.event_type) e) st.sent
publish-Grows stored_unacked e st = sent_more (message (topic_for e.event_type) e) st.sent
publish-Grows not_stored e st = λ i h. h

process_rows-Grows :
    (broker : ℕ → SendOutcome) (rows : List OutboxEvent) (st : Publisher)
    → Grows st.sent (process_rows broker rows st).sent
unfolding process_rows process_row
process_rows-Grows broker [] st i h = h
process_rows-Grows broker (e ∷ rows) st i h =
    process_rows-Grows broker rows (process_row broker e st) i
      (elim (Bool-cases (leb max_publish_attempts e.publish_attempts)) [
        | inl spent ↦ rw spent (divert-Grows (broker e.id) e st i h)
        | inr left ↦ rw left (publish-Grows (broker e.id) e st i h)
      ])

events_kept :
    (sent sent' : List Sent) (es : List OutboxEvent)
    → Grows sent sent'
    → All (PublishedSent sent) es
    → All (PublishedSent sent') es
events_kept sent sent' [] g h = tt
events_kept sent sent' (e ∷ es) g h = ((λ p. g e.id (h.0 p)), events_kept sent sent' es g h.1)

-- A batch keeps it true that every event marked published was stored by the broker, whatever the
-- broker answers, whatever rows are locked, and whether or not the transaction commits.
pub process_batch-Delivered :
    (now : ℕ) (locked : ℕ → Bool) (broker : ℕ → SendOutcome) (commits : Bool) (st : Publisher)
    → Delivered st
    → Delivered (process_batch now locked broker commits st).1
unfolding process_batch
process_batch-Delivered now locked broker true st h =
    let before : Publisher = record st { published_ids = [] } in
    let rows = select_batch locked st.outbox in
    let after = process_rows broker rows before in
    let v = process_rows-Inv broker rows before (h, tt) in
    mark-Delivered now after.sent after.published_ids after.outbox v.1 v.0
process_batch-Delivered now locked broker false st h =
    let before : Publisher = record st { published_ids = [] } in
    let rows = select_batch locked st.outbox in
    events_kept st.sent (process_rows broker rows before).sent st.outbox
      (process_rows-Grows broker rows before) h
