-- ===== src/Outbox.antt =====
-- The outbox publisher, workers/outbox_publisher/app/main.py: `_process_batch` over the outbox table
-- and the broker. What the broker answers to a send is an argument, by event id. Backoff times are
-- milliseconds; doubling and the minimum are exact on the values that occur.
pub mod Topics
pub mod Delivery
pub mod Progress
use livequiz_platform.Prelude.{
  ℕ, ◌+◌, ◌*◌, min, String, Bool, true, false, not, ◌&&◌, Option, none, some, List, [], ◌∷◌, length,
  take, select, any, update_where, is_none, leb, ◌==◌, if◌then◌else◌,
}
use livequiz_platform.Prelude.Sort.{sort}
use livequiz_platform.Store.{OutboxEvent}
use Topics.{topic_for, topic_dead_letter}

abbrev pub poll_batch : ℕ
poll_batch = 100

abbrev pub max_publish_attempts : ℕ
max_publish_attempts = 10

abbrev pub backoff_base_ms : ℕ
backoff_base_ms = 250

abbrev pub backoff_max_ms : ℕ
backoff_max_ms = 30000

-- `send_and_wait`: acknowledged, or a KafkaError, with the message stored by the broker or not.
pub data SendOutcome : Type 0 where
  acked stored_unacked not_stored : SendOutcome

-- A message that the broker has stored.
pub record Sent : Type 0 where
  pub topic : String
  pub event_id : ℕ
  pub key : ℕ

-- The table, the backoff dictionary, the broker's messages with the newest first, and the list
-- `published_ids` of the batch.
pub record Publisher : Type 0 where
  pub outbox : List OutboxEvent
  pub backoff : ℕ → Option ℕ
  pub sent : List Sent
  pub published_ids : List ℕ

abbrev set_backoff : ℕ → Option ℕ → (ℕ → Option ℕ) → ℕ → Option ℕ
set_backoff id b f j = if id == j then b else f j

abbrev pub message : String → OutboxEvent → Sent
message topic e = record { topic = topic; event_id = e.id; key = e.aggregate_id }

-- What every send that is acknowledged does to the publisher.
abbrev pub note_published : String → OutboxEvent → Publisher → Publisher
note_published topic e st = record st {
  sent = message topic e ∷ st.sent;
  published_ids = e.id ∷ st.published_ids;
  backoff = set_backoff e.id none st.backoff;
}

abbrev pub store : String → OutboxEvent → Publisher → Publisher
store topic e st = record st { sent = message topic e ∷ st.sent }

abbrev pub backoff_or_base : Option ℕ → ℕ
backoff_or_base none = backoff_base_ms
backoff_or_base (some ms) = ms

abbrev pub bump : OutboxEvent → OutboxEvent
bump e = record e { publish_attempts = e.publish_attempts + 1 }

-- `INCREMENT_ATTEMPTS_SQL` and the doubled backoff.
abbrev pub note_failed : OutboxEvent → Publisher → Publisher
note_failed e st = record st {
  outbox = update_where (λ (r : OutboxEvent). r.id == e.id) bump st.outbox;
  backoff =
      set_backoff e.id (some (min (backoff_or_base (st.backoff e.id) * 2) backoff_max_ms))
        st.backoff;
}

-- A row that has used up its attempts goes to the dead letter topic.
abbrev pub divert : SendOutcome → OutboxEvent → Publisher → Publisher
divert acked e st = note_published topic_dead_letter e st
divert stored_unacked e st = store topic_dead_letter e st
divert not_stored e st = st

abbrev pub publish : SendOutcome → OutboxEvent → Publisher → Publisher
publish acked e st = note_published (topic_for e.event_type) e st
publish stored_unacked e st = note_failed e (store (topic_for e.event_type) e st)
publish not_stored e st = note_failed e st

unfoldable pub process_row : (ℕ → SendOutcome) → OutboxEvent → Publisher → Publisher
process_row broker e st =
    if leb max_publish_attempts e.publish_attempts
    then divert (broker e.id) e st
    else publish (broker e.id) e st

unfoldable pub process_rows : (ℕ → SendOutcome) → List OutboxEvent → Publisher → Publisher
unfolding process_row
process_rows broker [] st = st
process_rows broker (e ∷ rows) st = process_rows broker rows (process_row broker e st)

-- `SELECT_BATCH_SQL`: the oldest unpublished rows that no other publisher has locked.
unfoldable pub select_batch : (ℕ → Bool) → List OutboxEvent → List OutboxEvent
select_batch locked outbox = take poll_batch (
    sort (λ (a b : OutboxEvent). leb a.occurred_at b.occurred_at)
      (select (λ (e : OutboxEvent). is_none e.published_at && not (locked e.id)) outbox))

abbrev pub mark : ℕ → OutboxEvent → OutboxEvent
mark now e = record e { published_at = some now }

-- `MARK_PUBLISHED_SQL`; with no ids it is not sent and would change nothing.
abbrev pub mark_published : ℕ → List ℕ → List OutboxEvent → List OutboxEvent
mark_published now ids outbox =
    update_where (λ (e : OutboxEvent). any (λ i. i == e.id) ids) (mark now) outbox

-- The end of the transaction: if it does not commit, the table is as before, while the broker and
-- the dictionary are not.
abbrev pub finish_batch : ℕ → Bool → List OutboxEvent → Publisher → Publisher
finish_batch now true before st = record st {
  outbox = mark_published now st.published_ids st.outbox;
}
finish_batch now false before st = record st { outbox = before }

-- `_process_batch`, with the number of rows it published. `commits` tells whether the transaction
-- does.
unfoldable pub process_batch :
    ℕ → (ℕ → Bool) → (ℕ → SendOutcome) → (commits : Bool) → Publisher → ℕ × Publisher
unfolding process_rows select_batch
process_batch now locked broker commits st =
    let rows = select_batch locked st.outbox in
    let after = process_rows broker rows (record st { published_ids = [] }) in
    (length after.published_ids, finish_batch now commits st.outbox after)
