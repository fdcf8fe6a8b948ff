-- ===== src/Stream/AtMostOnce.antt =====
-- However often an event is delivered, it has at most one row in `events_raw`.
use mathlib.Core.Path.{subst}
use livequiz_platform.Prelude.{
  ℕ, ◌+◌, ◌≤◌, ◌≡◌, refl, String, Bool, true, false, not, ◌&&◌, Option, none, some, List, [], ◌∷◌,
  ◌++◌, any, length, leb, str_eq, ◌==◌, if◌then◌else◌, arith, Bool-cases, inl, inr,
}
use livequiz_platform.Stream.{
  Buffer, ClickHouseClient, is_nil, drained, cleared, do_inserts, flush, flush_all, buffered,
  insert_many,
}
use livequiz_platform.Stream.Messages.{
  Envelope, Row, raw_row, answer_row, Worker, and_then, fact_row, fact_of, insert_fact,
  is_match_event, handle_raw, handle_answer, handle_match, dispatch, warm_cache, handle_first,
  is_seen, handle_message, events_raw_table, answer_events_table, current_schema_version,
}

abbrev pub is_raw_of : ℕ → Row → Bool
is_raw_of id (raw_row env) = env.event_id == id
is_raw_of id (answer_row _ _ _ _ _ _ _ _ _) = false

abbrev pub copies : ℕ → List Row → ℕ
copies id [] = 0
copies id (r ∷ rows) = (if is_raw_of id r then 1 else 0) + copies id rows

abbrev pub batch_copies : ℕ → List (String × List Row) → ℕ
batch_copies id [] = 0
batch_copies id ((table, rows) ∷ batches) = copies id rows + batch_copies id batches

abbrev pub buffer_copies : ℕ → List (Buffer Row) → ℕ
buffer_copies id [] = 0
buffer_copies id (b ∷ bs) = copies id b.rows + buffer_copies id bs

-- The raw rows of an event, buffered or stored.
abbrev pub raw_rows : ℕ → ClickHouseClient Row → ℕ
raw_rows id c = buffer_copies id c.buffers + batch_copies id c.stored

module _ (id : ℕ) where
  copies-append : (xs ys : List Row) → copies id (xs ++ ys) ≡ copies id xs + copies id ys
  copies-append [] ys = omega arith
  copies-append (x ∷ xs) ys = omega (arith, copies-append xs ys)

  buffered-copies :
      (now : ℕ) (table : String) (rows : List Row) (bs : List (Buffer Row))
      → buffer_copies id (buffered now table rows bs) ≡ copies id rows + buffer_copies id bs
  buffered-copies now table rows [] = refl
  buffered-copies now table rows (b ∷ bs) = elim (Bool-cases (str_eq b.table table)) [
    | inl e ↦ rw e (omega (arith, copies-append b.rows rows))
    | inr e ↦ rw e (omega (arith, buffered-copies now table rows bs))
  ]

  -- What a flush drains and what it leaves in the buffers.
  split_copies :
      (now : ℕ) (due : Buffer Row → Bool) (bs : List (Buffer Row))
      → batch_copies id (drained due bs) + buffer_copies id (cleared now due bs)
        ≡ buffer_copies id bs
  split_copies now due [] = refl
  split_copies now due (b ∷ bs) = elim (Bool-cases (not (is_nil b.rows) && due b)) [
    | inl e ↦ rw e (omega (arith, split_copies now due bs))
    | inr e ↦ rw e (omega (arith, split_copies now due bs))
  ]

  module _ (accepts : String → List Row → Bool) where
    do_inserts-copies :
        (batches stored : List (String × List Row))
        → batch_copies id (do_inserts accepts batches stored).1
          ≤ batch_copies id batches + batch_copies id stored
    unfolding do_inserts
    do_inserts-copies [] stored = omega arith
    do_inserts-copies ((table, rows) ∷ batches) stored = elim (Bool-cases (accepts table rows)) [
      | inl e ↦ rw e (omega (arith, do_inserts-copies batches ((table, rows) ∷ stored)))
      | inr e ↦ rw e (omega arith)
    ]

    pub flush-copies :
        (now : ℕ) (due : Buffer Row → Bool) (c : ClickHouseClient Row)
        → raw_rows id (flush now due accepts c).1 ≤ raw_rows id c
    unfolding flush
    flush-copies now due c =
        omega (
          arith,
          split_copies now due c.buffers,
          do_inserts-copies (drained due c.buffers) c.stored,
        )

    module _ (batch_rows now : ℕ) where
      insert_many-copies :
          (table : String) (rows : List Row) (c : ClickHouseClient Row)
          → raw_rows id (insert_many accepts batch_rows now table rows c).1
            ≤ copies id rows + raw_rows id c
      unfolding insert_many
      insert_many-copies table rows c = omega (
        arith,
        flush-copies now (λ b. str_eq b.table table && leb batch_rows (length b.rows))
            (record c { buffers = buffered now table rows c.buffers }),
        buffered-copies now table rows c.buffers,
      )

      -- The copies that an envelope of this event adds at most.
      abbrev pub own : Envelope → ℕ
      own env = if env.event_id == id then 1 else 0

      handle_raw-copies :
          (env : Envelope) (c : ClickHouseClient Row)
          → raw_rows id (handle_raw accepts batch_rows now env c).1 ≤ own env + raw_rows id c
      unfolding handle_raw
      handle_raw-copies env c =
          omega (arith, insert_many-copies events_raw_table (raw_row env ∷ []) c)

      abbrev NotRaw : Option Row → Type 0
      NotRaw none = Unit
      NotRaw (some r) = is_raw_of id r ≡ false

      fact_row-NotRaw : (env : Envelope) (m r p q : Option ℕ) → NotRaw (fact_row env m r p q)
      fact_row-NotRaw env none r p q = tt
      fact_row-NotRaw env (some m) none p q = tt
      fact_row-NotRaw env (some m) (some r) none q = tt
      fact_row-NotRaw env (some m) (some r) (some p) none = tt
      fact_row-NotRaw env (some m) (some r) (some p) (some q) = refl

      insert_fact-copies :
          (o : Option Row) (c : ClickHouseClient Row)
          → NotRaw o
          → raw_rows id (insert_fact accepts batch_rows now o c).1 ≤ raw_rows id c
      insert_fact-copies none c h = omega arith
      insert_fact-copies (some row) c h =
          let none_more : copies id (row ∷ []) ≡ 0 = ground arith in
          omega (arith, insert_many-copies answer_events_table (row ∷ []) c, none_more)

      and_then-copies :
          (n : ℕ) (r : Bool × ClickHouseClient Row)
          (next : ClickHouseClient Row → Bool × ClickHouseClient Row)
          → raw_rows id r.1 ≤ n
          → ((c : ClickHouseClient Row) → raw_rows id (next c).1 ≤ raw_rows id c)
          → raw_rows id (and_then r next).1 ≤ n
      and_then-copies n (false, c) next h k = h
      and_then-copies n (true, c) next h k = omega (arith, h, k c)

      warm_cache-copies :
          (env : Envelope) (c : ClickHouseClient Row)
          → raw_rows id (warm_cache accepts batch_rows now env c).1 ≤ raw_rows id c
      unfolding flush_all
      warm_cache-copies env c = elim (Bool-cases (str_eq env.event_type "MatchFinished")) [
        | inl e ↦ rw e (flush-copies now (λ _. true) c)
        | inr e ↦ rw e (omega arith)
      ]

      dispatch-copies :
          (env : Envelope) (c : ClickHouseClient Row)
          → raw_rows id (dispatch accepts batch_rows now env c).1 ≤ own env + raw_rows id c
      unfolding dispatch handle_match handle_answer flush_all
      dispatch-copies env c = elim (Bool-cases (is_match_event env.event_type)) [
        | inl e ↦ rw e (
            and_then-copies (own env + raw_rows id c) (handle_raw accepts batch_rows now env c)
              (warm_cache accepts batch_rows now env) (handle_raw-copies env c)
              (warm_cache-copies env))
        | inr e ↦ elim (Bool-cases (str_eq env.event_type "AnswerSubmitted")) [
          | inl f ↦
              rw (e, f)
                (and_then-copies (own env + raw_rows id c) (handle_raw accepts batch_rows now env c)
                  (insert_fact accepts batch_rows now (fact_of env)) (handle_raw-copies env c)
                  (λ d. insert_fact-copies (fact_of env) d (fact_row-NotRaw env _ _ _ _)))
          | inr f ↦ rw (e, f) (handle_raw-copies env c)
        ]
      ]

-- An event has at most one raw row, and none before it was seen.
abbrev pub AtMostOnce : Worker → Type 0
AtMostOnce w = (id : ℕ) → raw_rows id w.ch ≤ (if any (λ n. n == id) w.seen then 1 else 0)

module _ (accepts : String → List Row → Bool) (batch_rows now : ℕ) where
  handle_first-AtMostOnce :
      (env : Envelope) (w : Worker)
      → AtMostOnce w
      → is_seen accepts batch_rows now env.event_id w ≡ false
      → AtMostOnce (handle_first accepts batch_rows now env w).1
  handle_first-AtMostOnce env w h new id =
      let before = h id in
      let step = dispatch-copies id accepts batch_rows now env w.ch in
      elim (Bool-cases (env.event_id == id)) [
        | inl e ↦
            let same : env.event_id ≡ id = ground arith in
            let unseen : any (λ n. n == id) w.seen ≡ false =
              subst (λ i. any (λ n. n == i) w.seen ≡ false) same new in
            let nothing : raw_rows id w.ch ≤ 0 =
              subst (λ b. raw_rows id w.ch ≤ (if b then 1 else 0)) unseen before in
            let one : own id accepts batch_rows now env ≡ 1 = rw e refl in
            rw e (omega (arith, step, nothing, one))
        | inr e ↦
            let more : own id accepts batch_rows now env ≡ 0 = rw e refl in
            rw e (omega (arith, step, before, more))
      ]

  -- Handling a message keeps at most one raw row for each event, whatever the message, however
  -- Redis and ClickHouse answer, and however often it came before.
  pub handle_message-AtMostOnce :
      (redis_up : Bool) (m : Option Envelope) (w : Worker)
      → AtMostOnce w
      → AtMostOnce (handle_message accepts batch_rows now redis_up m w).1
  unfolding handle_message
  handle_message-AtMostOnce redis_up none w h = h
  handle_message-AtMostOnce redis_up (some env) w h =
      elim (Bool-cases (env.schema_version == current_schema_version)) [
        | inr e ↦ rw e h
        | inl e ↦ elim (Bool-cases redis_up) [
          | inr f ↦ rw (e, f) h
          | inl f ↦ elim (Bool-cases (is_seen accepts batch_rows now env.event_id w)) [
            | inl g ↦ rw (e, f, g) h
            | inr g ↦ rw (e, f, g) (handle_first-AtMostOnce env w h g)
          ]
        ]
      ]
