-- ===== src/Stream/Turns.antt =====
-- The turns of the consumer keep each event to one raw row.
use livequiz_platform.Prelude.{
  ℕ, ◌+◌, String, Bool, true, Option, none, some, List, [], ◌∷◌, leb, ◌-◌, arith, Bool-cases, inl,
  inr,
}
use livequiz_platform.Stream.{Buffer, flush, flush_all, maybe_flush}
use livequiz_platform.Stream.Messages.{Row, Worker, handle_message}
use livequiz_platform.Stream.AtMostOnce.{flush-copies, AtMostOnce, handle_message-AtMostOnce}
use livequiz_platform.Stream.Consumer.{
  Message, Consumer, run_partition, run_records, with_client, finish_turn, poll_turn,
}

module _ (accepts : String → List Row → Bool) (batch_rows now : ℕ) where
  run_partition-AtMostOnce :
      (safe : Option ℕ) (msgs : List Message) (w : Worker)
      → AtMostOnce w
      → AtMostOnce (run_partition accepts batch_rows now safe msgs w).worker
  unfolding run_partition
  run_partition-AtMostOnce safe [] w h = h
  run_partition-AtMostOnce safe (m ∷ msgs) w h =
      let kept = handle_message-AtMostOnce accepts batch_rows now m.redis_up m.value w h in
      elim (Bool-cases (handle_message accepts batch_rows now m.redis_up m.value w).0) [
        | inl e ↦ rw e (run_partition-AtMostOnce (some (m.offset + 1)) msgs _ kept)
        | inr e ↦ rw e kept
      ]

  run_records-AtMostOnce :
      (records : List (ℕ × List Message)) (w : Worker)
      → AtMostOnce w
      → AtMostOnce (run_records accepts batch_rows now records w).2
  unfolding run_records
  run_records-AtMostOnce [] w h = h
  run_records-AtMostOnce ((tp, msgs) ∷ records) w h =
      let kept = run_partition-AtMostOnce none msgs w h in
      elim (Bool-cases (run_partition accepts batch_rows now none msgs w).failed) [
        | inl e ↦ rw e kept
        | inr e ↦ rw e (run_records-AtMostOnce records _ kept)
      ]

  flushed-AtMostOnce :
      (due : Buffer Row → Bool) (w : Worker)
      → AtMostOnce w
      → AtMostOnce (with_client w (flush now due accepts w.ch).1)
  flushed-AtMostOnce due w h id = omega (arith, h id, flush-copies id accepts now due w.ch)

  finish_turn-AtMostOnce :
      (commits failed : Bool) (safe : List (ℕ × ℕ)) (w : Worker) (c : Consumer)
      → AtMostOnce w
      → AtMostOnce (finish_turn accepts batch_rows now commits (failed, safe, w) c).worker
  unfolding flush_all
  finish_turn-AtMostOnce commits failed safe w c h =
      elim (Bool-cases (flush now (λ _. true) accepts w.ch).0) [
        | inr e ↦ rw e (flushed-AtMostOnce (λ _. true) w h)
        | inl e ↦ elim (Bool-cases commits) [
          | inl f ↦ rw (e, f) (flushed-AtMostOnce (λ _. true) w h)
          | inr f ↦ rw (e, f) (flushed-AtMostOnce (λ _. true) w h)
        ]
      ]

  -- A turn of the consumer keeps at most one raw row for each event, whatever the poll brings,
  -- however the stores answer, and whether or not the offsets are committed.
  pub poll_turn-AtMostOnce :
      (interval : ℕ) (commits : Bool) (records : List (ℕ × List Message)) (c : Consumer)
      → AtMostOnce c.worker
      → AtMostOnce (poll_turn accepts batch_rows now interval commits records c).worker
  unfolding poll_turn maybe_flush
  poll_turn-AtMostOnce interval commits [] c h =
      flushed-AtMostOnce (λ b. leb interval (now - b.last_flush)) c.worker h
  poll_turn-AtMostOnce interval commits (r ∷ records) c h =
      let t = run_records accepts batch_rows now (r ∷ records) c.worker in
      finish_turn-AtMostOnce commits t.0 t.1 t.2 c (run_records-AtMostOnce (r ∷ records) c.worker h)
