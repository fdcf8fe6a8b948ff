-- ===== src/Stream/Lost.antt =====
-- What becomes of a message whose handling failed.
use mathlib.Core.Path.{subst}
use livequiz_platform.Prelude.{
  ℕ, ◌≡◌, refl, sym, String, Bool, true, false, some, List, ◌==◌, ==_refl, Bool-cases, inl, inr,
}
use livequiz_platform.Stream.Messages.{
  Envelope, Row, Worker, handle_first, is_seen, handle_message, current_schema_version,
}

module _ (accepts : String → List Row → Bool) (batch_rows now : ℕ) where
  skips_seen :
      (env : Envelope) (w : Worker)
      → (env.schema_version == current_schema_version) ≡ true
      → is_seen accepts batch_rows now env.event_id w ≡ true
      → handle_message accepts batch_rows now true (some env) w ≡ (true, w)
  unfolding handle_message
  skips_seen env w current e = rw (current, e) refl

  handles_new :
      (env : Envelope) (w : Worker)
      → (env.schema_version == current_schema_version) ≡ true
      → is_seen accepts batch_rows now env.event_id w ≡ false
      → handle_message accepts batch_rows now true (some env) w
        ≡ handle_first accepts batch_rows now env w
  unfolding handle_message
  handles_new env w current e = rw (current, e) refl

  seen_after :
      (env : Envelope) (w : Worker)
      → is_seen accepts batch_rows now env.event_id (handle_first accepts batch_rows now env w).1
        ≡ true
  seen_after env w = rw (==_refl env.event_id) refl

  -- After an event came to the worker, with Redis up, the next delivery of it is skipped and its
  -- offset may be committed, also when the handling of the first one raised.
  pub handle_message_retry :
      (env : Envelope) (w : Worker)
      → (env.schema_version == current_schema_version) ≡ true
      → let after = (handle_message accepts batch_rows now true (some env) w).1 in
        handle_message accepts batch_rows now true (some env) after ≡ (true, after)
  handle_message_retry env w current =
      elim (Bool-cases (is_seen accepts batch_rows now env.event_id w)) [
        | inl e ↦
            let eq = skips_seen env w current e in
            subst
              (λ (r : Bool × Worker).
                handle_message accepts batch_rows now true (some env) r.1 ≡ (true, r.1))
              (sym eq) eq
        | inr e ↦
            subst
              (λ (r : Bool × Worker).
                handle_message accepts batch_rows now true (some env) r.1 ≡ (true, r.1))
              (sym (handles_new env w current e))
              (skips_seen env (handle_first accepts batch_rows now env w).1 current
                (seen_after env w))
      ]
