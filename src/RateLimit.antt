-- ===== src/RateLimit.antt =====
-- The token bucket of backend/app/cache/rate_limit.py: the script that Redis runs as one atomic step,
-- and `acquire`. The numbers of Lua and Python are binary64 and are not code of the repository: they
-- are a parameter, with the law that integers below 2 ^ 53 and exact quotients are computed exactly.
-- No value of the script is negative: an elapsed time below 0 is set to 0.
pub mod Bounds
use livequiz_platform.Prelude.{
  ℕ, ◌+◌, ◌-◌, ◌*◌, ◌/◌, ◌^◌, ◌≤◌, ◌<◌, ◌≡◌, Bool, true, false, Option, none, some, ltb, leb,
  if◌then◌else◌,
}

pub record LuaNumbers : Type 1 where
  pub Number : Type 0
  pub of_int : ℕ → Number
  pub add : Number → Number → Number
  pub sub : Number → Number → Number
  pub mul : Number → Number → Number
  pub div : Number → Number → Number
  -- `a >= b`
  pub geb : Number → Number → Bool
  pub floor : Number → ℕ
  pub ceil : Number → ℕ
  pub add_int : (a b : ℕ) → a + b < 2 ^ 53 → add (of_int a) (of_int b) ≡ of_int (a + b)
  pub sub_int : (a b : ℕ) → a < 2 ^ 53 → b ≤ a → sub (of_int a) (of_int b) ≡ of_int (a - b)
  pub mul_int : (a b : ℕ) → a * b < 2 ^ 53 → mul (of_int a) (of_int b) ≡ of_int (a * b)
  pub div_int : (a b : ℕ) → a * b < 2 ^ 53 → 0 < b → div (of_int (a * b)) (of_int b) ≡ of_int a
  pub geb_int : (a b : ℕ) → a < 2 ^ 53 → b < 2 ^ 53 → geb (of_int a) (of_int b) ≡ leb b a
  pub ceil_quotient :
      (a b : ℕ) → a + b < 2 ^ 53 → 0 < b → ceil (div (of_int a) (of_int b)) ≡ (a + b - 1) / b

-- The hash at a key, with the time at which the key expires.
pub record Bucket (Number : Type 0) : Type 0 where
  pub tokens : Number
  pub ts_ms : ℕ
  pub expires_ms : ℕ

-- What `acquire` returns.
pub record Acquired : Type 0 where
  pub allowed : Bool
  pub remaining : ℕ
  pub retry_after_ms : ℕ

module _ (n : LuaNumbers) where
  open n use {Number, of_int, add, sub, mul, div, geb, floor, ceil}

  abbrev pub min_number : Number → Number → Number
  min_number a b = if geb b a then a else b

  -- The tokens in the bucket at `now_ms`. A clock that went back counts as no time.
  unfoldable pub refilled :
      (capacity : ℕ) → (refill_per_sec : Number) → (now_ms : ℕ) → Option (Bucket Number) → Number
  refilled capacity refill_per_sec now_ms none = of_int capacity
  refilled capacity refill_per_sec now_ms (some bucket) =
      min_number (of_int capacity) (
        add bucket.tokens (div (mul (of_int (now_ms - bucket.ts_ms)) refill_per_sec) (of_int 1000)))

  -- The answer and the tokens that are left.
  unfoldable pub spend : (refill_per_sec : Number) → (cost : ℕ) → Number → Acquired × Number
  spend refill_per_sec cost tokens =
      if geb tokens (of_int cost)
      then (
        record { allowed = true; remaining = floor (sub tokens (of_int cost)); retry_after_ms = 0 },
        sub tokens (of_int cost),
      )
      else (
        record {
          allowed = false;
          remaining = floor tokens;
          retry_after_ms = ceil (div (mul (sub (of_int cost) tokens) (of_int 1000)) refill_per_sec);
        },
        tokens,
      )

  abbrev pub ttl_ms : (capacity : ℕ) → (refill_per_sec : Number) → ℕ
  ttl_ms capacity refill_per_sec = ceil (div (of_int capacity) refill_per_sec) * 1000 + 1000

  abbrev pub unexpired : (redis_ms : ℕ) → Option (Bucket Number) → Option (Bucket Number)
  unexpired redis_ms none = none
  unexpired redis_ms (some bucket) = if ltb redis_ms bucket.expires_ms then some bucket else none

  -- `acquire`, with the clock of the caller and that of Redis.
  unfoldable pub acquire :
      (capacity : ℕ)
      → (refill_per_sec : Number) → (cost now_ms redis_ms : ℕ) → Option (Bucket Number)
      → Acquired × Bucket Number
  unfolding refilled spend
  acquire capacity refill_per_sec cost now_ms redis_ms bucket =
      let (answer, tokens) =
        spend refill_per_sec cost
          (refilled capacity refill_per_sec now_ms (unexpired redis_ms bucket)) in
      (
        answer,
        record {
          tokens = tokens;
          ts_ms = now_ms;
          expires_ms = redis_ms + ttl_ms capacity refill_per_sec;
        },
      )
