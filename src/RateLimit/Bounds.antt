-- ===== src/RateLimit/Bounds.antt =====
-- How many calls the token bucket lets through.
use native.Mathlib.Nat.{mul_right_comm, add-mul, mul-le-mul_right, div-add-mod', mod-lt}
use livequiz_platform.Prelude.{
  ℕ, zero, suc, ◌+◌, ◌-◌, ◌*◌, ◌/◌, ◌%◌, ◌^◌, ◌≤◌, ◌<◌, ◌≡◌, refl, ap, sym, ◌∙◌, Bool, Option, none,
  some, List, [], ◌∷◌, map, length, min, ltb, leb, if◌then◌else◌, arith, Bool-cases, inl, inr,
}
use livequiz_platform.RateLimit.{
  LuaNumbers, Bucket, min_number, refilled, spend, ttl_ms, unexpired, acquire,
}

abbrev refill_of : (capacity refill k elapsed : ℕ) → ℕ
refill_of capacity refill k elapsed =
    if leb capacity (k + elapsed * refill) then capacity else k + elapsed * refill

-- The seconds of calls, from one second to another, each not before the one before it.
abbrev pub InOrder : (s last : ℕ) → List ℕ → Type 0
InOrder s last [] = s ≤ last
InOrder s last (t ∷ ts) = (s ≤ t) × InOrder t last ts

InOrder-le : (s last : ℕ) (ts : List ℕ) → InOrder s last ts → s ≤ last
InOrder-le s last [] h = h
InOrder-le s last (t ∷ ts) h = omega (arith, InOrder-le t last ts h.1)

abbrev pub ms_of : ℕ → ℕ
ms_of s = s * 1000

-- At least the tokens that are there, at most these and what is refilled.
abbrev pub Between : (refill tokens elapsed calls : ℕ) → ℕ → Type 0
Between refill tokens elapsed calls count =
    (min calls tokens ≤ count) × (count ≤ tokens + elapsed * refill)

module _ (n : LuaNumbers) where
  open n use {Number, of_int, mul, div, add_int, sub_int, mul_int, div_int, geb_int, ceil_quotient}

  -- The calls of cost 1 that are let through, at a list of times on which all clocks agree.
  unfoldable pub admitted : (capacity : ℕ) → (refill : Number) → List ℕ → Option (Bucket Number) → ℕ
  admitted capacity refill [] bucket = 0
  admitted capacity refill (now_ms ∷ later) bucket =
      let (answer, next) = acquire n capacity refill 1 now_ms now_ms bucket in
      (if answer.allowed then 1 else 0) + admitted capacity refill later (some next)

  -- A bucket that holds a whole number of tokens since a whole second.
  pub record Holds (capacity refill k s : ℕ) (b : Bucket Number) : Type 0 where
    pub tokens : b.tokens ≡ of_int k
    pub since : b.ts_ms ≡ s * 1000
    pub until : b.expires_ms ≡ s * 1000 + ttl_ms n capacity (of_int refill)
    pub within : k ≤ capacity

  -- Times in whole seconds up to a horizon, below which no number is rounded.
  module _ (capacity refill horizon : ℕ) (refills : 0 < refill)
      (small : capacity + refill + horizon * refill * 1000 < 2 ^ 53) where
    scaled : (s t : ℕ) → s ≤ t → t ≤ horizon → (t - s) * refill ≤ horizon * refill
    scaled s t h k = mul-le-mul_right refill (omega arith)

    min_of_int :
        (x : ℕ)
        → x ≤ capacity + horizon * refill
        → min_number n (of_int capacity) (of_int x)
          ≡ of_int (if leb capacity x then capacity else x)
    min_of_int x h = rw (geb_int x capacity (omega arith) (omega arith)) (ground arith)

    gained :
        (s t : ℕ)
        → s ≤ t
        → t ≤ horizon
        → div (mul (of_int (t * 1000 - s * 1000)) (of_int refill)) (of_int 1000)
          ≡ of_int ((t - s) * refill)
    gained s t h k =
        let span : (t * 1000 - s * 1000) * refill ≡ (t - s) * refill * 1000 =
          ap (λ (x : ℕ). x * refill) (omega arith) ∙ mul_right_comm (t - s) 1000 refill in
        let fits : (t - s) * refill ≤ horizon * refill = scaled s t h k in
        rw (mul_int (t * 1000 - s * 1000) refill (omega arith), span)
          (div_int ((t - s) * refill) 1000 (omega arith) (omega arith))

    refilled_live :
        (k s t : ℕ) (b : Bucket Number)
        → Holds capacity refill k s b
        → s ≤ t
        → t ≤ horizon
        → refilled n capacity (of_int refill) (t * 1000) (some b)
          ≡ of_int (refill_of capacity refill k (t - s))
    unfolding refilled
    refilled_live k s t b h o l =
        let fits : (t - s) * refill ≤ horizon * refill = scaled s t o l in
        rw
          (
            h.tokens,
            h.since,
            gained s t o l,
            add_int k ((t - s) * refill) (omega (arith, h.within)),
          )
          (min_of_int (k + (t - s) * refill) (omega (arith, h.within)))

    full :
        (k s t : ℕ)
        → s * 1000 + ((capacity + refill - 1) / refill * 1000 + 1000) ≤ t * 1000
        → refill_of capacity refill k (t - s) ≡ capacity
    full k s t h =
        let q : ℕ = (capacity + refill - 1) / refill in
        let whole : q * refill + (capacity + refill - 1) % refill ≡ capacity + refill - 1 =
          div-add-mod' (capacity + refill - 1) refill in
        let rest : (capacity + refill - 1) % refill < refill =
          mod-lt (capacity + refill - 1) refills in
        let waited : q * refill ≤ (t - s) * refill = mul-le-mul_right refill (omega arith) in
        ground arith

    expiry : ttl_ms n capacity (of_int refill) ≡ (capacity + refill - 1) / refill * 1000 + 1000
    expiry = ap (λ (x : ℕ). x * 1000 + 1000) (ceil_quotient capacity refill (omega arith) refills)

    available :
        (k s t : ℕ) (b : Bucket Number)
        → Holds capacity refill k s b
        → s ≤ t
        → t ≤ horizon
        → refilled n capacity (of_int refill) (t * 1000) (unexpired n (t * 1000) (some b))
          ≡ of_int (refill_of capacity refill k (t - s))
    unfolding refilled
    available k s t b h o l = elim (Bool-cases (ltb (t * 1000) b.expires_ms)) [
      | inl live ↦ rw live (refilled_live k s t b h o l)
      | inr gone ↦ rw gone (sym (ap of_int (full k s t (ground (arith, h.until, expiry)))))
    ]

    spend_int :
        (k : ℕ)
        → k ≤ capacity
        → ((spend n (of_int refill) 1 (of_int k)).0.allowed ≡ leb 1 k)
          × ((spend n (of_int refill) 1 (of_int k)).1 ≡ of_int (k - 1))
    unfolding spend
    spend_int zero h = rw (geb_int 0 1 (omega arith) (omega arith)) (refl, refl)
    spend_int (suc k) h =
        rw
          (
            geb_int (suc k) 1 (omega arith) (omega arith),
            sub_int (suc k) 1 (omega arith) (omega arith),
          )
          (ground arith, ground arith)

    acquire_lem :
        (t x : ℕ) (b : Option (Bucket Number))
        → refilled n capacity (of_int refill) (t * 1000) (unexpired n (t * 1000) b) ≡ of_int x
        → x ≤ capacity
        → ((acquire n capacity (of_int refill) 1 (t * 1000) (t * 1000) b).0.allowed ≡ leb 1 x)
          × Holds capacity refill
              (x - 1)
              t
              (acquire n capacity (of_int refill) 1 (t * 1000) (t * 1000) b).1
    unfolding acquire
    acquire_lem t x b e h =
        let (allowed, tokens) = spend_int x h in
        (
          ap (λ (v : Number). (spend n (of_int refill) 1 v).0.allowed) e ∙ allowed,
          record {
            tokens = ap (λ (v : Number). (spend n (of_int refill) 1 v).1) e ∙ tokens;
            since = refl;
            until = refl;
            within = omega arith;
          },
        )

    fresh :
        (t : ℕ)
        → refilled n capacity (of_int refill) (t * 1000) (unexpired n (t * 1000) none)
          ≡ of_int capacity
    unfolding refilled
    fresh t = refl

    elapsed_add :
        (s t last : ℕ)
        → s ≤ t
        → t ≤ last
        → (last - s) * refill ≡ (t - s) * refill + (last - t) * refill
    elapsed_add s t last h k =
        ap (λ (x : ℕ). x * refill) (omega arith) ∙ add-mul (t - s) (last - t) refill

    Between-step :
        (k x e f g calls count : ℕ) (allowed : Bool)
        → allowed ≡ leb 1 x
        → k ≤ x
        → x ≤ k + e * refill
        → g * refill ≡ e * refill + f * refill
        → Between refill (x - 1) f calls count
        → Between refill k g (suc calls) ((if allowed then 1 else 0) + count)
    Between-step k x e f g calls count allowed a h l sum b = ground arith

    admitted_from :
        (k s last : ℕ) (ts : List ℕ) (b : Bucket Number)
        → Holds capacity refill k s b
        → InOrder s last ts
        → last ≤ horizon
        → Between refill k
            (last - s)
            (length ts)
            (admitted capacity (of_int refill) (map ms_of ts) (some b))
    unfolding admitted
    admitted_from k s last [] b h o l = ground arith
    admitted_from k s last (t ∷ ts) b h o l =
        let later : t ≤ last = InOrder-le t last ts o.1 in
        let x : ℕ = refill_of capacity refill k (t - s) in
        let (allowed, next) =
          acquire_lem t x (some b) (available k s t b h o.0 (omega arith)) (ground arith) in
        Between-step k x (t - s) (last - t) (last - s) (length ts) _ _ allowed (ground arith)
          (ground arith) (elapsed_add s t last o.0 later)
          (admitted_from (x - 1) t last ts _ next o.1 l)

    -- At calls of cost 1 in whole seconds, on clocks that agree and never go back, a fresh bucket
    -- lets through at least as many calls as it has room for tokens, or all of them, and at most
    -- that number and the tokens that are refilled from the first call to the last. The refill is a
    -- whole number a second, and the numbers stay below 2 ^ 53.
    pub admitted-Between :
        (t last : ℕ) (ts : List ℕ)
        → InOrder t last ts
        → last ≤ horizon
        → Between refill capacity
            (last - t)
            (length (t ∷ ts))
            (admitted capacity (of_int refill) (map ms_of (t ∷ ts)) none)
    unfolding admitted
    admitted-Between t last ts o l =
        let (allowed, next) = acquire_lem t capacity none (fresh t) (omega arith) in
        Between-step capacity capacity 0 (last - t) (last - t) (length ts) _ _ allowed (omega arith)
          (omega arith) (omega arith) (admitted_from (capacity - 1) t last ts _ next o l)
