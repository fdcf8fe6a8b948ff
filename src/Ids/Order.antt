-- ===== src/Ids/Order.antt =====
-- What the calls of `next_id` on one generator and on several add up to: strictly growing ids, and
-- no id issued twice.
use mathlib.Core.Path.{subst}
use livequiz_platform.Prelude.{
  ℕ, suc, ◌/◌, ◌%◌, ◌^◌, ◌≤◌, ◌<◌, ◌≡◌, ◌≢◌, refl, ap, sym, ◌∙◌, true, Option, none, some, List, [],
  ◌∷◌, ◌++◌, All, arith, ltb, ◌==◌, any, inl, inr, Bool-cases, Option-cases, leb,
}
use livequiz_platform.Ids.{
  SnowflakeGenerator, IdResult, issued, clock_moved_backwards, still_waiting, max_worker_id,
  sequence_mask, compose, decode, wait_until_next_ms, next_id, next_in_ms, next_after,
  new_generator,
}
use livequiz_platform.Ids.Layout.{decode-compose}

abbrev NotBefore : ℕ → Option ℕ → Type 0
NotBefore epoch_ms none = Unit
NotBefore epoch_ms (some l) = epoch_ms ≤ l

-- The generator's fields are in range and its last reading is not before its epoch.
pub record IsValid (g : SnowflakeGenerator) : Type 0 where
  pub worker : g.worker_id ≤ max_worker_id
  pub small : g.sequence ≤ sequence_mask
  pub past : NotBefore g.epoch_ms g.last_ms

-- The least id that the generator may still issue: one more than the last.
abbrev floor_of : SnowflakeGenerator → Option ℕ → ℕ
floor_of g none = 0
floor_of g (some l) = suc (compose g.epoch_ms g.worker_id l g.sequence)

abbrev pub floor_id : SnowflakeGenerator → ℕ
floor_id g = floor_of g g.last_ms

pub wait_until_next_ms-lt :
    (last_ms : ℕ) (readings : List ℕ) {now : ℕ}
    → wait_until_next_ms last_ms readings ≡ some now
    → last_ms < now
unfolding wait_until_next_ms
wait_until_next_ms-lt l [] h = cc
wait_until_next_ms-lt l (r ∷ rs) {now} h = ground (arith, wait_until_next_ms-lt l rs {now = now})

-- The readings up to the first that is later than `last_ms`, which is `now`, and those after it.
pub record FirstLater (last_ms : ℕ) (readings : List ℕ) (now : ℕ) : Type 0 where
  pub before : List ℕ
  pub after : List ℕ
  pub split : readings ≡ before ++ now ∷ after
  pub early : All (λ r. r ≤ last_ms) before
  pub later : last_ms < now

FirstLater-cons :
    (last_ms r : ℕ) (readings : List ℕ) (now : ℕ)
    → r ≤ last_ms
    → FirstLater last_ms readings now
    → FirstLater last_ms (r ∷ readings) now
FirstLater-cons last_ms r readings now h f = record {
  before = r ∷ f.before;
  after = f.after;
  split = ap (◌∷◌ r) f.split;
  early = (h, f.early);
  later = f.later;
}

-- If one of the answers of the clock is later than the last millisecond, the wait of `next_id` ends,
-- with the first such answer: all the answers before it are not later.
pub wait_until_next_ms-total :
    (last_ms : ℕ) (readings : List ℕ)
    → any (λ r. ltb last_ms r) readings ≡ true
    → (now : ℕ) × (wait_until_next_ms last_ms readings ≡ some now) × FirstLater last_ms readings now
unfolding wait_until_next_ms
wait_until_next_ms-total l [] h = absurd (cc)
wait_until_next_ms-total l (r ∷ rs) h = elim (Bool-cases (leb r l)) [
  | inl early ↦
      (let (now, found, first) = wait_until_next_ms-total l rs (ground arith) in
        (now, rw early found, FirstLater-cons l r rs now (ground arith) first))
  | inr late ↦ (
    r,
    rw late refl,
    record { before = []; after = rs; split = refl; early = tt; later = ground arith },
  )
]

-- What a call on `g` has done, by how it ended: an id is at or past the least one allowed, becomes
-- the last one, and keeps the generator valid; a clock that moved backwards changes nothing.
abbrev pub Issues : SnowflakeGenerator → SnowflakeGenerator × IdResult → Type 0
Issues g (g', issued id) =
    IsValid g'
    × (floor_id g ≤ id)
    × (floor_id g' ≡ suc id)
    × (g'.worker_id ≡ g.worker_id)
    × (g'.epoch_ms ≡ g.epoch_ms)
Issues g (g', clock_moved_backwards delta) = (g' ≡ g) × (0 < delta)
Issues g (g', still_waiting) = Unit

module _ (g : SnowflakeGenerator) (v : IsValid g) where
  -- Within one millisecond: the next sequence number, or a wait when it wraps.
  next_in_ms-Issues :
      (l now : ℕ) (readings : List ℕ)
      → g.last_ms ≡ some l
      → now ≡ l
      → Issues g (next_in_ms g l now readings)
  unfolding compose
  next_in_ms-Issues l now readings e same = elim (Option-cases (wait_until_next_ms l readings)) [
    | inl waiting ↦ rw e (ground arith)
    | inr (m, later) ↦ rw e (ground (arith, wait_until_next_ms-lt l readings later))
  ]

  next_after-Issues :
      (last : Option ℕ) (now : ℕ) (readings : List ℕ)
      → g.last_ms ≡ last
      → g.epoch_ms ≤ now
      → Issues g (next_after g last now readings)
  unfolding compose
  next_after-Issues none now readings e past = rw e (ground arith)
  next_after-Issues (some l) now readings e past = elim (Bool-cases (now == l)) [
    | inl same ↦ ground (arith, next_in_ms-Issues l now readings e)
    | inr other ↦ rw e (ground arith)
  ]

-- One call of `next_id` on a valid generator, with a clock not before its epoch: an issued id is at
-- or past every id issued before and is the last one from then on, and the generator stays valid,
-- with its worker and epoch; a clock that moved backwards changes nothing.
pub next_id-Issues :
    (g : SnowflakeGenerator) (now : ℕ) (readings : List ℕ)
    → IsValid g
    → g.epoch_ms ≤ now
    → Issues g (next_id g now readings)
unfolding next_id
next_id-Issues g now readings v past = next_after-Issues g v g.last_ms now readings refl past

-- What a caller collects: a call that raises is followed by the next one; one that still waits
-- holds the lock, so none follows it.
abbrev pub collect : IdResult → List ℕ → List ℕ
collect (issued id) rest = id ∷ rest
collect (clock_moved_backwards delta) rest = rest
collect still_waiting rest = []

-- Successive calls, each with what the clock answers to it: the ids issued.
pub run_ids : SnowflakeGenerator → List (ℕ × List ℕ) → List ℕ
run_ids g [] = []
run_ids g ((now, readings) ∷ calls) =
    let (g', r) = next_id g now readings in collect r (run_ids g' calls)

abbrev pub IsIncreasing : ℕ → List ℕ → Type 0
IsIncreasing low [] = Unit
IsIncreasing low (x ∷ xs) = (low ≤ x) × IsIncreasing (suc x) xs

abbrev pub NotBeforeEpoch : ℕ → List (ℕ × List ℕ) → Type 0
NotBeforeEpoch epoch_ms [] = Unit
NotBeforeEpoch epoch_ms ((now, readings) ∷ calls) = (epoch_ms ≤ now) × NotBeforeEpoch epoch_ms calls

collect-IsIncreasing :
    (g g' : SnowflakeGenerator) (r : IdResult) (rest : List ℕ)
    → IsValid g
    → Issues g (g', r)
    → (IsValid g' → g'.epoch_ms ≡ g.epoch_ms → IsIncreasing (floor_id g') rest)
    → IsIncreasing (floor_id g) (collect r rest)
collect-IsIncreasing g g' (issued id) rest v (v', low, top, _, epoch) ih =
    (low, rw (← top) (ih v' epoch))
collect-IsIncreasing g g' (clock_moved_backwards d) rest v (same, _) ih =
    rw same at (ih (rw same v) (ap (λ (x : SnowflakeGenerator). x.epoch_ms) same))
collect-IsIncreasing g g' still_waiting rest v i ih = tt

-- However often a valid generator is called, the ids are strictly increasing, so none is repeated,
-- while no call's reading of the clock is before the epoch.
pub run_ids-IsIncreasing :
    (g : SnowflakeGenerator) (calls : List (ℕ × List ℕ))
    → IsValid g
    → NotBeforeEpoch g.epoch_ms calls
    → IsIncreasing (floor_id g) (run_ids g calls)
unfolding run_ids
run_ids-IsIncreasing g [] v past = tt
run_ids-IsIncreasing g ((now, readings) ∷ calls) v past =
    let (g', r) = next_id g now readings in
    collect-IsIncreasing g g' r (run_ids g' calls) v (next_id-Issues g now readings v past.0)
      λ v' epoch. run_ids-IsIncreasing g' calls v' (rw epoch past.1)

decode_last :
    (g g' : SnowflakeGenerator) {id : ℕ} (last : Option ℕ)
    → g'.last_ms ≡ last
    → Issues g (g', issued id)
    → (l : ℕ) × (g'.last_ms ≡ some l) × (decode g id ≡ (l, g.worker_id, g'.sequence))
decode_last g g' {id} none e (v, _, top, _, _) =
    let top' : 0 ≡ suc id = subst (λ o. floor_of g' o ≡ suc id) e top in absurd (omega arith)
decode_last g g' {id} (some l) e (v, low, top, worker, epoch) =
    let top' : suc (compose g'.epoch_ms g'.worker_id l g'.sequence) ≡ suc id =
      subst (λ o. floor_of g' o ≡ suc id) e top in
    let past : g'.epoch_ms ≤ l = subst (NotBefore g'.epoch_ms) e v.past in
    (l, e, ground (arith, decode-compose g l g'.sequence))

-- Decoding an issued id gives back the millisecond that the generator recorded, its worker and the
-- sequence number that it recorded.
pub decode-next_id :
    (g : SnowflakeGenerator) (now : ℕ) (readings : List ℕ) {id : ℕ}
    → IsValid g
    → g.epoch_ms ≤ now
    → (next_id g now readings).1 ≡ issued id
    → let g' = (next_id g now readings).0 in
      (l : ℕ) × (g'.last_ms ≡ some l) × (decode g id ≡ (l, g.worker_id, g'.sequence))
decode-next_id g now readings {id} v past h =
    let (g', r) = next_id g now readings in
    decode_last g g' g'.last_ms refl
      (subst (λ r. Issues g (g', r)) h (next_id-Issues g now readings v past))

-- Generators with different worker ids never issue the same id, whatever their clocks answer.
pub next_id_workers_ne :
    (g h : SnowflakeGenerator) (now now' : ℕ) (readings readings' : List ℕ) {id id' : ℕ}
    → IsValid g
    → IsValid h
    → g.epoch_ms ≤ now
    → h.epoch_ms ≤ now'
    → g.worker_id ≢ h.worker_id
    → (next_id g now readings).1 ≡ issued id
    → (next_id h now' readings').1 ≡ issued id'
    → id ≢ id'
unfolding decode
next_id_workers_ne g h now now' rs rs' vg vh pg ph ne eg eh same =
    let (l, _, p) = decode-next_id g now rs vg pg eg in
    let (m, _, q) = decode-next_id h now' rs' vh ph eh in
    ne (sym (ap (λ t. t.1) p) ∙ ap (λ (x : ℕ). x / 2 ^ 12 % 2 ^ 10) same ∙ ap (λ t. t.1) q)

-- A worker id up to 1023 gives a valid generator that may issue any id; a larger one is refused.
pub new_generator-IsValid :
    (worker_id epoch_ms : ℕ)
    → (worker_id ≤ max_worker_id
        → (g : SnowflakeGenerator) × (new_generator worker_id epoch_ms ≡ some g)
          × IsValid g
          × (floor_id g ≡ 0))
      × (max_worker_id < worker_id → new_generator worker_id epoch_ms ≡ none)
unfolding new_generator
new_generator-IsValid worker_id epoch_ms = (
  (λ fits. (
    record { worker_id = worker_id; epoch_ms = epoch_ms; last_ms = none; sequence = 0 },
    ground arith,
    record { worker = fits; small = omega arith; past = tt },
    refl,
  )),
  (λ large. ground arith),
)
