-- ===== src/Stream/Flush.antt =====
-- What a flush does to the rows: a good one stores all of them, a failed one drops those it drained.
use mathlib.Core.Path.{subst}
use livequiz_platform.Prelude.{
  ℕ, sym, ◌+◌, ◌⊎◌, ◌≡◌, refl, String, Bool, true, false, List, [], ◌∷◌, length, arith, inl, inr,
  Bool-cases,
}
use livequiz_platform.Stream.{
  Buffer, ClickHouseClient, is_nil, drained, cleared, do_inserts, flush, flush_all,
}

module _ {A : Type 0} where
  abbrev pub batch_rows : List (String × List A) → ℕ
  batch_rows [] = 0
  batch_rows ((table, rows) ∷ batches) = length rows + batch_rows batches

  abbrev pub pending_rows : List (Buffer A) → ℕ
  pending_rows [] = 0
  pending_rows (b ∷ bs) = length b.rows + pending_rows bs

  nil_length : (xs : List A) → is_nil xs ≡ true → length xs ≡ 0
  nil_length [] h = refl
  nil_length (x ∷ xs) h = cc

  drained_all : (bs : List (Buffer A)) → batch_rows (drained (λ _. true) bs) ≡ pending_rows bs
  drained_all [] = refl
  drained_all (b ∷ bs) = elim (Bool-cases (is_nil b.rows)) [
    | inl empty ↦ rw empty (omega (arith, nil_length b.rows empty, drained_all bs))
    | inr full ↦ rw full (omega (arith, drained_all bs))
  ]

  cleared_all : (now : ℕ) (bs : List (Buffer A)) → pending_rows (cleared now (λ _. true) bs) ≡ 0
  cleared_all now [] = refl
  cleared_all now (b ∷ bs) = elim (Bool-cases (is_nil b.rows)) [
    | inl empty ↦ rw empty (omega (arith, nil_length b.rows empty, cleared_all now bs))
    | inr full ↦ rw full (omega (arith, cleared_all now bs))
  ]

  -- The inserts raised, or this many rows are stored.
  abbrev StoresAll : ℕ → Bool × List (String × List A) → Type 0
  StoresAll n r = (r.0 ≡ false) ⊎ (batch_rows r.1 ≡ n)

  do_inserts_accepted :
      (accepts : String → List A → Bool) (table : String) (rows : List A)
      (batches stored : List (String × List A))
      → accepts table rows ≡ true
      → do_inserts accepts ((table, rows) ∷ batches) stored
        ≡ do_inserts accepts batches ((table, rows) ∷ stored)
  unfolding do_inserts
  do_inserts_accepted accepts table rows batches stored fine = rw fine refl

  do_inserts_refused :
      (accepts : String → List A → Bool) (table : String) (rows : List A)
      (batches stored : List (String × List A))
      → accepts table rows ≡ false
      → do_inserts accepts ((table, rows) ∷ batches) stored ≡ (false, stored)
  unfolding do_inserts
  do_inserts_refused accepts table rows batches stored refused = rw refused refl

  do_inserts-stores :
      (accepts : String → List A → Bool) (n : ℕ) (batches stored : List (String × List A))
      → batch_rows batches + batch_rows stored ≡ n
      → StoresAll n (do_inserts accepts batches stored)
  unfolding do_inserts
  do_inserts-stores accepts n [] stored e = inr (omega (arith, e))
  do_inserts-stores accepts n ((table, rows) ∷ batches) stored e =
      elim (Bool-cases (accepts table rows)) [
        | inl fine ↦
            subst (StoresAll n) (sym (do_inserts_accepted accepts table rows batches stored fine))
              (do_inserts-stores accepts n batches ((table, rows) ∷ stored) (omega (arith, e)))
        | inr refused ↦
            subst (StoresAll n) (sym (do_inserts_refused accepts table rows batches stored refused))
              (inl refl)
      ]

  -- After `flush_all` no row is buffered, whether it raised or not. If it did not raise, every row
  -- that was buffered is stored, on top of those that were.
  pub flush_all-stores :
      (accepts : String → List A → Bool) (now : ℕ) (c : ClickHouseClient A)
      → let r = flush_all accepts now c in
        (pending_rows r.1.buffers ≡ 0)
        × ((r.0 ≡ false) ⊎ (batch_rows r.1.stored ≡ pending_rows c.buffers + batch_rows c.stored))
  unfolding flush_all flush
  flush_all-stores accepts now c = (
    cleared_all now c.buffers,
    do_inserts-stores accepts (pending_rows c.buffers + batch_rows c.stored)
        (drained (λ _. true) c.buffers) c.stored (omega (arith, drained_all c.buffers)),
  )

  do_inserts_none :
      (batches stored : List (String × List A))
      → (do_inserts (λ _ _. false) batches stored).1 ≡ stored
  unfolding do_inserts
  do_inserts_none [] stored = refl
  do_inserts_none (b ∷ batches) stored = refl

  -- When ClickHouse refuses the inserts, `flush_all` leaves no row buffered and stores none: the
  -- rows that were buffered are lost.
  pub flush_all-lost :
      (now : ℕ) (c : ClickHouseClient A)
      → let r = flush_all (λ _ _. false) now c in
        (pending_rows r.1.buffers ≡ 0) × (r.1.stored ≡ c.stored)
  unfolding flush_all flush
  flush_all-lost now c =
      (cleared_all now c.buffers, do_inserts_none (drained (λ _. true) c.buffers) c.stored)
