-- ===== src/Quizzes/TwoPhase.antt =====
-- The two statements of a shift are one plain renumbering of the table.
use livequiz_platform.Prelude.{
  ℕ, ◌+◌, ◌-◌, ◌≤◌, ◌<◌, ◌≡◌, refl, ap, sym, ◌∙◌, Bool, true, false, ◌&&◌, some, List, [], ◌∷◌, All,
  update_where, ◌==◌, if◌then◌else◌, arith, Bool-cases, inl, inr,
}
use mathlib.Core.Path.{subst}
use livequiz_platform.Prelude.Optional.{◌>>=◌}
use livequiz_platform.Store.{Question}
use livequiz_platform.Quizzes.Unique.{
  rewritten, Pairwise, Pairwise-update, Pairwise-map, update_each-all, BothClear, Clear,
}
use livequiz_platform.Quizzes.Positions.{
  shift_sentinel, same_position, place, set_positions, in_range, shifted_out,
}

-- Two rows differ in their id, and in their position if they are of one quiz.
abbrev pub Apart : Question → Question → Type 0
Apart a b = ((a.id == b.id) ≡ false) × (same_position a b ≡ false)

-- Every position is at most a number.
abbrev pub UpTo : ℕ → Question → Type 0
UpTo n q = q.position ≤ n

pub Apart-sym : (x y : Question) → Apart x y → Apart y x
Apart-sym x y h = ground arith

-- A row that is renumbered clashes with no other as the renumbering leaves that.
abbrev pub Settled : (Question → Bool) → (ℕ → ℕ) → Question → Question → Type 0
Settled p g x y = p x ≡ true → same_position (place g x) (rewritten p (place g) y) ≡ false

abbrev pub BothSettled : (Question → Bool) → (ℕ → ℕ) → Question → Question → Type 0
BothSettled p g x y = Settled p g x y × Settled p g y x

-- One renumbering of the rows of a quiz in a range, but for those that `keep` leaves out.
module _ (quiz_set_id : ℕ) (keep : Question → Bool)
    (stable : (f : ℕ → ℕ) (q : Question) → keep (place f q) ≡ keep q) (range : ℕ → Bool) (g : ℕ → ℕ)
    (n : ℕ) (below : n < shift_sentinel)
    (target : (a : ℕ) → a ≤ n → range a ≡ true → g a < shift_sentinel) where
  abbrev pub chosen : Question → Bool
  chosen q = keep q && in_range quiz_set_id range q

  abbrev moved_out : Question → Bool
  moved_out q = keep q && shifted_out quiz_set_id q

  abbrev out : ℕ → ℕ
  out k = k + shift_sentinel

  abbrev back : ℕ → ℕ
  back k = g (k - shift_sentinel)

  out-Clear :
      (x y : Question)
      → UpTo n x
      → UpTo n y
      → Apart x y
      → Clear same_position chosen (place out) x y
  out-Clear x y hx hy (i, s) e = (ground arith, ground arith)

  moved_out-chosen :
      (x : Question) → UpTo n x → moved_out (rewritten chosen (place out) x) ≡ chosen x
  moved_out-chosen x hx = ground (arith, stable out x)

  back-out : (x : Question) → place back (place out x) ≡ place g x
  back-out x = (ap (λ k. record x { position = g k }) (omega arith))

  back-chosen :
      (x : Question) → chosen x ≡ true → place back (rewritten chosen (place out) x) ≡ place g x
  back-chosen x e = rw e (back-out x)

  back_row :
      (x : Question)
      → UpTo n x
      → rewritten moved_out (place back) (rewritten chosen (place out) x)
        ≡ rewritten chosen (place g) x
  back_row x hx =
      rw (moved_out-chosen x hx)
        (elim (Bool-cases (chosen x)) [ inl e ↦ rw e (back-out x) | inr e ↦ rw e refl ])

  chosen_in : (x : Question) → chosen x ≡ true → range x.position ≡ true
  chosen_in x e = ground arith

  back_apart :
      (x y : Question)
      → UpTo n x
      → chosen x ≡ true
      → same_position (place g x) (rewritten chosen (place g) y) ≡ false
      → same_position (place g x) (rewritten chosen (place out) y) ≡ false
  back_apart x y hx e c = elim (Bool-cases (chosen y)) [
    | inl ey ↦ rw ey (ground (arith, target x.position hx (chosen_in x e)))
    | inr ey ↦ rw ey (sym (ap (λ b. same_position (place g x) (if b then place g y else y)) ey) ∙ c)
  ]

  back-Clear :
      (x y : Question)
      → UpTo n x
      → UpTo n y
      → Settled chosen g x y
      → Clear same_position moved_out
          (place back)
          (rewritten chosen (place out) x)
          (rewritten chosen (place out) y)
  back-Clear x y hx hy c e =
      let ex = sym (moved_out-chosen x hx) ∙ e in
      let other = rewritten chosen (place out) y in
      subst
        (λ z.
          (same_position z other ≡ false)
          × (same_position z (rewritten moved_out (place back) other) ≡ false))
        (sym (back-chosen x ex))
        (
          back_apart x y hx ex (c ex),
          subst (λ z. same_position (place g x) z ≡ false) (sym (back_row y hy)) (c ex),
        )

  back-All :
      (rows : List Question)
      → All (UpTo n) rows
      → update_where moved_out (place back) (update_where chosen (place out) rows)
        ≡ update_where chosen (place g) rows
  back-All [] h = refl
  back-All (x ∷ rows) h = rw (back_row x h.0, back-All rows h.1) refl

  -- Both statements succeed in whatever order they reach the rows, and do what one plain
  -- renumbering does.
  pub two_phase :
      (rows : List Question)
      → All (UpTo n) rows
      → Pairwise Apart rows
      → Pairwise (BothSettled chosen g) rows
      → (do rows ← set_positions chosen out rows; set_positions moved_out back rows)
        ≡ some (update_where chosen (place g) rows)
  two_phase rows h a c =
      rw
        (
          update_each-all same_position chosen (place out) rows (
              Pairwise-map rows
                (λ x y hx hy r. (out-Clear x y hx hy r, out-Clear y x hy hx (Apart-sym x y r))) h
                a),
          update_each-all same_position moved_out (place back)
              (update_where chosen (place out) rows)
              (Pairwise-update (BothClear same_position moved_out (place back)) chosen (place out)
                rows (λ x y hx hy r. (back-Clear x y hx hy r.0, back-Clear y x hy hx r.1)) h c),
        )
        (ap some (back-All rows h))
