-- ===== src/Ids/Waiting.antt =====
-- When `generateId` of src/utils/idGenerator.ts returns.
use acbu_backend.Prelude.{
  ℕ, ◌≡◌, ◌<◌, ◌⊎◌, inl, inr, refl, ap, ◌+◌, some, List, [], ◌∷◌, ◌++◌, leb, ltb, true, false,
  arith, Bool-cases,
}
use acbu_backend.Ids.{
  Uuid, Generator, format_uuid, buffer, seq_max, fresh_counter, busy_wait, advance, issued,
  generate_id,
}

-- A reading above the last one ends the wait, with a reading left for the generator.
busy_wait-ends :
    (last t u : ℕ) (ts rest : List ℕ)
    → last < t
    → (v : ℕ) × (left : List ℕ) × (busy_wait last (ts ++ (t ∷ u ∷ rest)) ≡ some (v ∷ left))
unfolding busy_wait
busy_wait-ends last t u [] rest lt = (u, rest, ground arith)
busy_wait-ends last t u (s ∷ ts) rest lt =
    go ts (busy_wait-ends last t u ts rest lt) (Bool-cases (leb s last))
  where
    go :
        (ts : List ℕ)
        → (v : ℕ) × (left : List ℕ) × (busy_wait last (ts ++ (t ∷ u ∷ rest)) ≡ some (v ∷ left))
        → (leb s last ≡ true) ⊎ (leb s last ≡ false)
        → (v : ℕ) × (left : List ℕ) × (busy_wait last (s ∷ ts ++ (t ∷ u ∷ rest)) ≡ some (v ∷ left))
    go ts later (inl low) = rw low later
    go [] later (inr high) = (t, u ∷ rest, rw high refl)
    go (x ∷ xs) later (inr high) = (x, xs ++ (t ∷ u ∷ rest), rw high refl)

-- The counter moves on when the clock does.
advance-moves :
    (g : Generator) (seed now t u : ℕ) (ts rest : List ℕ)
    → g.last_ms < t
    → (g' : Generator) × (advance g seed now (ts ++ (t ∷ u ∷ rest)) ≡ some g')
unfolding advance
advance-moves g seed now t u ts rest lt = from_wait (busy_wait-ends g.last_ms t u ts rest lt)
  where
    from_wait :
        (v : ℕ) × (left : List ℕ) × (busy_wait g.last_ms (ts ++ (t ∷ u ∷ rest)) ≡ some (v ∷ left))
        → (g' : Generator) × (advance g seed now (ts ++ (t ∷ u ∷ rest)) ≡ some g')
    from_wait (v, left, eq) = elim (Bool-cases (ltb g.last_ms now)) [
      | inl later ↦ (fresh_counter seed now, rw later refl)
      | inr same ↦ elim (Bool-cases (ltb seq_max (g.seq_counter + 1))) [
        | inl full ↦ (fresh_counter seed v, rw (same, full, eq) refl)
        | inr room ↦
            (record { last_ms = g.last_ms; seq_counter = g.seq_counter + 1 }, rw (same, room) refl)
      ]
    ]

-- Once the clock has passed the generator's time, and is read once more, `generateId` has returned an
-- identifier: whatever the counter, and however often the clock was read before.
pub generate_id-returns :
    (g : Generator) (seed now t u : ℕ) (ts rest : List ℕ) (r : ℕ → ℕ)
    → g.last_ms < t
    → (id : Uuid) × (g' : Generator) × (generate_id g (now ∷ ts ++ (t ∷ u ∷ rest)) seed r
        ≡ some (id, g'))
unfolding generate_id
generate_id-returns g seed now t u ts rest r lt =
    from_state (advance-moves g seed now t u ts rest lt)
  where
    from_state :
        (g' : Generator) × (advance g seed now (ts ++ (t ∷ u ∷ rest)) ≡ some g')
        → (id : Uuid) × (g' : Generator) × (generate_id g (now ∷ ts ++ (t ∷ u ∷ rest)) seed r
            ≡ some (id, g'))
    from_state (g', eq) = (format_uuid (buffer now g'.seq_counter r), g', ap (issued now r) eq)
