-- ===== src/Ids/Order.antt =====
-- The order of the identifiers of src/utils/idGenerator.ts.
use acbu_backend.Prelude.{
  ℕ, ◌+◌, ◌*◌, ◌/◌, ◌%◌, ◌≡◌, ◌<◌, ◌≤◌, ◌↔◌, ◌⊎◌, ◌∙◌, Option, none, some, take, List, inl, inr, [],
  ◌∷◌, ◌++◌, arith, ap,
}
use acbu_backend.Ids.{
  hex, hyphen, Uuid, Generator, seq_max, hex_text, format_uuid, uint16_bytes, uint32_bytes, buffer,
  fresh_counter, after_wait, busy_wait, advance, issued, generate_id,
}

-- The number whose hexadecimal digits the text has.
abbrev value_onto : ℕ → Uuid → ℕ
value_onto acc [] = acc
value_onto acc (hex d ∷ t) = value_onto (acc * 16 + d) t
value_onto acc (hyphen ∷ t) = value_onto acc t

-- The first 64 bits of an identifier. Identifiers are compared by them before any other bit.
abbrev pub time_and_counter : Uuid → ℕ
time_and_counter t = value_onto 0 (take 18 t)

uint16_digits :
    (acc n : ℕ) (t : Uuid)
    → value_onto acc (hex_text (uint16_bytes n) ++ t) ≡ value_onto (acc * 65536 + n) t
uint16_digits acc n t = ap (λ m. value_onto m t) (omega arith)

uint32_digits :
    (acc n : ℕ) (t : Uuid)
    → value_onto acc (hex_text (uint32_bytes n) ++ t) ≡ value_onto (acc * 4294967296 + n) t
uint32_digits acc n t = ap (λ m. value_onto m t) (omega arith)

-- The first 64 bits are the time, the version 7 and the counter.
pub time_and_counter-format :
    (now seq : ℕ) (rand_b : ℕ → ℕ)
    → time_and_counter (format_uuid (buffer now seq rand_b))
      ≡ now % 281474976710656 * 65536 + 28672 + seq % 4096
unfolding format_uuid buffer
time_and_counter-format now seq rand_b = omega arith

-- The clock is above the generator's, or equal to it with a number left in the counter.
unfoldable pub IsSteady : Generator → ℕ → Type 0
IsSteady g now = (g.last_ms < now) ⊎ ((now ≡ g.last_ms) × (g.seq_counter < seq_max))

-- The first 64 bits of the identifier that the generator stands for.
abbrev pub position : Generator → ℕ
position g = g.last_ms * 65536 + 28672 + g.seq_counter

issued_key :
    (now : ℕ) (r : ℕ → ℕ) (o : Option Generator) (id : Uuid) (g : Generator)
    → issued now r o ≡ some (id, g)
    → (time_and_counter id ≡ now % 281474976710656 * 65536 + 28672 + g.seq_counter % 4096)
      × (o ≡ some g)
issued_key now r none id g h = ground arith
issued_key now r (some g0) id g h =
    let same : g0 ≡ g = cc in
    let text : id ≡ format_uuid (buffer now g0.seq_counter r) = cc in
    (
      ap time_and_counter text
          ∙ time_and_counter-format now g0.seq_counter r
          ∙ ap (λ x. now % 281474976710656 * 65536 + 28672 + x.seq_counter % 4096) same,
      ap some same,
    )

advance-last :
    (g g' : Generator) (seed now : ℕ) (ts : List ℕ)
    → g.seq_counter ≤ seq_max
    → IsSteady g now
    → advance g seed now ts ≡ some g'
    → (g'.last_ms ≡ now) × (g'.seq_counter ≤ seq_max) × (position g < position g')
unfolding advance IsSteady fresh_counter
advance-last g g' seed now ts le s h = ground arith

-- A counter that stays in bounds.
after_wait-le :
    (seed : ℕ) (o : Option (List ℕ)) (g : Generator)
    → after_wait seed o ≡ some g
    → g.seq_counter ≤ seq_max
unfolding fresh_counter
after_wait-le seed none g h = ground arith
after_wait-le seed (some []) g h = ground arith
after_wait-le seed (some (t ∷ ts)) g h = ground arith

advance-le :
    (g g' : Generator) (seed now : ℕ) (ts : List ℕ)
    → advance g seed now ts ≡ some g'
    → g'.seq_counter ≤ seq_max
unfolding advance fresh_counter
advance-le g g' seed now ts h =
    let waited = after_wait-le seed (busy_wait g.last_ms ts) g' in ground arith

-- An unsteady call draws no number above the generator's.
advance-unsteady :
    (g g' : Generator) (seed now : ℕ) (ts : List ℕ)
    → g.seq_counter ≤ seq_max
    → advance g seed now ts ≡ some g'
    → now * 65536 + 28672 + g'.seq_counter ≤ position g ⊎ IsSteady g now
unfolding advance IsSteady fresh_counter
advance-unsteady g g' seed now ts le h = let small = advance-le g g' seed now ts h in ground arith

issued_by :
    (g g' : Generator) (id : Uuid) (now seed : ℕ) (ts : List ℕ) (r : ℕ → ℕ)
    → generate_id g (now ∷ ts) seed r ≡ some (id, g')
    → (time_and_counter id ≡ now % 281474976710656 * 65536 + 28672 + g'.seq_counter)
      × (advance g seed now ts ≡ some g')
unfolding generate_id
issued_by g g' id now seed ts r h =
    let key = issued_key now r (advance g seed now ts) id g' h in
    let small = advance-le g g' seed now ts key.1 in (omega (arith, key.0), key.1)

-- The time of a call is read back from the identifier that it returns, while times fit 48 bits. That
-- holds when the clock went back or the counter was full, too.
pub generate_id-time :
    (g g' : Generator) (id : Uuid) (now seed : ℕ) (ts : List ℕ) (r : ℕ → ℕ)
    → now < 281474976710656
    → generate_id g (now ∷ ts) seed r ≡ some (id, g')
    → time_and_counter id / 65536 ≡ now
generate_id-time g g' id now seed ts r fits h =
    let key = issued_by g g' id now seed ts r h in
    let small = advance-le g g' seed now ts key.1 in omega (arith, key.0)

-- Take a call whose time fits 48 bits, from a generator whose counter is within its 12 bits. The
-- first 64 bits of the identifier that it returns are above those that the generator stands for
-- exactly when the clock is above the generator's, or equal to it while the counter is not full. So
-- a call that waits for a full counter, or that sees the clock go back, returns an identifier that
-- is not above.
pub generate_id-above :
    (g g' : Generator) (id : Uuid) (now seed : ℕ) (ts : List ℕ) (r : ℕ → ℕ)
    → g.seq_counter ≤ seq_max
    → now < 281474976710656
    → generate_id g (now ∷ ts) seed r ≡ some (id, g')
    → (position g < time_and_counter id) ↔ IsSteady g now
generate_id-above g g' id now seed ts r le fits h = (only, above)
  where
    only : position g < time_and_counter id → IsSteady g now
    only up =
        let key = issued_by g g' id now seed ts r h in
        elim (advance-unsteady g g' seed now ts le key.1) [
          | inl low ↦ ground (arith, key.0)
          | inr s ↦ s
        ]

    above : IsSteady g now → position g < time_and_counter id
    above s =
        let key = issued_by g g' id now seed ts r h in
        let last = advance-last g g' seed now ts le s key.1 in omega (arith, key.0, last)

-- Every identifier of the list is below a number.
abbrev pub Below : ℕ → List Uuid → Type 0
Below n [] = Unit
Below n (id ∷ ids) = (time_and_counter id < n) × Below n ids

-- Every identifier of the list, the latest first, is above all that were returned before it.
abbrev pub IsDescending : List Uuid → Type 0
IsDescending [] = Unit
IsDescending (id ∷ ids) = Below (time_and_counter id) ids × IsDescending ids

-- What a process returns, the latest first, while its clock is steady.
pub data Run : Generator → List Uuid → Type 0 where
  started : Run (record { last_ms = 0; seq_counter = 0 }) []
  called :
      {g g' : Generator} {ids : List Uuid} {id : Uuid} (now seed : ℕ) (ts : List ℕ) (r : ℕ → ℕ)
      → Run g ids
      → IsSteady g now
      → now < 281474976710656
      → generate_id g (now ∷ ts) seed r ≡ some (id, g')
      → Run g' (id ∷ ids)

Below-up : (m n : ℕ) (ids : List Uuid) → m ≤ n → Below m ids → Below n ids
Below-up m n [] le b = b
Below-up m n (id ∷ ids) le b = (omega (arith, b.0), Below-up m n ids le b.1)

-- What holds of a run: the counter fits its bits, and the identifiers are in order and not above the
-- generator's position.
Run-holds :
    {g : Generator} {ids : List Uuid}
    → Run g ids
    → (g.seq_counter ≤ seq_max) × (Below (position g + 1) ids × IsDescending ids)
Run-holds started = (omega arith, (tt, tt))
Run-holds (called {g} {g'} {ids} {id} now seed ts r run s fits h) =
    let holds = Run-holds run in
    let key = issued_by g g' id now seed ts r h in
    let last = advance-last g g' seed now ts holds.0 s key.1 in
    let at : time_and_counter id ≡ position g' = omega (arith, key.0, last) in
    (
      last.1,
      (
        (
          omega (arith, at),
          Below-up (position g + 1) (position g' + 1) ids (omega (arith, last)) holds.1.0,
        ),
        (
          Below-up (position g + 1) (time_and_counter id) ids (omega (arith, at, last)) holds.1.0,
          holds.1.1,
        ),
      ),
    )

-- While the clock of a process never goes back, no call comes when the counter of its millisecond is
-- full, and times fit 48 bits, every identifier that the process returns is above all that it
-- returned before, by its first 64 bits.
pub Run-IsDescending : {g : Generator} {ids : List Uuid} → Run g ids → IsDescending ids
Run-IsDescending run = (Run-holds run).1.1
