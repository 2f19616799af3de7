-- ===== src/Witnesses/Identifiers.antt =====
-- The theorems about src/utils/idGenerator.ts at concrete calls.
use acbu_backend.Prelude.{ℕ, ◌≡◌, ◌<◌, ◌↔◌, refl, ◌++◌, some, inl, inr, [], ◌∷◌, arith}
use acbu_backend.Ids.{
  Uuid, Generator, format_uuid, buffer, busy_wait, fresh_counter, advance, generate_id,
}
use acbu_backend.Ids.Order.{
  time_and_counter, position, IsSteady, IsDescending, Run, started, called, generate_id-above,
  Run-IsDescending,
}
use acbu_backend.Ids.Waiting.{generate_id-returns}

abbrev bytes : ℕ → ℕ
bytes k = k

abbrev at_start : Generator
at_start = record { last_ms = 0; seq_counter = 0 }

-- A generator whose counter is full.
abbrev full : Generator
full = record { last_ms = 1700; seq_counter = 4095 }

abbrev seeded : Generator
seeded = record { last_ms = 1700; seq_counter = 77 }

abbrev followed : Generator
followed = record { last_ms = 1700; seq_counter = 78 }

abbrev waited : Generator
waited = record { last_ms = 1701; seq_counter = 5 }

abbrev first_id : Uuid
first_id = format_uuid (buffer 1700 77 bytes)

abbrev second_id : Uuid
second_id = format_uuid (buffer 1700 78 bytes)

abbrev late_id : Uuid
late_id = format_uuid (buffer 1700 5 bytes)

first_call : generate_id at_start (1700 ∷ []) 77 bytes ≡ some (first_id, seeded)
unfolding generate_id advance fresh_counter
first_call = refl

second_call : generate_id seeded (1700 ∷ []) 9 bytes ≡ some (second_id, followed)
unfolding generate_id advance
second_call = refl

-- The counter is full, and the wait sees 1700 once more before 1701.
late_call : generate_id full (1700 ∷ 1700 ∷ 1701 ∷ 1701 ∷ []) 5 bytes ≡ some (late_id, waited)
unfolding generate_id advance busy_wait fresh_counter
late_call = refl

two_calls : Run followed (second_id ∷ first_id ∷ [])
unfolding IsSteady
two_calls =
    called 1700 9 [] bytes
      (called 1700 77 [] bytes started (inl (omega arith)) (omega arith) first_call)
      (inr (refl, omega arith)) (omega arith) second_call

Run-IsDescending_example : IsDescending (second_id ∷ first_id ∷ [])
Run-IsDescending_example = Run-IsDescending two_calls

generate_id-above_example : (position full < time_and_counter late_id) ↔ IsSteady full 1700
generate_id-above_example =
    generate_id-above full waited late_id 1700 5 (1700 ∷ 1701 ∷ 1701 ∷ []) bytes (omega arith)
      (omega arith) late_call

generate_id-returns_example :
    (id : Uuid) × (g' : Generator) × (generate_id full
        (1700 ∷ (1700 ∷ []) ++ (1701 ∷ 1701 ∷ []))
        5
        bytes
      ≡ some (id, g'))
generate_id-returns_example =
    generate_id-returns full 5 1700 1701 1701 (1700 ∷ []) [] bytes (omega arith)
