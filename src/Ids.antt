-- ===== src/Ids.antt =====
-- The identifiers of rows: src/utils/idGenerator.ts.
--
-- A call takes the readings of `Date.now()` that it sees in their order, the sixteen random bits of
-- a fresh counter and the ten random bytes. The masks of the source are remainders, and its
-- disjunctions add, since the bits that they join are disjoint.
pub mod Order
pub mod Waiting
use acbu_backend.Prelude.{
  ℕ, suc, ◌+◌, ◌/◌, ◌%◌, Option, none, some, List, [], ◌∷◌, ◌++◌, ltb, leb, take, drop,
  if◌then◌else◌,
}

-- A character of an identifier.
pub data Symbol : Type 0 where
  hex : ℕ → Symbol
  hyphen : Symbol

abbrev pub Uuid : Type 0
Uuid = List Symbol

-- `lastMs` and `seqCounter`
pub record Generator : Type 0 where
  pub last_ms : ℕ
  pub seq_counter : ℕ

abbrev pub seq_max : ℕ
seq_max = 4095

-- `buf.toString("hex")`
abbrev pub hex_text : List ℕ → Uuid
hex_text [] = []
hex_text (b ∷ bs) = hex (b / 16) ∷ hex (b % 16) ∷ hex_text bs

-- `formatUuid`
unfoldable pub format_uuid : List ℕ → Uuid
format_uuid buf =
    let text : Uuid = hex_text buf in
    take 8 text
    ++ (hyphen ∷ take 4 (drop 8 text))
    ++ (hyphen ∷ take 4 (drop 12 text))
    ++ (hyphen ∷ take 4 (drop 16 text))
    ++ (hyphen ∷ drop 20 text)

-- `writeUInt16BE` and `writeUInt32BE`
abbrev pub uint16_bytes : ℕ → List ℕ
uint16_bytes n = n / 256 ∷ n % 256 ∷ []

abbrev pub uint32_bytes : ℕ → List ℕ
uint32_bytes n = n / 16777216 ∷ n / 65536 % 256 ∷ n / 256 % 256 ∷ n % 256 ∷ []

-- The bits of the variant, and of version 4.
abbrev variant : ℕ → ℕ
variant b = b % 64 + 128

abbrev versioned : ℕ → ℕ
versioned b = b % 16 + 64

-- Bytes 8 to 15, under the variant bits.
abbrev rand_bytes : (ℕ → ℕ) → List ℕ
rand_bytes r = variant (r 0) ∷ r 1 ∷ r 2 ∷ r 3 ∷ r 4 ∷ r 5 ∷ r 6 ∷ r 7 ∷ []

-- The sixteen bytes that `generateId` builds.
unfoldable pub buffer : ℕ → ℕ → (ℕ → ℕ) → List ℕ
buffer now_ms seq_counter rand_b =
    uint32_bytes (now_ms / 65536 % 4294967296)
    ++ uint16_bytes (now_ms % 65536)
    ++ uint16_bytes (28672 + seq_counter % 4096)
    ++ rand_bytes rand_b

-- The wait for a reading above `last_ms`: the readings after that one.
unfoldable pub busy_wait : ℕ → List ℕ → Option (List ℕ)
busy_wait last_ms [] = none
busy_wait last_ms (t ∷ readings) =
    let rest = busy_wait last_ms readings in if leb t last_ms then rest else some readings

unfoldable pub fresh_counter : ℕ → ℕ → Generator
fresh_counter seed ms = record { last_ms = ms; seq_counter = seed % 4096 }

abbrev pub after_wait : ℕ → Option (List ℕ) → Option Generator
after_wait seed none = none
after_wait seed (some []) = none
after_wait seed (some (t ∷ readings)) = some (fresh_counter seed t)

-- The counter's part of `generateId`.
unfoldable pub advance : Generator → ℕ → ℕ → List ℕ → Option Generator
advance g seed now_ms readings =
    if ltb g.last_ms now_ms
    then some (fresh_counter seed now_ms)
    else if ltb seq_max (g.seq_counter + 1)
    then after_wait seed (busy_wait g.last_ms readings)
    else some (record { last_ms = g.last_ms; seq_counter = g.seq_counter + 1 })

abbrev pub issued : ℕ → (ℕ → ℕ) → Option Generator → Option (Uuid × Generator)
issued now_ms rand_b none = none
issued now_ms rand_b (some g) = some (format_uuid (buffer now_ms g.seq_counter rand_b), g)

-- `generateId`, which returns nothing where the readings end before it is done.
unfoldable pub generate_id : Generator → List ℕ → ℕ → (ℕ → ℕ) → Option (Uuid × Generator)
generate_id g [] seed rand_b = none
generate_id g (now_ms ∷ readings) seed rand_b =
    issued now_ms rand_b (advance g seed now_ms readings)

-- `generateCorrelationId`, of sixteen random bytes.
unfoldable pub generate_correlation_id : (ℕ → ℕ) → Uuid
generate_correlation_id b = format_uuid (
    b 0
    ∷ b 1
    ∷ b 2
    ∷ b 3
    ∷ b 4
    ∷ b 5
    ∷ versioned (b 6)
    ∷ b 7
    ∷ variant (b 8)
    ∷ b 9
    ∷ b 10
    ∷ b 11
    ∷ b 12
    ∷ b 13
    ∷ b 14
    ∷ b 15
    ∷ [])
