-- ===== src/Recipient.antt =====
-- Who a payment goes to: src/services/recipient/recipientResolver.ts, and `resolveRecipientAddress` of
-- src/services/transfer/transferService.ts. A query is what `normalizeRecipientQuery` makes of the text;
-- names, phones, addresses and ids are only compared, so they are numbers. Of the result, the display
-- name and the masked contacts are left out: they are texts for a screen.
pub mod Privacy
use acbu_backend.Prelude.{
  ℕ, Bool, true, false, not, Option, none, some, List, [], ◌∷◌, ◌==◌, ◌&&◌, if◌then◌else◌, any,
}

-- `RecipientQuery`, or a raw address.
pub data Query : Type 0 where
  username phone email address : ℕ → Query

-- The columns of `users` that the resolver selects.
pub record Profile : Type 0 where
  pub id : ℕ
  pub username : Option ℕ
  pub phone_e164 : Option ℕ
  pub email : Option ℕ
  pub privacy_hide_from_search : Bool

-- A row of `user_contacts`.
pub record Contact : Type 0 where
  pub user_id : ℕ
  pub contact_user_id : ℕ

pub record Directory : Type 0 where
  pub profiles : List Profile
  pub contacts : List Contact

-- `===` with a column that may be null.
abbrev pub is_value : ℕ → Option ℕ → Bool
is_value v none = false
is_value v (some w) = w == v

-- The `where` of the query.
abbrev pub matches : Query → Profile → Bool
matches (username v) p = is_value v p.username
matches (phone v) p = is_value v p.phone_e164
matches (email v) p = is_value v p.email
matches (address v) p = false

-- `prisma.user.findFirst`
abbrev pub find_profile : Query → List Profile → Option Profile
find_profile q [] = none
find_profile q (p ∷ ps) = let rest = find_profile q ps in if matches q p then some p else rest

-- `prisma.userContact.findFirst`
abbrev pub is_contact : ℕ → Option ℕ → List Contact → Bool
is_contact user_id none cs = false
is_contact user_id (some caller) cs =
    any (λ c. c.user_id == user_id && c.contact_user_id == caller) cs

-- The row that the resolver shows, unless its owner hides it from the caller.
abbrev pub shown_to : Option ℕ → List Contact → Profile → Option ℕ
shown_to caller cs p =
    if p.privacy_hide_from_search && not (is_value p.id caller) && not (is_contact p.id caller cs)
    then none
    else some p.id

-- `resolveRecipient`, of whose result the id is kept.
unfoldable pub resolve_recipient : Directory → Query → Option ℕ → Option ℕ
resolve_recipient d (address _) caller = none
resolve_recipient d q caller = elim (find_profile q d.profiles) [
  | none ↦ none
  | some p ↦ shown_to caller d.contacts p
]

-- `resolveRecipientAddress`, from the column `stellarAddress` of each user.
unfoldable pub resolve_recipient_address : Directory → (ℕ → Option ℕ) → Query → ℕ → Option ℕ
unfolding resolve_recipient
resolve_recipient_address d stellar_address (address v) caller = some v
resolve_recipient_address d stellar_address q caller = elim (resolve_recipient d q (some caller)) [
  | none ↦ none
  | some id ↦ stellar_address id
]

-- `resolveRecipientToStellarAddress`, which also checks the address with `isValidStellarAddress`.
unfoldable pub resolve_recipient_to_stellar_address :
    (ℕ → Bool) → Directory → (ℕ → Option ℕ) → Query → Option ℕ → Option ℕ
unfolding resolve_recipient
resolve_recipient_to_stellar_address is_valid d stellar_address (address v) caller =
    if is_valid v then some v else none
resolve_recipient_to_stellar_address is_valid d stellar_address q caller =
    elim (resolve_recipient d q caller) [
      | none ↦ none
      | some id ↦ elim (stellar_address id) [
        | none ↦ none
        | some a ↦ if is_valid a then some a else none
      ]
    ]
