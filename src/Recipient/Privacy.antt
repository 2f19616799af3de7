-- ===== src/Recipient/Privacy.antt =====
-- Whom the resolver shows: src/services/recipient/recipientResolver.ts.
use mathlib.Core.List.{Mem, mem-cons_self, mem-cons_of_mem}
use acbu_backend.Prelude.{
  ℕ, ◌≡◌, sym, ◌⊎◌, inl, inr, true, false, Option, none, some, List, [], ◌∷◌, arith, Bool-cases,
  Option-cases,
}
use acbu_backend.Recipient.{
  Query, username, phone, email, address, Profile, Contact, Directory, matches, find_profile,
  is_contact, shown_to, resolve_recipient,
}

find_profile-Mem :
    (q : Query) (ps : List Profile) (p : Profile)
    → find_profile q ps ≡ some p
    → Mem p ps × (matches q p ≡ true)
find_profile-Mem q [] p h = ground arith
find_profile-Mem q (x ∷ ps) p h = elim (Bool-cases (matches q x)) [
  | inl t ↦ let e : x ≡ p = ground arith in rw (sym e) (mem-cons_self, t)
  | inr f ↦ let (m, t) = find_profile-Mem q ps p (ground arith) in (mem-cons_of_mem x m, t)
]

-- Visible to the caller: not hidden, the caller's own row, or that of one who has the caller as a
-- contact.
abbrev pub Visible : Option ℕ → List Contact → Profile → Type 0
Visible caller cs p =
    (p.privacy_hide_from_search ≡ false) ⊎ (caller ≡ some p.id) ⊎ (is_contact p.id caller cs ≡ true)

shown_to-Visible :
    (caller : Option ℕ) (cs : List Contact) (p : Profile) (id : ℕ)
    → shown_to caller cs p ≡ some id
    → (id ≡ p.id) × Visible caller cs p
shown_to-Visible none cs p id h = ground arith
shown_to-Visible (some c) cs p id h = ground arith

-- The row that a query finds and that is visible, by its id.
abbrev pub Shows : Directory → Query → Option ℕ → ℕ → Type 0
Shows d q caller id =
    (p : Profile) × Mem p d.profiles
    × (matches q p ≡ true)
    × (id ≡ p.id)
    × Visible caller d.contacts p

found-Shows :
    (d : Directory) (q : Query) (caller : Option ℕ) (id : ℕ)
    → elim (find_profile q d.profiles) [ none ↦ none | some p ↦ shown_to caller d.contacts p ]
      ≡ some id
    → Shows d q caller id
found-Shows d q caller id h = elim (Option-cases (find_profile q d.profiles)) [
  | inl miss ↦ ground arith
  | inr (p, found) ↦
      let (m, t) = find_profile-Mem q d.profiles p found in
      let (e, v) = shown_to-Visible caller d.contacts p id (ground arith) in (p, m, t, e, v)
]

-- What the resolver returns of a query is the id of a row that the query matches, and the row is
-- visible to the caller: it is not hidden from search, or it is the caller's own, or its owner has
-- the caller as a contact.
pub resolve_recipient-Shows :
    (d : Directory) (q : Query) (caller : Option ℕ) (id : ℕ)
    → resolve_recipient d q caller ≡ some id
    → Shows d q caller id
unfolding resolve_recipient
resolve_recipient-Shows d (address v) caller id h = ground arith
resolve_recipient-Shows d (username v) caller id h = found-Shows d (username v) caller id h
resolve_recipient-Shows d (phone v) caller id h = found-Shows d (phone v) caller id h
resolve_recipient-Shows d (email v) caller id h = found-Shows d (email v) caller id h
