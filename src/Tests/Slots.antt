-- ===== src/Tests/Slots.antt =====
-- Byte slices of the tests of one module: bytes, numbered requests, and records of a type of the
-- test's own.
use aacp.Prelude.{
  ℕ, String, ◌≡◌, refl, ◌∙◌, sym, true, false, Option, none, some, List, [], ◌∷◌, Bytes, length,
  subst, str_eq, eq_iff, Bool-cases, inl, inr,
}
use aacp.Codec.{Wire, WireLaw, Json, JsonLaw}
use aacp.App.Router.{World}
use aacp.App.Lawful.{some_inj}
use aacp.App.Post.{reads}
use aacp.App.Records.{Kind, KindLaw, WellKeyed}
use aacp.State.Engine.{get, lookup}

pub data Slot (R : Type 0) : Type 0 where
  bytes : Bytes → Slot R
  request : ℕ → Slot R
  kept : R → Slot R

module _ {R : Type 0} where
  abbrev contents : Slot R → Bytes
  contents (bytes b) = b
  contents (request n) = n ∷ []
  contents (kept r) = []

  abbrev pub slots : Wire (Slot R)
  slots = record {
    of_bytes = bytes;
    to_bytes = contents;
    sha256 = λ b. length b ∷ [];
    verify = λ pub_key message signature. true;
    is_object = λ raw. false;
  }

  pub slots-WireLaw : WireLaw slots
  slots-WireLaw = record { bytes = λ b. refl }

  abbrev read_back : {A : Type 0} → (R → Option A) → Slot R → Option A
  read_back f (bytes b) = none
  read_back f (request n) = none
  read_back f (kept r) = f r

  abbrev pub json_of : {A : Type 0} → (A → R) → (R → Option A) → Json (Slot R) A
  json_of put take = record { marshal = λ a. some (kept (put a)); unmarshal = read_back take }

  pub json_of-JsonLaw :
      {A : Type 0} (put : A → R) (take : R → Option A)
      → ((a : A) → take (put a) ≡ some a)
      → JsonLaw (json_of put take)
  json_of-JsonLaw put take h = record {
    back = λ a raw e. subst (λ r. read_back take r ≡ some a) (some_inj (kept (put a)) raw e) (h a);
  }

  -- the payload of a numbered request
  abbrev pub asks : {A : Type 0} → (ℕ → Option A) → Slot R → Option A
  asks f (bytes b) = none
  asks f (request n) = f n
  asks f (kept r) = none

abbrev pub holding : {R : Type 0} → List (String × R) → World (Slot R)
holding {R} entries = record { store = record { entries = fill entries; version = 0 }; bus = [] }
  where
    fill : List (String × R) → List (String × Slot R)
    fill [] = []
    fill ((k, r) ∷ rest) = (k, kept r) ∷ fill rest

-- A store with one record, under the key of its id.
pub one-WellKeyed :
    {R A : Type 0} (kind : Kind (Slot R) A) (r : R) (a : A)
    → KindLaw kind
    → kind.json.unmarshal (kept r) ≡ some a
    → WellKeyed kind (holding ((kind.key (kind.name a), r) ∷ [])).store
unfolding reads get lookup
one-WellKeyed kind r a law h id t found =
    elim (Bool-cases (str_eq (kind.key (kind.name a)) (kind.key id))) [
      | inl same ↦
          subst (λ x. kind.name x ≡ id)
            (some_inj a t (sym h ∙ (rw (same, reads, get, lookup) at found)))
            (law.apart (kind.name a) id ((eq_iff (kind.key (kind.name a)) (kind.key id)).0 same))
      | inr other ↦ let gone : none ≡ some t = (rw (other, reads, get, lookup) at found) in cc
    ]
