-- ===== src/Modules/Fiat/Moves.antt =====
-- The state machine of an escrow: which changes the transactions of the module make to the escrows
-- in the store.
use text.Mathlib.TextLemmas.{append_cancel_left}
use aacp.Prelude.{
  String, ◌<>◌, ◌≡◌, refl, ◌⊎◌, inl, inr, false, not, ◌&&◌, Bool-cases, str_eq, Option,
}
use aacp.State.Engine.{Store}
use aacp.State.Keys.{prefix_fiat_escrow}
use aacp.App.Router.{Context}
use aacp.App.Records
use aacp.App.Records.{Kind, KindLaw, record_of}
use aacp.Modules.Fiat.Data.{Escrow, Codec, pending, funded, locked, releasing, released, refunded}
use aacp.Modules.Fiat.{fund, begin_release, release, lock, refund}
use aacp.App.Records.Status.{is_status, either_status, clash}

-- the changes of status that one transaction makes
pub data Edge (a b : String) : Type 0 where
  funds : a ≡ pending → b ≡ funded → Edge a b
  locks : a ≡ funded → b ≡ locked → Edge a b
  releases : (a ≡ funded) ⊎ (a ≡ locked) → b ≡ released → Edge a b
  refunds : (a ≡ funded) ⊎ (a ≡ locked) → b ≡ refunded → Edge a b

-- One change of an escrow: its parties and its amounts stay.
pub record Move (t u : Escrow) : Type 0 where
  pub same_escrow : u.escrow_id ≡ t.escrow_id
  pub same_order : u.order_id ≡ t.order_id
  pub same_consumer : u.consumer ≡ t.consumer
  pub same_provider : u.provider ≡ t.provider
  pub same_total : u.total_amount ≡ t.total_amount
  pub same_fee : u.service_fee ≡ t.service_fee
  pub same_commission : u.commission ≡ t.commission
  pub edge : Edge t.status u.status

pub fund-Move :
    (ctx : Context) (e : Escrow) → not (str_eq e.status pending) ≡ false → Move e (fund ctx e)
unfolding fund
fund-Move ctx e h = record {
  same_escrow = refl;
  same_order = refl;
  same_consumer = refl;
  same_provider = refl;
  same_total = refl;
  same_fee = refl;
  same_commission = refl;
  edge = funds (is_status pending e.status h) refl;
}

pub lock-Move : (e : Escrow) → not (str_eq e.status funded) ≡ false → Move e (lock e)
unfolding lock
lock-Move e h = record {
  same_escrow = refl;
  same_order = refl;
  same_consumer = refl;
  same_provider = refl;
  same_total = refl;
  same_fee = refl;
  same_commission = refl;
  edge = locks (is_status funded e.status h) refl;
}

pub refund-Move :
    (e : Escrow)
    → (not (str_eq e.status locked) && not (str_eq e.status funded)) ≡ false
    → Move e (refund e)
unfolding refund
refund-Move e h = record {
  same_escrow = refl;
  same_order = refl;
  same_consumer = refl;
  same_provider = refl;
  same_total = refl;
  same_fee = refl;
  same_commission = refl;
  edge = refunds (other_way (either_status locked funded e.status h)) refl;
}
  where
    other_way : {A B : Type 0} → A ⊎ B → B ⊎ A
    other_way (inl a) = inr a
    other_way (inr b) = inl b

-- what releases an escrow from either of two states
release_from :
    (ctx : Context) (e : Escrow) (s : String)
    → (e.status ≡ funded) ⊎ (e.status ≡ locked)
    → Move e (release ctx (record e { status = s }))
unfolding release
release_from ctx e s h = record {
  same_escrow = refl;
  same_order = refl;
  same_consumer = refl;
  same_provider = refl;
  same_total = refl;
  same_fee = refl;
  same_commission = refl;
  edge = releases h refl;
}

pub release-Move :
    (ctx : Context) (e : Escrow)
    → (not (str_eq e.status funded) && not (str_eq e.status locked)) ≡ false
    → Move e (release ctx (begin_release e))
unfolding begin_release
release-Move ctx e h =
    let from = either_status funded locked e.status h in
    elim (Bool-cases (str_eq e.status funded)) [
      | inl now ↦ rw (now, begin_release) (release_from ctx e releasing from)
      | inr not_now ↦ rw (not_now, begin_release) (release_from ctx e e.status from)
    ]

escrow_key-injective : (a b : String) → prefix_fiat_escrow <> a ≡ prefix_fiat_escrow <> b → a ≡ b
escrow_key-injective a b h = append_cancel_left prefix_fiat_escrow a b h

module _ {Raw : Type 0} (codec : Codec Raw) where
  abbrev pub escrow_kind : Kind Raw Escrow
  escrow_kind = record {
    json = codec.escrow;
    key = λ id. prefix_fiat_escrow <> id;
    name = λ e. e.escrow_id;
    Move = Move;
  }

  pub escrow_kind-KindLaw : KindLaw escrow_kind
  escrow_kind-KindLaw = record { apart = escrow_key-injective; same_name = λ t u m. m.same_escrow }

  -- what the store holds for the id of an escrow
  abbrev pub escrow_of : Store Raw → String → Option Escrow
  escrow_of = record_of escrow_kind

  -- Every escrow is stored under its own id.
  abbrev pub WellKeyed : Store Raw → Type 0
  WellKeyed = Records.WellKeyed escrow_kind

-- A released or refunded escrow does not move.
pub closed-stays :
    {A : Type 0} (t u : Escrow) → (t.status ≡ released) ⊎ (t.status ≡ refunded) → Move t u → A
closed-stays {A} t u h m = from t.status u.status h m.edge
  where
    from : (a b : String) → (a ≡ released) ⊎ (a ≡ refunded) → Edge a b → A
    from a b (inl e) (funds q _) = clash released pending a refl e q
    from a b (inl e) (locks q _) = clash released funded a refl e q
    from a b (inl e) (releases (inl q) _) = clash released funded a refl e q
    from a b (inl e) (releases (inr q) _) = clash released locked a refl e q
    from a b (inl e) (refunds (inl q) _) = clash released funded a refl e q
    from a b (inl e) (refunds (inr q) _) = clash released locked a refl e q
    from a b (inr e) (funds q _) = clash refunded pending a refl e q
    from a b (inr e) (locks q _) = clash refunded funded a refl e q
    from a b (inr e) (releases (inl q) _) = clash refunded funded a refl e q
    from a b (inr e) (releases (inr q) _) = clash refunded locked a refl e q
    from a b (inr e) (refunds (inl q) _) = clash refunded funded a refl e q
    from a b (inr e) (refunds (inr q) _) = clash refunded locked a refl e q
