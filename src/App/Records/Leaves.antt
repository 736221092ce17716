-- ===== src/App/Records/Leaves.antt =====
-- Actions that write no record of a kind.
use aacp.Prelude.{String, ◌≡◌, refl, sym, ◌∙◌, Bool, true, false, if◌then◌else◌, some}
use aacp.Exec.{
  Error, Result, ok, err, pure, fail, lift, gets, reading, fail_if, or_fail, ◌>>=◌, ◌>>◌,
}
use aacp.Codec.{Json, JsonLaw}
use aacp.State.Engine.{Store, get, set}
use aacp.Types.{Event, TxEnvelope}
use aacp.App.Router.{World, Context, Action, ActionHandler, emit, put, ignore, save_json, load_json}
use aacp.App.Post.{Post, reads-set_ne}
use aacp.App.Records.{
  Kind, KindLaw, record_of, Advances, Advances-save, AdvancingHandler, Advancing, rests,
  NoRecordKey,
}

module _ {Raw A : Type 0} (kind : Kind Raw A) where
  -- the same records
  pub record SameRecords (s r : Store Raw) : Type 0 where
    pub at : (id : String) → record_of kind r id ≡ record_of kind s id

  pub record Leaves {B : Type 0} (m : Action Raw B) : Type 0 where
    pub leaves : (w : World Raw) → SameRecords w.store (m w).1.store

  pub Advances-same : (s r : Store Raw) → SameRecords s r → Advances kind s r
  Advances-same s r h = record {
    keyed = λ w id t e. w id t (sym (h.at id) ∙ e);
    moved = λ w id t e. (t, h.at id ∙ e, rests);
  }

  -- a record that is saved after such an action
  pub Advances-same_save :
      (s r : Store Raw) (id : String) (t u : A) (raw : Raw)
      → KindLaw kind
      → JsonLaw kind.json
      → SameRecords s r
      → record_of kind s id ≡ some t
      → kind.Move t u
      → kind.json.marshal u ≡ some raw
      → Advances kind s (set r (kind.key (kind.name u)) raw)
  Advances-same_save s r id t u raw here law same e m h =
      let step = Advances-save kind r id t u raw here law (same.at id ∙ e) m h in
      record {
        keyed = λ w. step.keyed (λ i v found. w i v (sym (same.at i) ∙ found));
        moved = λ w i v found.
            step.moved (λ k x seen. w k x (sym (same.at k) ∙ seen)) i v (same.at i ∙ found);
      }

  module _ {B : Type 0} where
    pub Leaves-pure : (b : B) → Leaves (pure b)
    Leaves-pure b = record { leaves = λ w. record { at = λ id. refl } }

    pub Leaves-fail : (e : Error) → Leaves (fail {A = B} e)
    Leaves-fail e = record { leaves = λ w. record { at = λ id. refl } }

    pub Leaves-lift : (r : Result B) → Leaves (lift r)
    Leaves-lift r = record { leaves = λ w. record { at = λ id. refl } }

    pub Leaves-gets : (f : World Raw → B) → Leaves (gets f)
    Leaves-gets f = record { leaves = λ w. record { at = λ id. refl } }

    pub Leaves-reading : (f : World Raw → Result B) → Leaves (reading f)
    Leaves-reading f = record { leaves = λ w. record { at = λ id. refl } }

    pub Leaves-if :
        (b : Bool) (m n : Action Raw B) → Leaves m → Leaves n → Leaves (if b then m else n)
    Leaves-if true m n h k = h
    Leaves-if false m n h k = k

  pub Leaves-fail_if : (b : Bool) (e : Error) → Leaves (fail_if b e)
  Leaves-fail_if b e = record { leaves = λ w. record { at = λ id. refl } }

  pub Leaves-emit : (ev : Event) → Leaves (emit ev)
  unfolding emit
  Leaves-emit ev = record { leaves = λ w. record { at = λ id. refl } }

  pub Leaves-put : (k : String) (v : Raw) → NoRecordKey kind k → Leaves (put k v)
  unfolding put
  Leaves-put k v h = record {
    leaves = λ w. record { at = λ id. reads-set_ne kind.json w.store k (kind.key id) v (h id) };
  }

  pub Leaves-ignore : (m : Action Raw Unit) → Leaves m → Leaves (ignore m)
  unfolding ignore
  Leaves-ignore m h = record { leaves = h.leaves }

  module _ {B C : Type 0} where
    bind_at :
        (f : B → Action Raw C) (w : World Raw) (o : Result B × World Raw)
        → SameRecords w.store o.1.store
        → ((b : B) → Leaves (f b))
        → let m = λ (v : World Raw). o in SameRecords w.store ((m >>= f) w).1.store
    bind_at f w (ok b, v) h l = record { at = λ id. ((l b).leaves v).at id ∙ h.at id }
    bind_at f w (err e, v) h l = h

    pub Leaves-bind :
        (m : Action Raw B) (f : B → Action Raw C)
        → Leaves m
        → ((b : B) → Leaves (f b))
        → Leaves (m >>= f)
    Leaves-bind m f h l = record { leaves = λ w. bind_at f w (m w) (h.leaves w) l }

  module _ {B : Type 0} where
    pub Leaves-save_json :
        (j : Json Raw B) (e : Error) (k : String) (b : B)
        → NoRecordKey kind k
        → Leaves (save_json j e k b)
    unfolding save_json
    Leaves-save_json j e k b h = Leaves-bind _ _ (Leaves-lift _) (λ raw. Leaves-put k raw h)

    pub Leaves-load_json : (j : Json Raw B) (e f : Error) (k : String) → Leaves (load_json j e f k)
    unfolding load_json
    Leaves-load_json j e f k = Leaves-bind _ _ (Leaves-gets (λ w. get w.store k)) λ found.
        Leaves-bind _ _ (Leaves-lift (or_fail e found))
          λ raw. Leaves-lift (or_fail f (j.unmarshal raw))

  pub ruleset leaving_rules = (
    Leaves-pure, Leaves-fail, Leaves-lift, Leaves-gets, Leaves-reading, Leaves-if, Leaves-fail_if,
    Leaves-emit, Leaves-put, Leaves-ignore, Leaves-bind, Leaves-save_json, Leaves-load_json,
  )

  pub after_leaving :
      {B : Type 0} (w : World Raw) (m : Action Raw B) → Leaves m → Post w m (Advancing kind w)
  after_leaving w m h = record { holds = Advances-same w.store _ (h.leaves w) }

  -- a handler that writes no record
  pub Leaves-AdvancingHandler :
      (h : ActionHandler Raw)
      → ((ctx : Context) (env : TxEnvelope Raw) → Leaves (h ctx env))
      → AdvancingHandler kind h
  Leaves-AdvancingHandler h l ctx env w = after_leaving w (h ctx env) (l ctx env)

  module _ {B C : Type 0} (w : World Raw) (Q : Result C → World Raw → Type 0) where
    through_at :
        (o : Result B × World Raw) (n : Action Raw C)
        → SameRecords w.store o.1.store
        → ((e : Error) (v : World Raw) → SameRecords w.store v.store → Q (err e) v)
        → ((v : World Raw) → SameRecords w.store v.store → Post v n Q)
        → let m = λ (_ : World Raw). o in Post w (m >> n) Q
    through_at (ok b, v) n h bad good = record { holds = (good v h).holds }
    through_at (err e, v) n h bad good = record { holds = bad e v h }

    -- an action that leaves the records before the rest
    pub post_through :
        (m : Action Raw B) (n : Action Raw C)
        → Leaves m
        → ((e : Error) (v : World Raw) → SameRecords w.store v.store → Q (err e) v)
        → ((v : World Raw) → SameRecords w.store v.store → Post v n Q)
        → Post w (m >> n) Q
    post_through m n h bad good = record {
      holds = (through_at (m w) n (h.leaves w) bad good).holds;
    }
