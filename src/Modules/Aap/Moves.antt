-- ===== src/Modules/Aap/Moves.antt =====
-- The state machine of a task: which changes the transactions of the module make to the tasks in
-- the store.
use aacp.Prelude.{
  ◌≤◌, String, ◌≡◌, refl, ◌⊎◌, inl, inr, Bool, true, false, not, ◌||◌, ◌&&◌, Bool-cases, arith,
  str_eq, eq_iff, leb, if◌then◌else◌,
}
use aacp.Codec.{Wire}
use aacp.App.Router.{Context}
use aacp.App.Records.Status.{is_status, either_status}
use aacp.Modules.Aap.Data.{
  Task, created, sla_signed, authorized, executing, submitted, verifying, verified, completed,
  disputed, SignSlaPayload, HeartbeatPayload, SubmitResultPayload, VerifyPayload,
}
use aacp.Modules.Aap.{signed, beaten, can_start, with_result, judged, retried, contested, settled}

-- the changes of status that one transaction makes
pub data Edge (a b : String) : Type 0 where
  stays : b ≡ a → Edge a b
  signs : a ≡ created → b ≡ sla_signed → Edge a b
  starts : (a ≡ authorized) ⊎ ((a ≡ created) ⊎ (a ≡ sla_signed)) → b ≡ executing → Edge a b
  submits : b ≡ submitted → Edge a b
  passes : (a ≡ submitted) ⊎ (a ≡ verifying) → b ≡ verified → Edge a b
  retries : (a ≡ submitted) ⊎ (a ≡ verifying) → b ≡ authorized → Edge a b
  settles : a ≡ verified → b ≡ completed → Edge a b
  disputes : b ≡ disputed → Edge a b

-- One change of a task: who it is for, its identity and its number of retries stay, and a
-- heartbeat never goes back.
pub record Move (t u : Task) : Type 0 where
  pub same_task : u.task_id ≡ t.task_id
  pub same_order : u.order_id ≡ t.order_id
  pub same_consumer : u.consumer ≡ t.consumer
  pub same_provider : u.provider ≡ t.provider
  pub same_limit : u.max_retries ≡ t.max_retries
  pub heartbeat : t.heartbeat_seq ≤ u.heartbeat_seq
  pub edge : Edge t.status u.status

pub signed-Move :
    (ctx : Context) (p : SignSlaPayload) (t : Task)
    → not (str_eq t.status created) ≡ false
    → Move t (signed ctx p t)
unfolding signed
signed-Move ctx p t h = record {
  same_task = refl;
  same_order = refl;
  same_consumer = refl;
  same_provider = refl;
  same_limit = refl;
  heartbeat = omega arith;
  edge = signs (is_status created t.status h) refl;
}

startable :
    (s : String)
    → (str_eq s authorized || (str_eq s created || str_eq s sla_signed)) ≡ true
    → (s ≡ authorized) ⊎ ((s ≡ created) ⊎ (s ≡ sla_signed))
startable s h = ground (arith, eq_iff s authorized, eq_iff s created, eq_iff s sla_signed)

can_start-Edge : (t : Task) → Edge t.status (if can_start t then executing else t.status)
unfolding can_start
can_start-Edge t = elim (Bool-cases (can_start t)) [
  | inl go ↦ rw (go, can_start) (starts (startable t.status go) refl)
  | inr no_go ↦ rw (no_go, can_start) (stays refl)
]

pub beaten-Move :
    (ctx : Context) (p : HeartbeatPayload) (t : Task)
    → leb p.seq t.heartbeat_seq ≡ false
    → Move t (beaten ctx p t)
unfolding beaten
beaten-Move ctx p t h = record {
  same_task = refl;
  same_order = refl;
  same_consumer = refl;
  same_provider = refl;
  same_limit = refl;
  heartbeat = ground arith;
  edge = can_start-Edge t;
}

pub with_result-Move : (p : SubmitResultPayload) (t : Task) → Move t (with_result p t)
unfolding with_result
with_result-Move p t = record {
  same_task = refl;
  same_order = refl;
  same_consumer = refl;
  same_provider = refl;
  same_limit = refl;
  heartbeat = omega arith;
  edge = submits refl;
}

retried-Edge :
    (s : String) (b : Bool)
    → (s ≡ submitted) ⊎ (s ≡ verifying)
    → Edge s (if b then disputed else authorized)
retried-Edge s true h = disputes refl
retried-Edge s false h = retries h refl

pub judged-Move :
    (p : VerifyPayload) (t : Task)
    → (not (str_eq t.status submitted) && not (str_eq t.status verifying)) ≡ false
    → Move t (judged p t)
unfolding judged retried
judged-Move p t h = elim (Bool-cases p.passed) [
  | inl passed ↦
      rw (passed, judged)
        (record {
          same_task = refl;
          same_order = refl;
          same_consumer = refl;
          same_provider = refl;
          same_limit = refl;
          heartbeat = omega arith;
          edge = passes (either_status submitted verifying t.status h) refl;
        })
  | inr bad ↦
      rw (bad, judged)
        (record {
          same_task = refl;
          same_order = refl;
          same_consumer = refl;
          same_provider = refl;
          same_limit = refl;
          heartbeat = omega arith;
          edge = retried-Edge t.status _ (either_status submitted verifying t.status h);
        })
]

pub settled-Move :
    {Raw : Type 0} (wire : Wire Raw) (ctx : Context) (t : Task)
    → not (str_eq t.status verified) ≡ false
    → Move t (settled wire ctx t)
unfolding settled
settled-Move wire ctx t h = record {
  same_task = refl;
  same_order = refl;
  same_consumer = refl;
  same_provider = refl;
  same_limit = refl;
  heartbeat = omega arith;
  edge = settles (is_status verified t.status h) refl;
}

pub contested-Move : (t : Task) → Move t (contested t)
unfolding contested
contested-Move t = record {
  same_task = refl;
  same_order = refl;
  same_consumer = refl;
  same_provider = refl;
  same_limit = refl;
  heartbeat = omega arith;
  edge = disputes refl;
}
