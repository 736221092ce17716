-- ===== src/Modules/Aap/History.antt =====
-- What the transactions of the task module, one after the other, make of a task.
use aacp.Prelude.{◌≤◌, String, ◌≡◌, refl, sym, ◌∙◌, ◌⊎◌, inl, inr, false, some, arith, str_eq, All}
use aacp.Codec.{Wire, JsonLaw}
use aacp.App.Router.{World}
use aacp.Modules.Aap.Data.{
  Task, Codec, completed, verified, sla_signed, executing, submitted, authorized, disputed,
}
use aacp.Modules.Aap.{handlers, task_handlers, create_task}
use aacp.Modules.Aap.Moves.{
  Edge, stays, signs, starts, submits, passes, retries, settles, disputes, Move,
}
use aacp.App.Records.Status.{clash}
use aacp.App.Records.{Transactions}
use aacp.App.Records.Journeys.{Course, run-Course}
use aacp.Modules.Aap.Store.{task_kind, task_of, WellKeyed}
use aacp.Modules.Aap.Progress.{task_handlers-Advancing}

-- the ways to be completed
completes : (a b : String) → Edge a b → b ≡ completed → (a ≡ completed) ⊎ (a ≡ verified)
completes a b (stays e) h = inl (sym e ∙ h)
completes a b (settles e _) h = inr e
completes a b (signs _ e) h = clash sla_signed completed b refl e h
completes a b (starts _ e) h = clash executing completed b refl e h
completes a b (submits e) h = clash submitted completed b refl e h
completes a b (passes _ e) h = clash verified completed b refl e h
completes a b (retries _ e) h = clash authorized completed b refl e h
completes a b (disputes e) h = clash disputed completed b refl e h

-- What a task keeps.
pub record Kept (t u : Task) : Type 0 where
  pub same_order : u.order_id ≡ t.order_id
  pub same_consumer : u.consumer ≡ t.consumer
  pub same_provider : u.provider ≡ t.provider
  pub same_limit : u.max_retries ≡ t.max_retries
  pub heartbeat : t.heartbeat_seq ≤ u.heartbeat_seq

same-Kept : (t : Task) → Kept t t
same-Kept t = record {
  same_order = refl;
  same_consumer = refl;
  same_provider = refl;
  same_limit = refl;
  heartbeat = omega arith;
}

Move-Kept : (t v u : Task) → Move t v → Kept v u → Kept t u
Move-Kept t v u m k = record {
  same_order = k.same_order ∙ m.same_order;
  same_consumer = k.same_consumer ∙ m.same_consumer;
  same_provider = k.same_provider ∙ m.same_provider;
  same_limit = k.same_limit ∙ m.same_limit;
  heartbeat = ground (arith, k.heartbeat, m.heartbeat);
}

module _ {Raw : Type 0} (wire : Wire Raw) (codec : Codec Raw) where
  -- Let JSON read back each task that it wrote, let each task of the store be stored under its own
  -- id, and run any transactions of the task module that create no task, by whomever and whether
  -- they succeed or fail. Then a task that was in the store is there after each transaction, and
  -- each transaction makes at most one move of the state machine with it; its order, its parties
  -- and its limit of retries are the same at the end, its heartbeat has not gone back, and if it
  -- is completed then it was so at the start, or after some of these transactions the store had it
  -- as verified.
  pub task_history :
      (txs : Transactions Raw) (w : World Raw) (id : String) (t : Task)
      → JsonLaw codec.task
      → All (λ tx. str_eq "create_task" tx.1.action ≡ false) txs
      → WellKeyed codec w.store
      → task_of codec w.store id ≡ some t
      → (u : Task) × Course
          (task_kind codec)
          (handlers wire codec)
          Kept
          (λ v. v.status ≡ completed)
          (λ v. v.status ≡ verified)
          id
          txs
          w
          t
          u
  task_history txs w id t law h keyed found =
      run-Course (task_kind codec) "create_task" (create_task wire codec) (task_handlers wire codec)
        (task_handlers-Advancing wire codec law) Kept (λ v. v.status ≡ completed)
        (λ v. v.status ≡ verified) txs w id t same-Kept Move-Kept
        (λ x y m. completes x.status y.status m.edge) h keyed found
