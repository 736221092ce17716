-- ===== src/Modules/Aap/Lawful.antt =====
-- The contract of the block loop, for the task module.
use aacp.Prelude.{ℕ, String, ◌<>◌, refl, Option, none, some, List, [], ◌∷◌, ◌++◌}
use aacp.Prelude.Int.{ℤ}
use aacp.Codec.{Wire}
use aacp.State.Keys.{task_key, heartbeat_key, nonce_key, prefix_aap_evidence}
use aacp.State.Keys.Laws.{prefix_apart}
use aacp.App.Lawful.{
  NoNonceKey, Lawful, LawfulHandler, LawfulModule, lawful_rules, Lawful-execute_action, Lawful-pure,
  Lawful-bind, Lawful-list_prefix,
}
use aacp.Modules.Aap.Data.{Task, Codec}
use aacp.Modules.Aap.{
  save_task, load_task, create_task, sign_sla, submit_heartbeat, submit_result, verify_result,
  settle_task, file_dispute, fail_silent, check_task, check_tasks, end_block, handlers, aap,
}

task_key-NoNonceKey : (id : String) → NoNonceKey (task_key id)
unfolding task_key nonce_key
task_key-NoNonceKey id p = prefix_apart "aap/t/" "acc/n/" id _ refl refl

heartbeat_key-NoNonceKey : (id : String) (n : ℕ) → NoNonceKey (heartbeat_key id n)
unfolding heartbeat_key nonce_key
heartbeat_key-NoNonceKey id n p = prefix_apart "aap/h/" "acc/n/" _ _ refl refl

evidence_key-NoNonceKey : (id : String) → NoNonceKey (prefix_aap_evidence <> id)
unfolding nonce_key
evidence_key-NoNonceKey id p = prefix_apart "aap/e/" "acc/n/" id _ refl refl

ruleset keys =
    (lawful_rules, task_key-NoNonceKey, heartbeat_key-NoNonceKey, evidence_key-NoNonceKey)

module _ {Raw : Type 0} (wire : Wire Raw) (codec : Codec Raw) where
  Lawful-save_task : (t : Task) → Lawful wire (save_task wire codec t)
  unfolding save_task
  Lawful-save_task t = search keys

  Lawful-load_task : (id : String) → Lawful wire (load_task wire codec id)
  unfolding load_task
  Lawful-load_task id = search keys

  ruleset stored = (keys, Lawful-save_task, Lawful-load_task)

  Lawful-create_task : LawfulHandler wire (create_task wire codec)
  unfolding create_task
  Lawful-create_task ctx env = search stored depth 12

  Lawful-sign_sla : LawfulHandler wire (sign_sla wire codec)
  unfolding sign_sla
  Lawful-sign_sla ctx env = search stored depth 12

  Lawful-submit_heartbeat : LawfulHandler wire (submit_heartbeat wire codec)
  unfolding submit_heartbeat
  Lawful-submit_heartbeat ctx env = search stored depth 14

  Lawful-submit_result : LawfulHandler wire (submit_result wire codec)
  unfolding submit_result
  Lawful-submit_result ctx env = search stored depth 12

  Lawful-verify_result : LawfulHandler wire (verify_result wire codec)
  unfolding verify_result
  Lawful-verify_result ctx env = search stored depth 12

  Lawful-settle_task : LawfulHandler wire (settle_task wire codec)
  unfolding settle_task
  Lawful-settle_task ctx env = search stored depth 12

  Lawful-file_dispute : LawfulHandler wire (file_dispute wire codec)
  unfolding file_dispute
  Lawful-file_dispute ctx env = search stored depth 12

  Lawful-fail_silent : (t : Task) → Lawful wire (fail_silent wire codec t)
  unfolding fail_silent
  Lawful-fail_silent t = search stored depth 8

  Lawful-check_task : (now : ℤ) (o : Option Task) → Lawful wire (check_task wire codec now o)
  unfolding check_task
  Lawful-check_task now none = Lawful-pure wire []
  Lawful-check_task now (some t) = search (stored, Lawful-fail_silent)

  Lawful-check_tasks :
      (now : ℤ) (tasks : List (String × Raw)) → Lawful wire (check_tasks wire codec now tasks)
  unfolding check_tasks
  Lawful-check_tasks now [] = Lawful-pure wire []
  Lawful-check_tasks now ((key, raw) ∷ tasks) =
      Lawful-bind wire _ _ (Lawful-check_task now (codec.task.unmarshal raw)) λ failures.
        Lawful-bind wire _ _ (Lawful-check_tasks now tasks)
          λ rest. Lawful-pure wire (failures ++ rest)

  -- Whatever its transactions are and whatever the store holds, the task module leaves the nonce
  -- of every account alone, in a transaction and at the end of a block, and never fails with the
  -- code of success.
  pub aap-LawfulModule : LawfulModule wire (aap wire codec)
  unfolding end_block
  aap-LawfulModule = record {
    executes = Lawful-execute_action wire (handlers wire codec) (
      Lawful-create_task,
      (
        Lawful-sign_sla,
        (
          Lawful-submit_heartbeat,
          (
            Lawful-submit_result,
            (Lawful-verify_result, (Lawful-settle_task, (Lawful-file_dispute, tt))),
          ),
        ),
      ),
    );
    ends = λ ctx.
        Lawful-bind wire _ _ (Lawful-list_prefix wire _)
          λ active. Lawful-check_tasks ctx.unix active;
  }
