-- ===== src/Modules/Aap/Progress.antt =====
-- What the transactions of the task module do to the tasks of the store.
use aacp.Prelude.{ℕ, String, ◌<>◌, refl, All}
use aacp.Codec.{Wire, JsonLaw}
use aacp.State.Keys.{task_key, heartbeat_key, prefix_aap_evidence}
use aacp.State.Keys.Laws.{prefix_apart}
use aacp.App.Post.{post_rules}
use aacp.Modules.Aap.Moves.{
  signed-Move, beaten-Move, with_result-Move, judged-Move, settled-Move, contested-Move,
}
use aacp.App.Records.{
  NoRecordKey, AdvancingHandler, Advances-refl, Advances-other, Advances-save, Advances-save_other,
  Advances-other_save,
}
use aacp.Modules.Aap.Store.{task_kind, task_kind-KindLaw}
use aacp.Modules.Aap.Data.{Codec}
use aacp.Modules.Aap.{
  save_task, load_task, sign_sla, submit_heartbeat, submit_result, verify_result, settle_task,
  file_dispute, task_handlers,
}

module _ {Raw : Type 0} (wire : Wire Raw) (codec : Codec Raw) where
  evidence_key-NoTaskKey : (k : String) → NoRecordKey (task_kind codec) (prefix_aap_evidence <> k)
  unfolding task_key
  evidence_key-NoTaskKey k id = prefix_apart "aap/e/" "aap/t/" k id refl refl

  heartbeat_key-NoTaskKey : (k : String) (n : ℕ) → NoRecordKey (task_kind codec) (heartbeat_key k n)
  unfolding task_key heartbeat_key
  heartbeat_key-NoTaskKey k n id = prefix_apart "aap/h/" "aap/t/" _ id refl refl

  ruleset advancing = (post_rules, Advances-refl, Advances-save, task_kind-KindLaw)

  module _ (law : JsonLaw codec.task) where
    sign_sla-Advancing : AdvancingHandler (task_kind codec) (sign_sla wire codec)
    unfolding sign_sla load_task save_task
    sign_sla-Advancing ctx env w = search (advancing, signed-Move, law) depth 20

    submit_heartbeat-Advancing : AdvancingHandler (task_kind codec) (submit_heartbeat wire codec)
    unfolding submit_heartbeat load_task save_task
    submit_heartbeat-Advancing ctx env w =
        search
          (
            advancing, Advances-other, Advances-other_save, heartbeat_key-NoTaskKey, beaten-Move,
            law,
          )
          depth 20

    submit_result-Advancing : AdvancingHandler (task_kind codec) (submit_result wire codec)
    unfolding submit_result load_task save_task
    submit_result-Advancing ctx env w = search (advancing, with_result-Move, law) depth 20

    verify_result-Advancing : AdvancingHandler (task_kind codec) (verify_result wire codec)
    unfolding verify_result load_task save_task
    verify_result-Advancing ctx env w = search (advancing, judged-Move, law) depth 20

    settle_task-Advancing : AdvancingHandler (task_kind codec) (settle_task wire codec)
    unfolding settle_task load_task save_task
    settle_task-Advancing ctx env w =
        search (advancing, Advances-save_other, evidence_key-NoTaskKey, settled-Move, law) depth 20

    file_dispute-Advancing : AdvancingHandler (task_kind codec) (file_dispute wire codec)
    unfolding file_dispute load_task save_task
    file_dispute-Advancing ctx env w = search (advancing, contested-Move, law) depth 20

    pub task_handlers-Advancing :
        All (λ e. AdvancingHandler (task_kind codec) e.1) (task_handlers wire codec)
    task_handlers-Advancing = (
      sign_sla-Advancing,
      (
        submit_heartbeat-Advancing,
        (
          submit_result-Advancing,
          (verify_result-Advancing, (settle_task-Advancing, (file_dispute-Advancing, tt))),
        ),
      ),
    )
