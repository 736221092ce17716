-- ===== src/Modules/Weave/Lawful.antt =====
-- The contract of the block loop, for the graph module.
use aacp.Prelude.{String, ◌<>◌, refl, Option, none, some, List, [], ◌∷◌, ◌++◌}
use aacp.Prelude.Int.{ℤ}
use aacp.Exec.{Result, ok, err}
use aacp.Codec.{Wire}
use aacp.State.Keys.{nonce_key, prefix_weave_dag}
use aacp.State.Keys.Laws.{prefix_apart}
use text.Mathlib.TextLemmas.{append_assoc}
use aacp.App.Lawful.{
  NoNonceKey, Lawful, LawfulHandler, LawfulModule, lawful_rules, Lawful-execute_action, Lawful-pure,
  Lawful-bind, Lawful-list_prefix,
}
use aacp.Modules.Weave.Data.{TaskDag, Codec}
use aacp.Modules.Weave.{
  require_valid, save_dag, load_dag, create_dag, start_dag, update_node_status, cancel_dag,
  submit_node_output, fail_dag, progress, step_dag, check_dag, check_dags, end_block, handlers,
  weave,
}

-- The two prefixes differ in their first six characters.
dag_key-NoNonceKey : (id : String) → NoNonceKey (prefix_weave_dag <> id)
unfolding nonce_key
dag_key-NoNonceKey id p =
    rw (append_assoc "weave/" "d/" id) (prefix_apart "weave/" "acc/n/" ("d/" <> id) _ refl refl)

ruleset keys = (lawful_rules, dag_key-NoNonceKey)

module _ {Raw : Type 0} (wire : Wire Raw) (codec : Codec Raw) where
  Lawful-save_dag : (dag : TaskDag) → Lawful wire (save_dag codec dag)
  unfolding save_dag
  Lawful-save_dag dag = search keys

  Lawful-load_dag : (id : String) → Lawful wire (load_dag codec id)
  unfolding load_dag
  Lawful-load_dag id = search keys

  Lawful-require_valid : (r : Result (Unit {0})) → Lawful wire (require_valid r)
  unfolding require_valid
  Lawful-require_valid (err e) = search keys
  Lawful-require_valid (ok _) = search keys

  ruleset stored = (keys, Lawful-save_dag, Lawful-load_dag, Lawful-require_valid)

  Lawful-create_dag : LawfulHandler wire (create_dag codec)
  unfolding create_dag
  Lawful-create_dag ctx env = search stored depth 12

  Lawful-start_dag : LawfulHandler wire (start_dag codec)
  unfolding start_dag
  Lawful-start_dag ctx env = search stored depth 12

  Lawful-update_node_status : LawfulHandler wire (update_node_status codec)
  unfolding update_node_status
  Lawful-update_node_status ctx env = search stored depth 12

  Lawful-cancel_dag : LawfulHandler wire (cancel_dag codec)
  unfolding cancel_dag
  Lawful-cancel_dag ctx env = search stored depth 12

  Lawful-submit_node_output : LawfulHandler wire (submit_node_output codec)
  unfolding submit_node_output
  Lawful-submit_node_output ctx env = search stored depth 12

  Lawful-fail_dag : (now : ℤ) (dag : TaskDag) → Lawful wire (fail_dag codec now dag)
  unfolding fail_dag
  Lawful-fail_dag now dag = search stored depth 8

  Lawful-progress : (now : ℤ) (dag : TaskDag) → Lawful wire (progress codec now dag)
  unfolding progress
  Lawful-progress now dag = search stored depth 8

  Lawful-step_dag : (now : ℤ) (dag : TaskDag) → Lawful wire (step_dag codec now dag)
  unfolding step_dag
  Lawful-step_dag now dag = search (stored, Lawful-fail_dag, Lawful-progress)

  Lawful-check_dag : (now : ℤ) (o : Option TaskDag) → Lawful wire (check_dag codec now o)
  unfolding check_dag
  Lawful-check_dag now none = Lawful-pure wire []
  Lawful-check_dag now (some dag) = search (stored, Lawful-step_dag)

  Lawful-check_dags :
      (now : ℤ) (dags : List (String × Raw)) → Lawful wire (check_dags codec now dags)
  unfolding check_dags
  Lawful-check_dags now [] = Lawful-pure wire []
  Lawful-check_dags now ((key, raw) ∷ dags) =
      Lawful-bind wire _ _ (Lawful-check_dag now (codec.dag.unmarshal raw)) λ events.
        Lawful-bind wire _ _ (Lawful-check_dags now dags) λ rest. Lawful-pure wire (events ++ rest)

  -- Whatever its transactions are and whatever the store holds, the graph module leaves the nonce
  -- of every account alone, in a transaction and at the end of a block, and never fails with the
  -- code of success.
  pub weave-LawfulModule : LawfulModule wire (weave wire codec)
  unfolding end_block
  weave-LawfulModule = record {
    executes = Lawful-execute_action wire (handlers codec) (
      Lawful-create_dag,
      (
        Lawful-start_dag,
        (Lawful-update_node_status, (Lawful-cancel_dag, (Lawful-submit_node_output, tt))),
      ),
    );
    ends = λ ctx.
        Lawful-bind wire _ _ (Lawful-list_prefix wire _) λ dags. Lawful-check_dags ctx.unix dags;
  }
