-- ===== src/Modules/Aap/Store.antt =====
-- The tasks of the store as records that move.
use text.Mathlib.TextLemmas.{append_cancel_left}
use aacp.Prelude.{String, ◌≡◌, Option}
use aacp.State.Engine.{Store}
use aacp.State.Keys.{task_key, prefix_aap_task}
use aacp.App.Records
use aacp.App.Records.{Kind, KindLaw, record_of}
use aacp.Modules.Aap.Moves.{Move}
use aacp.Modules.Aap.Data.{Task, Codec}

task_key-injective : (a b : String) → task_key a ≡ task_key b → a ≡ b
unfolding task_key
task_key-injective a b h = append_cancel_left prefix_aap_task a b h

module _ {Raw : Type 0} (codec : Codec Raw) where
  abbrev pub task_kind : Kind Raw Task
  task_kind = record { json = codec.task; key = task_key; name = λ t. t.task_id; Move = Move }

  pub task_kind-KindLaw : KindLaw task_kind
  task_kind-KindLaw = record { apart = task_key-injective; same_name = λ t u m. m.same_task }

  -- what the store holds for the id of a task
  abbrev pub task_of : Store Raw → String → Option Task
  task_of = record_of task_kind

  -- Every task is stored under its own id.
  abbrev pub WellKeyed : Store Raw → Type 0
  WellKeyed = Records.WellKeyed task_kind
