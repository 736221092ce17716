-- ===== src/State/Params.antt =====
-- internal/state/params.go: `SetParam` and `GetParam`, at a type of values that JSON encodes.
pub mod Laws
use aacp.Prelude.{String, Option, none, some}
use aacp.Exec.{plain, Result, ok, err}
use aacp.Codec.{Json}
use aacp.State.Engine.{Store, get, set}
use aacp.State.Keys.{param_key}

module _ {Raw A : Type 0} (json : Json Raw A) where
  unfoldable pub set_param : Store Raw → String → String → A → Result (Store Raw)
  set_param s mod_name key value = elim (json.marshal value) [
    | none ↦ err plain
    | some raw ↦ ok (set s (param_key mod_name key) raw)
  ]

  -- the value that `GetParam` stores in `out`, where it answers true
  unfoldable pub get_param : Store Raw → String → String → Option A
  get_param s mod_name key = elim (get s (param_key mod_name key)) [
    | none ↦ none
    | some raw ↦ json.unmarshal raw
  ]
