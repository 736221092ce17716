-- ===== src/Modules/Weave/Validate.antt =====
-- `ValidateDAG` of internal/modules/weave/module.go: the checks of nodes and edges, and Kahn's
-- algorithm. The Go maps are association lists.
use aacp.Prelude.{
  ℕ, zero, suc, ◌+◌, String, not, none, some, List, [], ◌∷◌, ◌++◌, if◌then◌else◌, ltb, ◌==◌, str_eq,
  length,
}
use aacp.Prelude.Text.{str_ltb}
use aacp.Prelude.Int.{ℤ, pos, eqb_ℤ, add64, sub64}
use aacp.Exec.{plain, Result, ok, err}
use aacp.State.Engine.{lookup, insert}
use aacp.Types.{contains}
use aacp.Modules.Weave.Data.{DagNode, DagEdge, TaskDag}

-- `sort.Strings`
unfoldable pub insert_string : String → List String → List String
insert_string s [] = s ∷ []
insert_string s (t ∷ ts) = if str_ltb s t then s ∷ t ∷ ts else t ∷ insert_string s ts

unfoldable pub sort_strings : List String → List String
unfolding insert_string
sort_strings [] = []
sort_strings (s ∷ ss) = insert_string s (sort_strings ss)

-- The loop over the nodes: `nodeSet`, or an error at an empty or a second id.
unfoldable pub node_set : List String → List DagNode → Result (List String)
node_set seen [] = ok seen
node_set seen (n ∷ nodes) =
    let rest = node_set (n.node_id ∷ seen) nodes in
    if str_eq n.node_id "" then err plain else if contains seen n.node_id then err plain else rest

pub record Graph : Type 0 where
  pub indeg : List (String × ℤ)
  pub adj : List (String × List String)

-- `indeg[k]` and `adj[k]`: the zero value for a missing key
unfoldable pub degree : List (String × ℤ) → String → ℤ
degree indeg k = elim (lookup k indeg) [ none ↦ pos 0 | some d ↦ d ]

unfoldable pub nexts : List (String × List String) → String → List String
nexts adj k = elim (lookup k adj) [ none ↦ [] | some ns ↦ ns ]

-- every degree is 0 at first
unfoldable pub start_graph : List DagNode → Graph
start_graph [] = record { indeg = []; adj = [] }
start_graph (n ∷ nodes) =
    let g = start_graph nodes in record g { indeg = insert n.node_id (pos 0) g.indeg }

unfoldable pub add_edge : DagEdge → Graph → Graph
add_edge e g = record {
  indeg = insert e.to_node (add64 (degree g.indeg e.to_node) (pos 1)) g.indeg;
  adj = insert e.from_node (nexts g.adj e.from_node ++ e.to_node ∷ []) g.adj;
}

-- the loop over the edges
unfoldable pub add_edges : List String → List DagEdge → Graph → Result Graph
add_edges known [] g = ok g
add_edges known (e ∷ edges) g =
    let rest = add_edges known edges (add_edge e g) in
    if not (contains known e.from_node)
    then err plain
    else if not (contains known e.to_node)
    then err plain
    else if str_eq e.from_node e.to_node
    then err plain
    else rest

-- the ids with no edge into them
unfoldable pub ready : List (String × ℤ) → List String
ready [] = []
ready ((k, d) ∷ indeg) = let rest = ready indeg in if eqb_ℤ d (pos 0) then k ∷ rest else rest

-- the loop over `nexts`: the queue and the degrees
unfoldable pub relax :
    List String → List String → List (String × ℤ) → List String × List (String × ℤ)
relax [] q indeg = (q, indeg)
relax (n ∷ ns) q indeg =
    let d = sub64 (degree indeg n) (pos 1) in
    relax ns (if eqb_ℤ d (pos 0) then sort_strings (q ++ n ∷ []) else q) (insert n d indeg)

-- The loop over the queue with fuel for its rounds: the number of visited nodes.
unfoldable pub visit : ℕ → List (String × List String) → List String → List (String × ℤ) → ℕ
visit zero adj q indeg = 0
visit (suc f) adj [] indeg = 0
visit (suc f) adj (curr ∷ q) indeg =
    let (q', indeg') = relax (sort_strings (nexts adj curr)) q indeg in suc (visit f adj q' indeg')

-- A node enters the queue when its degree becomes 0 or starts there.
unfoldable pub check_order : TaskDag → Graph → Result (Unit {0})
check_order dag g =
    let rounds = suc (length dag.nodes + length dag.edges) in
    if not (visit rounds g.adj (sort_strings (ready g.indeg)) g.indeg == length dag.nodes)
    then err plain
    else if dag.global_timeout_sec == 0
    then err plain
    else ok tt

unfoldable pub validate_dag : TaskDag → Result (Unit {0})
validate_dag dag = if ltb (length dag.nodes) 2 then err plain else elim (node_set [] dag.nodes) [
  | err e ↦ err e
  | ok known ↦ elim (add_edges known dag.edges (start_graph dag.nodes)) [
    | err e ↦ err e
    | ok g ↦ check_order dag g
  ]
]
