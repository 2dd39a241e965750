-- ===== src/Dag/Walk.antt =====
-- Walks along the edges of a graph.
use landc_go.Dag.Cycle.{Adjacency, EdgeInfo, edges_of}
use landc_go.Prelude.{In, String, ◌≡◌}

pub data Arc (adj : Adjacency) (a b : String) : Type 0 where
  arc : (e : EdgeInfo) → In e (edges_of adj a) → e.target_id ≡ b → Arc adj a b

-- A walk of at least one edge.
pub data Walk (adj : Adjacency) (a : String) : String → Type 0 where
  one : {b : String} → Arc adj a b → Walk adj a b
  more : {b c : String} → Walk adj a b → Arc adj b c → Walk adj a c
