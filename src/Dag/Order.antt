-- ===== src/Dag/Order.antt =====
-- The sort by `OrderNo` keeps the nodes and arranges them.
use landc_go.Model.{Node}
use landc_go.Dag.Graph.{order_less, sort_by_order}
use landc_go.Prelude.{
  In, In-sort_slice, IsSorted, List, arith, false, sort_slice-IsSorted, true, ◌↔◌, ◌≡◌,
}

pub In-sort_by_order : (a : Node) (ns : List Node) → In a (sort_by_order ns) ↔ In a ns
unfolding sort_by_order
In-sort_by_order a ns = In-sort_slice order_less a ns

order_less_asym : (m n : Node) → order_less m n ≡ true → order_less n m ≡ false
order_less_asym m n h = ground arith

pub sort_by_order-IsSorted : (ns : List Node) → IsSorted order_less (sort_by_order ns)
unfolding sort_by_order
sort_by_order-IsSorted ns = sort_slice-IsSorted order_less order_less_asym ns
