-- ===== src/Cluster/Gossip/Failures.antt =====
-- internal/cluster/gossip/gossip.go: the detection of failures.
pub mod Quorum
use autocache.Prelude.{
  ℕ, zero, suc, ◌+◌, ◌-◌, ◌*◌, ◌/◌, ◌%◌, ◌^◌, ◌≤◌, ◌<◌, String, ◌≡◌, refl, sym, ap, ap₂, subst, ◌∙◌,
  ◌≢◌, ◌↔◌, ◌⊎◌, inl, inr, Bool, true, false, not, ◌&&◌, ◌||◌, Option, none, some, List, [], ◌∷◌,
  ◌++◌, map, arith, str_eq, eq_iff, ltb, leb, ◌==◌, if◌then◌else◌, ltb→lt, lt→ltb, leb→le, ==_iff,
  Bool-cases, Option-cases, if_keeps, if_keeps_on, OnSome, length, get_or, take, drop,
  length-append, length-drop, All, Among, update, update_key, is_some, lookup, insert, erase, IsMap,
  lookup-insert, lookup-erase, insert-IsMap, erase-IsMap, length-insert, length-erase,
}
use autocache.Cluster.Gossip.Nodes.{
  GossipNode, Gossip, Started, node_leave, broadcast_fail, is_connected, is_pfail, mark_pfail,
  mark_fail, count_fail_reports, count_masters, change, get_node,
}

-- `ClusterNodeTimeout` and `ClusterFailReportValidity`, in milliseconds.
abbrev pub node_timeout : ℕ
node_timeout = 15000

abbrev pub fail_report_validity : ℕ
fail_report_validity = 30000

-- The node as it is after the look at its last pong: `now - pongReceived > timeout`.
unfoldable pub suspected : ℕ → GossipNode → GossipNode
unfolding mark_pfail
suspected now n =
    if is_connected n.state && ltb (n.pong_received + node_timeout) now then mark_pfail n else n

-- Whether enough of the masters reported the node.
unfoldable pub has_quorum : ℕ → GossipNode → Gossip → Bool
unfolding count_fail_reports count_masters
has_quorum now n g =
    leb (count_masters g.nodes / 2 + 1) (count_fail_reports now fail_report_validity n)

unfoldable pub confirm : ℕ → String → GossipNode → Gossip → Gossip
unfolding has_quorum change mark_fail
confirm now id n g =
    if is_pfail n.state && has_quorum now n g
    then (let g' = change id mark_fail g in
        record g' { started = g'.started ++ broadcast_fail id ∷ node_leave id ∷ [] })
    else g

-- One round of the loop of `checkNodeFailures`, on the node that stands under the identifier.
unfoldable pub check_node : ℕ → String → Gossip → Gossip
unfolding get_node change suspected confirm
check_node now id g = elim (get_node id g) [
  | none ↦ g
  | some n ↦
      if str_eq n.id g.self_id
      then g
      else confirm now id (suspected now n) (change id (suspected now) g)
]

unfoldable pub check_nodes : ℕ → List (String × GossipNode) → Gossip → Gossip
unfolding check_node
check_nodes now [] g = g
check_nodes now ((id, _) ∷ ns) g = check_nodes now ns (check_node now id g)

-- `checkNodeFailures`
unfoldable pub check_node_failures : ℕ → Gossip → Gossip
unfolding check_nodes
check_node_failures now g = check_nodes now g.nodes g
