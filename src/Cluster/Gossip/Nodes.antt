-- ===== src/Cluster/Gossip/Nodes.antt =====
-- internal/cluster/gossip/gossip.go: what a node knows of the others. The map of the nodes is an
-- association list, in the order that a loop walks it; the node itself stands in it, since `self` is
-- a pointer to that entry. Times are milliseconds and an argument, and a difference of two of them
-- is compared without subtraction. A lock makes each method one step.
pub mod Known
use autocache.Prelude.{
  ℕ, zero, suc, ◌+◌, ◌-◌, ◌*◌, ◌/◌, ◌%◌, ◌^◌, ◌≤◌, ◌<◌, String, ◌≡◌, refl, sym, ap, ap₂, subst, ◌∙◌,
  ◌≢◌, ◌↔◌, ◌⊎◌, inl, inr, Bool, true, false, not, ◌&&◌, ◌||◌, Option, none, some, List, [], ◌∷◌,
  ◌++◌, map, arith, str_eq, eq_iff, ltb, leb, ◌==◌, if◌then◌else◌, ltb→lt, lt→ltb, leb→le, ==_iff,
  Bool-cases, Option-cases, if_keeps, if_keeps_on, OnSome, length, get_or, take, drop,
  length-append, length-drop, All, Among, update, update_key, is_some, lookup, insert, erase, IsMap,
  lookup-insert, lookup-erase, insert-IsMap, erase-IsMap, length-insert, length-erase,
}
use autocache.Cluster.Gossip.{SlotClaims}

pub data NodeRole : Type 0 where
  master replica : NodeRole

pub data NodeState : Type 0 where
  unknown handshake connected pfail fail : NodeState

-- `GossipNode`, with the two numbers of its load that are kept.
pub record GossipNode : Type 0 where
  pub id : String
  pub ip : String
  pub port : ℕ
  pub cluster_port : ℕ
  pub role : NodeRole
  pub master_id : String
  pub state : NodeState
  pub ping_sent : ℕ
  pub pong_received : ℕ
  pub fail_reports : List (String × ℕ)
  pub total_qps : ℕ
  pub hot_slot_count : ℕ

abbrev pub is_master : NodeRole → Bool
is_master master = true
is_master replica = false

abbrev pub is_connected : NodeState → Bool
is_connected connected = true
is_connected _ = false

abbrev pub is_pfail : NodeState → Bool
is_pfail pfail = true
is_pfail _ = false

abbrev pub is_fail : NodeState → Bool
is_fail fail = true
is_fail _ = false

-- `UpdatePong`
unfoldable pub update_pong : ℕ → GossipNode → GossipNode
update_pong now n = record n { pong_received = now; state = connected }

-- `MarkPFail`
unfoldable pub mark_pfail : GossipNode → GossipNode
mark_pfail n = record n { state = if is_connected n.state then pfail else n.state }

-- `MarkFail`
unfoldable pub mark_fail : GossipNode → GossipNode
mark_fail n = record n { state = fail }

-- `AddFailReport`
unfoldable pub add_fail_report : String → ℕ → GossipNode → GossipNode
add_fail_report reporter now n = record n { fail_reports = insert reporter now n.fail_reports }

-- The loop of `CountFailReports`: `now - ts < valid`.
unfoldable pub count_since : ℕ → ℕ → List (String × ℕ) → ℕ
count_since now valid [] = 0
count_since now valid ((reporter, ts) ∷ reports) =
    (if ltb now (ts + valid) then 1 else 0) + count_since now valid reports

-- `CountFailReports`
unfoldable pub count_fail_reports : ℕ → ℕ → GossipNode → ℕ
unfolding count_since
count_fail_reports now valid n = count_since now valid n.fail_reports

-- A node as it starts to be known, with the role of the zero value.
unfoldable pub new_node : String → String → ℕ → ℕ → GossipNode
new_node id ip port cluster_port = record {
  id = id;
  ip = ip;
  port = port;
  cluster_port = cluster_port;
  role = master;
  master_id = "";
  state = connected;
  ping_sent = 0;
  pong_received = 0;
  fail_reports = [];
  total_qps = 0;
  hot_slot_count = 0;
}

-- The goroutines that are started: the calls of `onNodeJoin` and `onNodeLeave`, and `broadcastFail`.
pub data Started : Type 0 where
  node_join node_leave broadcast_fail : String → Started

-- `Gossip`
pub record Gossip : Type 0 where
  pub self_id : String
  pub nodes : List (String × GossipNode)
  pub claims : SlotClaims
  pub current_epoch : ℕ
  pub started : List Started

-- A change of the node that stands in the map under the identifier, if there is one.
unfoldable pub change_in :
    String → (GossipNode → GossipNode) → List (String × GossipNode) → List (String × GossipNode)
change_in id f [] = []
change_in id f ((k, n) ∷ ns) = if str_eq k id then (k, f n) ∷ ns else (k, n) ∷ change_in id f ns

unfoldable pub change : String → (GossipNode → GossipNode) → Gossip → Gossip
unfolding change_in
change id f g = record g { nodes = change_in id f g.nodes }

-- `GetNode`, a copy.
unfoldable pub get_node : String → Gossip → Option GossipNode
get_node id g = lookup id g.nodes

-- `countMasters`
unfoldable pub count_masters : List (String × GossipNode) → ℕ
count_masters [] = 0
count_masters ((k, n) ∷ ns) =
    (if is_master n.role && is_connected n.state then 1 else 0) + count_masters ns

-- `SetCurrentEpoch`
unfoldable pub set_current_epoch : ℕ → Gossip → Gossip
set_current_epoch epoch g = record g { current_epoch = epoch }

-- `SetSelfRole`
unfoldable pub set_self_role : NodeRole → String → Gossip → Gossip
unfolding change
set_self_role role owner g = change g.self_id (λ n. record n { role = role; master_id = owner }) g

-- `PromoteToMaster`
unfoldable pub promote_to_master : String → Gossip → Gossip
unfolding change
promote_to_master id g = change id (λ n. record n { role = master; master_id = "" }) g

-- The nodes that a message is sent to: all that are connected but the node itself.
unfoldable pub recipients : String → List (String × GossipNode) → List GossipNode
recipients self [] = []
recipients self ((k, n) ∷ ns) =
    let rest = recipients self ns in
    if not (str_eq n.id self) && is_connected n.state then n ∷ rest else rest
