-- ===== src/Cluster/Gossip/Messages/Sent.antt =====
-- internal/cluster/gossip/gossip.go: what a node tells of itself and of the others. The load that the
-- hotspot detector measures is an argument, (0, 0) without one, and so is the shuffle.
use autocache.Prelude.{
  ℕ, String, Option, none, some, List, [], ◌∷◌, ◌++◌, str_eq, ltb, if◌then◌else◌, length, take,
}
use autocache.Cluster.Slots.{get_node_slots, get_slot_config_epoch}
use autocache.Cluster.Gossip.{record_slot_epoch}
use autocache.Cluster.Gossip.Bitmap.{set_bit, slots_to_bytes, has_slot}
use autocache.Cluster.Gossip.Nodes.{
  NodeRole, master, replica, GossipNode, Gossip, is_pfail, is_fail, get_node, recipients,
}
use autocache.Cluster.Gossip.Messages.{NodeInfo, master_bit, replica_bit, pfail_bit, fail_bit}

unfoldable pub role_flags : NodeRole → ℕ
role_flags master = set_bit 0 master_bit
role_flags replica = set_bit 0 replica_bit

unfoldable pub state_flags : GossipNode → ℕ
unfolding role_flags
state_flags n =
    let flags = role_flags n.role in
    let flags = if is_pfail n.state then set_bit flags pfail_bit else flags in
    if is_fail n.state then set_bit flags fail_bit else flags

-- `selfNodeInfo`, which reads `self` and stops with a panic on a slot out of range.
unfoldable pub self_node_info : ℕ × ℕ → GossipNode → Gossip → Option NodeInfo
unfolding role_flags
self_node_info (qps, hot) self g = elim (slots_to_bytes (get_node_slots self.id g.claims.slots)) [
  | none ↦ none
  | some bitmap ↦ some (record {
    id = self.id;
    ip = self.ip;
    port = self.port;
    cluster_port = self.cluster_port;
    flags = role_flags self.role;
    master_id = self.master_id;
    ping_sent = 0;
    pong_recv = 0;
    config_epoch = g.current_epoch;
    slots = bitmap;
    total_qps = qps;
    hot_slot_count = hot;
    reporter_id = "";
  })
]

-- What `randomGossipNodes` tells of another node: the epoch is this node's own.
unfoldable pub info_of : GossipNode → Gossip → Option NodeInfo
unfolding state_flags
info_of n g = elim (slots_to_bytes (get_node_slots n.id g.claims.slots)) [
  | none ↦ none
  | some bitmap ↦ some (record {
    id = n.id;
    ip = n.ip;
    port = n.port;
    cluster_port = n.cluster_port;
    flags = state_flags n;
    master_id = n.master_id;
    ping_sent = n.ping_sent;
    pong_recv = n.pong_received;
    config_epoch = g.current_epoch;
    slots = bitmap;
    total_qps = 0;
    hot_slot_count = 0;
    reporter_id = "";
  })
]

-- The loop of `randomGossipNodes`.
unfoldable pub infos_of : List (String × GossipNode) → Gossip → Option (List NodeInfo)
unfolding info_of
infos_of [] g = some []
infos_of ((k, n) ∷ ns) g =
    let rest = infos_of ns g in
    if str_eq n.id g.self_id then rest else elim (info_of n g) [
      | none ↦ none
      | some info ↦ elim rest [ none ↦ none | some infos ↦ some (info ∷ infos) ]
    ]

-- `randomGossipNodes`
unfoldable pub random_gossip_nodes :
    (List NodeInfo → List NodeInfo) → Gossip → Option (List NodeInfo)
unfolding infos_of
random_gossip_nodes shuffle g = elim (infos_of g.nodes g) [
  | none ↦ none
  | some infos ↦ some (if ltb 3 (length infos) then take 3 (shuffle infos) else infos)
]

-- `slotEpoch`
unfoldable pub slot_epoch : ℕ → Gossip → ℕ × Gossip
slot_epoch slot g =
    let epoch = get_slot_config_epoch slot g.claims.slots in
    if ltb 0 epoch
    then (epoch, record g { claims = record_slot_epoch slot epoch g.claims })
    else (g.current_epoch, g)

-- The slots that are claimed for the owner.
unfoldable pub with_slot : ℕ → List ℕ → List ℕ
with_slot slot slots = if has_slot slot slots then slots else slots ++ slot ∷ []

unfoldable pub owner_info : GossipNode → ℕ → List ℕ → NodeInfo
owner_info owner epoch bitmap = record {
  id = owner.id;
  ip = owner.ip;
  port = owner.port;
  cluster_port = owner.cluster_port;
  flags = set_bit 0 master_bit;
  master_id = "";
  ping_sent = 0;
  pong_recv = 0;
  config_epoch = epoch;
  slots = bitmap;
  total_qps = 0;
  hot_slot_count = 0;
  reporter_id = "";
}

-- What `BroadcastSlotOwnership` does: the owner is not known, it panics, or it has the message that
-- `broadcastNodeInfo` sends, as second-hand news, to the nodes listed.
pub data Broadcast : Type 0 where
  unknown_owner panics : Broadcast
  tells : NodeInfo → List GossipNode → Broadcast

-- The message of `BroadcastSlotOwnership`, at the epoch of the slot.
unfoldable pub ownership_news : ℕ → ℕ → String → GossipNode → Gossip → Broadcast
unfolding with_slot owner_info
ownership_news slot epoch owner n g =
    elim (slots_to_bytes (with_slot slot (get_node_slots owner g.claims.slots))) [
      | none ↦ panics
      | some bitmap ↦ tells (owner_info n epoch bitmap) (recipients g.self_id g.nodes)
    ]

-- `BroadcastSlotOwnership`. The ping that carries the news also has the sender's own `self_node_info`,
-- which `tells` leaves out.
unfoldable pub broadcast_slot_ownership : ℕ → String → Gossip → Broadcast × Gossip
unfolding slot_epoch ownership_news
broadcast_slot_ownership slot owner g = elim (get_node owner g) [
  | none ↦ (unknown_owner, g)
  | some n ↦ let (epoch, g') = slot_epoch slot g in (ownership_news slot epoch owner n g', g')
]
