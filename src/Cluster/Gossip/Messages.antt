-- ===== src/Cluster/Gossip/Messages.antt =====
-- internal/cluster/gossip/gossip.go: the messages that nodes exchange and what a node makes of them.
-- The connections and the encoding are I/O; `none` stands for the panic of `SlotsToBytes`.
pub mod Sent
pub mod Hearsay
pub mod News
use autocache.Prelude.{
  ℕ, zero, suc, ◌+◌, ◌-◌, ◌*◌, ◌/◌, ◌%◌, ◌^◌, ◌≤◌, ◌<◌, String, ◌≡◌, refl, sym, ap, ap₂, subst, ◌∙◌,
  ◌≢◌, ◌↔◌, ◌⊎◌, inl, inr, Bool, true, false, not, ◌&&◌, ◌||◌, Option, none, some, List, [], ◌∷◌,
  ◌++◌, map, arith, str_eq, eq_iff, ltb, leb, ◌==◌, if◌then◌else◌, ltb→lt, lt→ltb, leb→le, ==_iff,
  Bool-cases, Option-cases, if_keeps, if_keeps_on, OnSome, length, get_or, take, drop,
  length-append, length-drop, All, Among, update, update_key, is_some, lookup, insert, erase, IsMap,
  lookup-insert, lookup-erase, insert-IsMap, erase-IsMap, length-insert, length-erase,
}
use autocache.Cluster.Slots.{SlotManager, get_node_slots, get_slot_config_epoch}
use autocache.Cluster.Slots.Replicas.{add_slot_replica}
use autocache.Cluster.Gossip.{SlotClaims, claim_slots, record_slot_epoch}
use autocache.Cluster.Gossip.Bitmap.{has_bit, set_bit, slots_to_bytes, bytes_to_slots, has_slot}
use autocache.Cluster.Gossip.Nodes.{
  NodeRole, master, replica, GossipNode, Gossip, Started, node_join, node_leave, is_master,
  is_connected, is_pfail, is_fail, update_pong, mark_fail, add_fail_report, new_node, change,
  get_node, recipients,
}

-- The bits of `Flags`.
abbrev pub master_bit : ℕ
master_bit = 0

abbrev pub replica_bit : ℕ
replica_bit = 1

abbrev pub pfail_bit : ℕ
pfail_bit = 2

abbrev pub fail_bit : ℕ
fail_bit = 3

-- `NodeInfo`, with the two numbers of its load that are kept.
pub record NodeInfo : Type 0 where
  pub id : String
  pub ip : String
  pub port : ℕ
  pub cluster_port : ℕ
  pub flags : ℕ
  pub master_id : String
  pub ping_sent : ℕ
  pub pong_recv : ℕ
  pub config_epoch : ℕ
  pub slots : List ℕ
  pub total_qps : ℕ
  pub hot_slot_count : ℕ
  pub reporter_id : String

-- `Message`, with the fields that are set.
pub record Message : Type 0 where
  pub sender : String
  pub node_info : Option NodeInfo
  pub gossip_nodes : List NodeInfo

-- The node under the identifier, which is new if it was not known.
unfoldable pub discover : NodeInfo → Gossip → Gossip
unfolding get_node new_node
discover info g = elim (get_node info.id g) [
  | some _ ↦ g
  | none ↦ record g {
    nodes = insert info.id (new_node info.id info.ip info.port info.cluster_port) g.nodes;
    started = g.started ++ node_join info.id ∷ [];
  }
]

-- The role, which only a node's own report tells, and the load.
unfoldable pub heard_of : NodeInfo → Bool → GossipNode → GossipNode
heard_of info direct n =
    let n₁ =
      if direct && has_bit info.flags master_bit
      then record n { role = master; master_id = "" }
      else if direct && has_bit info.flags replica_bit
      then record n { role = replica; master_id = info.master_id }
      else n in
    record n₁ { total_qps = info.total_qps; hot_slot_count = info.hot_slot_count }

-- `addFailReport`
unfoldable pub is_fail_report : NodeInfo → Bool
is_fail_report info = has_bit info.flags pfail_bit && not (str_eq info.reporter_id "")

unfoldable pub report : ℕ → NodeInfo → GossipNode → GossipNode
unfolding is_fail_report add_fail_report
report now info n = if is_fail_report info then add_fail_report info.reporter_id now n else n

-- The loop that registers a replica of the slots.
unfoldable pub register_replica : String → List ℕ → SlotManager → SlotManager
register_replica id [] sm = sm
register_replica id (slot ∷ slots) sm = register_replica id slots (add_slot_replica slot id sm)

-- Both registrations: the master is this node or another one.
unfoldable pub register : NodeInfo → Bool → Gossip → Gossip
unfolding register_replica
register info direct g =
    if direct && not (str_eq info.master_id "")
    then record g {
      claims = record (g.claims) {
        slots =
            register_replica info.id (get_node_slots info.master_id g.claims.slots) g.claims.slots;
      };
    }
    else g

-- Whether the node is held for a master.
unfoldable pub holds_master : String → Gossip → Bool
unfolding get_node
holds_master id g = elim (get_node id g) [ none ↦ false | some n ↦ is_master n.role ]

-- The slots that the message claims for the node.
unfoldable pub process_slots : NodeInfo → Gossip → Gossip
process_slots info g =
    if ltb 0 (length info.slots) && holds_master info.id g
    then record g {
      claims = claim_slots info.id info.config_epoch (bytes_to_slots info.slots) g.claims;
    }
    else g

-- `processNodeInfo`
unfoldable pub process_node_info : ℕ → NodeInfo → Bool → Gossip → Gossip
unfolding discover heard_of report register process_slots change
process_node_info now info direct g =
    let g₁ = discover info g in
    let g₂ = change info.id (λ n. report now info (heard_of info direct n)) g₁ in
    process_slots info (register info direct g₂)

-- The loop over the nodes that the sender tells of.
unfoldable pub process_gossip : ℕ → String → List NodeInfo → Gossip → Gossip
unfolding process_node_info
process_gossip now sender [] g = g
process_gossip now sender (info ∷ infos) g =
    process_gossip now sender infos
      (process_node_info now (record info { reporter_id = sender }) false g)

unfoldable pub process_message : ℕ → Message → Gossip → Gossip
unfolding process_gossip process_node_info
process_message now msg g =
    process_gossip now msg.sender msg.gossip_nodes
      (elim msg.node_info [ none ↦ g | some info ↦ process_node_info now info true g ])

-- `handlePong`. `handlePing` is `process_message`, and then sends an answer.
unfoldable pub handle_pong : ℕ → Message → Gossip → Gossip
unfolding process_message change update_pong
handle_pong now msg g = process_message now msg (change msg.sender (update_pong now) g)

-- `handleFail`
unfoldable pub handle_fail : String → Gossip → Gossip
unfolding get_node change mark_fail
handle_fail id g = elim (get_node id g) [
  | none ↦ g
  | some _ ↦
      let g' = change id mark_fail g in record g' { started = g'.started ++ node_leave id ∷ [] }
]
