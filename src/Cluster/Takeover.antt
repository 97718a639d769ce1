-- ===== src/Cluster/Takeover.antt =====
-- internal/cluster/cluster.go: the epochs of a node, and the change of its role. `SlotManager`, the
-- state manager and what gossip knows are shared with gossip, so they stand in its state.
pub mod Owner
mod Tests
use autocache.Prelude.{
  ℕ, zero, suc, ◌+◌, ◌-◌, ◌*◌, ◌/◌, ◌%◌, ◌^◌, ◌≤◌, ◌<◌, String, ◌≡◌, refl, sym, ap, ap₂, subst, ◌∙◌,
  ◌≢◌, ◌↔◌, ◌⊎◌, inl, inr, Bool, true, false, not, ◌&&◌, ◌||◌, Option, none, some, List, [], ◌∷◌,
  ◌++◌, map, arith, str_eq, eq_iff, ltb, leb, ◌==◌, if◌then◌else◌, ltb→lt, lt→ltb, leb→le, ==_iff,
  Bool-cases, Option-cases, if_keeps, if_keeps_on, OnSome, length, get_or, take, drop,
  length-append, length-drop, All, Among, update, update_key, is_some, lookup, insert, erase, IsMap,
  lookup-insert, lookup-erase, insert-IsMap, erase-IsMap, length-insert, length-erase,
}
use autocache.Cluster.Slots
use autocache.Cluster.Slots.{
  SlotManager, SlotInfo, SlotReplica, SlotError, invalid_ids, assign_slot, assign_slot_range,
  get_slot_info, get_node_slots,
}
use autocache.Cluster.Slots.Replicas.{next64, set_slot_config_epoch, add_replica_to_master}
use autocache.Cluster.Slots.Restore.{MigrationState, SlotReplicaSet, restore_from_state}
use autocache.Cluster.Gossip.{SlotClaims}
use autocache.Cluster.Gossip.Nodes.{
  NodeRole, master, replica, GossipNode, Gossip, is_master, get_node, set_current_epoch,
  set_self_role, promote_to_master,
}
use autocache.Cluster.Gossip.Messages.Sent.{Broadcast, broadcast_slot_ownership}

-- The part of `Cluster` that these methods use. The identifier is the one that gossip has.
pub record ClusterNode : Type 0 where
  pub role : NodeRole
  pub master_id : String
  pub current_epoch : ℕ
  pub my_epoch : ℕ
  pub gossip : Gossip

abbrev pub slots_of : ClusterNode → SlotManager
slots_of c = c.gossip.claims.slots

abbrev pub with_gossip : SlotManager → Gossip → Gossip
with_gossip sm g = record g { claims = record (g.claims) { slots = sm } }

abbrev pub with_slots : SlotManager → ClusterNode → ClusterNode
with_slots sm c = record c { gossip = with_gossip sm c.gossip }

-- `IncrementEpoch`
unfoldable pub increment_epoch : ClusterNode → ClusterNode
unfolding set_current_epoch
increment_epoch c =
    let epoch = next64 c.current_epoch in
    let g = set_current_epoch epoch c.gossip in
    record c { current_epoch = epoch; gossip = with_gossip (Slots.mark_dirty g.claims.slots) g }

-- `AssignSlots`
unfoldable pub assign_slots : List ℕ → ClusterNode → Option SlotError × ClusterNode
assign_slots [] c = (none, c)
assign_slots (slot ∷ slots) c =
    let (err, sm) = assign_slot slot c.gossip.self_id (slots_of c) in
    elim err [ none ↦ assign_slots slots (with_slots sm c) | some e ↦ (some e, with_slots sm c) ]

pub data ReplicateError : Type 0 where
  not_known not_master : ReplicateError
  refused : SlotError → ReplicateError

-- `ReplicateTo` behind its checks; the callback gets the address of the node.
unfoldable pub follow : String → ClusterNode → Option ReplicateError × ClusterNode
unfolding increment_epoch set_self_role
follow id c =
    let c₁ = record c {
      role = replica;
      master_id = id;
      gossip = set_self_role replica id c.gossip;
    } in
    let c₂ = increment_epoch c₁ in
    let ((err, _), sm) =
      add_replica_to_master id c₂.gossip.self_id c₂.current_epoch (slots_of c₂) in
    (elim err [ none ↦ none | some e ↦ some (refused e) ], with_slots sm c₂)

-- `ReplicateTo`
unfoldable pub replicate_to : String → ClusterNode → Option ReplicateError × ClusterNode
unfolding follow get_node
replicate_to id c = elim (get_node id c.gossip) [
  | none ↦ (some not_known, c)
  | some n ↦ if is_master n.role then follow id c else (some not_master, c)
]

-- One round of the loop of `FailoverToMaster`, with the messages sent so far.
unfoldable pub take_over : String → ℕ → ℕ → List Broadcast × Gossip → List Broadcast × Gossip
unfolding get_slot_info set_slot_config_epoch broadcast_slot_ownership
take_over old epoch slot (sent, g) = elim (get_slot_info slot g.claims.slots) [
  | none ↦ (sent, g)
  | some info ↦
      if str_eq info.node_id old
      then (let sm = (assign_slot slot g.self_id g.claims.slots).1 in
          let (b, g') =
            broadcast_slot_ownership slot g.self_id
              (with_gossip (set_slot_config_epoch slot epoch sm) g) in
          (sent ++ b ∷ [], g'))
      else (sent, g)
]

unfoldable pub take_over_all :
    String → ℕ → List ℕ → List Broadcast × Gossip → List Broadcast × Gossip
unfolding take_over
take_over_all old epoch [] st = st
take_over_all old epoch (slot ∷ slots) st =
    take_over_all old epoch slots (take_over old epoch slot st)

-- `FailoverToMaster`, with the messages that it sends.
unfoldable pub failover_to_master : String → ClusterNode → List Broadcast × ClusterNode
unfolding increment_epoch take_over_all set_self_role promote_to_master
failover_to_master old c =
    let c₁ = record c {
      role = master;
      master_id = "";
      gossip = promote_to_master c.gossip.self_id (set_self_role master "" c.gossip);
    } in
    let slots = get_node_slots old (slots_of c₁) in
    let c₂ = increment_epoch c₁ in
    let (sent, g) = take_over_all old c₂.current_epoch slots ([], c₂.gossip) in
    (sent, record c₂ { gossip = g })

-- `GetMasterAddr`, of which the parts of the address are kept.
unfoldable pub get_master_addr : ClusterNode → Option (String × ℕ)
unfolding get_node
get_master_addr c =
    if str_eq c.master_id ""
    then none
    else elim (get_node c.master_id c.gossip) [ none ↦ none | some n ↦ some (n.ip, n.port) ]

-- The loop of `replicationTargetsForSlot`.
unfoldable pub targets_of : List SlotReplica → Gossip → List (String × String × ℕ)
unfolding get_node
targets_of [] g = []
targets_of (r ∷ rs) g =
    let rest = targets_of rs g in
    elim (get_node r.node_id g) [ none ↦ rest | some n ↦ (r.node_id, n.ip, n.port) ∷ rest ]

-- `replicationTargetsForSlot`
unfoldable pub replication_targets_for_slot : ℕ → ClusterNode → List (String × String × ℕ)
unfolding targets_of
replication_targets_for_slot slot c = elim (get_slot_info slot (slots_of c)) [
  | none ↦ []
  | some info ↦ targets_of info.replicas c.gossip
]

-- `BroadcastSlotOwnershipChange`
unfoldable pub broadcast_slot_ownership_change : ℕ → String → ClusterNode → Broadcast × ClusterNode
unfolding broadcast_slot_ownership
broadcast_slot_ownership_change slot primary c =
    let (b, g) = broadcast_slot_ownership slot primary c.gossip in (b, record c { gossip = g })

-- `RestoreState`, of the epochs and the parts of the saved state.
unfoldable pub restore_state :
    ℕ
    → ℕ
    → (ℕ → String)
    → (ℕ → Option MigrationState)
    → (ℕ → Option SlotReplicaSet)
    → ClusterNode
    → ClusterNode
unfolding set_current_epoch restore_from_state
restore_state current mine map ms sets c =
    let g = set_current_epoch current c.gossip in
    record c {
      current_epoch = current;
      my_epoch = mine;
      gossip = with_gossip (restore_from_state map ms sets g.claims.slots) g;
    }
