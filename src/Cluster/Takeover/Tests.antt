-- ===== src/Cluster/Takeover/Tests.antt =====
-- internal/cluster/cluster.go and internal/cluster/gossip at concrete states: slot 7 of the node "a"
-- goes to its replica "b", and a third node "c" hears of it.
use autocache.Prelude.{ℕ, ◌≡◌, refl, some, List, [], ◌∷◌, arith, length}
use autocache.Cluster.Slots.{
  SlotManager, new_slot_manager, assign_slot, get_node_slots, get_slot_config_epoch,
}
use autocache.Cluster.Slots.Index.{new_slot_manager-IsIndexed}
use autocache.Cluster.Slots.Calls.{assign_slot-IsIndexed}
use autocache.Cluster.Slots.Replicas.{set_slot_config_epoch}
use autocache.Cluster.Gossip.{seen_epoch}
use autocache.Cluster.Gossip.Claims.{Holds}
use autocache.Cluster.Gossip.Bitmap.{slots_to_bytes, bytes_to_slots, has_slot}
use autocache.Cluster.Gossip.Bitmap.Bits.{bytes_to_slots-slots_to_bytes}
use autocache.Cluster.Gossip.Nodes.{
  master, replica, connected, fail, GossipNode, new_node, Gossip, get_node,
}
use autocache.Cluster.Gossip.Failures.{check_node_failures}
use autocache.Cluster.Gossip.Failures.Quorum.{Judged, check_node_failures-Judged}
use autocache.Cluster.Gossip.Messages.{NodeInfo, process_gossip}
use autocache.Cluster.Gossip.Messages.Hearsay.{IsHeld, process_gossip-IsHeld}
use autocache.Cluster.Gossip.Messages.News.{broadcast_slot_ownership-Holds}
use autocache.Cluster.Gossip.Messages.Sent.{tells, slot_epoch, broadcast_slot_ownership}
use autocache.Cluster.Takeover.{ClusterNode, failover_to_master}
use autocache.Cluster.Takeover.Owner.{TookOver, failover_to_master-TookOver}

bytes_to_slots-slots_to_bytes_example :
    (bitmap : List ℕ) × (slots_to_bytes (7 ∷ 16383 ∷ []) ≡ some bitmap)
    × (length bitmap ≡ 2048)
    × ((slot : ℕ) → has_slot slot (bytes_to_slots bitmap) ≡ has_slot slot (7 ∷ 16383 ∷ []))
bytes_to_slots-slots_to_bytes_example =
    bytes_to_slots-slots_to_bytes (7 ∷ 16383 ∷ []) (omega arith, (omega arith, tt))

abbrev node_a : GossipNode
node_a = record {
  id = "a";
  ip = "10.0.0.1";
  port = 7000;
  cluster_port = 17000;
  role = master;
  master_id = "";
  state = connected;
  ping_sent = 0;
  pong_received = 50000;
  fail_reports = ("c", 90000) ∷ ("d", 80000) ∷ ("e", 10000) ∷ [];
  total_qps = 0;
  hot_slot_count = 0;
}

abbrev node_b : GossipNode
node_b = new_node "b" "10.0.0.2" 7000 17000

abbrev node_c : GossipNode
node_c = record node_a { id = "c"; pong_received = 99000; fail_reports = [] }

-- Slot 7 belongs to "a", at epoch 2.
abbrev owned : SlotManager
owned = set_slot_config_epoch 7 2 (assign_slot 7 "a" new_slot_manager).1

abbrev at_b : Gossip
at_b = record {
  self_id = "b";
  nodes = ("a", node_a) ∷ ("b", node_b) ∷ ("c", node_c) ∷ [];
  claims = record { slot_epochs = λ slot. 0; slots = owned };
  current_epoch = 4;
  started = [];
}

known_a : get_node "a" at_b ≡ some node_a
unfolding get_node
known_a = refl

check_node_failures-Judged_example : Judged 100000 "a" node_a at_b (check_node_failures 100000 at_b)
check_node_failures-Judged_example =
    check_node_failures-Judged 100000 "a" node_a at_b (refl, (refl, (refl, tt))) known_a refl

-- The node has been silent for 50 seconds, and two of the three reports are recent.
a_failed : get_node "a" (check_node_failures 100000 at_b) ≡ some (record node_a { state = fail })
unfolding get_node check_node_failures new_node
a_failed = refl

abbrev at_c : Gossip
at_c = record {
  self_id = "c";
  nodes = ("c", node_c) ∷ ("a", node_a) ∷ [];
  claims = record { slot_epochs = λ slot. 0; slots = new_slot_manager };
  current_epoch = 1;
  started = [];
}

-- Someone says that "a" is a replica that may have failed, and owns slot 0.
abbrev hearsay : NodeInfo
hearsay = record {
  id = "a";
  ip = "";
  port = 0;
  cluster_port = 0;
  flags = 6;
  master_id = "x";
  ping_sent = 0;
  pong_recv = 0;
  config_epoch = 1;
  slots = 1 ∷ [];
  total_qps = 0;
  hot_slot_count = 0;
  reporter_id = "";
}

a_IsHeld : IsHeld "a" master "" connected at_c
unfolding get_node
a_IsHeld = record { node = node_a; known = refl; role_of = refl; master_of = refl; state_of = refl }

process_gossip-IsHeld_example :
    IsHeld "a" master "" connected (process_gossip 100000 "d" (hearsay ∷ []) at_c)
process_gossip-IsHeld_example =
    process_gossip-IsHeld "a" master "" connected 100000 "d" (hearsay ∷ []) at_c a_IsHeld

seen_by_c : seen_epoch 7 at_c.claims ≡ 0
unfolding seen_epoch get_slot_config_epoch
seen_by_c = refl

told_by_b : (slot_epoch 7 at_b).0 ≡ 2
unfolding slot_epoch get_slot_config_epoch set_slot_config_epoch
told_by_b = refl

listed_by_b : get_node_slots "a" owned ≡ 7 ∷ []
unfolding get_node_slots set_slot_config_epoch assign_slot
listed_by_b = refl

broadcast_slot_ownership-Holds_example :
    (info : NodeInfo) × (to : List GossipNode) × ((broadcast_slot_ownership 7 "a" at_b).0
      ≡ tells info to)
    × Holds 7 "a" (slot_epoch 7 at_b).0 (process_gossip 100000 "b" (info ∷ []) at_c).claims
broadcast_slot_ownership-Holds_example =
    broadcast_slot_ownership-Holds 100000 7 "a" "b" "" node_a connected at_b at_c (omega arith)
      known_a (rw listed_by_b (omega arith, tt)) a_IsHeld (omega (arith, seen_by_c, told_by_b))

seen_by_b : seen_epoch 7 at_b.claims ≡ 2
unfolding seen_epoch get_slot_config_epoch set_slot_config_epoch
seen_by_b = refl

-- Before the failover "b" replicates "a".
abbrev before : ClusterNode
before = record {
  role = replica;
  master_id = "a";
  current_epoch = 4;
  my_epoch = 0;
  gossip = record at_b {
    claims = record { slot_epochs = λ slot. 0; slots = (assign_slot 7 "a" new_slot_manager).1 };
  };
}

failover_to_master-TookOver_example : TookOver "a" 7 before (failover_to_master "a" before).1
failover_to_master-TookOver_example =
    failover_to_master-TookOver "a" 7 before (omega arith) (λ e. absurd (cc e))
      (assign_slot-IsIndexed 7 "a" new_slot_manager new_slot_manager-IsIndexed)
