-- ===== src/Cluster/Slots/Tests.antt =====
-- internal/cluster/slots.go at concrete states.
use autocache.Prelude.{true, ◌≡◌, refl, none, List, [], ◌∷◌, arith, OnSome}
use autocache.Cluster.Hash.{slot_count, key_slot}
use autocache.Cluster.Slots.{
  SlotManager, blank, exporting, new_slot_manager, assign_slot, assign_slot_range, get_key_node,
  get_node_slots,
}
use autocache.Cluster.Slots.Index.{IsIndexed, new_slot_manager-IsIndexed}
use autocache.Cluster.Slots.Calls.{
  Call, assign_range, promote, import_from, finish, slot_replica, perform, perform_all,
  perform_all-IsIndexed,
}
use autocache.Cluster.Slots.Migrate.{finish_migration}
use autocache.Cluster.Slots.Restore.{
  get_slot_map, get_migrating_slots, get_slot_replication_state, restore_from_state,
}
use autocache.Cluster.Slots.Restore.Indexed.{restore_from_state-IsIndexed}
use autocache.Cluster.Slots.Restore.Saved.{restore_from_state_saved}
use autocache.Cluster.Slots.Ranges.{
  AreOrdered, count_assigned, get_cluster_slots, get_cluster_slots_lem, named, owner_in,
}

-- Slots 3 to 5 go to a node, slot 4 gains a replica, which is promoted, and slot 5 migrates.
abbrev script : List Call
script =
    assign_range 3 5 "n1"
    ∷ slot_replica 4 "n2"
    ∷ promote 4 "n2"
    ∷ import_from 5 "n1"
    ∷ finish 5 "n3"
    ∷ []

perform_all-IsIndexed_example : OnSome IsIndexed (perform_all script new_slot_manager)
perform_all-IsIndexed_example =
    perform_all-IsIndexed script new_slot_manager new_slot_manager-IsIndexed

-- A slot out of range is a panic for a method with no check.
panics : perform (finish slot_count "n1") new_slot_manager ≡ none
unfolding perform finish_migration
panics = refl

abbrev assigned : SlotManager
assigned = (assign_slot 7 "n1" new_slot_manager).1

get_cluster_slots_lem_example :
    AreOrdered 0 slot_count (get_cluster_slots assigned)
    × (owner_in (get_cluster_slots assigned) 7 ≡ named (assigned.slots 7).node_id)
get_cluster_slots_lem_example = get_cluster_slots_lem assigned 7 (omega arith)

-- `GetKeyNode` of "foo", in slot 12182, and `GetNodeSlots`.
key_node : get_key_node (0x66 ∷ 0x6f ∷ 0x6f ∷ []) (assign_slot 12182 "n2" new_slot_manager).1 ≡ "n2"
unfolding get_key_node key_slot assign_slot
key_node = refl

node_slots : get_node_slots "n1" (assign_slot_range 3 5 "n1" new_slot_manager).1 ≡ 3 ∷ 4 ∷ 5 ∷ []
unfolding get_node_slots assign_slot_range
node_slots = refl

count_runs : count_assigned (assign_slot_range 3 5 "n1" new_slot_manager).1 ≡ 3
unfolding count_assigned assign_slot_range
count_runs = refl

-- Every slot is on its way from "n1" to "n2".
abbrev leaving : SlotManager
leaving = record new_slot_manager {
  slots = λ _. record blank {
    state = exporting;
    node_id = "n1";
    primary_id = "n1";
    replicas = record { node_id = "n3"; match_lsn = 8; healthy = true } ∷ [];
    config_epoch = 2;
    next_lsn = 9;
    exporting = "n2";
  };
}

restore_from_state_saved_example :
    (restore_from_state
        (get_slot_map leaving)
        (get_migrating_slots leaving)
        (get_slot_replication_state leaving)
        assigned).slots
      7
    ≡ leaving.slots 7
restore_from_state_saved_example =
    restore_from_state_saved leaving assigned 7 (omega arith)
      (record { primary = refl; marks = refl })

restore_from_state-IsIndexed_example : IsIndexed (
    restore_from_state
      (get_slot_map leaving)
      (get_migrating_slots leaving)
      (get_slot_replication_state leaving)
      assigned)
restore_from_state-IsIndexed_example =
    restore_from_state-IsIndexed (get_slot_map leaving) (get_migrating_slots leaving)
      (get_slot_replication_state leaving) assigned
