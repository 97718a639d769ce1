-- ===== src/Cluster/Slots.antt =====
-- internal/cluster/slots.go: the data of `SlotManager` and the operations on the owner of a slot.
-- The array of slots and the map of a node's slots are functions. `none` stands for a panic, where
-- the code indexes the array with no check. A lock makes each method one step.
pub mod Replicas
pub mod Promote
pub mod Migrate
pub mod Ranges
pub mod Restore
pub mod Index
pub mod Calls
pub mod Assigned
pub mod Marks
mod Tests
use autocache.Prelude.{
  ℕ, zero, suc, ◌+◌, ◌-◌, String, Bool, true, false, not, ◌&&◌, ◌||◌, Option, none, some, List, [],
  ◌∷◌, ◌++◌, str_eq, ltb, ◌==◌, if◌then◌else◌, update, update_key,
}
use autocache.Cluster.Hash.{slot_count, key_slot}
use autocache.Cluster.State
use autocache.Cluster.State.{StateManager}

pub data SlotState : Type 0 where
  normal importing exporting : SlotState

pub record SlotReplica : Type 0 where
  pub node_id : String
  pub match_lsn : ℕ
  pub healthy : Bool

pub record SlotInfo : Type 0 where
  pub state : SlotState
  pub node_id : String
  pub primary_id : String
  pub replicas : List SlotReplica
  pub config_epoch : ℕ
  pub next_lsn : ℕ
  pub importing : String
  pub exporting : String

pub record SlotManager : Type 0 where
  pub slots : ℕ → SlotInfo
  pub node_slots : String → List ℕ
  pub state_manager : Option StateManager

pub data SlotError : Type 0 where
  invalid_slot : ℕ → SlotError
  not_assigned : ℕ → SlotError
  replica_not_found : String → ℕ → SlotError
  invalid_ids : SlotError

-- `&SlotInfo{State: SlotStateNormal}`
abbrev pub blank : SlotInfo
blank = record {
  state = normal;
  node_id = "";
  primary_id = "";
  replicas = [];
  config_epoch = 0;
  next_lsn = 0;
  importing = "";
  exporting = "";
}

-- `NewSlotManager`
abbrev pub new_slot_manager : SlotManager
new_slot_manager = record { slots = λ _. blank; node_slots = λ _. []; state_manager = none }

unfoldable pub mark_dirty : SlotManager → SlotManager
unfolding State.mark_dirty
mark_dirty sm = record sm {
  state_manager = elim sm.state_manager [ none ↦ none | some m ↦ some (State.mark_dirty m) ];
}

pub put_slot : SlotManager → ℕ → SlotInfo → SlotManager
put_slot sm slot info = record sm { slots = update sm.slots slot info }

remove_first : ℕ → List ℕ → List ℕ
remove_first slot [] = []
remove_first slot (s ∷ slots) = if s == slot then slots else s ∷ remove_first slot slots

contains : ℕ → List ℕ → Bool
contains slot [] = false
contains slot (s ∷ slots) = s == slot || contains slot slots

-- `removeSlotFromNode`
remove_slot_from_node : SlotManager → String → ℕ → SlotManager
unfolding remove_first
remove_slot_from_node sm node slot = record sm {
  node_slots = update_key sm.node_slots node (remove_first slot (sm.node_slots node));
}

add_slot_to_node : SlotManager → String → ℕ → SlotManager
add_slot_to_node sm node slot = record sm {
  node_slots = update_key sm.node_slots node (sm.node_slots node ++ slot ∷ []);
}

-- The body of `AssignSlot` behind its check.
pub assign_checked : SlotManager → ℕ → String → SlotManager
unfolding mark_dirty put_slot remove_slot_from_node add_slot_to_node
assign_checked sm slot node =
    let old = (sm.slots slot).node_id in
    let sm₁ = if str_eq old "" then sm else remove_slot_from_node sm old slot in
    let sm₂ = put_slot sm₁ slot (record (sm₁.slots slot) {
      node_id = node;
      primary_id = node;
      replicas = [];
      state = normal;
    }) in
    mark_dirty (add_slot_to_node sm₂ node slot)

-- `AssignSlot`
unfoldable pub assign_slot : ℕ → String → SlotManager → Option SlotError × SlotManager
unfolding assign_checked
assign_slot slot node sm =
    if ltb slot slot_count
    then (none, assign_checked sm slot node)
    else (some (invalid_slot slot), sm)

-- The rounds that are left of the loop of `AssignSlotRange`, from `slot` on. The first slot that is
-- out of range ends it, long before a uint16 wraps.
assign_from : ℕ → ℕ → String → SlotManager → Option SlotError × SlotManager
assign_from zero slot node sm = (none, sm)
assign_from (suc n) slot node sm =
    let (e, sm') = assign_slot slot node sm in
    elim e [ none ↦ assign_from n (slot + 1) node sm' | some err ↦ (some err, sm') ]

-- `AssignSlotRange`
pub assign_slot_range : ℕ → ℕ → String → SlotManager → Option SlotError × SlotManager
unfolding assign_from assign_slot
assign_slot_range first last node sm = assign_from (last + 1 - first) first node sm

-- `setOwnerLocked`
pub set_owner : SlotManager → ℕ → String → SlotManager
unfolding put_slot remove_slot_from_node add_slot_to_node contains
set_owner sm slot node =
    let old = (sm.slots slot).node_id in
    let sm₁ =
      if not (str_eq old "") && not (str_eq old node)
      then remove_slot_from_node sm old slot
      else sm in
    let sm₂ = put_slot sm₁ slot (record (sm₁.slots slot) { node_id = node }) in
    if str_eq node "" || contains slot (sm₂.node_slots node)
    then sm₂
    else add_slot_to_node sm₂ node slot

-- `GetSlotNode`
unfoldable pub get_slot_node : ℕ → SlotManager → String
get_slot_node slot sm = if ltb slot slot_count then (sm.slots slot).node_id else ""

-- `GetSlotConfigEpoch`
unfoldable pub get_slot_config_epoch : ℕ → SlotManager → ℕ
get_slot_config_epoch slot sm = if ltb slot slot_count then (sm.slots slot).config_epoch else 0

-- `GetKeyNode`
pub get_key_node : List ℕ → SlotManager → String
unfolding get_slot_node
get_key_node key sm = get_slot_node (key_slot key) sm

-- `GetSlotInfo`, a copy that shares no memory with the manager.
unfoldable pub get_slot_info : ℕ → SlotManager → Option SlotInfo
get_slot_info slot sm = if ltb slot slot_count then some (sm.slots slot) else none

-- `GetNodeSlots`, a copy.
unfoldable pub get_node_slots : String → SlotManager → List ℕ
get_node_slots node sm = sm.node_slots node
