-- ===== src/Cluster/Gossip.antt =====
-- internal/cluster/gossip/gossip.go: what a node makes of the slots that other nodes claim, by epoch.
-- The connections are I/O. `slot_epochs` is the map of the epochs seen, 0 where it has none.
pub mod Bitmap
pub mod Nodes
pub mod Failures
pub mod Messages
pub mod Claims
mod Tests
use autocache.Prelude.{
  ℕ, String, Bool, true, false, Option, none, some, List, [], ◌∷◌, str_eq, ltb, leb, ◌==◌,
  if◌then◌else◌, update,
}
use autocache.Cluster.Slots.{SlotManager, assign_slot, get_slot_node, get_slot_config_epoch}

-- The part of `Gossip` that the slots use.
pub record SlotClaims : Type 0 where
  pub slot_epochs : ℕ → ℕ
  pub slots : SlotManager

-- The epoch that `canApplySlotOwnership` compares with.
unfoldable pub seen_epoch : ℕ → SlotClaims → ℕ
seen_epoch slot g =
    let assigned = get_slot_config_epoch slot g.slots in
    if ltb (g.slot_epochs slot) assigned then assigned else g.slot_epochs slot

-- `canApplySlotOwnership`
unfoldable pub can_apply_slot_ownership : ℕ → ℕ → SlotClaims → Bool
can_apply_slot_ownership slot incoming g =
    if incoming == 0 then seen_epoch slot g == 0 else ltb (seen_epoch slot g) incoming

-- `recordSlotEpoch`
unfoldable pub record_slot_epoch : ℕ → ℕ → SlotClaims → SlotClaims
record_slot_epoch slot epoch g =
    if leb (g.slot_epochs slot) epoch
    then record g { slot_epochs = update g.slot_epochs slot epoch }
    else g

-- The assignment to another node, and the epoch of it.
unfoldable pub take_slot : String → ℕ → ℕ → SlotClaims → SlotClaims
take_slot node epoch slot g =
    let (err, sm) = assign_slot slot node g.slots in
    elim err [
      | none ↦ record_slot_epoch slot epoch (record g { slots = sm })
      | some _ ↦ record g { slots = sm }
    ]

-- One round of the loop over the slots in `processNodeInfo`: the node claims the slot at the epoch. It
-- is one step here; in the source the test, the assignment and the record of the epoch are three steps,
-- of which no other handling of a message comes in between by assumption.
unfoldable pub claim_slot : String → ℕ → ℕ → SlotClaims → SlotClaims
claim_slot node epoch slot g =
    if can_apply_slot_ownership slot epoch g
    then (if str_eq (get_slot_node slot g.slots) node
        then record_slot_epoch slot epoch g
        else take_slot node epoch slot g)
    else g

-- The loop, over the slots of the node's message.
unfoldable pub claim_slots : String → ℕ → List ℕ → SlotClaims → SlotClaims
claim_slots node epoch [] g = g
claim_slots node epoch (slot ∷ slots) g =
    claim_slots node epoch slots (claim_slot node epoch slot g)
