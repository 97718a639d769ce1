-- ===== src/Cluster/Slots/Assigned.antt =====
-- internal/cluster/slots.go: what `AssignSlot` does to the slot.
use autocache.Prelude.{
  ℕ, ◌<◌, String, ◌≡◌, refl, ap, ◌≢◌, Option, none, [], arith, str_eq, ltb, ◌==◌, lt→ltb, ==_iff,
  if_keeps, if_keeps_on, update,
}
use autocache.Cluster.Hash.{slot_count}
use autocache.Cluster.Slots.{
  SlotInfo, normal, SlotManager, SlotError, assign_slot, assign_checked, mark_dirty, put_slot,
  remove_slot_from_node, add_slot_to_node, get_slot_node, get_slot_config_epoch,
}

-- The slot belongs to the node, at the epoch that it had.
pub record Assigned (slot : ℕ) (node : String) (sm sm' : SlotManager) : Type 0 where
  pub owner : get_slot_node slot sm' ≡ node
  pub epoch : get_slot_config_epoch slot sm' ≡ get_slot_config_epoch slot sm

-- The end of `assign_checked`, on the slots as they were.
assign_end : ℕ → String → SlotManager → SlotManager
assign_end slot node sm = mark_dirty (
    add_slot_to_node
      (put_slot sm slot (record (sm.slots slot) {
        node_id = node;
        primary_id = node;
        replicas = [];
        state = normal;
      }))
      node slot)

update-same : {A B : Type 0} (f : ℕ → A) (i : ℕ) (a : A) (g : A → B) → g (update f i a i) ≡ g a
update-same f i a g = ap g (if_keeps_on (λ b. b ≡ a) (i == i) (λ _. refl) (λ e. ground (arith, e)))

assign_end-Assigned :
    (slot : ℕ) (node : String) (sm : SlotManager)
    → slot < slot_count
    → Assigned slot node sm (assign_end slot node sm)
unfolding assign_end mark_dirty put_slot add_slot_to_node get_slot_node get_slot_config_epoch
assign_end-Assigned slot node sm h = record {
  owner = rw (lt→ltb slot slot_count h) (update-same sm.slots slot _ (λ (i : SlotInfo). i.node_id));
  epoch =
      rw (lt→ltb slot slot_count h)
        (update-same sm.slots slot _ (λ (i : SlotInfo). i.config_epoch));
}

end_others :
    (slot j : ℕ) (node : String) (sm : SlotManager)
    → slot ≢ j
    → (assign_end slot node sm).slots j ≡ sm.slots j
unfolding assign_end mark_dirty put_slot add_slot_to_node
end_others slot j node sm d =
    if_keeps_on (λ i. i ≡ sm.slots j) (slot == j) (λ e. absurd (d ((==_iff slot j).0 e)))
      (λ _. refl)

assign_checked-Assigned :
    (slot : ℕ) (node : String) (sm : SlotManager)
    → slot < slot_count
    → Assigned slot node sm (assign_checked sm slot node)
unfolding assign_checked assign_end remove_slot_from_node get_slot_config_epoch
assign_checked-Assigned slot node sm h =
    let owner = (sm.slots slot).node_id in
    if_keeps (λ sm₁. Assigned slot node sm (assign_end slot node sm₁)) (str_eq owner "")
      (assign_end-Assigned slot node sm h)
      (let r = assign_end-Assigned slot node (remove_slot_from_node sm owner slot) h in
        record { owner = r.owner; epoch = r.epoch })

pub assign_slot-Assigned :
    (slot : ℕ) (node : String) (sm : SlotManager)
    → slot < slot_count
    → ((assign_slot slot node sm).0 ≡ none) × Assigned slot node sm (assign_slot slot node sm).1
unfolding assign_slot
assign_slot-Assigned slot node sm h =
    rw (lt→ltb slot slot_count h) (refl, assign_checked-Assigned slot node sm h)

-- `AssignSlot` changes no other slot.
pub assign_slot-others :
    (slot j : ℕ) (node : String) (sm : SlotManager)
    → slot ≢ j
    → (assign_slot slot node sm).1.slots j ≡ sm.slots j
unfolding assign_slot assign_checked assign_end remove_slot_from_node
assign_slot-others slot j node sm d =
    if_keeps (λ (r : Option SlotError × SlotManager). r.1.slots j ≡ sm.slots j)
      (ltb slot slot_count)
      (if_keeps (λ sm₁. (assign_end slot node sm₁).slots j ≡ sm.slots j)
        (str_eq (sm.slots slot).node_id "") (end_others slot j node sm d)
        (end_others slot j node (remove_slot_from_node sm (sm.slots slot).node_id slot) d))
      refl
