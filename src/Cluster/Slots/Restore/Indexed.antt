-- ===== src/Cluster/Slots/Restore/Indexed.antt =====
-- internal/cluster/slots.go: the index of the slots of a node, after a manager is restored.
use autocache.Prelude.{
  ℕ, zero, suc, ◌+◌, ◌≡◌, ◌≤◌, refl, String, Option, none, some, [], str_eq, eq_iff, if_keeps,
  arith,
}
use autocache.Cluster.Hash.{slot_count}
use autocache.Cluster.Slots.{SlotInfo, SlotManager, blank, put_slot, add_slot_to_node}
use autocache.Cluster.Slots.Index.{
  IsIndexed, set_owner-IsIndexed, count, Listing-add, Listing-IsIndexed, unowned-Listing,
}
use autocache.Cluster.Slots.Restore.{
  SlotReplicaSet, MigrationState, Side, imports, exports, restore_owner, restore_set,
  restore_replicas, migrating, restore_migration, each, restore_from_state,
}
use autocache.Cluster.Slots.Restore.Saved.{restore_owner-slot}

-- A loop keeps what each of its steps keeps.
each_keeps :
    (P : SlotManager → Type 0) (step : ℕ → SlotManager → SlotManager)
    → ((i : ℕ) (sm : SlotManager) → P sm → P (step i sm))
    → (n i : ℕ) (sm : SlotManager) → P sm
    → P (each step n i sm)
unfolding each
each_keeps P step keeps zero i sm h = h
each_keeps P step keeps (suc n) i sm h =
    each_keeps P step keeps n (i + 1) (step i sm) (keeps i sm h)

-- A slot whose owner stays keeps the index.
put_slot-IsIndexed :
    (sm : SlotManager) (slot : ℕ) (info : SlotInfo)
    → info.node_id ≡ (sm.slots slot).node_id
    → IsIndexed sm
    → IsIndexed (put_slot sm slot info)
unfolding put_slot
put_slot-IsIndexed sm slot info e h = record {
  listed = λ n s hn. ground (arith, h.listed n s hn, e);
}

restore_owner-IsIndexed :
    (map : ℕ → String) (i : ℕ) (sm : SlotManager)
    → (sm.slots i).node_id ≡ ""
    → IsIndexed sm
    → IsIndexed (restore_owner map i sm)
unfolding restore_owner add_slot_to_node put_slot
restore_owner-IsIndexed map i sm e h =
    if_keeps (λ r. IsIndexed r) (str_eq (map i) "") h
      (Listing-IsIndexed sm _ i (record (sm.slots i) { node_id = map i; primary_id = map i })
        (Listing-add sm.node_slots sm.slots i (map i) (unowned-Listing sm i e h)))

owners-IsIndexed :
    (map : ℕ → String) (n i : ℕ) (sm : SlotManager)
    → ((j : ℕ) → i ≤ j → (sm.slots j).node_id ≡ "")
    → IsIndexed sm
    → IsIndexed (each (restore_owner map) n i sm)
unfolding each
owners-IsIndexed map zero i sm free h = h
owners-IsIndexed map (suc n) i sm free h =
    owners-IsIndexed map n (i + 1) (restore_owner map i sm)
      (λ j le. ground (arith, restore_owner-slot map i j sm, free j (omega arith), le))
      (restore_owner-IsIndexed map i sm (free i (omega arith)) h)

restore_replicas-IsIndexed :
    (sets : ℕ → Option SlotReplicaSet) (i : ℕ) (sm : SlotManager)
    → IsIndexed sm
    → IsIndexed (restore_replicas sets i sm)
unfolding restore_replicas restore_set
restore_replicas-IsIndexed sets i sm h = by (sets i)
  where
    by :
        (o : Option SlotReplicaSet)
        → IsIndexed (elim o as (λ _. SlotManager) [ none ↦ sm | some s ↦ restore_set i s sm ])
    by none = h
    by (some s) = put_slot-IsIndexed _ i _ refl (
        if_keeps (λ r. IsIndexed r) (str_eq s.primary_id "") h
          (set_owner-IsIndexed sm i s.primary_id h))

restore_migration-IsIndexed :
    (ms : ℕ → Option MigrationState) (i : ℕ) (sm : SlotManager)
    → IsIndexed sm
    → IsIndexed (restore_migration ms i sm)
unfolding restore_migration migrating
restore_migration-IsIndexed ms i sm h = by (ms i)
  where
    by :
        (o : Option MigrationState)
        → IsIndexed (elim o as (λ _. SlotManager) [
          | none ↦ sm
          | some m ↦ put_slot sm i (migrating m m.side (sm.slots i))
        ])
    by none = h
    by (some m) = put_slot-IsIndexed sm i _ (side m.side) h
      where
        side : (s : Side) → (migrating m s (sm.slots i)).node_id ≡ (sm.slots i).node_id
        side imports = refl
        side exports = refl

-- Whatever the saved state says and whatever the manager held, after it is restored each slot stands
-- exactly once in the list of the node that owns it and in the list of no other node.
pub restore_from_state-IsIndexed :
    (map : ℕ → String) (ms : ℕ → Option MigrationState) (sets : ℕ → Option SlotReplicaSet)
    (sm : SlotManager)
    → IsIndexed (restore_from_state map ms sets sm)
unfolding restore_from_state count
restore_from_state-IsIndexed map ms sets sm =
    each_keeps IsIndexed (restore_migration ms) (restore_migration-IsIndexed ms) slot_count 0 _ (
      each_keeps IsIndexed (restore_replicas sets) (restore_replicas-IsIndexed sets) slot_count 0 _
        (owners-IsIndexed map slot_count 0 (record sm { slots = λ _. blank; node_slots = λ _. [] })
          (λ j le. refl) cleared))
  where
    cleared : IsIndexed (record sm { slots = λ _. blank; node_slots = λ _. [] })
    cleared = record { listed = λ node slot h. ground (arith, eq_iff "" node) }
