-- ===== src/Cluster/Slots/Restore/Saved.antt =====
-- internal/cluster/slots.go: a slot manager that is saved and restored.
use autocache.Prelude.{
  ℕ, zero, suc, ◌+◌, ◌≡◌, ◌<◌, refl, ap, ◌∙◌, String, true, ◌&&◌, Option, none, some, List, [], ◌∷◌,
  str_eq, eq_iff, ◌==◌, leb, ltb, if◌then◌else◌, arith, length,
}
use autocache.Cluster.Hash.{slot_count}
use autocache.Cluster.Slots.{
  SlotState, normal, importing, exporting, SlotReplica, SlotInfo, SlotManager, blank, put_slot,
  add_slot_to_node,
}
use autocache.Cluster.Slots.Promote.Effect.{slots-set_owner}
use autocache.Cluster.Slots.Restore.{
  SlotReplicaSet, MigrationState, imports, exports, get_slot_map, migration_of, get_migrating_slots,
  set_of, get_slot_replication_state, restore_owner, restore_set, restore_replicas, migrating,
  restore_migration, each, restore_from_state,
}

-- A loop whose steps each change their own slot only changes each slot of its range once.
each_slot :
    (step : ℕ → SlotManager → SlotManager) (g : ℕ → SlotInfo → SlotInfo)
    → ((i j : ℕ) (sm : SlotManager)
        → (step i sm).slots j ≡ (if i == j then g i (sm.slots i) else sm.slots j))
    → (n i j : ℕ) (sm : SlotManager)
    → (each step n i sm).slots j
      ≡ (if leb i j && ltb j (i + n) then g j (sm.slots j) else sm.slots j)
unfolding each
each_slot step g own zero i j sm = ground arith
each_slot step g own (suc n) i j sm =
    ground (arith, each_slot step g own n (i + 1) j (step i sm), own i j sm)

-- What each loop makes of one slot.
abbrev pub owner_info : String → SlotInfo → SlotInfo
owner_info m info = if str_eq m "" then info else record info { node_id = m; primary_id = m }

abbrev set_info : Option SlotReplicaSet → SlotInfo → SlotInfo
set_info none info = info
set_info (some s) info = record info {
  node_id = if str_eq s.primary_id "" then info.node_id else s.primary_id;
  primary_id = if str_eq s.primary_id "" then info.primary_id else s.primary_id;
  config_epoch = s.config_epoch;
  next_lsn = s.next_lsn;
  replicas = s.replicas;
}

abbrev side_info : Option MigrationState → SlotInfo → SlotInfo
side_info none info = info
side_info (some m) info = elim m.side [
  | imports ↦ record info { state = importing; importing = m.source_node_id }
  | exports ↦ record info { state = exporting; exporting = m.target_node_id }
]

pub restore_owner-slot :
    (map : ℕ → String) (i j : ℕ) (sm : SlotManager)
    → (restore_owner map i sm).slots j
      ≡ (if i == j then owner_info (map i) (sm.slots i) else sm.slots j)
unfolding restore_owner put_slot add_slot_to_node
restore_owner-slot map i j sm = ground arith

restore_set-slot :
    (i j : ℕ) (s : SlotReplicaSet) (sm : SlotManager)
    → (restore_set i s sm).slots j ≡ (if i == j then set_info (some s) (sm.slots i) else sm.slots j)
unfolding restore_set put_slot
restore_set-slot i j s sm =
    ground (arith, slots-set_owner sm i s.primary_id i, slots-set_owner sm i s.primary_id j)

restore_replicas-slot :
    (sets : ℕ → Option SlotReplicaSet) (i j : ℕ) (sm : SlotManager)
    → (restore_replicas sets i sm).slots j
      ≡ (if i == j then set_info (sets i) (sm.slots i) else sm.slots j)
unfolding restore_replicas
restore_replicas-slot sets i j sm = by (sets i)
  where
    by :
        (o : Option SlotReplicaSet)
        → (elim o as (λ _. SlotManager) [ none ↦ sm | some s ↦ restore_set i s sm ]).slots j
          ≡ (if i == j then set_info o (sm.slots i) else sm.slots j)
    by none = ground arith
    by (some s) = restore_set-slot i j s sm

restore_migration-slot :
    (ms : ℕ → Option MigrationState) (i j : ℕ) (sm : SlotManager)
    → (restore_migration ms i sm).slots j
      ≡ (if i == j then side_info (ms i) (sm.slots i) else sm.slots j)
unfolding restore_migration put_slot migrating
restore_migration-slot ms i j sm = ground arith

restored_slot :
    (map : ℕ → String) (ms : ℕ → Option MigrationState) (sets : ℕ → Option SlotReplicaSet)
    (sm : SlotManager) (j : ℕ)
    → j < slot_count
    → (restore_from_state map ms sets sm).slots j
      ≡ side_info (ms j) (set_info (sets j) (owner_info (map j) blank))
unfolding restore_from_state
restored_slot map ms sets sm j lt =
    let cleared = record sm { slots = λ _. blank; node_slots = λ _. [] } in
    let owned = each (restore_owner map) slot_count 0 cleared in
    let replicated = each (restore_replicas sets) slot_count 0 owned in
    in_range (restore_migration ms) (λ i. side_info (ms i)) (restore_migration-slot ms) replicated
    ∙ ap (side_info (ms j)) (
        in_range (restore_replicas sets) (λ i. set_info (sets i)) (restore_replicas-slot sets) owned
        ∙ ap (set_info (sets j)) (
            in_range (restore_owner map) (λ i. owner_info (map i)) (restore_owner-slot map)
              cleared))
  where
    in_range :
        (step : ℕ → SlotManager → SlotManager) (g : ℕ → SlotInfo → SlotInfo)
        → ((i k : ℕ) (s : SlotManager)
            → (step i s).slots k ≡ (if i == k then g i (s.slots i) else s.slots k))
        → (s : SlotManager) → (each step slot_count 0 s).slots j ≡ g j (s.slots j)
    in_range step g own s = ground (arith, each_slot step g own slot_count 0 j s, lt)

-- The marks of a migration, `from` and `to`, that a slot in the state may have.
abbrev pub Marks : SlotState → String → String → Type 0
Marks normal from to = (from ≡ "") × (to ≡ "")
Marks importing from to = to ≡ ""
Marks exporting from to = from ≡ ""

-- The slot's primary is its owner, and it has no mark of a migration but that of its state.
pub record IsSettled (info : SlotInfo) : Type 0 where
  pub primary : info.primary_id ≡ info.node_id
  pub marks : Marks info.state info.importing info.exporting

no_replicas : (rs : List SlotReplica) → (length rs == 0) ≡ true → rs ≡ []
no_replicas [] e = refl
no_replicas (r ∷ rs) e = ground (arith, e)

-- The slot before its migration is restored.
set_of_info :
    (info : SlotInfo)
    → info.primary_id ≡ info.node_id
    → set_info (set_of info) (owner_info info.node_id blank)
      ≡ record info { state = normal; importing = ""; exporting = "" }
unfolding set_of
set_of_info info e =
    ground (arith, e, eq_iff info.primary_id "", eq_iff info.node_id "", no_replicas info.replicas)

side_of_info :
    (info : SlotInfo) (st : SlotState)
    → info.state ≡ st
    → Marks st info.importing info.exporting
    → side_info
        (migration_of info st)
        (record info { state = normal; importing = ""; exporting = "" })
      ≡ info
unfolding migration_of
side_of_info info normal e h = ground (arith, e, h.0, h.1)
side_of_info info importing e h = ground (arith, e, h)
side_of_info info exporting e h = ground (arith, e, h)

-- A manager that is restored, whatever it held, from what is saved of `sm` has every slot in range
-- whose primary is its owner, and whose marks are those of its state, as it is in `sm`: its state,
-- owner, replicas, epoch and next log number are what they were.
pub restore_from_state_saved :
    (sm before : SlotManager) (slot : ℕ)
    → slot < slot_count
    → IsSettled (sm.slots slot)
    → (restore_from_state
          (get_slot_map sm)
          (get_migrating_slots sm)
          (get_slot_replication_state sm)
          before).slots
        slot
      ≡ sm.slots slot
unfolding get_slot_map get_migrating_slots get_slot_replication_state set_of
restore_from_state_saved sm before slot lt h =
    restored_slot (get_slot_map sm) (get_migrating_slots sm) (get_slot_replication_state sm) before
      slot lt
    ∙ ap (side_info (migration_of (sm.slots slot) (sm.slots slot).state))
        (set_of_info (sm.slots slot) h.primary)
    ∙ side_of_info (sm.slots slot) (sm.slots slot).state refl h.marks
