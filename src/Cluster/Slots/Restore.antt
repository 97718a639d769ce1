-- ===== src/Cluster/Slots/Restore.antt =====
-- internal/cluster/slots.go: what is saved of a slot manager, and `RestoreFromState`. The types of
-- the saved state are those of internal/cluster/state/types.go. The maps are functions, whose entries
-- at the slots in range are walked in ascending order; a saved migration of a slot out of range, which
-- would be a panic, is outside the model.
pub mod Saved
pub mod Indexed
use autocache.Prelude.{
  ℕ, zero, suc, ◌+◌, ◌≡◌, ◌<◌, refl, sym, ap, ◌∙◌, String, Bool, true, false, not, ◌&&◌, Option,
  none, some, List, [], ◌∷◌, ◌++◌, str_eq, eq_iff, ◌==◌, leb, ltb, if◌then◌else◌, update,
  update_key, arith, length,
}
use autocache.Cluster.Hash.{slot_count}
use autocache.Cluster.Slots.{
  SlotState, normal, importing, exporting, SlotReplica, SlotInfo, SlotManager, blank, put_slot,
  add_slot_to_node, set_owner,
}
use autocache.Cluster.Slots.Promote.Effect.{slots-set_owner}

-- `SlotReplicaSet`
pub record SlotReplicaSet : Type 0 where
  pub primary_id : String
  pub replicas : List SlotReplica
  pub config_epoch : ℕ
  pub next_lsn : ℕ

-- `MigrationState`, with its state "importing" or "exporting".
pub data Side : Type 0 where
  imports exports : Side

pub record MigrationState : Type 0 where
  pub source_node_id : String
  pub target_node_id : String
  pub side : Side

-- `GetSlotMapSnapshot`
unfoldable pub get_slot_map : SlotManager → ℕ → String
get_slot_map sm i = (sm.slots i).node_id

migration_of : SlotInfo → SlotState → Option MigrationState
migration_of info normal = none
migration_of info importing =
    some (record { source_node_id = info.importing; target_node_id = info.node_id; side = imports })
migration_of info exporting =
    some (record { source_node_id = info.node_id; target_node_id = info.exporting; side = exports })

-- `GetMigratingSlots`
unfoldable pub get_migrating_slots : SlotManager → ℕ → Option MigrationState
unfolding migration_of
get_migrating_slots sm i = migration_of (sm.slots i) (sm.slots i).state

set_of : SlotInfo → Option SlotReplicaSet
set_of info =
    if str_eq info.primary_id ""
      && length info.replicas == 0
      && info.config_epoch == 0
      && info.next_lsn == 0
    then none
    else some (record {
      primary_id = info.primary_id;
      replicas = info.replicas;
      config_epoch = info.config_epoch;
      next_lsn = info.next_lsn;
    })

-- `GetSlotReplicationState`
unfoldable pub get_slot_replication_state : SlotManager → ℕ → Option SlotReplicaSet
unfolding set_of
get_slot_replication_state sm i = set_of (sm.slots i)

pub restore_owner : (ℕ → String) → ℕ → SlotManager → SlotManager
unfolding put_slot add_slot_to_node
restore_owner map i sm =
    if str_eq (map i) ""
    then sm
    else add_slot_to_node
        (put_slot sm i (record (sm.slots i) { node_id = map i; primary_id = map i })) (map i) i

restore_set : ℕ → SlotReplicaSet → SlotManager → SlotManager
unfolding put_slot set_owner
restore_set i s sm =
    let sm₁ = if str_eq s.primary_id "" then sm else set_owner sm i s.primary_id in
    let info = sm₁.slots i in
    put_slot sm₁ i (record info {
      primary_id = if str_eq s.primary_id "" then info.primary_id else s.primary_id;
      config_epoch = s.config_epoch;
      next_lsn = s.next_lsn;
      replicas = s.replicas;
    })

restore_replicas : (ℕ → Option SlotReplicaSet) → ℕ → SlotManager → SlotManager
unfolding restore_set
restore_replicas sets i sm = elim (sets i) [ none ↦ sm | some s ↦ restore_set i s sm ]

migrating : MigrationState → Side → SlotInfo → SlotInfo
migrating m imports info = record info { state = importing; importing = m.source_node_id }
migrating m exports info = record info { state = exporting; exporting = m.target_node_id }

restore_migration : (ℕ → Option MigrationState) → ℕ → SlotManager → SlotManager
unfolding put_slot migrating
restore_migration ms i sm = elim (ms i) [
  | none ↦ sm
  | some m ↦ put_slot sm i (migrating m m.side (sm.slots i))
]

-- The loop over the slots from `i` on, `n` of them.
each : (ℕ → SlotManager → SlotManager) → ℕ → ℕ → SlotManager → SlotManager
each step zero i sm = sm
each step (suc n) i sm = each step n (i + 1) (step i sm)

-- `RestoreFromState`
unfoldable pub restore_from_state :
    (ℕ → String)
    → (ℕ → Option MigrationState)
    → (ℕ → Option SlotReplicaSet)
    → SlotManager
    → SlotManager
unfolding each restore_owner restore_replicas restore_migration
restore_from_state map ms sets sm =
    let cleared = record sm { slots = λ _. blank; node_slots = λ _. [] } in
    let owned = each (restore_owner map) slot_count 0 cleared in
    let replicated = each (restore_replicas sets) slot_count 0 owned in
    each (restore_migration ms) slot_count 0 replicated
