-- ===== src/Cluster/Slots/Replicas.antt =====
-- internal/cluster/slots.go: the replicas of a slot, the log sequence numbers that its primary
-- allocates, and the promotion of a replica.
use autocache.Prelude.{
  ℕ, zero, suc, ◌+◌, ◌%◌, ◌^◌, String, Bool, true, false, not, ◌||◌, Option, none, some, List, [],
  ◌∷◌, ◌++◌, str_eq, ltb, if◌then◌else◌,
}
use autocache.Cluster.Hash.{slot_count}
use autocache.Cluster.Slots.{
  SlotReplica, SlotInfo, SlotManager, SlotError, invalid_slot, not_assigned, replica_not_found,
  invalid_ids, mark_dirty, put_slot, set_owner,
}

-- uint64 addition of one.
abbrev pub next64 : ℕ → ℕ
next64 n = (n + 1) % 2 ^ 64

-- `SlotReplica{NodeID: id, Healthy: true}`
abbrev pub fresh_replica : String → SlotReplica
fresh_replica id = record { node_id = id; match_lsn = 0; healthy = true }

-- `SetSlotConfigEpoch`: an epoch for a slot out of range is dropped, and the state marked dirty.
unfoldable pub set_slot_config_epoch : ℕ → ℕ → SlotManager → SlotManager
unfolding mark_dirty put_slot
set_slot_config_epoch slot epoch sm = mark_dirty (
    if ltb slot slot_count
    then put_slot sm slot (record (sm.slots slot) { config_epoch = epoch })
    else sm)

-- The loop of `ConfigureReplication`.
fresh_replicas : String → List String → List SlotReplica
fresh_replicas primary [] = []
fresh_replicas primary (id ∷ ids) =
    let rest = fresh_replicas primary ids in
    if str_eq id "" || str_eq id primary then rest else fresh_replica id ∷ rest

-- `ConfigureReplication`
unfoldable pub configure_replication :
    ℕ → String → List String → ℕ → SlotManager → Option SlotError × SlotManager
unfolding fresh_replicas set_owner mark_dirty put_slot
configure_replication slot primary ids epoch sm =
    if ltb slot slot_count
    then (let sm' = set_owner sm slot primary in
        (
          none,
          mark_dirty (
              put_slot sm' slot (record (sm'.slots slot) {
                primary_id = primary;
                config_epoch = epoch;
                replicas = fresh_replicas primary ids;
              })),
        ))
    else (some (invalid_slot slot), sm)

has_replica : String → List SlotReplica → Bool
has_replica id [] = false
has_replica id (r ∷ rs) = str_eq r.node_id id || has_replica id rs

-- `AddSlotReplica`
unfoldable pub add_slot_replica : ℕ → String → SlotManager → SlotManager
unfolding has_replica mark_dirty put_slot
add_slot_replica slot id sm =
    let info = sm.slots slot in
    if not (ltb slot slot_count)
      || str_eq id ""
      || str_eq info.node_id ""
      || has_replica id info.replicas
    then sm
    else mark_dirty
        (put_slot sm slot (record info { replicas = info.replicas ++ fresh_replica id ∷ [] }))

-- What a round of the loop of `AddReplicaToMaster` does to a slot of the master. The loop over the
-- replicas sets `Healthy` on a copy of the element, so a replica that is there stays as it is.
unfoldable pub attach_replica : String → String → ℕ → SlotInfo → SlotInfo
unfolding has_replica
attach_replica master replica epoch info = record info {
  primary_id = master;
  config_epoch = epoch;
  replicas =
      if has_replica replica info.replicas
      then info.replicas
      else info.replicas ++ fresh_replica replica ∷ [];
}

-- The loop over the slots from `slot` on, with the count so far.
unfoldable pub attach_from : ℕ → ℕ → String → String → ℕ → ℕ → SlotManager → ℕ × SlotManager
attach_from zero slot master replica epoch n sm = (n, sm)
attach_from (suc left) slot master replica epoch n sm =
    let info = sm.slots slot in
    let owned = str_eq info.node_id master in
    attach_from left (slot + 1) master replica epoch (if owned then n + 1 else n)
      (if owned then put_slot sm slot (attach_replica master replica epoch info) else sm)

-- `AddReplicaToMaster`
unfoldable pub add_replica_to_master :
    String → String → ℕ → SlotManager → (Option SlotError × ℕ) × SlotManager
unfolding attach_from attach_replica mark_dirty put_slot
add_replica_to_master master replica epoch sm =
    if str_eq master "" || str_eq replica "" || str_eq master replica
    then ((some invalid_ids, 0), sm)
    else (let (n, sm') = attach_from slot_count 0 master replica epoch 0 sm in
        ((none, n), if ltb 0 n then mark_dirty sm' else sm'))

-- What `AllocateLSN` returns: the epoch and the number, or an error.
pub data Allocation : Type 0 where
  allocated : ℕ → ℕ → Allocation
  refused : SlotError → Allocation

-- `AllocateLSN`
unfoldable pub allocate_lsn : ℕ → SlotManager → Allocation × SlotManager
unfolding mark_dirty put_slot
allocate_lsn slot sm =
    let info = sm.slots slot in
    if not (ltb slot slot_count)
    then (refused (invalid_slot slot), sm)
    else if str_eq info.node_id ""
    then (refused (not_assigned slot), sm)
    else (
      allocated info.config_epoch (next64 info.next_lsn),
      mark_dirty (put_slot sm slot (record info { next_lsn = next64 info.next_lsn })),
    )

-- The loop of `UpdateReplicaLSN`: the first replica with the identifier is updated; `none` if there is
-- no such replica.
unfoldable pub raise_lsn : String → ℕ → List SlotReplica → Option (List SlotReplica)
raise_lsn id lsn [] = none
raise_lsn id lsn (r ∷ rs) =
    let later = raise_lsn id lsn rs in
    if str_eq r.node_id id
    then some (
        record r { match_lsn = if ltb r.match_lsn lsn then lsn else r.match_lsn; healthy = true }
        ∷ rs)
    else elim later [ none ↦ none | some rs' ↦ some (r ∷ rs') ]

-- `UpdateReplicaLSN`
unfoldable pub update_replica_lsn : ℕ → String → ℕ → SlotManager → Option SlotError × SlotManager
unfolding raise_lsn mark_dirty put_slot
update_replica_lsn slot id lsn sm =
    let info = sm.slots slot in
    if ltb slot slot_count
    then elim (raise_lsn id lsn info.replicas) [
      | none ↦ (some (replica_not_found id slot), sm)
      | some rs ↦ (none, mark_dirty (put_slot sm slot (record info { replicas = rs })))
    ]
    else (some (invalid_slot slot), sm)
