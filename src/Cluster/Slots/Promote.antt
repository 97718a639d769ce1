-- ===== src/Cluster/Slots/Promote.antt =====
-- internal/cluster/slots.go: `PromoteReplica`, which makes a replica of a slot its primary.
pub mod Effect
use autocache.Prelude.{
  ℕ, String, Bool, not, ◌&&◌, Option, none, some, List, [], ◌∷◌, ◌++◌, str_eq, ltb, if◌then◌else◌,
}
use autocache.Cluster.Hash.{slot_count}
use autocache.Cluster.Slots.{
  SlotReplica, SlotInfo, SlotManager, SlotError, invalid_slot, replica_not_found, mark_dirty,
  put_slot, set_owner,
}
use autocache.Cluster.Slots.Replicas.{next64, fresh_replica}

-- The loop splits the replicas: those that stay, and the last one with the identifier.
pub stay_without : String → List SlotReplica → List SlotReplica
stay_without id [] = []
stay_without id (r ∷ rs) =
    let rest = stay_without id rs in if str_eq r.node_id id then rest else r ∷ rest

unfoldable pub last_with : String → List SlotReplica → Option SlotReplica → Option SlotReplica
last_with id [] found = found
last_with id (r ∷ rs) found = last_with id rs (if str_eq r.node_id id then some r else found)

-- The primary, or the owner where no primary is set.
abbrev pub primary_of : SlotInfo → String
primary_of info = if str_eq info.primary_id "" then info.node_id else info.primary_id

-- The old primary becomes a replica, unless there is none or it is the one promoted.
pub demote : String → String → List SlotReplica → List SlotReplica
demote old id rs =
    if not (str_eq old "") && not (str_eq old id) then rs ++ fresh_replica old ∷ [] else rs

pub promote_found : ℕ → String → SlotReplica → SlotManager → SlotManager
unfolding set_owner mark_dirty put_slot stay_without demote
promote_found slot id promoted sm =
    let info = sm.slots slot in
    let sm' = set_owner sm slot id in
    mark_dirty (
      put_slot sm' slot (record (sm'.slots slot) {
        primary_id = id;
        replicas = demote (primary_of info) id (stay_without id info.replicas);
        config_epoch = next64 info.config_epoch;
        next_lsn =
            if ltb info.next_lsn promoted.match_lsn then promoted.match_lsn else info.next_lsn;
      }))

-- `PromoteReplica`
unfoldable pub promote_replica : ℕ → String → SlotManager → Option SlotError × SlotManager
unfolding promote_found last_with
promote_replica slot id sm =
    if ltb slot slot_count
    then elim (last_with id (sm.slots slot).replicas none) [
      | none ↦ (some (replica_not_found id slot), sm)
      | some promoted ↦ (none, promote_found slot id promoted sm)
    ]
    else (some (invalid_slot slot), sm)
