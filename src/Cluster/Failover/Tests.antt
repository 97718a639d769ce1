-- ===== src/Cluster/Failover/Tests.antt =====
-- internal/cluster/failover/manager.go at a concrete slot.
use autocache.Prelude.{◌≡◌, refl, true, false, some, List, [], ◌∷◌, arith, update, ne_of_str_eq}
use autocache.Cluster.Slots.{SlotReplica, SlotManager, new_slot_manager, blank}
use autocache.Cluster.Slots.Promote.Effect.{AreDistinct}
use autocache.Cluster.Failover.{promote_best_replica, select_best_replica}
use autocache.Cluster.Failover.Select.{AreNamed}
use autocache.Cluster.Failover.Promotion.{Outcome, promote_best_replica_lem}

abbrev replicas : List SlotReplica
replicas =
    record { node_id = "n2"; match_lsn = 4; healthy = true }
    ∷ record { node_id = "n3"; match_lsn = 9; healthy = false }
    ∷ record { node_id = "n4"; match_lsn = 6; healthy = true }
    ∷ []

-- Slot 1 of the node n1, whose newest replica is not healthy.
abbrev manager : SlotManager
manager = record new_slot_manager {
  slots =
      update (λ _. blank) 1
        (record blank { node_id = "n1"; primary_id = "n1"; replicas = replicas; next_lsn = 9 });
}

named : AreNamed replicas
named = (ne_of_str_eq "n2" "" refl, (ne_of_str_eq "n3" "" refl, (ne_of_str_eq "n4" "" refl, tt)))

distinct : AreDistinct replicas
distinct = (
  (ne_of_str_eq "n3" "n2" refl, (ne_of_str_eq "n4" "n2" refl, tt)),
  ((ne_of_str_eq "n4" "n3" refl, tt), (tt, tt)),
)

select_runs : select_best_replica 1 manager ≡ some "n4"
unfolding select_best_replica
select_runs = refl

promote_best_replica_lem_example : Outcome 1 manager (promote_best_replica 1 manager)
promote_best_replica_lem_example = promote_best_replica_lem 1 manager (omega arith) named distinct
