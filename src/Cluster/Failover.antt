-- ===== src/Cluster/Failover.antt =====
-- internal/cluster/failover/manager.go: which replica of a slot takes over, and who may serve
-- writes. The hooks `broadcast` and `failClosed` are calls out of the module: a promotion returns
-- what it hands to each, `none` where it makes no call.
pub mod Select
pub mod Promotion
mod Tests
use autocache.Prelude.{
  ℕ, String, Bool, true, false, not, ◌&&◌, ◌||◌, Option, none, some, List, [], ◌∷◌, str_eq, ltb,
  if◌then◌else◌,
}
use autocache.Cluster.Slots.{SlotReplica, SlotInfo, SlotManager, SlotError, get_slot_info}
use autocache.Cluster.Slots.Promote.{primary_of, promote_replica}

-- The loop of `SelectBestReplica`, with `bestNode` and `bestLSN`.
best_from : List SlotReplica → String → ℕ → String
best_from [] node lsn = node
best_from (r ∷ rs) node lsn =
    let better = r.healthy && (str_eq node "" || ltb lsn r.match_lsn) in
    best_from rs (if better then r.node_id else node) (if better then r.match_lsn else lsn)

abbrev chosen : String → Option String
chosen node = if str_eq node "" then none else some node

-- `SelectBestReplica`, with `none` for its errors: no such slot, or no healthy replica.
unfoldable pub select_best_replica : ℕ → SlotManager → Option String
unfolding best_from get_slot_info
select_best_replica slot sm = elim (get_slot_info slot sm) [
  | none ↦ none
  | some info ↦ chosen (best_from info.replicas "" 0)
]

-- What a promotion did: the new primary, and the old primary that `failClosed` is called with.
pub record Takeover : Type 0 where
  pub best : String
  pub fail_closed : Option String

pub data Promoted : Type 0 where
  takeover : Takeover → Promoted
  no_replica : Promoted
  refused : SlotError → Promoted

finish_promotion : SlotInfo → String → Option SlotError × SlotManager → Promoted × SlotManager
finish_promotion info best (some e, sm) = (refused e, sm)
finish_promotion info best (none, sm) =
    let stale = primary_of info in
    (
      takeover (record {
        best = best;
        fail_closed = if not (str_eq stale "") && not (str_eq stale best) then some stale else none;
      }),
      sm,
    )

-- `PromoteBestReplica`. A takeover is broadcast as the slot with its new primary.
unfoldable pub promote_best_replica : ℕ → SlotManager → Promoted × SlotManager
unfolding finish_promotion
promote_best_replica slot sm = elim (select_best_replica slot sm) [
  | none ↦ (no_replica, sm)
  | some best ↦ finish_promotion (sm.slots slot) best (promote_replica slot best sm)
]

-- `CanNodeServeWrites`
unfoldable pub can_node_serve_writes : ℕ → String → SlotManager → Bool
unfolding get_slot_info
can_node_serve_writes slot node sm = elim (get_slot_info slot sm) [
  | none ↦ false
  | some info ↦ not (str_eq (primary_of info) "") && str_eq (primary_of info) node
]
