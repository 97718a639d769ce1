-- ===== src/Cluster/Slots/Promote/Effect.antt =====
-- What `PromoteReplica` of internal/cluster/slots.go leaves behind, on each of its results.
use text.Mathlib.TextPositions.{eq_refl}
use autocache.Prelude.{
  ℕ, ◌≡◌, ◌≢◌, refl, subst, String, not, ◌&&◌, Option, some, List, [], ◌∷◌, ◌++◌, arith, inl, inr,
  str_eq, eq_iff, ltb, ◌==◌, if◌then◌else◌, if_keeps_on, All, Among,
}
use autocache.Cluster.Slots.{SlotReplica, SlotInfo, SlotManager, set_owner}
use autocache.Cluster.Slots.Replicas.{next64, fresh_replica}
use autocache.Cluster.Slots.Promote.{primary_of, stay_without, last_with, demote, promote_found}

pub slots-set_owner :
    (sm : SlotManager) (slot : ℕ) (node : String) (s : ℕ)
    → (set_owner sm slot node).slots s
      ≡ (if slot == s then record (sm.slots slot) { node_id = node } else sm.slots s)
unfolding set_owner
slots-set_owner sm slot node s = ground arith

-- The entry of a promoted slot.
abbrev pub promoted_info : SlotInfo → String → SlotReplica → SlotInfo
promoted_info info id promoted = record info {
  node_id = id;
  primary_id = id;
  replicas = demote (primary_of info) id (stay_without id info.replicas);
  config_epoch = next64 info.config_epoch;
  next_lsn = if ltb info.next_lsn promoted.match_lsn then promoted.match_lsn else info.next_lsn;
}

pub slots-promote_found :
    (slot : ℕ) (id : String) (p : SlotReplica) (sm : SlotManager) (s : ℕ)
    → (promote_found slot id p sm).slots s
      ≡ (if slot == s then promoted_info (sm.slots slot) id p else sm.slots s)
unfolding promote_found
slots-promote_found slot id p sm s =
    ground (arith, slots-set_owner sm slot id s, slots-set_owner sm slot id slot)

-- No two replicas have the same name.
abbrev pub AreDistinct : List SlotReplica → Type 0
AreDistinct [] = Unit
AreDistinct (r ∷ rs) = All (λ q. q.node_id ≢ r.node_id) rs × AreDistinct rs

last_with-absent :
    (id : String) (rs : List SlotReplica) (found : Option SlotReplica)
    → All (λ q. q.node_id ≢ id) rs
    → last_with id rs found ≡ found
unfolding last_with
last_with-absent id [] found h = refl
last_with-absent id (r ∷ rs) found h =
    ground (arith, h.0, eq_iff r.node_id id, last_with-absent id rs found h.1)

-- The entry of a list with distinct names that has the name.
pub last_with-mem :
    (r : SlotReplica) (rs : List SlotReplica) (found : Option SlotReplica)
    → AreDistinct rs
    → Among (λ q. q ≡ r) rs
    → last_with r.node_id rs found ≡ some r
unfolding last_with
last_with-mem r [] found d m = absurd m
last_with-mem r (q ∷ rs) found d (inl e) =
    subst (λ (p : SlotReplica). last_with p.node_id (q ∷ rs) found ≡ some p) e
      (rw (eq_refl q.node_id) (last_with-absent q.node_id rs (some q) d.0))
last_with-mem r (q ∷ rs) found d (inr m) =
    last_with-mem r rs (if str_eq q.node_id r.node_id then some q else found) d.1 m

-- The name that was promoted is gone from the replicas.
stay_without-absent :
    (id : String) (rs : List SlotReplica) → All (λ q. q.node_id ≢ id) (stay_without id rs)
unfolding stay_without
stay_without-absent id [] = tt
stay_without-absent id (r ∷ rs) =
    if_keeps_on (All (λ q. q.node_id ≢ id)) (str_eq r.node_id id) (λ e. stay_without-absent id rs)
      (λ e. (λ p. cc (e, (eq_iff r.node_id id).1 p), stay_without-absent id rs))

All-snoc :
    (P : SlotReplica → Type 0) (rs : List SlotReplica) (r : SlotReplica)
    → All P rs
    → P r
    → All P (rs ++ r ∷ [])
All-snoc P [] r h p = (p, tt)
All-snoc P (q ∷ rs) r h p = (h.0, All-snoc P rs r h.1 p)

pub demote-absent :
    (old id : String) (rs : List SlotReplica)
    → All (λ q. q.node_id ≢ id) (demote old id (stay_without id rs))
unfolding demote
demote-absent old id rs =
    if_keeps_on (All (λ q. q.node_id ≢ id)) (not (str_eq old "") && not (str_eq old id))
      (λ e.
        All-snoc _ (stay_without id rs) (fresh_replica old) (stay_without-absent id rs)
          (λ p. ground (arith, eq_iff old id)))
      (λ e. stay_without-absent id rs)
