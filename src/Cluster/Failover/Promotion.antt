-- ===== src/Cluster/Failover/Promotion.antt =====
-- internal/cluster/failover/manager.go: what `PromoteBestReplica` does to the slot, and to who may
-- serve writes.
use autocache.Prelude.{
  ℕ, ◌≤◌, ◌<◌, ◌≡◌, ◌≢◌, refl, sym, ap, subst, ◌∙◌, String, false, not, ◌&&◌, Option, none, some,
  List, [], ◌∷◌, arith, ◌⊎◌, inl, inr, str_eq, eq_iff, ◌==◌, ==_iff, if◌then◌else◌, Bool-cases, All,
  Among,
}
use autocache.Cluster.Hash.{slot_count}
use autocache.Cluster.Slots.{SlotReplica, SlotInfo, SlotManager}
use autocache.Cluster.Slots.Replicas.{next64}
use autocache.Cluster.Slots.Promote.{primary_of, promote_found, promote_replica}
use autocache.Cluster.Slots.Promote.Effect.{
  AreDistinct, promoted_info, slots-promote_found, last_with-mem, demote-absent,
}
use autocache.Cluster.Failover.{
  Takeover, Promoted, takeover, no_replica, refused, finish_promotion, promote_best_replica,
  select_best_replica, can_node_serve_writes,
}
use autocache.Cluster.Failover.Select.{AreNamed, Selects, IsBest, select_best_replica_lem}

-- A takeover of a slot, from the state `sm` to the state `sm'`.
pub record IsTakeover (slot : ℕ) (sm : SlotManager) (t : Takeover) (sm' : SlotManager)
    : Type 0 where
  pub selected : Selects (sm.slots slot).replicas (some t.best)
  pub writers : (node : String) → can_node_serve_writes slot node sm' ≡ str_eq t.best node
  pub fenced :
      (node : String)
      → (can_node_serve_writes slot node sm ≡ false) ⊎ (node ≡ t.best) ⊎ (t.fail_closed ≡ some node)
  pub epoch : (sm'.slots slot).config_epoch ≡ next64 (sm.slots slot).config_epoch
  pub covered :
      All
        (λ r. (r.healthy ≡ false) ⊎ (r.match_lsn ≤ (sm'.slots slot).next_lsn))
        (sm.slots slot).replicas
  pub kept : (sm.slots slot).next_lsn ≤ (sm'.slots slot).next_lsn
  pub removed : All (λ r. r.node_id ≢ t.best) (sm'.slots slot).replicas
  pub others : (s : ℕ) → (slot ≡ s) ⊎ (sm'.slots s ≡ sm.slots s)

abbrev pub Outcome : ℕ → SlotManager → Promoted × SlotManager → Type 0
Outcome slot sm (takeover t, sm') = IsTakeover slot sm t sm'
Outcome slot sm (no_replica, sm') =
    (sm' ≡ sm) × All (λ r. r.healthy ≡ false) (sm.slots slot).replicas
Outcome slot sm (refused e, sm') = ⊥

All-get :
    (P : SlotReplica → Type 0) (rs : List SlotReplica) (r : SlotReplica)
    → All P rs
    → Among (λ q. q ≡ r) rs
    → P r
All-get P [] r h m = absurd m
All-get P (q ∷ rs) r h (inl e) = subst P e h.0
All-get P (q ∷ rs) r h (inr m) = All-get P rs r h.1 m

All-le :
    (rs : List SlotReplica) (l k : ℕ)
    → l ≤ k
    → All (λ r. (r.healthy ≡ false) ⊎ (r.match_lsn ≤ l)) rs
    → All (λ r. (r.healthy ≡ false) ⊎ (r.match_lsn ≤ k)) rs
All-le [] l k h a = tt
All-le (r ∷ rs) l k h a = (weaken a.0, All-le rs l k h a.1)
  where
    weaken : (r.healthy ≡ false) ⊎ (r.match_lsn ≤ l) → (r.healthy ≡ false) ⊎ (r.match_lsn ≤ k)
    weaken (inl e) = inl e
    weaken (inr p) = inr (omega arith)

module _ (slot : ℕ) (sm : SlotManager) (r : SlotReplica) (lt : slot < slot_count) where
  abbrev taken : SlotManager
  taken = promote_found slot r.node_id r sm

  slot-taken : taken.slots slot ≡ promoted_info (sm.slots slot) r.node_id r
  slot-taken = slots-promote_found slot r.node_id r sm slot ∙ ground arith

  writers-taken :
      r.node_id ≢ ""
      → (node : String) → can_node_serve_writes slot node taken ≡ str_eq r.node_id node
  unfolding can_node_serve_writes
  writers-taken named node = ground (
    arith,
    ap (λ (i : SlotInfo). primary_of i) slot-taken,
    eq_iff r.node_id "",
    eq_iff r.node_id node,
  )

  next_lsn-taken :
      (r.match_lsn ≤ (taken.slots slot).next_lsn)
      × ((sm.slots slot).next_lsn ≤ (taken.slots slot).next_lsn)
  next_lsn-taken = rw slot-taken (ground arith)

  others-taken : (s : ℕ) → (slot ≡ s) ⊎ (taken.slots s ≡ sm.slots s)
  others-taken s = elim (Bool-cases (slot == s)) [
    | inl e ↦ inl ((==_iff slot s).0 e)
    | inr e ↦ inr (slots-promote_found slot r.node_id r sm s ∙ rw e refl)
  ]

  abbrev stale : Option String
  stale =
      let old = primary_of (sm.slots slot) in
      if not (str_eq old "") && not (str_eq old r.node_id) then some old else none

  fenced-taken :
      (node : String)
      → (can_node_serve_writes slot node sm ≡ false) ⊎ (node ≡ r.node_id) ⊎ (stale ≡ some node)
  unfolding can_node_serve_writes
  fenced-taken node = elim (Bool-cases (str_eq (primary_of (sm.slots slot)) node)) [
    | inr e ↦ inl (ground arith)
    | inl e ↦ elim (Bool-cases (str_eq node r.node_id)) [
      | inl e' ↦ inr (inl ((eq_iff node r.node_id).0 e'))
      | inr e' ↦ elim (Bool-cases (str_eq node "")) [
        | inl e'' ↦ inl (blank ((eq_iff _ node).0 e ∙ (eq_iff node "").0 e''))
        | inr e'' ↦ inr (inr (old ((eq_iff _ node).0 e) e' e''))
      ]
    ]
  ]
    where
      blank : primary_of (sm.slots slot) ≡ "" → can_node_serve_writes slot node sm ≡ false
      blank p = ground (arith, eq_iff (primary_of (sm.slots slot)) "")

      old :
          primary_of (sm.slots slot) ≡ node
          → str_eq node r.node_id ≡ false
          → str_eq node "" ≡ false
          → stale ≡ some node
      old p q q' =
          subst
            (λ n.
              (if not (str_eq n "") && not (str_eq n r.node_id) then some n else none) ≡ some node)
            (sym p) (rw (q, q') refl)

  taken-IsTakeover :
      AreNamed (sm.slots slot).replicas
      → Among (λ q. q ≡ r) (sm.slots slot).replicas
      → IsBest r.node_id (sm.slots slot).replicas r
      → IsTakeover slot sm (record { best = r.node_id; fail_closed = stale }) taken
  taken-IsTakeover named mem best = record {
    selected = (r, mem, best);
    writers = writers-taken (All-get (λ q. q.node_id ≢ "") _ r named mem);
    fenced = fenced-taken;
    epoch = ap (λ (i : SlotInfo). i.config_epoch) slot-taken;
    covered = All-le _ _ _ next_lsn-taken.0 best.2;
    kept = next_lsn-taken.1;
    removed =
        subst (λ (i : SlotInfo). All (λ q. q.node_id ≢ r.node_id) i.replicas) (sym slot-taken)
          (demote-absent (primary_of (sm.slots slot)) r.node_id (sm.slots slot).replicas);
    others = others-taken;
  }

  promote-taken :
      AreDistinct (sm.slots slot).replicas
      → Among (λ q. q ≡ r) (sm.slots slot).replicas
      → promote_replica slot r.node_id sm ≡ (none, taken)
  unfolding promote_replica
  promote-taken distinct mem =
      ground (arith, last_with-mem r (sm.slots slot).replicas none distinct mem)

-- For a slot in range whose replicas have names, no two the same: either no replica is healthy and
-- nothing changes, or the healthy replica with the longest log takes over. Then it alone may serve
-- writes for the slot, any other node that could before is failed closed, the configuration epoch is one more (as a uint64), the next log number is at
-- least what it was and at least what any healthy replica has matched, the new primary is no
-- replica any more, and no other slot changes. The promotion is never refused.
pub promote_best_replica_lem :
    (slot : ℕ) (sm : SlotManager)
    → slot < slot_count
    → AreNamed (sm.slots slot).replicas
    → AreDistinct (sm.slots slot).replicas
    → Outcome slot sm (promote_best_replica slot sm)
unfolding promote_best_replica
promote_best_replica_lem slot sm lt named distinct =
    by_selection (select_best_replica slot sm) (select_best_replica_lem slot sm lt named)
  where
    by_selection :
        (o : Option String)
        → Selects (sm.slots slot).replicas o
        → Outcome slot sm (elim o as (λ _. Promoted × SlotManager) [
          | none ↦ (no_replica, sm)
          | some best ↦ finish_promotion (sm.slots slot) best (promote_replica slot best sm)
        ])
    by_selection none all = (refl, all)
    by_selection (some best) (r, mem, ok) =
        subst
          (λ id. Outcome slot sm (finish_promotion (sm.slots slot) id (promote_replica slot id sm)))
          ok.1
          (rw (promote-taken slot sm r lt distinct mem)
            (taken-IsTakeover slot sm r lt named mem (ok.0, refl, ok.2)))
