-- ===== src/Cluster/Failover/Select.antt =====
-- internal/cluster/failover/manager.go: `SelectBestReplica` picks a healthy replica whose log is at
-- least as long as that of every other healthy one.
use autocache.Prelude.{
  ℕ, ◌≤◌, ◌<◌, ◌≡◌, ◌≢◌, refl, sym, subst, Bool-cases, String, Bool, true, false, Option, none,
  some, List, [], ◌∷◌, arith, ◌⊎◌, inl, inr, str_eq, eq_iff, ltb, if◌then◌else◌, if_keeps_on, All,
  Among, ◌&&◌, ◌||◌,
}
use autocache.Cluster.Hash.{slot_count}
use autocache.Cluster.Slots.{SlotReplica, SlotManager}
use autocache.Cluster.Failover.{best_from, chosen, select_best_replica}

-- `r` is healthy, is called `node`, and has at least the log of every healthy replica.
abbrev pub IsBest : String → List SlotReplica → SlotReplica → Type 0
IsBest node rs r =
    (r.healthy ≡ true)
    × (r.node_id ≡ node)
    × All (λ s. (s.healthy ≡ false) ⊎ (s.match_lsn ≤ r.match_lsn)) rs

abbrev pub AreNamed : List SlotReplica → Type 0
AreNamed = All (λ r. r.node_id ≢ "")

-- The number that the loop keeps beside the name.
top_from : List SlotReplica → String → ℕ → ℕ
top_from [] node lsn = lsn
top_from (r ∷ rs) node lsn =
    let better = r.healthy && (str_eq node "" || ltb lsn r.match_lsn) in
    top_from rs (if better then r.node_id else node) (if better then r.match_lsn else lsn)

-- The number is 0 as long as no replica is chosen.
abbrev Started : String → ℕ → Type 0
Started node lsn = (str_eq node "" ≡ false) ⊎ (lsn ≡ 0)

named : (s : String) → s ≢ "" → str_eq s "" ≡ false
named s h = ground (arith, eq_iff s "")

Started-step :
    (r : SlotReplica) (node : String) (lsn : ℕ)
    → Started node lsn
    → r.node_id ≢ ""
    → let better = r.healthy && (str_eq node "" || ltb lsn r.match_lsn) in
      Started (if better then r.node_id else node) (if better then r.match_lsn else lsn)
Started-step r node lsn h hr = split (r.healthy && (str_eq node "" || ltb lsn r.match_lsn))
  where
    split : (b : Bool) → Started (if b then r.node_id else node) (if b then r.match_lsn else lsn)
    split true = inl (named r.node_id hr)
    split false = h

le-top_from :
    (rs : List SlotReplica) (node : String) (lsn : ℕ)
    → Started node lsn
    → AreNamed rs
    → lsn ≤ top_from rs node lsn
unfolding top_from
le-top_from [] node lsn h hr = omega arith
le-top_from (r ∷ rs) node lsn h hr =
    ground (arith, le-top_from rs _ _ (Started-step r node lsn h hr.0) hr.1)

healthy_le_top :
    (rs : List SlotReplica) (node : String) (lsn : ℕ)
    → Started node lsn
    → AreNamed rs
    → All (λ s. (s.healthy ≡ false) ⊎ (s.match_lsn ≤ top_from rs node lsn)) rs
unfolding top_from
healthy_le_top [] node lsn h hr = tt
healthy_le_top (r ∷ rs) node lsn h hr = (
  elim (Bool-cases r.healthy) [
    | inl e ↦ inr (ground (arith, le-top_from rs _ _ (Started-step r node lsn h hr.0) hr.1))
    | inr e ↦ inl e
  ],
  healthy_le_top rs _ _ (Started-step r node lsn h hr.0) hr.1,
)

-- The name and the number belong to one healthy replica, or are the first ones.
found_from :
    (rs : List SlotReplica) (node : String) (lsn : ℕ)
    → (best_from rs node lsn ≡ node) × (top_from rs node lsn ≡ lsn)
      ⊎ Among
          (λ r.
            (r.healthy ≡ true)
            × (r.node_id ≡ best_from rs node lsn)
            × (r.match_lsn ≡ top_from rs node lsn))
          rs
unfolding best_from top_from
found_from [] node lsn = inl (refl, refl)
found_from (r ∷ rs) node lsn =
    split (r.healthy && (str_eq node "" || ltb lsn r.match_lsn)) (λ e. ground arith)
      (best_from (r ∷ rs) node lsn) (top_from (r ∷ rs) node lsn) (found_from rs _ _)
  where
    split :
        (b : Bool)
        → (b ≡ true → r.healthy ≡ true)
        → (best : String) (top : ℕ)
        → (best ≡ (if b then r.node_id else node)) × (top ≡ (if b then r.match_lsn else lsn))
          ⊎ Among (λ q. (q.healthy ≡ true) × (q.node_id ≡ best) × (q.match_lsn ≡ top)) rs
        → (best ≡ node) × (top ≡ lsn)
          ⊎ Among (λ q. (q.healthy ≡ true) × (q.node_id ≡ best) × (q.match_lsn ≡ top)) (r ∷ rs)
    split true hb best top (inl e) = inr (inl (hb refl, sym e.0, sym e.1))
    split true hb best top (inr m) = inr (inr m)
    split false hb best top (inl e) = inl e
    split false hb best top (inr m) = inr (inr m)

unnamed_from :
    (rs : List SlotReplica) (node : String) (lsn : ℕ)
    → AreNamed rs
    → best_from rs node lsn ≡ ""
    → (node ≡ "") × All (λ r. r.healthy ≡ false) rs
unfolding best_from
unnamed_from [] node lsn h e = (e, tt)
unnamed_from (r ∷ rs) node lsn h e =
    let better = r.healthy && (str_eq node "" || ltb lsn r.match_lsn) in
    let later : ((if better then r.node_id else node) ≡ "") × All (λ r. r.healthy ≡ false) rs =
      unnamed_from rs _ (if better then r.match_lsn else lsn) h.1 e in
    (ground (arith, later.0, h.0), (ground (arith, later.0, h.0, eq_iff node ""), later.1))

Among-get :
    (P : SlotReplica → Type 0) (rs : List SlotReplica)
    → Among P rs
    → (r : SlotReplica) × P r × Among (λ q. q ≡ r) rs
Among-get P [] m = absurd m
Among-get P (r ∷ rs) (inl p) = (r, p, inl refl)
Among-get P (r ∷ rs) (inr m) = let (q, p, m') = Among-get P rs m in (q, p, inr m')

-- What a selection promises, for each of its results.
abbrev pub Selects : List SlotReplica → Option String → Type 0
Selects rs none = All (λ r. r.healthy ≡ false) rs
Selects rs (some node) = (r : SlotReplica) × Among (λ q. q ≡ r) rs × IsBest node rs r

select_in_range :
    (slot : ℕ) (sm : SlotManager)
    → slot < slot_count
    → select_best_replica slot sm ≡ chosen (best_from (sm.slots slot).replicas "" 0)
unfolding select_best_replica
select_in_range slot sm lt = ground arith

Selects-chosen : (rs : List SlotReplica) → AreNamed rs → Selects rs (chosen (best_from rs "" 0))
Selects-chosen rs h =
    if_keeps_on (Selects rs) (str_eq best "")
      (λ e. (unnamed_from rs "" 0 h ((eq_iff best "").0 e)).1) (λ e. found e (found_from rs "" 0))
  where
    best : String
    best = best_from rs "" 0

    top : ℕ
    top = top_from rs "" 0

    found :
        str_eq best "" ≡ false
        → (best ≡ "") × (top ≡ 0)
          ⊎ Among (λ r. (r.healthy ≡ true) × (r.node_id ≡ best) × (r.match_lsn ≡ top)) rs
        → Selects rs (some best)
    found e (inl p) = cc (e, (eq_iff best "").1 p.0)
    found e (inr m) =
        let (r, p, m') = Among-get _ rs m in
        (
          r,
          m',
          (
            p.0,
            p.1,
            subst (λ t. All (λ s. (s.healthy ≡ false) ⊎ (s.match_lsn ≤ t)) rs) (sym p.2)
                (healthy_le_top rs "" 0 (inr refl) h),
          ),
        )

-- For a slot in range whose replicas all have names: if the selection fails, no replica is healthy;
-- if it returns a node, that is the name of a healthy replica of the slot, and no healthy replica
-- of the slot has matched more of the log.
pub select_best_replica_lem :
    (slot : ℕ) (sm : SlotManager)
    → slot < slot_count
    → AreNamed (sm.slots slot).replicas
    → Selects (sm.slots slot).replicas (select_best_replica slot sm)
select_best_replica_lem slot sm lt h =
    subst (Selects (sm.slots slot).replicas) (sym (select_in_range slot sm lt))
      (Selects-chosen (sm.slots slot).replicas h)
