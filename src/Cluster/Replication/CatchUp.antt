-- ===== src/Cluster/Replication/CatchUp.antt =====
-- internal/cluster/replication/{log,sync,fullsync}.go: which replicas are brought up to date from
-- the log, and with which operations.
use autocache.Prelude.{
  ℕ, ◌+◌, ◌^◌, ◌≤◌, ◌<◌, ◌≡◌, refl, subst, true, false, Option, none, some, List, [], ◌∷◌, arith,
  ◌⊎◌, inl, ltb, if_keeps_on, All,
}
use autocache.Cluster.Replication.{
  Op, LogStore, value_of, after, can_replay_from_lsn, incremental_ops, snapshot_lsn,
}
use autocache.Cluster.Replication.Log.{Run, LogShape, IsLog}

after_all : (lsn lo hi : ℕ) (log : List Op) → Run lo log hi → lsn < lo → after lsn log ≡ log
unfolding after
after_all lsn lo hi [] h p = refl
after_all lsn lo hi (op ∷ log) h p = ground (arith, after_all lsn (lo + 1) hi log h.1)

-- Of a run, the operations behind a number are the run from the next number on.
after-Run :
    (lsn lo hi : ℕ) (log : List Op)
    → Run lo log hi
    → lo ≤ lsn + 1
    → lsn < hi
    → Run (lsn + 1) (after lsn log) hi
unfolding after
after-Run lsn lo hi [] h p q = omega arith
after-Run lsn lo hi (op ∷ log) h p q =
    if_keeps_on (λ r. Run (lsn + 1) r hi) (ltb lsn op.lsn)
      (λ e. (
        ground arith,
        rw (after_all lsn (lo + 1) hi log h.1 (ground arith))
            (subst (λ (k : ℕ). Run k log hi) (ground arith) h.1),
      ))
      (λ e. after-Run lsn (lo + 1) hi log h.1 (ground arith) q)

after-All : (P : Op → Type 0) (lsn : ℕ) (log : List Op) → All P log → All P (after lsn log)
unfolding after
after-All P lsn [] h = tt
after-All P lsn (op ∷ log) h =
    if_keeps_on (All P) (ltb lsn op.lsn) (λ e. (h.0, after-All P lsn log h.1))
      (λ e. after-All P lsn log h.1)

-- What a replica that has applied the operations up to `applied` is given.
abbrev pub Serves : ℕ → ℕ → LogStore → Option (List Op) → Type 0
Serves slot applied s (some ops) =
    Run (applied + 1) ops (snapshot_lsn slot s + 1) × All (λ op. op.slot ≡ slot) ops
Serves slot applied s none =
    (snapshot_lsn slot s < applied) ⊎ (applied + 1 < value_of (s.first slot))

module _ (slot applied : ℕ) (s : LogStore) where
  snapshot-empty : s.last slot ≡ none → snapshot_lsn slot s ≡ 0
  unfolding snapshot_lsn
  snapshot-empty e = ground arith

  snapshot-log : {l : ℕ} → s.last slot ≡ some l → snapshot_lsn slot s ≡ l
  unfolding snapshot_lsn
  snapshot-log e = ground arith

  replay-empty : s.last slot ≡ none → can_replay_from_lsn slot applied s ≡ true → applied ≡ 0
  unfolding can_replay_from_lsn
  replay-empty e c = ground arith

  refuse-empty : s.last slot ≡ none → can_replay_from_lsn slot applied s ≡ false → 0 < applied
  unfolding can_replay_from_lsn
  refuse-empty e c = ground arith

  replay-log :
      {l : ℕ}
      → s.last slot ≡ some l
      → l < 2 ^ 64
      → value_of (s.first slot) ≤ l
      → can_replay_from_lsn slot applied s ≡ true
      → (applied ≤ l) × (value_of (s.first slot) ≤ applied + 1)
  unfolding can_replay_from_lsn
  replay-log e small le c = ground arith

  refuse-log :
      {l : ℕ}
      → s.last slot ≡ some l
      → l < 2 ^ 64
      → can_replay_from_lsn slot applied s ≡ false
      → (l < applied) ⊎ (applied + 1 < value_of (s.first slot))
  unfolding can_replay_from_lsn
  refuse-log e small c = ground arith

  Serves-empty :
      s.last slot ≡ none → s.logs slot ≡ [] → Serves slot applied s (incremental_ops slot applied s)
  unfolding incremental_ops
  Serves-empty e e' =
      if_keeps_on (Serves slot applied s) (can_replay_from_lsn slot applied s)
        (λ c. rw (e', snapshot-empty e, replay-empty e c) (refl, tt))
        (λ c. inl (rw (snapshot-empty e) (refuse-empty e c)))

  Serves-log :
      (l : ℕ)
      → s.last slot ≡ some l
      → LogShape (s.logs slot) (s.first slot) (some l)
      → All (λ op. op.slot ≡ slot) (s.logs slot)
      → Serves slot applied s (incremental_ops slot applied s)
  unfolding incremental_ops
  Serves-log l e shape own =
      if_keeps_on (Serves slot applied s) (can_replay_from_lsn slot applied s)
        (λ c. (
          rw (snapshot-log e)
              (after-Run applied _ (l + 1) _ shape.1 (served c).1 (omega (arith, served c))),
          after-All _ applied (s.logs slot) own,
        ))
        (λ c. rw (snapshot-log e) (refuse-log e shape.0 c))
    where
      served :
          can_replay_from_lsn slot applied s ≡ true
          → (applied ≤ l) × (value_of (s.first slot) ≤ applied + 1)
      served c = replay-log e shape.0 shape.2 c

-- With a good log, a replica that has applied the operations of the slot up to `applied` is either
-- given exactly the operations from the next number on up to the newest, in order and with none
-- missing; or it gets none, and then it is ahead of the log, or an operation that it lacks has been
-- dropped from the log.
pub incremental_ops_lem :
    (slot applied : ℕ) (s : LogStore)
    → IsLog slot s
    → Serves slot applied s (incremental_ops slot applied s)
incremental_ops_lem slot applied s h = by_last (s.last slot) refl h.shape
  where
    by_last :
        (last : Option ℕ)
        → s.last slot ≡ last
        → LogShape (s.logs slot) (s.first slot) last
        → Serves slot applied s (incremental_ops slot applied s)
    by_last none e shape = Serves-empty slot applied s e shape.0
    by_last (some l) e shape = Serves-log slot applied s l e shape h.own
