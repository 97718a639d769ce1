-- ===== src/Cluster/Replication/Resume.antt =====
-- A replica that was away comes up to date: internal/cluster/replication/sync.go on the primary,
-- and internal/cluster/replication/applier.go on the replica.
use autocache.Prelude.{
  ℕ, ◌+◌, ◌≤◌, ◌≡◌, refl, sym, subst, Bool, true, some, List, [], ◌∷◌, arith, All,
}
use autocache.Cluster.Replication.{Op, LogStore, incremental_ops, snapshot_lsn}
use autocache.Cluster.Replication.Log.{Run, IsLog}
use autocache.Cluster.Replication.CatchUp.{Serves, incremental_ops_lem}
use autocache.Cluster.Replication.Applier.{
  ReplicaApplier, Replica, proceed, begin, commit, apply_incoming, apply_all,
}

-- Epochs that do not fall, from `epoch` on.
abbrev pub Follows : ℕ → List Op → Type 0
Follows epoch [] = Unit
Follows epoch (op ∷ ops) = (epoch ≤ op.epoch) × Follows op.epoch ops

-- The next operation of the slot, in the same epoch or a later one, is let through.
begin-next :
    (op : Op) (a : ReplicaApplier)
    → (a op.slot).epoch ≤ op.epoch
    → op.lsn ≡ (a op.slot).lsn + 1
    → begin op a ≡ proceed
unfolding begin
begin-next op a h e = ground arith

commit_at :
    (op : Op) (a : ReplicaApplier) (slot : ℕ)
    → op.slot ≡ slot
    → commit op a slot ≡ record { epoch = op.epoch; lsn = op.lsn }
unfolding commit
commit_at op a slot e = ground arith

module _ {A : Type 0} (apply_op : Op → A → Bool × A) where
  -- The operations run one after the other, whether they succeed or not.
  abbrev pub run_ops : List Op → A → A
  run_ops [] e = e
  run_ops (op ∷ ops) e = run_ops ops (apply_op op e).1

  -- Each operation succeeds, run after those before it.
  abbrev pub Succeed : List Op → A → Type 0
  Succeed [] e = Unit
  Succeed (op ∷ ops) e = ((apply_op op e).0 ≡ true) × Succeed ops (apply_op op e).1

  next-applied :
      (op : Op) (r : Replica A)
      → (r.applier op.slot).epoch ≤ op.epoch
      → op.lsn ≡ (r.applier op.slot).lsn + 1
      → (apply_op op r.engine).0 ≡ true
      → (apply_incoming apply_op op r).1
        ≡ record { applier = commit op r.applier; engine = (apply_op op r.engine).1 }
  unfolding apply_incoming
  next-applied op r h e ok = ground (arith, begin-next op r.applier h e)

  resume :
      (ops : List Op) (slot hi : ℕ) (r : Replica A)
      → Run ((r.applier slot).lsn + 1) ops hi
      → All (λ op. op.slot ≡ slot) ops
      → Follows (r.applier slot).epoch ops
      → Succeed ops r.engine
      → ((apply_all apply_op ops r).engine ≡ run_ops ops r.engine)
        × (((apply_all apply_op ops r).applier slot).lsn + 1 ≡ hi)
  unfolding apply_all
  resume [] slot hi r run own follows ok = (refl, run)
  resume (op ∷ ops) slot hi r run own follows ok =
      subst
        (λ (q : Replica A).
          ((apply_all apply_op ops q).engine ≡ run_ops ops (apply_op op r.engine).1)
          × (((apply_all apply_op ops q).applier slot).lsn + 1 ≡ hi))
        (sym step)
        (resume ops slot hi next (rw here (subst (λ (k : ℕ). Run (k + 1) ops hi) (sym run.0) run.1))
          own.1 (rw here follows.1) ok.1)
    where
      next : Replica A
      next = record { applier = commit op r.applier; engine = (apply_op op r.engine).1 }

      here : commit op r.applier slot ≡ record { epoch = op.epoch; lsn = op.lsn }
      here = commit_at op r.applier slot own.0

      step : (apply_incoming apply_op op r).1 ≡ next
      step =
          next-applied op r
            (subst (λ (n : ℕ). (r.applier n).epoch ≤ op.epoch) (sym own.0) follows.0)
            (subst (λ (n : ℕ). op.lsn ≡ (r.applier n).lsn + 1) (sym own.0) run.0) ok.0

  -- A replica of a slot with a good log, that is handed what the primary has for it and on which
  -- each operation succeeds, ends with the engine that running exactly the operations behind its
  -- own number gives, and with the number of the newest operation of the log, which it was handed
  -- in full. The epochs of the operations do not fall, and are not below the replica's own.
  pub resume_lem :
      (slot : ℕ) (s : LogStore) (r : Replica A) {ops : List Op}
      → IsLog slot s
      → incremental_ops slot (r.applier slot).lsn s ≡ some ops
      → Follows (r.applier slot).epoch ops
      → Succeed ops r.engine
      → ((apply_all apply_op ops r).engine ≡ run_ops ops r.engine)
        × (((apply_all apply_op ops r).applier slot).lsn ≡ snapshot_lsn slot s)
  resume_lem slot s r {ops} h e follows ok =
      let served : Serves slot (r.applier slot).lsn s (some ops) =
        subst (Serves slot (r.applier slot).lsn s) e
          (incremental_ops_lem slot (r.applier slot).lsn s h) in
      let done = resume ops slot (snapshot_lsn slot s + 1) r served.0 served.1 follows ok in
      (done.0, omega (arith, done.1))
