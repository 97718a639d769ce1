-- ===== src/Cluster/Replication/Applier.antt =====
-- internal/cluster/replication/applier.go, and `applyIncomingReplicationOp` of
-- internal/protocol/handler.go around it: a replica applies each operation at most once. What the
-- engine does with an operation (`payload` decoded, the command run) is the parameter `apply_op`,
-- which returns whether it succeeded and the engine's new state.
use autocache.Prelude.{
  ℕ, ◌≤◌, ◌<◌, ◌≡◌, refl, ap, Bool, true, false, List, [], ◌∷◌, arith, ◌⊎◌, inl, inr, ltb, leb,
  if◌then◌else◌, update,
}
use autocache.Cluster.Replication.{Op}

-- `ApplyProgress`; a slot with no progress has the zero value.
pub record ApplyProgress : Type 0 where
  pub epoch : ℕ
  pub lsn : ℕ

-- `ReplicaApplier`
abbrev pub ReplicaApplier : Type 0
ReplicaApplier = ℕ → ApplyProgress

abbrev pub new_replica_applier : ReplicaApplier
new_replica_applier slot = record { epoch = 0; lsn = 0 }

pub data Begun : Type 0 where
  stale_epoch skip proceed : Begun

-- `Begin`. The assignments to its local `state` for a new epoch and for a gap are not stored: the
-- first makes the number 0 to compare with, the second has no effect.
unfoldable pub begin : Op → ReplicaApplier → Begun
begin op a =
    let state = a op.slot in
    if ltb op.epoch state.epoch
    then stale_epoch
    else if leb op.lsn (if ltb state.epoch op.epoch then 0 else state.lsn)
    then skip
    else proceed

-- `Commit`
unfoldable pub commit : Op → ReplicaApplier → ReplicaApplier
commit op a = update a op.slot (record { epoch = op.epoch; lsn = op.lsn })

pub data Received : Type 0 where
  applied skipped stale failed : Received

-- What a replica has: its progress, and the engine.
pub record Replica (A : Type 0) : Type 0 where
  pub applier : ReplicaApplier
  pub engine : A

module _ {A : Type 0} (apply_op : Op → A → Bool × A) where
  finish_op : Op → Replica A → Bool × A → Received × Replica A
  unfolding commit
  finish_op op r (true, e) = (applied, record { applier = commit op r.applier; engine = e })
  finish_op op r (false, e) = (failed, record r { engine = e })

  continue_op : Op → Replica A → Begun → Received × Replica A
  unfolding finish_op
  continue_op op r stale_epoch = (stale, r)
  continue_op op r skip = (skipped, r)
  continue_op op r proceed = finish_op op r (apply_op op r.engine)

  -- `applyIncomingReplicationOp`
  unfoldable pub apply_incoming : Op → Replica A → Received × Replica A
  unfolding begin continue_op finish_op commit
  apply_incoming op r = continue_op op r (begin op r.applier)

  -- A sequence of operations, as the replica receives them.
  unfoldable pub apply_all : List Op → Replica A → Replica A
  apply_all [] r = r
  apply_all (op ∷ ops) r = apply_all ops (apply_incoming op r).1

-- The replica is at or past the operation.
abbrev pub Reached : Op → ApplyProgress → Type 0
Reached op p = (op.epoch < p.epoch) ⊎ ((op.epoch ≡ p.epoch) × (op.lsn ≤ p.lsn))

-- An operation that is let through takes the progress past itself, and back behind nothing.
commit-Reached :
    (op o : Op) (a : ReplicaApplier)
    → begin o a ≡ proceed
    → Reached op (a op.slot)
    → Reached op (commit o a op.slot)
unfolding begin commit
commit-Reached op o a e h = ground (
  arith,
  ap (λ (j : ℕ). (a j).epoch) {x = o.slot} {y = op.slot},
  ap (λ (j : ℕ). (a j).lsn) {x = o.slot} {y = op.slot},
)

commit_own-Reached : (op : Op) (a : ReplicaApplier) → Reached op (commit op a op.slot)
unfolding commit
commit_own-Reached op a = inr (ground arith)

module _ {A : Type 0} (apply_op : Op → A → Bool × A) where
  -- An operation that the replica has reached changes nothing.
  Reached-ignored :
      (op : Op) (r : Replica A)
      → Reached op (r.applier op.slot)
      → (apply_incoming apply_op op r).1 ≡ r
  unfolding apply_incoming
  Reached-ignored op r (inl lt) = ground arith
  Reached-ignored op r (inr e) = ground arith

  -- What has been reached stays reached.
  Reached-step :
      (op o : Op) (r : Replica A)
      → Reached op (r.applier op.slot)
      → Reached op ((apply_incoming apply_op o r).1.applier op.slot)
  unfolding apply_incoming
  Reached-step op o r h = by_begin (begin o r.applier) refl
    where
      by_engine :
          begin o r.applier ≡ proceed
          → (b : Bool × A) → Reached op ((finish_op apply_op o r b).1.applier op.slot)
      by_engine e (true, _) = commit-Reached op o r.applier e h
      by_engine e (false, _) = h

      by_begin :
          (b : Begun)
          → begin o r.applier ≡ b
          → Reached op ((continue_op apply_op o r b).1.applier op.slot)
      by_begin stale_epoch e = h
      by_begin skip e = h
      by_begin proceed e = by_engine e (apply_op o r.engine)

  Reached-all :
      (op : Op) (ops : List Op) (r : Replica A)
      → Reached op (r.applier op.slot)
      → Reached op ((apply_all apply_op ops r).applier op.slot)
  unfolding apply_all
  Reached-all op [] r h = h
  Reached-all op (o ∷ ops) r h =
      Reached-all op ops (apply_incoming apply_op o r).1 (Reached-step op o r h)

  applied-Reached :
      (op : Op) (r : Replica A)
      → (apply_incoming apply_op op r).0 ≡ applied
      → Reached op ((apply_incoming apply_op op r).1.applier op.slot)
  unfolding apply_incoming
  applied-Reached op r e = by_begin (begin op r.applier) e
    where
      by_engine :
          (b : Bool × A)
          → (finish_op apply_op op r b).0 ≡ applied
          → Reached op ((finish_op apply_op op r b).1.applier op.slot)
      by_engine (true, _) e = commit_own-Reached op r.applier
      by_engine (false, _) e = cc

      by_begin :
          (b : Begun)
          → (continue_op apply_op op r b).0 ≡ applied
          → Reached op ((continue_op apply_op op r b).1.applier op.slot)
      by_begin stale_epoch e = cc
      by_begin skip e = cc
      by_begin proceed e = by_engine (apply_op op r.engine) e

  -- Once the replica has applied an operation, then whatever it receives next, in whatever order, to
  -- receive the operation again changes neither its engine nor its progress.
  pub applied_once :
      (op : Op) (ops : List Op) (r : Replica A)
      → (apply_incoming apply_op op r).0 ≡ applied
      → (apply_incoming apply_op op (apply_all apply_op ops (apply_incoming apply_op op r).1)).1
        ≡ apply_all apply_op ops (apply_incoming apply_op op r).1
  applied_once op ops r e =
      Reached-ignored op _
        (Reached-all op ops (apply_incoming apply_op op r).1 (applied-Reached op r e))
