-- ===== src/Cluster/Replication/Manager.antt =====
-- internal/cluster/replication/manager.go: a write on the primary. As internal/cluster/cluster.go
-- wires the manager, the allocator and the updater of a replica's number are `AllocateLSN` and
-- `UpdateReplicaLSN` of the slot manager. The network is outside the model: `dispatched` lists the
-- operations that `dispatch` was called with, in order. The manager pointer is not nil. `ApplyWrite`
-- holds no lock from the allocation of a number to the append, and connections call it concurrently:
-- `apply_write` is a call that no other call of the manager overlaps.
pub mod Stream
pub mod Stuck
pub mod Origin
use autocache.Prelude.{
  ℕ, ◌+◌, String, Bool, true, false, Option, none, some, List, [], ◌∷◌, ◌++◌, if◌then◌else◌, update,
}
use autocache.Cluster.Slots.{SlotManager, SlotError}
use autocache.Cluster.Slots.Replicas.{
  Allocation, allocated, refused, allocate_lsn, update_replica_lsn,
}
use autocache.Cluster.Replication.{Op, LogStore, append, after}
use autocache.Cluster.Replication.Acks.{AckTracker, track}

-- `Manager`
pub record Manager : Type 0 where
  pub logs : LogStore
  pub slots : SlotManager
  pub acks : AckTracker
  pub inbound : ℕ → List Op
  pub dispatched : List Op

-- `WriteRequest`, over the state of the engine that `Apply` changes. `Apply` returns whether it
-- succeeded, and may be missing.
pub record WriteRequest (A : Type 0) : Type 0 where
  pub slot : ℕ
  pub op_type : String
  pub key : List ℕ
  pub payload : List ℕ
  pub expire_at_ns : ℕ
  pub apply : Option (A → Bool × A)

-- The operation, or which of the errors of `ApplyWrite`.
pub data Written : Type 0 where
  written : Op → Written
  no_callback apply_failed out_of_order : Written
  not_allocated : SlotError → Written

module _ {A : Type 0} (req : WriteRequest A) where
  abbrev pub op_of : ℕ → ℕ → Op
  op_of epoch lsn = record {
    slot = req.slot;
    epoch = epoch;
    lsn = lsn;
    op_type = req.op_type;
    key = req.key;
    payload = req.payload;
    expire_at_ns = req.expire_at_ns;
  }

  log_step : Op → A → Manager → Bool × LogStore → Written × A × Manager
  log_step op e m (true, logs) =
      (written op, e, record m { logs = logs; dispatched = m.dispatched ++ op ∷ [] })
  log_step op e m (false, logs) = (out_of_order, e, record m { logs = logs })

  allocate_step : A → Manager → Allocation × SlotManager → Written × A × Manager
  unfolding log_step
  allocate_step e m (refused err, slots) = (not_allocated err, e, record m { slots = slots })
  allocate_step e m (allocated epoch lsn, slots) =
      let op = op_of epoch lsn in log_step op e (record m { slots = slots }) (append op m.logs)

  apply_step : Manager → Bool × A → Written × A × Manager
  unfolding allocate_step
  apply_step m (false, e) = (apply_failed, e, m)
  apply_step m (true, e) = allocate_step e m (allocate_lsn req.slot m.slots)

  callback_step : A → Manager → Option (A → Bool × A) → Written × A × Manager
  unfolding apply_step
  callback_step e m none = (no_callback, e, m)
  callback_step e m (some f) = apply_step m (f e)

  -- `ApplyWrite`
  unfoldable pub apply_write : A → Manager → Written × A × Manager
  unfolding callback_step apply_step allocate_step log_step
  apply_write e m = callback_step e m req.apply

-- The callback that `initCallbacks` sets: a peer has been sent an operation.
unfoldable pub on_sent : String → Op → Manager → Manager
on_sent node op m = record m {
  acks =
      track (record { slot = op.slot; epoch = op.epoch; node_id = node; applied_lsn = op.lsn })
        m.acks;
  slots = (update_replica_lsn op.slot node op.lsn m.slots).1;
}

-- `ReceiveTransportOp`
unfoldable pub receive_transport_op : Op → Manager → Manager
receive_transport_op op m = record m {
  inbound = update m.inbound op.slot (m.inbound op.slot ++ op ∷ []);
}

-- `InboundAfter`
unfoldable pub inbound_after : ℕ → ℕ → Manager → List Op
unfolding after
inbound_after slot lsn m = after lsn (m.inbound slot)
