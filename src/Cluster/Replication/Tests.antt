-- ===== src/Cluster/Replication/Tests.antt =====
-- internal/cluster/replication at concrete logs, replicas and writes.
use autocache.Prelude.{
  ℕ, ◌≡◌, refl, Bool, true, none, some, List, [], ◌∷◌, ◌++◌, arith, update, update_key,
}
use autocache.Cluster.Slots.{SlotManager, new_slot_manager, blank}
use autocache.Cluster.Replication.{
  Op, LogStore, new_log_store, append, incremental_ops, snapshot_lsn, needs_full_sync,
}
use autocache.Cluster.Replication.Log.{IsLog, append-IsLog}
use autocache.Cluster.Replication.Applier.{
  Replica, new_replica_applier, apply_incoming, apply_all, applied_once,
}
use autocache.Cluster.Replication.Acks.{AckTracker, new_ack_tracker, ReplicaAck, get, track}
use autocache.Cluster.Replication.Resume.{resume_lem}
use autocache.Cluster.Replication.Manager.{
  Manager, WriteRequest, apply_write, on_sent, receive_transport_op, inbound_after,
}
use autocache.Cluster.Replication.Manager.Stream.{Effect, apply_write-InStep}
use autocache.Cluster.Replication.Manager.Stuck.{Blocked, apply_write_behind}

abbrev set_op : ℕ → ℕ → Op
set_op lsn value = record {
  slot = 5;
  epoch = 1;
  lsn = lsn;
  op_type = "SET";
  key = b'k' ∷ [];
  payload = value ∷ [];
  expire_at_ns = 0;
}

-- A log of at most three operations that has dropped the first two.
abbrev log : LogStore
log = record {
  limit = 3;
  logs = update (λ _. []) 5 (set_op 3 30 ∷ set_op 4 40 ∷ set_op 5 50 ∷ []);
  first = update (λ _. none) 5 (some 3);
  last = update (λ _. none) 5 (some 5);
}

log-IsLog : IsLog 5 log
log-IsLog = record {
  positive = omega arith;
  bounded = omega arith;
  shape = (omega arith, (refl, (refl, (refl, refl))), omega arith);
  own = (refl, (refl, (refl, tt)));
}

append-IsLog_example : IsLog 5 (append (set_op 6 60) log).1
append-IsLog_example = append-IsLog 5 (set_op 6 60) log (omega arith) log-IsLog

-- The oldest operation makes room.
append_runs : (append (set_op 6 60) log).1.logs 5 ≡ set_op 4 40 ∷ set_op 5 50 ∷ set_op 6 60 ∷ []
unfolding append
append_runs = refl

incremental_runs : incremental_ops 5 3 log ≡ some (set_op 4 40 ∷ set_op 5 50 ∷ [])
unfolding incremental_ops
incremental_runs = refl

-- An engine that keeps the payloads that it was given.
abbrev keep : Op → List ℕ → Bool × List ℕ
keep op e = (true, e ++ op.payload)

abbrev replica : Replica (List ℕ)
replica = record {
  applier = update new_replica_applier 5 (record { epoch = 1; lsn = 3 });
  engine = 30 ∷ [];
}

applied_once_example :
    (apply_incoming keep
      (set_op 4 40)
      (apply_all keep (set_op 5 50 ∷ []) (apply_incoming keep (set_op 4 40) replica).1)).1
    ≡ apply_all keep (set_op 5 50 ∷ []) (apply_incoming keep (set_op 4 40) replica).1
unfolding apply_incoming
applied_once_example = applied_once keep (set_op 4 40) (set_op 5 50 ∷ []) replica refl

resume_lem_example :
    ((apply_all keep (set_op 4 40 ∷ set_op 5 50 ∷ []) replica).engine ≡ 30 ∷ 40 ∷ 50 ∷ [])
    × (((apply_all keep (set_op 4 40 ∷ set_op 5 50 ∷ []) replica).applier 5).lsn
        ≡ snapshot_lsn 5 log)
unfolding incremental_ops
resume_lem_example = resume_lem keep 5 log replica log-IsLog refl (omega arith) (refl, (refl, tt))

abbrev put : WriteRequest (List ℕ)
put = record {
  slot = 5;
  op_type = "SET";
  key = b'k' ∷ [];
  payload = 60 ∷ [];
  expire_at_ns = 0;
  apply = some (λ e. (true, e ++ 60 ∷ []));
}

-- The node n1 owns slot 5, and has allocated the numbers up to 5.
abbrev slots : SlotManager
slots = record new_slot_manager {
  slots = update (λ _. blank) 5 (record blank { node_id = "n1"; primary_id = "n1"; next_lsn = 5 });
}

abbrev manager : LogStore → Manager
manager logs = record {
  logs = logs;
  slots = slots;
  acks = new_ack_tracker;
  inbound = λ _. [];
  dispatched = [];
}

apply_write-InStep_example :
    Effect 5 (manager log) (apply_write put [] (manager log)).0 (apply_write put [] (manager log)).2
apply_write-InStep_example =
    apply_write-InStep put [] (manager log)
      (record { log = log-IsLog; level = refl; room = omega arith })

-- After a restart the numbers are restored and the log is empty.
abbrev restarted : Manager
restarted = manager (new_log_store 1024)

apply_write_behind_example : Blocked 5 restarted (apply_write put [] restarted).2
apply_write_behind_example =
    apply_write_behind put [] restarted (record { behind = omega arith; room = omega arith })

-- A replica that lacks an operation which the log has dropped, or is ahead, is not served.
full_sync : (needs_full_sync 5 1 log ≡ true) × (needs_full_sync 5 6 log ≡ true)
unfolding needs_full_sync
full_sync = (refl, refl)

inbound_runs :
    inbound_after 5 3
      (receive_transport_op (set_op 4 40) (receive_transport_op (set_op 3 30) restarted))
    ≡ set_op 4 40 ∷ []
unfolding inbound_after receive_transport_op
inbound_runs = refl

sent_acks : get 5 "n2" (on_sent "n2" (set_op 4 40) restarted).acks ≡ 4
unfolding on_sent get track
sent_acks = refl

abbrev ack_of : ℕ → ReplicaAck
ack_of lsn = record { slot = 5; epoch = 1; node_id = "n2"; applied_lsn = lsn }

-- A late acknowledgement of an earlier operation does not lower the number.
abbrev acks : AckTracker
acks = update new_ack_tracker 5 (update_key (λ _. none) "n2" (some (ack_of 9)))
