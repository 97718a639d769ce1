-- ===== src/Cluster/Replication.antt =====
-- internal/cluster/replication/log.go: the log of a slot's recent operations, which a replica that
-- was away is brought up to date from. The maps are functions, with `none` for a missing key.
pub mod Log
pub mod CatchUp
pub mod Acks
pub mod Applier
pub mod Resume
pub mod Manager
mod Tests
use autocache.Prelude.{
  ℕ, ◌+◌, ◌-◌, ◌%◌, ◌^◌, ◌<◌, ◌≤◌, String, Bool, true, false, Option, none, some, List, [], ◌∷◌,
  ◌++◌, length, drop, ltb, leb, ◌==◌, if◌then◌else◌, update,
}

-- `Op`. `expire_at_ns` is the uint64 with the bits of the int64; it is only passed on.
pub record Op : Type 0 where
  pub slot : ℕ
  pub epoch : ℕ
  pub lsn : ℕ
  pub op_type : String
  pub key : List ℕ
  pub payload : List ℕ
  pub expire_at_ns : ℕ

-- `LogStore`
pub record LogStore : Type 0 where
  pub limit : ℕ
  pub logs : ℕ → List Op
  pub first : ℕ → Option ℕ
  pub last : ℕ → Option ℕ

-- `NewLogStore`. A negative limit is treated as 0 is.
abbrev pub new_log_store : ℕ → LogStore
new_log_store limit = record {
  limit = if limit == 0 then 1024 else limit;
  logs = λ _. [];
  first = λ _. none;
  last = λ _. none;
}

-- The value of a missing key is 0.
abbrev pub value_of : Option ℕ → ℕ
value_of none = 0
value_of (some n) = n

-- The limit is kept by dropping the oldest operations.
trim : ℕ → List Op → List Op
trim limit log = if ltb limit (length log) then drop (length log - limit) log else log

-- `first` after an append: the number of the oldest operation that is kept, if there is one.
first_of_log : List Op → Option ℕ → ℕ → Option ℕ
first_of_log (op ∷ log) before lsn = some op.lsn
first_of_log [] none lsn = some lsn
first_of_log [] (some f) lsn = some f

append_checked : Op → LogStore → LogStore
unfolding trim first_of_log
append_checked op s =
    let log = trim s.limit (s.logs op.slot ++ op ∷ []) in
    record s {
      logs = update s.logs op.slot log;
      first = update s.first op.slot (first_of_log log (s.first op.slot) op.lsn);
      last = update s.last op.slot (some op.lsn);
    }

-- `Append`: `false` is the error of an operation that is out of order.
unfoldable pub append : Op → LogStore → Bool × LogStore
unfolding append_checked trim first_of_log
append op s =
    if op.lsn == (value_of (s.last op.slot) + 1) % 2 ^ 64
    then (true, append_checked op s)
    else (false, s)

-- The loop of `ListAfter`, and of `InboundAfter` in manager.go.
unfoldable pub after : ℕ → List Op → List Op
after lsn [] = []
after lsn (op ∷ log) = let rest = after lsn log in if ltb lsn op.lsn then op ∷ rest else rest

-- `ListAfter`
unfoldable pub list_after : ℕ → ℕ → LogStore → List Op
unfolding after
list_after slot lsn s = after lsn (s.logs slot)

-- `Range`, with `none` for a slot that has no log.
unfoldable pub range : ℕ → LogStore → Option (ℕ × ℕ)
range slot s = elim (s.last slot) [ none ↦ none | some l ↦ some (value_of (s.first slot), l) ]

-- `CanReplayFromLSN`
unfoldable pub can_replay_from_lsn : ℕ → ℕ → LogStore → Bool
unfolding range
can_replay_from_lsn slot applied s = elim (range slot s) [
  | none ↦ applied == 0
  | some (f, l) ↦
      if ltb l applied then false else if applied == l then true else leb f ((applied + 1) % 2 ^ 64)
]

-- `IncrementalOps` (sync.go)
unfoldable pub incremental_ops : ℕ → ℕ → LogStore → Option (List Op)
unfolding can_replay_from_lsn list_after
incremental_ops slot applied s =
    if can_replay_from_lsn slot applied s then some (list_after slot applied s) else none

-- `NeedsFullSync` (fullsync.go)
pub needs_full_sync : ℕ → ℕ → LogStore → Bool
unfolding can_replay_from_lsn
needs_full_sync slot applied s = if can_replay_from_lsn slot applied s then false else true

-- `SnapshotLSN` (fullsync.go) of a manager with a log.
pub snapshot_lsn : ℕ → LogStore → ℕ
unfolding range
snapshot_lsn slot s = elim (range slot s) [ none ↦ 0 | some (f, l) ↦ l ]
