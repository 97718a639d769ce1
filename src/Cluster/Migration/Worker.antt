-- ===== src/Cluster/Migration/Worker.antt =====
-- internal/cluster/migrate/worker.go: the worker that moves a slot on demand.
use autocache.Prelude.{
  ℕ, zero, suc, ◌+◌, String, Bool, true, false, not, ◌&&◌, Option, none, some, List, [], ◌∷◌, ltb,
  ◌==◌, if◌then◌else◌, length,
}
use autocache.Cluster.Migration.{
  Entry, Engine, Peer, Wire, MoveError, no_entry, no_serialized, busy_key, cancelled, ttl_ms, send,
}

pub data MigrationStatus : Type 0 where
  pending running completed failed : MigrationStatus

pub data LastError : Type 0 where
  no_error : LastError
  context_cancelled worker_stopped : LastError
  key_error : MoveError → LastError

-- `MigrationProgress`, less the address and the times.
pub record MigrationProgress : Type 0 where
  pub slot : ℕ
  pub total_keys : ℕ
  pub migrated_keys : ℕ
  pub failed_keys : ℕ
  pub status : MigrationStatus
  pub last_error : LastError

-- One attempt: whether the context ends in the pause before it, the time, and the connection.
pub record Attempt : Type 0 where
  pub cancel : Bool
  pub now : ℕ
  pub wire : Wire

-- What the loop finds at a key: the context has ended, the worker was stopped, or neither.
pub data Signal : Type 0 where
  go_on context_done stop : Signal

pub record KeyRun : Type 0 where
  pub signal : Signal
  pub attempts : ℕ → Attempt

-- What `MigrateSlot` returns.
pub data SlotError : Type 0 where
  context_error migration_stopped : SlotError
  failed_some : ℕ → SlotError

-- `err.Error()` contains "BUSYKEY".
abbrev pub is_busy : MoveError → Bool
is_busy busy_key = true
is_busy _ = false

module _ (E : Engine) (P : Peer) where
  abbrev pub World : Type 0
  World = E.State × P.State

  -- `doMigrate` from the serialized value on.
  unfoldable pub move : Bool → Wire → String → ℕ → List ℕ → World → Option MoveError × World
  unfolding send
  move replace wire k ttl v (s, p) =
      let (err, p') = send P replace wire k ttl v p in
      elim err [ none ↦ (none, (E.del k s, p')) | some e ↦ (some e, (s, p')) ]

  unfoldable pub move_entry :
      Bool → Wire → String → ℕ → Entry (E.Value) → World → Option MoveError × World
  unfolding move
  move_entry replace wire k ttl entry w = elim (E.serialize entry) [
    | none ↦ (some no_serialized, w)
    | some v ↦ move replace wire k ttl v w
  ]

  -- The time to live that is sent, 0 for a key without a deadline; `none` where it has passed.
  unfoldable pub ttl_of : ℕ → Entry (E.Value) → Option ℕ
  unfolding ttl_ms
  ttl_of now entry = elim entry.expire_at [ none ↦ some 0 | some at ↦ ttl_ms now at ]

  -- `doMigrate`, which leaves a key whose deadline has passed where it is.
  unfoldable pub do_migrate : Bool → Attempt → String → World → Option MoveError × World
  unfolding ttl_of move_entry
  do_migrate replace a k w = elim (E.get_entry k w.0) [
    | none ↦ (some no_entry, w)
    | some entry ↦ elim (ttl_of a.now entry) [
      | none ↦ (none, w)
      | some ttl ↦ move_entry replace a.wire k ttl entry w
    ]
  ]

  -- The rounds that are left of the loop of `migrateKey`, with the last error.
  unfoldable pub retry :
      ℕ → ℕ → Option MoveError → Bool → (ℕ → Attempt) → String → World → Option MoveError × World
  unfolding do_migrate
  retry zero i last replace attempts k w = (last, w)
  retry (suc n) i last replace attempts k w =
      let (err, w') = do_migrate replace (attempts i) k w in
      let rest = retry n (i + 1) err replace attempts k w' in
      if ltb 0 i && (attempts i).cancel then (some cancelled, w) else elim err [
        | none ↦ (none, w')
        | some e ↦ if is_busy e && not replace then (some e, w') else rest
      ]

  -- `migrateKey`
  unfoldable pub migrate_key : ℕ → Bool → (ℕ → Attempt) → String → World → Option MoveError × World
  unfolding retry
  migrate_key max_retries replace attempts k w = retry max_retries 0 none replace attempts k w

  -- The progress after a key.
  unfoldable pub count_key : Option MoveError → MigrationProgress → MigrationProgress
  count_key none p = record p { migrated_keys = p.migrated_keys + 1 }
  count_key (some e) p = record p { failed_keys = p.failed_keys + 1; last_error = key_error e }

  abbrev pub Ended : Type 0
  Ended = Option SlotError × MigrationProgress × World

  -- The `select` before a key, with what the loop does if it goes on.
  unfoldable pub at_signal : Signal → MigrationProgress → World → Ended → Ended
  at_signal go_on p w rest = rest
  at_signal context_done p w rest =
      (some context_error, record p { status = failed; last_error = context_cancelled }, w)
  at_signal stop p w rest =
      (some migration_stopped, record p { status = failed; last_error = worker_stopped }, w)

  -- The loop of `MigrateSlot` over the keys, from the `i`th run on.
  unfoldable pub migrate_keys :
      ℕ
      → Bool
      → (ℕ → KeyRun)
      → ℕ
      → List String
      → MigrationProgress × World
      → Option SlotError × MigrationProgress × World
  unfolding migrate_key count_key at_signal
  migrate_keys retries replace runs i [] (p, w) =
      if p.failed_keys == 0
      then (none, record p { status = completed }, w)
      else (some (failed_some p.failed_keys), record p { status = failed }, w)
  migrate_keys retries replace runs i (k ∷ ks) (p, w) =
      let (err, w') = migrate_key retries replace (runs i).attempts k w in
      let rest = migrate_keys retries replace runs (i + 1) ks (count_key err p, w') in
      at_signal (runs i).signal p w rest

  -- `MigrateSlot`, with the progress that it leaves.
  unfoldable pub migrate_slot :
      ℕ → Bool → (ℕ → KeyRun) → ℕ → World → Option SlotError × MigrationProgress × World
  unfolding migrate_keys
  migrate_slot retries replace runs slot w =
      let keys = E.keys_in_slot slot 0 w.0 in
      migrate_keys retries replace runs 0 keys (
        record {
          slot = slot;
          total_keys = length keys;
          migrated_keys = 0;
          failed_keys = 0;
          status = running;
          last_error = no_error;
        },
        w,
      )
