-- ===== src/Cluster/Migration/Background.antt =====
-- internal/cluster/migration/worker.go: the worker that empties the slots that are being exported, a
-- batch of keys at each tick. The clock and the connections of a tick are arguments, by the position
-- of the key.
use autocache.Prelude.{
  ℕ, ◌+◌, ◌*◌, String, true, Option, none, some, List, [], ◌∷◌, str_eq, if◌then◌else◌, take,
}
use autocache.Cluster.Slots.{SlotManager}
use autocache.Cluster.Slots.Migrate.{finish_migration}
use autocache.Cluster.Migration.{Engine, Peer, Wire, MoveError, no_entry}
use autocache.Cluster.Migration.Worker.{World, move_entry, ttl_of}

-- `MigrationInfo`, with `none` for the address "".
pub record MigrationInfo : Type 0 where
  pub target_node_id : String
  pub target_addr : Option (String × ℕ)

pub data TickError : Type 0 where
  target_not_found : TickError

-- The time of a key's turn, and its connection.
pub record Turn : Type 0 where
  pub now : ℕ
  pub wire : Wire

module _ (E : Engine) (P : Peer) where
  -- `migrateKey`, which deletes a key whose deadline has passed.
  unfoldable pub migrate_key : Turn → String → World E P → Option MoveError × World E P
  unfolding ttl_of move_entry
  migrate_key t k w = elim (E.get_entry k w.0) [
    | none ↦ (some no_entry, w)
    | some entry ↦ elim (ttl_of E P t.now entry) [
      | none ↦ (none, (E.del k w.0, w.1))
      | some ttl ↦ move_entry E P true t.wire k ttl entry w
    ]
  ]

  -- The loop over the keys of a batch, which goes on after an error.
  unfoldable pub migrate_batch : (ℕ → Turn) → ℕ → List String → World E P → World E P
  unfolding migrate_key
  migrate_batch turns i [] w = w
  migrate_batch turns i (k ∷ ks) w = migrate_batch turns (i + 1) ks (migrate_key (turns i) k w).1

  -- `FinishMigration` of a slot without keys, to a target that is named; `none` is its panic.
  unfoldable pub finish : ℕ → MigrationInfo → SlotManager → Option SlotManager
  finish slot info sm =
      if str_eq info.target_node_id ""
      then some sm
      else finish_migration slot info.target_node_id sm

  -- `migrateSlotKeys`, where the provider looks a node up.
  unfoldable pub migrate_slot_keys :
      ℕ
      → (String → Option (String × ℕ))
      → (ℕ → Turn)
      → ℕ
      → MigrationInfo
      → SlotManager × World E P
      → Option TickError × Option SlotManager × World E P
  unfolding migrate_batch finish
  migrate_slot_keys batch_size get_node turns slot info (sm, w) =
      let keys = E.keys_in_slot slot (batch_size * 2) w.0 in
      let moved : Option TickError × Option SlotManager × World E P =
        (none, some sm, migrate_batch turns 0 (take batch_size keys) w) in
      elim keys [
        | [] ↦ (none, finish slot info sm, w)
        | _ ∷ _ ↦ elim info.target_addr [
          | some addr ↦ moved
          | none ↦ elim (get_node info.target_node_id) [
            | none ↦ (some target_not_found, some sm, w)
            | some addr ↦ moved
          ]
        ]
      ]
