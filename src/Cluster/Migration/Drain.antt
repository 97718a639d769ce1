-- ===== src/Cluster/Migration/Drain.antt =====
-- internal/cluster/cluster.go: `MigrateSlot` and `DrainSlots`, which empty a slot and hand it over.
-- What clients do to the engine between two steps is an argument, as the clock and the connections.
use autocache.Prelude.{
  ℕ, suc, ◌+◌, ◌%◌, String, Bool, not, ◌&&◌, Option, none, some, List, [], ◌∷◌, str_eq, ltb,
  if◌then◌else◌, length, get_or,
}
use autocache.Cluster.Slots.{SlotManager, get_node_slots}
use autocache.Cluster.Slots.Migrate.{set_exporting, set_stable, finish_migration}
use autocache.Cluster.Gossip.Nodes.{GossipNode, is_master, is_connected, get_node}
use autocache.Cluster.Gossip.Messages.Sent.{Broadcast}
use autocache.Cluster.Takeover.{ClusterNode, slots_of, with_slots, broadcast_slot_ownership_change}
use autocache.Cluster.Migration.{Engine, Peer, MoveError}
use autocache.Cluster.Migration.Worker.{World}
use autocache.Cluster.Migration.Background.{Turn, migrate_key}

pub data DrainError : Type 0 where
  context_error concurrent_writes : DrainError
  key_failed : MoveError → DrainError

-- What goes on around a drain, by the position of the key: whether the context has ended, what the
-- clients have done since the last step, and the turn of the key; and what the clients do between the
-- end of the drain and the hand-over.
pub record Around (E : Engine) : Type 0 where
  pub ended : ℕ → Bool
  pub clients : ℕ → E.State → E.State
  pub turns : ℕ → Turn
  pub at_last : E.State → E.State

module _ (E : Engine) (P : Peer) where
  -- `drainKey`, which does what `migrateKey` of the worker does.
  unfoldable pub drain_key : Turn → String → World E P → Option MoveError × World E P
  unfolding migrate_key
  drain_key = migrate_key E P

  -- The loop of `drainSlot`, which stops at an error, and then looks for keys that were written.
  unfoldable pub drain_keys :
      Around E → ℕ → ℕ → List String → World E P → Option DrainError × World E P
  unfolding drain_key
  drain_keys a slot i [] (s, p) =
      let s' = a.clients i s in
      elim (E.keys_in_slot slot 0 s') [
        | [] ↦ (none, (s', p))
        | _ ∷ _ ↦ (some concurrent_writes, (s', p))
      ]
  drain_keys a slot i (k ∷ ks) (s, p) =
      let s' = a.clients i s in
      let (err, w') = drain_key (a.turns i) k (s', p) in
      let rest = drain_keys a slot (i + 1) ks w' in
      if a.ended i
      then (some context_error, (s', p))
      else elim err [ none ↦ rest | some e ↦ (some (key_failed e), w') ]

  -- `drainSlot`
  unfoldable pub drain_slot : Around E → ℕ → World E P → Option DrainError × World E P
  unfolding drain_keys
  drain_slot a slot w = elim (E.keys_in_slot slot 0 w.0) [
    | [] ↦ (none, w)
    | k ∷ ks ↦ drain_keys a slot 0 (k ∷ ks) w
  ]

  -- What the drain of a slot has come to when its end is acted on.
  unfoldable pub drained : Around E → ℕ → World E P → Option DrainError × World E P
  unfolding drain_slot
  drained a slot w = let (err, (s, p)) = drain_slot a slot w in (err, (a.at_last s, p))

  -- What `MigrateSlot` returns: `panics` for a slot out of range.
  pub data HandOver : Type 0 where
    panics target_unknown : HandOver
    drain_failed : DrainError → HandOver
    handed_over : Broadcast → HandOver

  -- A change of the slots that may be a panic, and what follows it.
  unfoldable pub then_slots :
      Option SlotManager
      → ClusterNode × World E P
      → (ClusterNode → HandOver × ClusterNode × World E P)
      → HandOver × ClusterNode × World E P
  then_slots none (c, w) next = (panics, c, w)
  then_slots (some sm) (c, w) next = next (with_slots sm c)

  -- The end of `MigrateSlot`, by what the drain returned.
  unfoldable pub conclude :
      ℕ → String → ClusterNode → Option DrainError × World E P → HandOver × ClusterNode × World E P
  unfolding then_slots
  conclude slot target c (some e, w) =
      then_slots (set_stable slot (slots_of c)) (c, w) (λ c'. (drain_failed e, c', w))
  conclude slot target c (none, w) =
      then_slots (finish_migration slot target (slots_of c)) (c, w)
        (λ c₁.
          let (b, c₂) = broadcast_slot_ownership_change slot target c₁ in (handed_over b, c₂, w))

  -- `MigrateSlot`
  unfoldable pub migrate_slot :
      Around E → ℕ → String → ClusterNode × World E P → HandOver × ClusterNode × World E P
  unfolding then_slots conclude drained get_node
  migrate_slot a slot target (c, w) =
      then_slots (set_exporting slot target (slots_of c)) (c, w)
        (λ c₁. elim (get_node target c₁.gossip) [
          | none ↦
              then_slots (set_stable slot (slots_of c₁)) (c₁, w) (λ c₂. (target_unknown, c₂, w))
          | some _ ↦ conclude slot target c₁ (drained a slot w)
        ])

  -- The peers of `DrainSlots`.
  unfoldable pub drain_peers : String → List (String × GossipNode) → List GossipNode
  drain_peers self [] = []
  drain_peers self ((k, n) ∷ ns) =
      let rest = drain_peers self ns in
      if not (str_eq n.id self)
        && is_master n.role
        && is_connected n.state
        && not (str_eq n.ip "")
        && ltb 0 n.port
      then n ∷ rest
      else rest

  abbrev peer_at : ℕ → GossipNode → List GossipNode → GossipNode
  peer_at i first rest = get_or (first ∷ rest) (i % suc (length rest)) first

  -- One round of the loop of `DrainSlots`, on the `i`th slot of the node.
  unfoldable pub drain_round :
      Around E
      → ℕ
      → ℕ
      → GossipNode
      → List GossipNode
      → ClusterNode × World E P
      → HandOver × ClusterNode × World E P
  unfolding then_slots conclude drained
  drain_round a i slot first rest (c, w) =
      let target = peer_at i first rest in
      then_slots (set_exporting slot target.id (slots_of c)) (c, w)
        (λ c₁. conclude slot target.id c₁ (drained a slot w))

  -- The loop, with what became of each slot. A panic is the end of it.
  unfoldable pub drain_rounds :
      (ℕ → Around E)
      → ℕ
      → List ℕ
      → GossipNode
      → List GossipNode
      → ClusterNode × World E P
      → List HandOver × ClusterNode × World E P
  unfolding drain_round
  drain_rounds a i [] first rest (c, w) = ([], c, w)
  drain_rounds a i (slot ∷ slots) first rest (c, w) =
      let (h, c', w') = drain_round (a i) i slot first rest (c, w) in
      let (hs, c'', w'') = drain_rounds a (i + 1) slots first rest (c', w') in
      let all = h ∷ hs in elim h [ panics ↦ (panics ∷ [], c', w') | _ ↦ (all, c'', w'') ]

  -- `DrainSlots`, of a node whose engine is set.
  unfoldable pub drain_slots :
      (ℕ → Around E) → ClusterNode × World E P → List HandOver × ClusterNode × World E P
  unfolding drain_rounds drain_peers
  drain_slots a (c, w) =
      let slots = get_node_slots c.gossip.self_id (slots_of c) in
      elim (drain_peers c.gossip.self_id c.gossip.nodes) [
        | [] ↦ ([], c, w)
        | first ∷ rest ↦ drain_rounds a 0 slots first rest (c, w)
      ]
