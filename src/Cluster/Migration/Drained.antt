-- ===== src/Cluster/Migration/Drained.antt =====
-- internal/cluster/cluster.go: when a slot is handed over, and what becomes of a key of it.
use autocache.Prelude.{
  ℕ, ◌+◌, ◌<◌, String, ◌≡◌, refl, sym, ap, subst, ◌∙◌, inl, inr, Bool, true, false, Option, none,
  some, List, [], ◌∷◌, str_eq, eq_iff, Bool-cases, Option-cases, if_keeps,
}
use autocache.Cluster.Hash.{slot_count}
use autocache.Cluster.Slots.{SlotManager}
use autocache.Cluster.Slots.Marks.{set_exporting-Owned, set_stable-Owned, finish_migration-Owned}
use autocache.Cluster.Gossip.Nodes.{get_node}
use autocache.Cluster.Gossip.Messages.Sent.{Broadcast}
use autocache.Cluster.Takeover.{ClusterNode, slots_of, with_slots, broadcast_slot_ownership_change}
use autocache.Cluster.Takeover.Owner.{broadcast-Quiet}
use autocache.Cluster.Migration.{Entry, Engine, IsEngine, Peer, IsPeer}
use autocache.Cluster.Migration.Worker.{World, ttl_of}
use autocache.Cluster.Migration.Moved.{
  IsSafe, here, there, still, del-other, move_entry-same, move_entry-other,
}
use autocache.Cluster.Migration.Completed.{IsListed}
use autocache.Cluster.Migration.Background.{Turn, migrate_key}
use autocache.Cluster.Migration.Drain.{
  DrainError, Around, drain_key, drain_keys, drain_slot, HandOver, target_unknown, drain_failed,
  drained, handed_over, then_slots, conclude, migrate_slot,
}

module _ (E : Engine) (P : Peer) (EL : IsEngine E) (PL : IsPeer P) (j : String)
    (e : Entry (E.Value)) (v : List ℕ) (f : E.serialize e ≡ some v) (d : e.expire_at ≡ none) where
  abbrev pub Safe : World E P → Type 0
  Safe = IsSafe E P j e v

  migrate_key-other :
      (t : Turn) (k : String) (w : World E P)
      → str_eq k j ≡ false
      → Safe w
      → Safe (migrate_key E P t k w).1
  unfolding migrate_key
  migrate_key-other t k w ne safe = elim (Option-cases (E.get_entry k w.0)) [
    | inl q ↦ rw (migrate_key, q) safe
    | inr (other, q) ↦ elim (Option-cases (ttl_of E P t.now other)) [
      | inl r ↦
          rw (migrate_key, q, r)
            (still E P EL PL j e v w _ (del-other E P EL PL j e v k w.0 ne) refl safe)
      | inr (ttl, r) ↦
          rw (migrate_key, q, r)
            (move_entry-other E P EL PL j e v true t.wire k ttl other w ne safe)
    ]
  ]

  no_ttl : (now : ℕ) → ttl_of E P now e ≡ some 0
  unfolding ttl_of
  no_ttl now = rw (ttl_of, d) refl

  migrate_key-same : (t : Turn) (w : World E P) → Safe w → Safe (migrate_key E P t j w).1
  unfolding migrate_key
  migrate_key-same t w (there h g) = rw (migrate_key, h) (there h g)
  migrate_key-same t w (here h) =
      rw (migrate_key, h, no_ttl t.now) (move_entry-same E P EL PL j e v true t.wire 0 w f h)

  -- A turn of a key keeps every key that has no deadline.
  pub migrate_key-Safe :
      (t : Turn) (k : String) (w : World E P) → Safe w → Safe (migrate_key E P t k w).1
  migrate_key-Safe t k w safe = elim (Bool-cases (str_eq k j)) [
    | inl eq ↦
        subst (λ i. Safe (migrate_key E P t i w).1) (sym ((eq_iff k j).0 eq))
          (migrate_key-same t w safe)
    | inr ne ↦ migrate_key-other t k w ne safe
  ]

  -- What a drain of the slot leaves: the key is kept, and if there is no error then the slot is empty.
  pub record IsDrained (slot : ℕ) (r : Option DrainError × World E P) : Type 0 where
    pub safe : Safe r.1
    pub empty : r.0 ≡ none → E.keys_in_slot slot 0 r.1.0 ≡ []

  module _ (a : Around E)
      (leaves : (i : ℕ) (s : E.State) → E.get_entry j (a.clients i s) ≡ E.get_entry j s) where
    drain_keys-IsDrained :
        (slot i : ℕ) (ks : List String) (w : World E P)
        → Safe w
        → IsDrained slot (drain_keys E P a slot i ks w)
    unfolding drain_keys drain_key
    drain_keys-IsDrained slot i [] (s, p) safe = at_end (E.keys_in_slot slot 0 (a.clients i s)) refl
      where
        kept : Safe (a.clients i s, p)
        kept = still E P EL PL j e v (s, p) (a.clients i s, p) (leaves i s) refl safe

        at_end :
            (l : List String)
            → E.keys_in_slot slot 0 (a.clients i s) ≡ l
            → IsDrained slot (drain_keys E P a slot i [] (s, p))
        at_end [] q = rw (drain_keys, q) (record { safe = kept; empty = λ _. q })
        at_end (k ∷ ks) q = rw (drain_keys, q) (record { safe = kept; empty = λ r. absurd (cc r) })
    drain_keys-IsDrained slot i (k ∷ ks) (s, p) safe =
        let s' = a.clients i s in
        let kept = still E P EL PL j e v (s, p) (s', p) (leaves i s) refl safe in
        let one = migrate_key-Safe (a.turns i) k (s', p) kept in
        if_keeps (IsDrained slot) (a.ended i) (record { safe = kept; empty = λ r. absurd (cc r) })
          (elim (Option-cases (migrate_key E P (a.turns i) k (s', p)).0) [
            | inl q ↦
                rw (drain_keys, q)
                  (drain_keys-IsDrained slot (i + 1) ks (migrate_key E P (a.turns i) k (s', p)).1
                    one)
            | inr (x, q) ↦ rw (drain_keys, q) (record { safe = one; empty = λ r. absurd (cc r) })
          ])

    pub drain_slot-IsDrained :
        (slot : ℕ) (w : World E P) → Safe w → IsDrained slot (drain_slot E P a slot w)
    unfolding drain_slot
    drain_slot-IsDrained slot w safe = by_keys (E.keys_in_slot slot 0 w.0) refl
      where
        by_keys :
            (l : List String)
            → E.keys_in_slot slot 0 w.0 ≡ l
            → IsDrained slot (drain_slot E P a slot w)
        by_keys [] q = rw (drain_slot, q) (record { safe = safe; empty = λ _. q })
        by_keys (k ∷ ks) q = rw (drain_slot, q) (drain_keys-IsDrained slot 0 (k ∷ ks) w safe)

abbrev pub owner_of : ℕ → ClusterNode → String
owner_of slot c = ((slots_of c).slots slot).node_id

abbrev pub is_refusal : {E : Engine} {P : Peer} → HandOver E P → Bool
is_refusal target_unknown = true
is_refusal (drain_failed e) = true
is_refusal _ = false

-- What `MigrateSlot` comes to: the slot is the target's, after a look that found no key of the slot, and
-- a RESTORE of the key was answered with OK; or the slot stays with its owner, and the key is kept. What
-- the clients do after the look is `at_last`.
pub data Concluded (E : Engine) (P : Peer) (at_last : E.State → E.State) (j : String)
    (e : Entry (E.Value)) (v : List ℕ) (slot : ℕ) (target : String) (c : ClusterNode)
    (r : HandOver E P × ClusterNode × World E P) : Type 0 where
  given :
      (b : Broadcast) (s : E.State)
      → r.0 ≡ handed_over b
      → owner_of slot r.1 ≡ target
      → E.keys_in_slot slot 0 s ≡ []
      → r.2.0 ≡ at_last s
      → P.acknowledged j r.2.1 ≡ some v
      → Concluded E P at_last j e v slot target c r
  kept :
      is_refusal r.0 ≡ true
      → owner_of slot r.1 ≡ owner_of slot c
      → IsSafe E P j e v r.2
      → Concluded E P at_last j e v slot target c r

module _ (E : Engine) (P : Peer) (at_last : E.State → E.State) (j : String) (e : Entry (E.Value))
    (v : List ℕ) (slot : ℕ) (target : String) (lt : slot < slot_count)
    (listed : (s : E.State) → E.get_entry j s ≡ some e → IsListed j (E.keys_in_slot slot 0 s)) where
  arrived :
      (w : World E P)
      → IsSafe E P j e v w
      → E.keys_in_slot slot 0 w.0 ≡ []
      → P.acknowledged j w.1 ≡ some v
  arrived w (here h) q = absurd (subst (IsListed j) q (listed w.0 h))
  arrived w (there h g) q = g

  conclude-Concluded :
      (c : ClusterNode) (err : Option DrainError) (s : E.State) (p : P.State)
      → IsSafe E P j e v (s, p)
      → IsSafe E P j e v (at_last s, p)
      → (err ≡ none → E.keys_in_slot slot 0 s ≡ [])
      → Concluded E P at_last j e v slot target c (conclude E P slot target c (err, (at_last s, p)))
  unfolding conclude then_slots broadcast_slot_ownership_change
  conclude-Concluded c none s p safe later empty =
      let (sm, q, own) = finish_migration-Owned slot target (slots_of c) lt in
      rw (conclude, q)
        (given _ s refl
          (ap (λ (sm : SlotManager). (sm.slots slot).node_id)
              (broadcast-Quiet slot target (with_slots sm c).gossip).slots
            ∙ own)
          (empty refl) refl (arrived (s, p) safe (empty refl)))
  conclude-Concluded c (some x) s p safe later empty =
      let (sm, q, own) = set_stable-Owned slot (slots_of c) lt in
      rw (conclude, q) (kept refl own later)

  from_start :
      (c c₁ : ClusterNode) (r : HandOver E P × ClusterNode × World E P)
      → owner_of slot c₁ ≡ owner_of slot c
      → Concluded E P at_last j e v slot target c₁ r
      → Concluded E P at_last j e v slot target c r
  from_start c c₁ r o (given b s q own k l a) = given b s q own k l a
  from_start c c₁ r o (kept q own s) = kept q (own ∙ o) s

pub migrate_slot-Concluded :
    (E : Engine) (P : Peer) (j : String) (e : Entry (E.Value)) (v : List ℕ) (slot : ℕ)
    (target : String) (a : Around E) (c : ClusterNode) (w : World E P)
    → IsEngine E
    → IsPeer P
    → slot < slot_count
    → ((s : E.State) → E.get_entry j s ≡ some e → IsListed j (E.keys_in_slot slot 0 s))
    → ((i : ℕ) (s : E.State) → E.get_entry j (a.clients i s) ≡ E.get_entry j s)
    → ((s : E.State) → E.get_entry j (a.at_last s) ≡ E.get_entry j s)
    → E.get_entry j w.0 ≡ some e
    → E.serialize e ≡ some v
    → e.expire_at ≡ none
    → Concluded E P a.at_last j e v slot target c (migrate_slot E P a slot target (c, w))
unfolding migrate_slot then_slots drained
migrate_slot-Concluded E P j e v slot target a c w EL PL lt listed leaves spares h f d =
    let (sm, q, own) = set_exporting-Owned slot target (slots_of c) lt in
    let c₁ = with_slots sm c in
    elim (Option-cases (get_node target c₁.gossip)) [
      | inl n ↦
          let (sm₂, q₂, own₂) = set_stable-Owned slot sm lt in
          rw (migrate_slot, q, then_slots, n, q₂) (kept refl (own₂ ∙ own) (here h))
      | inr (x, n) ↦
          let r = drain_slot-IsDrained E P EL PL j e v f d a leaves slot w (here h) in
          let (err, (s, p)) = drain_slot E P a slot w in
          let later = still E P EL PL j e v (s, p) (a.at_last s, p) (spares s) refl r.safe in
          rw (migrate_slot, q, then_slots, n)
            (from_start E P a.at_last j e v slot target lt listed c c₁ _ own (
              conclude-Concluded E P a.at_last j e v slot target lt listed c₁ err s p r.safe later
                r.empty))
    ]
