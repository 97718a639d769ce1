-- ===== src/Cluster/Takeover/Owner.antt =====
-- internal/cluster/cluster.go: which slots a replica has after it took over from its master.
use autocache.Prelude.{
  ℕ, ◌<◌, String, ◌≡◌, refl, ap, subst, ◌∙◌, ◌≢◌, inl, inr, Bool, true, false, ◌&&◌, ◌||◌, none,
  some, List, [], ◌∷◌, arith, str_eq, eq_iff, ltb, ◌==◌, if◌then◌else◌, ltb→lt, lt→ltb, ==_iff,
  Bool-cases, Option-cases, if_keeps, if_keeps_on,
}
use autocache.Cluster.Hash.{slot_count}
use autocache.Cluster.Slots.{
  SlotManager, SlotInfo, mark_dirty, assign_slot, get_slot_info, get_slot_node,
  get_slot_config_epoch, get_node_slots,
}
use autocache.Cluster.Slots.Index.{count, IsIndexed}
use autocache.Cluster.Slots.Assigned.{assign_slot-Assigned, assign_slot-others}
use autocache.Cluster.Slots.Replicas.{next64, set_slot_config_epoch}
use autocache.Cluster.Gossip.Bitmap.{has_slot}
use autocache.Cluster.Gossip.Nodes.{
  master, Gossip, get_node, change, set_current_epoch, set_self_role, promote_to_master,
}
use autocache.Cluster.Gossip.Messages.Sent.{Broadcast, slot_epoch, broadcast_slot_ownership}
use autocache.Cluster.Gossip.Messages.News.{slot_epoch-slots}
use autocache.Cluster.Takeover.{
  ClusterNode, slots_of, with_gossip, increment_epoch, take_over, take_over_all, failover_to_master,
}

-- What has changed, where only epochs seen may have.
pub record Quiet (g g' : Gossip) : Type 0 where
  pub slots : g'.claims.slots ≡ g.claims.slots
  pub self : g'.self_id ≡ g.self_id

slot_epoch-Quiet : (slot : ℕ) (g : Gossip) → Quiet g (slot_epoch slot g).1
unfolding slot_epoch
slot_epoch-Quiet slot g = record {
  slots = slot_epoch-slots slot g;
  self =
      if_keeps (λ (r : ℕ × Gossip). r.1.self_id ≡ g.self_id)
        (ltb 0 (get_slot_config_epoch slot g.claims.slots)) refl refl;
}

pub broadcast-Quiet :
    (slot : ℕ) (owner : String) (g : Gossip) → Quiet g (broadcast_slot_ownership slot owner g).1
unfolding broadcast_slot_ownership
broadcast-Quiet slot owner g = elim (Option-cases (get_node owner g)) [
  | inl e ↦ rw (broadcast_slot_ownership, e) (record { slots = refl; self = refl })
  | inr (n, e) ↦ rw (broadcast_slot_ownership, e) (slot_epoch-Quiet slot g)
]

-- One round, on the slots.
record Round (old : String) (epoch slot : ℕ) (g g' : Gossip) : Type 0 where
  pub self : g'.self_id ≡ g.self_id
  others : (j : ℕ) → slot ≢ j → g'.claims.slots.slots j ≡ g.claims.slots.slots j
  owner : (g'.claims.slots.slots slot).node_id ≡ (
      if str_eq (g.claims.slots.slots slot).node_id old
      then g.self_id
      else (g.claims.slots.slots slot).node_id)
  epoch_of : (g'.claims.slots.slots slot).config_epoch ≡ (
      if str_eq (g.claims.slots.slots slot).node_id old
      then epoch
      else (g.claims.slots.slots slot).config_epoch)

-- What `AssignSlot` and `SetSlotConfigEpoch` do together.
abbrev given : String → ℕ → ℕ → SlotManager → SlotManager
given node epoch slot sm = set_slot_config_epoch slot epoch (assign_slot slot node sm).1

given-owner :
    (node : String) (epoch slot : ℕ) (sm : SlotManager)
    → slot < slot_count
    → (((given node epoch slot sm).slots slot).node_id ≡ node)
      × (((given node epoch slot sm).slots slot).config_epoch ≡ epoch)
unfolding set_slot_config_epoch mark_dirty get_slot_node
given-owner node epoch slot sm h =
    let sm₁ = (assign_slot slot node sm).1 in
    let own : (sm₁.slots slot).node_id ≡ node =
      ground (arith, h, (assign_slot-Assigned slot node sm h).1.owner) in
    rw (lt→ltb slot slot_count h) (
      if_keeps_on (λ (i : SlotInfo). (i.node_id ≡ node) × (i.config_epoch ≡ epoch)) (slot == slot)
        (λ _. (own, refl)) (λ e. ground (arith, e)))

given-others :
    (node : String) (epoch slot j : ℕ) (sm : SlotManager)
    → slot ≢ j
    → (given node epoch slot sm).slots j ≡ sm.slots j
unfolding set_slot_config_epoch mark_dirty
given-others node epoch slot j sm d =
    if_keeps (λ (r : SlotManager). r.slots j ≡ sm.slots j) (ltb slot slot_count)
      (if_keeps_on (λ i. i ≡ sm.slots j) (slot == j) (λ e. absurd (d ((==_iff slot j).0 e)))
        (λ _. assign_slot-others slot j node sm d))
      (assign_slot-others slot j node sm d)

take_over-Round :
    (old : String) (epoch slot : ℕ) (sent : List Broadcast) (g : Gossip)
    → slot < slot_count
    → Round old epoch slot g (take_over old epoch slot (sent, g)).1
unfolding get_slot_info take_over
take_over-Round old epoch slot sent g h =
    let own = (g.claims.slots.slots slot).node_id in
    let sm = given g.self_id epoch slot g.claims.slots in
    let is_some : get_slot_info slot g.claims.slots ≡ some (g.claims.slots.slots slot) =
      rw (lt→ltb slot slot_count h) refl in
    elim (Bool-cases (str_eq own old)) [
      | inl e ↦
          let q = broadcast-Quiet slot g.self_id (with_gossip sm g) in
          let (o, p) = given-owner g.self_id epoch slot g.claims.slots h in
          rw (take_over, is_some, e)
            (record {
              self = q.self;
              others = λ j d.
                  ap (λ (sm : SlotManager). sm.slots j) q.slots
                  ∙ given-others g.self_id epoch slot j g.claims.slots d;
              owner = ap (λ (sm : SlotManager). (sm.slots slot).node_id) q.slots ∙ o ∙ rw e refl;
              epoch_of =
                  ap (λ (sm : SlotManager). (sm.slots slot).config_epoch) q.slots ∙ p ∙ rw e refl;
            })
      | inr e ↦
          rw (take_over, is_some, e)
            (record { self = refl; others = λ j d. refl; owner = rw e refl; epoch_of = rw e refl })
    ]

owner_at : ℕ → Gossip → String
owner_at j g = (g.claims.slots.slots j).node_id

epoch_at : ℕ → Gossip → ℕ
epoch_at j g = (g.claims.slots.slots j).config_epoch

-- What becomes of the slot `j`, if the node took it or left it.
record Rounds (old : String) (epoch j : ℕ) (takes : Bool) (g g' : Gossip) : Type 0 where
  pub self : g'.self_id ≡ g.self_id
  owner : owner_at j g' ≡ (if takes && str_eq (owner_at j g) old then g.self_id else owner_at j g)
  epoch_of : epoch_at j g' ≡ (if takes && str_eq (owner_at j g) old then epoch else epoch_at j g)

Round-Rounds :
    (old : String) (epoch slot j : ℕ) (g g' : Gossip)
    → Round old epoch slot g g'
    → Rounds old epoch j (slot == j) g g'
unfolding owner_at epoch_at
Round-Rounds old epoch slot j g g' r = elim (Bool-cases (slot == j)) [
  | inl e ↦
      subst (λ k. Rounds old epoch k (slot == k) g g') ((==_iff slot j).0 e)
        (rw (same slot) (record { self = r.self; owner = r.owner; epoch_of = r.epoch_of }))
  | inr e ↦
      let still = r.others j (λ eq. absurd (cc (e, (==_iff slot j).1 eq))) in
      rw e (record {
        self = r.self;
        owner = ap (λ (i : SlotInfo). i.node_id) still;
        epoch_of = ap (λ (i : SlotInfo). i.config_epoch) still;
      })
]
  where
    same : (slot : ℕ) → (slot == slot) ≡ true
    same slot = ground arith

take_over-Rounds :
    (old : String) (epoch slot j : ℕ) (sent : List Broadcast) (g : Gossip)
    → j < slot_count
    → Rounds old epoch j (slot == j) g (take_over old epoch slot (sent, g)).1
unfolding take_over get_slot_info
take_over-Rounds old epoch slot j sent g h = elim (Bool-cases (ltb slot slot_count)) [
  | inl e ↦
      Round-Rounds old epoch slot j g _
        (take_over-Round old epoch slot sent g (ltb→lt slot slot_count e))
  | inr e ↦
      rw (take_over, out e)
        (let no : (slot == j) ≡ false = ground (arith, e, h) in
          rw no (record { self = refl; owner = refl; epoch_of = refl }))
]
  where
    out : ltb slot slot_count ≡ false → get_slot_info slot g.claims.slots ≡ none
    out e = rw e refl

Rounds-trans :
    (old : String) (epoch j : ℕ) (a b : Bool) (g g₁ g₂ : Gossip)
    → Rounds old epoch j a g g₁
    → Rounds old epoch j b g₁ g₂
    → Rounds old epoch j (a || b) g g₂
Rounds-trans old epoch j a b g g₁ g₂ r q = record {
  self = q.self ∙ r.self;
  owner =
      ground
        (arith, r.owner, q.owner, r.self, eq_iff (owner_at j g) old, eq_iff (owner_at j g₁) old);
  epoch_of = ground (
    arith,
    r.owner,
    r.epoch_of,
    q.epoch_of,
    eq_iff (owner_at j g) old,
    eq_iff (owner_at j g₁) old,
  );
}

take_over_all-Rounds :
    (old : String) (epoch j : ℕ) (slots : List ℕ) (sent : List Broadcast) (g : Gossip)
    → j < slot_count
    → Rounds old epoch j (has_slot j slots) g (take_over_all old epoch slots (sent, g)).1
unfolding take_over_all has_slot
take_over_all-Rounds old epoch j [] sent g h = record { self = refl; owner = refl; epoch_of = refl }
take_over_all-Rounds old epoch j (slot ∷ slots) sent g h =
    let (sent₁, g₁) = take_over old epoch slot (sent, g) in
    Rounds-trans old epoch j (slot == j) (has_slot j slots) g g₁ _
      (take_over-Rounds old epoch slot j sent g h)
      (take_over_all-Rounds old epoch j slots sent₁ g₁ h)

has_slot-count : (j : ℕ) (slots : List ℕ) → has_slot j slots ≡ ltb 0 (count j slots)
unfolding has_slot count
has_slot-count j [] = ground arith
has_slot-count j (s ∷ slots) = ground (arith, has_slot-count j slots)

-- What the node that was the replica of `old` has: each slot of `old`, at the new epoch. Every other
-- slot keeps its owner and its epoch.
pub record TookOver (old : String) (slot : ℕ) (c c' : ClusterNode) : Type 0 where
  pub owner : get_slot_node slot (slots_of c') ≡ (
      if str_eq (get_slot_node slot (slots_of c)) old
      then c.gossip.self_id
      else get_slot_node slot (slots_of c))
  pub epoch_of : get_slot_config_epoch slot (slots_of c') ≡ (
      if str_eq (get_slot_node slot (slots_of c)) old
      then next64 c.current_epoch
      else get_slot_config_epoch slot (slots_of c))

-- If the index of the slot manager is right, a replica that takes over from a node with a name owns
-- each slot of it afterwards, at the epoch that follows its own; every other slot keeps its owner and
-- its config epoch.
pub failover_to_master-TookOver :
    (old : String) (slot : ℕ) (c : ClusterNode)
    → slot < slot_count
    → old ≢ ""
    → IsIndexed (slots_of c)
    → TookOver old slot c (failover_to_master old c).1
unfolding failover_to_master increment_epoch get_node_slots set_self_role promote_to_master
    set_current_epoch change mark_dirty get_slot_node get_slot_config_epoch owner_at epoch_at
failover_to_master-TookOver old slot c h ne ix =
    let epoch = next64 c.current_epoch in
    let g = with_gossip (mark_dirty c.gossip.claims.slots) (
      set_current_epoch epoch
        (promote_to_master c.gossip.self_id (set_self_role master "" c.gossip))) in
    let slots = (slots_of c).node_slots old in
    let r = take_over_all-Rounds old epoch slot slots [] g h in
    let mine = str_eq ((slots_of c).slots slot).node_id old in
    let listed : (has_slot slot slots && mine) ≡ mine =
      ground (arith, has_slot-count slot slots, ix.listed old slot ne) in
    record {
      owner = rw (lt→ltb slot slot_count h) (r.owner ∙ rw listed refl);
      epoch_of = rw (lt→ltb slot slot_count h) (r.epoch_of ∙ rw listed refl);
    }
