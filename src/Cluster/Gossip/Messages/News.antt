-- ===== src/Cluster/Gossip/Messages/News.antt =====
-- internal/cluster/gossip/gossip.go: news of an owner reaches a node that has seen no higher epoch.
use autocache.Prelude.{
  ℕ, ◌≤◌, ◌<◌, String, ◌≡◌, refl, sym, subst, ◌∙◌, inl, inr, true, false, ◌&&◌, some, List, [], ◌∷◌,
  ◌++◌, arith, ltb, leb, Option-cases, if_keeps, if_keeps_on, length,
}
use autocache.Cluster.Hash.{slot_count}
use autocache.Cluster.Slots.{get_slot_config_epoch, get_node_slots}
use autocache.Cluster.Gossip.{SlotClaims, seen_epoch, record_slot_epoch}
use autocache.Cluster.Gossip.Claims.{Holds}
use autocache.Cluster.Gossip.Bitmap.{has_slot, bytes_to_slots}
use autocache.Cluster.Gossip.Bitmap.Bits.{AreSlots, bytes_to_slots-slots_to_bytes}
use autocache.Cluster.Gossip.Nodes.{
  NodeState, master, GossipNode, Gossip, get_node, change, recipients,
}
use autocache.Cluster.Gossip.Messages.Hearsay.{IsHeld, discover-IsHeld, change-IsHeld, heard-keeps}
use autocache.Cluster.Gossip.Messages.{
  NodeInfo, process_node_info, process_slots, process_gossip, holds_master, register, discover,
  heard_of, report,
}
use autocache.Cluster.Gossip.Messages.Sent.{
  tells, ownership_news, owner_info, with_slot, slot_epoch, broadcast_slot_ownership,
}
use autocache.Cluster.Gossip.Claims.Lists.{Still, claim_slots-Holds, claim_slots-stale}

has_slot-append : (slot : ℕ) (slots : List ℕ) → has_slot slot (slots ++ slot ∷ []) ≡ true
unfolding has_slot
has_slot-append slot [] = ground arith
has_slot-append slot (s ∷ slots) = ground (arith, has_slot-append slot slots)

has_slot-with_slot : (slot : ℕ) (slots : List ℕ) → has_slot slot (with_slot slot slots) ≡ true
unfolding with_slot
has_slot-with_slot slot slots =
    if_keeps_on (λ l. has_slot slot l ≡ true) (has_slot slot slots) (λ e. e)
      (λ _. has_slot-append slot slots)

append-AreSlots :
    (slot : ℕ) (slots : List ℕ) → slot < slot_count → AreSlots slots → AreSlots (slots ++ slot ∷ [])
append-AreSlots slot [] lt h = (lt, tt)
append-AreSlots slot (s ∷ slots) lt (b, h) = (b, append-AreSlots slot slots lt h)

with_slot-AreSlots :
    (slot : ℕ) (slots : List ℕ)
    → slot < slot_count
    → AreSlots slots
    → AreSlots (with_slot slot slots)
unfolding with_slot
with_slot-AreSlots slot slots lt h =
    if_keeps AreSlots (has_slot slot slots) h (append-AreSlots slot slots lt h)

holds_master-true :
    (id owner : String) (state : NodeState) (g : Gossip)
    → IsHeld id master owner state g
    → holds_master id g ≡ true
unfolding holds_master
holds_master-true id owner state g h = rw (holds_master, h.known, h.role_of) refl

process_slots-Holds :
    (info : NodeInfo) (slot : ℕ) (g : Gossip)
    → slot < slot_count
    → length info.slots ≡ 2048
    → has_slot slot (bytes_to_slots info.slots) ≡ true
    → holds_master info.id g ≡ true
    → seen_epoch slot g.claims < info.config_epoch
    → Holds slot info.id info.config_epoch (process_slots info g).claims
unfolding process_slots
process_slots-Holds info slot g lt len listed m new =
    rw (process_slots, len, m)
      (claim_slots-Holds info.id info.config_epoch slot (bytes_to_slots info.slots) g.claims lt
        listed new)

-- Second-hand news of a master that claims slots by a bitmap.
process_node_info-Holds :
    (now : ℕ) (info : NodeInfo) (slot : ℕ) (owner : String) (state : NodeState) (g : Gossip)
    → slot < slot_count
    → length info.slots ≡ 2048
    → has_slot slot (bytes_to_slots info.slots) ≡ true
    → IsHeld info.id master owner state g
    → seen_epoch slot g.claims < info.config_epoch
    → Holds slot info.id info.config_epoch (process_node_info now info false g).claims
unfolding process_node_info register process_slots
process_node_info-Holds now info slot owner state g lt len listed held new =
    let f = λ (n : GossipNode). report now info (heard_of info false n) in
    let known : discover info g ≡ g = rw (discover, held.known) refl in
    process_slots-Holds info slot (change info.id f (discover info g)) lt len listed
      (holds_master-true info.id owner state _ (
        change-IsHeld info.id master owner state info.id f (discover info g)
          (heard-keeps info.id master owner state now info)
          (discover-IsHeld info.id master owner state info g held)))
      (subst (λ (g' : Gossip). seen_epoch slot g'.claims < info.config_epoch) (sym known) new)

record_slot_epoch-slots :
    (slot epoch : ℕ) (c : SlotClaims) → (record_slot_epoch slot epoch c).slots ≡ c.slots
unfolding record_slot_epoch
record_slot_epoch-slots slot epoch c =
    if_keeps (λ (r : SlotClaims). r.slots ≡ c.slots) (leb (c.slot_epochs slot) epoch) refl refl

-- `slotEpoch` may note an epoch, and changes no slot.
pub slot_epoch-slots : (slot : ℕ) (g : Gossip) → (slot_epoch slot g).1.claims.slots ≡ g.claims.slots
unfolding slot_epoch
slot_epoch-slots slot g =
    if_keeps (λ (r : ℕ × Gossip). r.1.claims.slots ≡ g.claims.slots)
      (ltb 0 (get_slot_config_epoch slot g.claims.slots)) (record_slot_epoch-slots slot _ g.claims)
      refl

-- A node that tells of the owner of a slot convinces each node that hears it, holds the owner for a
-- master and has seen no epoch of the slot that is as high.
pub broadcast_slot_ownership-Holds :
    (now slot : ℕ) (owner sender master_id : String) (n : GossipNode) (state : NodeState)
    (g r : Gossip)
    → slot < slot_count
    → get_node owner g ≡ some n
    → AreSlots (get_node_slots owner g.claims.slots)
    → IsHeld n.id master master_id state r
    → seen_epoch slot r.claims < (slot_epoch slot g).0
    → (info : NodeInfo) × (to : List GossipNode) × ((broadcast_slot_ownership slot owner g).0
        ≡ tells info to)
      × Holds slot n.id (slot_epoch slot g).0 (process_gossip now sender (info ∷ []) r).claims
unfolding broadcast_slot_ownership ownership_news owner_info process_gossip
broadcast_slot_ownership-Holds now slot owner sender master_id n state g r lt known ok held new =
    let (epoch, g') = slot_epoch slot g in
    let slots = with_slot slot (get_node_slots owner g'.claims.slots) in
    let (bitmap, e, len, same) =
      bytes_to_slots-slots_to_bytes slots
        (with_slot-AreSlots slot _ lt (rw (slot_epoch-slots slot g) ok)) in
    (
      owner_info n epoch bitmap,
      recipients g'.self_id g'.nodes,
      rw (broadcast_slot_ownership, known, ownership_news, e) refl,
      process_node_info-Holds now (record (owner_info n epoch bitmap) { reporter_id = sender }) slot
          master_id state r lt len (same slot ∙ has_slot-with_slot slot _) held new,
    )

discover-claims : (info : NodeInfo) (g : Gossip) → (discover info g).claims ≡ g.claims
unfolding discover
discover-claims info g = elim (Option-cases (get_node info.id g)) [
  | inl e ↦ rw (discover, e) refl
  | inr (n, e) ↦ rw (discover, e) refl
]

-- Second-hand news of an epoch that is not above the one that a node has seen of a slot leaves the
-- slot with its owner.
pub process_node_info-Still :
    (now slot : ℕ) (info : NodeInfo) (g : Gossip)
    → 0 < seen_epoch slot g.claims
    → info.config_epoch ≤ seen_epoch slot g.claims
    → Still slot g.claims (process_node_info now info false g).claims
unfolding process_node_info register process_slots
process_node_info-Still now slot info g p le =
    let f = λ (n : GossipNode). report now info (heard_of info false n) in
    subst (λ c. Still slot c (process_node_info now info false g).claims) (discover-claims info g)
      (if_keeps (λ (r : Gossip). Still slot (discover info g).claims r.claims)
        (ltb 0 (length info.slots) && holds_master info.id (change info.id f (discover info g)))
        (claim_slots-stale info.id info.config_epoch slot (bytes_to_slots info.slots)
          (discover info g).claims (rw (discover-claims info g) p) (rw (discover-claims info g) le))
        (record { owner = refl; seen = refl }))
