-- ===== src/Cluster/Gossip/Claims/Lists.antt =====
-- internal/cluster/gossip/gossip.go: the claims of one message, on a list of slots.
use autocache.Prelude.{
  ℕ, ◌≤◌, ◌<◌, String, ◌≡◌, refl, sym, subst, ◌∙◌, ◌≢◌, inl, inr, true, false, List, [], ◌∷◌, arith,
  str_eq, leb, ◌==◌, ==_iff, Bool-cases, Option-cases, if_keeps,
}
use autocache.Cluster.Hash.{slot_count}
use autocache.Cluster.Slots.{assign_slot, get_slot_node, get_slot_config_epoch}
use autocache.Cluster.Slots.Assigned.{assign_slot-others}
use autocache.Cluster.Gossip.{
  SlotClaims, seen_epoch, can_apply_slot_ownership, record_slot_epoch, claim_slot, claim_slots,
  take_slot,
}
use autocache.Cluster.Gossip.Claims.{Holds, claim_slot-Holds, cannot_apply, unchanged}
use autocache.Cluster.Gossip.Bitmap.{has_slot}

-- The slot is as it was, for the claims to come.
pub record Still (slot : ℕ) (g g' : SlotClaims) : Type 0 where
  pub owner : get_slot_node slot g'.slots ≡ get_slot_node slot g.slots
  pub seen : seen_epoch slot g' ≡ seen_epoch slot g

record_slot_epoch-Still :
    (s slot epoch : ℕ) (g : SlotClaims) → s ≢ slot → Still slot g (record_slot_epoch s epoch g)
unfolding record_slot_epoch seen_epoch
record_slot_epoch-Still s slot epoch g d =
    if_keeps (Still slot g) (leb (g.slot_epochs s) epoch)
      (record { owner = refl; seen = rw (not_same d) refl }) (record { owner = refl; seen = refl })
  where
    not_same : s ≢ slot → (s == slot) ≡ false
    not_same d = ground (arith, d)

slots-Still :
    (s slot : ℕ) (node : String) (g : SlotClaims)
    → s ≢ slot
    → Still slot g (record g { slots = (assign_slot s node g.slots).1 })
unfolding seen_epoch get_slot_node get_slot_config_epoch
slots-Still s slot node g d =
    let e = assign_slot-others s slot node g.slots d in
    record { owner = rw e refl; seen = rw e refl }

Still-trans :
    (slot : ℕ) (g g₁ g₂ : SlotClaims) → Still slot g g₁ → Still slot g₁ g₂ → Still slot g g₂
Still-trans slot g g₁ g₂ r q = record { owner = q.owner ∙ r.owner; seen = q.seen ∙ r.seen }

claim_slot-Still :
    (node : String) (epoch s slot : ℕ) (g : SlotClaims)
    → s ≢ slot
    → Still slot g (claim_slot node epoch s g)
unfolding claim_slot take_slot
claim_slot-Still node epoch s slot g d =
    if_keeps (Still slot g) (can_apply_slot_ownership s epoch g)
      (if_keeps (Still slot g) (str_eq (get_slot_node s g.slots) node)
        (record_slot_epoch-Still s slot epoch g d)
        (elim (Option-cases (assign_slot s node g.slots).0) [
          | inl e ↦
              rw (take_slot, e)
                (Still-trans slot g _ _ (slots-Still s slot node g d)
                  (record_slot_epoch-Still s slot epoch _ d))
          | inr (err, e) ↦ rw (take_slot, e) (slots-Still s slot node g d)
        ]))
      (record { owner = refl; seen = refl })

Still-Holds :
    (slot : ℕ) (node : String) (epoch : ℕ) (g g' : SlotClaims)
    → Still slot g g'
    → Holds slot node epoch g
    → Holds slot node epoch g'
Still-Holds slot node epoch g g' s h = record { owner = s.owner ∙ h.owner; seen = s.seen ∙ h.seen }

-- The node has the slot, or claims it first.
claim_slots-keeps :
    (node : String) (epoch slot : ℕ) (slots : List ℕ) (g : SlotClaims)
    → 0 < epoch
    → Holds slot node epoch g
    → Holds slot node epoch (claim_slots node epoch slots g)
unfolding claim_slots
claim_slots-keeps node epoch slot [] g p h = h
claim_slots-keeps node epoch slot (s ∷ slots) g p h =
    claim_slots-keeps node epoch slot slots (claim_slot node epoch s g) p
      (elim (Bool-cases (s == slot)) [
        | inl e ↦
            subst (Holds slot node epoch)
              (sym (
                unchanged node epoch s g (
                  rw ((==_iff s slot).0 e) (
                    cannot_apply slot epoch g (omega (arith, h.seen, p)) (omega (arith, h.seen))))))
              h
        | inr e ↦
            Still-Holds slot node epoch g _
              (claim_slot-Still node epoch s slot g (λ eq. absurd (cc (e, (==_iff s slot).1 eq)))) h
      ])

pub claim_slots-Holds :
    (node : String) (epoch slot : ℕ) (slots : List ℕ) (g : SlotClaims)
    → slot < slot_count
    → has_slot slot slots ≡ true
    → seen_epoch slot g < epoch
    → Holds slot node epoch (claim_slots node epoch slots g)
unfolding claim_slots has_slot can_apply_slot_ownership
claim_slots-Holds node epoch slot [] g lt h new = absurd (cc h)
claim_slots-Holds node epoch slot (s ∷ slots) g lt h new = elim (Bool-cases (s == slot)) [
  | inl e ↦
      claim_slots-keeps node epoch slot slots (claim_slot node epoch s g) (omega (arith, new))
        (rw ((==_iff s slot).0 e) (claim_slot-Holds node epoch slot g lt (newer new)))
  | inr e ↦
      let still =
        claim_slot-Still node epoch s slot g (λ eq. absurd (cc (e, (==_iff s slot).1 eq))) in
      claim_slots-Holds node epoch slot slots (claim_slot node epoch s g) lt (ground (arith, h, e))
        (omega (arith, still.seen, new))
]
  where
    newer : seen_epoch slot g < epoch → can_apply_slot_ownership slot epoch g ≡ true
    newer new = ground (arith, new)

pub claim_slots-stale :
    (node : String) (epoch slot : ℕ) (slots : List ℕ) (g : SlotClaims)
    → 0 < seen_epoch slot g
    → epoch ≤ seen_epoch slot g
    → Still slot g (claim_slots node epoch slots g)
unfolding claim_slots
claim_slots-stale node epoch slot [] g p le = record { owner = refl; seen = refl }
claim_slots-stale node epoch slot (s ∷ slots) g p le =
    let still : Still slot g (claim_slot node epoch s g) = elim (Bool-cases (s == slot)) [
      | inl e ↦
          subst (Still slot g)
            (sym (
              unchanged node epoch s g (rw ((==_iff s slot).0 e) (cannot_apply slot epoch g p le))))
            (record { owner = refl; seen = refl })
      | inr e ↦ claim_slot-Still node epoch s slot g (λ eq. absurd (cc (e, (==_iff s slot).1 eq)))
    ] in
    Still-trans slot g _ _ still (
      claim_slots-stale node epoch slot slots (claim_slot node epoch s g)
        (omega (arith, still.seen, p)) (omega (arith, still.seen, le)))
