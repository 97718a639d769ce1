-- ===== src/Cluster/Gossip/Claims.antt =====
-- internal/cluster/gossip/gossip.go: the highest epoch wins a slot.
pub mod Lists
use autocache.Prelude.{
  ℕ, ◌<◌, ◌≤◌, ◌≡◌, refl, sym, subst, ◌∙◌, String, true, false, List, [], ◌∷◌, ◌++◌, str_eq, eq_iff,
  leb, arith, All, if_keeps_on, Bool-cases, inl, inr,
}
use autocache.Cluster.Hash.{slot_count}
use autocache.Cluster.Slots.{assign_slot, get_slot_node, get_slot_config_epoch}
use autocache.Cluster.Slots.Assigned.{assign_slot-Assigned}
use autocache.Cluster.Gossip.{
  SlotClaims, seen_epoch, can_apply_slot_ownership, record_slot_epoch, claim_slot, take_slot,
}

-- The claims of a slot, in the order in which they come in: a node and an epoch.
unfoldable pub claims : ℕ → List (String × ℕ) → SlotClaims → SlotClaims
claims slot [] g = g
claims slot ((node, epoch) ∷ cs) g = claims slot cs (claim_slot node epoch slot g)

-- The node has the slot at the epoch, and none that is higher was seen.
pub record Holds (slot : ℕ) (node : String) (epoch : ℕ) (g : SlotClaims) : Type 0 where
  pub owner : get_slot_node slot g.slots ≡ node
  pub seen : seen_epoch slot g ≡ epoch

recorded :
    (slot epoch : ℕ) (g g' : SlotClaims)
    → g'.slot_epochs slot ≡ g.slot_epochs slot
    → get_slot_config_epoch slot g'.slots ≡ get_slot_config_epoch slot g.slots
    → can_apply_slot_ownership slot epoch g ≡ true
    → seen_epoch slot (record_slot_epoch slot epoch g') ≡ epoch
unfolding seen_epoch record_slot_epoch can_apply_slot_ownership
recorded slot epoch g g' e f can = ground (arith, e, f, can)

recorded_owner :
    (slot epoch : ℕ) (g : SlotClaims)
    → get_slot_node slot (record_slot_epoch slot epoch g).slots ≡ get_slot_node slot g.slots
unfolding record_slot_epoch
recorded_owner slot epoch g =
    if_keeps_on (λ (r : SlotClaims). get_slot_node slot r.slots ≡ get_slot_node slot g.slots)
      (leb (g.slot_epochs slot) epoch) (λ _. refl) (λ _. refl)

pub claim_slot-Holds :
    (node : String) (epoch slot : ℕ) (g : SlotClaims)
    → slot < slot_count
    → can_apply_slot_ownership slot epoch g ≡ true
    → Holds slot node epoch (claim_slot node epoch slot g)
unfolding claim_slot take_slot
claim_slot-Holds node epoch slot g h can =
    let (ok, r) = assign_slot-Assigned slot node g.slots h in
    rw (claim_slot, can)
      (if_keeps_on (Holds slot node epoch) (str_eq (get_slot_node slot g.slots) node)
        (λ e. record {
          owner = recorded_owner slot epoch g ∙ (eq_iff (get_slot_node slot g.slots) node).0 e;
          seen = recorded slot epoch g g refl refl can;
        })
        (λ _.
          rw (take_slot, ok)
            (let g' : SlotClaims = record g { slots = (assign_slot slot node g.slots).1 } in
              record {
                owner = recorded_owner slot epoch g' ∙ r.owner;
                seen = recorded slot epoch g g' refl r.epoch can;
              })))

-- A claim at an epoch that is not above the one seen changes nothing, unless both are 0.
pub cannot_apply :
    (slot epoch : ℕ) (g : SlotClaims)
    → 0 < seen_epoch slot g
    → epoch ≤ seen_epoch slot g
    → can_apply_slot_ownership slot epoch g ≡ false
unfolding can_apply_slot_ownership
cannot_apply slot epoch g p h = ground (arith, p, h)

pub unchanged :
    (n : String) (e s : ℕ) (g : SlotClaims)
    → can_apply_slot_ownership s e g ≡ false
    → claim_slot n e s g ≡ g
unfolding claim_slot
unchanged n e s g can = rw (claim_slot, can) refl

claims-Holds :
    (slot : ℕ) (node : String) (epoch : ℕ) (cs : List (String × ℕ)) (g : SlotClaims)
    → 0 < epoch
    → Holds slot node epoch g
    → All (λ (c : String × ℕ). c.1 ≤ epoch) cs
    → Holds slot node epoch (claims slot cs g)
unfolding claims
claims-Holds slot node epoch [] g p h _ = h
claims-Holds slot node epoch ((other, e) ∷ cs) g p h (le, rest) =
    claims-Holds slot node epoch cs (claim_slot other e slot g) p
      (subst (Holds slot node epoch)
        (sym (
          unchanged other e slot g
            (cannot_apply slot e g (omega (arith, h.seen, p)) (omega (arith, h.seen, le)))))
        h)
      rest

claim_slot-below :
    (node : String) (epoch slot top : ℕ) (g : SlotClaims)
    → slot < slot_count
    → seen_epoch slot g < top
    → epoch < top
    → seen_epoch slot (claim_slot node epoch slot g) < top
claim_slot-below node epoch slot top g h p q =
    elim (Bool-cases (can_apply_slot_ownership slot epoch g)) [
      | inl e ↦ omega (arith, (claim_slot-Holds node epoch slot g h e).seen, q)
      | inr e ↦ subst (λ g'. seen_epoch slot g' < top) (sym (unchanged node epoch slot g e)) p
    ]

-- In whatever order the claims of a slot come in, the node that first claims it at the highest epoch
-- has it afterwards, at that epoch, if the epoch is above the one that was seen before them.
pub claims_lem :
    (slot : ℕ) (node : String) (epoch : ℕ) (before later : List (String × ℕ)) (g : SlotClaims)
    → slot < slot_count
    → seen_epoch slot g < epoch
    → All (λ (c : String × ℕ). c.1 < epoch) before
    → All (λ (c : String × ℕ). c.1 ≤ epoch) later
    → Holds slot node epoch (claims slot (before ++ (node, epoch) ∷ later) g)
unfolding claims can_apply_slot_ownership
claims_lem slot node epoch [] later g h new _ q =
    claims-Holds slot node epoch later (claim_slot node epoch slot g) (omega (arith, new))
      (claim_slot-Holds node epoch slot g h (ground (arith, new))) q
claims_lem slot node epoch ((other, e) ∷ before) later g h new (lt, p) q =
    claims_lem slot node epoch before later (claim_slot other e slot g) h
      (claim_slot-below other e slot epoch g h new lt) p q
