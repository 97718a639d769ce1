-- ===== src/Cluster/Slots/Index.antt =====
-- The index `nodeSlots` of internal/cluster/slots.go: it lists each slot once, under its owner.
use autocache.Prelude.{
  true, Bool, inl, inr, update, update_key, subst, sym, ap, if_keeps_on, Bool-cases, not, ◌&&◌,
  ◌||◌, ℕ, ◌+◌, ◌-◌, ◌≡◌, ◌≢◌, String, List, [], ◌∷◌, ◌++◌, arith, str_eq, eq_iff, ltb, ◌==◌,
  if◌then◌else◌,
}
use autocache.Cluster.Slots.{
  SlotInfo, normal, mark_dirty, put_slot, add_slot_to_node, remove_slot_from_node, SlotManager,
  new_slot_manager, remove_first, contains, assign_checked, set_owner,
}

-- How often a slot is listed.
unfoldable pub count : ℕ → List ℕ → ℕ
count slot [] = 0
count slot (s ∷ slots) = (if s == slot then 1 else 0) + count slot slots

-- A slot stands once in the list of the node that owns it, and in the list of no other node.
pub record IsIndexed (sm : SlotManager) : Type 0 where
  pub listed :
      (node : String) (slot : ℕ)
      → node ≢ ""
      → count slot (sm.node_slots node) ≡ (if str_eq (sm.slots slot).node_id node then 1 else 0)

count-append : (slot : ℕ) (xs ys : List ℕ) → count slot (xs ++ ys) ≡ count slot xs + count slot ys
unfolding count
count-append slot [] ys = omega arith
count-append slot (x ∷ xs) ys = omega (arith, count-append slot xs ys)

count-snoc :
    (slot s : ℕ) (xs : List ℕ)
    → count slot (xs ++ s ∷ []) ≡ count slot xs + (if s == slot then 1 else 0)
unfolding count
count-snoc slot s xs = omega (arith, count-append slot xs (s ∷ []))

count-remove_first :
    (slot s : ℕ) (xs : List ℕ)
    → count slot (remove_first s xs) ≡ count slot xs - (if s == slot then 1 else 0)
unfolding count remove_first
count-remove_first slot s [] = ground arith
count-remove_first slot s (x ∷ xs) = ground (arith, count-remove_first slot s xs)

contains-count : (slot : ℕ) (xs : List ℕ) → contains slot xs ≡ ltb 0 (count slot xs)
unfolding count contains
contains-count slot [] = ground arith
contains-count slot (x ∷ xs) = ground (arith, contains-count slot xs)

pub new_slot_manager-IsIndexed : IsIndexed new_slot_manager
unfolding count
new_slot_manager-IsIndexed = record { listed = λ node slot h. ground (arith, eq_iff "" node) }

-- The lists `f` are right for the owners of `slots`, if the owner of `slot` were `owner`.
pub record Listing (f : String → List ℕ) (slots : ℕ → SlotInfo) (slot : ℕ) (owner : String)
    : Type 0 where
  pub count_of :
      (node : String) (s : ℕ)
      → node ≢ ""
      → count s (f node) ≡ (
          if s == slot
          then (if str_eq owner node then 1 else 0)
          else (if str_eq (slots s).node_id node then 1 else 0))

IsIndexed-Listing :
    (sm : SlotManager) (slot : ℕ)
    → IsIndexed sm
    → Listing sm.node_slots sm.slots slot (sm.slots slot).node_id
IsIndexed-Listing sm slot h = record {
  count_of = λ n s hn. ground (arith, h.listed n s hn, h.listed n slot hn);
}

pub Listing-IsIndexed :
    (sm : SlotManager) (f : String → List ℕ) (slot : ℕ) (info : SlotInfo)
    → Listing f sm.slots slot info.node_id
    → IsIndexed (record sm { slots = update sm.slots slot info; node_slots = f })
Listing-IsIndexed sm f slot info h = record { listed = λ n s hn. ground (arith, h.count_of n s hn) }

-- Taking the slot off the list of its owner leaves it without an owner.
Listing-remove :
    (f : String → List ℕ) (slots : ℕ → SlotInfo) (slot : ℕ) (owner : String)
    → Listing f slots slot owner
    → Listing (update_key f owner (remove_first slot (f owner))) slots slot ""
Listing-remove f slots slot owner h = record {
  count_of = λ n s hn.
      ground
        (arith, h.count_of n s hn, eq_iff owner n, eq_iff "" n, count-remove_first s slot (f n));
}

pub Listing-add :
    (f : String → List ℕ) (slots : ℕ → SlotInfo) (slot : ℕ) (node : String)
    → Listing f slots slot ""
    → Listing (update_key f node (f node ++ slot ∷ [])) slots slot node
Listing-add f slots slot node h = record {
  count_of = λ n s hn.
      ground (arith, h.count_of n s hn, eq_iff node n, eq_iff "" n, count-snoc s slot (f n));
}

-- The slot of a node is found on its list, and is not found if it has no owner.
contains_owner :
    (f : String → List ℕ) (slots : ℕ → SlotInfo) (slot : ℕ) (owner node : String)
    → node ≢ ""
    → Listing f slots slot owner
    → contains slot (f node) ≡ str_eq owner node
contains_owner f slots slot owner node hn h =
    ground (arith, contains-count slot (f node), h.count_of node slot hn)

pub unowned-Listing :
    (sm : SlotManager) (slot : ℕ)
    → (sm.slots slot).node_id ≡ ""
    → IsIndexed sm
    → Listing sm.node_slots sm.slots slot ""
unowned-Listing sm slot e h =
    subst (λ o. Listing sm.node_slots sm.slots slot o) e (IsIndexed-Listing sm slot h)

-- The end of `assign_checked`, once the slot is off the list of its owner.
abbrev assign_end : ℕ → String → SlotManager → SlotManager
assign_end slot node sm =
    let sm₂ = put_slot sm slot (record (sm.slots slot) {
      node_id = node;
      primary_id = node;
      replicas = [];
      state = normal;
    }) in
    mark_dirty (add_slot_to_node sm₂ node slot)

assign_end-IsIndexed :
    (slot : ℕ) (node : String) (sm : SlotManager)
    → Listing sm.node_slots sm.slots slot ""
    → IsIndexed (assign_end slot node sm)
unfolding mark_dirty add_slot_to_node put_slot
assign_end-IsIndexed slot node sm k = record {
  listed =
      (Listing-IsIndexed sm _ slot
        (record (sm.slots slot) {
          node_id = node;
          primary_id = node;
          replicas = [];
          state = normal;
        })
        (Listing-add sm.node_slots sm.slots slot node k)).listed;
}

pub assign_checked-IsIndexed :
    (sm : SlotManager) (slot : ℕ) (node : String)
    → IsIndexed sm
    → IsIndexed (assign_checked sm slot node)
unfolding assign_checked
assign_checked-IsIndexed sm slot node h =
    let owner = (sm.slots slot).node_id in
    if_keeps_on (λ sm₁. IsIndexed (assign_end slot node sm₁)) (str_eq owner "")
      (λ e. assign_end-IsIndexed slot node sm (unowned-Listing sm slot ((eq_iff owner "").0 e) h))
      (λ e.
        assign_end-IsIndexed slot node (remove_slot_from_node sm owner slot)
          (Listing-remove sm.node_slots sm.slots slot owner (IsIndexed-Listing sm slot h)))

-- The end of `set_owner`, once the slot is off the list of an owner other than the new one.
abbrev set_owner_end : ℕ → String → SlotManager → SlotManager
set_owner_end slot node sm =
    let sm₂ = put_slot sm slot (record (sm.slots slot) { node_id = node }) in
    if str_eq node "" || contains slot (sm₂.node_slots node)
    then sm₂
    else add_slot_to_node sm₂ node slot

with_owner :
    (slot : ℕ) (node : String) (sm : SlotManager) (f : String → List ℕ)
    → Listing f sm.slots slot node
    → IsIndexed
        (record (put_slot sm slot (record (sm.slots slot) { node_id = node })) { node_slots = f })
unfolding put_slot
with_owner slot node sm f k =
    Listing-IsIndexed sm f slot (record (sm.slots slot) { node_id = node }) k

-- The slot is on no list.
set_owner_end_unowned :
    (slot : ℕ) (node : String) (sm : SlotManager)
    → Listing sm.node_slots sm.slots slot ""
    → IsIndexed (set_owner_end slot node sm)
unfolding add_slot_to_node put_slot
set_owner_end_unowned slot node sm k =
    if_keeps_on (λ r. IsIndexed r) (str_eq node "" || contains slot (sm.node_slots node))
      (λ e. with_owner slot node sm sm.node_slots (
        subst (λ o. Listing sm.node_slots sm.slots slot o)
          (sym (
            ground (
              arith,
              e,
              eq_iff node "",
              eq_iff "" node,
              contains_owner sm.node_slots sm.slots slot "" node,
              k,
            )))
          k))
      (λ e. with_owner slot node sm _ (Listing-add sm.node_slots sm.slots slot node k))

-- The slot is on the list of the new owner.
set_owner_end_owned :
    (slot : ℕ) (node : String) (sm : SlotManager)
    → Listing sm.node_slots sm.slots slot node
    → IsIndexed (set_owner_end slot node sm)
unfolding put_slot
set_owner_end_owned slot node sm k =
    subst (λ r. IsIndexed r)
      (sym (
        ap
          (λ (b : Bool).
            if b
            then put_slot sm slot (record (sm.slots slot) { node_id = node })
            else add_slot_to_node (put_slot sm slot (record (sm.slots slot) { node_id = node }))
                node slot)
          (kept k)))
      (with_owner slot node sm sm.node_slots k)
  where
    kept :
        Listing sm.node_slots sm.slots slot node
        → (str_eq node "" || contains slot (sm.node_slots node)) ≡ true
    kept k = ground (
      arith,
      eq_iff node "",
      eq_iff node node,
      contains_owner sm.node_slots sm.slots slot node node,
      k,
    )

pub set_owner-IsIndexed :
    (sm : SlotManager) (slot : ℕ) (node : String)
    → IsIndexed sm
    → IsIndexed (set_owner sm slot node)
unfolding set_owner
set_owner-IsIndexed sm slot node h =
    let owner = (sm.slots slot).node_id in
    if_keeps_on (λ sm₁. IsIndexed (set_owner_end slot node sm₁))
      (not (str_eq owner "") && not (str_eq owner node))
      (λ e.
        set_owner_end_unowned slot node (remove_slot_from_node sm owner slot)
          (Listing-remove sm.node_slots sm.slots slot owner (IsIndexed-Listing sm slot h)))
      (λ e. elim (Bool-cases (str_eq owner "")) [
        | inl o ↦
            set_owner_end_unowned slot node sm (unowned-Listing sm slot ((eq_iff owner "").0 o) h)
        | inr o ↦ set_owner_end_owned slot node sm (
            subst (λ w. Listing sm.node_slots sm.slots slot w)
              (ground (arith, e, o, eq_iff owner node)) (IsIndexed-Listing sm slot h))
      ])
