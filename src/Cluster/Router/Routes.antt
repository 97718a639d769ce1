-- ===== src/Cluster/Router/Routes.antt =====
-- internal/cluster/router/router.go: who serves a key, and where a client is sent.
use autocache.Prelude.{
  ℕ, ◌<◌, ◌≡◌, ◌≢◌, ◌⊎◌, inl, inr, refl, sym, subst, String, Bool, true, false, not, ◌&&◌, Option,
  none, some, List, [], ◌∷◌, str_eq, eq_iff, if_keeps_on, arith, All,
}
use autocache.Cluster.Hash.{key_slot, slot_count}
use autocache.Cluster.Slots.{SlotInfo, SlotManager, get_slot_info, get_slot_node}
use autocache.Cluster.Router.{
  Node, addr, Cluster, moved, ask, RouteResult, local_at, redirected, find_node, get_node_addr,
  owner_node, is_exporting, is_importing, route_slot, route_known, route, crosses, route_multi,
}

pub key_slot-lt : (key : List ℕ) → key_slot key < slot_count
unfolding key_slot
key_slot-lt key = omega arith

pub get_slot_info-key_slot :
    (key : List ℕ) (sm : SlotManager)
    → get_slot_info (key_slot key) sm ≡ some (sm.slots (key_slot key))
unfolding get_slot_info
get_slot_info-key_slot key sm = ground (arith, key_slot-lt key)

pub route-key :
    (c : Cluster) (key : List ℕ) (asking : Bool)
    → route (some c) key asking ≡ route_slot c (key_slot key) asking (c.slots.slots (key_slot key))
unfolding route route_known
route-key c key asking = ground (arith, get_slot_info-key_slot key c.slots)

find_node_id : (id : String) (ns : List Node) (n : Node) → find_node id ns ≡ some n → n.id ≡ id
unfolding find_node
find_node_id id [] n e = ground arith
find_node_id id (m ∷ ns) n e = ground (arith, find_node_id id ns n, eq_iff m.id id, e)

pub owner_node-key_slot :
    (c : Cluster) (key : List ℕ)
    → (c.slots.slots (key_slot key)).node_id ≢ ""
    → owner_node (key_slot key) c ≡ find_node (c.slots.slots (key_slot key)).node_id c.nodes
unfolding owner_node get_slot_node
owner_node-key_slot c key ne =
    ground (arith, key_slot-lt key, eq_iff (c.slots.slots (key_slot key)).node_id "")

-- Why a node serves a slot itself, or sends the client elsewhere.
abbrev pub Reason : Cluster → SlotInfo → Bool → RouteResult → Type 0
Reason c info asking r = elim r.redirect [
  | none ↦
      (r.is_local ≡ true)
      × ((info.node_id ≡ c.self_id)
          ⊎ (info.node_id ≡ "")
          ⊎ (find_node info.node_id c.nodes ≡ none)
          ⊎ ((is_importing info.state ≡ true) × (asking ≡ true)))
  | some d ↦ (r.is_local ≡ false) × (d.slot ≡ r.slot) × elim d.kind [
    | moved ↦
        (info.node_id ≢ c.self_id)
        × ((n : Node) × (find_node info.node_id c.nodes ≡ some n)
            × (n.id ≡ info.node_id)
            × (d.addr ≡ some (addr n)))
    | ask ↦
        (info.node_id ≡ c.self_id)
        × (is_exporting info.state ≡ true)
        × (d.addr ≡ get_node_addr info.exporting c)
  ]
]

abbrev pub Explained : Cluster → ℕ → SlotInfo → Bool → RouteResult → Type 0
Explained c slot info asking r = (r.slot ≡ slot) × (r.cross_slot ≡ false) × Reason c info asking r

-- A slot that another node owns, by what gossip knows of the owner.
foreign-Explained :
    (c : Cluster) (slot : ℕ) (info : SlotInfo) (asking : Bool) (o : Option Node)
    → find_node info.node_id c.nodes ≡ o
    → info.node_id ≢ c.self_id
    → Explained c slot info asking
        (elim o [ none ↦ local_at slot | some n ↦ redirected moved slot (some (addr n)) ])
foreign-Explained c slot info asking none e ne = (refl, refl, (refl, inr (inr (inl e))))
foreign-Explained c slot info asking (some n) e ne =
    (refl, refl, (refl, refl, (ne, (n, e, find_node_id info.node_id c.nodes n e, refl))))

and_last : (a b c : Bool) → (a && b && c) ≡ true → (a ≡ true) × (c ≡ true)
and_last a b c h = ground (arith, h)

route_slot-Explained :
    (c : Cluster) (slot : ℕ) (asking : Bool) (info : SlotInfo)
    → (info.node_id ≢ "" → owner_node slot c ≡ find_node info.node_id c.nodes)
    → Explained c slot info asking (route_slot c slot asking info)
unfolding route_slot
route_slot-Explained c slot asking info owner =
    if_keeps_on (Explained c slot info asking) (str_eq info.node_id "")
      (λ e. (refl, refl, (refl, inr (inl ((eq_iff info.node_id "").0 e)))))
      (λ e.
        if_keeps_on (Explained c slot info asking) (str_eq info.node_id c.self_id)
          (λ own.
            if_keeps_on (Explained c slot info asking)
              (is_exporting info.state && not (str_eq info.exporting ""))
              (λ x. (
                refl,
                refl,
                (refl, refl, ((eq_iff info.node_id c.self_id).0 own, ground (arith, x), refl)),
              ))
              (λ x. (refl, refl, (refl, inl ((eq_iff info.node_id c.self_id).0 own)))))
          (λ other.
            if_keeps_on (Explained c slot info asking)
              (is_importing info.state && not (str_eq info.importing "") && asking)
              (λ x. (refl, refl, (refl, inr (inr (inr (and_last _ _ asking x))))))
              (λ x.
                foreign-Explained c slot info asking (owner_node slot c)
                  (sym (owner (ground (arith, e, eq_iff info.node_id ""))))
                  (ground (arith, other, eq_iff info.node_id c.self_id)))))

-- The result is for the slot of the key. A node that serves a key itself owns its slot, or the slot has no owner or one that is not known,
-- or the client asks for a slot that is being imported. A node sends a client on with MOVED only for
-- a slot of another node, to the address of its owner; and with ASK only for a slot of its own that
-- it is exporting, to the node that it is exported to.
pub route_lem :
    (c : Cluster) (key : List ℕ) (asking : Bool)
    → Explained c (key_slot key) (c.slots.slots (key_slot key)) asking (route (some c) key asking)
route_lem c key asking =
    subst (Explained c (key_slot key) (c.slots.slots (key_slot key)) asking)
      (sym (route-key c key asking))
      (route_slot-Explained c (key_slot key) asking (c.slots.slots (key_slot key))
        (owner_node-key_slot c key))

crosses_sound :
    (first : ℕ) (ks : List (List ℕ)) → crosses first ks ≡ false → All (λ k. key_slot k ≡ first) ks
unfolding crosses
crosses_sound first [] e = tt
crosses_sound first (k ∷ ks) e = (ground (arith, e), crosses_sound first ks (ground (arith, e)))

crosses_complete :
    (first : ℕ) (ks : List (List ℕ)) → All (λ k. key_slot k ≡ first) ks → crosses first ks ≡ false
unfolding crosses
crosses_complete first [] h = refl
crosses_complete first (k ∷ ks) h = ground (arith, h.0, crosses_complete first ks h.1)

-- A command on several keys is routed as its first key is, when all keys are in one slot; when some
-- key is in another slot than the first, the result is neither local nor a redirect, but CROSSSLOT.
pub route_multi_lem :
    (c : Cluster) (k : List ℕ) (ks : List (List ℕ))
    → let r = route_multi (some c) (k ∷ ks) in
      (All (λ j. key_slot j ≡ key_slot k) ks × (r ≡ route (some c) k false))
      ⊎ ((¬ All (λ j. key_slot j ≡ key_slot k) ks)
          × (r.cross_slot ≡ true)
          × (r.is_local ≡ false)
          × (r.redirect ≡ none))
unfolding route_multi
route_multi_lem c k ks =
    if_keeps_on
      (λ r.
        (All (λ j. key_slot j ≡ key_slot k) ks × (r ≡ route (some c) k false))
        ⊎ ((¬ All (λ j. key_slot j ≡ key_slot k) ks)
            × (r.cross_slot ≡ true)
            × (r.is_local ≡ false)
            × (r.redirect ≡ none)))
      (crosses (key_slot k) ks)
      (λ e. inr ((λ h. ground (arith, e, crosses_complete (key_slot k) ks h)), refl, refl, refl))
      (λ e. inl (crosses_sound (key_slot k) ks e, refl))
