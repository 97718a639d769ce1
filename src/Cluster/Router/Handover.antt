-- ===== src/Cluster/Router/Handover.antt =====
-- A key whose slot moves from one node to another, seen by a client of both: the marks of
-- internal/cluster/slots.go and the routing of internal/cluster/router/router.go.
use autocache.Prelude.{
  ℕ, ◌<◌, ◌≡◌, ◌≢◌, refl, sym, subst, String, Bool, true, false, Option, none, some, List, eq_iff,
  if◌then◌else◌, update, ap, arith, ltb, lt→ltb, ◌∙◌,
}
use autocache.Cluster.Hash.{key_slot, slot_count}
use autocache.Cluster.Slots.{normal, importing, exporting, SlotInfo, SlotManager, set_owner}
use autocache.Cluster.Slots.Promote.Effect.{slots-set_owner}
use autocache.Cluster.Slots.Migrate.{set_importing, set_exporting, finish_migration}
use autocache.Cluster.Router.{
  addr, Cluster, moved, ask, RouteResult, local_at, redirected, find_node, get_node_addr,
  owner_node, route_slot, route,
}
use autocache.Cluster.Router.Routes.{key_slot-lt, route-key, owner_node-key_slot}

-- The call returns, and its result has the property.
abbrev pub Yields : (SlotManager → Type 0) → Option SlotManager → Type 0
Yields P none = ⊥
Yields P (some sm) = P sm

within-Yields :
    (P : SlotManager → Type 0) (slot : ℕ) (sm : SlotManager)
    → slot < slot_count
    → P sm
    → Yields P (if ltb slot slot_count then some sm else none)
within-Yields P slot sm lt h =
    subst (λ b. Yields P (if b then some sm else none)) (sym (lt→ltb slot slot_count lt)) h

abbrev pub with_slots : Cluster → SlotManager → Cluster
with_slots c sm = record c { slots = sm }

-- A client is sent to the owner that gossip knows.
abbrev pub sent_to_owner : ℕ → String → Cluster → RouteResult
sent_to_owner slot owner c = elim (find_node owner c.nodes) [
  | none ↦ local_at slot
  | some n ↦ redirected moved slot (some (addr n))
]

route_exporting :
    (c : Cluster) (key : List ℕ) (asking : Bool) (info : SlotInfo)
    → info.node_id ≡ c.self_id
    → c.self_id ≢ ""
    → info.state ≡ exporting
    → info.exporting ≢ ""
    → route_slot c (key_slot key) asking info
      ≡ redirected ask (key_slot key) (get_node_addr info.exporting c)
unfolding route_slot
route_exporting c key asking info own ne st ex = ground (
  arith,
  own,
  ne,
  st,
  ex,
  eq_iff info.node_id "",
  eq_iff info.node_id c.self_id,
  eq_iff info.exporting "",
)

route_own :
    (c : Cluster) (key : List ℕ) (asking : Bool) (info : SlotInfo)
    → info.node_id ≡ c.self_id
    → info.state ≡ normal
    → route_slot c (key_slot key) asking info ≡ local_at (key_slot key)
unfolding route_slot
route_own c key asking info own st =
    ground (arith, own, st, eq_iff info.node_id "", eq_iff info.node_id c.self_id)

pub route_foreign :
    (c : Cluster) (key : List ℕ) (info : SlotInfo)
    → info.node_id ≢ c.self_id
    → info.node_id ≢ ""
    → owner_node (key_slot key) c ≡ find_node info.node_id c.nodes
    → route_slot c (key_slot key) false info ≡ sent_to_owner (key_slot key) info.node_id c
unfolding route_slot
route_foreign c key info other ne owner =
    ground (arith, other, ne, owner, eq_iff info.node_id "", eq_iff info.node_id c.self_id)

route_moved_away :
    (c : Cluster) (key : List ℕ) (asking : Bool) (info : SlotInfo)
    → info.node_id ≢ c.self_id
    → info.node_id ≢ ""
    → info.state ≡ normal
    → owner_node (key_slot key) c ≡ find_node info.node_id c.nodes
    → route_slot c (key_slot key) asking info ≡ sent_to_owner (key_slot key) info.node_id c
unfolding route_slot
route_moved_away c key asking info other ne st owner =
    ground (arith, other, ne, st, owner, eq_iff info.node_id "", eq_iff info.node_id c.self_id)

route_importing :
    (c : Cluster) (key : List ℕ) (info : SlotInfo)
    → info.node_id ≢ c.self_id
    → info.state ≡ importing
    → info.importing ≢ ""
    → route_slot c (key_slot key) true info ≡ local_at (key_slot key)
unfolding route_slot
route_importing c key info other st im = ground (
  arith,
  other,
  st,
  im,
  eq_iff info.node_id "",
  eq_iff info.node_id c.self_id,
  eq_iff info.importing "",
)

pub route_at :
    (c : Cluster) (key : List ℕ) (asking : Bool) (info : SlotInfo)
    → c.slots.slots (key_slot key) ≡ info
    → route (some c) key asking ≡ route_slot c (key_slot key) asking info
route_at c key asking info e = route-key c key asking ∙ ap (route_slot c (key_slot key) asking) e

update_own : (f : ℕ → SlotInfo) (slot : ℕ) (info : SlotInfo) → update f slot info slot ≡ info
update_own f slot info = ground arith

owner_at :
    (c : Cluster) (key : List ℕ) (info : SlotInfo)
    → c.slots.slots (key_slot key) ≡ info
    → info.node_id ≢ ""
    → owner_node (key_slot key) c ≡ find_node info.node_id c.nodes
owner_at c key info e ne =
    subst (λ (i : SlotInfo). owner_node (key_slot key) c ≡ find_node i.node_id c.nodes) e
      (owner_node-key_slot c key (λ u. ne (ap (λ (i : SlotInfo). i.node_id) (sym e) ∙ u)))

owner_set :
    (sm : SlotManager) (slot : ℕ) (node : String)
    → ((set_owner sm slot node).slots slot).node_id ≡ node
owner_set sm slot node = ground (arith, slots-set_owner sm slot node slot)

-- Two nodes with names, not the same, agree that the slot of a key is `a`'s. Once `a` has marked the
-- slot as exported to `b`, the router of `a` redirects with ASK to the address that `a` has for
-- `b`, with the flag and without it; once `b` has marked it as imported from `a`, the router
-- of `b` calls the key local when it is given the ASKING flag, and without the flag it sends the client
-- to `a`, if `b` knows it, and calls the key local if not.
pub handover_lem :
    (a b : Cluster) (key : List ℕ) (asking : Bool)
    → (a.slots.slots (key_slot key)).node_id ≡ a.self_id
    → (b.slots.slots (key_slot key)).node_id ≡ a.self_id
    → a.self_id ≢ ""
    → b.self_id ≢ ""
    → a.self_id ≢ b.self_id
    → Yields
        (λ s.
          route (some (with_slots a s)) key asking
          ≡ redirected ask (key_slot key) (get_node_addr b.self_id a))
        (set_exporting (key_slot key) b.self_id a.slots)
      × Yields
          (λ s.
            (route (some (with_slots b s)) key true ≡ local_at (key_slot key))
            × (route (some (with_slots b s)) key false ≡ sent_to_owner (key_slot key) a.self_id b))
          (set_importing (key_slot key) a.self_id b.slots)
unfolding set_exporting set_importing get_node_addr
handover_lem a b key asking ea eb na nb ne = (
  within-Yields _ slot _ (key_slot-lt key) (
      route_at _ key asking out (update_own a.slots.slots slot out)
      ∙ route_exporting _ key asking out ea na refl nb),
  within-Yields _ slot _ (key_slot-lt key) (
    route_at _ key true into (update_own b.slots.slots slot into)
        ∙ route_importing _ key into elsewhere refl na,
    route_at _ key false into (update_own b.slots.slots slot into)
        ∙ route_foreign _ key into elsewhere named
            (owner_at _ key into (update_own b.slots.slots slot into) named)
        ∙ ap (λ (o : String). sent_to_owner slot o b) eb,
  ),
)
  where
    slot : ℕ
    slot = key_slot key

    out : SlotInfo
    out = record (a.slots.slots slot) { state = exporting; exporting = b.self_id }

    into : SlotInfo
    into = record (b.slots.slots slot) { state = importing; importing = a.self_id }

    elsewhere : (b.slots.slots slot).node_id ≢ b.self_id
    elsewhere e = ne (sym eb ∙ e)

    named : (b.slots.slots slot).node_id ≢ ""
    named e = na (sym eb ∙ e)

-- Once the migration of the slot of a key to `b`, which has a name, has been finished on `b`, it
-- serves the key itself; once it has been finished on a node `a` of another name, that node sends
-- every client to `b`, asking or not, if it knows `b`, and serves the key itself if not.
pub finished_lem :
    (a b : Cluster) (key : List ℕ) (asking : Bool)
    → b.self_id ≢ ""
    → a.self_id ≢ b.self_id
    → Yields
        (λ s. route (some (with_slots b s)) key asking ≡ local_at (key_slot key))
        (finish_migration (key_slot key) b.self_id b.slots)
      × Yields
          (λ s. route (some (with_slots a s)) key asking ≡ sent_to_owner (key_slot key) b.self_id a)
          (finish_migration (key_slot key) b.self_id a.slots)
unfolding finish_migration
finished_lem a b key asking nb ne = (
  within-Yields _ slot _ (key_slot-lt key) (
      route_at _ key asking (info b)
        (update_own (set_owner b.slots slot b.self_id).slots slot (info b))
      ∙ route_own _ key asking (info b) (owner_set b.slots slot b.self_id) refl),
  within-Yields _ slot _ (key_slot-lt key) (
      route_at _ key asking (info a)
        (update_own (set_owner a.slots slot b.self_id).slots slot (info a))
      ∙ route_moved_away _ key asking (info a) elsewhere named refl (
          owner_at _ key (info a)
            (update_own (set_owner a.slots slot b.self_id).slots slot (info a)) named)
      ∙ ap (λ (o : String). sent_to_owner slot o a) (owner_set a.slots slot b.self_id)),
)
  where
    slot : ℕ
    slot = key_slot key

    info : Cluster → SlotInfo
    info c = record ((set_owner c.slots slot b.self_id).slots slot) {
      state = normal;
      primary_id = b.self_id;
      importing = "";
      exporting = "";
    }

    elsewhere : ((set_owner a.slots slot b.self_id).slots slot).node_id ≢ a.self_id
    elsewhere e = ne (sym e ∙ owner_set a.slots slot b.self_id)

    named : ((set_owner a.slots slot b.self_id).slots slot).node_id ≢ ""
    named e = nb (sym (owner_set a.slots slot b.self_id) ∙ e)
