-- ===== src/Cluster/Router.antt =====
-- internal/cluster/router/router.go, and the routing methods of internal/cluster/cluster.go: where a
-- command on a key is handled. `nodes` lists the nodes of gossip's map in the order that it is
-- walked; each stands in the map under its own identifier.
pub mod Routes
pub mod Handover
mod Tests
use autocache.Prelude.{
  ℕ, String, Bool, true, false, not, ◌&&◌, ◌||◌, Option, none, some, List, [], ◌∷◌, str_eq, ◌==◌,
  if◌then◌else◌,
}
use autocache.Cluster.Hash.{key_slot}
use autocache.Cluster.Slots.{
  SlotState, normal, importing, exporting, SlotInfo, SlotManager, get_slot_info, get_slot_node,
}
use autocache.Cluster.Slots.Promote.{primary_of}

-- `Node`, of which routing uses these.
pub record Node : Type 0 where
  pub id : String
  pub ip : String
  pub port : ℕ

-- What `Addr` prints as `ip:port`.
abbrev pub Addr : Type 0
Addr = String × ℕ

abbrev pub addr : Node → Addr
addr n = (n.ip, n.port)

pub record Cluster : Type 0 where
  pub self_id : String
  pub slots : SlotManager
  pub nodes : List Node

pub data RedirectType : Type 0 where
  moved ask : RedirectType

-- `Redirect`, with `none` for the address "".
pub record Redirect : Type 0 where
  pub kind : RedirectType
  pub slot : ℕ
  pub addr : Option Addr

pub record RouteResult : Type 0 where
  pub is_local : Bool
  pub redirect : Option Redirect
  pub cross_slot : Bool
  pub slot : ℕ

abbrev pub local_at : ℕ → RouteResult
local_at slot = record { is_local = true; redirect = none; cross_slot = false; slot = slot }

abbrev pub redirected : RedirectType → ℕ → Option Addr → RouteResult
redirected kind slot a = record {
  is_local = false;
  redirect = some (record { kind = kind; slot = slot; addr = a });
  cross_slot = false;
  slot = slot;
}

-- `GetNode` of gossip, and the loop of `getNodeAddr`.
unfoldable pub find_node : String → List Node → Option Node
find_node id [] = none
find_node id (n ∷ ns) = if str_eq n.id id then some n else find_node id ns

-- `getNodeAddr`
unfoldable pub get_node_addr : String → Cluster → Option Addr
unfolding find_node
get_node_addr id c = elim (find_node id c.nodes) [ none ↦ none | some n ↦ some (addr n) ]

-- `GetSlotNode` of the cluster.
unfoldable pub owner_node : ℕ → Cluster → Option Node
unfolding find_node
owner_node slot c =
    let id = get_slot_node slot c.slots in if str_eq id "" then none else find_node id c.nodes

abbrev pub is_exporting : SlotState → Bool
is_exporting exporting = true
is_exporting _ = false

abbrev pub is_importing : SlotState → Bool
is_importing importing = true
is_importing _ = false

-- `Route` behind its look at the slot.
unfoldable pub route_slot : Cluster → ℕ → Bool → SlotInfo → RouteResult
unfolding get_node_addr owner_node
route_slot c slot asking info =
    if str_eq info.node_id ""
    then local_at slot
    else if str_eq info.node_id c.self_id
    then (if is_exporting info.state && not (str_eq info.exporting "")
        then redirected ask slot (get_node_addr info.exporting c)
        else local_at slot)
    else if is_importing info.state && not (str_eq info.importing "") && asking
    then local_at slot
    else elim (owner_node slot c) [
      | none ↦ local_at slot
      | some n ↦ redirected moved slot (some (addr n))
    ]

unfoldable pub route_known : Cluster → List ℕ → Bool → RouteResult
unfolding route_slot
route_known c key asking = elim (get_slot_info (key_slot key) c.slots) [
  | none ↦ local_at (key_slot key)
  | some info ↦ route_slot c (key_slot key) asking info
]

-- `Route`, of a router whose cluster may be nil.
unfoldable pub route : Option Cluster → List ℕ → Bool → RouteResult
unfolding route_known
route none key asking = local_at 0
route (some c) key asking = route_known c key asking

-- The loop of `RouteMulti`: whether a later key is in another slot than the first.
unfoldable pub crosses : ℕ → List (List ℕ) → Bool
crosses first [] = false
crosses first (k ∷ ks) = not (key_slot k == first) || crosses first ks

-- `RouteMulti`
unfoldable pub route_multi : Option Cluster → List (List ℕ) → RouteResult
unfolding crosses route
route_multi c [] = local_at 0
route_multi none (k ∷ ks) = local_at 0
route_multi (some c) (k ∷ ks) =
    if crosses (key_slot k) ks
    then record { is_local = false; redirect = none; cross_slot = true; slot = key_slot k }
    else route (some c) k false

-- `CanAcceptWriteForSlot`
unfoldable pub can_accept_write_for_slot : ℕ → Cluster → Bool
can_accept_write_for_slot slot c = elim (get_slot_info slot c.slots) [
  | none ↦ true
  | some info ↦ str_eq (primary_of info) "" || str_eq (primary_of info) c.self_id
]

-- `CanAcceptWrite`
unfoldable pub can_accept_write : List ℕ → Cluster → Bool
unfolding can_accept_write_for_slot
can_accept_write key c = can_accept_write_for_slot (key_slot key) c

-- `IsLocalKey`
unfoldable pub is_local_key : List ℕ → Cluster → Bool
is_local_key key c = str_eq (get_slot_node (key_slot key) c.slots) c.self_id

-- The node, if there is one, and the error of `RouteKey`.
pub data KeyRoute : Type 0 where
  unassigned here : KeyRoute
  ask_at : Node → KeyRoute
  moved_to : Option Node → KeyRoute

route_key_slot : Cluster → SlotInfo → KeyRoute
unfolding find_node
route_key_slot c info =
    if str_eq info.node_id ""
    then unassigned
    else if str_eq info.node_id c.self_id
    then (if is_exporting info.state
        then elim (find_node info.exporting c.nodes) [ none ↦ here | some n ↦ ask_at n ]
        else here)
    else moved_to (find_node info.node_id c.nodes)

-- `RouteKey`
unfoldable pub route_key : List ℕ → Cluster → KeyRoute
unfolding route_key_slot
route_key key c = elim (get_slot_info (key_slot key) c.slots) [
  | none ↦ unassigned
  | some info ↦ route_key_slot c info
]
