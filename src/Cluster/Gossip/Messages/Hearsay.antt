-- ===== src/Cluster/Gossip/Messages/Hearsay.antt =====
-- internal/cluster/gossip/gossip.go: what second-hand news of a node can change.
use autocache.Prelude.{
  ℕ, String, ◌≡◌, refl, ◌∙◌, inl, inr, false, ◌&&◌, none, some, List, [], ◌∷◌, arith, str_eq,
  eq_iff, ltb, Bool-cases, Option-cases, if_keeps, length, lookup, insert, lookup-insert,
}
use autocache.Cluster.Gossip.Nodes.{
  NodeRole, NodeState, GossipNode, Gossip, change, add_fail_report, get_node, new_node,
}
use autocache.Cluster.Gossip.Nodes.Known.{lookup-change_in}
use autocache.Cluster.Gossip.Messages.{
  NodeInfo, discover, heard_of, report, is_fail_report, register, process_slots, process_node_info,
  process_gossip, holds_master,
}

-- The node is known, with the role, the master and the state.
pub record IsHeld (id : String) (role : NodeRole) (owner : String) (state : NodeState) (g : Gossip)
    : Type 0 where
  pub node : GossipNode
  pub known : get_node id g ≡ some node
  pub role_of : node.role ≡ role
  pub master_of : node.master_id ≡ owner
  pub state_of : node.state ≡ state

module _ (id : String) (role : NodeRole) (owner : String) (state : NodeState) where
  abbrev pub Held : Gossip → Type 0
  Held = IsHeld id role owner state

  pub discover-IsHeld : (info : NodeInfo) (g : Gossip) → Held g → Held (discover info g)
  unfolding discover get_node
  discover-IsHeld info g h = elim (Option-cases (get_node info.id g)) [
    | inl e ↦
        rw (discover, e)
          (record {
            node = h.node;
            known = still e;
            role_of = h.role_of;
            master_of = h.master_of;
            state_of = h.state_of;
          })
    | inr (n, e) ↦ rw (discover, e) h
  ]
    where
      still :
          lookup info.id g.nodes ≡ none
          → lookup id
              (insert info.id (new_node info.id info.ip info.port info.cluster_port) g.nodes)
            ≡ some h.node
      still e = ground (
        arith,
        lookup-insert info.id id (new_node info.id info.ip info.port info.cluster_port) g.nodes,
        eq_iff info.id id,
        e,
        h.known,
      )

  pub change-IsHeld :
      (k : String) (f : GossipNode → GossipNode) (g : Gossip)
      → ((n : GossipNode)
          → ((f n).role ≡ n.role) × ((f n).master_id ≡ n.master_id) × ((f n).state ≡ n.state))
      → Held g
      → Held (change k f g)
  unfolding change get_node
  change-IsHeld k f g keeps h =
      let (r, m, s) = keeps h.node in
      elim (Bool-cases (str_eq k id)) [
        | inl e ↦ record {
          node = f h.node;
          known = lookup-change_in k id f g.nodes ∙ rw (e, h.known) refl;
          role_of = r ∙ h.role_of;
          master_of = m ∙ h.master_of;
          state_of = s ∙ h.state_of;
        }
        | inr e ↦ record {
          node = h.node;
          known = lookup-change_in k id f g.nodes ∙ rw e h.known;
          role_of = h.role_of;
          master_of = h.master_of;
          state_of = h.state_of;
        }
      ]

  pub heard-keeps :
      (now : ℕ) (info : NodeInfo) (n : GossipNode)
      → let n' = report now info (heard_of info false n) in
        (n'.role ≡ n.role) × (n'.master_id ≡ n.master_id) × (n'.state ≡ n.state)
  unfolding heard_of report add_fail_report
  heard-keeps now info n =
      if_keeps
        (λ (n' : GossipNode).
          (n'.role ≡ n.role) × (n'.master_id ≡ n.master_id) × (n'.state ≡ n.state))
        (is_fail_report info) (refl, refl, refl) (refl, refl, refl)

  process_slots-IsHeld : (info : NodeInfo) (g : Gossip) → Held g → Held (process_slots info g)
  unfolding process_slots get_node
  process_slots-IsHeld info g h =
      if_keeps Held (ltb 0 (length info.slots) && holds_master info.id g)
        (record {
          node = h.node;
          known = h.known;
          role_of = h.role_of;
          master_of = h.master_of;
          state_of = h.state_of;
        })
        h

  process_node_info-IsHeld :
      (now : ℕ) (info : NodeInfo) (g : Gossip) → Held g → Held (process_node_info now info false g)
  unfolding process_node_info register
  process_node_info-IsHeld now info g h = process_slots-IsHeld info _ (
      change-IsHeld info.id (λ n. report now info (heard_of info false n)) (discover info g)
        (heard-keeps now info) (discover-IsHeld info g h))

-- What a sender tells of others changes neither the role nor the master nor the state of a node that
-- is known.
pub process_gossip-IsHeld :
    (id : String) (role : NodeRole) (owner : String) (state : NodeState) (now : ℕ) (sender : String)
    (infos : List NodeInfo) (g : Gossip)
    → IsHeld id role owner state g
    → IsHeld id role owner state (process_gossip now sender infos g)
unfolding process_gossip
process_gossip-IsHeld id role owner state now sender [] g h = h
process_gossip-IsHeld id role owner state now sender (info ∷ infos) g h =
    process_gossip-IsHeld id role owner state now sender infos _
      (process_node_info-IsHeld id role owner state now (record info { reporter_id = sender }) g h)
