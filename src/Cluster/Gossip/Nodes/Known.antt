-- ===== src/Cluster/Gossip/Nodes/Known.antt =====
-- internal/cluster/gossip/gossip.go: a change of one node leaves the others as they are.
use autocache.Prelude.{
  ◌≤◌, String, ◌≡◌, refl, Bool, true, ◌&&◌, Option, none, some, List, [], ◌∷◌, arith, str_eq,
  eq_iff, if◌then◌else◌, lookup,
}
use autocache.Cluster.Gossip.Nodes.{GossipNode, change_in, count_masters, is_master, is_connected}

abbrev pub applied : (GossipNode → GossipNode) → Option GossipNode → Option GossipNode
applied f none = none
applied f (some n) = some (f n)

pub lookup-change_in :
    (id j : String) (f : GossipNode → GossipNode) (ns : List (String × GossipNode))
    → lookup j (change_in id f ns) ≡ (if str_eq id j then applied f (lookup j ns) else lookup j ns)
unfolding change_in
lookup-change_in id j f [] = ground arith
lookup-change_in id j f ((k, n) ∷ ns) =
    ground (arith, eq_iff id j, eq_iff k id, eq_iff k j, lookup-change_in id j f ns)

pub change_in-change_in :
    (id : String) (f h : GossipNode → GossipNode) (ns : List (String × GossipNode))
    → change_in id h (change_in id f ns) ≡ change_in id (λ n. h (f n)) ns
unfolding change_in
change_in-change_in id f h [] = refl
change_in-change_in id f h ((k, n) ∷ ns) = ground (arith, change_in-change_in id f h ns)

abbrev pub counts : GossipNode → Bool
counts n = is_master n.role && is_connected n.state

-- A change that makes no node a connected master makes no more of them.
pub count_masters-change_in :
    (id : String) (f : GossipNode → GossipNode) (ns : List (String × GossipNode))
    → ((n : GossipNode) → counts (f n) ≡ true → counts n ≡ true)
    → count_masters (change_in id f ns) ≤ count_masters ns
unfolding change_in count_masters
count_masters-change_in id f [] h = omega arith
count_masters-change_in id f ((k, n) ∷ ns) h =
    ground (arith, h n, count_masters-change_in id f ns h)
