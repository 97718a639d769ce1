-- ===== src/Cluster/Router/Tests.antt =====
-- internal/cluster/router/router.go on a cluster of two nodes.
use autocache.Prelude.{ℕ, ◌≡◌, refl, String, true, false, some, List, [], ◌∷◌, ne_of_str_eq}
use autocache.Cluster.Hash.{key_slot}
use autocache.Cluster.Slots.{get_slot_info, get_slot_node, SlotManager, new_slot_manager}
use autocache.Cluster.Slots.Migrate.{set_importing, set_exporting, finish_migration}
use autocache.Cluster.Router.{
  Node, Cluster, moved, ask, local_at, redirected, get_node_addr, route, route_multi,
  can_accept_write, is_local_key, route_key, moved_to,
}
use autocache.Cluster.Router.Routes.{Explained, route_lem}
use autocache.Cluster.Router.Handover.{
  Yields, with_slots, sent_to_owner, handover_lem, finished_lem,
}

abbrev node_a : Node
node_a = record { id = "a"; ip = "10.0.0.1"; port = 6379 }

abbrev node_b : Node
node_b = record { id = "b"; ip = "10.0.0.2"; port = 6380 }

-- Every slot belongs to `a`.
abbrev all_of_a : SlotManager
all_of_a = record new_slot_manager {
  slots = λ slot. record (new_slot_manager.slots slot) { node_id = "a"; primary_id = "a" };
}

abbrev cluster_of : String → Cluster
cluster_of id = record { self_id = id; slots = all_of_a; nodes = node_a ∷ node_b ∷ [] }

-- "user"
abbrev a_key : List ℕ
a_key = 117 ∷ 115 ∷ 101 ∷ 114 ∷ []

-- "{user}1"
abbrev tagged_key : List ℕ
tagged_key = 123 ∷ 117 ∷ 115 ∷ 101 ∷ 114 ∷ 125 ∷ 49 ∷ []

served_by_owner : route (some (cluster_of "a")) a_key false ≡ local_at (key_slot a_key)
unfolding route key_slot get_slot_info get_slot_node
served_by_owner = refl

sent_by_other :
    route (some (cluster_of "b")) a_key false
    ≡ redirected moved (key_slot a_key) (some ("10.0.0.1", 6379))
unfolding route key_slot get_slot_info get_slot_node
sent_by_other = refl

one_slot : route_multi (some (cluster_of "a")) (a_key ∷ tagged_key ∷ []) ≡ local_at (key_slot a_key)
unfolding route_multi key_slot get_slot_info get_slot_node
one_slot = refl

writes :
    (can_accept_write a_key (cluster_of "a") ≡ true)
    × (can_accept_write a_key (cluster_of "b") ≡ false)
unfolding can_accept_write key_slot get_slot_info get_slot_node
writes = (refl, refl)

keys :
    (is_local_key a_key (cluster_of "a") ≡ true)
    × (route_key a_key (cluster_of "b") ≡ moved_to (some node_a))
unfolding is_local_key route_key key_slot get_slot_info get_slot_node
keys = (refl, refl)

route_lem_example :
    Explained
      (cluster_of "b")
      (key_slot a_key)
      (all_of_a.slots (key_slot a_key))
      false
      (route (some (cluster_of "b")) a_key false)
route_lem_example = route_lem (cluster_of "b") a_key false

handover_lem_example :
    Yields
      (λ s.
        route (some (with_slots (cluster_of "a") s)) a_key false
        ≡ redirected ask (key_slot a_key) (get_node_addr "b" (cluster_of "a")))
      (set_exporting (key_slot a_key) "b" all_of_a)
    × Yields
        (λ s.
          (route (some (with_slots (cluster_of "b") s)) a_key true ≡ local_at (key_slot a_key))
          × (route (some (with_slots (cluster_of "b") s)) a_key false
              ≡ sent_to_owner (key_slot a_key) "a" (cluster_of "b")))
        (set_importing (key_slot a_key) "a" all_of_a)
handover_lem_example =
    handover_lem (cluster_of "a") (cluster_of "b") a_key false refl refl (ne_of_str_eq "a" "" refl)
      (ne_of_str_eq "b" "" refl) (ne_of_str_eq "a" "b" refl)

finished_lem_example :
    Yields
      (λ s. route (some (with_slots (cluster_of "b") s)) a_key false ≡ local_at (key_slot a_key))
      (finish_migration (key_slot a_key) "b" all_of_a)
    × Yields
        (λ s.
          route (some (with_slots (cluster_of "a") s)) a_key false
          ≡ sent_to_owner (key_slot a_key) "b" (cluster_of "a"))
        (finish_migration (key_slot a_key) "b" all_of_a)
finished_lem_example =
    finished_lem (cluster_of "a") (cluster_of "b") a_key false (ne_of_str_eq "b" "" refl)
      (ne_of_str_eq "a" "b" refl)
