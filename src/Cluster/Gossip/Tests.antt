-- ===== src/Cluster/Gossip/Tests.antt =====
-- internal/cluster/gossip/gossip.go on claims of one slot.
use autocache.Prelude.{ℕ, ◌≡◌, ◌++◌, refl, String, List, [], ◌∷◌, arith}
use autocache.Cluster.Slots.{new_slot_manager, get_slot_node, get_slot_config_epoch}
use autocache.Cluster.Gossip.{SlotClaims, seen_epoch}
use autocache.Cluster.Gossip.Claims.{claims, Holds, claims_lem}

abbrev quiet : SlotClaims
quiet = record { slot_epochs = λ slot. 0; slots = new_slot_manager }

abbrev earlier : List (String × ℕ)
earlier = ("a", 1) ∷ ("b", 3) ∷ ("a", 2) ∷ []

abbrev later : List (String × ℕ)
later = ("d", 5) ∷ ("a", 4) ∷ []

none_seen : seen_epoch 7 quiet ≡ 0
unfolding seen_epoch get_slot_config_epoch
none_seen = refl

claims_lem_example : Holds 7 "c" 5 (claims 7 (earlier ++ ("c", 5) ∷ later) quiet)
claims_lem_example =
    claims_lem 7 "c" 5 earlier later quiet (omega arith) (omega (arith, none_seen))
      (omega arith, (omega arith, (omega arith, tt))) (omega arith, (omega arith, tt))

-- At one epoch the first claim wins, so two nodes that hear them in different orders disagree.
first_wins :
    (get_slot_node 7 (claims 7 (("a", 1) ∷ ("b", 1) ∷ []) quiet).slots ≡ "a")
    × (get_slot_node 7 (claims 7 (("b", 1) ∷ ("a", 1) ∷ []) quiet).slots ≡ "b")
first_wins = (
  (claims_lem 7 "a" 1 [] (("b", 1) ∷ []) quiet (omega arith) (omega (arith, none_seen)) tt
      (omega arith, tt)).owner,
  (claims_lem 7 "b" 1 [] (("a", 1) ∷ []) quiet (omega arith) (omega (arith, none_seen)) tt
      (omega arith, tt)).owner,
)
