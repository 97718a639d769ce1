-- ===== src/Cluster/Replication/Acks.antt =====
-- internal/cluster/replication/log.go, `AckTracker`: how far each replica has acknowledged the
-- operations of each slot.
use autocache.Prelude.{
  ℕ, ◌≡◌, String, Bool, false, ◌&&◌, Option, none, some, arith, str_eq, eq_iff, leb, ◌==◌,
  if◌then◌else◌, update, update_key, ap,
}

-- `ReplicaAck`
pub record ReplicaAck : Type 0 where
  pub slot : ℕ
  pub epoch : ℕ
  pub node_id : String
  pub applied_lsn : ℕ

-- `AckTracker`: the acknowledgement of a node for a slot, if there is one. A slot with no map reads
-- as one with an empty map.
abbrev pub AckTracker : Type 0
AckTracker = ℕ → String → Option ReplicaAck

abbrev pub new_ack_tracker : AckTracker
new_ack_tracker slot node = none

unfoldable pub applied_of : Option ReplicaAck → ℕ
applied_of none = 0
applied_of (some ack) = ack.applied_lsn

-- Whether an acknowledgement is dropped: the node has one for an operation at least as late.
covers : Option ReplicaAck → ReplicaAck → Bool
covers none ack = false
covers (some current) ack = leb ack.applied_lsn current.applied_lsn

-- `Track`
unfoldable pub track : ReplicaAck → AckTracker → AckTracker
unfolding covers
track ack t =
    if covers (t ack.slot ack.node_id) ack
    then t
    else update t ack.slot (update_key (t ack.slot) ack.node_id (some ack))

-- `Get`, and `ReplicaProgress` (ack.go)
unfoldable pub get : ℕ → String → AckTracker → ℕ
unfolding applied_of
get slot node t = applied_of (t slot node)

abbrev max_of : ℕ → ℕ → ℕ
max_of a b = if leb a b then b else a

-- Tracking an acknowledgement raises the number of its node for its slot to the acknowledged one,
-- never lowers it, and changes no other number.
pub get-track :
    (slot : ℕ) (node : String) (ack : ReplicaAck) (t : AckTracker)
    → get slot node (track ack t) ≡ (
        if ack.slot == slot && str_eq ack.node_id node
        then max_of (get slot node t) ack.applied_lsn
        else get slot node t)
unfolding get track
get-track slot node ack t = ground (
  arith,
  eq_iff ack.node_id node,
  ap (λ (j : ℕ). t j ack.node_id) {x = ack.slot} {y = slot},
  ap (λ (n : String). t slot n) {x = ack.node_id} {y = node},
)
