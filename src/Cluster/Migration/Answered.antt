-- ===== src/Cluster/Migration/Answered.antt =====
-- internal/cluster/migrate/worker.go and the draining of internal/cluster/cluster.go: what becomes of a
-- key that moves, whatever the other node does with the RESTOREs that it answers.
use autocache.Prelude.{ℕ, ◌<◌, String, ◌≡◌, none, some, List}
use autocache.Cluster.Hash.{slot_count}
use autocache.Cluster.Takeover.{ClusterNode}
use autocache.Cluster.Migration.{Entry, Engine, IsEngine, Target, answering, answering-IsPeer}
use autocache.Cluster.Migration.Worker
use autocache.Cluster.Migration.Worker.{World}
use autocache.Cluster.Migration.Completed.{IsListed}
use autocache.Cluster.Migration.Drain
use autocache.Cluster.Migration.Drain.{Around}
use autocache.Cluster.Migration.Drained.{Concluded, migrate_slot-Concluded}

module _ (E : Engine) (T : Target) (j : String) (e : Entry (E.Value)) (v : List ℕ) where
  -- The drain's `MigrateSlot` gives a slot to its target only after a look that found no key of the
  -- slot; a key of the slot without a deadline that the clients leave alone was then answered for by
  -- the target, whose last OK to a RESTORE of it had its value. In every other case the slot keeps its
  -- owner, and the key is still here with its value or was answered for so. What clients write between
  -- that look and the hand-over stays on this node.
  pub migrate_slot-hands_over :
      (slot : ℕ) (target : String) (a : Around E) (c : ClusterNode) (w : World E (answering T))
      → IsEngine E
      → slot < slot_count
      → ((s : E.State) → E.get_entry j s ≡ some e → IsListed j (E.keys_in_slot slot 0 s))
      → ((i : ℕ) (s : E.State) → E.get_entry j (a.clients i s) ≡ E.get_entry j s)
      → ((s : E.State) → E.get_entry j (a.at_last s) ≡ E.get_entry j s)
      → E.get_entry j w.0 ≡ some e
      → E.serialize e ≡ some v
      → e.expire_at ≡ none
      → Concluded E
          (answering T)
          a.at_last
          j
          e
          v
          slot
          target
          c
          (Drain.migrate_slot E (answering T) a slot target (c, w))
  migrate_slot-hands_over slot target a c w EL lt listed leaves spares h f d =
      migrate_slot-Concluded E (answering T) j e v slot target a c w EL (answering-IsPeer T) lt
        listed leaves spares h f d
