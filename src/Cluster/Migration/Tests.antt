-- ===== src/Cluster/Migration/Tests.antt =====
-- internal/cluster/migrate, internal/cluster/migration and the draining of internal/cluster/cluster.go
-- on a dictionary of two keys and a node that stores what it is sent.
use autocache.Prelude.{
  ℕ, String, ◌≡◌, refl, ap, ◌∙◌, inl, Bool, true, false, not, ◌&&◌, Option, none, some, List, [],
  ◌∷◌, arith, str_eq, ◌==◌, if◌then◌else◌, update_key, is_some,
}
use autocache.Cluster.Slots.{new_slot_manager, assign_slot}
use autocache.Cluster.Gossip.Nodes.{master, new_node}
use autocache.Cluster.Takeover.{ClusterNode}
use autocache.Cluster.Migration.{
  Entry, Engine, IsEngine, Target, answering, Reply, ok, busy, answer_lost, answered, ttl_ms,
}
use autocache.Cluster.Migration.Worker
use autocache.Cluster.Migration.Worker.{Attempt, KeyRun, go_on, MigrationProgress, World}
use autocache.Cluster.Migration.Completed.{IsListed}
use autocache.Cluster.Migration.Answered.{migrate_slot-hands_over}
use autocache.Engine.Dict
use autocache.Engine.Dict.{Dict, find, set, set_entry, del_key, new_dict, new_entry}
use autocache.Engine.Dict.Refine.{
  IsDict, find-del_key, del_key-IsDict, set_entry-IsDict, new_dict-IsDict,
}
use autocache.Cluster.Migration.Drain
use autocache.Cluster.Migration.Drain.{Around}
use autocache.Cluster.Migration.Drained.{Concluded}

-- The engine is the dictionary of internal/engine/memory/dict.go, of one number per key.
abbrev Table : Type 0
Table = (d : Dict ℕ) × IsDict d

abbrev maphash : String → ℕ
maphash k = if str_eq k "foo" then 3 else 8

abbrev shown : Option (Dict.Entry ℕ) → Option (Entry ℕ)
shown none = none
shown (some e) =
    some
      (record { value = e.value; expire_at = if e.expire_at == 0 then none else some e.expire_at })

abbrev found_at : String → Table → Option (Entry ℕ)
found_at k (d, _) = shown (find maphash k d)

abbrev two_keys : ℕ → ℕ → Table → List String
two_keys slot count s =
    let bar = if is_some (found_at "bar" s) then "bar" ∷ [] else [] in
    if is_some (found_at "foo" s) then "foo" ∷ bar else bar

abbrev deleted : String → Table → Table
deleted k (d, h) = ((del_key maphash k d).1, del_key-IsDict maphash k d h)

abbrev dictionary : Engine
dictionary = record {
  Value = ℕ;
  State = Table;
  get_entry = found_at;
  del = deleted;
  keys_in_slot = two_keys;
  serialize = λ e. some (e.value ∷ []);
}

abbrev restore_at :
    Bool → String → ℕ → List ℕ → (String → Option (List ℕ)) → Reply × (String → Option (List ℕ))
restore_at replace k ttl v p =
    if not replace && is_some (p k) then (busy, p) else (ok, update_key p k (some v))

abbrev other_node : Target
other_node = record { State = String → Option (List ℕ); restore = restore_at }

dictionary-IsEngine : IsEngine dictionary
dictionary-IsEngine = record {
  get_entry-del = λ k j (d, h).
      ap shown (find-del_key maphash k j d h) ∙ dropped (str_eq k j) (find maphash j d);
}
  where
    dropped :
        (b : Bool) (o : Option (Dict.Entry ℕ))
        → shown (if b then none else o) ≡ (if b then none else shown o)
    dropped true o = refl
    dropped false o = refl

abbrev lasting : Entry ℕ
lasting = record { value = 5; expire_at = none }

abbrev start : World dictionary (answering other_node)
start = (
  (
    set_entry maphash "foo" (new_entry 50 5 0) (new_dict 16),
    set_entry-IsDict maphash "foo" (new_entry 50 5 0) (new_dict 16) (new_dict-IsDict 16),
  ),
  ([], λ k. none),
)

has_foo : found_at "foo" start.0 ≡ some lasting
unfolding set_entry
has_foo = refl

-- The first attempt loses its answer, the second comes through.
abbrev runs : ℕ → KeyRun
runs i = record {
  signal = go_on;
  attempts =
      λ n. record { cancel = false; now = 0; wire = if n == 0 then answer_lost else answered };
}

listed : (s : Table) → found_at "foo" s ≡ some lasting → IsListed "foo" (two_keys 7 0 s)
listed s e = rw e (inl refl)

-- Without REPLACE the lost answer makes the next attempt find the key there, so that it stays here.
busy_key_stays :
    (Worker.migrate_slot dictionary (answering other_node) 3 false runs 7 start).1.failed_keys ≡ 1
unfolding Worker.migrate_slot set_entry del_key
busy_key_stays = refl

-- With no attempt at all, every key counts as migrated, and stays.
no_attempts :
    ((Worker.migrate_slot dictionary (answering other_node) 0 true runs 7 start).0 ≡ none)
    × ((Worker.migrate_slot dictionary (answering other_node) 0 true runs 7 start).2.0 ≡ start.0)
unfolding Worker.migrate_slot set_entry del_key
no_attempts = (refl, refl)

-- Less than a millisecond is sent as 0, which stands for no deadline.
last_moment : (ttl_ms 5000000 5000001 ≡ some 0) × (ttl_ms 5000001 5000000 ≡ some 0)
unfolding ttl_ms
last_moment = (refl, refl)

abbrev exporter : ClusterNode
exporter = record {
  role = master;
  master_id = "";
  current_epoch = 1;
  my_epoch = 0;
  gossip = record {
    self_id = "a";
    nodes = ("a", new_node "a" "" 7000 17000) ∷ ("b", new_node "b" "" 7001 17001) ∷ [];
    claims = record { slot_epochs = λ slot. 0; slots = (assign_slot 7 "a" new_slot_manager).1 };
    current_epoch = 1;
    started = [];
  };
}

abbrev quiet : Around dictionary
quiet = record {
  ended = λ i. false;
  clients = λ i s. s;
  turns = λ i. record { now = 0; wire = answered };
  at_last = λ s. s;
}

migrate_slot-hands_over_example :
    Concluded dictionary
      (answering other_node)
      (λ s. s)
      "foo"
      lasting
      (5 ∷ [])
      7
      "b"
      exporter
      (Drain.migrate_slot dictionary (answering other_node) quiet 7 "b" (exporter, start))
migrate_slot-hands_over_example =
    migrate_slot-hands_over dictionary other_node "foo" lasting (5 ∷ []) 7 "b" quiet exporter start
      dictionary-IsEngine (omega arith) listed (λ i s. refl) (λ s. refl) has_foo refl refl
