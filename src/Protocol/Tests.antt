-- ===== src/Protocol/Tests.antt =====
-- internal/protocol/handler.go on a handler whose commands count, and an engine that lists what is set.
use autocache.Prelude.{
  ℕ, ◌+◌, ◌≡◌, refl, ◌≢◌, true, false, none, some, List, [], ◌∷◌, ◌++◌, arith, str_eq, eq_iff,
  if◌then◌else◌,
}
use autocache.Cluster.Hash.{key_slot}
use autocache.Cluster.Slots.{blank, importing, get_slot_info, new_slot_manager}
use autocache.Cluster.Router.{Cluster, Node, addr, find_node, route, can_accept_write}
use autocache.Cluster.Replication.{append, new_log_store}
use autocache.Cluster.Replication.Acks.{new_ack_tracker}
use autocache.Cluster.Replication.Manager.{Manager, WriteRequest, written, op_of, apply_write}
use autocache.Cluster.Slots.Replicas.{allocate_lsn}
use autocache.Engine.Cache.Decimal.{parse_int, parse_nat, parse_digits}
use autocache.Protocol.Execute.{
  Bytes, Command, Handler, null, refused, moved_to, read_only, simple, listed, guard, execute,
}
use autocache.Protocol.Admission.{IsOnKeys, IsAdmitted, execute-IsAdmitted}
use autocache.Protocol.Session.{session, execute-moved}
use autocache.Protocol.Payload.{encode_replication_payload, decode_replication_payload}
use autocache.Protocol.Writes.{Engine, set, write_request, primary_write, set_options}
use autocache.Protocol.Replay.{Replays, replay-primary_write}

abbrev foo : Bytes
foo = 102 ∷ 111 ∷ 111 ∷ []

-- Slot 12182, of "foo", is imported from "b".
abbrev importer : Cluster
importer = record {
  self_id = "a";
  slots = record new_slot_manager {
    slots = λ slot. record blank {
      node_id = "b";
      primary_id = "b";
      state = importing;
      importing = "b";
    };
  };
  nodes = record { id = "b"; ip = "10.0.0.2"; port = 7000 } ∷ [];
}

abbrev owner : Cluster
owner = record importer {
  slots = record new_slot_manager {
    slots = λ slot. record blank { node_id = "a"; primary_id = "a" };
  };
}

abbrev asking : Command ℕ ℕ
asking args (flag, s) = (simple "OK", true, s)

abbrev counting : Command ℕ ℕ
counting args (flag, s) = (null, flag, s + 1)

abbrev handler : Cluster → Handler ℕ ℕ
handler c = record {
  get = λ k s. (none, s);
  set = λ k v s. (true, s + 1);
  incr = λ k s. (none, s);
  commands = λ cmd. if str_eq cmd "ASKING" then some asking else some counting;
  cluster_command = λ args fs. (null, fs.0, fs.1);
  cluster = some c;
}

abbrev node_b : Node
node_b = record { id = "b"; ip = "10.0.0.2"; port = 7000 }

not_a : node_b.id ≢ importer.self_id
not_a e = absurd (cc ((eq_iff "b" "a").1 e))

not_empty : node_b.id ≢ ""
not_empty e = absurd (cc e)

execute-moved_example :
    execute
      (handler importer)
      "GET"
      (foo ∷ [])
      (session (handler importer) (("ASKING", []) ∷ []) (false, 0))
    ≡ (
      refused (moved_to (key_slot foo) (some (addr node_b))),
      false,
      (session (handler importer) (("ASKING", []) ∷ []) (false, 0)).1,
    )
unfolding listed find_node
execute-moved_example =
    execute-moved (handler importer) importer counting "GET" foo [] node_b (("ASKING", []) ∷ []) 0
      refl refl refl refl refl not_a not_empty refl

-- If the flag were kept, a write would still be refused: the primary of the slot is "b".
asking_writes : (execute (handler importer) "SET" (foo ∷ foo ∷ []) (true, 0)).0 ≡ refused read_only
unfolding execute route get_slot_info key_slot can_accept_write
asking_writes = refl

one_more : (execute (handler owner) "SET" (foo ∷ foo ∷ []) (false, 0)).2 ≢ 0
unfolding execute route get_slot_info key_slot can_accept_write
one_more e = omega (arith, e)

set_IsOnKeys : IsOnKeys "SET" (foo ∷ [])
unfolding listed
set_IsOnKeys = record { tabled = refl; values = refl }

execute-IsAdmitted_example : IsAdmitted owner false "SET" foo (foo ∷ [])
execute-IsAdmitted_example =
    execute-IsAdmitted (handler owner) owner "SET" foo (foo ∷ []) false 0 refl refl set_IsOnKeys
      one_more

-- RESTORE is in neither table: it is not routed, and the test of writes does not see its key.
restore_unchecked : guard owner false "RESTORE" (foo ∷ foo ∷ []) ≡ none
unfolding guard
restore_unchecked = refl

-- A value with a zero byte is cut there.
zero_byte :
    decode_replication_payload (encode_replication_payload (foo ∷ (7 ∷ 0 ∷ 8 ∷ []) ∷ []))
    ≡ foo ∷ (7 ∷ []) ∷ (8 ∷ []) ∷ []
unfolding decode_replication_payload encode_replication_payload
zero_byte = refl

abbrev listing : Engine (List Bytes)
listing = record {
  set = λ k v ttl s. (true, k ∷ v ∷ s);
  set_nx = λ k v ttl s. (some true, k ∷ v ∷ s);
  set_xx = λ k v ttl s. (some false, s);
  m_set = λ args s. (true, args ++ s);
  h_set = λ k args s. (true, args ++ s);
  del = λ keys s. (true, []);
  rename = λ from to s. (true, s);
  expire_at = λ k at s. (true, s);
  persist = λ k s. (true, s);
}

-- The primary of all slots, which has written nothing.
abbrev primary : Manager
primary = record {
  logs = new_log_store 1024;
  slots = record new_slot_manager {
    slots = λ slot. record blank { node_id = "a"; primary_id = "a" };
  };
  acks = new_ack_tracker;
  inbound = λ _. [];
  dispatched = [];
}

abbrev set_foo : WriteRequest (List Bytes)
set_foo = write_request foo "SET" (102 ∷ 111 ∷ 111 ∷ 0 ∷ 7 ∷ []) 0 (listing.set foo (7 ∷ []) 0)

foo_accepted : primary_write listing 100 set foo ((7 ∷ []) ∷ []) ≡ some set_foo
unfolding primary_write encode_replication_payload
foo_accepted = refl

foo_written : (apply_write set_foo [] primary).0 ≡ written (op_of set_foo 0 1)
unfolding apply_write allocate_lsn append key_slot
foo_written = refl

replay-primary_write_example :
    Replays listing set_foo (op_of set_foo 0 1) [] (apply_write set_foo [] primary).1
replay-primary_write_example =
    replay-primary_write listing 100 set 102 (111 ∷ 111 ∷ []) ((7 ∷ []) ∷ []) set_foo
      (op_of set_foo 0 1) [] primary refl
      ((omega arith, (omega arith, (omega arith, tt))), ((omega arith, tt), tt)) foo_accepted
      foo_written

-- "EX" "1" and "nx": a second to live, and only for a key that is not there.
options_read :
    set_options
      ((69 ∷ 88 ∷ []) ∷ (49 ∷ []) ∷ (110 ∷ 120 ∷ []) ∷ [])
      (some (record { ttl = 0; nx = false; xx = false }))
    ≡ some (record { ttl = 1000000000; nx = true; xx = false })
unfolding set_options parse_int parse_nat parse_digits
options_read = refl
