-- ===== src/Protocol/Execute.antt =====
-- internal/protocol/handler.go, crossslot.go and connstate.go: what `ExecuteBytes` does with a command.
-- The name of the command is in upper case, as `ToUpperInPlace` leaves it; keys and values are lists of
-- bytes. The handlers of the commands and the engine are parameters; what a handler writes itself is of
-- an unknown type. Metrics and the rates of slots are left out.
use autocache.Prelude.{
  ℕ, String, Bool, true, false, not, ◌&&◌, ◌||◌, Option, none, some, List, [], ◌∷◌, str_eq, ltb,
  if◌then◌else◌, length,
}
use autocache.Cluster.Router.{
  Cluster, Addr, moved, ask, RouteResult, route, route_multi, can_accept_write,
}

abbrev pub Bytes : Type 0
Bytes = List ℕ

-- The errors that are written before a handler runs.
pub data Refusal : Type 0 where
  cluster_disabled unknown_command cross_slot not_local read_only wrong_arguments : Refusal
  moved_to ask_at : ℕ → Option Addr → Refusal

pub data Reply (R : Type 0) : Type 0 where
  refused : Refusal → Reply R
  simple : String → Reply R
  bulk : Bytes → Reply R
  null engine_error : Reply R
  written : R → Reply R

-- A handler, which may set the ASKING flag of the connection.
abbrev pub Command : Type 0 → Type 0 → Type 0
Command R S = List Bytes → Bool × S → Reply R × Bool × S

-- `Handler`: the engine's operations of the fast path, the commands, and the cluster, which
-- `SetCluster` sets together with the router and the handler of CLUSTER.
pub record Handler (R S : Type 0) : Type 0 where
  pub get : Bytes → S → Option Bytes × S
  pub set : Bytes → Bytes → S → Bool × S
  pub incr : Bytes → S → Option R × S
  pub commands : String → Option (Command R S)
  pub cluster_command : Command R S
  pub cluster : Option Cluster

unfoldable pub listed : String → List String → Bool
listed cmd [] = false
listed cmd (c ∷ cs) = str_eq c cmd || listed cmd cs

-- `keyCommands`
abbrev pub key_commands : List String
key_commands =
    "GET" ∷ "SET" ∷ "SETNX" ∷ "SETEX" ∷ "PSETEX" ∷ "GETSET" ∷ "HGET" ∷ "HSET" ∷ "HDEL" ∷ "HEXISTS"
    ∷ "HGETALL" ∷ "HKEYS" ∷ "HVALS" ∷ "HLEN" ∷ "LPUSH" ∷ "RPUSH" ∷ "LPOP" ∷ "RPOP" ∷ "LRANGE"
    ∷ "LLEN" ∷ "LINDEX" ∷ "LSET" ∷ "LTRIM" ∷ "SADD" ∷ "SREM" ∷ "SMEMBERS" ∷ "SISMEMBER" ∷ "SCARD"
    ∷ "ZADD" ∷ "ZREM" ∷ "ZRANGE" ∷ "ZSCORE" ∷ "ZRANK" ∷ "ZCARD" ∷ "INCR" ∷ "INCRBY" ∷ "DECR"
    ∷ "DECRBY" ∷ "APPEND" ∷ "STRLEN" ∷ "DEL" ∷ "EXISTS" ∷ "TYPE" ∷ "RENAME" ∷ "EXPIRE" ∷ "EXPIREAT"
    ∷ "PEXPIRE" ∷ "TTL" ∷ "PTTL" ∷ "PERSIST" ∷ []

-- `writeCommands`
abbrev pub write_commands : List String
write_commands =
    "SET" ∷ "SETNX" ∷ "SETEX" ∷ "PSETEX" ∷ "GETSET" ∷ "MSET" ∷ "HSET" ∷ "HDEL" ∷ "LPUSH" ∷ "RPUSH"
    ∷ "LPOP" ∷ "RPOP" ∷ "LSET" ∷ "LTRIM" ∷ "SADD" ∷ "SREM" ∷ "ZADD" ∷ "ZREM" ∷ "INCR" ∷ "INCRBY"
    ∷ "DECR" ∷ "DECRBY" ∷ "APPEND" ∷ "DEL" ∷ "RENAME" ∷ "EXPIRE" ∷ "EXPIREAT" ∷ "PEXPIRE"
    ∷ "PERSIST" ∷ "RESTORE" ∷ "MIGRATE" ∷ []

-- The commands of `multiKeyCommands`.
abbrev pub multi_key_commands : List String
multi_key_commands = "MGET" ∷ "MSET" ∷ "DEL" ∷ "EXISTS" ∷ "RENAME" ∷ []

-- The loop of `extractMSetKeys`: every second argument.
unfoldable pub every_second : List Bytes → List Bytes
every_second [] = []
every_second (k ∷ []) = k ∷ []
every_second (k ∷ v ∷ rest) = k ∷ every_second rest

-- `extractMSetKeys`
unfoldable pub extract_mset_keys : List Bytes → List Bytes
unfolding every_second
extract_mset_keys args = if ltb (length args) 2 then [] else every_second args

-- `getKeysForCrossSlotCheck`
unfoldable pub keys_for_cross_slot_check : String → List Bytes → List Bytes
unfolding listed extract_mset_keys
keys_for_cross_slot_check cmd args =
    if str_eq cmd "MSET"
    then extract_mset_keys args
    else if listed cmd multi_key_commands
    then args
    else []

-- `handleRouteResult`, with `none` where the command goes on.
unfoldable pub handle_route_result : RouteResult → Option Refusal
handle_route_result r = if r.cross_slot then some cross_slot else elim r.redirect [
  | some d ↦ some (elim d.kind [ moved ↦ moved_to d.slot d.addr | ask ↦ ask_at d.slot d.addr ])
  | none ↦ if r.is_local then none else some not_local
]

-- The routing of a command, by its keys.
unfoldable pub route_keys : Cluster → Bool → List Bytes → Option Refusal
unfolding handle_route_result
route_keys c asking [] = none
route_keys c asking (k ∷ []) = handle_route_result (route (some c) k asking)
route_keys c asking (k ∷ j ∷ ks) = handle_route_result (route_multi (some c) (k ∷ j ∷ ks))

unfoldable pub route_command : Cluster → Bool → String → List Bytes → Option Refusal
unfolding route_keys keys_for_cross_slot_check listed
route_command c asking cmd [] = none
route_command c asking cmd (arg ∷ args) =
    if listed cmd multi_key_commands
    then route_keys c asking (keys_for_cross_slot_check cmd (arg ∷ args))
    else if listed cmd key_commands
    then route_keys c asking (arg ∷ [])
    else none

-- The key that `canAcceptWrite` looks at.
unfoldable pub write_key : String → List Bytes → Option Bytes
unfolding keys_for_cross_slot_check listed
write_key cmd [] = none
write_key cmd (arg ∷ args) = elim (keys_for_cross_slot_check cmd (arg ∷ args)) [
  | k ∷ ks ↦ some k
  | [] ↦ if listed cmd key_commands then some arg else none
]

-- `canAcceptWrite`
unfoldable pub accepts_write : Cluster → String → List Bytes → Bool
unfolding write_key
accepts_write c cmd args = elim (write_key cmd args) [ none ↦ true | some k ↦ can_accept_write k c ]

-- The guards of a node of a cluster, in their order; `none` where the command may run.
unfoldable pub guard : Cluster → Bool → String → List Bytes → Option Refusal
unfolding route_command accepts_write listed
guard c asking cmd args = elim (route_command c asking cmd args) [
  | some r ↦ some r
  | none ↦
      if listed cmd write_commands && not (accepts_write c cmd args) then some read_only else none
]

module _ {R S : Type 0} where
  -- A handler runs, and the flag is cleared after it.
  unfoldable pub run_command : Command R S → List Bytes → Bool × S → Reply R × Bool × S
  run_command f args fs = let (reply, _, s) = f args fs in (reply, false, s)

  -- The fast path, without a cluster: `none` where there is none for the command.
  unfoldable pub fast : Handler R S → String → List Bytes → S → Option (Reply R × S)
  fast h cmd args s =
      if str_eq cmd "PING"
      then some (elim args [ [] ↦ (simple "PONG", s) | a ∷ _ ↦ (bulk a, s) ])
      else if str_eq cmd "SET"
      then some (elim args [
        | k ∷ v ∷ _ ↦ let (ok, s') = h.set k v s in (if ok then simple "OK" else engine_error, s')
        | _ ↦ (refused wrong_arguments, s)
      ])
      else if str_eq cmd "GET"
      then some (elim args [
        | k ∷ [] ↦ let (v, s') = h.get k s in (elim v [ none ↦ null | some b ↦ bulk b ], s')
        | _ ↦ (refused wrong_arguments, s)
      ])
      else if str_eq cmd "INCR"
      then some (elim args [
        | k ∷ [] ↦
            let (n, s') = h.incr k s in (elim n [ none ↦ engine_error | some i ↦ written i ], s')
        | _ ↦ (refused wrong_arguments, s)
      ])
      else none

  -- `ExecuteBytes` of a node that is no part of a cluster.
  unfoldable pub execute_alone : Handler R S → String → List Bytes → Bool × S → Reply R × Bool × S
  unfolding fast run_command
  execute_alone h cmd args (flag, s) = elim (fast h cmd args s) [
    | some (reply, s') ↦ (reply, flag, s')
    | none ↦
        if str_eq cmd "CLUSTER"
        then (refused cluster_disabled, flag, s)
        else elim (h.commands cmd) [
          | none ↦ (refused unknown_command, flag, s)
          | some f ↦ run_command f args (flag, s)
        ]
  ]

  -- The end of `ExecuteBytes`: the guards of the cluster, and the handler.
  unfoldable pub guarded :
      Cluster → Command R S → String → List Bytes → Bool × S → Reply R × Bool × S
  unfolding guard run_command
  guarded c f cmd args (flag, s) = elim (guard c flag cmd args) [
    | some r ↦ (refused r, false, s)
    | none ↦ run_command f args (flag, s)
  ]

  -- `ExecuteBytes`, on the flag of the connection and the engine.
  unfoldable pub execute : Handler R S → String → List Bytes → Bool × S → Reply R × Bool × S
  unfolding execute_alone guarded
  execute h cmd args (flag, s) = elim h.cluster [
    | none ↦ execute_alone h cmd args (flag, s)
    | some c ↦
        if str_eq cmd "CLUSTER"
        then (let (reply, _, s') = h.cluster_command args (flag, s) in (reply, flag, s'))
        else elim (h.commands cmd) [
          | none ↦ (refused unknown_command, flag, s)
          | some f ↦ guarded c f cmd args (flag, s)
        ]
  ]
