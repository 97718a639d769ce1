-- ===== src/Protocol/Admission.antt =====
-- internal/protocol/handler.go: what a command that reaches its handler has passed.
use autocache.Prelude.{
  ℕ, suc, String, ◌≡◌, refl, sym, ap, subst, ◌∙◌, ◌≢◌, inl, inr, Bool, true, false, ◌&&◌, ◌||◌,
  Option, none, some, List, [], ◌∷◌, arith, str_eq, eq_iff, ltb, ◌==◌, if◌then◌else◌, Bool-cases,
  Option-cases, length, All,
}
use autocache.Cluster.Hash.{key_slot}
use autocache.Cluster.Router.{Cluster, RouteResult, route, route_multi, can_accept_write}
use autocache.Cluster.Router.Routes.{route_multi_lem}
use autocache.Protocol.Session.{execute-guarded}
use autocache.Protocol.Execute.{
  Bytes, Command, Handler, Reply, listed, key_commands, multi_key_commands, write_commands,
  keys_for_cross_slot_check, handle_route_result, route_keys, route_command, accepts_write, guard,
  guarded, execute, every_second, extract_mset_keys, write_key,
}

-- The node handles the keys: they are in one slot, and the router calls it local.
abbrev pub AreLocal : Cluster → Bool → List Bytes → Type 0
AreLocal c asking [] = Unit
AreLocal c asking (k ∷ []) = (route (some c) k asking).is_local ≡ true
AreLocal c asking (k ∷ j ∷ ks) =
    All (λ i. key_slot i ≡ key_slot k) (j ∷ ks) × ((route (some c) k false).is_local ≡ true)

-- The arguments at the even positions.
unfoldable pub evens : List Bytes → List Bytes
evens [] = []
evens (k ∷ []) = k ∷ []
evens (k ∷ v ∷ rest) = k ∷ evens rest

-- The keys among the arguments: every second one of MSET, all of DEL, EXISTS, MGET and RENAME, and the
-- first one of another command.
abbrev pub keys_named : String → Bytes → List Bytes → List Bytes
keys_named cmd arg args =
    if str_eq cmd "MSET"
    then evens (arg ∷ args)
    else if str_eq "MGET" cmd || str_eq "DEL" cmd || str_eq "EXISTS" cmd || str_eq "RENAME" cmd
    then arg ∷ args
    else arg ∷ []

-- The node handles the keys of the command, and may write the slot, if the command writes.
pub record IsAdmitted (c : Cluster) (asking : Bool) (cmd : String) (arg : Bytes) (args : List Bytes)
    : Type 0 where
  pub keys : AreLocal c asking (keys_named cmd arg args)
  pub writes : listed cmd write_commands ≡ true → can_accept_write arg c ≡ true

-- The command is in the tables of the commands on keys, and an MSET has a value.
pub record IsOnKeys (cmd : String) (args : List Bytes) : Type 0 where
  pub tabled : (listed cmd multi_key_commands || listed cmd key_commands) ≡ true
  pub values : (str_eq cmd "MSET" && (length args == 0)) ≡ false

handled :
    (r : RouteResult) → handle_route_result r ≡ none → (r.cross_slot ≡ false) × (r.is_local ≡ true)
unfolding handle_route_result
handled r e = ground (arith, e)

route_keys-AreLocal :
    (c : Cluster) (asking : Bool) (ks : List Bytes)
    → route_keys c asking ks ≡ none
    → AreLocal c asking ks
unfolding route_keys
route_keys-AreLocal c asking [] e = tt
route_keys-AreLocal c asking (k ∷ []) e = (handled (route (some c) k asking) e).1
route_keys-AreLocal c asking (k ∷ j ∷ ks) e =
    let (same, here) = handled (route_multi (some c) (k ∷ j ∷ ks)) e in
    elim (route_multi_lem c k (j ∷ ks)) [
      | inl (all, r) ↦ (all, subst (λ (q : RouteResult). q.is_local ≡ true) r here)
      | inr (_, crossing, _, _) ↦ absurd (cc (same, crossing))
    ]

guard-routed :
    (c : Cluster) (asking : Bool) (cmd : String) (args : List Bytes)
    → guard c asking cmd args ≡ none
    → route_command c asking cmd args ≡ none
unfolding guard
guard-routed c asking cmd args e = ground (arith, e)

guard-writes :
    (c : Cluster) (asking : Bool) (cmd : String) (args : List Bytes)
    → guard c asking cmd args ≡ none
    → listed cmd write_commands ≡ true
    → accepts_write c cmd args ≡ true
unfolding guard
guard-writes c asking cmd args e w = ground (arith, e, w)

route-several :
    (c : Cluster) (asking : Bool) (cmd : String) (arg : Bytes) (args : List Bytes)
    → route_command c asking cmd (arg ∷ args) ≡ none
    → listed cmd multi_key_commands ≡ true
    → route_keys c asking (keys_for_cross_slot_check cmd (arg ∷ args)) ≡ none
unfolding route_command
route-several c asking cmd arg args e m = ground (arith, e, m)

route-one :
    (c : Cluster) (asking : Bool) (cmd : String) (arg : Bytes) (args : List Bytes)
    → route_command c asking cmd (arg ∷ args) ≡ none
    → listed cmd multi_key_commands ≡ false
    → listed cmd key_commands ≡ true
    → route_keys c asking (arg ∷ []) ≡ none
unfolding route_command
route-one c asking cmd arg args e m k = ground (arith, e, m, k)

evens-every_second : (args : List Bytes) → every_second args ≡ evens args
unfolding every_second evens
evens-every_second [] = refl
evens-every_second (k ∷ []) = refl
evens-every_second (k ∷ v ∷ rest) = ap (λ ks. k ∷ ks) (evens-every_second rest)

turned : (a b : String) → str_eq a b ≡ false → str_eq b a ≡ false
turned a b e = ground (arith, e, eq_iff a b, eq_iff b a)

mset_keys :
    (arg : Bytes) (args : List Bytes)
    → (length args == 0) ≡ false
    → extract_mset_keys (arg ∷ args) ≡ evens (arg ∷ args)
unfolding extract_mset_keys
mset_keys arg [] h = absurd (cc h)
mset_keys arg (v ∷ rest) h = rw (two (length rest)) (evens-every_second (arg ∷ v ∷ rest))
  where
    two : (n : ℕ) → ltb (suc (suc n)) 2 ≡ false
    two n = ground arith

many :
    (cmd : String)
    → str_eq cmd "MSET" ≡ false
    → listed cmd multi_key_commands ≡ true
    → (str_eq "MGET" cmd || str_eq "DEL" cmd || str_eq "EXISTS" cmd || str_eq "RENAME" cmd) ≡ true
unfolding listed
many cmd e m = ground (arith, m, turned cmd "MSET" e)

no_mset : (cmd : String) → listed cmd multi_key_commands ≡ false → str_eq cmd "MSET" ≡ false
unfolding listed
no_mset cmd m = turned "MSET" cmd (ground (arith, m))

not_many :
    (cmd : String)
    → listed cmd multi_key_commands ≡ false
    → (str_eq "MGET" cmd || str_eq "DEL" cmd || str_eq "EXISTS" cmd || str_eq "RENAME" cmd) ≡ false
unfolding listed
not_many cmd m = ground (arith, m)

no_keys :
    (cmd : String) (args : List Bytes)
    → listed cmd multi_key_commands ≡ false
    → keys_for_cross_slot_check cmd args ≡ []
unfolding keys_for_cross_slot_check
no_keys cmd args m = rw (no_mset cmd m, m) refl

-- The keys of a command on several.
several_keys :
    (cmd : String) (arg : Bytes) (args : List Bytes)
    → IsOnKeys cmd args
    → listed cmd multi_key_commands ≡ true
    → keys_for_cross_slot_check cmd (arg ∷ args) ≡ keys_named cmd arg args
unfolding keys_for_cross_slot_check
several_keys cmd arg args h m = elim (Bool-cases (str_eq cmd "MSET")) [
  | inl e ↦ rw e (mset_keys arg args (subst (λ b. (b && (length args == 0)) ≡ false) e h.values))
  | inr e ↦ rw (e, m, many cmd e m) refl
]

one_key :
    (cmd : String) (arg : Bytes) (args : List Bytes)
    → listed cmd multi_key_commands ≡ false
    → keys_named cmd arg args ≡ arg ∷ []
unfolding listed
one_key cmd arg args m = rw (no_mset cmd m, not_many cmd m) refl

head_key :
    (x y : Bool) (other : Option Bytes) (arg : Bytes) (args : List Bytes)
    → (elim (if x then evens (arg ∷ args) else if y then arg ∷ args else arg ∷ [])
        as (λ _. Option Bytes) [ k ∷ ks ↦ some k | [] ↦ other ])
      ≡ some arg
unfolding evens
head_key true y other arg [] = refl
head_key true y other arg (v ∷ rest) = refl
head_key false true other arg args = refl
head_key false false other arg args = refl

first_key :
    (cmd : String) (arg : Bytes) (args : List Bytes)
    → IsOnKeys cmd args
    → write_key cmd (arg ∷ args) ≡ some arg
unfolding write_key
first_key cmd arg args h = elim (Bool-cases (listed cmd multi_key_commands)) [
  | inl m ↦
      rw (write_key, several_keys cmd arg args h m) (head_key (str_eq cmd "MSET") _ _ arg args)
  | inr m ↦
      rw
        (
          write_key,
          no_keys cmd (arg ∷ args) m,
          subst (λ b. (b || listed cmd key_commands) ≡ true) m h.tabled,
        )
        refl
]

guard-IsAdmitted :
    (c : Cluster) (asking : Bool) (cmd : String) (arg : Bytes) (args : List Bytes)
    → IsOnKeys cmd args
    → guard c asking cmd (arg ∷ args) ≡ none
    → IsAdmitted c asking cmd arg args
unfolding accepts_write
guard-IsAdmitted c asking cmd arg args h e =
    let routed = guard-routed c asking cmd (arg ∷ args) e in
    record {
      keys = elim (Bool-cases (listed cmd multi_key_commands)) [
        | inl m ↦ subst (AreLocal c asking) (several_keys cmd arg args h m) (
            route_keys-AreLocal c asking (keys_for_cross_slot_check cmd (arg ∷ args))
              (route-several c asking cmd arg args routed m))
        | inr m ↦ subst (AreLocal c asking) (sym (one_key cmd arg args m)) (
            route_keys-AreLocal c asking (arg ∷ []) (
              route-one c asking cmd arg args routed m
                (subst (λ b. (b || listed cmd key_commands) ≡ true) m h.tabled)))
      ];
      writes = λ w.
          subst
            (λ (o : Option Bytes).
              (elim o as (λ _. Bool) [ none ↦ true | some k ↦ can_accept_write k c ]) ≡ true)
            (first_key cmd arg args h) (guard-writes c asking cmd (arg ∷ args) e w);
    }

guarded-IsAdmitted :
    {R S : Type 0} (c : Cluster) (f : Command R S) (cmd : String) (arg : Bytes) (args : List Bytes)
    (flag : Bool) (s : S)
    → IsOnKeys cmd args
    → (guarded c f cmd (arg ∷ args) (flag, s)).2 ≢ s
    → IsAdmitted c flag cmd arg args
unfolding guarded
guarded-IsAdmitted c f cmd arg args flag s h changed =
    elim (Option-cases (guard c flag cmd (arg ∷ args))) [
      | inl e ↦ guard-IsAdmitted c flag cmd arg args h e
      | inr (r, e) ↦ absurd (changed (rw (guarded, e) refl))
    ]

-- In a cluster, of the commands that the tables name as commands on keys, an MSET of a key without a
-- value apart: a command changes the engine only if all its keys are in one slot that this node handles,
-- by the router, and if the node may write the slot of its first key, where the command is one of
-- `writeCommands`. Commands in neither table, such as RESTORE, MIGRATE, REPLAPPLY and FLUSHDB, are not
-- meant.
pub execute-IsAdmitted :
    {R S : Type 0} (h : Handler R S) (c : Cluster) (cmd : String) (arg : Bytes) (args : List Bytes)
    (flag : Bool) (s : S)
    → h.cluster ≡ some c
    → str_eq cmd "CLUSTER" ≡ false
    → IsOnKeys cmd args
    → (execute h cmd (arg ∷ args) (flag, s)).2 ≢ s
    → IsAdmitted c flag cmd arg args
unfolding execute
execute-IsAdmitted h c cmd arg args flag s hc nc on changed = elim (Option-cases (h.commands cmd)) [
  | inl e ↦ absurd (changed (rw (execute, hc, nc, e) refl))
  | inr (f, e) ↦ guarded-IsAdmitted c f cmd arg args flag s on (λ same. changed (
      ap (λ (r : Reply _ × Bool × _). r.2) (execute-guarded h c f cmd (arg ∷ args) flag s hc e nc)
      ∙ same))
]
