-- ===== src/Protocol/Session.antt =====
-- internal/protocol/handler.go: the ASKING flag over the commands of a connection.
use autocache.Prelude.{
  String, ◌≡◌, refl, sym, subst, ◌∙◌, ◌≢◌, inl, inr, Bool, true, false, some, List, [], ◌∷◌, str_eq,
  Option-cases, if_keeps,
}
use autocache.Cluster.Hash.{key_slot}
use autocache.Cluster.Router.{Cluster, Node, addr, find_node, route, moved, redirected}
use autocache.Cluster.Router.Routes.{owner_node-key_slot}
use autocache.Cluster.Router.Handover.{route_foreign, route_at, sent_to_owner}
use autocache.Protocol.Execute.{
  Bytes, Command, Handler, Reply, refused, moved_to, listed, key_commands, multi_key_commands,
  handle_route_result, route_keys, route_command, guard, guarded, run_command, fast, execute_alone,
  execute,
}

module _ {R S : Type 0} where
  -- The commands of a connection, one after another.
  unfoldable pub session : Handler R S → List (String × List Bytes) → Bool × S → Bool × S
  session h [] fs = fs
  session h ((cmd, args) ∷ rest) fs =
      let (_, flag, s) = execute h cmd args fs in session h rest (flag, s)

  guarded-flag :
      (c : Cluster) (f : Command R S) (cmd : String) (args : List Bytes) (flag : Bool) (s : S)
      → (guarded c f cmd args (flag, s)).1 ≡ false
  unfolding guarded run_command
  guarded-flag c f cmd args flag s = elim (Option-cases (guard c flag cmd args)) [
    | inl e ↦ rw (guarded, e) refl
    | inr (r, e) ↦ rw (guarded, e) refl
  ]

  execute_alone-flag :
      (h : Handler R S) (cmd : String) (args : List Bytes) (s : S)
      → (execute_alone h cmd args (false, s)).1 ≡ false
  unfolding execute_alone run_command
  execute_alone-flag h cmd args s = elim (Option-cases (fast h cmd args s)) [
    | inr (r, e) ↦ rw (execute_alone, e) refl
    | inl e ↦
        rw (execute_alone, e)
          (if_keeps (λ (r : Reply R × Bool × S). r.1 ≡ false) (str_eq cmd "CLUSTER") refl
            (elim (Option-cases (h.commands cmd)) [
              | inl g ↦ rw (execute_alone, g) refl
              | inr (f, g) ↦ rw (execute_alone, g) refl
            ]))
  ]

  execute-flag :
      (h : Handler R S) (cmd : String) (args : List Bytes) (s : S)
      → (execute h cmd args (false, s)).1 ≡ false
  unfolding execute
  execute-flag h cmd args s = elim (Option-cases h.cluster) [
    | inl e ↦ rw (execute, e) (execute_alone-flag h cmd args s)
    | inr (c, e) ↦
        rw (execute, e)
          (if_keeps (λ (r : Reply R × Bool × S). r.1 ≡ false) (str_eq cmd "CLUSTER") refl
            (elim (Option-cases (h.commands cmd)) [
              | inl g ↦ rw (execute, g) refl
              | inr (f, g) ↦ rw (execute, g) (guarded-flag c f cmd args false s)
            ]))
  ]

  session-flag :
      (h : Handler R S) (cmds : List (String × List Bytes)) (s : S)
      → (session h cmds (false, s)).0 ≡ false
  unfolding session
  session-flag h [] s = refl
  session-flag h ((cmd, args) ∷ rest) s =
      subst (λ b. (session h rest (b, (execute h cmd args (false, s)).2)).0 ≡ false)
        (sym (execute-flag h cmd args s)) (session-flag h rest (execute h cmd args (false, s)).2)

module _ {R S : Type 0} (h : Handler R S) (c : Cluster) (cmd : String) (key : Bytes)
    (args : List Bytes) (n : Node) where
  foreign :
      (c.slots.slots (key_slot key)).node_id ≢ c.self_id
      → (c.slots.slots (key_slot key)).node_id ≢ ""
      → find_node (c.slots.slots (key_slot key)).node_id c.nodes ≡ some n
      → route (some c) key false ≡ redirected moved (key_slot key) (some (addr n))
  foreign other ne known =
      route_at c key false (c.slots.slots (key_slot key)) refl
      ∙ route_foreign c key (c.slots.slots (key_slot key)) other ne (owner_node-key_slot c key ne)
      ∙ rw (sent_to_owner, known) refl

  guard-moved :
      listed cmd key_commands ≡ true
      → listed cmd multi_key_commands ≡ false
      → route (some c) key false ≡ redirected moved (key_slot key) (some (addr n))
      → guard c false cmd (key ∷ args) ≡ some (moved_to (key_slot key) (some (addr n)))
  unfolding guard route_command route_keys handle_route_result
  guard-moved k m r = rw (guard, route_command, m, k, route_keys, r) refl

  guarded-moved :
      (f : Command R S) (flag : Bool) (s : S)
      → flag ≡ false
      → guard c false cmd (key ∷ args) ≡ some (moved_to (key_slot key) (some (addr n)))
      → guarded c f cmd (key ∷ args) (flag, s)
        ≡ (refused (moved_to (key_slot key) (some (addr n))), false, s)
  unfolding guarded
  guarded-moved f true s e g = absurd (cc e)
  guarded-moved f false s e g = rw (guarded, g) refl

-- A command that has a handler, on a node of a cluster.
pub execute-guarded :
    {R S : Type 0} (h : Handler R S) (c : Cluster) (f : Command R S) (cmd : String)
    (args : List Bytes) (flag : Bool) (s : S)
    → h.cluster ≡ some c
    → h.commands cmd ≡ some f
    → str_eq cmd "CLUSTER" ≡ false
    → execute h cmd args (flag, s) ≡ guarded c f cmd args (flag, s)
unfolding execute
execute-guarded h c f cmd args flag s hc hf nc = rw (execute, hc, nc, hf) refl

-- Whatever commands a connection has sent, ASKING among them, a command on one key of a slot that
-- another known node owns is sent on to that node, also while the slot is being imported, and the
-- engine stays as it is.
pub execute-moved :
    {R S : Type 0} (h : Handler R S) (c : Cluster) (f : Command R S) (cmd : String) (key : Bytes)
    (args : List Bytes) (n : Node) (cmds : List (String × List Bytes)) (s : S)
    → h.cluster ≡ some c
    → h.commands cmd ≡ some f
    → str_eq cmd "CLUSTER" ≡ false
    → listed cmd key_commands ≡ true
    → listed cmd multi_key_commands ≡ false
    → (c.slots.slots (key_slot key)).node_id ≢ c.self_id
    → (c.slots.slots (key_slot key)).node_id ≢ ""
    → find_node (c.slots.slots (key_slot key)).node_id c.nodes ≡ some n
    → let fs = session h cmds (false, s) in
      execute h cmd (key ∷ args) fs
      ≡ (refused (moved_to (key_slot key) (some (addr n))), false, fs.1)
execute-moved h c f cmd key args n cmds s hc hf nc k m other ne known =
    let (flag, s') = session h cmds (false, s) in
    let g = guard-moved h c cmd key args n k m (foreign h c cmd key args n other ne known) in
    execute-guarded h c f cmd (key ∷ args) flag s' hc hf nc
    ∙ guarded-moved h c cmd key args n f flag s' (session-flag h cmds s) g
