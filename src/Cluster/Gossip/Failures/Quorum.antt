-- ===== src/Cluster/Gossip/Failures/Quorum.antt =====
-- internal/cluster/gossip/gossip.go: when a node is taken for failed.
use autocache.Prelude.{
  ℕ, ◌+◌, ◌*◌, ◌/◌, ◌≤◌, String, ◌≡◌, refl, ap, ap₂, subst, ◌∙◌, inl, inr, Bool, true, false, ◌&&◌,
  none, some, List, [], ◌∷◌, arith, str_eq, eq_iff, ltb, leb, if◌then◌else◌, Bool-cases,
  Option-cases, if_keeps, is_some, lookup, IsMap,
}
use autocache.Cluster.Gossip.Nodes.{
  is_connected, is_master, GossipNode, Gossip, NodeRole, master, replica, NodeState, unknown,
  handshake, connected, pfail, fail, count_since, is_pfail, mark_pfail, mark_fail,
  count_fail_reports, count_masters, change, change_in, get_node,
}
use autocache.Cluster.Gossip.Nodes.Known.{counts, lookup-change_in, count_masters-change_in}
use autocache.Cluster.Gossip.Failures.{
  fail_report_validity, suspected, has_quorum, confirm, check_node, check_nodes,
  check_node_failures,
}

-- The state of another node after the look at it: a connected node that is silent is suspected, and
-- one that is suspected by then has failed if enough masters reported it.
unfoldable pub verdict : NodeState → Bool → Bool → NodeState
verdict connected false reported = connected
verdict connected true false = pfail
verdict connected true true = fail
verdict pfail silent false = pfail
verdict pfail silent true = fail
verdict fail silent reported = fail
verdict unknown silent reported = unknown
verdict handshake silent reported = handshake

-- The reports of the last 30 seconds.
unfoldable pub recent : ℕ → List (String × ℕ) → ℕ
recent now [] = 0
recent now ((reporter, ts) ∷ reports) =
    let rest = recent now reports in if leb (ts + 30000) now then rest else rest + 1

-- A pong is too old after 15 seconds, and reports are enough when they are more than half of the
-- connected masters.
abbrev pub judge : ℕ → ℕ → GossipNode → GossipNode
judge now masters n = record n {
  state =
      verdict n.state (ltb (n.pong_received + 15000) now)
        (ltb masters (2 * recent now n.fail_reports));
}

abbrev leads : NodeRole → NodeState → ℕ
leads master connected = 1
leads _ _ = 0

-- The masters that are connected.
unfoldable pub connected_masters : List (String × GossipNode) → ℕ
connected_masters [] = 0
connected_masters ((k, n) ∷ ns) = leads n.role n.state + connected_masters ns

-- What the code comes to at a node, if it counts `masters` masters.
unfoldable pub judged_by : ℕ → ℕ → GossipNode → GossipNode
unfolding suspected mark_fail
judged_by now masters n =
    let s = suspected now n in
    if is_pfail s.state && leb (masters / 2 + 1) (count_fail_reports now fail_report_validity s)
    then mark_fail s
    else s

count_since-recent : (now : ℕ) (rs : List (String × ℕ)) → count_since now 30000 rs ≡ recent now rs
unfolding count_since recent
count_since-recent now [] = refl
count_since-recent now ((r, ts) ∷ rs) = ground (arith, count_since-recent now rs)

enough : (masters reports : ℕ) → leb (masters / 2 + 1) reports ≡ ltb masters (2 * reports)
enough masters reports = ground arith

judged_by-judge : (now masters : ℕ) (n : GossipNode) → judged_by now masters n ≡ judge now masters n
unfolding judged_by suspected mark_pfail mark_fail count_fail_reports verdict
judged_by-judge now masters n =
    by n.state (ltb (n.pong_received + 15000) now)
      (λ rs. leb (masters / 2 + 1) (count_since now 30000 rs))
    ∙ ap (λ b. record n { state = verdict n.state (ltb (n.pong_received + 15000) now) b })
        (ap (leb (masters / 2 + 1)) (count_since-recent now n.fail_reports)
          ∙ enough masters (recent now n.fail_reports))
  where
    by :
        (s : NodeState) (silent : Bool) (reported : List (String × ℕ) → Bool)
        → (let m =
              if is_connected s && silent
              then record n { state = if is_connected s then pfail else s }
              else record n { state = s } in
            if is_pfail m.state && reported m.fail_reports then record m { state = fail } else m)
          ≡ record n { state = verdict s silent (reported n.fail_reports) }
    by connected true reported = waits (reported n.fail_reports)
      where
        waits :
            (b : Bool)
            → (if b then record n { state = fail } else record n { state = pfail })
              ≡ record n { state = verdict connected true b }
        waits true = refl
        waits false = refl
    by connected false reported = refl
    by pfail silent reported = waits (reported n.fail_reports)
      where
        waits :
            (b : Bool)
            → (if b then record n { state = fail } else record n { state = pfail })
              ≡ record n { state = verdict pfail silent b }
        waits true = refl
        waits false = refl
    by fail silent reported = refl
    by unknown silent reported = refl
    by handshake silent reported = refl

count_masters-connected_masters :
    (ns : List (String × GossipNode)) → count_masters ns ≡ connected_masters ns
unfolding count_masters connected_masters
count_masters-connected_masters [] = refl
count_masters-connected_masters ((k, n) ∷ ns) =
    ap₂ (λ (i : ℕ) j. i + j) (by n.role n.state) (count_masters-connected_masters ns)
  where
    by :
        (r : NodeRole) (s : NodeState)
        → (if is_master r && is_connected s then 1 else 0) ≡ leads r s
    by master connected = refl
    by master pfail = refl
    by master fail = refl
    by master unknown = refl
    by master handshake = refl
    by replica s = refl

-- What a round may do to what is known, where it looks at the node `n` under `id`.
record Round (now : ℕ) (id : String) (n : GossipNode) (g g' : Gossip) : Type 0 where
  masters : ℕ
  left_of : count_masters g'.nodes ≤ masters
  of : masters ≤ count_masters g.nodes
  judged : get_node id g' ≡ some (judged_by now masters n)
  others : (j : String) → str_eq id j ≡ false → get_node j g' ≡ get_node j g
  self : g'.self_id ≡ g.self_id

suspected-counts : (now : ℕ) (n : GossipNode) → counts (suspected now n) ≡ true → counts n ≡ true
unfolding suspected mark_pfail
suspected-counts now n e = ground (arith, e)

mark_fail-counts : (n : GossipNode) → counts (mark_fail n) ≡ true → counts n ≡ true
unfolding mark_fail
mark_fail-counts n e = ground (arith, e)

found :
    (id : String) (f : GossipNode → GossipNode) (ns : List (String × GossipNode)) (n : GossipNode)
    → lookup id ns ≡ some n
    → lookup id (change_in id f ns) ≡ some (f n)
found id f ns n h = ground (arith, lookup-change_in id id f ns, eq_iff id id, h)

elsewhere :
    (id j : String) (f : GossipNode → GossipNode) (ns : List (String × GossipNode))
    → str_eq id j ≡ false
    → lookup j (change_in id f ns) ≡ lookup j ns
elsewhere id j f ns h = ground (arith, lookup-change_in id j f ns, h)

confirm-Round :
    (now : ℕ) (id : String) (n : GossipNode) (g : Gossip)
    → get_node id g ≡ some n
    → Round now id n g (confirm now id (suspected now n) (change id (suspected now) g))
unfolding confirm change has_quorum get_node judged_by
confirm-Round now id n g h =
    let ns = change_in id (suspected now) g.nodes in
    let s = suspected now n in
    let quorum =
      is_pfail s.state
      && leb (count_masters ns / 2 + 1) (count_fail_reports now fail_report_validity s) in
    elim (Bool-cases quorum) [
      | inl e ↦
          rw (confirm, e)
            (record {
              masters = count_masters ns;
              left_of = count_masters-change_in id mark_fail ns mark_fail-counts;
              of = count_masters-change_in id (suspected now) g.nodes (suspected-counts now);
              judged =
                  rw (judged_by, e)
                    (found id mark_fail ns s (found id (suspected now) g.nodes n h));
              others =
                  λ j d. elsewhere id j mark_fail ns d ∙ elsewhere id j (suspected now) g.nodes d;
              self = refl;
            })
      | inr e ↦
          rw (confirm, e)
            (record {
              masters = count_masters ns;
              left_of = omega arith;
              of = count_masters-change_in id (suspected now) g.nodes (suspected-counts now);
              judged = rw (judged_by, e) (found id (suspected now) g.nodes n h);
              others = λ j d. elsewhere id j (suspected now) g.nodes d;
              self = refl;
            })
    ]

-- What rounds on other nodes do.
record Aside (id : String) (g g' : Gossip) : Type 0 where
  same : get_node id g' ≡ get_node id g
  fewer : count_masters g'.nodes ≤ count_masters g.nodes
  self : g'.self_id ≡ g.self_id

no_Aside : (id : String) (g : Gossip) → Aside id g g
no_Aside id g = record { same = refl; fewer = omega arith; self = refl }

Round-Aside :
    (now : ℕ) (k id : String) (n : GossipNode) (g g' : Gossip)
    → str_eq k id ≡ false
    → Round now k n g g'
    → Aside id g g'
Round-Aside now k id n g g' d r = record {
  same = r.others id d;
  fewer = omega (arith, r.left_of, r.of);
  self = r.self;
}

check_node-Aside :
    (now : ℕ) (k id : String) (g : Gossip) → str_eq k id ≡ false → Aside id g (check_node now k g)
unfolding check_node
check_node-Aside now k id g d = elim (Option-cases (get_node k g)) [
  | inl e ↦ rw (check_node, e) (no_Aside id g)
  | inr (n, e) ↦
      rw (check_node, e)
        (if_keeps (Aside id g) (str_eq n.id g.self_id) (no_Aside id g)
          (Round-Aside now k id n g _ d (confirm-Round now k n g e)))
]

check_nodes-Aside :
    (now : ℕ) (id : String) (ns : List (String × GossipNode)) (g : Gossip)
    → lookup id ns ≡ none
    → Aside id g (check_nodes now ns g)
unfolding check_nodes
check_nodes-Aside now id [] g h = no_Aside id g
check_nodes-Aside now id ((k, n) ∷ ns) g h =
    let d : str_eq k id ≡ false = ground (arith, h) in
    let one = check_node-Aside now k id g d in
    let rest = check_nodes-Aside now id ns (check_node now k g) (ground (arith, h)) in
    record {
      same = rest.same ∙ one.same;
      fewer = omega (arith, rest.fewer, one.fewer);
      self = rest.self ∙ one.self;
    }

check_node-Round :
    (now : ℕ) (id : String) (n : GossipNode) (g : Gossip)
    → get_node id g ≡ some n
    → str_eq n.id g.self_id ≡ false
    → Round now id n g (check_node now id g)
unfolding check_node
check_node-Round now id n g h d = rw (check_node, h) (rw d (confirm-Round now id n g h))

-- The node as the count of masters at the time of its round says.
record Judging (now : ℕ) (id : String) (n : GossipNode) (g g' : Gossip) : Type 0 where
  masters : ℕ
  left_of : count_masters g'.nodes ≤ masters
  of : masters ≤ count_masters g.nodes
  judged : get_node id g' ≡ some (judged_by now masters n)

check_nodes-Judging :
    (now : ℕ) (id : String) (n : GossipNode) (ns : List (String × GossipNode)) (g : Gossip)
    → IsMap ns
    → is_some (lookup id ns) ≡ true
    → get_node id g ≡ some n
    → str_eq n.id g.self_id ≡ false
    → Judging now id n g (check_nodes now ns g)
unfolding check_nodes
check_nodes-Judging now id n [] g m h e d = absurd (cc h)
check_nodes-Judging now id n ((k, other) ∷ ns) g (new, m) h e d = elim (Bool-cases (str_eq k id)) [
  | inl eq ↦
      let r = check_node-Round now k n g (ground (arith, eq, eq_iff k id, e)) d in
      let rest = check_nodes-Aside now k ns (check_node now k g) new in
      subst (λ j. Judging now j n g (check_nodes now ns (check_node now k g))) ((eq_iff k id).0 eq)
        (record {
          masters = r.masters;
          left_of = omega (arith, rest.fewer, r.left_of);
          of = r.of;
          judged = rest.same ∙ r.judged;
        })
  | inr ne ↦
      let one = check_node-Aside now k id g ne in
      let r =
        check_nodes-Judging now id n ns (check_node now k g) m (ground (arith, h, ne))
          (one.same ∙ e) (rw one.self d) in
      record {
        masters = r.masters;
        left_of = r.left_of;
        of = omega (arith, r.of, one.fewer);
        judged = r.judged;
      }
]

-- The node as a number of connected masters says, between those before the look at the nodes and those
-- after it.
pub record Judged (now : ℕ) (id : String) (n : GossipNode) (g g' : Gossip) : Type 0 where
  pub masters : ℕ
  pub left_of : connected_masters g'.nodes ≤ masters
  pub of : masters ≤ connected_masters g.nodes
  pub judged : get_node id g' ≡ some (judge now masters n)

-- Each other node that is known is suspected or taken for failed by its own last pong, its own state
-- and the reports of it, as `judge` says, by a number of connected masters between those after the look
-- at the nodes and those before it; nothing else of what is known of it changes.
pub check_node_failures-Judged :
    (now : ℕ) (id : String) (n : GossipNode) (g : Gossip)
    → IsMap g.nodes
    → get_node id g ≡ some n
    → str_eq n.id g.self_id ≡ false
    → Judged now id n g (check_node_failures now g)
unfolding check_node_failures get_node
check_node_failures-Judged now id n g m e d =
    let r = check_nodes-Judging now id n g.nodes g m (rw e refl) e d in
    record {
      masters = r.masters;
      left_of =
          omega
            (arith, r.left_of, count_masters-connected_masters (check_node_failures now g).nodes);
      of = omega (arith, r.of, count_masters-connected_masters g.nodes);
      judged = r.judged ∙ ap some (judged_by-judge now r.masters n);
    }
