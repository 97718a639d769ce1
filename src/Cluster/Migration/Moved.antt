-- ===== src/Cluster/Migration/Moved.antt =====
-- internal/cluster/migrate/worker.go: no key is lost, whatever becomes of the connections.
use autocache.Prelude.{
  ℕ, zero, suc, ◌+◌, String, ◌≡◌, refl, sym, subst, ◌∙◌, inl, inr, Bool, false, not, ◌&&◌, Option,
  none, some, List, [], ◌∷◌, str_eq, eq_iff, ltb, ◌==◌, Bool-cases, Option-cases, if_keeps,
}
use autocache.Cluster.Migration.{
  Entry, Engine, IsEngine, Peer, IsPeer, Reply, ok, busy, rejected, Wire, no_connection, no_asking,
  not_sent, answer_lost, answered, MoveError, send, reply_error,
}
use autocache.Cluster.Migration.Worker.{
  Ended, at_signal, Attempt, KeyRun, Signal, go_on, context_done, stop, SlotError,
  MigrationProgress, World, is_busy, move, move_entry, ttl_of, do_migrate, retry, migrate_key,
  count_key, migrate_keys, migrate_slot,
}

reply_error-ok : (r : Reply) → reply_error r ≡ none → r ≡ ok
unfolding reply_error
reply_error-ok ok e = refl
reply_error-ok busy e = absurd (cc e)
reply_error-ok rejected e = absurd (cc e)

module _ (P : Peer) (PL : IsPeer P) where
  -- Only an answer of OK is no error, and then the peer has the value.
  pub send-acknowledged :
      (replace : Bool) (wire : Wire) (k : String) (ttl : ℕ) (v : List ℕ) (p : P.State)
      → (send P replace wire k ttl v p).0 ≡ none
      → P.acknowledged k (send P replace wire k ttl v p).1 ≡ some v
  unfolding send
  send-acknowledged replace no_connection k ttl v p e = absurd (cc e)
  send-acknowledged replace no_asking k ttl v p e = absurd (cc e)
  send-acknowledged replace not_sent k ttl v p e = absurd (cc e)
  send-acknowledged replace answer_lost k ttl v p e = absurd (cc e)
  send-acknowledged replace answered k ttl v p e =
      PL.acknowledged-ok replace k ttl v p (reply_error-ok (P.restore replace k ttl v p).0 e)

  pub send-other :
      (replace : Bool) (wire : Wire) (k j : String) (ttl : ℕ) (v : List ℕ) (p : P.State)
      → str_eq k j ≡ false
      → P.acknowledged j (send P replace wire k ttl v p).1 ≡ P.acknowledged j p
  unfolding send
  send-other replace no_connection k j ttl v p d = refl
  send-other replace no_asking k j ttl v p d = refl
  send-other replace not_sent k j ttl v p d = refl
  send-other replace answer_lost k j ttl v p d = PL.acknowledged-other replace k j ttl v p d
  send-other replace answered k j ttl v p d = PL.acknowledged-other replace k j ttl v p d

-- The key is here with its entry, or it is not, and the peer has its value.
pub data IsSafe (E : Engine) (P : Peer) (j : String) (e : Entry (E.Value)) (v : List ℕ)
    (w : World E P) : Type 0 where
  here : E.get_entry j w.0 ≡ some e → IsSafe E P j e v w
  there : E.get_entry j w.0 ≡ none → P.acknowledged j w.1 ≡ some v → IsSafe E P j e v w

module _ (E : Engine) (P : Peer) (EL : IsEngine E) (PL : IsPeer P) (j : String)
    (e : Entry (E.Value)) (v : List ℕ) where
  abbrev pub Safe : World E P → Type 0
  Safe = IsSafe E P j e v

  pub still :
      (w w' : World E P)
      → E.get_entry j w'.0 ≡ E.get_entry j w.0
      → P.acknowledged j w'.1 ≡ P.acknowledged j w.1
      → Safe w
      → Safe w'
  still w w' q r (here h) = here (q ∙ h)
  still w w' q r (there h g) = there (q ∙ h) (r ∙ g)

  pub del-other :
      (k : String) (s : E.State) → str_eq k j ≡ false → E.get_entry j (E.del k s) ≡ E.get_entry j s
  del-other k s d = EL.get_entry-del k j s ∙ rw d refl

  del-same : (s : E.State) → E.get_entry j (E.del j s) ≡ none
  del-same s = EL.get_entry-del j j s ∙ rw ((eq_iff j j).1 refl) refl

  move-other :
      (replace : Bool) (wire : Wire) (k : String) (ttl : ℕ) (u : List ℕ) (w : World E P)
      → str_eq k j ≡ false
      → Safe w
      → Safe (move E P replace wire k ttl u w).1
  unfolding move
  move-other replace wire k ttl u (s, p) d safe =
      let kept = send-other P PL replace wire k j ttl u p d in
      elim (Option-cases (send P replace wire k ttl u p).0) [
        | inl q ↦ rw (move, q) (still (s, p) _ (del-other k s d) kept safe)
        | inr (err, q) ↦ rw (move, q) (still (s, p) _ refl kept safe)
      ]

  move-same :
      (replace : Bool) (wire : Wire) (ttl : ℕ) (w : World E P)
      → E.get_entry j w.0 ≡ some e
      → Safe (move E P replace wire j ttl v w).1
  unfolding move
  move-same replace wire ttl (s, p) h = elim (Option-cases (send P replace wire j ttl v p).0) [
    | inl q ↦ rw (move, q) (there (del-same s) (send-acknowledged P PL replace wire j ttl v p q))
    | inr (err, q) ↦ rw (move, q) (here h)
  ]

  pub move_entry-same :
      (replace : Bool) (wire : Wire) (ttl : ℕ) (w : World E P)
      → E.serialize e ≡ some v
      → E.get_entry j w.0 ≡ some e
      → Safe (move_entry E P replace wire j ttl e w).1
  unfolding move_entry
  move_entry-same replace wire ttl w q h = rw (move_entry, q) (move-same replace wire ttl w h)

  pub move_entry-other :
      (replace : Bool) (wire : Wire) (k : String) (ttl : ℕ) (other : Entry (E.Value))
      (w : World E P)
      → str_eq k j ≡ false
      → Safe w
      → Safe (move_entry E P replace wire k ttl other w).1
  unfolding move_entry
  move_entry-other replace wire k ttl other w d safe = elim (Option-cases (E.serialize other)) [
    | inl q ↦ rw (move_entry, q) safe
    | inr (u, q) ↦ rw (move_entry, q) (move-other replace wire k ttl u w d safe)
  ]

  do_migrate-other :
      (replace : Bool) (a : Attempt) (k : String) (w : World E P)
      → str_eq k j ≡ false
      → Safe w
      → Safe (do_migrate E P replace a k w).1
  unfolding do_migrate
  do_migrate-other replace a k w d safe = elim (Option-cases (E.get_entry k w.0)) [
    | inl q ↦ rw (do_migrate, q) safe
    | inr (other, q) ↦ elim (Option-cases (ttl_of E P a.now other)) [
      | inl t ↦ rw (do_migrate, q, t) safe
      | inr (ttl, t) ↦ rw (do_migrate, q, t) (move_entry-other replace a.wire k ttl other w d safe)
    ]
  ]

  do_migrate-same :
      (replace : Bool) (a : Attempt) (w : World E P)
      → E.serialize e ≡ some v
      → Safe w
      → Safe (do_migrate E P replace a j w).1
  unfolding do_migrate
  do_migrate-same replace a w q (there h g) = rw (do_migrate, h) (there h g)
  do_migrate-same replace a w q (here h) = elim (Option-cases (ttl_of E P a.now e)) [
    | inl t ↦ rw (do_migrate, h, t) (here h)
    | inr (ttl, t) ↦ rw (do_migrate, h, t) (move_entry-same replace a.wire ttl w q h)
  ]

  pub do_migrate-Safe :
      (replace : Bool) (a : Attempt) (k : String) (w : World E P)
      → E.serialize e ≡ some v
      → Safe w
      → Safe (do_migrate E P replace a k w).1
  do_migrate-Safe replace a k w q safe = elim (Bool-cases (str_eq k j)) [
    | inl eq ↦
        subst (λ i. Safe (do_migrate E P replace a i w).1) (sym ((eq_iff k j).0 eq))
          (do_migrate-same replace a w q safe)
    | inr d ↦ do_migrate-other replace a k w d safe
  ]

  pub retry-Safe :
      (n i : ℕ) (last : Option MoveError) (replace : Bool) (attempts : ℕ → Attempt) (k : String)
      (w : World E P)
      → E.serialize e ≡ some v
      → Safe w
      → Safe (retry E P n i last replace attempts k w).1
  unfolding retry
  retry-Safe zero i last replace attempts k w q safe = safe
  retry-Safe (suc n) i last replace attempts k w q safe =
      let one = do_migrate-Safe replace (attempts i) k w q safe in
      let (err, w') = do_migrate E P replace (attempts i) k w in
      if_keeps (λ (r : Option MoveError × World E P). Safe r.1) (ltb 0 i && (attempts i).cancel)
        safe
        (elim (Option-cases err) [
          | inl f ↦ rw (retry, f) one
          | inr (x, f) ↦
              rw (retry, f)
                (if_keeps (λ (r : Option MoveError × World E P). Safe r.1)
                  (is_busy x && not replace) one
                  (retry-Safe n (i + 1) err replace attempts k w' q one))
        ])

  pub migrate_keys-Safe :
      (retries : ℕ) (replace : Bool) (runs : ℕ → KeyRun) (i : ℕ) (ks : List String)
      (p : MigrationProgress) (w : World E P)
      → E.serialize e ≡ some v
      → Safe w
      → Safe (migrate_keys E P retries replace runs i ks (p, w)).2
  unfolding migrate_keys migrate_key at_signal
  migrate_keys-Safe retries replace runs i [] p w q safe =
      if_keeps (λ (r : Option SlotError × MigrationProgress × World E P). Safe r.2)
        (p.failed_keys == 0) safe safe
  migrate_keys-Safe retries replace runs i (k ∷ ks) p w q safe =
      by_signal (runs i).signal p w _ safe (
        migrate_keys-Safe retries replace runs (i + 1) ks
          (count_key E P (migrate_key E P retries replace (runs i).attempts k w).0 p) _ q
          (retry-Safe retries 0 none replace (runs i).attempts k w q safe))
    where
      by_signal :
          (x : Signal) (p : MigrationProgress) (w : World E P) (r : Ended E P)
          → Safe w
          → Safe r.2
          → Safe (at_signal E P x p w r).2
      by_signal go_on p w r s h = h
      by_signal context_done p w r s h = s
      by_signal stop p w r s h = s

-- However the exchanges end, and wherever the migration stops: a key that was here with a value is
-- still here with it, or it is gone from here and the other node has the value.
pub migrate_slot-IsSafe :
    (E : Engine) (P : Peer) (j : String) (e : Entry (E.Value)) (v : List ℕ) (retries : ℕ)
    (replace : Bool) (runs : ℕ → KeyRun) (slot : ℕ) (w : World E P)
    → IsEngine E
    → IsPeer P
    → E.get_entry j w.0 ≡ some e
    → E.serialize e ≡ some v
    → IsSafe E P j e v (migrate_slot E P retries replace runs slot w).2
unfolding migrate_slot
migrate_slot-IsSafe E P j e v retries replace runs slot w EL PL h q =
    migrate_keys-Safe E P EL PL j e v retries replace runs 0 (E.keys_in_slot slot 0 w.0) _ w q
      (here h)
