-- ===== src/Cluster/Migration/Gone.antt =====
-- internal/cluster/migrate/worker.go: a key that is gone does not come back.
use autocache.Prelude.{
  ℕ, zero, suc, ◌+◌, String, ◌≡◌, refl, ◌∙◌, inl, inr, Bool, not, ◌&&◌, Option, none, List, [], ◌∷◌,
  str_eq, ltb, ◌==◌, Option-cases, if_keeps,
}
use autocache.Cluster.Migration.{Engine, IsEngine, Peer, MoveError, send}
use autocache.Cluster.Migration.Worker.{
  Ended, at_signal, Attempt, KeyRun, Signal, go_on, context_done, stop, MigrationProgress, World,
  is_busy, move, move_entry, ttl_of, do_migrate, retry, migrate_key, count_key, migrate_keys,
}

module _ (E : Engine) (P : Peer) (EL : IsEngine E) (j : String) where
  abbrev pub Gone : World E P → Type 0
  Gone w = E.get_entry j w.0 ≡ none

  del-Gone : (k : String) (s : E.State) → E.get_entry j s ≡ none → E.get_entry j (E.del k s) ≡ none
  del-Gone k s h = EL.get_entry-del k j s ∙ if_keeps (λ o. o ≡ none) (str_eq k j) refl h

  move-Gone :
      (replace : Bool) (a : Attempt) (k : String) (ttl : ℕ) (u : List ℕ) (w : World E P)
      → Gone w
      → Gone (move E P replace a.wire k ttl u w).1
  unfolding move
  move-Gone replace a k ttl u (s, p) h = elim (Option-cases (send P replace a.wire k ttl u p).0) [
    | inl q ↦ rw (move, q) (del-Gone k s h)
    | inr (err, q) ↦ rw (move, q) h
  ]

  pub do_migrate-Gone :
      (replace : Bool) (a : Attempt) (k : String) (w : World E P)
      → Gone w
      → Gone (do_migrate E P replace a k w).1
  unfolding do_migrate move_entry
  do_migrate-Gone replace a k w h = elim (Option-cases (E.get_entry k w.0)) [
    | inl q ↦ rw (do_migrate, q) h
    | inr (e, q) ↦ elim (Option-cases (ttl_of E P a.now e)) [
      | inl t ↦ rw (do_migrate, q, t) h
      | inr (ttl, t) ↦ elim (Option-cases (E.serialize e)) [
        | inl f ↦ rw (do_migrate, q, t, move_entry, f) h
        | inr (u, f) ↦ rw (do_migrate, q, t, move_entry, f) (move-Gone replace a k ttl u w h)
      ]
    ]
  ]

  pub retry-Gone :
      (n i : ℕ) (last : Option MoveError) (replace : Bool) (attempts : ℕ → Attempt) (k : String)
      (w : World E P)
      → Gone w
      → Gone (retry E P n i last replace attempts k w).1
  unfolding retry
  retry-Gone zero i last replace attempts k w h = h
  retry-Gone (suc n) i last replace attempts k w h =
      let one = do_migrate-Gone replace (attempts i) k w h in
      let (err, w') = do_migrate E P replace (attempts i) k w in
      if_keeps (λ (r : Option MoveError × World E P). Gone r.1) (ltb 0 i && (attempts i).cancel) h
        (elim (Option-cases err) [
          | inl f ↦ rw (retry, f) one
          | inr (x, f) ↦
              rw (retry, f)
                (if_keeps (λ (r : Option MoveError × World E P). Gone r.1)
                  (is_busy x && not replace) one
                  (retry-Gone n (i + 1) err replace attempts k w' one))
        ])

  pub migrate_keys-Gone :
      (retries : ℕ) (replace : Bool) (runs : ℕ → KeyRun) (i : ℕ) (ks : List String)
      (p : MigrationProgress) (w : World E P)
      → Gone w
      → Gone (migrate_keys E P retries replace runs i ks (p, w)).2
  unfolding migrate_keys migrate_key
  migrate_keys-Gone retries replace runs i [] p w h =
      if_keeps (λ (r : Ended E P). Gone r.2) (p.failed_keys == 0) h h
  migrate_keys-Gone retries replace runs i (k ∷ ks) p w h = by_signal (runs i).signal p w _ h (
      migrate_keys-Gone retries replace runs (i + 1) ks
        (count_key E P (migrate_key E P retries replace (runs i).attempts k w).0 p) _
        (retry-Gone retries 0 none replace (runs i).attempts k w h))
    where
      by_signal :
          (x : Signal) (p : MigrationProgress) (w : World E P) (r : Ended E P)
          → Gone w
          → Gone r.2
          → Gone (at_signal E P x p w r).2
      by_signal go_on p w r s h = h
      by_signal context_done p w r s h = s
      by_signal stop p w r s h = s
