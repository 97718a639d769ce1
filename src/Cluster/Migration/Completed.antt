-- ===== src/Cluster/Migration/Completed.antt =====
-- internal/cluster/migrate/worker.go: a migration that reports success has moved every key.
use autocache.Prelude.{
  ℕ, zero, suc, ◌+◌, ◌<◌, String, ◌≡◌, refl, sym, subst, ◌∙◌, ◌≢◌, ◌⊎◌, inl, inr, Bool, not, ◌&&◌,
  Option, none, some, List, [], ◌∷◌, arith, eq_iff, ltb, ◌==◌, ==_iff, Option-cases, if_keeps,
  if_keeps_on, length, Among,
}
use autocache.Cluster.Migration.{Entry, Engine, IsEngine, Peer, IsPeer, MoveError, send}
use autocache.Cluster.Migration.Worker.{
  Ended, at_signal, Attempt, KeyRun, Signal, go_on, context_done, stop, completed,
  MigrationProgress, World, is_busy, move, move_entry, ttl_of, do_migrate, retry, migrate_key,
  count_key, migrate_keys, migrate_slot,
}
use autocache.Cluster.Migration.Moved.{
  IsSafe, here, there, migrate_keys-Safe, retry-Safe, do_migrate-Safe,
}
use autocache.Cluster.Migration.Gone.{Gone, do_migrate-Gone, migrate_keys-Gone}

-- Where no error is reported, the key is gone.
abbrev Moves : (E : Engine) (P : Peer) → String → Option MoveError × World E P → Type 0
Moves E P j r = r.0 ≡ none → E.get_entry j r.1.0 ≡ none

module _ (E : Engine) (P : Peer) (EL : IsEngine E) (j : String) (e : Entry (E.Value)) where
  move-Moves :
      (replace : Bool) (a : Attempt) (ttl : ℕ) (u : List ℕ) (w : World E P)
      → Moves E P j (move E P replace a.wire j ttl u w)
  unfolding move
  move-Moves replace a ttl u (s, p) = elim (Option-cases (send P replace a.wire j ttl u p).0) [
    | inl q ↦ rw (move, q) (λ _. EL.get_entry-del j j s ∙ rw ((eq_iff j j).1 refl) refl)
    | inr (err, q) ↦ rw (move, q) (λ r. absurd (cc r))
  ]

  do_migrate-Moves :
      (replace : Bool) (a : Attempt) (w : World E P)
      → E.get_entry j w.0 ≡ some e
      → e.expire_at ≡ none
      → Moves E P j (do_migrate E P replace a j w)
  unfolding do_migrate move_entry ttl_of
  do_migrate-Moves replace a w h d = elim (Option-cases (E.serialize e)) [
    | inl f ↦ rw (do_migrate, h, ttl_of, d, move_entry, f) (λ r. absurd (cc r))
    | inr (u, f) ↦ rw (do_migrate, h, ttl_of, d, move_entry, f) (move-Moves replace a 0 u w)
  ]

  module _ (PL : IsPeer P) (v : List ℕ) (f : E.serialize e ≡ some v) (d : e.expire_at ≡ none) where
    do_migrate_either :
        (replace : Bool) (a : Attempt) (w : World E P)
        → IsSafe E P j e v w
        → ((do_migrate E P replace a j w).0 ≡ none
            → E.get_entry j (do_migrate E P replace a j w).1.0 ≡ none)
          ⊎ Gone E P EL j w
    do_migrate_either replace a w (here h) = inl (do_migrate-Moves replace a w h d)
    do_migrate_either replace a w (there h g) = inr h

    -- A series of attempts that reports no error has moved the key, unless there was none.
    retry-Moves :
        (n i : ℕ) (last : Option MoveError) (replace : Bool) (attempts : ℕ → Attempt)
        (w : World E P)
        → (n ≡ 0 → last ≢ none)
        → IsSafe E P j e v w
        → Moves E P j (retry E P n i last replace attempts j w)
    unfolding retry
    retry-Moves zero i last replace attempts w ne safe = λ r. absurd (ne refl r)
    retry-Moves (suc n) i last replace attempts w ne safe =
        let (err, w') = do_migrate E P replace (attempts i) j w in
        let one = do_migrate-Safe E P EL PL j e v replace (attempts i) j w f safe in
        if_keeps (Moves E P j) (ltb 0 i && (attempts i).cancel) (λ r. absurd (cc r))
          (elim (Option-cases err) [
            | inl q ↦ rw (retry, q) (λ _. attempted q)
            | inr (x, q) ↦
                rw (retry, q)
                  (if_keeps (Moves E P j) (is_busy x && not replace) (λ r. absurd (cc r))
                    (retry-Moves n (i + 1) err replace attempts w' (λ _ z. absurd (cc (z, q))) one))
          ])
      where
        attempted :
            (do_migrate E P replace (attempts i) j w).0 ≡ none
            → E.get_entry j (do_migrate E P replace (attempts i) j w).1.0 ≡ none
        attempted q = elim (do_migrate_either replace (attempts i) w safe) [
          | inl m ↦ m q
          | inr h ↦ do_migrate-Gone E P EL j replace (attempts i) j w h
        ]

-- What is reported with no error: all the keys moved, and none failed.
pub record IsDone (E : Engine) (P : Peer) (n : ℕ) (r : Ended E P) : Type 0 where
  pub status_of : r.1.status ≡ completed
  pub moved : r.1.migrated_keys ≡ n
  pub unfailed : r.1.failed_keys ≡ 0

module _ (E : Engine) (P : Peer) where
  -- A stop is an error.
  at_signal-elim :
      (Q : Ended E P → Type 0) (x : Signal) (p : MigrationProgress) (w : World E P) (r : Ended E P)
      → (r.0 ≡ none → Q r)
      → (at_signal E P x p w r).0 ≡ none
      → Q (at_signal E P x p w r)
  unfolding at_signal
  at_signal-elim Q go_on p w r h e = h e
  at_signal-elim Q context_done p w r h e = absurd (cc e)
  at_signal-elim Q stop p w r h e = absurd (cc e)

  -- A key that failed is remembered.
  migrate_keys-unfailed :
      (retries : ℕ) (replace : Bool) (runs : ℕ → KeyRun) (i : ℕ) (ks : List String)
      (p : MigrationProgress) (w : World E P)
      → (migrate_keys E P retries replace runs i ks (p, w)).0 ≡ none
      → p.failed_keys ≡ 0
  unfolding migrate_keys count_key
  migrate_keys-unfailed retries replace runs i [] p w e = ground (arith, e)
  migrate_keys-unfailed retries replace runs i (k ∷ ks) p w e =
      at_signal-elim (λ _. p.failed_keys ≡ 0) (runs i).signal p w _
        (λ e'.
          from_count (migrate_key E P retries replace (runs i).attempts k w).0
            (migrate_keys-unfailed retries replace runs (i + 1) ks _ _ e'))
        e
    where
      from_count :
          (err : Option MoveError) → (count_key E P err p).failed_keys ≡ 0 → p.failed_keys ≡ 0
      from_count none h = h
      from_count (some x) h = omega (arith, h)

  migrate_keys-IsDone :
      (retries : ℕ) (replace : Bool) (runs : ℕ → KeyRun) (i : ℕ) (ks : List String)
      (p : MigrationProgress) (w : World E P)
      → (migrate_keys E P retries replace runs i ks (p, w)).0 ≡ none
      → IsDone E P (p.migrated_keys + length ks) (migrate_keys E P retries replace runs i ks (p, w))
  unfolding migrate_keys count_key
  migrate_keys-IsDone retries replace runs i [] p w e =
      if_keeps_on (IsDone E P (p.migrated_keys + 0)) (p.failed_keys == 0)
        (λ z. record {
          status_of = refl;
          moved = omega arith;
          unfailed = (==_iff p.failed_keys 0).0 z;
        })
        (λ z. absurd (ground (arith, e, z)))
  migrate_keys-IsDone retries replace runs i (k ∷ ks) p w e =
      at_signal-elim (IsDone E P (p.migrated_keys + length (k ∷ ks))) (runs i).signal p w _
        (λ e'.
          counted (migrate_key E P retries replace (runs i).attempts k w).0 _
            (migrate_keys-unfailed retries replace runs (i + 1) ks _ _ e')
            (migrate_keys-IsDone retries replace runs (i + 1) ks _ _ e'))
        e
    where
      counted :
          (err : Option MoveError) (r : Ended E P)
          → (count_key E P err p).failed_keys ≡ 0
          → IsDone E P ((count_key E P err p).migrated_keys + length ks) r
          → IsDone E P (p.migrated_keys + suc (length ks)) r
      counted none r z d = record {
        status_of = d.status_of;
        moved = omega (arith, d.moved);
        unfailed = d.unfailed;
      }
      counted (some x) r z d = absurd (omega (arith, z))

-- The keys of the list.
abbrev pub IsListed : String → List String → Type 0
IsListed j = Among (λ k. k ≡ j)

module _ (E : Engine) (P : Peer) (EL : IsEngine E) (PL : IsPeer P) (j : String)
    (e : Entry (E.Value)) (v : List ℕ) (f : E.serialize e ≡ some v) (d : e.expire_at ≡ none) where
  migrate_keys-moves :
      (retries : ℕ) (replace : Bool) (runs : ℕ → KeyRun) (i : ℕ) (ks : List String)
      (p : MigrationProgress) (w : World E P)
      → 0 < retries
      → IsListed j ks
      → IsSafe E P j e v w
      → (migrate_keys E P retries replace runs i ks (p, w)).0 ≡ none
      → E.get_entry j (migrate_keys E P retries replace runs i ks (p, w)).2.0 ≡ none
  unfolding migrate_keys migrate_key
  migrate_keys-moves retries replace runs i [] p w r m safe ok = absurd m
  migrate_keys-moves retries replace runs i (k ∷ ks) p w r m safe ok =
      at_signal-elim E P (λ r. E.get_entry j r.2.0 ≡ none) (runs i).signal p w _
        (λ ok'. elim m [
          | inl same ↦ migrate_keys-Gone E P EL j retries replace runs (i + 1) ks _ _ (
              now_gone same (
                unfailed (migrate_key E P retries replace (runs i).attempts k w).0
                  (migrate_keys-unfailed E P retries replace runs (i + 1) ks _ _ ok')))
          | inr later ↦
              migrate_keys-moves retries replace runs (i + 1) ks _ _ r later
                (retry-Safe E P EL PL j e v retries 0 none replace (runs i).attempts k w f safe) ok'
        ])
        ok
    where
      unfailed : (err : Option MoveError) → (count_key E P err p).failed_keys ≡ 0 → err ≡ none
      unfailed none z = refl
      unfailed (some x) z = absurd (omega (arith, z))

      now_gone : k ≡ j → Moves E P j (retry E P retries 0 none replace (runs i).attempts k w)
      now_gone same =
          subst (λ x. Moves E P j (retry E P retries 0 none replace (runs i).attempts x w))
            (sym same)
            (retry-Moves E P EL j e PL v f d retries 0 none replace (runs i).attempts w
              (λ z. absurd (omega (arith, z, r))) safe)

-- A migration that reports success has tried each key of the slot at least once and moved them all: its
-- progress counts every key, none failed, and each key without a deadline is gone from here while the
-- other node has its value.
pub migrate_slot-moves :
    (E : Engine) (P : Peer) (j : String) (e : Entry (E.Value)) (v : List ℕ) (retries : ℕ)
    (replace : Bool) (runs : ℕ → KeyRun) (slot : ℕ) (w : World E P)
    → IsEngine E
    → IsPeer P
    → 0 < retries
    → IsListed j (E.keys_in_slot slot 0 w.0)
    → E.get_entry j w.0 ≡ some e
    → E.serialize e ≡ some v
    → e.expire_at ≡ none
    → (migrate_slot E P retries replace runs slot w).0 ≡ none
    → IsDone E P (length (E.keys_in_slot slot 0 w.0)) (migrate_slot E P retries replace runs slot w)
      × (E.get_entry j (migrate_slot E P retries replace runs slot w).2.0 ≡ none)
      × (P.acknowledged j (migrate_slot E P retries replace runs slot w).2.1 ≡ some v)
unfolding migrate_slot
migrate_slot-moves E P j e v retries replace runs slot w EL PL r m h f d ok =
    let keys = E.keys_in_slot slot 0 w.0 in
    let gone =
      migrate_keys-moves E P EL PL j e v f d retries replace runs 0 keys _ w r m (here h) ok in
    let done = migrate_keys-IsDone E P retries replace runs 0 keys _ w ok in
    (
      record {
        status_of = done.status_of;
        moved = omega (arith, done.moved);
        unfailed = done.unfailed;
      },
      gone,
      moved_to (migrate_keys-Safe E P EL PL j e v retries replace runs 0 keys _ w f (here h)) gone,
    )
  where
    moved_to :
        {u : World E P}
        → IsSafe E P j e v u
        → E.get_entry j u.0 ≡ none
        → P.acknowledged j u.1 ≡ some v
    moved_to (here x) g = absurd (cc (x, g))
    moved_to (there x y) g = y
