-- ===== src/Engine/Dict/Runs.antt =====
-- internal/engine/memory/dict.go: any sequence of its methods, at any times, against one map.
use mathlib.Core.Path.{fun_ext}
use autocache.Prelude.{ℕ, ◌≡◌, refl, ap, ap₂, ◌∙◌, String, Option, none, List, [], ◌∷◌, update_key}
use autocache.Engine.Dict.{Entry, Dict, new_dict, find}
use autocache.Engine.Dict.Refine.{IsDict, new_dict-IsDict, Call, Answer, run, change, run-Acts}

-- A method, the key that it is called on, and the time.
pub record Step (A : Type 0) : Type 0 where
  pub now : ℕ
  pub key : String
  pub call : Call A

module _ (maphash : String → ℕ) {A : Type 0} where
  unfoldable pub run_all : List (Step A) → Dict A → List (Answer A) × Dict A
  run_all [] d = ([], d)
  run_all (s ∷ ss) d =
      let (a, d') = run maphash s.now s.key s.call d in
      let (as', d'') = run_all ss d' in (a ∷ as', d'')

-- The same steps on one map from keys to entries.
unfoldable pub change_all :
    {A : Type 0}
    → List (Step A)
    → (String → Option (Entry A))
    → List (Answer A) × (String → Option (Entry A))
change_all [] m = ([], m)
change_all (s ∷ ss) m =
    let (a, o) = change s.now s.call (m s.key) in
    let (as', m') = change_all ss (update_key m s.key o) in (a ∷ as', m')

-- From a new dictionary of any number of shards, with any hash of the keys, a sequence of calls gives
-- the answers that one empty map gives, and ends with the entries of that map.
pub runs_lem :
    {A : Type 0} (maphash : String → ℕ) (count : ℕ) (ss : List (Step A))
    → let r = run_all maphash ss (new_dict count) in
      (r.0 ≡ (change_all ss (λ _. none)).0)
      × ((key : String) → find maphash key r.1 ≡ (change_all ss (λ _. none)).1 key)
unfolding run_all change_all
runs_lem {A} maphash count ss = from ss (new_dict count) (new_dict-IsDict count)
  where
    -- From any good dictionary, against the map of its entries.
    from :
        (ts : List (Step A)) (d : Dict A)
        → IsDict d
        → let r = run_all maphash ts d in
          (r.0 ≡ (change_all ts (λ k. find maphash k d)).0)
          × ((key : String) → find maphash key r.1 ≡ (change_all ts (λ k. find maphash k d)).1 key)
    from [] d h = (refl, λ key. refl)
    from (t ∷ ts) d h =
        let act = run-Acts maphash t.now t.key t.call d h in
        let rest = from ts (run maphash t.now t.key t.call d).1 act.good in
        let same = fun_ext (λ j. act.found j) in
        (
          ap₂ (λ a as'. a ∷ as') act.answer (rest.0 ∙ ap (λ m. (change_all ts m).0) same),
          λ key. rest.1 key ∙ ap (λ m. (change_all ts m).1 key) same,
        )
