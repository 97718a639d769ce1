-- ===== src/Cluster/Replication/Log.antt =====
-- internal/cluster/replication/log.go: the log of a slot holds an unbroken run of operations.
use autocache.Prelude.{
  ℕ, zero, suc, ◌+◌, ◌-◌, ◌%◌, ◌^◌, ◌≤◌, ◌<◌, ◌≡◌, ◌≢◌, refl, sym, ap, subst, ◌∙◌, Bool, true,
  false, Option, none, some, List, [], ◌∷◌, ◌++◌, arith, inl, inr, length, drop, length-drop, ltb,
  ◌==◌, ==_iff, if_keeps, if_keeps_on, Bool-cases, All,
}
use autocache.Cluster.Replication.{
  Op, LogStore, new_log_store, value_of, trim, first_of_log, append_checked, append,
}

-- Operations with the numbers `lo`, `lo + 1`, … up to, and without, `hi`.
abbrev pub Run : ℕ → List Op → ℕ → Type 0
Run lo [] hi = lo ≡ hi
Run lo (op ∷ log) hi = (op.lsn ≡ lo) × Run (lo + 1) log hi

-- The log against the numbers of its oldest and its newest operation. Numbers are uint64 values.
abbrev pub LogShape : List Op → Option ℕ → Option ℕ → Type 0
LogShape log first none = (log ≡ []) × (first ≡ none)
LogShape log first (some l) = (l < 2 ^ 64) × Run (value_of first) log (l + 1) × (value_of first ≤ l)

-- The log of one slot.
pub record IsLog (slot : ℕ) (s : LogStore) : Type 0 where
  pub positive : 0 < s.limit
  pub bounded : length (s.logs slot) ≤ s.limit
  pub shape : LogShape (s.logs slot) (s.first slot) (s.last slot)
  pub own : All (λ op. op.slot ≡ slot) (s.logs slot)

Run-length : (lo hi : ℕ) (log : List Op) → Run lo log hi → lo + length log ≡ hi
Run-length lo hi [] h = omega arith
Run-length lo hi (op ∷ log) h = omega (arith, Run-length (lo + 1) hi log h.1)

Run-snoc :
    (lo hi : ℕ) (log : List Op) (op : Op)
    → Run lo log hi
    → op.lsn ≡ hi
    → Run lo (log ++ op ∷ []) (hi + 1)
Run-snoc lo hi [] op h e = (e ∙ sym h, ap (λ (n : ℕ). n + 1) h)
Run-snoc lo hi (o ∷ log) op h e = (h.0, Run-snoc (lo + 1) hi log op h.1 e)

Run-drop :
    (n lo hi : ℕ) (log : List Op) → Run lo log hi → n ≤ length log → Run (lo + n) (drop n log) hi
Run-drop zero lo hi log h p = subst (λ (k : ℕ). Run k log hi) (omega arith) h
Run-drop (suc n) lo hi [] h p = absurd (omega arith)
Run-drop (suc n) lo hi (op ∷ log) h p =
    subst (λ (k : ℕ). Run k (drop n log) hi) (omega arith)
      (Run-drop n (lo + 1) hi log h.1 (omega arith))

first_of_log-Run :
    (lo hi n : ℕ) (log : List Op) (before : Option ℕ)
    → Run lo log hi
    → lo < hi
    → value_of (first_of_log log before n) ≡ lo
unfolding first_of_log
first_of_log-Run lo hi n [] before h p = absurd (omega arith)
first_of_log-Run lo hi n (op ∷ log) before h p = h.0

All-append : (P : Op → Type 0) (xs ys : List Op) → All P xs → All P ys → All P (xs ++ ys)
All-append P [] ys h k = k
All-append P (x ∷ xs) ys h k = (h.0, All-append P xs ys h.1 k)

All-drop : (P : Op → Type 0) (n : ℕ) (xs : List Op) → All P xs → All P (drop n xs)
All-drop P zero xs h = h
All-drop P (suc n) [] h = tt
All-drop P (suc n) (x ∷ xs) h = All-drop P n xs h.1

-- After trimming, the log is a run to the same end, within the limit, and not empty.
trim-Run :
    (limit lo hi : ℕ) (log : List Op)
    → 0 < limit
    → Run lo log hi
    → lo < hi
    → (k : ℕ) × Run k (trim limit log) hi × (k < hi) × (length (trim limit log) ≤ limit)
unfolding trim
trim-Run limit lo hi log pos h p =
    if_keeps_on (λ t. (k : ℕ) × Run k t hi × (k < hi) × (length t ≤ limit)) (ltb limit (length log))
      (λ e. (
        lo + (length log - limit),
        Run-drop (length log - limit) lo hi log h (omega arith),
        ground (arith, Run-length lo hi log h),
        ground (arith, length-drop (length log - limit) log),
      ))
      (λ e. (lo, h, p, ground arith))

-- A new log store has a good log for every slot.
new_log_store-IsLog : (limit slot : ℕ) → IsLog slot (new_log_store limit)
new_log_store-IsLog limit slot = record {
  positive = ground arith;
  bounded = ground arith;
  shape = (refl, refl);
  own = tt;
}

-- The whole log before it is trimmed.
extended-Run :
    (log : List Op) (first last : Option ℕ) (op : Op)
    → LogShape log first last
    → op.lsn ≡ (value_of last + 1) % 2 ^ 64
    → op.lsn ≢ 0
    → (lo : ℕ) × Run lo (log ++ op ∷ []) (op.lsn + 1) × (lo ≤ op.lsn) × (op.lsn < 2 ^ 64)
extended-Run log first none op h e ne = (
  op.lsn,
  subst (λ l. Run op.lsn (l ++ op ∷ []) (op.lsn + 1)) (sym h.0) (refl, refl),
  omega arith,
  omega arith,
)
extended-Run log first (some l) op h e ne = (
  value_of first,
  Run-snoc (value_of first) op.lsn log op
      (subst (λ (n : ℕ). Run (value_of first) log n) (omega arith) h.1) refl,
  omega arith,
  omega arith,
)

trimmed-shape :
    (log : List Op) (lo lsn : ℕ) (before : Option ℕ)
    → Run lo log (lsn + 1)
    → lo < lsn + 1
    → lsn < 2 ^ 64
    → LogShape log (first_of_log log before lsn) (some lsn)
trimmed-shape log lo lsn before run p small =
    (small, rw first_is_lo run, rw first_is_lo (omega arith))
  where
    first_is_lo : value_of (first_of_log log before lsn) ≡ lo
    first_is_lo = first_of_log-Run lo (lsn + 1) lsn log before run p

All-trim : (P : Op → Type 0) (limit : ℕ) (log : List Op) → All P log → All P (trim limit log)
unfolding trim
All-trim P limit log h =
    if_keeps (All P) (ltb limit (length log)) (All-drop P (length log - limit) log h) h

append_own-IsLog :
    (op : Op) (s : LogStore)
    → op.lsn ≢ 0
    → op.lsn ≡ (value_of (s.last op.slot) + 1) % 2 ^ 64
    → IsLog op.slot s
    → IsLog op.slot (append_checked op s)
unfolding append_checked
append_own-IsLog op s ne e h =
    let (lo, run, le, small) =
      extended-Run (s.logs op.slot) (s.first op.slot) (s.last op.slot) op h.shape e ne in
    let (k, run', lt, fits) = trim-Run s.limit lo (op.lsn + 1) _ h.positive run (omega arith) in
    record {
      positive = h.positive;
      bounded = rw here fits;
      shape = rw here (trimmed-shape _ k op.lsn (s.first op.slot) run' lt small);
      own =
          rw here (All-trim _ s.limit _ (All-append _ (s.logs op.slot) (op ∷ []) h.own (refl, tt)));
    }
  where
    here : (op.slot == op.slot) ≡ true
    here = ground arith

append_other-IsLog :
    (slot : ℕ) (op : Op) (s : LogStore)
    → (op.slot == slot) ≡ false
    → IsLog slot s
    → IsLog slot (append_checked op s)
unfolding append_checked
append_other-IsLog slot op s e h = record {
  positive = h.positive;
  bounded = rw e h.bounded;
  shape = rw e h.shape;
  own = rw e h.own;
}

-- Appending an operation whose number is not 0, in order or not, keeps the log of every slot an
-- unbroken run of that slot's operations, no longer than the limit, that ends at the number of the
-- last operation and begins at the recorded first one.
pub append-IsLog :
    (slot : ℕ) (op : Op) (s : LogStore) → op.lsn ≢ 0 → IsLog slot s → IsLog slot (append op s).1
unfolding append
append-IsLog slot op s ne h =
    if_keeps_on (λ (r : Bool × LogStore). IsLog slot r.1)
      (op.lsn == (value_of (s.last op.slot) + 1) % 2 ^ 64)
      (λ e. elim (Bool-cases (op.slot == slot)) [
        | inl e' ↦
            subst (λ n. IsLog n (append_checked op s)) ((==_iff _ _).0 e')
              (append_own-IsLog op s ne ((==_iff _ _).0 e)
                (subst (λ n. IsLog n s) (sym ((==_iff op.slot slot).0 e')) h))
        | inr e' ↦ append_other-IsLog slot op s e' h
      ])
      (λ e. h)
