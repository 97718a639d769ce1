-- ===== src/Cluster/Replication/Manager/Stuck.antt =====
-- internal/cluster/replication/manager.go: a slot whose log has fallen behind the numbers that the
-- slot manager allocates. `AllocateLSN` and `Append` are two steps, and only the first is saved over
-- a restart, so the two can part.
use autocache.Prelude.{
  ℕ, ◌+◌, ◌^◌, ◌<◌, ◌≡◌, refl, sym, subst, Bool, true, false, Option, none, some, arith, inl, inr,
}
use autocache.Cluster.Slots.{SlotManager}
use autocache.Cluster.Slots.Replicas.{Allocation, allocate_lsn}
use autocache.Cluster.Replication.{Op, LogStore, append, value_of}
use autocache.Cluster.Replication.Manager.{
  Manager, WriteRequest, op_of, log_step, allocate_step, apply_step, callback_step, apply_write,
}
use autocache.Cluster.Replication.Manager.Stream.{Allocates, allocate_cases}

-- The log ends before the last number that was allocated, and there is a next number.
pub record IsBehind (slot : ℕ) (m : Manager) : Type 0 where
  pub behind : value_of (m.logs.last slot) < (m.slots.slots slot).next_lsn
  pub room : (m.slots.slots slot).next_lsn + 1 < 2 ^ 64

-- Nothing is logged or dispatched, and the log stays behind.
abbrev pub Blocked : ℕ → Manager → Manager → Type 0
Blocked slot m m' =
    (m'.logs ≡ m.logs)
    × (m'.dispatched ≡ m.dispatched)
    × (value_of (m'.logs.last slot) < (m'.slots.slots slot).next_lsn)

append-refused :
    (op : Op) (s : LogStore)
    → value_of (s.last op.slot) + 1 < op.lsn
    → op.lsn < 2 ^ 64
    → append op s ≡ (false, s)
unfolding append
append-refused op s lt small = ground arith

module _ {A : Type 0} (req : WriteRequest A) (m : Manager) (h : IsBehind req.slot m) where
  allocate_step-Blocked :
      (e : A) (r : Allocation × SlotManager)
      → Allocates req.slot m.slots r
      → Blocked req.slot m (allocate_step req e m r).2
  unfolding allocate_step log_step
  allocate_step-Blocked e r (inl (err, eq)) =
      subst (λ r. Blocked req.slot m (allocate_step req e m r).2) (sym eq) (refl, refl, h.behind)
  allocate_step-Blocked e r (inr (sm', eq, next)) =
      subst (λ r. Blocked req.slot m (allocate_step req e m r).2) (sym eq)
        (subst (λ w. Blocked req.slot m (log_step req op e (record m { slots = sm' }) w).2)
          (sym (append-refused op m.logs (omega (arith, h.behind)) h.room))
          (refl, refl, omega (arith, h.behind, next)))
    where
      op : Op
      op = op_of req (m.slots.slots req.slot).config_epoch ((m.slots.slots req.slot).next_lsn + 1)

  callback_step-Blocked :
      (e : A) (o : Option (A → Bool × A)) → Blocked req.slot m (callback_step req e m o).2
  unfolding callback_step
  callback_step-Blocked e none = (refl, refl, h.behind)
  callback_step-Blocked e (some f) = by_result (f e)
    where
      by_result : (r : Bool × A) → Blocked req.slot m (apply_step req m r).2
      by_result (true, e') =
          allocate_step-Blocked e' (allocate_lsn req.slot m.slots)
            (allocate_cases req.slot m.slots h.room)
      by_result (false, e') = (refl, refl, h.behind)

-- Once the log of a slot is behind the allocated numbers, a write to the slot never gets into the
-- log and is never dispatched to a replica, whatever it is, and it leaves the log behind.
pub apply_write_behind :
    {A : Type 0} (req : WriteRequest A) (e : A) (m : Manager)
    → IsBehind req.slot m
    → Blocked req.slot m (apply_write req e m).2
unfolding apply_write
apply_write_behind req e m h = callback_step-Blocked req m h e req.apply
