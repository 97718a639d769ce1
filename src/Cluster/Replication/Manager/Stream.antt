-- ===== src/Cluster/Replication/Manager/Stream.antt =====
-- internal/cluster/replication/manager.go: the numbers of the operations that a primary writes.
use autocache.Prelude.{
  ℕ, ◌+◌, ◌^◌, ◌<◌, ◌≡◌, refl, sym, ap, subst, ◌∙◌, Bool, true, false, not, Option, none, some, [],
  ◌∷◌, ◌++◌, arith, ◌⊎◌, inl, inr, str_eq, ltb, if_keeps_on,
}
use autocache.Cluster.Hash.{slot_count}
use autocache.Cluster.Slots.{
  SlotManager, SlotError, invalid_slot, not_assigned, mark_dirty, put_slot,
}
use autocache.Cluster.Slots.Replicas.{Allocation, allocated, refused, allocate_lsn, next64}
use autocache.Cluster.Replication.{Op, LogStore, append, value_of}
use autocache.Cluster.Replication.Log.{IsLog, append-IsLog}
use autocache.Cluster.Replication.Manager.{
  Manager, WriteRequest, Written, written, no_callback, apply_failed, out_of_order, not_allocated,
  op_of, log_step, allocate_step, apply_step, callback_step, apply_write,
}

-- The log of the slot ends at the last number that was allocated, and there is a next number.
pub record InStep (slot : ℕ) (m : Manager) : Type 0 where
  pub log : IsLog slot m.logs
  pub level : value_of (m.logs.last slot) ≡ (m.slots.slots slot).next_lsn
  pub room : (m.slots.slots slot).next_lsn + 1 < 2 ^ 64

-- What a write in step does, for each of its results.
abbrev pub Effect : ℕ → Manager → Written → Manager → Type 0
Effect slot m (written op) m' =
    (op.slot ≡ slot)
    × (op.lsn ≡ (m.slots.slots slot).next_lsn + 1)
    × (op.epoch ≡ (m.slots.slots slot).config_epoch)
    × (m'.dispatched ≡ m.dispatched ++ op ∷ [])
    × (value_of (m'.logs.last slot) ≡ (m'.slots.slots slot).next_lsn)
    × IsLog slot m'.logs
Effect slot m out_of_order m' = ⊥
Effect slot m no_callback m' = m' ≡ m
Effect slot m apply_failed m' = m' ≡ m
Effect slot m (not_allocated e) m' = m' ≡ m

-- What an allocation returns, where there is a next number.
abbrev pub Allocates : ℕ → SlotManager → Allocation × SlotManager → Type 0
Allocates slot sm r =
    ((e : SlotError) × (r ≡ (refused e, sm)))
    ⊎ ((sm' : SlotManager) × (r
          ≡ (allocated (sm.slots slot).config_epoch ((sm.slots slot).next_lsn + 1), sm'))
        × ((sm'.slots slot).next_lsn ≡ (sm.slots slot).next_lsn + 1))

pub allocate_cases :
    (slot : ℕ) (sm : SlotManager)
    → (sm.slots slot).next_lsn + 1 < 2 ^ 64
    → Allocates slot sm (allocate_lsn slot sm)
unfolding allocate_lsn
allocate_cases slot sm room =
    if_keeps_on (Allocates slot sm) (not (ltb slot slot_count)) (λ _. inl (invalid_slot slot, refl))
      (λ _.
        if_keeps_on (Allocates slot sm) (str_eq (sm.slots slot).node_id "")
          (λ _. inl (not_assigned slot, refl))
          (λ _.
            inr
              (sm', ap (λ n. (allocated (sm.slots slot).config_epoch n, sm')) fits, ground arith)))
  where
    fits : next64 (sm.slots slot).next_lsn ≡ (sm.slots slot).next_lsn + 1
    fits = omega arith

    sm' : SlotManager
    sm' =
        mark_dirty
          (put_slot sm slot (record (sm.slots slot) { next_lsn = next64 (sm.slots slot).next_lsn }))

append-next :
    (op : Op) (s : LogStore)
    → op.lsn ≡ value_of (s.last op.slot) + 1
    → op.lsn < 2 ^ 64
    → ((append op s).0 ≡ true) × (value_of ((append op s).1.last op.slot) ≡ op.lsn)
unfolding append
append-next op s e small = (ground arith, ground arith)

module _ {A : Type 0} (req : WriteRequest A) (m : Manager) (h : InStep req.slot m) where
  log_step-Effect :
      (op : Op) (e : A) (sm' : SlotManager) (r : Bool × LogStore)
      → r.0 ≡ true
      → (op.slot ≡ req.slot)
        × (op.lsn ≡ (m.slots.slots req.slot).next_lsn + 1)
        × (op.epoch ≡ (m.slots.slots req.slot).config_epoch)
      → (value_of (r.1.last req.slot) ≡ (sm'.slots req.slot).next_lsn)
      → IsLog req.slot r.1
      → let w = log_step req op e (record m { slots = sm' }) r in Effect req.slot m w.0 w.2
  unfolding log_step
  log_step-Effect op e sm' (true, logs) ok facts level log =
      (facts.0, facts.1, facts.2, refl, level, log)
  log_step-Effect op e sm' (false, logs) ok facts level log = cc

  allocate_step-Effect :
      (e : A) (r : Allocation × SlotManager)
      → Allocates req.slot m.slots r
      → let w = allocate_step req e m r in Effect req.slot m w.0 w.2
  unfolding allocate_step
  allocate_step-Effect e r (inl (err, eq)) =
      subst (λ r. let w = allocate_step req e m r in Effect req.slot m w.0 w.2) (sym eq) refl
  allocate_step-Effect e r (inr (sm', eq, next)) =
      subst (λ r. let w = allocate_step req e m r in Effect req.slot m w.0 w.2) (sym eq)
        (log_step-Effect op e sm' (append op m.logs) done.0 (refl, refl, refl) (done.1 ∙ sym next)
          (append-IsLog req.slot op m.logs (omega arith) h.log))
    where
      op : Op
      op = op_of req (m.slots.slots req.slot).config_epoch ((m.slots.slots req.slot).next_lsn + 1)

      done :
          ((append op m.logs).0 ≡ true) × (value_of ((append op m.logs).1.last req.slot) ≡ op.lsn)
      done = append-next op m.logs (ap (λ (n : ℕ). n + 1) (sym h.level)) h.room

  apply_step-Effect : (r : Bool × A) → let w = apply_step req m r in Effect req.slot m w.0 w.2
  unfolding apply_step
  apply_step-Effect (true, e) =
      allocate_step-Effect e (allocate_lsn req.slot m.slots)
        (allocate_cases req.slot m.slots h.room)
  apply_step-Effect (false, e) = refl

-- A write that no other write of the manager overlaps, to a slot whose log ends at the last number
-- allocated, with a next number left, is not refused as out of order. It returns an operation of the slot with the next number and the slot's
-- epoch, which is dispatched last, and the log still ends at the last number and is unbroken; or it
-- fails before the log, and the manager is as it was.
pub apply_write-InStep :
    {A : Type 0} (req : WriteRequest A) (e : A) (m : Manager)
    → InStep req.slot m
    → Effect req.slot m (apply_write req e m).0 (apply_write req e m).2
unfolding apply_write
apply_write-InStep {A} req e m h = by_callback req.apply
  where
    by_callback :
        (o : Option (A → Bool × A)) → let w = callback_step req e m o in Effect req.slot m w.0 w.2
    by_callback none = refl
    by_callback (some f) = apply_step-Effect req m h (f e)
