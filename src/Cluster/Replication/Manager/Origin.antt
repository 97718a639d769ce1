-- ===== src/Cluster/Replication/Manager/Origin.antt =====
-- internal/cluster/replication/manager.go: where the operation comes from that a write returns.
use autocache.Prelude.{ℕ, ◌≡◌, refl, sym, ◌∙◌, ap, Bool, true, false, Option, none, some}
use autocache.Cluster.Slots.{SlotManager}
use autocache.Cluster.Slots.Replicas.{Allocation, allocated, refused, allocate_lsn}
use autocache.Cluster.Replication.{Op, LogStore, append}
use autocache.Cluster.Replication.Manager.{
  Manager, WriteRequest, written, op_of, log_step, allocate_step, apply_step, callback_step,
  apply_write,
}

-- The operation is that of the request, with some epoch and number, and the callback succeeded and
-- left the engine as it is.
pub record Origin {A : Type 0} (req : WriteRequest A) (e : A) (op : Op) (e' : A) : Type 0 where
  pub epoch : ℕ
  pub lsn : ℕ
  pub callback : A → Bool × A
  pub same : op ≡ op_of req epoch lsn
  pub apply : req.apply ≡ some callback
  pub success : callback e ≡ (true, e')

same_op : (x y : Op) → written x ≡ written y → y ≡ x
same_op x y h = cc h

module _ {A : Type 0} (req : WriteRequest A) (op : Op) where
  from_log :
      (x : Op) (e : A) (m : Manager) (r : Bool × LogStore)
      → (log_step req x e m r).0 ≡ written op
      → (op ≡ x) × ((log_step req x e m r).1 ≡ e)
  unfolding log_step
  from_log x e m (true, logs) q = (same_op x op q, refl)
  from_log x e m (false, logs) q = absurd (cc q)

  from_allocation :
      (e : A) (m : Manager) (r : Allocation × SlotManager)
      → (allocate_step req e m r).0 ≡ written op
      → (epoch : ℕ) × (lsn : ℕ) × (op ≡ op_of req epoch lsn) × ((allocate_step req e m r).1 ≡ e)
  unfolding allocate_step
  from_allocation e m (refused err, slots) q = absurd (cc q)
  from_allocation e m (allocated epoch lsn, slots) q =
      let (same, kept) =
        from_log (op_of req epoch lsn) e (record m { slots = slots })
          (append (op_of req epoch lsn) m.logs) q in
      (epoch, lsn, same, kept)

  from_callback :
      (e : A) (m : Manager) (f : A → Bool × A) (r : Bool × A)
      → req.apply ≡ some f
      → f e ≡ r
      → (apply_step req m r).0 ≡ written op
      → Origin req e op (apply_step req m r).1
  unfolding apply_step
  from_callback e m f (false, e') a s q = absurd (cc q)
  from_callback e m f (true, e') a s q =
      let (epoch, lsn, same, kept) = from_allocation e' m (allocate_lsn req.slot m.slots) q in
      record {
        epoch = epoch;
        lsn = lsn;
        callback = f;
        same = same;
        apply = a;
        success = s ∙ ap (λ x. (true, x)) (sym kept);
      }

  pub apply_write-Origin :
      (e : A) (m : Manager)
      → (apply_write req e m).0 ≡ written op
      → Origin req e op (apply_write req e m).1
  unfolding apply_write callback_step
  apply_write-Origin e m = by req.apply refl
    where
      by :
          (o : Option (A → Bool × A))
          → req.apply ≡ o
          → (callback_step req e m o).0 ≡ written op
          → Origin req e op (callback_step req e m o).1
      by none a q = absurd (cc q)
      by (some f) a q = from_callback e m f (f e) a refl q
