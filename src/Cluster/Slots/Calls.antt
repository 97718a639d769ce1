-- ===== src/Cluster/Slots/Calls.antt =====
-- Any sequence of calls of the methods of `SlotManager` in internal/cluster/slots.go.
use autocache.Prelude.{
  ℕ, zero, suc, ◌+◌, ◌-◌, ◌≡◌, refl, ap, ◌∙◌, String, Option, none, some, List, [], ◌∷◌, arith,
  str_eq, ltb, if_keeps, OnSome, not, ◌||◌,
}
use autocache.Cluster.Hash.{slot_count}
use autocache.Cluster.Slots.{
  SlotReplica, SlotInfo, SlotManager, SlotError, replica_not_found, put_slot, mark_dirty,
  assign_slot, assign_from, assign_slot_range, set_owner,
}
use autocache.Cluster.Slots.Index.{IsIndexed, assign_checked-IsIndexed, set_owner-IsIndexed}
use autocache.Cluster.Slots.Replicas.{
  set_slot_config_epoch, configure_replication, add_slot_replica, attach_from, attach_replica,
  add_replica_to_master, allocate_lsn, update_replica_lsn, raise_lsn,
}
use autocache.Cluster.Slots.Promote.{promote_replica, promote_found, last_with}
use autocache.Cluster.Slots.Migrate.{set_importing, set_exporting, set_stable, finish_migration}

-- The methods that change the state, each with its arguments.
pub data Call : Type 0 where
  assign : ℕ → String → Call
  assign_range : ℕ → ℕ → String → Call
  config_epoch : ℕ → ℕ → Call
  configure : ℕ → String → List String → ℕ → Call
  slot_replica : ℕ → String → Call
  master_replica : String → String → ℕ → Call
  allocate : ℕ → Call
  replica_lsn : ℕ → String → ℕ → Call
  promote : ℕ → String → Call
  import_from : ℕ → String → Call
  export_to : ℕ → String → Call
  stable : ℕ → Call
  finish : ℕ → String → Call

-- The state after a call, whether it returns an error or not; `none` after a panic.
unfoldable pub perform : Call → SlotManager → Option SlotManager
perform (assign slot node) sm = some (assign_slot slot node sm).1
perform (assign_range first last node) sm = some (assign_slot_range first last node sm).1
perform (config_epoch slot epoch) sm = some (set_slot_config_epoch slot epoch sm)
perform (configure slot primary ids epoch) sm =
    some (configure_replication slot primary ids epoch sm).1
perform (slot_replica slot id) sm = some (add_slot_replica slot id sm)
perform (master_replica master id epoch) sm = some (add_replica_to_master master id epoch sm).1
perform (allocate slot) sm = some (allocate_lsn slot sm).1
perform (replica_lsn slot id lsn) sm = some (update_replica_lsn slot id lsn sm).1
perform (promote slot id) sm = some (promote_replica slot id sm).1
perform (import_from slot node) sm = set_importing slot node sm
perform (export_to slot node) sm = set_exporting slot node sm
perform (stable slot) sm = set_stable slot sm
perform (finish slot node) sm = finish_migration slot node sm

unfoldable pub perform_all : List Call → SlotManager → Option SlotManager
perform_all [] sm = some sm
perform_all (c ∷ cs) sm = elim (perform c sm) [ none ↦ none | some sm' ↦ perform_all cs sm' ]

pub assign_slot-IsIndexed :
    (slot : ℕ) (node : String) (sm : SlotManager)
    → IsIndexed sm
    → IsIndexed (assign_slot slot node sm).1
unfolding assign_slot
assign_slot-IsIndexed slot node sm h =
    if_keeps (λ (r : Option SlotError × SlotManager). IsIndexed r.1) (ltb slot slot_count)
      (assign_checked-IsIndexed sm slot node h) h

assign_from-IsIndexed :
    (n slot : ℕ) (node : String) (sm : SlotManager)
    → IsIndexed sm
    → IsIndexed (assign_from n slot node sm).1
unfolding assign_from
assign_from-IsIndexed zero slot node sm h = h
assign_from-IsIndexed (suc n) slot node sm h =
    next (assign_slot slot node sm) (assign_slot-IsIndexed slot node sm h) (
      assign_from-IsIndexed n (slot + 1) node (assign_slot slot node sm).1
        (assign_slot-IsIndexed slot node sm h))
  where
    next :
        (r : Option SlotError × SlotManager)
        → IsIndexed r.1
        → IsIndexed (assign_from n (slot + 1) node r.1).1
        → IsIndexed
            (elim r.0 as (λ _. Option SlotError × SlotManager) [
              | none ↦ assign_from n (slot + 1) node r.1
              | some err ↦ (some err, r.1)
            ]).1
    next (none, sm') old new = new
    next (some err, sm') old new = old

-- Two states with the same owners and the same index.
record SameOwners (a b : SlotManager) : Type 0 where
  index : a.node_slots ≡ b.node_slots
  owner : (s : ℕ) → (a.slots s).node_id ≡ (b.slots s).node_id

SameOwners-IsIndexed : {a b : SlotManager} → SameOwners a b → IsIndexed a → IsIndexed b
SameOwners-IsIndexed e h = record {
  listed = λ node slot hn. rw (← e.index, ← e.owner slot) (h.listed node slot hn);
}

SameOwners-refl : (a : SlotManager) → SameOwners a a
SameOwners-refl a = record { index = refl; owner = λ s. refl }

SameOwners-trans : {a b c : SlotManager} → SameOwners a b → SameOwners b c → SameOwners a c
SameOwners-trans p q = record { index = p.index ∙ q.index; owner = λ s. p.owner s ∙ q.owner s }

mark_dirty-SameOwners : (sm : SlotManager) → SameOwners sm (mark_dirty sm)
unfolding mark_dirty
mark_dirty-SameOwners sm = record { index = refl; owner = λ s. refl }

-- Writing an entry with the same owner changes no owner.
put_slot-SameOwners :
    (sm : SlotManager) (slot : ℕ) (info : SlotInfo)
    → (sm.slots slot).node_id ≡ info.node_id
    → SameOwners sm (put_slot sm slot info)
unfolding put_slot
put_slot-SameOwners sm slot info e = record {
  index = refl;
  owner = λ s. ground (arith, ap (λ i. (sm.slots i).node_id));
}

attach_from-SameOwners :
    (n slot : ℕ) (master replica : String) (epoch k : ℕ) (sm : SlotManager)
    → SameOwners sm (attach_from n slot master replica epoch k sm).1
unfolding attach_from attach_replica
attach_from-SameOwners zero slot master replica epoch k sm = SameOwners-refl sm
attach_from-SameOwners (suc n) slot master replica epoch k sm =
    SameOwners-trans
      (if_keeps (SameOwners sm) (str_eq (sm.slots slot).node_id master)
        (put_slot-SameOwners sm slot (attach_replica master replica epoch (sm.slots slot)) refl)
        (SameOwners-refl sm))
      (attach_from-SameOwners n (slot + 1) master replica epoch _ _)

-- The methods that write an entry and leave its owner.
kept :
    (sm : SlotManager) (slot : ℕ) (info : SlotInfo)
    → (sm.slots slot).node_id ≡ info.node_id
    → IsIndexed sm
    → IsIndexed (mark_dirty (put_slot sm slot info))
kept sm slot info e h =
    SameOwners-IsIndexed
      (SameOwners-trans (put_slot-SameOwners sm slot info e) (mark_dirty-SameOwners _)) h

abbrev IsIndexedAfter {ℓ} : {A : Type ℓ} → A × SlotManager → Type 0
IsIndexedAfter r = IsIndexed r.1

configure_replication-IsIndexed :
    (slot : ℕ) (primary : String) (ids : List String) (epoch : ℕ) (sm : SlotManager)
    → IsIndexed sm
    → IsIndexed (configure_replication slot primary ids epoch sm).1
unfolding configure_replication
configure_replication-IsIndexed slot primary ids epoch sm h =
    if_keeps IsIndexedAfter (ltb slot slot_count)
      (kept (set_owner sm slot primary) slot _ refl (set_owner-IsIndexed sm slot primary h)) h

add_slot_replica-IsIndexed :
    (slot : ℕ) (id : String) (sm : SlotManager)
    → IsIndexed sm
    → IsIndexed (add_slot_replica slot id sm)
unfolding add_slot_replica
add_slot_replica-IsIndexed slot id sm h = if_keeps IsIndexed _ h (kept sm slot _ refl h)

add_replica_to_master-IsIndexed :
    (master replica : String) (epoch : ℕ) (sm : SlotManager)
    → IsIndexed sm
    → IsIndexed (add_replica_to_master master replica epoch sm).1
unfolding add_replica_to_master
add_replica_to_master-IsIndexed master replica epoch sm h =
    if_keeps IsIndexedAfter (str_eq master "" || str_eq replica "" || str_eq master replica) h
      (if_keeps IsIndexed _ (SameOwners-IsIndexed (mark_dirty-SameOwners _) loop) loop)
  where
    loop : IsIndexed (attach_from slot_count 0 master replica epoch 0 sm).1
    loop = SameOwners-IsIndexed (attach_from-SameOwners slot_count 0 master replica epoch 0 sm) h

allocate_lsn-IsIndexed :
    (slot : ℕ) (sm : SlotManager) → IsIndexed sm → IsIndexed (allocate_lsn slot sm).1
unfolding allocate_lsn
allocate_lsn-IsIndexed slot sm h =
    if_keeps IsIndexedAfter (not (ltb slot slot_count)) h
      (if_keeps IsIndexedAfter (str_eq (sm.slots slot).node_id "") h (kept sm slot _ refl h))

update_replica_lsn-IsIndexed :
    (slot : ℕ) (id : String) (lsn : ℕ) (sm : SlotManager)
    → IsIndexed sm
    → IsIndexed (update_replica_lsn slot id lsn sm).1
unfolding update_replica_lsn
update_replica_lsn-IsIndexed slot id lsn sm h =
    if_keeps IsIndexedAfter (ltb slot slot_count)
      (found (raise_lsn id lsn (sm.slots slot).replicas)) h
  where
    found :
        (o : Option (List SlotReplica))
        → IsIndexed
            (elim o as (λ _. Option SlotError × SlotManager) [
              | none ↦ (some (replica_not_found id slot), sm)
              | some rs ↦
                  (none, mark_dirty (put_slot sm slot (record (sm.slots slot) { replicas = rs })))
            ]).1
    found none = h
    found (some rs) = kept sm slot _ refl h

promote_replica-IsIndexed :
    (slot : ℕ) (id : String) (sm : SlotManager)
    → IsIndexed sm
    → IsIndexed (promote_replica slot id sm).1
unfolding promote_replica
promote_replica-IsIndexed slot id sm h =
    if_keeps IsIndexedAfter (ltb slot slot_count)
      (found (last_with id (sm.slots slot).replicas none)) h
  where
    found :
        (o : Option SlotReplica)
        → IsIndexed
            (elim o as (λ _. Option SlotError × SlotManager) [
              | none ↦ (some (replica_not_found id slot), sm)
              | some promoted ↦ (none, promote_found slot id promoted sm)
            ]).1
    found none = h
    found (some promoted) =
        kept (set_owner sm slot id) slot _ refl (set_owner-IsIndexed sm slot id h)

-- No call breaks the index: where it returns, with an error or without, every slot stands once in
-- the list of its owner and in no other list.
pub perform-IsIndexed :
    (c : Call) (sm : SlotManager) → IsIndexed sm → OnSome IsIndexed (perform c sm)
unfolding perform set_slot_config_epoch assign_slot_range set_importing set_exporting set_stable
    finish_migration
perform-IsIndexed (assign slot node) sm h = assign_slot-IsIndexed slot node sm h
perform-IsIndexed (assign_range first last node) sm h =
    assign_from-IsIndexed (last + 1 - first) first node sm h
perform-IsIndexed (config_epoch slot epoch) sm h = SameOwners-IsIndexed (mark_dirty-SameOwners _) (
    if_keeps IsIndexed (ltb slot slot_count)
      (SameOwners-IsIndexed (put_slot-SameOwners sm slot _ refl) h) h)
perform-IsIndexed (configure slot primary ids epoch) sm h =
    configure_replication-IsIndexed slot primary ids epoch sm h
perform-IsIndexed (slot_replica slot id) sm h = add_slot_replica-IsIndexed slot id sm h
perform-IsIndexed (master_replica master id epoch) sm h =
    add_replica_to_master-IsIndexed master id epoch sm h
perform-IsIndexed (allocate slot) sm h = allocate_lsn-IsIndexed slot sm h
perform-IsIndexed (replica_lsn slot id lsn) sm h = update_replica_lsn-IsIndexed slot id lsn sm h
perform-IsIndexed (promote slot id) sm h = promote_replica-IsIndexed slot id sm h
perform-IsIndexed (import_from slot node) sm h =
    if_keeps (OnSome IsIndexed) (ltb slot slot_count) (kept sm slot _ refl h) tt
perform-IsIndexed (export_to slot node) sm h =
    if_keeps (OnSome IsIndexed) (ltb slot slot_count) (kept sm slot _ refl h) tt
perform-IsIndexed (stable slot) sm h =
    if_keeps (OnSome IsIndexed) (ltb slot slot_count) (kept sm slot _ refl h) tt
perform-IsIndexed (finish slot node) sm h =
    if_keeps (OnSome IsIndexed) (ltb slot slot_count)
      (kept (set_owner sm slot node) slot _ refl (set_owner-IsIndexed sm slot node h)) tt

-- The index is kept by any sequence of calls: when each slot stands exactly once in the list of the
-- node that owns it and in the list of no other node, the same holds after the calls, unless one of
-- them panics.
pub perform_all-IsIndexed :
    (cs : List Call) (sm : SlotManager) → IsIndexed sm → OnSome IsIndexed (perform_all cs sm)
unfolding perform_all
perform_all-IsIndexed [] sm h = h
perform_all-IsIndexed (c ∷ cs) sm h =
    after (perform c sm) (perform-IsIndexed c sm h) (λ sm' k. perform_all-IsIndexed cs sm' k)
  where
    after :
        (o : Option SlotManager)
        → OnSome IsIndexed o
        → ((sm' : SlotManager) → IsIndexed sm' → OnSome IsIndexed (perform_all cs sm'))
        → OnSome IsIndexed
            (elim o as (λ _. Option SlotManager) [ none ↦ none | some sm' ↦ perform_all cs sm' ])
    after none k rest = tt
    after (some sm') k rest = rest sm' k
