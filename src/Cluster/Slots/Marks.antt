-- ===== src/Cluster/Slots/Marks.antt =====
-- internal/cluster/slots.go: the owner of a slot that a migration marks.
use autocache.Prelude.{
  ℕ, ◌<◌, String, ◌≡◌, refl, ap, ◌∙◌, Option, none, some, arith, ltb, ◌==◌, if◌then◌else◌, lt→ltb,
  if_keeps_on,
}
use autocache.Cluster.Hash.{slot_count}
use autocache.Cluster.Slots.{SlotManager, SlotInfo, mark_dirty, put_slot, set_owner}
use autocache.Cluster.Slots.Promote.Effect.{slots-set_owner}
use autocache.Cluster.Slots.Migrate.{set_exporting, set_stable, finish_migration}

-- The call returns a manager, in which the slot has the owner.
abbrev pub Owned : ℕ → String → Option SlotManager → Type 0
Owned slot owner o = (sm : SlotManager) × (o ≡ some sm) × ((sm.slots slot).node_id ≡ owner)

marked :
    (slot : ℕ) (sm : SlotManager) (info : SlotInfo)
    → slot < slot_count
    → Owned slot info.node_id
        (if ltb slot slot_count then some (mark_dirty (put_slot sm slot info)) else none)
unfolding mark_dirty put_slot
marked slot sm info h = rw (lt→ltb slot slot_count h) (
  mark_dirty (put_slot sm slot info),
  refl,
  if_keeps_on (λ (i : SlotInfo). i.node_id ≡ info.node_id) (slot == slot) (λ _. refl)
      (λ z. ground (arith, z)),
)

pub set_exporting-Owned :
    (slot : ℕ) (to : String) (sm : SlotManager)
    → slot < slot_count
    → Owned slot (sm.slots slot).node_id (set_exporting slot to sm)
unfolding set_exporting
set_exporting-Owned slot to sm h = marked slot sm _ h

pub set_stable-Owned :
    (slot : ℕ) (sm : SlotManager)
    → slot < slot_count
    → Owned slot (sm.slots slot).node_id (set_stable slot sm)
unfolding set_stable
set_stable-Owned slot sm h = marked slot sm _ h

set_owner-owner :
    (slot : ℕ) (node : String) (sm : SlotManager)
    → ((set_owner sm slot node).slots slot).node_id ≡ node
set_owner-owner slot node sm =
    ap (λ (i : SlotInfo). i.node_id) (slots-set_owner sm slot node slot)
    ∙ if_keeps_on (λ (i : SlotInfo). i.node_id ≡ node) (slot == slot) (λ _. refl)
        (λ z. ground (arith, z))

pub finish_migration-Owned :
    (slot : ℕ) (node : String) (sm : SlotManager)
    → slot < slot_count
    → Owned slot node (finish_migration slot node sm)
unfolding finish_migration
finish_migration-Owned slot node sm h =
    let (sm', e, o) = marked slot (set_owner sm slot node) _ h in
    (sm', e, o ∙ set_owner-owner slot node sm)
