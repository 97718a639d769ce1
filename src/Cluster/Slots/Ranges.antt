-- ===== src/Cluster/Slots/Ranges.antt =====
-- internal/cluster/slots.go: `GetClusterSlots`, the slot map as ranges of slots with one owner, and
-- `CountAssigned`.
use autocache.Prelude.{
  ℕ, zero, suc, ◌+◌, ◌≤◌, ◌<◌, ◌≡◌, refl, ap, subst, if_keeps_on, String, true, false, ◌&&◌, Option,
  none, some, List, [], ◌∷◌, ◌++◌, arith, str_eq, eq_iff, leb, if◌then◌else◌,
}
use autocache.Cluster.Hash.{slot_count}
use autocache.Cluster.Slots.{SlotManager}

pub record SlotRange : Type 0 where
  pub start : ℕ
  pub end : ℕ
  pub node_id : String

-- The ranges that are closed, and `current`.
abbrev Scan : Type 0
Scan = List SlotRange × Option SlotRange

-- A round of the loop at slot `i`, owned by `node`.
scan_slot : Scan → ℕ → String → Scan
scan_slot (ranges, none) i node =
    if str_eq node ""
    then (ranges, none)
    else (ranges, some (record { start = i; end = i; node_id = node }))
scan_slot (ranges, some current) i node =
    if str_eq node ""
    then (ranges ++ current ∷ [], none)
    else if str_eq current.node_id node
    then (ranges, some (record current { end = i }))
    else (ranges ++ current ∷ [], some (record { start = i; end = i; node_id = node }))

scan_from : ℕ → ℕ → SlotManager → Scan → Scan
scan_from zero i sm s = s
scan_from (suc left) i sm s = scan_from left (i + 1) sm (scan_slot s i (sm.slots i).node_id)

close_scan : Scan → List SlotRange
close_scan (ranges, none) = ranges
close_scan (ranges, some current) = ranges ++ current ∷ []

-- `GetClusterSlots`
unfoldable pub get_cluster_slots : SlotManager → List SlotRange
unfolding scan_from scan_slot close_scan
get_cluster_slots sm = close_scan (scan_from slot_count 0 sm ([], none))

count_from : ℕ → ℕ → SlotManager → ℕ → ℕ
count_from zero i sm n = n
count_from (suc left) i sm n =
    count_from left (i + 1) sm (if str_eq (sm.slots i).node_id "" then n else n + 1)

-- `CountAssigned`
unfoldable pub count_assigned : SlotManager → ℕ
unfolding count_from
count_assigned sm = count_from slot_count 0 sm 0

-- The owner that a list of ranges gives a slot: that of the first range that holds it.
unfoldable pub owner_in : List SlotRange → ℕ → Option String
owner_in [] slot = none
owner_in (r ∷ rs) slot =
    if leb r.start slot && leb slot r.end then some r.node_id else owner_in rs slot

-- A node identifier, where it is not empty.
abbrev pub named : String → Option String
named node = if str_eq node "" then none else some node

-- Ranges from `lo` on and below `hi`, none empty, in ascending order, with no slot in two of them.
abbrev pub AreOrdered : ℕ → ℕ → List SlotRange → Type 0
AreOrdered lo hi [] = lo ≤ hi
AreOrdered lo hi (r ∷ rs) = (lo ≤ r.start) × (r.start ≤ r.end) × AreOrdered (r.end + 1) hi rs

abbrev or_else : Option String → Option String → Option String
or_else none b = b
or_else (some a) b = some a

owner_in-append :
    (xs ys : List SlotRange) (slot : ℕ)
    → owner_in (xs ++ ys) slot ≡ or_else (owner_in xs slot) (owner_in ys slot)
unfolding owner_in
owner_in-append [] ys slot = refl
owner_in-append (x ∷ xs) ys slot = ground (arith, owner_in-append xs ys slot)

AreOrdered-snoc :
    (lo hi : ℕ) (xs : List SlotRange) (r : SlotRange)
    → AreOrdered lo hi xs
    → hi ≤ r.start
    → r.start ≤ r.end
    → AreOrdered lo (r.end + 1) (xs ++ r ∷ [])
AreOrdered-snoc lo hi [] r h p q = omega arith
AreOrdered-snoc lo hi (x ∷ xs) r h p q = (h.0, h.1, AreOrdered-snoc (x.end + 1) hi xs r h.2 p q)

AreOrdered-le :
    (lo hi hi' : ℕ) (xs : List SlotRange) → AreOrdered lo hi xs → hi ≤ hi' → AreOrdered lo hi' xs
AreOrdered-le lo hi hi' [] h p = omega arith
AreOrdered-le lo hi hi' (x ∷ xs) h p = (h.0, h.1, AreOrdered-le (x.end + 1) hi hi' xs h.2 p)

AreOrdered-bound : (lo hi : ℕ) (xs : List SlotRange) → AreOrdered lo hi xs → lo ≤ hi
AreOrdered-bound lo hi [] h = h
AreOrdered-bound lo hi (x ∷ xs) h = omega (arith, AreOrdered-bound (x.end + 1) hi xs h.2)

-- A slot at or above the bound is in no range.
owner_in_above :
    (lo hi : ℕ) (xs : List SlotRange) (slot : ℕ)
    → AreOrdered lo hi xs
    → hi ≤ slot
    → owner_in xs slot ≡ none
unfolding owner_in
owner_in_above lo hi [] slot h p = refl
owner_in_above lo hi (x ∷ xs) slot h p =
    ground
      (arith, owner_in_above (x.end + 1) hi xs slot h.2 p, AreOrdered-bound (x.end + 1) hi xs h.2)

-- The open range: below slot `i`, and up to it.
abbrev IsOpen : ℕ → List SlotRange → Option SlotRange → Type 0
IsOpen i ranges none = AreOrdered 0 i ranges
IsOpen i ranges (some c) = AreOrdered 0 c.start ranges × (c.start ≤ c.end) × (c.end + 1 ≡ i)

-- Before slot `i` is scanned, the ranges give each earlier slot its owner.
record IsScanned (sm : SlotManager) (i : ℕ) (s : Scan) : Type 0 where
  ordered : IsOpen i s.0 s.1
  owners : (slot : ℕ) → slot < i → owner_in (close_scan s) slot ≡ named (sm.slots slot).node_id

close_scan-AreOrdered : (i : ℕ) (s : Scan) → IsOpen i s.0 s.1 → AreOrdered 0 i (close_scan s)
unfolding close_scan
close_scan-AreOrdered i (ranges, none) h = h
close_scan-AreOrdered i (ranges, some c) h =
    subst (λ hi. AreOrdered 0 hi (ranges ++ c ∷ [])) h.2
      (AreOrdered-snoc 0 c.start ranges c h.0 (omega arith) h.1)

abbrev Owners : SlotManager → ℕ → List SlotRange → Type 0
Owners sm i ranges = (slot : ℕ) → slot < i → owner_in ranges slot ≡ named (sm.slots slot).node_id

abbrev single : ℕ → String → SlotRange
single i node = record { start = i; end = i; node_id = node }

-- Slot `i` has no owner: the closed ranges stay right.
Owners-skip :
    (sm : SlotManager) (i : ℕ) (ranges : List SlotRange)
    → AreOrdered 0 i ranges
    → Owners sm i ranges
    → str_eq (sm.slots i).node_id "" ≡ true
    → Owners sm (i + 1) ranges
Owners-skip sm i ranges ord h e slot lt = ground (
  arith,
  h slot,
  owner_in_above 0 i ranges slot ord,
  ap (λ (j : ℕ). (sm.slots j).node_id) {x = slot} {y = i},
)

-- Slot `i` opens a range of its own.
Owners-open :
    (sm : SlotManager) (i : ℕ) (ranges : List SlotRange)
    → AreOrdered 0 i ranges
    → Owners sm i ranges
    → str_eq (sm.slots i).node_id "" ≡ false
    → Owners sm (i + 1) (ranges ++ single i (sm.slots i).node_id ∷ [])
unfolding owner_in
Owners-open sm i ranges ord h e slot lt = ground (
  arith,
  h slot,
  owner_in_above 0 i ranges slot ord,
  owner_in-append ranges (single i (sm.slots i).node_id ∷ []) slot,
  ap (λ (j : ℕ). (sm.slots j).node_id) {x = slot} {y = i},
)

-- Slot `i` extends the open range.
Owners-extend :
    (sm : SlotManager) (i : ℕ) (ranges : List SlotRange) (c : SlotRange)
    → IsOpen i ranges (some c)
    → Owners sm i (ranges ++ c ∷ [])
    → str_eq (sm.slots i).node_id "" ≡ false
    → str_eq c.node_id (sm.slots i).node_id ≡ true
    → Owners sm (i + 1) (ranges ++ (record c { end = i }) ∷ [])
unfolding owner_in
Owners-extend sm i ranges c ord h e e' slot lt = ground (
  arith,
  h slot,
  owner_in_above 0 c.start ranges slot ord.0,
  owner_in-append ranges (c ∷ []) slot,
  owner_in-append ranges ((record c { end = i }) ∷ []) slot,
  eq_iff c.node_id (sm.slots i).node_id,
  ap (λ (j : ℕ). (sm.slots j).node_id) {x = slot} {y = i},
)

scan_slot-IsScanned :
    (sm : SlotManager) (i : ℕ) (s : Scan)
    → IsScanned sm i s
    → IsScanned sm (i + 1) (scan_slot s i (sm.slots i).node_id)
unfolding scan_slot close_scan
scan_slot-IsScanned sm i (ranges, none) h =
    if_keeps_on (IsScanned sm (i + 1)) (str_eq (sm.slots i).node_id "")
      (λ e. record {
        ordered = AreOrdered-le 0 i (i + 1) ranges h.ordered (omega arith);
        owners = Owners-skip sm i ranges h.ordered h.owners e;
      })
      (λ e. record {
        ordered = (h.ordered, omega arith, refl);
        owners = Owners-open sm i ranges h.ordered h.owners e;
      })
scan_slot-IsScanned sm i (ranges, some c) h =
    if_keeps_on (IsScanned sm (i + 1)) (str_eq (sm.slots i).node_id "")
      (λ e. record {
        ordered = AreOrdered-le 0 i (i + 1) _ closed (omega arith);
        owners = Owners-skip sm i (ranges ++ c ∷ []) closed h.owners e;
      })
      (λ e.
        if_keeps_on (IsScanned sm (i + 1)) (str_eq c.node_id (sm.slots i).node_id)
          (λ e'. record {
            ordered = (h.ordered.0, omega arith, refl);
            owners = Owners-extend sm i ranges c h.ordered h.owners e e';
          })
          (λ _. record {
            ordered = (closed, omega arith, refl);
            owners = Owners-open sm i (ranges ++ c ∷ []) closed h.owners e;
          }))
  where
    closed : AreOrdered 0 i (ranges ++ c ∷ [])
    closed = close_scan-AreOrdered i (ranges, some c) h.ordered

scan_from-IsScanned :
    (left i end : ℕ) (sm : SlotManager) (s : Scan)
    → i + left ≡ end
    → IsScanned sm i s
    → IsScanned sm end (scan_from left i sm s)
unfolding scan_from
scan_from-IsScanned zero i end sm s e h = subst (λ j. IsScanned sm j s) (omega arith) h
scan_from-IsScanned (suc left) i end sm s e h =
    scan_from-IsScanned left (i + 1) end sm _ (omega arith) (scan_slot-IsScanned sm i s h)

-- The reported ranges are ascending, not empty and disjoint, and lie below the number of slots. A slot
-- below that number is in a range exactly if it has an owner, and the range names that owner.
pub get_cluster_slots_lem :
    (sm : SlotManager) (slot : ℕ)
    → slot < slot_count
    → AreOrdered 0 slot_count (get_cluster_slots sm)
      × (owner_in (get_cluster_slots sm) slot ≡ named (sm.slots slot).node_id)
unfolding get_cluster_slots
get_cluster_slots_lem sm slot lt =
    (close_scan-AreOrdered slot_count _ scanned.ordered, scanned.owners slot lt)
  where
    scanned : IsScanned sm slot_count (scan_from slot_count 0 sm ([], none))
    scanned =
        scan_from-IsScanned slot_count 0 slot_count sm ([], none) refl
          (record { ordered = omega arith; owners = λ slot lt. absurd (omega arith) })
