-- ===== src/Cluster/Migration.antt =====
-- internal/cluster/migrate/worker.go, internal/cluster/migration/worker.go and the draining of
-- internal/cluster/cluster.go: how keys move to another node. This module has what the three share:
-- the engine that a worker moves keys from, the node that it moves them to, and the exchange of one
-- RESTORE. No client writes to a key between the read of its entry and its deletion here. Times are
-- nanoseconds. What becomes of a connection is an argument.
pub mod Worker
pub mod Moved
mod Gone
pub mod Completed
pub mod Background
pub mod Drain
pub mod Drained
pub mod Answered
mod Tests
use autocache.Prelude.{
  ℕ, zero, suc, ◌+◌, ◌-◌, ◌*◌, ◌/◌, ◌%◌, ◌^◌, ◌≤◌, ◌<◌, String, ◌≡◌, refl, sym, ap, ap₂, subst, ◌∙◌,
  ◌≢◌, ◌↔◌, ◌⊎◌, inl, inr, Bool, true, false, not, ◌&&◌, ◌||◌, Option, none, some, List, [], ◌∷◌,
  ◌++◌, map, arith, str_eq, eq_iff, ltb, leb, ◌==◌, if◌then◌else◌, ltb→lt, lt→ltb, leb→le, ==_iff,
  Bool-cases, Option-cases, if_keeps, if_keeps_on, OnSome, length, get_or, take, drop,
  length-append, length-drop, All, Among, update, update_key, is_some, lookup, insert, erase, IsMap,
  lookup-insert, lookup-erase, insert-IsMap, erase-IsMap, length-insert, length-erase,
}

-- `Entry`, of which migration uses the deadline, `none` for the zero time.
pub record Entry (V : Type 0) : Type 0 where
  pub value : V
  pub expire_at : Option ℕ

-- `MigrationEngine`, over an unknown state. `Del` reports no error.
pub record Engine : Type 1 where
  pub Value : Type 0
  pub State : Type 0
  pub get_entry : String → State → Option (Entry Value)
  pub del : String → State → State
  pub keys_in_slot : ℕ → ℕ → State → List String
  pub serialize : Entry Value → Option (List ℕ)

pub record IsEngine (E : Engine) : Type 0 where
  pub get_entry-del :
      (k j : String) (s : E.State)
      → E.get_entry j (E.del k s) ≡ (if str_eq k j then none else E.get_entry j s)

-- What RESTORE answers.
pub data Reply : Type 0 where
  ok busy rejected : Reply

-- The node that keys move to, as this node sees it: RESTORE with or without REPLACE, with the
-- milliseconds to live and the value; and the value of the last RESTORE of a key that was carried out
-- with the answer OK. What the other node keeps of it is not said: it may evict a key at any time.
pub record Peer : Type 1 where
  pub State : Type 0
  pub restore : Bool → String → ℕ → List ℕ → State → Reply × State
  pub acknowledged : String → State → Option (List ℕ)

pub record IsPeer (P : Peer) : Type 0 where
  pub acknowledged-ok :
      (replace : Bool) (k : String) (ttl : ℕ) (v : List ℕ) (p : P.State)
      → (P.restore replace k ttl v p).0 ≡ ok
      → P.acknowledged k (P.restore replace k ttl v p).1 ≡ some v
  pub acknowledged-other :
      (replace : Bool) (k j : String) (ttl : ℕ) (v : List ℕ) (p : P.State)
      → str_eq k j ≡ false
      → P.acknowledged j (P.restore replace k ttl v p).1 ≡ P.acknowledged j p

-- Any node that answers RESTORE, whatever it does.
pub record Target : Type 1 where
  pub State : Type 0
  pub restore : Bool → String → ℕ → List ℕ → State → Reply × State

abbrev pub noted : Reply → String → List ℕ → List (String × List ℕ) → List (String × List ℕ)
noted ok k v told = (k, v) ∷ told
noted _ k v told = told

-- The node with a list of the RESTOREs that it answered with OK, the last one first.
abbrev pub answering : Target → Peer
answering T = record {
  State = List (String × List ℕ) × T.State;
  restore = λ replace k ttl v (told, p).
      let (reply, p') = T.restore replace k ttl v p in (reply, (noted reply k v told, p'));
  acknowledged = λ k (told, p). lookup k told;
}

pub answering-IsPeer : (T : Target) → IsPeer (answering T)
answering-IsPeer T = record {
  acknowledged-ok = λ replace k ttl v (told, p). first (T.restore replace k ttl v p).0 k v told;
  acknowledged-other =
      λ replace k j ttl v (told, p). others (T.restore replace k ttl v p).0 k j v told;
}
  where
    first :
        (r : Reply) (k : String) (v : List ℕ) (told : List (String × List ℕ))
        → r ≡ ok
        → lookup k (noted r k v told) ≡ some v
    first ok k v told e = rw ((eq_iff k k).1 refl) refl
    first busy k v told e = absurd (cc e)
    first rejected k v told e = absurd (cc e)

    others :
        (r : Reply) (k j : String) (v : List ℕ) (told : List (String × List ℕ))
        → str_eq k j ≡ false
        → lookup j (noted r k v told) ≡ lookup j told
    others ok k j v told d = rw d refl
    others busy k j v told d = refl
    others rejected k j v told d = refl

-- How far an exchange gets: no connection, no answer to ASKING, RESTORE not sent, RESTORE carried out
-- and its answer lost, or the answer read.
pub data Wire : Type 0 where
  no_connection no_asking not_sent answer_lost answered : Wire

pub data MoveError : Type 0 where
  no_entry no_serialized unreachable busy_key restore_failed cancelled : MoveError

-- The time to live in whole milliseconds, `none` where it is negative. Both ends of a division round
-- towards 0.
unfoldable pub ttl_ms : ℕ → ℕ → Option ℕ
ttl_ms now expire = if ltb (expire + 999999) now then none else some ((expire - now) / 1000000)

unfoldable pub reply_error : Reply → Option MoveError
reply_error ok = none
reply_error busy = some busy_key
reply_error rejected = some restore_failed

module _ (P : Peer) where
  -- The exchange: ASKING, then RESTORE.
  unfoldable pub send : Bool → Wire → String → ℕ → List ℕ → P.State → Option MoveError × P.State
  unfolding reply_error
  send replace answer_lost k ttl v p = (some unreachable, (P.restore replace k ttl v p).1)
  send replace answered k ttl v p =
      let (reply, p') = P.restore replace k ttl v p in (reply_error reply, p')
  send replace _ k ttl v p = (some unreachable, p)
