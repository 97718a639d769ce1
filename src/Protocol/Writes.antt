-- ===== src/Protocol/Writes.antt =====
-- internal/protocol/handler.go: the handlers of the commands that are replicated on a primary, less
-- those that set a deadline. An int64 is the uint64 with its bits. What `ParseInt` and `Time.Add` do
-- past 64 bits is the wrap of the bits.
use autocache.Prelude.{
  ℕ, ◌+◌, ◌*◌, ◌%◌, ◌^◌, String, Bool, true, false, ◌&&◌, ◌||◌, Option, none, some, List, [], ◌∷◌,
  ltb, ◌==◌, if◌then◌else◌, length,
}
use autocache.Cluster.Hash.{key_slot}
use autocache.Cluster.Replication.Manager.{Manager, WriteRequest, Written, written, apply_write}
use autocache.Engine.Cache.Decimal.{parse_int}
use autocache.Protocol.Execute.{Bytes}
use autocache.Protocol.Payload.{encode_replication_payload}
use autocache.Protocol.Table.{to_upper_in_place, bytes_equal}

-- The operations of the engine that are replicated, each with whether it returned no error. SetNX and
-- SetXX also say whether they set the key; `none` is an error.
pub record Engine (S : Type 0) : Type 0 where
  pub set : Bytes → Bytes → ℕ → S → Bool × S
  pub set_nx : Bytes → Bytes → ℕ → S → Option Bool × S
  pub set_xx : Bytes → Bytes → ℕ → S → Option Bool × S
  pub m_set : List Bytes → S → Bool × S
  pub h_set : Bytes → List Bytes → S → Bool × S
  pub del : List Bytes → S → Bool × S
  pub rename : Bytes → Bytes → S → Bool × S
  pub expire_at : Bytes → ℕ → S → Bool × S
  pub persist : Bytes → S → Bool × S

-- The commands.
pub data WriteCommand : Type 0 where
  set mset hset del rename persist : WriteCommand

-- The options of SET.
pub record SetOptions : Type 0 where
  pub ttl : ℕ
  pub nx : Bool
  pub xx : Bool

abbrev pub is_option : ℕ → ℕ → Bytes → Bool
is_option c d o = bytes_equal (to_upper_in_place o) (c ∷ d ∷ [])

abbrev pub with_ttl : ℕ → Option ℕ → SetOptions → Option SetOptions
with_ttl unit none o = none
with_ttl unit (some n) o = some (record o { ttl = n * unit % 2 ^ 64 })

abbrev pub flagged : Bytes → SetOptions → SetOptions
flagged word o =
    if is_option 78 88 word
    then record o { nx = true }
    else if is_option 88 88 word
    then record o { xx = true }
    else o

-- The loop of `cmdSet` over the options, "EX", "PX", "NX" and "XX"; `none` where it answers an error.
unfoldable pub set_options : List Bytes → Option SetOptions → Option SetOptions
unfolding bytes_equal to_upper_in_place
set_options [] o = o
set_options (word ∷ []) none = none
set_options (word ∷ []) (some o) =
    if is_option 69 88 word || is_option 80 88 word then none else some (flagged word o)
set_options (word ∷ n ∷ rest) none = none
set_options (word ∷ n ∷ rest) (some o) =
    let seconds = set_options rest (with_ttl 1000000000 (parse_int n) o) in
    let millis = set_options rest (with_ttl 1000000 (parse_int n) o) in
    let next = set_options (n ∷ rest) (some (flagged word o)) in
    if is_option 69 88 word then seconds else if is_option 80 88 word then millis else next

-- `errReplicationNoop` is an error of the callback too.
abbrev pub if_set : {S : Type 0} → Option Bool × S → Bool × S
if_set (some true, s) = (true, s)
if_set (_, s) = (false, s)

-- A number of nanoseconds that is more than 0.
abbrev pub is_positive : ℕ → Bool
is_positive t = ltb 0 t && ltb t (2 ^ 63)

module _ {S : Type 0} where
  -- The request that `applyReplicationWrite` makes.
  abbrev pub write_request : Bytes → String → Bytes → ℕ → (S → Bool × S) → WriteRequest S
  write_request key op_type payload expire apply = record {
    slot = key_slot key;
    op_type = op_type;
    key = key;
    payload = payload;
    expire_at_ns = expire;
    apply = some apply;
  }

  -- `applyReplicationWrite`: without a coordinator the callback runs alone.
  unfoldable pub apply_replication_write :
      Option Manager → WriteRequest S → S → Bool × S × Option Manager
  apply_replication_write none req s = elim req.apply [
    | none ↦ (false, s, none)
    | some f ↦ let (ok, s') = f s in (ok, s', none)
  ]
  apply_replication_write (some m) req s =
      let (r, s', m') = apply_write req s m in (succeeded r, s', some m')
    where
      succeeded : Written → Bool
      succeeded (written op) = true
      succeeded _ = false

module _ {S : Type 0} (e : Engine S) where
  -- The callback of `cmdSet`.
  abbrev pub set_with : SetOptions → Bytes → Bytes → S → Bool × S
  set_with o k v s =
      if o.nx
      then if_set (e.set_nx k v o.ttl s)
      else if o.xx
      then if_set (e.set_xx k v o.ttl s)
      else e.set k v o.ttl s

  -- The request of `cmdSet` at the time `now`.
  abbrev pub set_request : ℕ → Bytes → Bytes → List Bytes → SetOptions → WriteRequest S
  set_request now k v opts o =
      write_request k "SET" (encode_replication_payload (k ∷ v ∷ opts))
        (if is_positive o.ttl then (now + o.ttl) % 2 ^ 64 else 0) (set_with o k v)

  -- The handlers, by the key, which is the first argument, and the others: the request that they hand
  -- to `applyReplicationWrite`, or `none` where they answer an error at once.
  unfoldable pub cmd_set : ℕ → Bytes → List Bytes → Option (WriteRequest S)
  unfolding set_options
  cmd_set now k [] = none
  cmd_set now k (v ∷ opts) =
      elim (set_options opts (some (record { ttl = 0; nx = false; xx = false }))) [
        | none ↦ none
        | some o ↦ if o.nx && o.xx then none else some (set_request now k v opts o)
      ]

  unfoldable pub cmd_m_set : Bytes → List Bytes → Option (WriteRequest S)
  cmd_m_set k args =
      if length args % 2 == 1
      then some
          (write_request k "MSET" (encode_replication_payload (k ∷ args)) 0 (e.m_set (k ∷ args)))
      else none

  unfoldable pub cmd_h_set : Bytes → List Bytes → Option (WriteRequest S)
  cmd_h_set k [] = none
  cmd_h_set k (f ∷ rest) =
      if length rest % 2 == 1
      then some (
          write_request k "HSET" (encode_replication_payload (k ∷ f ∷ rest)) 0
            (e.h_set k (f ∷ rest)))
      else none

  unfoldable pub cmd_del : Bytes → List Bytes → Option (WriteRequest S)
  cmd_del k args =
      some (write_request k "DEL" (encode_replication_payload (k ∷ args)) 0 (e.del (k ∷ args)))

  unfoldable pub cmd_rename : Bytes → List Bytes → Option (WriteRequest S)
  cmd_rename k (to ∷ []) =
      some (write_request k "RENAME" (encode_replication_payload (k ∷ to ∷ [])) 0 (e.rename k to))
  cmd_rename k _ = none

  unfoldable pub cmd_persist : Bytes → List Bytes → Option (WriteRequest S)
  cmd_persist k [] =
      some (write_request k "PERSIST" (encode_replication_payload (k ∷ [])) 0 (e.persist k))
  cmd_persist k (_ ∷ _) = none

  unfoldable pub primary_write : ℕ → WriteCommand → Bytes → List Bytes → Option (WriteRequest S)
  unfolding cmd_set cmd_m_set cmd_h_set cmd_del cmd_rename cmd_persist
  primary_write now set k args = cmd_set now k args
  primary_write now mset k args = cmd_m_set k args
  primary_write now hset k args = cmd_h_set k args
  primary_write now del k args = cmd_del k args
  primary_write now rename k args = cmd_rename k args
  primary_write now persist k args = cmd_persist k args
