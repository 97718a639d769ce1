-- ===== src/Protocol/Replay.antt =====
-- internal/protocol/handler.go: a write on the primary, and the same write on a replica.
use autocache.Prelude.{
  ℕ, ◌-◌, ◌%◌, String, ◌≡◌, refl, sym, ap, subst, ◌∙◌, Bool, true, false, ◌||◌, Option, none, some,
  List, [], ◌∷◌, arith, str_eq, ◌==◌, if◌then◌else◌, length, All,
}
use autocache.Cluster.Replication.{Op}
use autocache.Cluster.Replication.Manager.{Manager, WriteRequest, written, op_of, apply_write}
use autocache.Cluster.Replication.Manager.Origin.{apply_write-Origin}
use autocache.Protocol.Execute.{Bytes}
use autocache.Protocol.Writes.{
  Engine, WriteCommand, set, mset, hset, del, rename, persist, is_positive, write_request,
  set_options, cmd_set, cmd_m_set, cmd_h_set, cmd_del, cmd_rename, cmd_persist, primary_write,
}
use autocache.Protocol.Payload.{
  IsText, encode_replication_payload, decode_replication_payload, decode-encode,
}

module _ {S : Type 0} (e : Engine S) where
  -- The time that is left until the deadline, 0 without one, or when it has passed.
  abbrev pub time_left : ℕ → Op → ℕ
  time_left now op = if is_positive op.expire_at_ns then op.expire_at_ns - now else 0

  unfoldable pub replay_set : ℕ → Op → List Bytes → S → Bool × S
  replay_set now op [] s = (false, s)
  replay_set now op (v ∷ []) s = e.set op.key v (time_left now op) s
  replay_set now op (_ ∷ v ∷ _) s = e.set op.key v (time_left now op) s

  unfoldable pub replay_m_set : List Bytes → S → Bool × S
  replay_m_set [] s = (false, s)
  replay_m_set (k ∷ args) s = if length args % 2 == 1 then e.m_set (k ∷ args) s else (false, s)

  unfoldable pub replay_h_set : Op → List Bytes → S → Bool × S
  replay_h_set op (k ∷ f ∷ rest) s =
      if length rest % 2 == 1 then e.h_set op.key (f ∷ rest) s else (false, s)
  replay_h_set op _ s = (false, s)

  unfoldable pub replay_del : List Bytes → S → Bool × S
  replay_del [] s = (false, s)
  replay_del (k ∷ keys) s = e.del (k ∷ keys) s

  unfoldable pub replay_rename : List Bytes → S → Bool × S
  replay_rename (from ∷ to ∷ []) s = e.rename from to s
  replay_rename _ s = (false, s)

  -- The switch of `applyIncomingReplicationOp`.
  unfoldable pub replay : ℕ → Op → S → Bool × S
  unfolding replay_set replay_m_set replay_h_set replay_del replay_rename
  replay now op s =
      let payload = decode_replication_payload op.payload in
      if str_eq op.op_type "SET"
      then replay_set now op payload s
      else if str_eq op.op_type "MSET"
      then replay_m_set payload s
      else if str_eq op.op_type "HSET"
      then replay_h_set op payload s
      else if str_eq op.op_type "DEL"
      then replay_del payload s
      else if str_eq op.op_type "RENAME"
      then replay_rename payload s
      else if str_eq op.op_type "EXPIRE"
          || str_eq op.op_type "PEXPIRE"
          || str_eq op.op_type "EXPIREAT"
      then (if is_positive op.expire_at_ns
          then e.expire_at op.key op.expire_at_ns s
          else (false, s))
      else if str_eq op.op_type "PERSIST"
      then e.persist op.key s
      else (false, s)

  -- The call of the engine that a command makes.
  abbrev call_of : WriteCommand → Bytes → List Bytes → Option (S → Bool × S)
  call_of set k (v ∷ []) = some (e.set k v 0)
  call_of set k _ = none
  call_of mset k args = if length args % 2 == 1 then some (e.m_set (k ∷ args)) else none
  call_of hset k [] = none
  call_of hset k (f ∷ rest) = if length rest % 2 == 1 then some (e.h_set k (f ∷ rest)) else none
  call_of del k args = some (e.del (k ∷ args))
  call_of rename k (to ∷ []) = some (e.rename k to)
  call_of rename k _ = none
  call_of persist k [] = some (e.persist k)
  call_of persist k (_ ∷ _) = none

  abbrev op_type_of : WriteCommand → String
  op_type_of set = "SET"
  op_type_of mset = "MSET"
  op_type_of hset = "HSET"
  op_type_of del = "DEL"
  op_type_of rename = "RENAME"
  op_type_of persist = "PERSIST"

  -- The operation that carries the command.
  abbrev Carries : Op → WriteCommand → Bytes → List Bytes → Type 0
  Carries op c k args =
      (op.op_type ≡ op_type_of c)
      × (op.key ≡ k)
      × (op.payload ≡ encode_replication_payload (k ∷ args))
      × (op.expire_at_ns ≡ 0)

-- The value that two options share.
same_some : {A : Type 0} (x y : A) → some x ≡ some y → x ≡ y
same_some x y h = cc h

if_accepted :
    {S A : Type 0} (x : Bool) (f w d : S → A) (s : S)
    → (if x then some f else none) ≡ some w
    → (if x then f s else d s) ≡ w s
if_accepted true f w d s q = ap (λ g. g s) (same_some f w q)
if_accepted false f w d s q = absurd (cc q)

module _ {S : Type 0} (e : Engine S) (now : ℕ) (op : Op) (b : ℕ) (a : Bytes) (w : S → Bool × S)
    (s : S) where
  replay-command :
      (c : WriteCommand) (args : List Bytes)
      → Carries e op c (b ∷ a) args
      → All IsText ((b ∷ a) ∷ args)
      → call_of e c (b ∷ a) args ≡ some w
      → replay e now op s ≡ w s
  unfolding replay replay_set replay_m_set replay_h_set replay_del replay_rename
  replay-command set (v ∷ []) (t, k, p, x) text q =
      rw (replay, t, p, decode-encode b a (v ∷ []) text, k, x) (ap (λ g. g s) (same_some _ w q))
  replay-command set [] (t, k, p, x) text q = absurd (cc q)
  replay-command set (v ∷ _ ∷ _) (t, k, p, x) text q = absurd (cc q)
  replay-command mset args (t, k, p, x) text q =
      rw (replay, t, p, decode-encode b a args text)
        (if_accepted (length args % 2 == 1) (e.m_set ((b ∷ a) ∷ args)) w (λ s. (false, s)) s q)
  replay-command hset [] (t, k, p, x) text q = absurd (cc q)
  replay-command hset (f ∷ rest) (t, k, p, x) text q =
      rw (replay, t, p, decode-encode b a (f ∷ rest) text, k)
        (if_accepted (length rest % 2 == 1) (e.h_set (b ∷ a) (f ∷ rest)) w (λ s. (false, s)) s q)
  replay-command del args (t, k, p, x) text q =
      rw (replay, t, p, decode-encode b a args text) (ap (λ g. g s) (same_some _ w q))
  replay-command rename (to ∷ []) (t, k, p, x) text q =
      rw (replay, t, p, decode-encode b a (to ∷ []) text) (ap (λ g. g s) (same_some _ w q))
  replay-command rename [] (t, k, p, x) text q = absurd (cc q)
  replay-command rename (_ ∷ _ ∷ _) (t, k, p, x) text q = absurd (cc q)
  replay-command persist [] (t, k, p, x) text q =
      rw (replay, t, k) (ap (λ g. g s) (same_some _ w q))
  replay-command persist (_ ∷ _) (t, k, p, x) text q = absurd (cc q)

-- A request carries its command, and has the call as its callback.
record Requests {S : Type 0} (e : Engine S) (c : WriteCommand) (k : Bytes) (args : List Bytes)
    (req : WriteRequest S) : Type 0 where
  call : S → Bool × S
  called : call_of e c k args ≡ some call
  apply : req.apply ≡ some call
  carries : (epoch lsn : ℕ) → Carries e (op_of req epoch lsn) c k args

-- Arguments without options of SET.
abbrev pub HasNoOption : WriteCommand → List Bytes → Type 0
HasNoOption set args = length args ≡ 1
HasNoOption _ args = Unit

module _ {S : Type 0} (e : Engine S) (now : ℕ) where
  made :
      (c : WriteCommand) (k : Bytes) (args : List Bytes) (call : S → Bool × S)
      (req : WriteRequest S)
      → call_of e c k args ≡ some call
      → some (write_request k (op_type_of e c) (encode_replication_payload (k ∷ args)) 0 call)
        ≡ some req
      → Requests e c k args req
  made c k args call req q r =
      subst (Requests e c k args)
        (same_some (write_request k (op_type_of e c) (encode_replication_payload (k ∷ args)) 0 call)
          req r)
        (record {
          call = call;
          called = q;
          apply = refl;
          carries = λ epoch lsn. (refl, refl, refl, refl);
        })

  -- A handler that tests its arguments.
  tested :
      (x : Bool) (made_by wanted : WriteRequest S)
      → (if x then some made_by else none) ≡ some wanted
      → (x ≡ true) × (some made_by ≡ some wanted)
  tested true r w q = (refl, q)
  tested false r w q = absurd (cc q)

  primary_write-Requests :
      (c : WriteCommand) (k : Bytes) (args : List Bytes) (req : WriteRequest S)
      → HasNoOption c args
      → primary_write e now c k args ≡ some req
      → Requests e c k args req
  unfolding primary_write cmd_set cmd_m_set cmd_h_set cmd_del cmd_rename cmd_persist set_options
  primary_write-Requests set k [] req one q = absurd (cc q)
  primary_write-Requests set k (v ∷ []) req one q = made set k (v ∷ []) (e.set k v 0) req refl q
  primary_write-Requests set k (v ∷ _ ∷ _) req one q = absurd (omega (arith, one))
  primary_write-Requests mset k args req _ q =
      let (t, r) = tested (length args % 2 == 1) _ req q in
      made mset k args (e.m_set (k ∷ args)) req (rw t refl) r
  primary_write-Requests hset k [] req _ q = absurd (cc q)
  primary_write-Requests hset k (f ∷ rest) req _ q =
      let (t, r) = tested (length rest % 2 == 1) _ req q in
      made hset k (f ∷ rest) (e.h_set k (f ∷ rest)) req (rw t refl) r
  primary_write-Requests del k args req _ q = made del k args (e.del (k ∷ args)) req refl q
  primary_write-Requests rename k [] req _ q = absurd (cc q)
  primary_write-Requests rename k (to ∷ []) req _ q =
      made rename k (to ∷ []) (e.rename k to) req refl q
  primary_write-Requests rename k (_ ∷ _ ∷ _) req _ q = absurd (cc q)
  primary_write-Requests persist k [] req _ q = made persist k [] (e.persist k) req refl q
  primary_write-Requests persist k (_ ∷ _) req _ q = absurd (cc q)

-- The call of the engine by a write: the primary's run of it left its engine so, and a replica that
-- applies the operation makes the same call.
pub record Replays {S : Type 0} (e : Engine S) (req : WriteRequest S) (op : Op) (s s' : S)
    : Type 0 where
  pub call : S → Bool × S
  pub callback : req.apply ≡ some call
  pub primary : call s ≡ (true, s')
  pub replica : (now : ℕ) (r : S) → replay e now op r ≡ call r

-- For SET without an option, MSET, HSET, DEL, RENAME and PERSIST, with a key that is not empty and no
-- zero byte in an argument: when the handler hands a request to `ApplyWrite` on the primary and that
-- returns an operation, then a replica that applies the operation at any time makes the same call of
-- its engine, with the same arguments, as the primary did of its own.
pub replay-primary_write :
    {S : Type 0} (e : Engine S) (now : ℕ) (c : WriteCommand) (b : ℕ) (a : Bytes) (args : List Bytes)
    (req : WriteRequest S) (op : Op) (s : S) (m : Manager)
    → HasNoOption c args
    → All IsText ((b ∷ a) ∷ args)
    → primary_write e now c (b ∷ a) args ≡ some req
    → (apply_write req s m).0 ≡ written op
    → Replays e req op s (apply_write req s m).1
replay-primary_write e now c b a args req op s m plain text q w =
    let r = primary_write-Requests e now c (b ∷ a) args req plain q in
    let o = apply_write-Origin req op s m w in
    let callback : o.callback ≡ r.call = same_some o.callback r.call (sym o.apply ∙ r.apply) in
    record {
      call = r.call;
      callback = r.apply;
      primary = ap (λ f. f s) (sym callback) ∙ o.success;
      replica = λ later t.
          subst (λ x. replay e later x t ≡ r.call t) (sym o.same)
            (replay-command e later (op_of req o.epoch o.lsn) b a r.call t c args
              (r.carries o.epoch o.lsn) text r.called);
    }
