-- ===== src/Engine/Delivery.antt =====
-- internal/engine/engine.go: what becomes of a delivered command: handle, answer, ackOrRetry and
-- deadLetter. The calls on the message and the replies are a list of effects. Whether a dead letter
-- is recorded is a parameter, and so are archiving, deleting and lifting a quarantine. The texts of
-- replies and dead letters are kept as the error that they tell of.
pub mod Settled
mod Tests
use packtrail.Prelude.{
  ℕ, ◌*◌, ◌-◌, ◌^◌, String, Bool, true, false, not, ◌&&◌, ◌||◌, Option, none, some, List, [], ◌∷◌,
  ◌++◌, ltb, leb, str_eq, if◌then◌else◌,
}
use packtrail.Outcome.{
  Err, not_found, invalid, rejected, conflict, unknown_flow, no_object, panic, io, Result, ok, err,
}
use packtrail.Platform.{Platform}
use packtrail.Cmd.{Request, start, undecodable_start, Order, Envelope}
use packtrail.Infra.{Infra}
use packtrail.Engine.{Engine, World, Round, stored, no_op, conflicted, ended, rounds, max_conflicts}

abbrev pub nak_delay : ℕ
nak_delay = 1000000000

abbrev pub max_nak_delay : ℕ
max_nak_delay = 30 * nak_delay

abbrev pub max_deliver : ℕ
max_deliver = 64

abbrev pub not_found_grace : ℕ
not_found_grace = 3

abbrev pub lesser : ℕ → ℕ → ℕ
lesser a b = if leb a b then a else b

abbrev pub greater : ℕ → ℕ → ℕ
greater a b = if leb a b then b else a

-- retryDelay
unfoldable pub retry_delay : ℕ → ℕ
retry_delay delivered = lesser (nak_delay * 2 ^ lesser (greater delivered 1 - 1) 5) max_nak_delay

-- the code of a reply that is no success
pub data Code : Type 0 where
  refused_invalid refused_rejected missing failed refused_conflict : Code

pub data Reply : Type 0 where
  -- the sequence, and whether a start joined an execution
  done : ℕ → Bool → Reply
  refused : Code → Err → Reply

pub data DeadCause : Type 0 where
  unsupported_protocol : String → DeadCause
  undecodable_command : DeadCause
  failure exhausted : Err → DeadCause

-- a dead letter of kind `cmd`, with the sequence that it is told apart by
pub record DeadLetter : Type 0 where
  pub key : String
  pub cause : DeadCause
  pub deliveries : ℕ
  pub seq : ℕ

pub data Effect : Type 0 where
  reply : String → Reply → Effect
  -- a dead letter that was recorded
  recorded : DeadLetter → Effect
  ack term : Effect
  nak : ℕ → Effect
  -- handed back without a delay
  nak_now : Effect

pub data Body : Type 0 where
  unreadable : Err → Body
  undecodable : Body
  decoded : Envelope → Body

pub record Metadata : Type 0 where
  pub num_delivered : ℕ
  pub stream_seq : ℕ

-- a delivery: the protocol that its header names, its metadata and its body
pub record Delivery : Type 0 where
  pub protocol : String
  pub metadata : Option Metadata
  pub body : Body

-- delivered
unfoldable pub delivered : Delivery → ℕ
delivered m = elim m.metadata [ none ↦ 0 | some md ↦ md.num_delivered ]

unfoldable pub stream_seq_of : Delivery → ℕ
stream_seq_of m = elim m.metadata [ none ↦ 0 | some md ↦ md.stream_seq ]

-- errors.Is(err, fold.ErrRejected)
unfoldable pub is_rejected : Err → Bool
is_rejected rejected = true
is_rejected conflict = true
is_rejected _ = false

-- isNotFound
unfoldable pub is_not_found : Err → Bool
is_not_found unknown_flow = true
is_not_found no_object = true
is_not_found not_found = true
is_not_found _ = false

-- an error that no delivery can mend
unfoldable pub is_poison : Err → Bool
is_poison invalid = true
is_poison unknown_flow = true
is_poison no_object = true
is_poison _ = false

unfoldable pub is_missing : Err → Bool
is_missing not_found = true
is_missing _ = false

-- reply
unfoldable pub reply_to : String → Reply → List Effect
reply_to subject r = if str_eq subject "" then [] else reply subject r ∷ []

unfoldable pub refused_to : String → Option Reply → List Effect × Bool
unfolding reply_to
refused_to subject none = ([], false)
refused_to subject (some r) = (reply_to subject r, true)

-- the reply that ends a command which was turned down
unfoldable pub final_reply : Err → Option Reply
final_reply conflict = some (refused refused_conflict conflict)
final_reply invalid = some (refused refused_invalid invalid)
final_reply rejected = some (refused refused_rejected rejected)
final_reply _ = none

-- the switch of answer
unfoldable pub answer_asked : String → Bool → Result (ℕ × Bool) → List Effect × Bool
unfolding reply_to refused_to final_reply
answer_asked subject is_start (ok (seq, appended)) =
    (reply_to subject (done seq (is_start && not appended)), false)
answer_asked subject is_start (err e) = refused_to subject (final_reply e)

-- answer: what it sends, and whether the command ends
unfoldable pub answer : String → Bool → Result (ℕ × Bool) → List Effect × Bool
unfolding answer_asked
answer subject is_start r =
    if str_eq subject "" then ([], false) else answer_asked subject is_start r

unfoldable pub is_start : Order → Bool
is_start (Order.fold (start _)) = true
is_start (Order.fold undecodable_start) = true
is_start _ = false

-- what apply returns of its rounds
unfoldable pub outcome : Round → Result (ℕ × Bool)
outcome (stored q ent before) = ok (q, true)
outcome (no_op q) = ok (q, false)
outcome conflicted = err io
outcome (ended e) = err e

unfoldable pub error_of : Result (ℕ × Bool) → Option Err
error_of (ok r) = none
error_of (err e) = some e

module _ (records : DeadLetter → Bool) where
  -- deadLetter and deadLetterAs
  unfoldable pub dead_letter : Delivery → String → DeadCause → List Effect
  unfolding delivered stream_seq_of
  dead_letter m key cause =
      let d : DeadLetter = record {
        key = key;
        cause = cause;
        deliveries = delivered m;
        seq = stream_seq_of m;
      } in
      if records d then recorded d ∷ term ∷ [] else nak nak_delay ∷ []

  unfoldable pub settle_missing : Delivery → String → Err → Result Bool → List Effect
  settle_missing m exec_id e (ok true) = ack ∷ []
  settle_missing m exec_id e _ = dead_letter m exec_id (failure e)

  -- ackOrRetry on an error, of a command that answers to `subject`
  unfoldable pub retry_on : Delivery → String → String → Result Bool → Err → List Effect
  unfolding retry_delay delivered is_rejected is_not_found is_poison is_missing reply_to dead_letter
      settle_missing
  retry_on m subject exec_id archived e =
      let n = delivered m in
      if is_rejected e
      then ack ∷ []
      else if is_not_found e && ltb n not_found_grace
      then nak (retry_delay n) ∷ []
      else if is_poison e
      then reply_to subject (refused failed e) ++ dead_letter m exec_id (failure e)
      else if is_missing e
      then reply_to subject (refused missing e) ++ settle_missing m exec_id e archived
      else if leb max_deliver n
      then reply_to subject (refused failed e) ++ dead_letter m exec_id (exhausted e)
      else nak (retry_delay n) ∷ []

  -- ackOrRetry. A panic does not get here: it leaves handle, and the runner of internal/consume, which
  -- recovers it, hands the message back at once.
  unfoldable pub ack_or_retry : Delivery → String → String → Result Bool → Option Err → List Effect
  unfolding retry_on
  ack_or_retry m subject exec_id archived none = ack ∷ []
  ack_or_retry m subject exec_id archived (some panic) = nak_now ∷ []
  ack_or_retry m subject exec_id archived (some e) = retry_on m subject exec_id archived e

  -- the end of handle, after apply
  unfoldable pub settle_applied :
      Delivery → Envelope → Result Bool → Result (ℕ × Bool) → List Effect
  unfolding answer is_start error_of ack_or_retry
  settle_applied m c archived r =
      let (sent, ends) = answer c.reply (is_start c.order) r in
      if ends
      then sent ++ ack ∷ []
      else sent ++ ack_or_retry m c.reply c.exec_id archived (error_of r)

-- what handle calls beside apply: archiving, deleting (deleteOrPostpone), and lifting a quarantine,
-- which an engine may lack
pub record Services (i : Infra) : Type 0 where
  pub archive : World i → String → World i × Result (Unit {0})
  pub delete : World i → String → World i × Result (Unit {0})
  pub redispatch : Option (World i → String → World i × Result (Unit {0}))
  pub records : DeadLetter → Bool
  pub protocol_version : String

unfoldable pub failure_of : Result (Unit {0}) → Option Err
failure_of (ok u) = none
failure_of (err e) = some e

module _ (p : Platform) (i : Infra) (e : Engine i) (sv : Services i) where
  unfoldable pub settle_service :
      Delivery → Envelope → World i × Result (Unit {0}) → World i × List Effect
  unfolding failure_of ack_or_retry
  settle_service m c (w, r) = (
    w,
    ack_or_retry sv.records m c.reply c.exec_id (i.is_archived w.server c.exec_id) (failure_of r),
  )

  unfoldable pub apply_and_settle : Delivery → Envelope → World i × Round → World i × List Effect
  unfolding outcome settle_applied
  apply_and_settle m c (w, r) =
      (w, settle_applied sv.records m c (i.is_archived w.server c.exec_id) (outcome r))

  unfoldable pub redispatched :
      World i
      → String
      → Option (World i → String → World i × Result (Unit {0}))
      → World i × Result (Unit {0})
  redispatched w id none = (w, ok tt)
  redispatched w id (some f) = f w id

  -- the `switch` of handle
  unfoldable pub handle_command : World i → Delivery → Envelope → Order → World i × List Effect
  unfolding settle_service apply_and_settle redispatched
  handle_command w m c Order.archive = settle_service m c (sv.archive w c.exec_id)
  handle_command w m c Order.delete = settle_service m c (sv.delete w c.exec_id)
  handle_command w m c Order.redispatch =
      settle_service m c (redispatched w c.exec_id sv.redispatch)
  handle_command w m c _ = apply_and_settle m c (rounds p i e max_conflicts 0 w c)

  unfoldable pub handle_body : World i → Delivery → Body → World i × List Effect
  unfolding handle_command dead_letter ack_or_retry
  handle_body w m (unreadable x) =
      (w, ack_or_retry sv.records m "" "" (i.is_archived w.server "") (some x))
  handle_body w m undecodable = (w, dead_letter sv.records m "" undecodable_command)
  handle_body w m (decoded c) = handle_command w m c c.order

  -- handle
  unfoldable pub handle : World i → Delivery → World i × List Effect
  unfolding handle_body dead_letter
  handle w m =
      if not (str_eq m.protocol "") && not (str_eq m.protocol sv.protocol_version)
      then (w, dead_letter sv.records m "" (unsupported_protocol m.protocol))
      else handle_body w m m.body
