-- ===== src/Engine/Delivery/Settled.antt =====
-- internal/engine/engine.go, handle: how a delivery is settled.
use packtrail.Prelude.{
  ℕ, zero, suc, ◌*◌, ◌-◌, ◌^◌, ◌≤◌, ◌<◌, ◌≡◌, ◌≢◌, refl, String, Bool, true, false, not, ◌&&◌,
  Option, none, some, List, [], ◌∷◌, ◌++◌, arith, ltb, leb, str_eq, Bool-cases, inl, inr,
  if◌then◌else◌,
}
use packtrail.Outcome.{Err, panic, Result, ok, err}
use packtrail.Platform.{Platform}
use packtrail.Cmd.{Order, Envelope}
use packtrail.Infra.{Infra}
use packtrail.Engine.{Engine, World, rounds, Round, max_conflicts}
use packtrail.Engine.Delivery.{
  nak_now, nak_delay, max_nak_delay, max_deliver, not_found_grace, lesser, greater, retry_delay,
  Reply, done, DeadCause, failure, exhausted, DeadLetter, Effect, reply, recorded, ack, term, nak,
  Body, unreadable, undecodable, decoded, Delivery, delivered, stream_seq_of, is_rejected,
  is_not_found, is_poison, is_missing, reply_to, refused_to, final_reply, answer_asked, answer,
  dead_letter, settle_missing, retry_on, ack_or_retry, settle_applied, Services, settle_service,
  apply_and_settle, redispatched, handle_command, handle_body, handle, is_start, error_of, outcome,
  failure_of,
}

-- The message is gone from the queue, or its dead letter could not be recorded.
pub data Ends : List Effect → Type 0 where
  acked : Ends (ack ∷ [])
  dead : {d : DeadLetter} → Ends (recorded d ∷ term ∷ [])
  unrecorded : Ends (nak nak_delay ∷ [])

-- A delivery, by its number and the error of its command, that is settled once, and answered at most
-- once, where an answer is asked for.
pub data IsSettled (n : ℕ) (o : Option Err) : List Effect → Type 0 where
  unanswered : {l : List Effect} → o ≢ some panic → Ends l → IsSettled n o l
  answered :
      {subject : String} {r : Reply} {l : List Effect}
      → o ≢ some panic
      → str_eq subject "" ≡ false
      → Ends l
      → IsSettled n o (reply subject r ∷ l)
  retried :
      {d : ℕ}
      → o ≢ some panic
      → n < max_deliver
      → nak_delay ≤ d
      → d ≤ max_nak_delay
      → IsSettled n o (nak d ∷ [])
  recovered : o ≡ some panic → IsSettled n o (nak_now ∷ [])

shift_bounds :
    (k : ℕ)
    → k ≤ 5
    → (nak_delay ≤ lesser (nak_delay * 2 ^ k) max_nak_delay)
      × (lesser (nak_delay * 2 ^ k) max_nak_delay ≤ max_nak_delay)
shift_bounds zero h = (omega arith, omega arith)
shift_bounds (suc zero) h = (omega arith, omega arith)
shift_bounds (suc (suc zero)) h = (omega arith, omega arith)
shift_bounds (suc (suc (suc zero))) h = (omega arith, omega arith)
shift_bounds (suc (suc (suc (suc zero)))) h = (omega arith, omega arith)
shift_bounds (suc (suc (suc (suc (suc zero))))) h = (omega arith, omega arith)
shift_bounds (suc (suc (suc (suc (suc (suc k)))))) h = absurd (omega (arith, h))

lesser-le : (a b : ℕ) → lesser a b ≤ b
lesser-le a b = ground arith

delay_bounds : (n : ℕ) → (nak_delay ≤ retry_delay n) × (retry_delay n ≤ max_nak_delay)
unfolding retry_delay
delay_bounds n = shift_bounds _ (lesser-le (greater n 1 - 1) 5)

reply-IsSettled :
    (n : ℕ) (o : Option Err) (subject : String) (r : Reply) (l : List Effect)
    → o ≢ some panic
    → Ends l
    → IsSettled n o (reply_to subject r ++ l)
unfolding reply_to
reply-IsSettled n o subject r l calm h = elim (Bool-cases (str_eq subject "")) [
  | inl unasked ↦ rw unasked (unanswered calm h)
  | inr asked ↦ rw asked (answered calm asked h)
]

module _ (records : DeadLetter → Bool) (m : Delivery) where
  dead-Ends : (key : String) (cause : DeadCause) → Ends (dead_letter records m key cause)
  unfolding dead_letter
  dead-Ends key cause =
      let d : DeadLetter = record {
        key = key;
        cause = cause;
        deliveries = delivered m;
        seq = stream_seq_of m;
      } in
      elim (Bool-cases (records d)) [ inl kept ↦ rw kept dead | inr lost ↦ rw lost unrecorded ]

  missing-Ends :
      (id : String) (e : Err) (archived : Result Bool)
      → Ends (settle_missing records m id e archived)
  unfolding settle_missing
  missing-Ends id e (ok true) = acked
  missing-Ends id e (ok false) = dead-Ends id (failure e)
  missing-Ends id e (err x) = dead-Ends id (failure e)

  retry-IsSettled :
      (o : Option Err)
      → o ≢ some panic
      → delivered m < max_deliver
      → IsSettled (delivered m) o (nak (retry_delay (delivered m)) ∷ [])
  retry-IsSettled o calm h =
      retried calm h (delay_bounds (delivered m)).0 (delay_bounds (delivered m)).1

  if-IsSettled :
      (o : Option Err) (b : Bool) (l k : List Effect)
      → (b ≡ true → IsSettled (delivered m) o l)
      → (b ≡ false → IsSettled (delivered m) o k)
      → IsSettled (delivered m) o (if b then l else k)
  if-IsSettled o true l k h g = h refl
  if-IsSettled o false l k h g = g refl

  error-IsSettled :
      (subject id : String) (archived : Result Bool) (e : Err)
      → some e ≢ some panic
      → IsSettled (delivered m) (some e) (retry_on records m subject id archived e)
  unfolding retry_on
  error-IsSettled subject id archived e calm =
      let o : Option Err = some e in
      if-IsSettled o (is_rejected e) _ _ (λ h. unanswered calm acked)
        λ h.
          if-IsSettled o (is_not_found e && ltb (delivered m) not_found_grace) _ _
            (λ early. retry-IsSettled o calm (grace (is_not_found e) early))
            λ h.
              if-IsSettled o (is_poison e) _ _
                (λ poison.
                  reply-IsSettled (delivered m) o subject _ _ calm (dead-Ends id (failure e)))
                λ h.
                  if-IsSettled o (is_missing e) _ _
                    (λ gone.
                      reply-IsSettled (delivered m) o subject _ _ calm (missing-Ends id e archived))
                    λ h.
                      if-IsSettled o (leb max_deliver (delivered m)) _ _
                        (λ late.
                          reply-IsSettled (delivered m) o subject _ _ calm
                            (dead-Ends id (exhausted e)))
                        λ left. retry-IsSettled o calm (ground (arith, left))
    where
      grace : (b : Bool) → b && ltb (delivered m) not_found_grace ≡ true → delivered m < max_deliver
      grace true h = ground (arith, h)
      grace false h = absurd (cc)

  ack_or_retry-IsSettled :
      (subject id : String) (archived : Result Bool) (o : Option Err)
      → IsSettled (delivered m) o (ack_or_retry records m subject id archived o)
  unfolding ack_or_retry
  ack_or_retry-IsSettled subject id archived none = unanswered (λ h. cc) acked
  ack_or_retry-IsSettled subject id archived (some panic) = recovered refl
  ack_or_retry-IsSettled subject id archived (some e) =
      error-IsSettled subject id archived e (λ h. cc)

  -- a reply that ends the command, or none
  refused-IsSettled :
      (c : Envelope) (archived : Result Bool) (e : Err) (o : Option Reply)
      → final_reply e ≡ o
      → IsSettled (delivered m) (some e) (
          if (refused_to c.reply o).1
          then (refused_to c.reply o).0 ++ ack ∷ []
          else (refused_to c.reply o).0
            ++ ack_or_retry records m c.reply c.exec_id archived (some e))
  unfolding refused_to final_reply
  refused-IsSettled c archived e none h = ack_or_retry-IsSettled c.reply c.exec_id archived (some e)
  refused-IsSettled c archived panic (some r) h = absurd (cc)
  refused-IsSettled c archived e (some r) h =
      reply-IsSettled (delivered m) (some e) c.reply r (ack ∷ []) (λ h. cc) acked

  asked-IsSettled :
      (c : Envelope) (archived : Result Bool) (r : Result (ℕ × Bool))
      → IsSettled (delivered m) (error_of r) (
          if (answer_asked c.reply (is_start c.order) r).1
          then (answer_asked c.reply (is_start c.order) r).0 ++ ack ∷ []
          else (answer_asked c.reply (is_start c.order) r).0
            ++ ack_or_retry records m c.reply c.exec_id archived (error_of r))
  unfolding answer_asked error_of ack_or_retry
  asked-IsSettled c archived (ok (seq, appended)) =
      reply-IsSettled (delivered m) none c.reply (done seq (is_start c.order && not appended))
        (ack ∷ []) (λ h. cc) acked
  asked-IsSettled c archived (err e) = refused-IsSettled c archived e (final_reply e) refl

  applied-IsSettled :
      (c : Envelope) (archived : Result Bool) (r : Result (ℕ × Bool))
      → IsSettled (delivered m) (error_of r) (settle_applied records m c archived r)
  unfolding settle_applied answer
  applied-IsSettled c archived r = elim (Bool-cases (str_eq c.reply "")) [
    | inl unasked ↦ rw unasked (ack_or_retry-IsSettled c.reply c.exec_id archived (error_of r))
    | inr asked ↦ rw asked (asked-IsSettled c archived r)
  ]

module _ (p : Platform) (i : Infra) (e : Engine i) (sv : Services i) (m : Delivery) where
  -- the error that the work on a delivery ends with
  abbrev command_error : World i → Envelope → Order → Option Err
  command_error w c Order.archive = failure_of (sv.archive w c.exec_id).1
  command_error w c Order.delete = failure_of (sv.delete w c.exec_id).1
  command_error w c Order.redispatch =
      failure_of (redispatched p i e sv w c.exec_id sv.redispatch).1
  command_error w c _ = error_of (outcome (rounds p i e max_conflicts 0 w c).1)

  abbrev body_error : World i → Body → Option Err
  body_error w (unreadable x) = some x
  body_error w undecodable = none
  body_error w (decoded c) = command_error w c c.order

  service-IsSettled :
      (c : Envelope) (x : World i × Result (Unit {0}))
      → IsSettled (delivered m) (failure_of x.1) (settle_service p i e sv m c x).1
  unfolding settle_service
  service-IsSettled c (w, r) =
      ack_or_retry-IsSettled sv.records m c.reply c.exec_id _ (failure_of r)

  round-IsSettled :
      (c : Envelope) (x : World i × Round)
      → IsSettled (delivered m) (error_of (outcome x.1)) (apply_and_settle p i e sv m c x).1
  unfolding apply_and_settle
  round-IsSettled c (w, r) = applied-IsSettled sv.records m c _ (outcome r)

  command-IsSettled :
      (w : World i) (c : Envelope) (order : Order)
      → IsSettled (delivered m) (command_error w c order) (handle_command p i e sv w m c order).1
  unfolding handle_command
  command-IsSettled w c Order.archive = service-IsSettled c (sv.archive w c.exec_id)
  command-IsSettled w c Order.delete = service-IsSettled c (sv.delete w c.exec_id)
  command-IsSettled w c Order.redispatch =
      service-IsSettled c (redispatched p i e sv w c.exec_id sv.redispatch)
  command-IsSettled w c _ = round-IsSettled c (rounds p i e max_conflicts 0 w c)

  body-IsSettled :
      (w : World i) (body : Body)
      → IsSettled (delivered m) (body_error w body) (handle_body p i e sv w m body).1
  unfolding handle_body
  body-IsSettled w (unreadable x) = ack_or_retry-IsSettled sv.records m "" "" _ (some x)
  body-IsSettled w undecodable = unanswered (λ h. cc) (dead-Ends sv.records m "" _)
  body-IsSettled w (decoded c) = command-IsSettled w c c.order

-- the error that a delivery ends with: none where its protocol is not supported, else that of its
-- command, or of the reading of its body
abbrev pub delivery_error :
    (p : Platform) (i : Infra) (e : Engine i) → Services i → World i → Delivery → Option Err
delivery_error p i e sv w m =
    if not (str_eq m.protocol "") && not (str_eq m.protocol sv.protocol_version)
    then none
    else body_error p i e sv m w m.body

pub handle-IsSettled :
    (p : Platform) (i : Infra) (e : Engine i) (sv : Services i) (w : World i) (m : Delivery)
    → IsSettled (delivered m) (delivery_error p i e sv w m) (handle p i e sv w m).1
unfolding handle
handle-IsSettled p i e sv w m =
    elim (Bool-cases (not (str_eq m.protocol "") && not (str_eq m.protocol sv.protocol_version))) [
      | inl unsupported ↦ rw unsupported (unanswered (λ h. cc) (dead-Ends sv.records m "" _))
      | inr known ↦ rw known (body-IsSettled p i e sv m w m.body)
    ]
