-- ===== src/Engine/Delivery/Tests.antt =====
-- Deliveries to an engine on a server in memory.
use packtrail.Prelude.{ℕ, ◌*◌, ◌≡◌, refl, true, false, none, some, [], ◌∷◌, pos}
use packtrail.Outcome.{io, no_object, ok, err}
use packtrail.Cmd.{Request, Order, Envelope}
use packtrail.Fold.Scenarios.{host}
use packtrail.StateCache.{new_cache}
use packtrail.Infra.{Infra}
use packtrail.Engine.{Engine, World}
use packtrail.Engine.Memory.{memory}
use packtrail.Engine.Delivery.{
  nak_delay, Reply, refused, failed, DeadCause, failure, exhausted, DeadLetter, Effect, reply,
  recorded, ack, term, nak, unreadable, undecodable, decoded, Delivery, delivered, Services,
  retry_on, handle,
}
use packtrail.Engine.Delivery.Settled.{IsSettled, delivery_error, handle-IsSettled}

abbrev server : Infra
server = memory (λ id. none)

abbrev engine : Engine server
engine = record {
  max_events = 0;
  evict = λ m. "";
  clock = λ k. 3;
  torn = λ s. s;
  before_load = λ k s. s;
  before_append = λ k s. s;
}

abbrev services : Services server
services = record {
  archive = λ w id. (w, ok tt);
  delete = λ w id. (w, err io);
  redispatch = none;
  records = λ d. true;
  protocol_version = "1";
}

abbrev idle : World server
idle = record { server = []; cache = new_cache (pos 10) }

abbrev cancellation : Envelope
cancellation = record {
  id = "x9";
  exec_id = "e1";
  reply = "_INBOX.1";
  order = Order.fold (Request.cancel "enough");
}

abbrev delivery : ℕ → Delivery
delivery n = record {
  protocol = "1";
  metadata = some (record { num_delivered = n; stream_seq = 7 });
  body = decoded cancellation;
}

-- a blob that is not found is tried again until the third delivery
blob_run :
    (retry_on services.records (delivery 2) "_INBOX.1" "e1" (ok false) no_object
      ≡ nak (2 * nak_delay) ∷ [])
    × (retry_on services.records (delivery 3) "_INBOX.1" "e1" (ok false) no_object
        ≡ reply "_INBOX.1" (refused failed no_object)
          ∷ recorded (record { key = "e1"; cause = failure no_object; deliveries = 3; seq = 7 })
          ∷ term
          ∷ [])
unfolding retry_on packtrail.Engine.Delivery.retry_delay packtrail.Engine.Delivery.is_rejected
    packtrail.Engine.Delivery.is_not_found packtrail.Engine.Delivery.is_poison
    packtrail.Engine.Delivery.reply_to packtrail.Engine.Delivery.dead_letter
    packtrail.Engine.Delivery.stream_seq_of delivered
blob_run = (refl, refl)

handle-IsSettled_example :
    IsSettled
      (delivered (delivery 5))
      (delivery_error host server engine services idle (delivery 5))
      (handle host server engine services idle (delivery 5)).1
handle-IsSettled_example = handle-IsSettled host server engine services idle (delivery 5)
