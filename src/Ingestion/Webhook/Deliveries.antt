-- ===== src/Ingestion/Webhook/Deliveries.antt =====
-- Deliveries of the webhook: what is refused, and what is stored.
use revenueguard_ai.Common.{
  ◌≡◌, refl, ◌≢◌, ◌&&◌, not, String, Bool, true, false, Option, none, some, List, if◌then◌else◌,
}
use revenueguard_ai.Database.{WebhookEvent, Database}
use revenueguard_ai.Database.Tables.{by}
use revenueguard_ai.Ingestion.Json.{
  Json, null, boolean, number, fraction, text, array, object, Members,
}
use revenueguard_ai.Ingestion.Webhook.{
  WebhookExternal, Request, Response, accepted, duplicate, bad_request, is_given, event_id_of,
  ingest, stored_or, deduplicated, receive, handle_razorpay_webhook,
}
use revenueguard_ai.Ingestion.Webhook.Laws.{IsStored, ingest-IsStored}

abbrev pub find_event : String → Database → Option WebhookEvent
find_event id db = by (λ w. w.razorpay_event_id) id db.webhook_events

-- With a secret configured, the body's signature is there and passes the vendor's check.
abbrev pub IsAuthentic : WebhookExternal → Request → Type 0
IsAuthentic ext request =
    ext.settings.webhook_secret_set ≡ true
    → (is_given request.signature ≡ true) × (ext.verify request.body request.signature ≡ true)

-- How a delivery ends.
pub data Delivered (ext : WebhookExternal) (request : Request) (db : Database) (queue : List String)
    (r : Response) : Type 0 where
  refused :
      r.reply ≢ accepted → r.database ≡ db → r.queue ≡ queue → Delivered ext request db queue r
  stored :
      (event : Members) (id : String)
      → r.reply ≡ accepted
      → IsAuthentic ext request
      → ext.loads request.body ≡ some (object event)
      → event_id_of ext request event ≡ some id
      → find_event id db ≡ none
      → IsStored ext event db queue id r.database r.queue
      → Delivered ext request db queue r

module _ (ext : WebhookExternal) (request : Request) (db : Database) (queue : List String) where
  ingested :
      (event : Members) (id : String) (o : Option (Database × List String))
      → IsAuthentic ext request
      → ext.loads request.body ≡ some (object event)
      → event_id_of ext request event ≡ some id
      → find_event id db ≡ none
      → ingest ext id event db queue ≡ o
      → Delivered ext request db queue (stored_or o db queue)
  ingested event id none auth l e fresh h = refused (λ p. cc) refl refl
  ingested event id (some (db', queue')) auth l e fresh h =
      stored event id refl auth l e fresh (ingest-IsStored ext id event db queue db' queue' h)

  found_or_new :
      (event : Members) (id : String) (o : Option WebhookEvent)
      → IsAuthentic ext request
      → ext.loads request.body ≡ some (object event)
      → event_id_of ext request event ≡ some id
      → find_event id db ≡ o
      → Delivered ext request db queue (elim o [
        | none ↦ stored_or (ingest ext id event db queue) db queue
        | some w ↦ record { reply = duplicate; database = db; queue = queue }
      ])
  found_or_new event id none auth l e h = ingested event id _ auth l e h refl
  found_or_new event id (some w) auth l e h = refused (λ p. cc) refl refl

  identified :
      (event : Members) (o : Option String)
      → IsAuthentic ext request
      → ext.loads request.body ≡ some (object event)
      → event_id_of ext request event ≡ o
      → Delivered ext request db queue (deduplicated ext o event db queue)
  identified event none auth l e = refused (λ p. cc) refl refl
  identified event (some id) auth l e = found_or_new event id (find_event id db) auth l e refl

  received :
      (o : Option Json)
      → IsAuthentic ext request
      → ext.loads request.body ≡ o
      → Delivered ext request db queue (receive ext request o db queue)
  received none auth l = refused (λ p. cc) refl refl
  received (some (object event)) auth l =
      identified event (event_id_of ext request event) auth l refl
  received (some null) auth l = refused (λ p. cc) refl refl
  received (some (boolean b)) auth l = refused (λ p. cc) refl refl
  received (some (number z)) auth l = refused (λ p. cc) refl refl
  received (some fraction) auth l = refused (λ p. cc) refl refl
  received (some (text s)) auth l = refused (λ p. cc) refl refl
  received (some (array l')) auth l = refused (λ p. cc) refl refl

  -- A delivery is refused and changes nothing, or it is accepted: then, if a webhook secret is
  -- configured, its signature is there and passes the vendor's check (without a secret nothing is
  -- verified), its body is a JSON dictionary, no event with its id was there, and one event with its
  -- id is stored. A case, if it opens one, is new, has no retries yet, and is offered to the queue.
  pub handle_razorpay_webhook-Delivered :
      Delivered ext request db queue (handle_razorpay_webhook ext request db queue)
  unfolding handle_razorpay_webhook
  handle_razorpay_webhook-Delivered =
      checked ext.settings.webhook_secret_set refl (is_given request.signature) refl
        (ext.verify request.body request.signature) refl
    where
      checked :
          (set : Bool)
          → ext.settings.webhook_secret_set ≡ set
          → (given : Bool) → is_given request.signature ≡ given
          → (valid : Bool) → ext.verify request.body request.signature ≡ valid
          → Delivered ext request db queue (
              if set && given && not valid
              then record { reply = bad_request "Invalid signature"; database = db; queue = queue }
              else if set && not given
              then record { reply = bad_request "Missing signature"; database = db; queue = queue }
              else receive ext request (ext.loads request.body) db queue)
      checked false a given b valid c = received (ext.loads request.body) (λ p. cc) refl
      checked true a true b true c = received (ext.loads request.body) (λ p. (b, c)) refl
      checked true a true b false c = refused (λ p. cc) refl refl
      checked true a false b valid c = refused (λ p. cc) refl refl
