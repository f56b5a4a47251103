-- ===== src/Ingestion/Webhook/Laws.antt =====
-- What a delivery of a webhook does to the database and the queue.
use revenueguard_ai.Common.{
  ◌≡◌, refl, sym, ap, ◌++◌, String, Bool, true, false, Option, none, some, List, [], ◌∷◌,
}
use revenueguard_ai.Database.{RecoveryCase, WebhookEvent, Database}
use revenueguard_ai.Database.Tables.{by}
use revenueguard_ai.Api.Queue.{enqueue_recovery_case}
use revenueguard_ai.Ingestion.Json.{
  null as json_null, text, Members, object, no_members, get_key, as_members, ◌>>=◌,
}
use revenueguard_ai.Ingestion.Normalizer.{NormalizedFailureEvent, normalize_razorpay_event}
use revenueguard_ai.Ingestion.Webhook.{
  WebhookExternal, webhook_record, nullable_column, is_payment_failed, new_case, with_event,
  add_case, ingest_case, ingest,
}

pub >>=-eq-some {ℓ κ} :
    {A : Type ℓ} {B : Type κ} (m : Option A) (f : A → Option B) {b : B}
    → (m >>= f) ≡ some b
    → (a : A) × (m ≡ some a) × (f a ≡ some b)
>>=-eq-some none f h = cc
>>=-eq-some (some a) f h = (a, refl, h)

-- What an accepted delivery with an id leaves behind.
pub data IsStored (ext : WebhookExternal) (event : Members) (db : Database) (queue : List String)
    (id : String) (db' : Database) (queue' : List String) : Type 0 where
  noted :
      (w : WebhookEvent)
      → w.razorpay_event_id ≡ id
      → is_payment_failed (get_key "event" (text "unknown") event) ≡ false
      → db' ≡ with_event w db
      → queue' ≡ queue
      → IsStored ext event db queue id db' queue'
  opened :
      (w : WebhookEvent) (payload : Members) (n : NormalizedFailureEvent)
      → w.razorpay_event_id ≡ id
      → is_payment_failed (get_key "event" (text "unknown") event) ≡ true
      → as_members (get_key "payload" (object no_members) event) ≡ some payload
      → normalize_razorpay_event ext.ids event payload ≡ some n
      → by (λ c. c.case_id) n.case_id db.cases ≡ none
      → db' ≡ record (with_event w db) { cases = db.cases ++ new_case ext n ∷ [] }
      → queue' ≡ (enqueue_recovery_case ext.redis n.case_id 3 queue).1
      → IsStored ext event db queue id db' queue'

id_or : Option WebhookEvent → String → String
id_or none d = d
id_or (some w) d = w.razorpay_event_id

webhook_record-id :
    (ext : WebhookExternal) (id : String) (event entity : Members) (w : WebhookEvent)
    → webhook_record ext id event entity ≡ some w
    → w.razorpay_event_id ≡ id
unfolding webhook_record id_or
webhook_record-id ext id event entity w h =
    go (ext.as_column (get_key "event" (text "unknown") event))
      (nullable_column ext (get_key "id" json_null entity))
      (nullable_column ext (get_key "order_id" json_null entity)) h
  where
    go :
        (mt : Option String) (mp mo : Option (Option String))
        → (mt >>= λ t. mp >>= λ p. mo >>= λ o. some (record {
          razorpay_event_id = id;
          event_type = t;
          payment_id = p;
          order_id = o;
          signature_valid = true;
        }))
          ≡ some w
        → w.razorpay_event_id ≡ id
    go none mp mo e = cc
    go (some t) none mo e = cc
    go (some t) (some p) none e = cc
    go (some t) (some p) (some o) e = ap (λ r. id_or r id) (sym e)

add_case-eq-some :
    (c : RecoveryCase) (db db' : Database)
    → add_case c db ≡ some db'
    → (by (λ r. r.case_id) c.case_id db.cases ≡ none)
      × (db' ≡ record db { cases = db.cases ++ c ∷ [] })
add_case-eq-some c db db' h = go (by (λ r. r.case_id) c.case_id db.cases) h
  where
    go :
        (o : Option RecoveryCase)
        → (elim o [ none ↦ some (record db { cases = db.cases ++ c ∷ [] }) | some r ↦ none ])
          ≡ some db'
        → (o ≡ none) × (db' ≡ record db { cases = db.cases ++ c ∷ [] })
    go none e = (refl, cc)
    go (some r) e = cc

pub ingest-IsStored :
    (ext : WebhookExternal) (id : String) (event : Members) (db : Database) (queue : List String)
    (db' : Database) (queue' : List String)
    → ingest ext id event db queue ≡ some (db', queue')
    → IsStored ext event db queue id db' queue'
unfolding ingest new_case
ingest-IsStored ext id event db queue db' queue' h =
    go (as_members (get_key "payload" (object no_members) event)) refl h
  where
    finish :
        (payload : Members) (w : WebhookEvent) (failed : Bool)
        → as_members (get_key "payload" (object no_members) event) ≡ some payload
        → w.razorpay_event_id ≡ id
        → is_payment_failed (get_key "event" (text "unknown") event) ≡ failed
        → ingest_case ext event payload (with_event w db) queue failed ≡ some (db', queue')
        → IsStored ext event db queue id db' queue'
    finish payload w false is_p is_id f e = noted w is_id f (cc) (cc)
    finish payload w true is_p is_id f e =
        let (n, norm, e1) =
          >>=-eq-some (normalize_razorpay_event ext.ids event payload)
            (λ n. add_case (new_case ext n) (with_event w db) >>= λ d.
              some (d, (enqueue_recovery_case ext.redis n.case_id 3 queue).1))
            e in
        let (d, e2, e3) =
          >>=-eq-some (add_case (new_case ext n) (with_event w db))
            (λ d. some (d, (enqueue_recovery_case ext.redis n.case_id 3 queue).1)) e1 in
        let (fresh, same) = add_case-eq-some (new_case ext n) (with_event w db) d e2 in
        opened w payload n is_id f is_p norm fresh (cc) (cc)

    inner :
        (payload : Members) (me : Option Members)
        → as_members (get_key "payload" (object no_members) event) ≡ some payload
        → (me >>= λ entity. webhook_record ext id event entity >>= λ w.
            ingest_case ext event payload
              (with_event w db)
              queue
              (is_payment_failed (get_key "event" (text "unknown") event)))
          ≡ some (db', queue')
        → IsStored ext event db queue id db' queue'
    inner payload none is_p e = cc
    inner payload (some entity) is_p e =
        let (w, e1, e2) =
          >>=-eq-some (webhook_record ext id event entity)
            (λ w.
              ingest_case ext event payload (with_event w db) queue
                (is_payment_failed (get_key "event" (text "unknown") event)))
            e in
        finish payload w _ is_p (webhook_record-id ext id event entity w e1) refl e2

    middle :
        (payload : Members) (mp : Option Members)
        → as_members (get_key "payload" (object no_members) event) ≡ some payload
        → (mp >>= λ payment. as_members (get_key "entity" (object no_members) payment) >>= λ entity.
            webhook_record ext id event entity >>= λ w.
            ingest_case ext event payload
              (with_event w db)
              queue
              (is_payment_failed (get_key "event" (text "unknown") event)))
          ≡ some (db', queue')
        → IsStored ext event db queue id db' queue'
    middle payload none is_p e = cc
    middle payload (some payment) is_p e =
        inner payload (as_members (get_key "entity" (object no_members) payment)) is_p e

    go :
        (mp : Option Members)
        → as_members (get_key "payload" (object no_members) event) ≡ mp
        → (mp >>= λ payload.
            as_members (get_key "payment" (object no_members) payload) >>= λ payment.
            as_members (get_key "entity" (object no_members) payment) >>= λ entity.
            webhook_record ext id event entity >>= λ w.
            ingest_case ext event payload
              (with_event w db)
              queue
              (is_payment_failed (get_key "event" (text "unknown") event)))
          ≡ some (db', queue')
        → IsStored ext event db queue id db' queue'
    go none is_p e = cc
    go (some payload) is_p e =
        middle payload (as_members (get_key "payment" (object no_members) payload)) is_p e
