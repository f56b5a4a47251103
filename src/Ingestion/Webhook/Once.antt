-- ===== src/Ingestion/Webhook/Once.antt =====
-- Deliveries of the webhook, one after the other.
use mathlib.Core.Path.{subst}
use revenueguard_ai.Common.{◌≡◌, ◌≢◌, sym, ap, ◌∙◌, ◌++◌, String, Option, none, some, List, [], ◌∷◌}
use revenueguard_ai.Database.{WebhookEvent, Database}
use revenueguard_ai.Database.Tables.{by, IsUnique, IsUnique-add, by-added}
use revenueguard_ai.Ingestion.Json.{Json, object, Members}
use revenueguard_ai.Ingestion.Webhook.{
  WebhookExternal, Request, accepted, event_id_of, new_case, handle_razorpay_webhook,
}
use revenueguard_ai.Ingestion.Webhook.Laws.{IsStored, noted, opened}
use revenueguard_ai.Ingestion.Webhook.Deliveries.{
  find_event, refused, stored, handle_razorpay_webhook-Delivered,
}

-- The ids of the events, and those of the cases, differ.
pub record HasUniqueKeys (db : Database) : Type 0 where
  pub events : IsUnique (λ w. w.razorpay_event_id) db.webhook_events
  pub cases : IsUnique (λ c. c.case_id) db.cases

with_event-IsUnique :
    (w : WebhookEvent) (id : String) (db : Database)
    → w.razorpay_event_id ≡ id
    → find_event id db ≡ none
    → IsUnique (λ v. v.razorpay_event_id) db.webhook_events
    → IsUnique (λ v. v.razorpay_event_id) (db.webhook_events ++ w ∷ [])
with_event-IsUnique w id db is_id fresh u =
    IsUnique-add (λ v. v.razorpay_event_id) w db.webhook_events u
      (ap (λ k. find_event k db) is_id ∙ fresh)

IsStored-HasUniqueKeys :
    (ext : WebhookExternal) (event : Members) (db : Database) (queue : List String) (id : String)
    (db' : Database) (queue' : List String)
    → find_event id db ≡ none
    → HasUniqueKeys db
    → IsStored ext event db queue id db' queue'
    → HasUniqueKeys db'
unfolding new_case
IsStored-HasUniqueKeys ext event db queue id db' queue' fresh u (noted w is_id f same q) =
    subst HasUniqueKeys (sym same)
      (record { events = with_event-IsUnique w id db is_id fresh u.events; cases = u.cases })
IsStored-HasUniqueKeys ext event db queue id db' queue' fresh u
      (opened w payload n is_id f p norm new same q) =
    subst HasUniqueKeys (sym same) (record {
      events = with_event-IsUnique w id db is_id fresh u.events;
      cases = IsUnique-add (λ c. c.case_id) (new_case ext n) db.cases u.cases new;
    })

-- A delivery, whatever it holds, keeps the ids of the events and those of the cases unique.
pub handle_razorpay_webhook-HasUniqueKeys :
    (ext : WebhookExternal) (request : Request) (db : Database) (queue : List String)
    → HasUniqueKeys db
    → HasUniqueKeys (handle_razorpay_webhook ext request db queue).database
handle_razorpay_webhook-HasUniqueKeys ext request db queue u =
    elim (handle_razorpay_webhook-Delivered ext request db queue) [
      | refused r d q ↦ subst HasUniqueKeys (sym d) u
      | stored event id r auth l e fresh s ↦
          IsStored-HasUniqueKeys ext event db queue id _ _ fresh u s
    ]

found_event :
    (ext : WebhookExternal) (event : Members) (db : Database) (queue : List String) (id : String)
    (db' : Database) (queue' : List String)
    → find_event id db ≡ none
    → IsStored ext event db queue id db' queue'
    → (w : WebhookEvent) × (find_event id db' ≡ some w)
found_event ext event db queue id db' queue' fresh s = elim s [
  | noted w is_id f same q ↦ (w, ap (find_event id) same ∙ added w is_id)
  | opened w payload n is_id f p norm new same q ↦ (w, ap (find_event id) same ∙ added w is_id)
]
  where
    added :
        (w : WebhookEvent)
        → w.razorpay_event_id ≡ id
        → by (λ v. v.razorpay_event_id) id (db.webhook_events ++ w ∷ []) ≡ some w
    added w is_id =
        subst
          (λ k.
            by (λ v. v.razorpay_event_id) k db.webhook_events ≡ none
            → by (λ v. v.razorpay_event_id) k (db.webhook_events ++ w ∷ []) ≡ some w)
          is_id (by-added (λ v. v.razorpay_event_id) w db.webhook_events) fresh

-- An event is handled once: after a delivery was accepted, the next delivery with the same event
-- id, whatever else it holds, is not accepted and changes neither the database nor the queue.
pub handle_razorpay_webhook_once :
    (ext ext' : WebhookExternal) (request request' : Request) (db : Database) (queue : List String)
    (event event' : Members) (id : String)
    → (handle_razorpay_webhook ext request db queue).reply ≡ accepted
    → ext.loads request.body ≡ some (object event)
    → event_id_of ext request event ≡ some id
    → ext'.loads request'.body ≡ some (object event')
    → event_id_of ext' request' event' ≡ some id
    → let h = handle_razorpay_webhook ext request db queue in
      let h' = handle_razorpay_webhook ext' request' h.database h.queue in
      (h'.reply ≢ accepted) × (h'.database ≡ h.database) × (h'.queue ≡ h.queue)
handle_razorpay_webhook_once ext ext' request request' db queue event event' id ok l e l' e' =
    let h = handle_razorpay_webhook ext request db queue in
    elim (handle_razorpay_webhook-Delivered ext request db queue) [
      | refused r d q ↦ absurd (r ok)
      | stored event0 id0 r auth l0 e0 fresh s ↦
          let same = same_id ext request event0 event id0 id (sym l0 ∙ l) e0 e in
          let (w, seen) = found_event ext event0 db queue id0 h.database h.queue fresh s in
          elim (handle_razorpay_webhook-Delivered ext' request' h.database h.queue) [
            | refused r' d' q' ↦ (r', d', q')
            | stored event1 id1 r' auth' l1 e1 fresh' s' ↦
                let same' = same_id ext' request' event1 event' id1 id (sym l1 ∙ l') e1 e' in
                absurd (
                  no_event
                    (sym fresh' ∙ ap (λ k. find_event k h.database) (same' ∙ sym same) ∙ seen))
          ]
    ]
  where
    members_or : Members → Option Json → Members
    members_or d (some (object m)) = m
    members_or d _ = d

    some-injective : {i j : String} → ◌≡◌ {A = Option String} (some i) (some j) → i ≡ j
    some-injective p = cc

    no_event : {w : WebhookEvent} → ◌≡◌ {A = Option WebhookEvent} none (some w) → ⊥
    no_event p = cc

    same_id :
        (x : WebhookExternal) (r : Request) (a b : Members) (i j : String)
        → ◌≡◌ {A = Option Json} (some (object a)) (some (object b))
        → event_id_of x r a ≡ some i
        → event_id_of x r b ≡ some j
        → i ≡ j
    same_id x r a b i j p u v =
        some-injective (sym u ∙ ap (λ m. event_id_of x r (members_or b m)) p ∙ v)
