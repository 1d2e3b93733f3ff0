-- ===== src/Relay/Subscriptions.antt =====
-- js/relay/src/subscription-manager.ts: subscriptions to agents' changes. The random part of a
-- subscription's id and the clock are arguments; a socket is its number, and whether it is open is an
-- argument. What is sent is returned; a send that fails is ignored by the code, and so is here.
pub mod Covered
pub mod Limits
pub mod Dispatch
use a.Base.{
  ltb, leb, if◌then◌else◌, ◌==◌, or_else, length, filter, any, Map, lookup, insert, delete, ℕ, ◌+◌,
  ◌*◌, String, Bool, true, false, not, ◌&&◌, Option, none, some, List, [], ◌∷◌, ◌++◌, string_eq,
  nat_eq, bytes_eq,
}

pub data Event : Type 0 where
  join_event leave update publish unpublish : Event

abbrev pub same_event : Event → Event → Bool
same_event join_event join_event = true
same_event leave leave = true
same_event update update = true
same_event publish publish = true
same_event unpublish unpublish = true
same_event _ _ = false

-- `event !== 'leave' && event !== 'unpublish'`
abbrev pub carries_card : Event → Bool
carries_card leave = false
carries_card unpublish = false
carries_card _ = true

pub record Subscription : Type 0 where
  pub id : String
  pub did : String
  pub ws : ℕ
  pub events : List Event
  pub realm : String
  pub event_timestamps : List ℕ

pub record EventMessage (Card : Type 0) : Type 0 where
  pub subscription_id : String
  pub event : Event
  pub did : String
  pub card : Option Card
  pub realm : String

pub record SubscriptionManager : Type 0 where
  pub subscriptions : Map String Subscription
  pub by_did : Map String (List String)

abbrev pub empty_manager : SubscriptionManager
empty_manager = record { subscriptions = []; by_did = [] }

abbrev pub max_subscriptions_per_did : ℕ
max_subscriptions_per_did = 10

abbrev pub rate_limit_window_ms : ℕ
rate_limit_window_ms = 60 * 1000

abbrev pub rate_limit_max_events : ℕ
rate_limit_max_events = 1000

-- `Set.add`
abbrev pub add_id : String → List String → List String
add_id id ids = if any (λ i. i == id) ids then ids else ids ++ (id ∷ [])

abbrev pub ids_of : SubscriptionManager → String → List String
ids_of m did = or_else (lookup did m.by_did) []

-- The new state and the subscription's id, or none for the error.
unfoldable pub subscribe :
    SubscriptionManager
    → String
    → ℕ
    → List Event
    → String
    → String
    → SubscriptionManager × Option String
unfolding lookup insert
subscribe m did ws events realm subscription_id =
    if leb max_subscriptions_per_did (length (ids_of m did)) then (m, none) else (
      record {
        subscriptions =
            insert subscription_id
              (record {
                id = subscription_id;
                did = did;
                ws = ws;
                events = events;
                realm = realm;
                event_timestamps = [];
              })
              m.subscriptions;
        by_did = insert did (add_id subscription_id (ids_of m did)) m.by_did;
      },
      some subscription_id,
    )

-- An empty set is deleted.
unfoldable pub set_or_delete :
    String → List String → Map String (List String) → Map String (List String)
unfolding insert delete
set_or_delete did [] by_did = delete did by_did
set_or_delete did (j ∷ rest) by_did = insert did (j ∷ rest) by_did

unfoldable pub drop_from :
    Option (List String) → String → String → Map String (List String) → Map String (List String)
unfolding set_or_delete filter
drop_from none did id by_did = by_did
drop_from (some ids) did id by_did = set_or_delete did (filter (λ i. not (i == id)) ids) by_did

-- The set under an agent without the id.
unfoldable pub drop_id : String → String → Map String (List String) → Map String (List String)
unfolding lookup drop_from
drop_id did id by_did = drop_from (lookup did by_did) did id by_did

unfoldable pub unsubscribe_found :
    SubscriptionManager → String → Option Subscription → SubscriptionManager
unfolding delete drop_id
unsubscribe_found m subscription_id none = m
unsubscribe_found m subscription_id (some sub) = record {
  subscriptions = delete subscription_id m.subscriptions;
  by_did = drop_id sub.did subscription_id m.by_did;
}

unfoldable pub unsubscribe : SubscriptionManager → String → SubscriptionManager
unfolding lookup unsubscribe_found
unsubscribe m subscription_id =
    unsubscribe_found m subscription_id (lookup subscription_id m.subscriptions)

unfoldable pub delete_ids : List String → Map String Subscription → Map String Subscription
unfolding delete
delete_ids [] subs = subs
delete_ids (id ∷ ids) subs = delete_ids ids (delete id subs)

unfoldable pub unsubscribe_all_found :
    SubscriptionManager → String → Option (List String) → SubscriptionManager
unfolding delete delete_ids
unsubscribe_all_found m did none = m
unsubscribe_all_found m did (some ids) = record {
  subscriptions = delete_ids ids m.subscriptions;
  by_did = delete did m.by_did;
}

unfoldable pub unsubscribe_all : SubscriptionManager → String → SubscriptionManager
unfolding lookup unsubscribe_all_found
unsubscribe_all m did = unsubscribe_all_found m did (lookup did m.by_did)

-- The three tests that pass an event over.
abbrev pub is_interested : Event → String → String → Subscription → Bool
is_interested event did realm sub =
    sub.realm == realm && (any (same_event event) sub.events && not (sub.did == did))

abbrev pub in_window : ℕ → List ℕ → List ℕ
in_window now ts = filter (λ t. ltb now (t + rate_limit_window_ms)) ts

module _ {Card : Type 0} (is_open : ℕ → Bool) where
  abbrev pub event_message :
      Event → String → Option Card → String → Subscription → EventMessage Card
  event_message event did card realm sub = record {
    subscription_id = sub.id;
    event = event;
    did = did;
    card = if carries_card event then card else none;
    realm = realm;
  }

  -- One pass of the loop: the subscription afterwards, and what is sent to it.
  unfoldable pub offer :
      Event
      → String
      → Option Card
      → String
      → ℕ
      → Subscription
      → Subscription × List (ℕ × EventMessage Card)
  unfolding filter
  offer event did card realm now sub =
      if is_interested event did realm sub
      then (let recent = in_window now sub.event_timestamps in
          if leb rate_limit_max_events (length recent)
          then (record sub { event_timestamps = recent }, [])
          else (
            record sub { event_timestamps = recent ++ (now ∷ []) },
            if is_open sub.ws then (sub.ws, event_message event did card realm sub) ∷ [] else [],
          ))
      else (sub, [])

  unfoldable pub dispatch_to :
      Event
      → String
      → Option Card
      → String
      → ℕ
      → Map String Subscription
      → Map String Subscription × List (ℕ × EventMessage Card)
  unfolding offer
  dispatch_to event did card realm now [] = ([], [])
  dispatch_to event did card realm now ((id, sub) ∷ subs) =
      let (sub', sent) = offer event did card realm now sub in
      let (subs', rest) = dispatch_to event did card realm now subs in
      ((id, sub') ∷ subs', sent ++ rest)

  unfoldable pub dispatch :
      SubscriptionManager
      → Event
      → String
      → Option Card
      → String
      → ℕ
      → SubscriptionManager × List (ℕ × EventMessage Card)
  unfolding dispatch_to
  dispatch m event did card realm now =
      let (subs, sent) = dispatch_to event did card realm now m.subscriptions in
      (record m { subscriptions = subs }, sent)
