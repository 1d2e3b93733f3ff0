-- ===== src/Relay/Subscriptions/Dispatch.antt =====
-- To whom subscription-manager.ts passes an event, and its limit on the rate.
use a.Base.{
  ltb, if◌then◌else◌, ◌==◌, Bool-cases, length, filter, any, length-append, length-filter-le, All,
  Map, ℕ, ◌+◌, ◌≤◌, String, ◌≡◌, refl, inl, inr, Bool, not, ◌&&◌, Option, [], ◌∷◌, map, arith,
  nat_eq, string_eq, bytes_eq,
}
use a.Relay.Subscriptions.{
  Event, Subscription, SubscriptionManager, rate_limit_max_events, is_interested, same_event,
  rate_limit_window_ms, in_window, offer, dispatch_to, dispatch, event_message,
}

-- The subscriptions that are to get an event: of the event's realm, asking for its kind, not about
-- the subscriber itself, with fewer events in the window than the limit, and with an open socket.
abbrev pub is_receiver : (ℕ → Bool) → Event → String → String → ℕ → String × Subscription → Bool
is_receiver is_open event did realm now e =
    (e.1.realm == realm && (any (same_event event) e.1.events && not (e.1.did == did)))
    && (ltb (length (filter (λ t. ltb now (t + 60000)) e.1.event_timestamps)) 1000
        && is_open e.1.ws)

module _ {Card : Type 0} (is_open : ℕ → Bool) where
  offer_sent :
      (event : Event) (did : String) (card : Option Card) (realm : String) (now : ℕ)
      (sub : Subscription) (id : String)
      → (offer is_open event did card realm now sub).1 ≡ (
          if is_receiver is_open event did realm now (id, sub)
          then (sub.ws, event_message is_open event did card realm sub) ∷ []
          else [])
  unfolding offer
  offer_sent event did card realm now sub id =
      ground (arith, is_interested event did realm sub, is_open sub.ws)

  dispatch_to_sent :
      (event : Event) (did : String) (card : Option Card) (realm : String) (now : ℕ)
      (subs : Map String Subscription)
      → (dispatch_to is_open event did card realm now subs).1
        ≡ map
            (λ e. (e.1.ws, event_message is_open event did card realm e.1))
            (filter (is_receiver is_open event did realm now) subs)
  unfolding dispatch_to filter
  dispatch_to_sent event did card realm now [] = refl
  dispatch_to_sent event did card realm now ((id, sub) ∷ subs) =
      elim (Bool-cases (is_receiver is_open event did realm now (id, sub))) [
        | inl hit ↦ rw (
          offer_sent event did card realm now sub id,
          dispatch_to_sent event did card realm now subs,
          hit,
        )
        | inr miss ↦ rw (
          offer_sent event did card realm now sub id,
          dispatch_to_sent event did card realm now subs,
          miss,
        )
      ]

  offer_rate :
      (event : Event) (did : String) (card : Option Card) (realm : String) (now : ℕ)
      (sub : Subscription)
      → length sub.event_timestamps ≤ rate_limit_max_events
      → length (offer is_open event did card realm now sub).0.event_timestamps
        ≤ rate_limit_max_events
  unfolding offer
  offer_rate event did card realm now sub h =
      let recent = in_window now sub.event_timestamps in
      let fewer = length-filter-le (λ t. ltb now (t + rate_limit_window_ms)) sub.event_timestamps in
      let one_more = length-append recent (now ∷ []) in
      ground (arith, one_more, fewer, is_interested event did realm sub)

  -- A dispatch leaves every subscription with at most as many events in its window as permitted.
  pub dispatch_rate :
      (event : Event) (did : String) (card : Option Card) (realm : String) (now : ℕ)
      (subs : Map String Subscription)
      → All (λ e. length e.1.event_timestamps ≤ rate_limit_max_events) subs
      → All
          (λ e. length e.1.event_timestamps ≤ rate_limit_max_events)
          (dispatch_to is_open event did card realm now subs).0
  unfolding dispatch_to
  dispatch_rate event did card realm now [] h = tt
  dispatch_rate event did card realm now ((id, sub) ∷ subs) h =
      (offer_rate event did card realm now sub h.0, dispatch_rate event did card realm now subs h.1)

  -- A dispatch sends the event's message to exactly the subscriptions that are to get it, in their
  -- order, each once.
  pub dispatch_sent :
      (m : SubscriptionManager) (event : Event) (did : String) (card : Option Card) (realm : String)
      (now : ℕ)
      → (dispatch is_open m event did card realm now).1
        ≡ map
            (λ e. (e.1.ws, event_message is_open event did card realm e.1))
            (filter (is_receiver is_open event did realm now) m.subscriptions)
  unfolding dispatch
  dispatch_sent m event did card realm now =
      dispatch_to_sent event did card realm now m.subscriptions
