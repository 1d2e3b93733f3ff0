-- ===== src/Relay/Subscriptions/Limits.antt =====
-- The limit on an agent's subscriptions in subscription-manager.ts.
use a.Base.{
  leb, ◌==◌, string_eq, Bool-cases, or_else, length, filter, any, length-append, length-filter-le,
  Map, lookup, insert, delete, lookup-insert, lookup-delete, count_by, ℕ, ◌+◌, ◌≤◌, ◌<◌, String,
  ◌≡◌, refl, ap, subst, inl, inr, Bool, true, not, Option, none, some, List, [], ◌∷◌, arith, nat_eq,
  bytes_eq,
}
use a.Relay.Subscriptions.Covered.{
  Covered, is_in, subscribe-Covered, unsubscribe-Covered, unsubscribe_all-Covered, dispatch-Covered,
  count-le-length,
}
use a.Relay.Subscriptions.{
  Event, Subscription, SubscriptionManager, max_subscriptions_per_did, add_id, ids_of, subscribe,
  drop_id, unsubscribe, unsubscribe_all, set_or_delete, drop_from, unsubscribe_found,
  unsubscribe_all_found, empty_manager, dispatch,
}

-- No more ids than the limit are noted under an agent.
abbrev pub IsLimited : Map String (List String) → Type 0
IsLimited by_did =
    (did : String) → length (or_else (lookup did by_did) []) ≤ max_subscriptions_per_did

length-add_id : (id : String) (ids : List String) → length (add_id id ids) ≤ length ids + 1
length-add_id id ids = elim (Bool-cases (any (λ i. i == id) ids)) [
  | inl known ↦ rw known (omega arith)
  | inr new ↦ rw new (omega (arith, length-append ids (id ∷ [])))
]

insert-IsLimited :
    (did : String) (ids : List String) (m : Map String (List String))
    → length ids ≤ max_subscriptions_per_did
    → IsLimited m
    → IsLimited (insert did ids m)
insert-IsLimited did ids m h l j = elim (Bool-cases (did == j)) [
  | inl same ↦ rw (lookup-insert did j ids m, same) h
  | inr other ↦ rw (lookup-insert did j ids m, other) (l j)
]

delete-IsLimited :
    (did : String) (m : Map String (List String)) → IsLimited m → IsLimited (delete did m)
delete-IsLimited did m l j = elim (Bool-cases (did == j)) [
  | inl same ↦ rw (lookup-delete did j m, same) (omega arith)
  | inr other ↦ rw (lookup-delete did j m, other) (l j)
]

subscribe-IsLimited :
    (m : SubscriptionManager) (did : String) (ws : ℕ) (events : List Event) (realm id : String)
    → IsLimited m.by_did
    → IsLimited (subscribe m did ws events realm id).0.by_did
unfolding subscribe
subscribe-IsLimited m did ws events realm id l =
    elim (Bool-cases (leb max_subscriptions_per_did (length (ids_of m did)))) [
      | inl full ↦ rw full l
      | inr room ↦
          let few : length (ids_of m did) < max_subscriptions_per_did = ground (arith, room) in
          let grown = length-add_id id (ids_of m did) in
          rw room (insert-IsLimited did (add_id id (ids_of m did)) m.by_did (omega arith) l)
    ]

drop_id-IsLimited :
    (did id : String) (m : Map String (List String)) → IsLimited m → IsLimited (drop_id did id m)
unfolding drop_id
drop_id-IsLimited did id m l = from_lookup (lookup did m) refl
  where
    from_rest :
        (ids rest : List String)
        → lookup did m ≡ some ids
        → filter (λ i. not (i == id)) ids ≡ rest
        → IsLimited (set_or_delete did rest m)
    from_rest ids [] e f = delete-IsLimited did m l
    from_rest ids (j ∷ rest) e f =
        insert-IsLimited did (j ∷ rest) m
          (let few : length ids ≤ max_subscriptions_per_did =
              subst (λ o. length (or_else o []) ≤ max_subscriptions_per_did) e (l did) in
            let less = length-filter-le (λ i. not (i == id)) ids in
            let same : length (filter (λ i. not (i == id)) ids) ≡ length (j ∷ rest) = ap length f in
            omega arith)
          l

    from_lookup : (o : Option (List String)) → lookup did m ≡ o → IsLimited (drop_from o did id m)
    from_lookup none e = l
    from_lookup (some ids) e = from_rest ids _ e refl

-- The states that the manager's operations reach from the empty one.
pub data IsReachable (Card : Type 0) (is_open : ℕ → Bool) : SubscriptionManager → Type 0 where
  start : IsReachable Card is_open empty_manager
  on_subscribe :
      (m : SubscriptionManager) (did : String) (ws : ℕ) (events : List Event) (realm id : String)
      → IsReachable Card is_open m
      → IsReachable Card is_open (subscribe m did ws events realm id).0
  on_unsubscribe :
      (m : SubscriptionManager) (id : String)
      → IsReachable Card is_open m
      → IsReachable Card is_open (unsubscribe m id)
  on_unsubscribe_all :
      (m : SubscriptionManager) (did : String)
      → IsReachable Card is_open m
      → IsReachable Card is_open (unsubscribe_all m did)
  on_dispatch :
      (m : SubscriptionManager) (event : Event) (did : String) (card : Option Card) (realm : String)
      (now : ℕ)
      → IsReachable Card is_open m
      → IsReachable Card is_open (dispatch is_open m event did card realm now).0

unsubscribe-IsLimited :
    (m : SubscriptionManager) (id : String)
    → IsLimited m.by_did
    → IsLimited (unsubscribe m id).by_did
unfolding unsubscribe
unsubscribe-IsLimited m id l = go (lookup id m.subscriptions)
  where
    go : (o : Option Subscription) → IsLimited (unsubscribe_found m id o).by_did
    go none = l
    go (some sub) = drop_id-IsLimited sub.did id m.by_did l

unsubscribe_all-IsLimited :
    (m : SubscriptionManager) (did : String)
    → IsLimited m.by_did
    → IsLimited (unsubscribe_all m did).by_did
unfolding unsubscribe_all
unsubscribe_all-IsLimited m did l = go (lookup did m.by_did)
  where
    go : (o : Option (List String)) → IsLimited (unsubscribe_all_found m did o).by_did
    go none = l
    go (some ids) = delete-IsLimited did m.by_did l

reachable-IsLimited_ids :
    (Card : Type 0) (is_open : ℕ → Bool) (m : SubscriptionManager)
    → IsReachable Card is_open m
    → IsLimited m.by_did
unfolding dispatch lookup
reachable-IsLimited_ids Card is_open m start = λ did. omega arith
reachable-IsLimited_ids Card is_open m (on_subscribe n did ws events realm id r) =
    subscribe-IsLimited n did ws events realm id (reachable-IsLimited_ids Card is_open n r)
reachable-IsLimited_ids Card is_open m (on_unsubscribe n id r) =
    unsubscribe-IsLimited n id (reachable-IsLimited_ids Card is_open n r)
reachable-IsLimited_ids Card is_open m (on_unsubscribe_all n did r) =
    unsubscribe_all-IsLimited n did (reachable-IsLimited_ids Card is_open n r)
reachable-IsLimited_ids Card is_open m (on_dispatch n event did card realm now r) =
    reachable-IsLimited_ids Card is_open n r

reachable-Covered :
    (Card : Type 0) (is_open : ℕ → Bool) (m : SubscriptionManager)
    → IsReachable Card is_open m
    → Covered m
unfolding lookup
reachable-Covered Card is_open m start = record { keyed = tt; noted = λ j sub h. absurd (cc h) }
reachable-Covered Card is_open m (on_subscribe n did ws events realm id r) =
    subscribe-Covered n did ws events realm id (reachable-Covered Card is_open n r)
reachable-Covered Card is_open m (on_unsubscribe n id r) =
    unsubscribe-Covered n id (reachable-Covered Card is_open n r)
reachable-Covered Card is_open m (on_unsubscribe_all n did r) =
    unsubscribe_all-Covered n did (reachable-Covered Card is_open n r)
reachable-Covered Card is_open m (on_dispatch n event did card realm now r) =
    dispatch-Covered is_open n event did card realm now (reachable-Covered Card is_open n r)

-- Whatever the manager went through, of the subscriptions that it holds at most ten are of one agent.
pub reachable-IsLimited :
    (Card : Type 0) (is_open : ℕ → Bool) (m : SubscriptionManager) (did : String)
    → IsReachable Card is_open m
    → count_by (λ e. e.1.did == did) m.subscriptions ≤ 10
reachable-IsLimited Card is_open m did r =
    let c = reachable-Covered Card is_open m r in
    let noted =
      count-le-length did m.subscriptions (or_else (lookup did m.by_did) []) c.keyed
        (λ j sub at its.
          subst (λ d. is_in j (or_else (lookup d m.by_did) []) ≡ true)
            ((string_eq.beq_iff sub.did did).0 its) (c.noted j sub at)) in
    omega (arith, noted, reachable-IsLimited_ids Card is_open m r did)
