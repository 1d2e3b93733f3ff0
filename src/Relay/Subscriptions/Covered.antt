-- ===== src/Relay/Subscriptions/Covered.antt =====
-- The subscriptions of an agent in subscription-manager.ts, each of which is noted under the agent.
use a.Base.{
  leb, if◌then◌else◌, ◌==◌, string_eq, beq_refl, Bool-cases, Option-cases, or_else, length, filter,
  any, length-filter-le, Map, lookup, insert, delete, lookup-insert, lookup-delete, IsKeyed,
  insert-IsKeyed, delete-IsKeyed, count_by, ℕ, ◌+◌, ◌≤◌, String, ◌≡◌, refl, sym, ap, subst, ◌∙◌,
  inl, inr, Bool, true, false, not, Option, none, some, List, [], ◌∷◌, ◌++◌, arith, bytes_eq,
  nat_eq,
}
use a.Relay.Subscriptions.{
  max_subscriptions_per_did, is_interested, in_window, rate_limit_max_events, Event, Subscription,
  SubscriptionManager, add_id, ids_of, subscribe, drop_id, unsubscribe, unsubscribe_all,
  set_or_delete, drop_from, unsubscribe_found, unsubscribe_all_found, dispatch, dispatch_to,
  delete_ids, offer,
}

abbrev pub is_in : String → List String → Bool
is_in id ids = any (λ i. i == id) ids

-- Every subscription is among those noted under its agent, and no id is there twice.
pub record Covered (m : SubscriptionManager) : Type 0 where
  pub keyed : IsKeyed m.subscriptions
  pub noted :
      (id : String) (sub : Subscription)
      → lookup id m.subscriptions ≡ some sub
      → is_in id (or_else (lookup sub.did m.by_did) []) ≡ true

is_in-add_id :
    (id j : String) (ids : List String) → is_in j ids ≡ true → is_in j (add_id id ids) ≡ true
is_in-add_id id j ids h = elim (Bool-cases (is_in id ids)) [
  | inl known ↦ rw known h
  | inr new ↦ rw new (any-append_left (λ i. i == j) ids (id ∷ []) h)
]
  where
    any-append_left :
        (p : String → Bool) (xs ys : List String) → any p xs ≡ true → any p (xs ++ ys) ≡ true
    any-append_left p [] ys h = absurd (cc h)
    any-append_left p (x ∷ xs) ys h = elim (Bool-cases (p x)) [
      | inl e ↦ rw e refl
      | inr e ↦ rw e (any-append_left p xs ys (rw e at h))
    ]

is_in-added : (id : String) (ids : List String) → is_in id (add_id id ids) ≡ true
is_in-added id ids = elim (Bool-cases (is_in id ids)) [
  | inl known ↦ rw known known
  | inr new ↦ rw new (last ids)
]
  where
    last : (xs : List String) → is_in id (xs ++ (id ∷ [])) ≡ true
    last [] = rw (beq_refl id) refl
    last (x ∷ xs) = ground (arith, last xs)

is_in-filter :
    (id j : String) (ids : List String)
    → (id == j) ≡ false
    → is_in j ids ≡ true
    → is_in j (filter (λ i. not (i == id)) ids) ≡ true
unfolding filter
is_in-filter id j [] other h = h
is_in-filter id j (i ∷ ids) other h = elim (Bool-cases (i == id)) [
  | inl same ↦
      let it : i ≡ id = (string_eq.beq_iff i id).0 same in
      let differs : (i == j) ≡ false = ap (λ x. x == j) it ∙ other in
      rw same (is_in-filter id j ids other (rw differs at h))
  | inr kept ↦ rw kept (elim (Bool-cases (i == j)) [
    | inl here ↦ rw here refl
    | inr there ↦ rw there (is_in-filter id j ids other (rw there at h))
  ])
]

-- The ids noted under an agent after another note.
noted-insert :
    (did d : String) (ids : List String) (m : Map String (List String))
    → or_else (lookup d (insert did ids m)) [] ≡ (if did == d then ids else or_else (lookup d m) [])
noted-insert did d ids m = elim (Bool-cases (did == d)) [
  | inl e ↦ rw (lookup-insert did d ids m, e) refl
  | inr e ↦ rw (lookup-insert did d ids m, e) refl
]

is_noted-insert :
    (did d j : String) (ids : List String) (m : Map String (List String))
    → ((did == d) ≡ true → is_in j ids ≡ true)
    → ((did == d) ≡ false → is_in j (or_else (lookup d m) []) ≡ true)
    → is_in j (or_else (lookup d (insert did ids m)) []) ≡ true
is_noted-insert did d j ids m f g = elim (Bool-cases (did == d)) [
  | inl e ↦ rw (noted-insert did d ids m, e) (f e)
  | inr e ↦ rw (noted-insert did d ids m, e) (g e)
]

pub subscribe-Covered :
    (m : SubscriptionManager) (did : String) (ws : ℕ) (events : List Event) (realm id : String)
    → Covered m
    → Covered (subscribe m did ws events realm id).0
unfolding subscribe
subscribe-Covered m did ws events realm id c =
    let new : Subscription = record {
      id = id;
      did = did;
      ws = ws;
      events = events;
      realm = realm;
      event_timestamps = [];
    } in
    elim (Bool-cases (leb max_subscriptions_per_did (length (ids_of m did)))) [
      | inl full ↦ rw full c
      | inr room ↦ rw room (record {
        keyed = insert-IsKeyed id new m.subscriptions c.keyed;
        noted = λ j sub h. elim (Bool-cases (id == j)) [
          | inl e ↦
              let same : new ≡ sub = cc (rw (lookup-insert id j new m.subscriptions, e) at h) in
              let its_did : did ≡ sub.did = ap (λ x. x.did) same in
              let here : (did == sub.did) ≡ true = (string_eq.beq_iff did sub.did).1 its_did in
              let at : id ≡ j = (string_eq.beq_iff id j).0 e in
              is_noted-insert did sub.did j (add_id id (ids_of m did)) m.by_did
                (λ x.
                  subst (λ k. is_in k (add_id id (ids_of m did)) ≡ true) at
                    (is_in-added id (ids_of m did)))
                (λ x. absurd (cc (x, here)))
          | inr e ↦
              let before = c.noted j sub (rw (lookup-insert id j new m.subscriptions, e) at h) in
              is_noted-insert did sub.did j (add_id id (ids_of m did)) m.by_did
                (λ x.
                  let its_did : sub.did ≡ did = sym ((string_eq.beq_iff did sub.did).0 x) in
                  is_in-add_id id j (ids_of m did)
                    (subst (λ d. is_in j (or_else (lookup d m.by_did) []) ≡ true) its_did before))
                (λ x. before)
        ];
      })
    ]

is_noted-drop_id :
    (did d id j : String) (m : Map String (List String))
    → (id == j) ≡ false
    → is_in j (or_else (lookup d m) []) ≡ true
    → is_in j (or_else (lookup d (drop_id did id m)) []) ≡ true
unfolding drop_id
is_noted-drop_id did d id j m other h = from_lookup (lookup did m) refl
  where
    kept :
        (ids : List String)
        → lookup did m ≡ some ids
        → (did == d) ≡ true
        → is_in j (filter (λ i. not (i == id)) ids) ≡ true
    kept ids e same =
        let at : d ≡ did = sym ((string_eq.beq_iff did d).0 same) in
        let found : lookup d m ≡ some ids = ap (λ x. lookup x m) at ∙ e in
        is_in-filter id j ids other (rw found at h)

    from_rest :
        (ids rest : List String)
        → lookup did m ≡ some ids
        → filter (λ i. not (i == id)) ids ≡ rest
        → is_in j (or_else (lookup d (set_or_delete did rest m)) []) ≡ true
    from_rest ids [] e f = elim (Bool-cases (did == d)) [
      | inl same ↦ absurd (cc (rw f at (kept ids e same)))
      | inr apart ↦ rw (lookup-delete did d m, apart) h
    ]
    from_rest ids (i ∷ rest) e f =
        is_noted-insert did d j (i ∷ rest) m (λ same. rw f at (kept ids e same)) (λ apart. h)

    from_lookup :
        (o : Option (List String))
        → lookup did m ≡ o
        → is_in j (or_else (lookup d (drop_from o did id m)) []) ≡ true
    from_lookup none e = h
    from_lookup (some ids) e = from_rest ids _ e refl

pub unsubscribe-Covered :
    (m : SubscriptionManager) (id : String) → Covered m → Covered (unsubscribe m id)
unfolding unsubscribe
unsubscribe-Covered m id c = go (lookup id m.subscriptions)
  where
    go : (o : Option Subscription) → Covered (unsubscribe_found m id o)
    go none = c
    go (some found) = record {
      keyed = delete-IsKeyed id m.subscriptions c.keyed;
      noted = λ j sub h. elim (Bool-cases (id == j)) [
        | inl e ↦ absurd (cc (rw (lookup-delete id j m.subscriptions, e) at h))
        | inr e ↦
            is_noted-drop_id found.did sub.did id j m.by_did e
              (c.noted j sub (rw (lookup-delete id j m.subscriptions, e) at h))
      ];
    }

delete_ids-IsKeyed :
    (ids : List String) (subs : Map String Subscription)
    → IsKeyed subs
    → IsKeyed (delete_ids ids subs)
unfolding delete_ids
delete_ids-IsKeyed [] subs u = u
delete_ids-IsKeyed (id ∷ ids) subs u =
    delete_ids-IsKeyed ids (delete id subs) (delete-IsKeyed id subs u)

lookup-delete_ids :
    (ids : List String) (j : String) (sub : Subscription) (subs : Map String Subscription)
    → lookup j (delete_ids ids subs) ≡ some sub
    → (lookup j subs ≡ some sub) × (is_in j ids ≡ false)
unfolding delete_ids
lookup-delete_ids [] j sub subs h = (h, refl)
lookup-delete_ids (id ∷ ids) j sub subs h =
    let rest = lookup-delete_ids ids j sub (delete id subs) h in
    elim (Bool-cases (id == j)) [
      | inl e ↦ absurd (cc (rw (lookup-delete id j subs, e) at rest.0))
      | inr e ↦ (rw (lookup-delete id j subs, e) at rest.0, rw e rest.1)
    ]

pub unsubscribe_all-Covered :
    (m : SubscriptionManager) (did : String) → Covered m → Covered (unsubscribe_all m did)
unfolding unsubscribe_all
unsubscribe_all-Covered m did c = go (lookup did m.by_did) refl
  where
    go :
        (o : Option (List String))
        → lookup did m.by_did ≡ o
        → Covered (unsubscribe_all_found m did o)
    go none e = c
    go (some ids) e = record {
      keyed = delete_ids-IsKeyed ids m.subscriptions c.keyed;
      noted = λ j sub h.
          let (there, gone) = lookup-delete_ids ids j sub m.subscriptions h in
          let before = c.noted j sub there in
          elim (Bool-cases (did == sub.did)) [
            | inl same ↦
                let at : sub.did ≡ did = sym ((string_eq.beq_iff did sub.did).0 same) in
                let found : lookup sub.did m.by_did ≡ some ids =
                  ap (λ d. lookup d m.by_did) at ∙ e in
                absurd (cc (found, before, gone))
            | inr apart ↦ rw (lookup-delete did sub.did m.by_did, apart) before
          ];
    }

abbrev changed : (Subscription → Subscription) → Option Subscription → Option Subscription
changed f none = none
changed f (some sub) = some (f sub)

module _ {Card : Type 0} (is_open : ℕ → Bool) where
  offer_did :
      (event : Event) (did : String) (card : Option Card) (realm : String) (now : ℕ)
      (sub : Subscription)
      → (offer is_open event did card realm now sub).0.did ≡ sub.did
  unfolding offer
  offer_did event did card realm now sub = elim (Bool-cases (is_interested event did realm sub)) [
    | inr e ↦ rw e refl
    | inl e ↦
        elim (Bool-cases
          (leb rate_limit_max_events (length (in_window now sub.event_timestamps)))) [
            | inl full ↦ rw (e, full) refl
            | inr room ↦ rw (e, room) refl
          ]
  ]

  lookup-dispatch_to :
      (event : Event) (did : String) (card : Option Card) (realm : String) (now : ℕ) (j : String)
      (subs : Map String Subscription)
      → lookup j (dispatch_to is_open event did card realm now subs).0
        ≡ changed (λ sub. (offer is_open event did card realm now sub).0) (lookup j subs)
  unfolding dispatch_to lookup
  lookup-dispatch_to event did card realm now j [] = refl
  lookup-dispatch_to event did card realm now j ((id, sub) ∷ subs) = elim (Bool-cases (id == j)) [
    | inl e ↦ rw e refl
    | inr e ↦ rw e (lookup-dispatch_to event did card realm now j subs)
  ]

  dispatch_to-IsKeyed :
      (event : Event) (did : String) (card : Option Card) (realm : String) (now : ℕ)
      (subs : Map String Subscription)
      → IsKeyed subs
      → IsKeyed (dispatch_to is_open event did card realm now subs).0
  unfolding dispatch_to
  dispatch_to-IsKeyed event did card realm now [] u = tt
  dispatch_to-IsKeyed event did card realm now ((id, sub) ∷ subs) u = (
    rw (lookup-dispatch_to event did card realm now id subs, u.0) refl,
    dispatch_to-IsKeyed event did card realm now subs u.1,
  )

  pub dispatch-Covered :
      (m : SubscriptionManager) (event : Event) (did : String) (card : Option Card) (realm : String)
      (now : ℕ)
      → Covered m
      → Covered (dispatch is_open m event did card realm now).0
  unfolding dispatch
  dispatch-Covered m event did card realm now c = record {
    keyed = dispatch_to-IsKeyed event did card realm now m.subscriptions c.keyed;
    noted = λ j sub h. elim (Option-cases (lookup j m.subscriptions)) [
      | inl e ↦
          absurd (cc (rw (lookup-dispatch_to event did card realm now j m.subscriptions, e) at h))
      | inr (old, e) ↦
          let same : (offer is_open event did card realm now old).0 ≡ sub =
            cc (rw (lookup-dispatch_to event did card realm now j m.subscriptions, e) at h) in
          let its_did : old.did ≡ sub.did =
            sym (offer_did event did card realm now old) ∙ ap (λ x. x.did) same in
          subst (λ d. is_in j (or_else (lookup d m.by_did) []) ≡ true) its_did (c.noted j old e)
    ];
  }

length-filter_in :
    (id : String) (ids : List String)
    → is_in id ids ≡ true
    → length (filter (λ i. not (i == id)) ids) + 1 ≤ length ids
unfolding filter
length-filter_in id [] h = absurd (cc h)
length-filter_in id (i ∷ ids) h = elim (Bool-cases (i == id)) [
  | inl e ↦ rw e (omega (arith, length-filter-le (λ i. not (i == id)) ids))
  | inr e ↦ rw e (omega (arith, length-filter_in id ids (rw e at h)))
]

-- The agent's subscriptions are no more than the ids among which all of them are.
pub count-le-length :
    (did : String) (subs : Map String Subscription) (ids : List String)
    → IsKeyed subs
    → ((j : String) (sub : Subscription)
        → lookup j subs ≡ some sub
        → (sub.did == did) ≡ true
        → is_in j ids ≡ true)
    → count_by (λ e. e.1.did == did) subs ≤ length ids
unfolding count_by filter lookup
count-le-length did [] ids u f = omega arith
count-le-length did ((id, sub) ∷ subs) ids u f = elim (Bool-cases (sub.did == did)) [
  | inl e ↦
      let here : is_in id ids ≡ true = f id sub (rw (beq_refl id) refl) e in
      let rest = count-le-length did subs (filter (λ i. not (i == id)) ids) u.1 (λ j s at its.
        elim (Bool-cases (id == j)) [
          | inl same ↦
              let it : id ≡ j = (string_eq.beq_iff id j).0 same in
              absurd (cc (at, ap (λ x. lookup x subs) it, u.0))
          | inr apart ↦ is_in-filter id j ids apart (f j s (rw apart at) its)
        ]) in
      rw e (omega (arith, rest, length-filter_in id ids here))
  | inr e ↦ rw e (
      count-le-length did subs ids u.1 (λ j s at its. elim (Bool-cases (id == j)) [
        | inl same ↦
            let it : id ≡ j = (string_eq.beq_iff id j).0 same in
            absurd (cc (at, ap (λ x. lookup x subs) it, u.0))
        | inr apart ↦ f j s (rw apart at) its
      ]))
]
