-- ===== src/Relay/Endorsements/Filing.antt =====
-- Where the operations of endorsement-index.ts file an endorsement, index by index.
use a.Base.{
  if◌then◌else◌, Eq, ◌==◌, string_eq, Bool-cases, or_else, filter, any, Map, lookup, insert, delete,
  lookup-insert, lookup-delete, String, ◌≡◌, ap, inl, inr, Bool, not, ◌&&◌, ◌||◌, none, some, List,
  [], ◌∷◌, ◌++◌, arith, nat_eq, bytes_eq,
}
use a.Relay.Endorsements.{
  StoredEndorsement, EndorsementIndex, key_of, put_back, filed, target_map, add_to, remove_from,
  index_stored_endorsement, remove_stored_endorsement,
}

-- A map whose entries are collections, empty where there is no entry.
module _ {κ} {V : Type κ} where
  collection-insert :
      (k j : String) (vs : List V) (m : Map String (List V))
      → or_else (lookup j (insert k vs m)) [] ≡ (if k == j then vs else or_else (lookup j m) [])
  collection-insert k j vs m = ground (arith, lookup-insert k j vs m)

  collection-put_back :
      (k j : String) (vs : List V) (m : Map String (List V))
      → or_else (lookup j (put_back k vs m)) [] ≡ (if k == j then vs else or_else (lookup j m) [])
  unfolding put_back
  collection-put_back k j [] m = ground (arith, lookup-delete k j m)
  collection-put_back k j (v ∷ vs) m = ground (arith, lookup-insert k j (v ∷ vs) m)

module _ {Hash : Type 0} ⦃ids : Eq Hash⦄ where
  -- Whether the endorsement's place is under the target and the key.
  abbrev pub is_at : StoredEndorsement Hash → String → String → Bool
  is_at e target key = e.endorsement.to == target && key_of e == key

  pub filed-index :
      (idx : EndorsementIndex Hash) (e : StoredEndorsement Hash) (target key : String)
      → filed (index_stored_endorsement idx e) target key
        ≡ (if is_at e target key then some e else filed idx target key)
  unfolding filed target_map index_stored_endorsement
  filed-index idx e target key = ground (
    arith,
    string_eq.beq_iff e.endorsement.to target,
    collection-insert e.endorsement.to target
        (insert (key_of e) e (target_map idx e.endorsement.to)) idx.by_target,
    lookup-insert (key_of e) key e (target_map idx e.endorsement.to),
  )

  pub filed-remove :
      (idx : EndorsementIndex Hash) (e : StoredEndorsement Hash) (target key : String)
      → filed (remove_stored_endorsement idx e) target key
        ≡ (if is_at e target key then none else filed idx target key)
  unfolding filed target_map remove_stored_endorsement
  filed-remove idx e target key = ground (
    arith,
    string_eq.beq_iff e.endorsement.to target,
    collection-put_back e.endorsement.to target
        (delete (key_of e) (target_map idx e.endorsement.to)) idx.by_target,
    lookup-delete (key_of e) key (target_map idx e.endorsement.to),
  )

  any-snoc :
      (i j : Hash) (is : List Hash)
      → any (λ n. n == j) (is ++ (i ∷ [])) ≡ ((i == j) || any (λ n. n == j) is)
  any-snoc i j [] = ground arith
  any-snoc i j (n ∷ is) = ground (arith, any-snoc i j is)

  any-add_to :
      (i j : Hash) (is : List Hash)
      → any (λ n. n == j) (add_to i is) ≡ ((i == j) || any (λ n. n == j) is)
  any-add_to i j is = elim (Bool-cases (i == j)) [
    | inl same ↦
        let e : i ≡ j = (ids.beq_iff i j).0 same in
        let shift : any (λ n. n == i) is ≡ any (λ n. n == j) is =
          ap (λ k. any (λ n. n == k) is) e in
        ground (arith, same, shift, any-snoc i j is)
    | inr other ↦ ground (arith, other, any-snoc i j is)
  ]

  any-remove_from :
      (i j : Hash) (is : List Hash)
      → any (λ n. n == j) (remove_from i is) ≡ (not (i == j) && any (λ n. n == j) is)
  unfolding filter
  any-remove_from i j [] = ground arith
  any-remove_from i j (n ∷ is) =
      ground (arith, ids.beq_iff i j, ids.beq_iff n i, ids.beq_iff n j, any-remove_from i j is)

  -- Whether the endorser's set has the id.
  unfoldable pub has : EndorsementIndex Hash → String → Hash → Bool
  unfolding lookup
  has idx endorser i = any (λ j. j == i) (or_else (lookup endorser idx.by_endorser) [])

  pub has-index :
      (idx : EndorsementIndex Hash) (e : StoredEndorsement Hash) (endorser : String) (i : Hash)
      → has (index_stored_endorsement idx e) endorser i
        ≡ ((e.endorsement.sender == endorser && e.id == i) || has idx endorser i)
  unfolding has index_stored_endorsement
  has-index idx e endorser i = ground (
    arith,
    string_eq.beq_iff e.endorsement.sender endorser,
    collection-insert e.endorsement.sender endorser
        (add_to e.id (or_else (lookup e.endorsement.sender idx.by_endorser) [])) idx.by_endorser,
    any-add_to e.id i (or_else (lookup e.endorsement.sender idx.by_endorser) []),
  )

  pub has-remove :
      (idx : EndorsementIndex Hash) (e : StoredEndorsement Hash) (endorser : String) (i : Hash)
      → has (remove_stored_endorsement idx e) endorser i
        ≡ (not (e.endorsement.sender == endorser && e.id == i) && has idx endorser i)
  unfolding has remove_stored_endorsement
  has-remove idx e endorser i = ground (
    arith,
    string_eq.beq_iff e.endorsement.sender endorser,
    collection-put_back e.endorsement.sender endorser
        (remove_from e.id (or_else (lookup e.endorsement.sender idx.by_endorser) []))
        idx.by_endorser,
    any-remove_from e.id i (or_else (lookup e.endorsement.sender idx.by_endorser) []),
  )
