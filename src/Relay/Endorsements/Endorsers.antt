-- ===== src/Relay/Endorsements/Endorsers.antt =====
-- The endorsements by one endorser in endorsement-index.ts.
use a.Base.{
  Eq, ◌==◌, string_eq, beq_refl, Bool-cases, Option-cases, or_else, any, All, lookup, All-lookup,
  String, ◌≡◌, sym, ap, ◌∙◌, inl, inr, true, some, List, [], ◌∷◌, arith, nat_eq, bytes_eq,
}
use a.Relay.Endorsements.{
  EndorsementV2, StoredEndorsement, EndorsementIndex, clear, filed, present, get_by_endorser,
  key_of,
}
use a.Relay.Endorsements.Filing.{has}
use a.Relay.Endorsements.Agreement.{IsAgreeing, IsFiled, IsCollisionFree, is_from}
use a.Relay.Endorsements.Book.{Operation, run, run-IsAgreeing}

module _ {Hash : Type 0} ⦃ids : Eq Hash⦄ where
  members_found :
      (xs is : List Hash)
      → ((i : Hash) → any (λ j. j == i) xs ≡ true → any (λ j. j == i) is ≡ true)
      → All (λ i. any (λ j. j == i) is ≡ true) xs
  members_found [] is h = tt
  members_found (x ∷ xs) is h = (
    h x (ground (arith, beq_refl x)),
    members_found xs is (λ i found. h i (ground (arith, found))),
  )

  -- Endorsed by the endorser, and filed where it belongs.
  abbrev pub IsBy : EndorsementIndex Hash → String → StoredEndorsement Hash → Type 0
  IsBy idx endorser e =
      (e.endorsement.sender ≡ endorser) × (filed idx e.endorsement.to (key_of e) ≡ some e)

module _ {Hash : Type 0} ⦃ids : Eq Hash⦄ (compute_id : EndorsementV2 → Hash) where
  present-IsBy :
      (idx : EndorsementIndex Hash) (endorser : String) (is : List Hash)
      → IsAgreeing compute_id idx
      → All (λ i. has idx endorser i ≡ true) is
      → All (IsBy idx endorser) (present idx is)
  unfolding present
  present-IsBy idx endorser [] ag h = tt
  present-IsBy idx endorser (i ∷ is) ag h = elim (Option-cases (lookup i idx.by_id)) [
    | inl absent ↦ rw absent (present-IsBy idx endorser is ag h.1)
    | inr (e, found) ↦
        let from : is_from endorser (lookup i idx.by_id) ≡ true =
          sym (ag.endorsed endorser i) ∙ h.0 in
        let by : e.endorsement.sender ≡ endorser =
          (string_eq.beq_iff e.endorsement.sender endorser).0 (ground (arith, from, found)) in
        rw found (
          (by, (All-lookup (IsFiled idx) i e idx.by_id ag.listed found).1),
          present-IsBy idx endorser is ag h.1,
        )
  ]

  any-present :
      (idx : EndorsementIndex Hash) (e : StoredEndorsement Hash) (is : List Hash)
      → lookup e.id idx.by_id ≡ some e
      → any (λ j. j == e.id) is ≡ true
      → any (λ r. r.id == e.id) (present idx is) ≡ true
  unfolding present
  any-present idx e [] found h = absurd (cc h)
  any-present idx e (i ∷ is) found h = elim (Bool-cases (i == e.id)) [
    | inl same ↦
        let here : lookup i idx.by_id ≡ some e =
          ap (λ j. lookup j idx.by_id) ((ids.beq_iff i e.id).0 same) ∙ found in
        rw here (ground (arith, beq_refl e.id))
    | inr other ↦
        let rest = any-present idx e is found (ground (arith, other, h)) in
        elim (Option-cases (lookup i idx.by_id)) [
          | inl absent ↦ rw absent rest
          | inr (r, there) ↦ rw there (ground (arith, rest))
        ]
  ]

  get_by_endorser-IsBy :
      (idx : EndorsementIndex Hash) (endorser : String)
      → IsAgreeing compute_id idx
      → All (IsBy idx endorser) (get_by_endorser idx endorser)
  unfolding get_by_endorser has
  get_by_endorser-IsBy idx endorser ag =
      let is = or_else (lookup endorser idx.by_endorser) [] in
      present-IsBy idx endorser is ag (members_found is is (λ i there. there))

  any-get_by_endorser :
      (idx : EndorsementIndex Hash) (endorser : String) (e : StoredEndorsement Hash)
      → IsAgreeing compute_id idx
      → lookup e.id idx.by_id ≡ some e
      → e.endorsement.sender ≡ endorser
      → any (λ r. r.id == e.id) (get_by_endorser idx endorser) ≡ true
  unfolding get_by_endorser has
  any-get_by_endorser idx endorser e ag found by =
      let is = or_else (lookup endorser idx.by_endorser) [] in
      let there =
        ap (is_from endorser) found ∙ (string_eq.beq_iff e.endorsement.sender endorser).1 by in
      any-present idx e is found (ag.endorsed endorser e.id ∙ there)

  -- In every state that the index reaches, the endorsements listed for an endorser are filed and
  -- the endorser's, and each of the endorser's that is filed is listed, if ids do not collide.
  pub get_by_endorser_lem :
      (os : List Operation) (endorser : String)
      → IsCollisionFree compute_id
      → All
          (IsBy (run compute_id clear os) endorser)
          (get_by_endorser (run compute_id clear os) endorser)
        × ((target key : String) (e : StoredEndorsement Hash)
            → filed (run compute_id clear os) target key ≡ some e
            → e.endorsement.sender ≡ endorser
            → any (λ r. r.id == e.id) (get_by_endorser (run compute_id clear os) endorser) ≡ true)
  get_by_endorser_lem os endorser free =
      let idx = run compute_id clear os in
      let ag = run-IsAgreeing compute_id os free in
      (
        get_by_endorser-IsBy idx endorser ag,
        λ target key e found by.
            any-get_by_endorser idx endorser e ag (ag.known target key e found).2 by,
      )
