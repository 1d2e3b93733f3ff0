-- ===== src/Relay/Endorsements/Book.antt =====
-- What endorsement-index.ts promises: a book with one endorsement for a target, an endorser and a
-- domain, and the operations on it.
use a.Base.{
  if◌then◌else◌, Eq, ◌==◌, Bool-cases, Option-cases, any, All, All-mono, All-zip, Map, lookup,
  values, any-values-eq-false, IsKeyed, any-values-eq-true, other_keys, ℕ, suc, String, ◌≡◌, refl,
  sym, ap, subst, ◌∙◌, inl, inr, Bool, false, ◌&&◌, Option, none, some, List, [], ◌∷◌, arith,
  string_eq, bytes_eq, nat_eq,
}
use a.Relay.Endorsements.{
  EndorsementV2, StoredEndorsement, EndorsementIndex, get_key, clear, filed, target_map,
  remove_stored_endorsement, remove_existing, store, is_collected, collect, garbage_collect,
}
use a.Relay.Endorsements.Filing.{is_at, filed-index, filed-remove}
use a.Relay.Endorsements.Agreement.{
  IsAgreeing, IsCollisionFree, IsFiled, clear-IsAgreeing, store-IsAgreeing, remove-IsAgreeing,
  listed-remove, filed-remove_existing, filed_at,
}

-- The pages of the book, by target and key.
abbrev pub Book : Type 0 → Type 0
Book Hash = String → String → Option (StoredEndorsement Hash)

abbrev pub empty_book : {Hash : Type 0} → Book Hash
empty_book target key = none

abbrev pub unless_collected :
    {Hash : Type 0} → ℕ → Option (StoredEndorsement Hash) → Option (StoredEndorsement Hash)
unless_collected now none = none
unless_collected now (some e) = if is_collected now e then none else some e

-- What the relay does with its index.
pub data Operation : Type 0 where
  storing : EndorsementV2 → ℕ → Operation
  collecting : ℕ → Operation

module _ {Hash : Type 0} ⦃ids : Eq Hash⦄ (compute_id : EndorsementV2 → Hash) where
  unfoldable pub perform : EndorsementIndex Hash → Operation → EndorsementIndex Hash
  unfolding store garbage_collect
  perform idx (storing e now) = (store compute_id idx e now).0
  perform idx (collecting now) = (garbage_collect idx now).0

  unfoldable pub run : EndorsementIndex Hash → List Operation → EndorsementIndex Hash
  unfolding perform
  run idx [] = idx
  run idx (o ∷ os) = run (perform idx o) os

  -- The new endorsement takes its place, whatever was there; those past their time go.
  abbrev pub entered : Book Hash → Operation → Book Hash
  entered book (storing e now) target key =
      if e.to == target && get_key e.sender e.domain == key
      then some (record { endorsement = e; id = compute_id e; stored_at = now })
      else book target key
  entered book (collecting now) target key = unless_collected now (book target key)

  abbrev pub history : Book Hash → List Operation → Book Hash
  history book [] = book
  history book (o ∷ os) = history (entered book o) os

module _ {Hash : Type 0} ⦃ids : Eq Hash⦄ (compute_id : EndorsementV2 → Hash) where
  filed-store :
      (idx : EndorsementIndex Hash) (e : EndorsementV2) (now : ℕ) (target key : String)
      → IsAgreeing compute_id idx
      → filed (store compute_id idx e now).0 target key
        ≡ entered compute_id (filed idx) (storing e now) target key
  unfolding store
  filed-store idx e now target key ag =
      filed-index (remove_existing idx (filed idx e.to (get_key e.sender e.domain)))
        (record { endorsement = e; id = compute_id e; stored_at = now }) target key
      ∙ ground (
        arith,
        filed-remove_existing compute_id idx e.to (get_key e.sender e.domain) target key ag,
      )

  -- Whether a collected endorsement of the list is filed under the target and the key.
  abbrev is_swept : ℕ → String → String → List (StoredEndorsement Hash) → Bool
  is_swept now target key es = any (λ e. is_collected now e && is_at e target key) es

  filed-collect :
      (now : ℕ) (es : List (StoredEndorsement Hash)) (idx : EndorsementIndex Hash) (n : ℕ)
      (target key : String)
      → filed (collect now es (idx, n)).0 target key
        ≡ (if is_swept now target key es then none else filed idx target key)
  unfolding collect
  filed-collect now [] idx n target key = refl
  filed-collect now (e ∷ es) idx n target key = elim (Bool-cases (is_collected now e)) [
    | inl gone ↦
        ap (λ s. filed (collect now es s).0 target key)
          (ap (λ b. if b then (remove_stored_endorsement idx e, suc n) else (idx, n)) gone)
        ∙ filed-collect now es (remove_stored_endorsement idx e) (suc n) target key
        ∙ ground (arith, gone, filed-remove idx e target key)
    | inr kept ↦
        ap (λ s. filed (collect now es s).0 target key)
          (ap (λ b. if b then (remove_stored_endorsement idx e, suc n) else (idx, n)) kept)
        ∙ filed-collect now es idx n target key
        ∙ ground (arith, kept)
  ]

  unswept_at :
      (idx : EndorsementIndex Hash) (now : ℕ) (target key : String) (e : StoredEndorsement Hash)
      (p : Hash × StoredEndorsement Hash)
      → filed idx target key ≡ some e
      → is_collected now e ≡ false
      → IsFiled idx p
      → (is_collected now p.1 && is_at p.1 target key) ≡ false
  unswept_at idx now target key e p found kept h = elim (Bool-cases (is_at p.1 target key)) [
    | inl on ↦
        let place = filed_at compute_id idx p.1 target key on in
        let one : e ≡ p.1 = cc (found, place, h.1) in
        let kept' : is_collected now p.1 ≡ false = sym (ap (is_collected now) one) ∙ kept in
        ground (arith, kept')
    | inr off ↦ ground (arith, off)
  ]

  is_swept-filed :
      (idx : EndorsementIndex Hash) (now : ℕ) (target key : String)
      → IsAgreeing compute_id idx
      → (if is_swept now target key (values idx.by_id) then none else filed idx target key)
        ≡ unless_collected now (filed idx target key)
  is_swept-filed idx now target key ag = elim (Option-cases (filed idx target key)) [
    | inl absent ↦ rw absent (ground arith)
    | inr (e, found) ↦ elim (Bool-cases (is_collected now e)) [
      | inl gone ↦
          let k = ag.known target key e found in
          let swept =
            any-values-eq-true (λ r. is_collected now r && is_at r target key) e.id e idx.by_id k.2
              (ground (arith, gone, k.0)) in
          rw (found, swept) (ground (arith, gone))
      | inr kept ↦
          let unswept =
            any-values-eq-false (λ r. is_collected now r && is_at r target key) idx.by_id
              (All-mono (λ p h. unswept_at idx now target key e p found kept h) idx.by_id
                ag.listed) in
          rw (found, unswept) (ground (arith, kept))
    ]
  ]

  collect-IsAgreeing :
      (now : ℕ) (m : Map Hash (StoredEndorsement Hash)) (idx : EndorsementIndex Hash) (n : ℕ)
      → IsKeyed m
      → All (IsFiled idx) m
      → IsAgreeing compute_id idx
      → IsAgreeing compute_id (collect now (values m) (idx, n)).0
  unfolding collect
  collect-IsAgreeing now [] idx n u h ag = ag
  collect-IsAgreeing now ((i, e) ∷ m) idx n u h ag = elim (Bool-cases (is_collected now e)) [
    | inl gone ↦
        subst (λ s. IsAgreeing compute_id (collect now (values m) s).0)
          (sym (ap (λ b. if b then (remove_stored_endorsement idx e, suc n) else (idx, n)) gone))
          (collect-IsAgreeing now m (remove_stored_endorsement idx e) (suc n) u.1
            (All-zip
              (λ p f other.
                listed-remove compute_id idx e p h.0.1 f
                  (subst (λ j. ids.beq p.0 j ≡ false) h.0.0 other))
              m h.1 (other_keys i m u.0))
            (remove-IsAgreeing compute_id idx e ag h.0.1))
    | inr kept ↦
        subst (λ s. IsAgreeing compute_id (collect now (values m) s).0)
          (sym (ap (λ b. if b then (remove_stored_endorsement idx e, suc n) else (idx, n)) kept))
          (collect-IsAgreeing now m idx n u.1 h.1 ag)
  ]

  filed-garbage_collect :
      (idx : EndorsementIndex Hash) (now : ℕ) (target key : String)
      → IsAgreeing compute_id idx
      → filed (garbage_collect idx now).0 target key ≡ unless_collected now (filed idx target key)
  unfolding garbage_collect
  filed-garbage_collect idx now target key ag =
      filed-collect now (values idx.by_id) idx 0 target key ∙ is_swept-filed idx now target key ag

  pub perform-IsAgreeing :
      (idx : EndorsementIndex Hash) (o : Operation)
      → IsCollisionFree compute_id
      → IsAgreeing compute_id idx
      → IsAgreeing compute_id (perform compute_id idx o)
  unfolding perform garbage_collect
  perform-IsAgreeing idx (storing e now) free ag = store-IsAgreeing compute_id idx e now free ag
  perform-IsAgreeing idx (collecting now) free ag =
      collect-IsAgreeing now idx.by_id idx 0 ag.unique ag.listed ag

  filed-perform :
      (idx : EndorsementIndex Hash) (o : Operation) (book : Book Hash)
      → IsAgreeing compute_id idx
      → ((target key : String) → filed idx target key ≡ book target key)
      → (target key : String)
      → filed (perform compute_id idx o) target key ≡ entered compute_id book o target key
  unfolding perform
  filed-perform idx (storing e now) book ag same target key =
      filed-store idx e now target key ag ∙ ground (arith, same target key)
  filed-perform idx (collecting now) book ag same target key =
      filed-garbage_collect idx now target key ag ∙ ap (unless_collected now) (same target key)

  filed-run :
      (idx : EndorsementIndex Hash) (os : List Operation) (book : Book Hash)
      → IsCollisionFree compute_id
      → IsAgreeing compute_id idx
      → ((target key : String) → filed idx target key ≡ book target key)
      → (target key : String)
      → filed (run compute_id idx os) target key ≡ history compute_id book os target key
  unfolding run
  filed-run idx [] book free ag same target key = same target key
  filed-run idx (o ∷ os) book free ag same target key =
      filed-run (perform compute_id idx o) os (entered compute_id book o) free
        (perform-IsAgreeing idx o free ag) (filed-perform idx o book ag same) target key

  -- From an empty index, whatever endorsements are stored and whenever garbage is collected, the
  -- index holds under every target and key what the book holds in which each endorsement replaces
  -- the one in its place and those past their time are struck out, if ids do not collide.
  pub run_book :
      (os : List Operation) (target key : String)
      → IsCollisionFree compute_id
      → filed (run compute_id clear os) target key ≡ history compute_id empty_book os target key
  unfolding filed target_map lookup
  run_book os target key free =
      filed-run clear os empty_book free (clear-IsAgreeing compute_id) (λ t k. refl) target key

  run-IsAgreeing' :
      (idx : EndorsementIndex Hash) (os : List Operation)
      → IsCollisionFree compute_id
      → IsAgreeing compute_id idx
      → IsAgreeing compute_id (run compute_id idx os)
  unfolding run
  run-IsAgreeing' idx [] free ag = ag
  run-IsAgreeing' idx (o ∷ os) free ag =
      run-IsAgreeing' (perform compute_id idx o) os free (perform-IsAgreeing idx o free ag)

  -- The three indexes agree after any operations on an empty index, if ids do not collide.
  pub run-IsAgreeing :
      (os : List Operation)
      → IsCollisionFree compute_id
      → IsAgreeing compute_id (run compute_id clear os)
  run-IsAgreeing os free = run-IsAgreeing' clear os free (clear-IsAgreeing compute_id)
