-- ===== src/Relay/Endorsements/Agreement.antt =====
-- The three indexes of endorsement-index.ts agree on what is stored.
use a.Base.{
  if◌then◌else◌, Eq, ◌==◌, string_eq, beq_refl, Bool-cases, Option-cases, All, All-mono, lookup,
  delete, lookup-insert, lookup-delete, All-lookup, All-insert, All-delete, IsKeyed, insert-IsKeyed,
  delete-IsKeyed, ℕ, String, ◌≡◌, refl, sym, ap, subst, ◌∙◌, inl, inr, Bool, true, false, ◌&&◌,
  Option, none, some, arith, bytes_eq, nat_eq,
}
use a.Relay.Endorsements.{
  EndorsementV2, StoredEndorsement, EndorsementIndex, key_of, get_key, clear, filed, target_map,
  index_stored_endorsement, remove_stored_endorsement, remove_existing, store,
}
use a.Relay.Endorsements.Filing.{is_at, filed-index, filed-remove, has, has-index, has-remove}

module _ {Hash : Type 0} ⦃ids : Eq Hash⦄ where
  -- An endorsement that is looked up is there and comes from the endorser.
  abbrev pub is_from : String → Option (StoredEndorsement Hash) → Bool
  is_from endorser none = false
  is_from endorser (some e) = e.endorsement.sender == endorser

  -- Filed under its own target and key, with its own id.
  abbrev pub IsFiled : EndorsementIndex Hash → Hash × StoredEndorsement Hash → Type 0
  IsFiled idx p = (p.0 ≡ p.1.id) × (filed idx p.1.endorsement.to (key_of p.1) ≡ some p.1)

  -- An endorsement found under a target and a key belongs there, and is found under its id.
  abbrev pub IsKnown :
      (EndorsementV2 → Hash)
      → EndorsementIndex Hash
      → String
      → String
      → StoredEndorsement Hash
      → Type 0
  IsKnown compute_id idx target key e =
      (is_at e target key ≡ true)
      × (e.id ≡ compute_id e.endorsement)
      × (lookup e.id idx.by_id ≡ some e)

-- Endorsements with the same id are filed in the same place.
abbrev pub IsCollisionFree : {Hash : Type 0} → (EndorsementV2 → Hash) → Type 0
IsCollisionFree compute_id =
    (x y : EndorsementV2)
    → compute_id x ≡ compute_id y
    → (x.to ≡ y.to) × (get_key x.sender x.domain ≡ get_key y.sender y.domain)

pub record IsAgreeing {Hash : Type 0} ⦃ids : Eq Hash⦄ (compute_id : EndorsementV2 → Hash)
    (idx : EndorsementIndex Hash) : Type 0 where
  pub known :
      (target key : String) (e : StoredEndorsement Hash)
      → filed idx target key ≡ some e
      → IsKnown compute_id idx target key e
  pub listed : All (IsFiled idx) idx.by_id
  pub unique : IsKeyed idx.by_id
  pub endorsed :
      (endorser : String) (i : Hash) → has idx endorser i ≡ is_from endorser (lookup i idx.by_id)

module _ {Hash : Type 0} ⦃ids : Eq Hash⦄ (compute_id : EndorsementV2 → Hash) where
  pub clear-IsAgreeing : IsAgreeing compute_id clear
  unfolding filed target_map lookup has
  clear-IsAgreeing = record {
    known = λ target key e found. absurd (cc found);
    listed = tt;
    unique = tt;
    endorsed = λ endorser i. refl;
  }

  pub filed_at :
      (idx : EndorsementIndex Hash) (e : StoredEndorsement Hash) (target key : String)
      → is_at e target key ≡ true
      → filed idx target key ≡ filed idx e.endorsement.to (key_of e)
  filed_at idx e target key same =
      let both : (e.endorsement.to ≡ target) × (key_of e ≡ key) =
        ground
          (arith, string_eq.beq_iff e.endorsement.to target, string_eq.beq_iff (key_of e) key) in
      cc (both.0, both.1)

  -- Of endorsements filed in one place there is one.
  apart :
      (idx : EndorsementIndex Hash) (e : StoredEndorsement Hash) (p : Hash × StoredEndorsement Hash)
      → filed idx e.endorsement.to (key_of e) ≡ some e
      → IsFiled idx p
      → ids.beq p.0 e.id ≡ false
      → is_at e p.1.endorsement.to (key_of p.1) ≡ false
  apart idx e p here h other = elim (Bool-cases (is_at e p.1.endorsement.to (key_of p.1))) [
    | inl same ↦
        let place = filed_at idx e p.1.endorsement.to (key_of p.1) same in
        let one : p.1 ≡ e = cc (place, h.1, here) in
        let equal : ids.beq p.0 e.id ≡ true = (ids.beq_iff p.0 e.id).1 (h.0 ∙ ap (λ r. r.id) one) in
        absurd (cc (equal, other))
    | inr off ↦ off
  ]

  pub listed-remove :
      (idx : EndorsementIndex Hash) (e : StoredEndorsement Hash) (p : Hash × StoredEndorsement Hash)
      → filed idx e.endorsement.to (key_of e) ≡ some e
      → IsFiled idx p
      → ids.beq p.0 e.id ≡ false
      → IsFiled (remove_stored_endorsement idx e) p
  listed-remove idx e p here h other = (
    h.0,
    filed-remove idx e p.1.endorsement.to (key_of p.1)
        ∙ ground (arith, apart idx e p here h other, h.1),
  )

  remove-IsKnown :
      (idx : EndorsementIndex Hash) (e r : StoredEndorsement Hash) (target key : String)
      → IsAgreeing compute_id idx
      → filed idx e.endorsement.to (key_of e) ≡ some e
      → filed (remove_stored_endorsement idx e) target key ≡ some r
      → IsKnown compute_id (remove_stored_endorsement idx e) target key r
  unfolding remove_stored_endorsement
  remove-IsKnown idx e r target key ag here found =
      let off : is_at e target key ≡ false = ground (arith, filed-remove idx e target key, found) in
      let before : filed idx target key ≡ some r =
        ground (arith, filed-remove idx e target key, found, off) in
      let k = ag.known target key r before in
      let mine : lookup e.id idx.by_id ≡ some e = (ag.known e.endorsement.to (key_of e) e here).2 in
      let other : (e.id == r.id) ≡ false = elim (Bool-cases (e.id == r.id)) [
        | inl same ↦
            let at_r : lookup e.id idx.by_id ≡ some r =
              ap (λ i. lookup i idx.by_id) ((ids.beq_iff e.id r.id).0 same) ∙ k.2 in
            let one : e ≡ r = cc (mine, at_r) in
            let on : is_at e target key ≡ true = ap (λ x. is_at x target key) one ∙ k.0 in
            absurd (cc (on, off))
        | inr off ↦ off
      ] in
      (k.0, k.1, ground (arith, lookup-delete e.id r.id idx.by_id, other, k.2))

  pub remove-IsAgreeing :
      (idx : EndorsementIndex Hash) (e : StoredEndorsement Hash)
      → IsAgreeing compute_id idx
      → filed idx e.endorsement.to (key_of e) ≡ some e
      → IsAgreeing compute_id (remove_stored_endorsement idx e)
  unfolding remove_stored_endorsement
  remove-IsAgreeing idx e ag here = record {
    known = λ target key r found. remove-IsKnown idx e r target key ag here found;
    listed =
        All-mono (λ p h. listed-remove idx e p here h.0 h.1) (delete e.id idx.by_id)
          (All-delete (IsFiled idx) e.id idx.by_id ag.listed);
    unique = delete-IsKeyed e.id idx.by_id ag.unique;
    endorsed = λ endorser i.
        has-remove idx e endorser i
        ∙ ground (
          arith,
          ids.beq_iff e.id i,
          ag.endorsed endorser i,
          lookup-delete e.id i idx.by_id,
          (ag.known e.endorsement.to (key_of e) e here).2,
        );
  }

  index-IsKnown :
      (idx : EndorsementIndex Hash) (e r : StoredEndorsement Hash) (target key : String)
      → IsAgreeing compute_id idx
      → e.id ≡ compute_id e.endorsement
      → lookup e.id idx.by_id ≡ none
      → filed (index_stored_endorsement idx e) target key ≡ some r
      → IsKnown compute_id (index_stored_endorsement idx e) target key r
  unfolding index_stored_endorsement
  index-IsKnown idx e r target key ag own new found = elim (Bool-cases (is_at e target key)) [
    | inl on ↦
        let one : e ≡ r = ground (arith, filed-index idx e target key, found, on) in
        subst (IsKnown compute_id (index_stored_endorsement idx e) target key) one
          (on, own, ground (arith, lookup-insert e.id e.id e idx.by_id, beq_refl e.id))
    | inr off ↦
        let before : filed idx target key ≡ some r =
          ground (arith, filed-index idx e target key, found, off) in
        let k = ag.known target key r before in
        (
          k.0,
          k.1,
          ground (arith, ids.beq_iff e.id r.id, lookup-insert e.id r.id e idx.by_id, new, k.2),
        )
  ]

  filed_stays :
      (idx : EndorsementIndex Hash) (e : StoredEndorsement Hash) (p : Hash × StoredEndorsement Hash)
      → filed idx e.endorsement.to (key_of e) ≡ none
      → IsFiled idx p
      → filed (index_stored_endorsement idx e) p.1.endorsement.to (key_of p.1) ≡ some p.1
  filed_stays idx e p free h = elim (Bool-cases (is_at e p.1.endorsement.to (key_of p.1))) [
    | inl on ↦ absurd (cc (filed_at idx e p.1.endorsement.to (key_of p.1) on, h.1, free))
    | inr off ↦ filed-index idx e p.1.endorsement.to (key_of p.1) ∙ ground (arith, off, h.1)
  ]

  filed_own :
      (idx : EndorsementIndex Hash) (e : StoredEndorsement Hash)
      → filed (index_stored_endorsement idx e) e.endorsement.to (key_of e) ≡ some e
  filed_own idx e =
      filed-index idx e e.endorsement.to (key_of e)
      ∙ ground (
        arith,
        string_eq.beq_iff e.endorsement.to e.endorsement.to,
        string_eq.beq_iff (key_of e) (key_of e),
      )

  pub index-IsAgreeing :
      (idx : EndorsementIndex Hash) (e : StoredEndorsement Hash)
      → IsAgreeing compute_id idx
      → e.id ≡ compute_id e.endorsement
      → filed idx e.endorsement.to (key_of e) ≡ none
      → lookup e.id idx.by_id ≡ none
      → IsAgreeing compute_id (index_stored_endorsement idx e)
  unfolding index_stored_endorsement
  index-IsAgreeing idx e ag own free new = record {
    known = λ target key r found. index-IsKnown idx e r target key ag own new found;
    listed =
        All-insert (IsFiled (index_stored_endorsement idx e)) e.id e idx.by_id
          (All-mono (λ p h. (h.0, filed_stays idx e p free h)) idx.by_id ag.listed)
          (refl, filed_own idx e);
    unique = insert-IsKeyed e.id e idx.by_id ag.unique;
    endorsed = λ endorser i.
        has-index idx e endorser i
        ∙ ground (
          arith,
          ids.beq_iff e.id i,
          ag.endorsed endorser i,
          lookup-insert e.id i e idx.by_id,
          new,
        );
  }

  remove_existing-IsAgreeing :
      (idx : EndorsementIndex Hash) (target key : String)
      → IsAgreeing compute_id idx
      → IsAgreeing compute_id (remove_existing idx (filed idx target key))
  remove_existing-IsAgreeing idx target key ag = elim (Option-cases (filed idx target key)) [
    | inl absent ↦ rw absent ag
    | inr (r, found) ↦
        let own = sym (filed_at idx r target key (ag.known target key r found).0) ∙ found in
        rw found (remove-IsAgreeing idx r ag own)
  ]

  pub filed-remove_existing :
      (idx : EndorsementIndex Hash) (target key t k : String)
      → IsAgreeing compute_id idx
      → filed (remove_existing idx (filed idx target key)) t k
        ≡ (if target == t && key == k then none else filed idx t k)
  filed-remove_existing idx target key t k ag = elim (Option-cases (filed idx target key)) [
    | inl absent ↦
        rw absent (ground (arith, absent, string_eq.beq_iff target t, string_eq.beq_iff key k))
    | inr (r, found) ↦ rw found (
        filed-remove idx r t k
        ∙ ground (
          arith,
          (ag.known target key r found).0,
          string_eq.beq_iff r.endorsement.to target,
          string_eq.beq_iff (key_of r) key,
        ))
  ]

  -- An id is new where its place is free.
  lookup_new :
      (idx : EndorsementIndex Hash) (e : EndorsementV2)
      → IsCollisionFree compute_id
      → IsAgreeing compute_id idx
      → filed idx e.to (get_key e.sender e.domain) ≡ none
      → lookup (compute_id e) idx.by_id ≡ none
  lookup_new idx e free ag absent = elim (Option-cases (lookup (compute_id e) idx.by_id)) [
    | inl new ↦ new
    | inr (r, found) ↦
        let h = All-lookup (IsFiled idx) (compute_id e) r idx.by_id ag.listed found in
        let own = (ag.known r.endorsement.to (key_of r) r h.1).1 in
        let same = free e r.endorsement (h.0 ∙ own) in absurd (cc (same.0, same.1, h.1, absent))
  ]

  pub store-IsAgreeing :
      (idx : EndorsementIndex Hash) (e : EndorsementV2) (now : ℕ)
      → IsCollisionFree compute_id
      → IsAgreeing compute_id idx
      → IsAgreeing compute_id (store compute_id idx e now).0
  unfolding store
  store-IsAgreeing idx e now free ag =
      let key = get_key e.sender e.domain in
      let rest = remove_existing idx (filed idx e.to key) in
      let ag' : IsAgreeing compute_id rest = remove_existing-IsAgreeing idx e.to key ag in
      let absent : filed rest e.to key ≡ none =
        filed-remove_existing idx e.to key e.to key ag
        ∙ ground (arith, string_eq.beq_iff e.to e.to, string_eq.beq_iff key key) in
      index-IsAgreeing rest (record { endorsement = e; id = compute_id e; stored_at = now }) ag'
        refl absent (lookup_new rest e free ag' absent)
