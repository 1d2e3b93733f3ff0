-- ===== src/Relay/Endorsements/Saved.antt =====
-- endorsement-index.ts after a restart: what `load` makes of what `save` wrote.
use a.Base.{
  if◌then◌else◌, Eq, Bool-cases, Option-cases, any, All, All-mono, Map, lookup, values,
  any-values-eq-true, sort_by, sort_by-perm, All-perm, any-perm, String, ◌≡◌, refl, sym, ap, ◌∙◌,
  inl, inr, true, Option, none, some, List, [], ◌∷◌, arith, string_eq,
}
use a.Relay.Endorsements.{
  EndorsementV2, StoredEndorsement, EndorsementIndex, clear, filed, target_map, load, save,
  index_all, index_stored_endorsement,
}
use a.Relay.Endorsements.Filing.{is_at, filed-index}
use a.Relay.Endorsements.Agreement.{IsAgreeing, filed_at}

module _ {Hash : Type 0} ⦃ids : Eq Hash⦄ where
  filed-index_all :
      (es : List (StoredEndorsement Hash)) (idx : EndorsementIndex Hash) (target key : String)
      (o : Option (StoredEndorsement Hash))
      → All (λ e. is_at e target key ≡ true → o ≡ some e) es
      → filed (index_all idx es) target key
        ≡ (if any (λ e. is_at e target key) es then o else filed idx target key)
  unfolding index_all
  filed-index_all [] idx target key o h = refl
  filed-index_all (e ∷ es) idx target key o h =
      filed-index_all es (index_stored_endorsement idx e) target key o h.1
      ∙ elim (Bool-cases (is_at e target key)) [
        | inl on ↦ ground (arith, on, filed-index idx e target key, h.0 on)
        | inr off ↦ ground (arith, off, filed-index idx e target key)
      ]

  filed-clear :
      (target key : String) → Path (Option (StoredEndorsement Hash)) (filed clear target key) none
  unfolding filed target_map lookup
  filed-clear target key = refl

  All-values :
      (P : StoredEndorsement Hash → Type 0) (m : Map Hash (StoredEndorsement Hash))
      → All (λ p. P p.1) m
      → All P (values m)
  All-values P [] h = tt
  All-values P (p ∷ m) h = (h.0, All-values P m h.1)

module _ {Hash : Type 0} ⦃ids : Eq Hash⦄ (compute_id : EndorsementV2 → Hash) where
  any-filed :
      (idx : EndorsementIndex Hash) (target key : String)
      → IsAgreeing compute_id idx
      → (if any (λ e. is_at e target key) (values idx.by_id) then filed idx target key else none)
        ≡ filed idx target key
  any-filed idx target key ag = elim (Option-cases (filed idx target key)) [
    | inl absent ↦ rw absent (ground arith)
    | inr (e, found) ↦
        let k = ag.known target key e found in
        let there = any-values-eq-true (λ r. is_at r target key) e.id e idx.by_id k.2 k.0 in
        rw there refl
  ]

  -- Loading what was saved from an index whose parts agree finds the same endorsement under every
  -- target and key.
  pub load-save :
      (idx : EndorsementIndex Hash) (target key : String)
      → IsAgreeing compute_id idx
      → filed (load (some (save idx))) target key ≡ filed idx target key
  unfolding load save
  load-save idx target key ag =
      let es = values idx.by_id in
      let moved = sort_by-perm (λ e. e.stored_at) es in
      filed-index_all (sort_by (λ e. e.stored_at) es) clear target key (filed idx target key) (
        All-perm (λ e. is_at e target key ≡ true → filed idx target key ≡ some e) moved
          (All-values (λ e. is_at e target key ≡ true → filed idx target key ≡ some e) idx.by_id
            (All-mono (λ p h on. filed_at compute_id idx p.1 target key on ∙ h.1) idx.by_id
              ag.listed)))
      ∙ ap
          (λ o.
            if any (λ e. is_at e target key) (sort_by (λ e. e.stored_at) es)
            then filed idx target key
            else o)
          (filed-clear target key)
      ∙ ap (λ b. if b then filed idx target key else none)
          (sym (any-perm (λ e. is_at e target key) moved))
      ∙ any-filed idx target key ag
