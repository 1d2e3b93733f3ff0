-- ===== src/Relay/Directory/Visible.antt =====
-- Which agents the search of registry.ts shows.
use a.Base.{
  nat_beq, string_eq, Bool-cases, &&-eq-true, filter, All, All-filter, All-mono, All-filter_test,
  Map, All-perm, ℕ, String, ◌≡◌, refl, ap, ◌⊎◌, inl, inr, true, ◌&&◌, Option, none, some, List, [],
}
use a.Relay.Directory.{
  Texts, DirectoryAgentEntry, SearchQuery, is_visible, unique_entries, is_open_to, comes_first,
  entry_token_score, entries_by_score, ordered_entries, trusted_entries, filtered_entries,
  trimmed_capability, is_empty, tokenize,
}
use a.Relay.Directory.Named.{rank-perm, All-map}

module _ (texts : Texts) (q : SearchQuery) (P : DirectoryAgentEntry → Type 0) where
  trusted_entries_keep :
      (min_trust : Option ℕ) (summaries : Option (Map String ℕ)) (es : List DirectoryAgentEntry)
      → All P es
      → All P (trusted_entries texts min_trust summaries es)
  unfolding trusted_entries
  trusted_entries_keep none summaries es h = h
  trusted_entries_keep (some t) none es h = h
  trusted_entries_keep (some t) (some summaries) es h = elim (Bool-cases (nat_beq t 0)) [
    | inl e ↦ rw e h
    | inr e ↦ rw e (All-filter P _ es h)
  ]

  ordered_entries_keep :
      (es : List DirectoryAgentEntry) → All P es → All P (ordered_entries texts q es)
  unfolding ordered_entries entries_by_score
  ordered_entries_keep es h =
      let scored : DirectoryAgentEntry × ℕ → Type 0 = λ r. P r.0 in
      let tokens = tokenize texts (texts.trim q.query) in
      let by_score : All P (entries_by_score texts tokens es) =
        All-map P (λ r. r.0) _
          (All-perm scored (rank-perm (comes_first texts) _) (
            All-filter scored _ _
              (All-map scored (λ e. (e, entry_token_score texts e tokens)) es h))) in
      elim (Bool-cases (is_empty (trimmed_capability texts q.capability))) [
        | inl none_given ↦ elim (Bool-cases (is_empty (texts.trim q.query))) [
          | inl e ↦ rw (ordered_entries, none_given, e) h
          | inr e ↦ rw (ordered_entries, none_given, e) by_score
        ]
        | inr given ↦ rw (ordered_entries, given) (All-filter P _ es h)
      ]

-- An agent that a requester from the realm may see: it has no realm, or an empty one, or the same.
abbrev pub IsVisibleTo : String → DirectoryAgentEntry → Type 0
IsVisibleTo realm e =
    (e.online ≡ true)
    × (e.discoverable ≡ true)
    × ((e.visibility_realm ≡ none)
        ⊎ (e.visibility_realm ≡ some "")
        ⊎ (e.visibility_realm ≡ some realm))

open_lem :
    (realm : String) (o : Option String)
    → is_open_to realm o ≡ true
    → (o ≡ none) ⊎ (o ≡ some "") ⊎ (o ≡ some realm)
open_lem realm none h = inl refl
open_lem realm (some r) h = elim (Bool-cases (is_empty r)) [
  | inl e ↦ inr (inl (ap some ((string_eq.beq_iff r "").0 e)))
  | inr e ↦ inr (inr (ap some ((string_eq.beq_iff r realm).0 (rw e at h))))
]

visible-IsVisibleTo :
    (realm : String) (e : DirectoryAgentEntry) → is_visible realm e ≡ true → IsVisibleTo realm e
visible-IsVisibleTo realm e h =
    let (online, more) =
      &&-eq-true e.online (e.discoverable && is_open_to realm e.visibility_realm) h in
    let (discoverable, shown) =
      &&-eq-true e.discoverable (is_open_to realm e.visibility_realm) more in
    (online, discoverable, open_lem realm e.visibility_realm shown)

-- Whatever the query, the search finds only agents that are online and discoverable, and that have
-- no realm, an empty one, or the requester's.
pub filtered_entries_visible :
    (texts : Texts) (q : SearchQuery) (es : List DirectoryAgentEntry)
    → All (IsVisibleTo q.requester_realm) (filtered_entries texts q es)
unfolding filtered_entries
filtered_entries_visible texts q es =
    let P = IsVisibleTo q.requester_realm in
    let unique = unique_entries [] es in
    let visible = filter (is_visible q.requester_realm) unique in
    trusted_entries_keep texts q P q.min_trust q.trust_summaries (ordered_entries texts q visible) (
      ordered_entries_keep texts q P visible (
        All-mono (visible-IsVisibleTo q.requester_realm) visible
          (All-filter_test (is_visible q.requester_realm) unique)))
