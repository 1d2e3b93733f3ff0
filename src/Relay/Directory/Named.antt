-- ===== src/Relay/Directory/Named.antt =====
-- The search of registry.ts keeps entries apart by their DIDs.
use a.Base.{
  nat_beq, ◌==◌, beq_refl, Bool-cases, filter, any, All, All-filter, Map, perm_refl, All-perm, ℕ,
  String, ◌≡◌, refl, sym, ap, subst, ◌∙◌, ◌≢◌, inl, inr, Bool, true, false, Option, none, some,
  List, [], ◌∷◌, map, arith, string_eq, bytes_eq, nat_eq,
}
use mathlib.Core.List.{Permᴰ}
use a.Relay.Directory.{
  Texts, DirectoryAgentEntry, SearchQuery, is_visible, unique_entries, insert_ranked, rank,
  comes_first, entry_token_score, entries_by_score, ordered_entries, trusted_entries,
  filtered_entries, trimmed_capability, is_empty, tokenize,
}

-- No name is empty, and none occurs twice.
abbrev pub AreNamed {ℓ} : {A : Type ℓ} → (A → String) → List A → Type ℓ
AreNamed name [] = Unit
AreNamed name (x ∷ xs) = (name x ≢ "") × (All (λ y. name y ≢ name x) xs × AreNamed name xs)

filter-AreNamed {ℓ} :
    {A : Type ℓ} (name : A → String) (p : A → Bool) (xs : List A)
    → AreNamed name xs
    → AreNamed name (filter p xs)
unfolding filter
filter-AreNamed name p [] h = tt
filter-AreNamed name p (x ∷ xs) h = elim (Bool-cases (p x)) [
  | inl e ↦
      rw e (h.0, (All-filter (λ y. name y ≢ name x) p xs h.1.0, filter-AreNamed name p xs h.1.1))
  | inr e ↦ rw e (filter-AreNamed name p xs h.1.1)
]

AreNamed-perm {ℓ} :
    {A : Type ℓ} (name : A → String) {xs ys : List A}
    → Permᴰ xs ys
    → AreNamed name xs
    → AreNamed name ys
AreNamed-perm name Permᴰ.nil h = h
AreNamed-perm name (Permᴰ.cons {l₂} e d) h = (
  subst (λ b. name b ≢ "") e h.0,
  (subst (λ b. All (λ y. name y ≢ name b) l₂) e (All-perm _ d h.1.0), AreNamed-perm name d h.1.1),
)
AreNamed-perm name (Permᴰ.swap {a} {a'} {l} e f) h =
    subst (λ x. AreNamed name (a' ∷ x ∷ l)) e
      (subst (λ x. AreNamed name (x ∷ a ∷ l)) f
        (h.1.1.0, (((λ k. h.1.0.0 (sym k)), h.1.1.1.0), (h.0, (h.1.0.1, h.1.1.1.1)))))
AreNamed-perm name (Permᴰ.trans d e) h = AreNamed-perm name e (AreNamed-perm name d h)

insert_ranked-perm {ℓ} :
    {A : Type ℓ} (le : A → A → Bool) (x : A) (xs : List A) → Permᴰ (x ∷ xs) (insert_ranked le x xs)
unfolding insert_ranked
insert_ranked-perm le x [] = Permᴰ.cons refl Permᴰ.nil
insert_ranked-perm le x (y ∷ ys) = elim (Bool-cases (le x y)) [
  | inl e ↦ rw e (Permᴰ.cons refl (Permᴰ.cons refl (perm_refl ys)))
  | inr e ↦ rw e (Permᴰ.trans (Permᴰ.swap refl refl) (Permᴰ.cons refl (insert_ranked-perm le x ys)))
]

pub rank-perm {ℓ} : {A : Type ℓ} (le : A → A → Bool) (xs : List A) → Permᴰ xs (rank le xs)
unfolding rank
rank-perm le [] = Permᴰ.nil
rank-perm le (x ∷ xs) =
    Permᴰ.trans (Permᴰ.cons refl (rank-perm le xs)) (insert_ranked-perm le x (rank le xs))

pub All-map {ℓ κ ι} :
    {A : Type ℓ} {B : Type κ} (P : B → Type ι) (f : A → B) (xs : List A)
    → All (λ x. P (f x)) xs
    → All P (map f xs)
All-map P f [] h = tt
All-map P f (x ∷ xs) h = (h.0, All-map P f xs h.1)

map-AreNamed {ℓ} :
    {A : Type ℓ} {B : Type ℓ} (name : B → String) (f : A → B) (xs : List A)
    → AreNamed (λ x. name (f x)) xs
    → AreNamed name (map f xs)
map-AreNamed name f [] h = tt
map-AreNamed name f (x ∷ xs) h =
    (h.0, (All-map (λ y. name y ≢ name (f x)) f xs h.1.0, map-AreNamed name f xs h.1.1))

unique_entries-apart :
    (seen : List String) (did : String) (es : List DirectoryAgentEntry)
    → any (λ d. d == did) seen ≡ true
    → All (λ e. e.did ≢ did) (unique_entries seen es)
unfolding unique_entries
unique_entries-apart seen did [] h = tt
unique_entries-apart seen did (e ∷ es) h = elim (Bool-cases (any (λ d. d == e.did) seen)) [
  | inl known ↦ rw known (unique_entries-apart seen did es h)
  | inr new ↦ rw new (
    λ same. true_is_not_false (sym h ∙ ap (λ i. any (λ d. d == i) seen) (sym same) ∙ new),
    unique_entries-apart (e.did ∷ seen) did es (ground (arith, h)),
  )
]
  where
    true_is_not_false : true ≢ false
    true_is_not_false k = cc k

unique_entries-AreNamed :
    (seen : List String) (es : List DirectoryAgentEntry)
    → All (λ e. e.did ≢ "") es
    → AreNamed (λ e. e.did) (unique_entries seen es)
unfolding unique_entries
unique_entries-AreNamed seen [] h = tt
unique_entries-AreNamed seen (e ∷ es) h = elim (Bool-cases (any (λ d. d == e.did) seen)) [
  | inl known ↦ rw known (unique_entries-AreNamed seen es h.1)
  | inr new ↦ rw new (
    h.0,
    (
      unique_entries-apart (e.did ∷ seen) e.did es (rw (beq_refl e.did)),
      unique_entries-AreNamed (e.did ∷ seen) es h.1,
    ),
  )
]

trusted_entries-AreNamed :
    (texts : Texts) (min_trust : Option ℕ) (summaries : Option (Map String ℕ))
    (es : List DirectoryAgentEntry)
    → AreNamed (λ e. e.did) es
    → AreNamed (λ e. e.did) (trusted_entries texts min_trust summaries es)
unfolding trusted_entries
trusted_entries-AreNamed texts none summaries es h = h
trusted_entries-AreNamed texts (some t) none es h = h
trusted_entries-AreNamed texts (some t) (some summaries) es h = elim (Bool-cases (nat_beq t 0)) [
  | inl e ↦ rw e h
  | inr e ↦ rw e (filter-AreNamed (λ e. e.did) _ es h)
]

ordered_entries-AreNamed :
    (texts : Texts) (q : SearchQuery) (es : List DirectoryAgentEntry)
    → AreNamed (λ e. e.did) es
    → AreNamed (λ e. e.did) (ordered_entries texts q es)
unfolding ordered_entries entries_by_score
ordered_entries-AreNamed texts q es h =
    let name : DirectoryAgentEntry → String = λ e. e.did in
    let scored : DirectoryAgentEntry × ℕ → String = λ r. r.0.did in
    let tokens = tokenize texts (texts.trim q.query) in
    let by_score : AreNamed name (entries_by_score texts tokens es) =
      map-AreNamed name (λ r. r.0) _
        (AreNamed-perm scored (rank-perm (comes_first texts) _) (
          filter-AreNamed scored _ _
            (map-AreNamed scored (λ e. (e, entry_token_score texts e tokens)) es h))) in
    elim (Bool-cases (is_empty (trimmed_capability texts q.capability))) [
      | inl none_given ↦ elim (Bool-cases (is_empty (texts.trim q.query))) [
        | inl e ↦ rw (ordered_entries, none_given, e) h
        | inr e ↦ rw (ordered_entries, none_given, e) by_score
      ]
      | inr given ↦ rw (ordered_entries, given) (filter-AreNamed name _ es h)
    ]

-- The entries that a search finds have different DIDs, none of them empty, if none is to begin with.
pub filtered_entries-AreNamed :
    (texts : Texts) (q : SearchQuery) (es : List DirectoryAgentEntry)
    → All (λ e. e.did ≢ "") es
    → AreNamed (λ e. e.did) (filtered_entries texts q es)
unfolding filtered_entries
filtered_entries-AreNamed texts q es h =
    trusted_entries-AreNamed texts q.min_trust q.trust_summaries _ (
      ordered_entries-AreNamed texts q _ (
        filter-AreNamed (λ e. e.did) (is_visible q.requester_realm) _
          (unique_entries-AreNamed [] es h)))
