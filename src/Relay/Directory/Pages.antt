-- ===== src/Relay/Directory/Pages.antt =====
-- The pages of registry.ts's search, read one after the other with the cursor that each page gives.
use a.Base.{
  ltb, ltb→lt, ◌==◌, string_eq, Bool-cases, length, take, drop, length-drop, take-drop, All, ℕ,
  zero, suc, ◌+◌, ◌-◌, ◌≤◌, ◌<◌, min, String, ◌≡◌, refl, sym, ap, subst, ◌∙◌, ◌≢◌, inl, inr, true,
  false, Option, none, some, List, [], ◌∷◌, ◌++◌, map, arith, bytes_eq, nat_eq,
}
use a.Relay.Directory.{
  Texts, DirectoryAgentEntry, DiscoveredAgent, SearchPage, SearchQuery, discovered, find_index,
  last_did, start_after, start_index, page_of, filtered_entries, search_directory_entries, is_empty,
}
use a.Relay.Directory.Named.{AreNamed, filtered_entries-AreNamed}

find_index_at :
    (xs : List DirectoryAgentEntry) (i : ℕ) (x : DirectoryAgentEntry)
    (rest : List DirectoryAgentEntry)
    → AreNamed (λ e. e.did) xs
    → drop i xs ≡ x ∷ rest
    → find_index x.did xs ≡ some i
unfolding find_index
find_index_at [] zero x rest h e = absurd (cc e)
find_index_at [] (suc i) x rest h e = absurd (cc e)
find_index_at (y ∷ ys) zero x rest h e =
    let same : y ≡ x = cc e in
    let hit : y.did == x.did ≡ true = (string_eq.beq_iff y.did x.did).1 (ap (λ z. z.did) same) in
    rw hit
find_index_at (y ∷ ys) (suc i) x rest h e = elim (Bool-cases (y.did == x.did)) [
  | inl hit ↦ absurd (other_name ys i h.1.0 e (sym ((string_eq.beq_iff y.did x.did).0 hit)))
  | inr miss ↦ rw (miss, find_index_at ys i x rest h.1.1 e) (ap some (omega arith))
]
  where
    other_name :
        (zs : List DirectoryAgentEntry) (i : ℕ)
        → All (λ z. z.did ≢ y.did) zs
        → drop i zs ≡ x ∷ rest
        → x.did ≢ y.did
    other_name [] zero a e = absurd (cc e)
    other_name [] (suc i) a e = absurd (cc e)
    other_name (z ∷ zs) zero a e = let same : z ≡ x = cc e in subst (λ w. w.did ≢ y.did) same a.0
    other_name (z ∷ zs) (suc i) a e = other_name zs i a.1 e

-- The last entry of a page that the list goes on after.
last_of_page :
    (l : ℕ) (ys : List DirectoryAgentEntry)
    → l < length ys
    → (x : DirectoryAgentEntry) × ((last_did (take (suc l) ys) ≡ some x.did)
        × (drop l ys ≡ x ∷ drop (suc l) ys))
unfolding last_did
last_of_page l [] h = absurd (omega (arith, h))
last_of_page zero (y ∷ ys) h = (y, (refl, refl))
last_of_page (suc l) (y ∷ []) h = absurd (omega (arith, h))
last_of_page (suc l) (y ∷ z ∷ ys) h =
    let (x, (last, rest)) = last_of_page l (z ∷ ys) (omega (arith, h)) in (x, (last, rest))

drop_nil : (k : ℕ) → drop {A = DirectoryAgentEntry} k [] ≡ []
drop_nil zero = refl
drop_nil (suc k) = refl

drop-drop : (m n : ℕ) (xs : List DirectoryAgentEntry) → drop m (drop n xs) ≡ drop (n + m) xs
drop-drop m zero xs = ap (λ k. drop k xs) (omega arith)
drop-drop m (suc n) [] = drop_nil m ∙ sym (drop_nil (suc n + m))
drop-drop m (suc n) (x ∷ xs) =
    let shift : suc (n + m) ≡ suc n + m = omega arith in
    drop-drop m n xs ∙ ap (λ k. drop k (x ∷ xs)) shift

take_all : (n : ℕ) (xs : List DirectoryAgentEntry) → length xs ≤ n → take n xs ≡ xs
take_all zero [] h = refl
take_all zero (x ∷ xs) h = absurd (omega (arith, h))
take_all (suc n) [] h = refl
take_all (suc n) (x ∷ xs) h = ap (λ l. x ∷ l) (take_all n xs (omega (arith, h)))

map-append :
    (xs ys : List DirectoryAgentEntry)
    → map discovered (xs ++ ys) ≡ map discovered xs ++ map discovered ys
map-append [] ys = refl
map-append (x ∷ xs) ys = ap (λ l. discovered x ∷ l) (map-append xs ys)

abbrev continue_with :
    List DiscoveredAgent → Option (List DiscoveredAgent) → Option (List DiscoveredAgent)
continue_with agents none = none
continue_with agents (some rest) = some (agents ++ rest)

named_at :
    (xs : List DirectoryAgentEntry) (i : ℕ) (x : DirectoryAgentEntry)
    (rest : List DirectoryAgentEntry)
    → AreNamed (λ e. e.did) xs
    → drop i xs ≡ x ∷ rest
    → x.did ≢ ""
named_at [] zero x rest h e = absurd (cc e)
named_at [] (suc i) x rest h e = absurd (cc e)
named_at (y ∷ ys) zero x rest h e = let same : y ≡ x = cc e in subst (λ w. w.did ≢ "") same h.0
named_at (y ∷ ys) (suc i) x rest h e = named_at ys i x rest h.1.1 e

-- What a client does with a page: it asks for the next one with the page's cursor, if it has one.
abbrev read_on :
    Option SearchPage → (String → Option (List DiscoveredAgent)) → Option (List DiscoveredAgent)
read_on none next = none
read_on (some page) next = read_next page.agents page.cursor next
  where
    read_next :
        List DiscoveredAgent
        → Option String
        → (String → Option (List DiscoveredAgent))
        → Option (List DiscoveredAgent)
    read_next agents none next = some agents
    read_next agents (some cursor) next = continue_with agents (next cursor)

module _ (texts : Texts) (entries : List DirectoryAgentEntry) (q : SearchQuery) (limit : ℕ) where
  -- A client that asks for page after page, at most so many: all agents, or none if it must give up
  -- or a search fails.
  unfoldable pub read_pages : ℕ → Option String → Option (List DiscoveredAgent)
  read_pages zero cursor = none
  read_pages (suc fuel) cursor =
      read_on (search_directory_entries texts entries q limit cursor)
        (λ next. read_pages fuel (some next))

  abbrev found : List DirectoryAgentEntry
  found = filtered_entries texts q entries

  start_index_after :
      (did : String) (i : ℕ)
      → did ≢ ""
      → find_index did found ≡ some i
      → start_index texts found (some (texts.encode did)) ≡ i + 1
  unfolding start_index start_after
  start_index_after did i given h = elim (Bool-cases (is_empty (texts.encode did))) [
    | inl e ↦
        absurd (given (texts.encode-empty did ((string_eq.beq_iff (texts.encode did) "").0 e)))
    | inr e ↦
        rw (start_index, e)
          (ap (λ d. start_after texts (find_index d found)) (texts.decode-encode did)
            ∙ ap (start_after texts) h)
  ]

  searched :
      (cursor : Option String) (start l : ℕ)
      → start_index texts found cursor ≡ start
      → min limit 100 ≡ suc l
      → search_directory_entries texts entries q limit cursor ≡ page_of texts found start (suc l)
  unfolding search_directory_entries
  searched cursor start l at size =
      ap (λ i. page_of texts found i (min limit 100)) at ∙ ap (page_of texts found start) size

  page_more :
      (start size : ℕ) (did : String)
      → ltb (start + size) (length found) ≡ true
      → last_did (take size (drop start found)) ≡ some did
      → page_of texts found start size
        ≡ some (record {
          agents = map discovered (take size (drop start found));
          cursor = some (texts.encode did);
          total = length found;
        })
  unfolding page_of
  page_more start size did more last = rw (page_of, more, last)

  page_last :
      (start size : ℕ)
      → ltb (start + size) (length found) ≡ false
      → page_of texts found start size
        ≡ some (record {
          agents = map discovered (take size (drop start found));
          cursor = none;
          total = length found;
        })
  unfolding page_of
  page_last start size over = rw (page_of, over)

  read_pages_from :
      (fuel l : ℕ) (cursor : Option String) (start : ℕ)
      → min limit 100 ≡ suc l
      → AreNamed (λ e. e.did) found
      → start_index texts found cursor ≡ start
      → start ≤ length found
      → length found < start + fuel
      → read_pages fuel cursor ≡ some (map discovered (drop start found))
  unfolding read_pages
  read_pages_from zero l cursor start size named at inside h = absurd (omega (arith, inside, h))
  read_pages_from (suc fuel) l cursor start size named at inside h =
      let page = searched cursor start l at size in
      let go = λ (o : Option SearchPage). read_on o (λ next. read_pages fuel (some next)) in
      let all_from = drop start found in
      elim (Bool-cases (ltb (start + suc l) (length found))) [
        | inl more ↦
            let room : start + suc l < length found = ltb→lt _ _ more in
            let left = length-drop start found in
            let (x, (last, rest)) = last_of_page l all_from (omega arith) in
            let here : drop (start + l) found ≡ x ∷ drop (suc l) all_from =
              sym (drop-drop l start found) ∙ rest in
            let next : start_index texts found (some (texts.encode x.did)) ≡ start + suc l =
              start_index_after x.did (start + l) (named_at found (start + l) x _ named here)
                (find_index_at found (start + l) x _ named here)
              ∙ omega arith in
            let later =
              read_pages_from fuel l (some (texts.encode x.did)) (start + suc l) size named next
                (omega arith) (omega arith) in
            ap go (page ∙ page_more start (suc l) x.did more last)
            ∙ ap (continue_with (map discovered (take (suc l) all_from))) later
            ∙ ap some (
                ap (λ r. map discovered (take (suc l) all_from) ++ map discovered r)
                  (sym (drop-drop (suc l) start found))
                ∙ sym (map-append (take (suc l) all_from) (drop (suc l) all_from))
                ∙ ap (map discovered) (take-drop (suc l) all_from))
        | inr over ↦
            let left = length-drop start found in
            let short : length all_from ≤ suc l = ground (arith, over, left) in
            ap go (page ∙ page_last start (suc l) over)
            ∙ ap (λ r. some (map discovered r)) (take_all (suc l) all_from short)
      ]

  -- A client that follows the cursors from the first page reads exactly the agents that the search
  -- finds, each once and in order, and ends: if a page has room for an agent, no DID is empty, and
  -- the client may ask for a page more than there are agents found.
  pub read_pages_lem :
      (fuel : ℕ)
      → 1 ≤ limit
      → All (λ e. e.did ≢ "") entries
      → length (filtered_entries texts q entries) < fuel
      → read_pages fuel none ≡ some (map discovered (filtered_entries texts q entries))
  unfolding start_index
  read_pages_lem fuel positive given h =
      read_pages_from fuel (min limit 100 - 1) none 0 (omega arith)
        (filtered_entries-AreNamed texts q entries given) refl (omega arith) (omega arith)
