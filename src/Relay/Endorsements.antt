-- ===== src/Relay/Endorsements.antt =====
-- js/relay/src/endorsement-index.ts: the signed endorsements that the relay keeps and hands out on
-- query. The hash that gives an endorsement its id is the parameter `compute_id`, and the clock is an
-- argument. Scores are in thousandths and an average is the sum with the count that divides it,
-- where the code has floating point. The file is the list that it holds.
pub mod Filing
pub mod Agreement
pub mod Book
pub mod Queries
pub mod Saved
pub mod Endorsers
pub mod Summaries
use a.Base.{
  nat_beq, if◌then◌else◌, Eq, ◌==◌, or_else, join, length, filter, any, Map, lookup, insert, delete,
  values, ◌+ℤ◌, ◌-ℤ◌, leb_ℤ, pos, sort_by, ℕ, suc, String, Bool, false, not, Option, none, some,
  List, [], ◌∷◌, ◌++◌, bytes_eq, nat_eq, string_eq,
}

pub record EndorsementV2 : Type 0 where
  pub sender : String
  pub to : String
  pub score : ℕ
  pub domain : Option String
  pub reason : String
  pub timestamp : ℕ
  pub expires : Option ℕ
  pub signature : String

pub record StoredEndorsement (Hash : Type 0) : Type 0 where
  pub endorsement : EndorsementV2
  pub id : Hash
  pub stored_at : ℕ

pub record EndorsementIndex (Hash : Type 0) : Type 0 where
  pub by_target : Map String (Map String (StoredEndorsement Hash))
  pub by_endorser : Map String (List Hash)
  pub by_id : Map Hash (StoredEndorsement Hash)

-- `value || '*'`
abbrev pub or_star : Option String → String
or_star none = "*"
or_star (some domain) = if domain == "" then "*" else domain

unfoldable pub get_key : String → Option String → String
get_key sender domain = join (sender ∷ ":" ∷ or_star domain ∷ [])

abbrev pub key_of : {Hash : Type 0} → StoredEndorsement Hash → String
key_of e = get_key e.endorsement.sender e.endorsement.domain

-- `!e.expires`: none is given, or it is 0.
abbrev pub expiry : Option ℕ → Option ℕ
expiry none = none
expiry (some t) = if nat_beq t 0 then none else some t

-- The map entry, or none where the collection has become empty.
unfoldable pub put_back {κ} :
    {V : Type κ} → String → List V → Map String (List V) → Map String (List V)
unfolding insert delete
put_back k [] m = delete k m
put_back k (v ∷ vs) m = insert k (v ∷ vs) m

-- `now > expires + (expires - timestamp)`, for an endorsement that expires.
abbrev pub is_past_ttl : ℕ → ℕ → Option ℕ → Bool
is_past_ttl now timestamp none = false
is_past_ttl now timestamp (some expires) =
    not (leb_ℤ (pos now) (pos expires +ℤ (pos expires -ℤ pos timestamp)))

abbrev pub is_collected : {Hash : Type 0} → ℕ → StoredEndorsement Hash → Bool
is_collected now e = is_past_ttl now e.endorsement.timestamp (expiry e.endorsement.expires)

abbrev pub if_there {ℓ} : {A : Type ℓ} → Option A → List A → List A
if_there none xs = xs
if_there (some x) xs = x ∷ xs

module _ {Hash : Type 0} ⦃ids : Eq Hash⦄ where
  abbrev pub clear : EndorsementIndex Hash
  clear = record { by_target = []; by_endorser = []; by_id = [] }

  -- What is filed for the target, and for the target under the key.
  unfoldable pub target_map : EndorsementIndex Hash → String → Map String (StoredEndorsement Hash)
  unfolding lookup
  target_map idx target = or_else (lookup target idx.by_target) []

  unfoldable pub filed : EndorsementIndex Hash → String → String → Option (StoredEndorsement Hash)
  unfolding lookup target_map
  filed idx target key = lookup key (target_map idx target)

  -- `Set.add`, `Set.delete`
  abbrev pub add_to : Hash → List Hash → List Hash
  add_to i is = if any (λ j. j == i) is then is else is ++ (i ∷ [])

  abbrev pub remove_from : Hash → List Hash → List Hash
  remove_from i is = filter (λ j. not (j == i)) is

  unfoldable pub index_stored_endorsement :
      EndorsementIndex Hash → StoredEndorsement Hash → EndorsementIndex Hash
  unfolding lookup insert target_map filter get_key
  index_stored_endorsement idx e = record {
    by_target =
        insert e.endorsement.to (insert (key_of e) e (target_map idx e.endorsement.to))
          idx.by_target;
    by_endorser =
        insert e.endorsement.sender
          (add_to e.id (or_else (lookup e.endorsement.sender idx.by_endorser) [])) idx.by_endorser;
    by_id = insert e.id e idx.by_id;
  }

  unfoldable pub remove_stored_endorsement :
      EndorsementIndex Hash → StoredEndorsement Hash → EndorsementIndex Hash
  unfolding lookup delete target_map filter get_key put_back
  remove_stored_endorsement idx e = record {
    by_target =
        put_back e.endorsement.to (delete (key_of e) (target_map idx e.endorsement.to))
          idx.by_target;
    by_endorser =
        put_back e.endorsement.sender
          (remove_from e.id (or_else (lookup e.endorsement.sender idx.by_endorser) []))
          idx.by_endorser;
    by_id = delete e.id idx.by_id;
  }

  abbrev pub remove_existing :
      EndorsementIndex Hash → Option (StoredEndorsement Hash) → EndorsementIndex Hash
  remove_existing idx none = idx
  remove_existing idx (some existing) = remove_stored_endorsement idx existing

  unfoldable pub store :
      (EndorsementV2 → Hash)
      → EndorsementIndex Hash
      → EndorsementV2
      → ℕ
      → EndorsementIndex Hash × Hash
  unfolding filed get_key remove_stored_endorsement index_stored_endorsement
  store compute_id idx e now = (
    index_stored_endorsement (remove_existing idx (filed idx e.to (get_key e.sender e.domain)))
        (record { endorsement = e; id = compute_id e; stored_at = now }),
    compute_id e,
  )

  unfoldable pub index_all :
      EndorsementIndex Hash → List (StoredEndorsement Hash) → EndorsementIndex Hash
  unfolding index_stored_endorsement
  index_all idx [] = idx
  index_all idx (e ∷ es) = index_all (index_stored_endorsement idx e) es

  -- The file's list, none where there is no file or no list in it.
  unfoldable pub load : Option (List (StoredEndorsement Hash)) → EndorsementIndex Hash
  unfolding index_all
  load none = clear
  load (some es) = index_all clear es

  unfoldable pub save : EndorsementIndex Hash → List (StoredEndorsement Hash)
  unfolding sort_by
  save idx = sort_by (λ e. e.stored_at) (values idx.by_id)

  unfoldable pub collect :
      ℕ → List (StoredEndorsement Hash) → EndorsementIndex Hash × ℕ → EndorsementIndex Hash × ℕ
  unfolding remove_stored_endorsement
  collect now [] (idx, removed) = (idx, removed)
  collect now (e ∷ es) (idx, removed) = collect now es (
      if is_collected now e then (remove_stored_endorsement idx e, suc removed) else (idx, removed))

  unfoldable pub garbage_collect : EndorsementIndex Hash → ℕ → EndorsementIndex Hash × ℕ
  unfolding collect
  garbage_collect idx now = collect now (values idx.by_id) (idx, 0)

  -- The endorsements of a set of ids that are there.
  unfoldable pub present : EndorsementIndex Hash → List Hash → List (StoredEndorsement Hash)
  unfolding lookup
  present idx [] = []
  present idx (i ∷ is) = if_there (lookup i idx.by_id) (present idx is)

  unfoldable pub get_by_endorser : EndorsementIndex Hash → String → List (StoredEndorsement Hash)
  unfolding lookup present
  get_by_endorser idx endorser = present idx (or_else (lookup endorser idx.by_endorser) [])

  unfoldable pub size : EndorsementIndex Hash → ℕ
  size idx = length idx.by_id
