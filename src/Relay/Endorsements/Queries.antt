-- ===== src/Relay/Endorsements/Queries.antt =====
-- What endorsement-index.ts answers to queries.
use a.Base.{
  ltb, leb, if◌then◌else◌, Eq, ◌==◌, is_some, length, take, filter, any, values, ℕ, ◌+◌, ◌*◌, min,
  String, Bool, true, ◌&&◌, ◌||◌, Option, none, some, List, [], ◌∷◌, map, string_eq, nat_eq,
  bytes_eq,
}
use text.Mathlib.Text.{find?}
use a.Relay.Endorsements.{StoredEndorsement, EndorsementIndex, expiry, target_map}

-- `!e.expires || e.expires > now`
abbrev pub is_unexpired : ℕ → Option ℕ → Bool
is_unexpired now none = true
is_unexpired now (some expires) = ltb now expires

abbrev pub is_of_domain : Option String → Option String → Bool
is_of_domain none d = true
is_of_domain (some domain) none = true
is_of_domain (some domain) (some d) = d == domain || d == "*"

abbrev pub is_since : Option ℕ → ℕ → Bool
is_since none timestamp = true
is_since (some since) timestamp = leb since timestamp

-- An average: a sum and the number that divides it; 0 where there is none.
pub record Average : Type 0 where
  pub sum : ℕ
  pub count : ℕ

pub record QueryResult (Hash : Type 0) : Type 0 where
  pub endorsements : List (StoredEndorsement Hash)
  pub total : ℕ
  pub average_score : Average

pub record TrustSummary : Type 0 where
  pub endorsement_count : ℕ
  pub average_score : Average
  pub oldest_endorsement : ℕ
  pub verified : Bool

abbrev pub sum_of : List ℕ → ℕ
sum_of [] = 0
sum_of (n ∷ ns) = n + sum_of ns

-- `Math.min` of the first and the others
abbrev pub least : ℕ → List ℕ → ℕ
least n [] = n
least n (k ∷ ks) = min n (least k ks)

-- `Math.min` of the timestamps, the time now where there is none.
abbrev pub oldest : ℕ → List ℕ → ℕ
oldest now [] = now
oldest now (t ∷ ts) = least t ts

-- `averageScore >= 0.7`, in thousandths.
abbrev pub is_good : Average → Bool
is_good a = leb (700 * a.count) a.sum

-- Newest first: equal times keep their order, and a later time goes before an earlier one.
unfoldable pub insert_newest {ℓ} : {A : Type ℓ} → (A → ℕ) → A → List A → List A
insert_newest key x [] = x ∷ []
insert_newest key x (y ∷ ys) =
    if leb (key y) (key x) then x ∷ y ∷ ys else y ∷ insert_newest key x ys

unfoldable pub sort_newest {ℓ} : {A : Type ℓ} → (A → ℕ) → List A → List A
unfolding insert_newest
sort_newest key [] = []
sort_newest key (x ∷ xs) = insert_newest key x (sort_newest key xs)

module _ {Hash : Type 0} ⦃ids : Eq Hash⦄ where
  abbrev pub is_asked : Option String → Option ℕ → ℕ → StoredEndorsement Hash → Bool
  is_asked domain since now e =
      is_unexpired now (expiry e.endorsement.expires)
      && is_of_domain domain e.endorsement.domain
      && is_since since e.endorsement.timestamp

  -- The three filters and the sort.
  unfoldable pub matching :
      EndorsementIndex Hash → String → Option String → Option ℕ → ℕ → List (StoredEndorsement Hash)
  unfolding filter sort_newest insert_newest target_map
  matching idx target domain since now =
      sort_newest (λ e. e.endorsement.timestamp)
        (filter (is_asked domain since now) (values (target_map idx target)))

  unfoldable pub query :
      EndorsementIndex Hash → String → Option String → Option ℕ → ℕ → ℕ → QueryResult Hash
  unfolding matching
  query idx target domain since limit now =
      let found = matching idx target domain since now in
      record {
        endorsements = take limit found;
        total = length found;
        average_score = record {
          sum = sum_of (map (λ e. e.endorsement.score) found);
          count = length found;
        };
      }

  unfoldable pub get_trust_summary : EndorsementIndex Hash → String → ℕ → Option TrustSummary
  unfolding query
  get_trust_summary idx target now =
      let answer = query idx target none none 1000 now in
      if ltb answer.total 3
      then none
      else some (record {
        endorsement_count = answer.total;
        average_score = answer.average_score;
        oldest_endorsement = oldest now (map (λ e. e.endorsement.timestamp) answer.endorsements);
        verified = leb 10 answer.total && is_good answer.average_score;
      })

  unfoldable pub has_endorsement_from : EndorsementIndex Hash → String → String → Bool
  unfolding target_map
  has_endorsement_from idx endorser_prefix target =
      any (λ p. is_some (find? p.1.endorsement.sender endorser_prefix)) (target_map idx target)
