-- ===== src/Relay/Tests/OfEndorsements.antt =====
-- The theorems on the endorsement index at work: ids are pairs of a target and a key.
use a.Base.{
  Eq, ◌==◌, string_eq, beq_refl, &&-eq-true, length, any, All, values, ℕ, ◌≤◌, min, String, ◌≡◌,
  refl, ap, ◌↔◌, true, ◌&&◌, Option, none, some, List, [], ◌∷◌, ◌++◌, map, arith, bytes_eq, nat_eq,
}
use a.Relay.Endorsements.{
  target_map, EndorsementV2, StoredEndorsement, get_key, clear, filed, save, load, get_by_endorser,
}
use a.Relay.Endorsements.Agreement.{IsAgreeing, IsCollisionFree}
use a.Relay.Endorsements.Book.{
  Operation, storing, collecting, run, history, empty_book, run_book, run-IsAgreeing,
}
use a.Relay.Endorsements.Saved.{load-save}
use a.Relay.Endorsements.Endorsers.{IsBy, get_by_endorser_lem}
use a.Relay.Endorsements.Queries.{query, sum_of}
use a.Relay.Endorsements.Summaries.{IsAsked, IsNewestFirst, asked, query_lem}
use mathlib.Core.List.{Permᴰ, Memᴰ}

abbrev Hash : Type 0
Hash = String × String

same_pair : (p q : Hash) → ((p.0 == q.0 && p.1 == q.1) ≡ true) ↔ (p ≡ q)
same_pair p q = (
  λ h.
      let both = &&-eq-true (p.0 == q.0) (p.1 == q.1) h in
      cc ((string_eq.beq_iff p.0 q.0).0 both.0, (string_eq.beq_iff p.1 q.1).0 both.1),
  λ e. rw e (ground (arith, beq_refl q.0, beq_refl q.1)),
)

instance abbrev pair_eq : Eq Hash
pair_eq = record { beq = λ p q. p.0 == q.0 && p.1 == q.1; beq_iff = same_pair }

abbrev compute_id : EndorsementV2 → Hash
compute_id e = (e.to, get_key e.sender e.domain)

free : IsCollisionFree compute_id
free x y e = (ap (λ p. p.0) e, ap (λ p. p.1) e)

abbrev endorsement : String → ℕ → Option ℕ → EndorsementV2
endorsement sender timestamp expires = record {
  sender = sender;
  to = "did:t";
  score = 800;
  domain = none;
  reason = "";
  timestamp = timestamp;
  expires = expires;
  signature = "";
}

abbrev operations : List Operation
operations =
    storing (endorsement "did:a" 10 (some 20)) 11
    ∷ storing (endorsement "did:b" 12 none) 13
    ∷ storing (endorsement "did:b" 14 none) 15
    ∷ collecting 31
    ∷ []

abbrev newest : StoredEndorsement Hash
newest = record {
  endorsement = endorsement "did:b" 14 none;
  id = ("did:t", "did:b:*");
  stored_at = 15;
}

run_book_example :
    filed (run compute_id clear operations) "did:t" "did:b:*"
    ≡ history compute_id empty_book operations "did:t" "did:b:*"
run_book_example = run_book compute_id operations "did:t" "did:b:*" free

-- The newer endorsement of the same endorser is what the book holds, and the expired one is gone.
held : history compute_id empty_book operations "did:t" "did:b:*" ≡ some newest
unfolding get_key
held = refl

gone : history compute_id empty_book operations "did:t" "did:a:*" ≡ none
unfolding get_key
gone = refl

run-IsAgreeing_example : IsAgreeing compute_id (run compute_id clear operations)
run-IsAgreeing_example = run-IsAgreeing compute_id operations free

load-save_example :
    filed (load (some (save (run compute_id clear operations)))) "did:t" "did:b:*"
    ≡ filed (run compute_id clear operations) "did:t" "did:b:*"
load-save_example =
    load-save compute_id (run compute_id clear operations) "did:t" "did:b:*"
      (run-IsAgreeing compute_id operations free)

get_by_endorser_lem_example :
    All
      (IsBy (run compute_id clear operations) "did:b")
      (get_by_endorser (run compute_id clear operations) "did:b")
    × ((target key : String) (e : StoredEndorsement Hash)
        → filed (run compute_id clear operations) target key ≡ some e
        → e.endorsement.sender ≡ "did:b"
        → any (λ r. r.id == e.id) (get_by_endorser (run compute_id clear operations) "did:b")
          ≡ true)
get_by_endorser_lem_example = get_by_endorser_lem compute_id operations "did:b" free

query_lem_example :
    let idx = run compute_id clear operations in
    let answer = query idx "did:t" none (some 5) 10 16 in
    let all_asked = asked idx "did:t" none (some 5) 16 in
    ((e : StoredEndorsement Hash)
      → Memᴰ e (values (target_map idx "did:t"))
      → IsAsked none (some 5) 16 e
      → Memᴰ e all_asked)
    × (answer.total ≡ length all_asked)
    × (answer.average_score.count ≡ length all_asked)
    × (answer.average_score.sum ≡ sum_of (map (λ e. e.endorsement.score) all_asked))
    × (length answer.endorsements ≡ min 10 (length all_asked))
    × All (IsAsked none (some 5) 16) answer.endorsements
    × IsNewestFirst (λ e. e.endorsement.timestamp) answer.endorsements
    × ((xs : List (StoredEndorsement Hash)) × Permᴰ all_asked (answer.endorsements ++ xs)
        × All
            (λ e. All (λ x. x.endorsement.timestamp ≤ e.endorsement.timestamp) xs)
            answer.endorsements)
query_lem_example = query_lem (run compute_id clear operations) "did:t" none (some 5) 10 16
