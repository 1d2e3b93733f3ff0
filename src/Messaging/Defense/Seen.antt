-- ===== src/Messaging/Defense/Seen.antt =====
-- The seen cache of defense.ts.
use a.Base.{
  leb, if◌then◌else◌, ◌==◌, beq_refl, Bool-cases, length, All, Map, insert, delete, lookup-insert,
  length-delete-le, length-insert-le, ℕ, ◌-◌, ◌≤◌, ◌<◌, String, ◌≡◌, inl, inr, true, false, [], ◌∷◌,
  arith, nat_eq, string_eq, bytes_eq,
}
use a.Messaging.Defense.{Defense, max_seen_cache, drop_first, mark_as_seen, has_seen}

-- No message that is remembered has the empty id.
abbrev pub HasNames : Map String ℕ → Type 0
HasNames m = All (λ e. (e.0 == "") ≡ false) m

pub delete-HasNames : (k : String) (m : Map String ℕ) → HasNames m → HasNames (delete k m)
unfolding delete
delete-HasNames k [] h = tt
delete-HasNames k ((j, t) ∷ m) h = ground (arith, delete-HasNames k m h.1)

insert-HasNames :
    (k : String) (t : ℕ) (m : Map String ℕ)
    → (k == "") ≡ false
    → HasNames m
    → HasNames (insert k t m)
unfolding insert
insert-HasNames k t [] n h = (n, tt)
insert-HasNames k t ((j, u) ∷ m) n h = ground (arith, insert-HasNames k t m n h.1)

drop_first-HasNames : (m : Map String ℕ) → HasNames m → HasNames (drop_first m)
unfolding drop_first
drop_first-HasNames [] h = tt
drop_first-HasNames ((k, t) ∷ m) h = rw h.0 (delete-HasNames k ((k, t) ∷ m) h)

length-drop_first : (m : Map String ℕ) → HasNames m → length (drop_first m) ≤ length m - 1
unfolding drop_first delete
length-drop_first [] h = omega arith
length-drop_first ((k, t) ∷ m) h = rw (h.0, beq_refl k) (omega (arith, length-delete-le k m))

-- A message that is marked as seen counts as seen, whatever has to be forgotten for it.
pub mark_as_seen-has_seen :
    (s : Defense) (id : String) (now : ℕ) → has_seen (mark_as_seen s id now) id ≡ true
unfolding mark_as_seen has_seen
mark_as_seen-has_seen s id now = rw (
  lookup-insert id id now
      (if leb max_seen_cache (length s.seen_cache) then drop_first s.seen_cache else s.seen_cache),
  beq_refl id,
)

-- The cache and the names in it.
pub record IsCache (s : Defense) : Type 0 where
  pub bounded : length s.seen_cache ≤ max_seen_cache
  pub named : HasNames s.seen_cache

pub mark_as_seen-IsCache :
    (s : Defense) (id : String) (now : ℕ)
    → (id == "") ≡ false
    → IsCache s
    → IsCache (mark_as_seen s id now)
unfolding mark_as_seen
mark_as_seen-IsCache s id now n c = elim (Bool-cases (leb max_seen_cache (length s.seen_cache))) [
  | inl full ↦ rw full (record {
    bounded = omega (
      arith,
      length-insert-le id now (drop_first s.seen_cache),
      length-drop_first s.seen_cache c.named,
      c.bounded,
    );
    named =
        insert-HasNames id now (drop_first s.seen_cache) n
          (drop_first-HasNames s.seen_cache c.named);
  })
  | inr room ↦ rw room (record {
    bounded =
        let less : length s.seen_cache < max_seen_cache = ground arith in
        omega (arith, length-insert-le id now s.seen_cache, less);
    named = insert-HasNames id now s.seen_cache n c.named;
  })
]
