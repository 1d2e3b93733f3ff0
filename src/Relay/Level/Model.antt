-- ===== src/Relay/Level/Model.antt =====
-- A database that the assumptions on `level` hold of: a map without repeated keys.
use a.Base.{
  if◌then◌else◌, ◌==◌, beq_refl, Bool-cases, Map, lookup, delete, lookup-delete, perm_refl, String,
  ◌≡◌, refl, inl, inr, some, [], ◌∷◌, arith, string_eq, nat_eq, bytes_eq,
}
use a.Relay.Level.{Level, IsUnique}

pub delete-IsUnique :
    {V : Type 0} (k : String) (m : Map String V) → IsUnique m → IsUnique (delete k m)
unfolding delete
delete-IsUnique k [] u = tt
delete-IsUnique k ((j, v) ∷ m) u = elim (Bool-cases (j == k)) [
  | inl same ↦ rw same (delete-IsUnique k m u.1)
  | inr other ↦ rw other (rw (lookup-delete k j m, u.0) (ground arith), delete-IsUnique k m u.1)
]

pub put-IsUnique :
    {V : Type 0} (k : String) (v : V) (m : Map String V)
    → IsUnique m
    → IsUnique ((k, v) ∷ delete k m)
put-IsUnique k v m u = (rw (lookup-delete k k m, beq_refl k), delete-IsUnique k m u)

pub lookup-put :
    {V : Type 0} (k j : String) (v : V) (m : Map String V)
    → lookup j ((k, v) ∷ delete k m) ≡ (if k == j then some v else lookup j m)
unfolding lookup
lookup-put k j v m = elim (Bool-cases (k == j)) [
  | inl same ↦ rw same
  | inr other ↦ rw (other, lookup-delete k j m, other)
]

abbrev pub model : (V : Type 0) → Level V
model V = record {
  Db = (m : Map String V) × IsUnique m;
  get = λ db k. lookup k db.0;
  put = λ db k v. ((k, v) ∷ delete k db.0, put-IsUnique k v db.0 db.1);
  del = λ db k. (delete k db.0, delete-IsUnique k db.0 db.1);
  entries = λ db. db.0;
  get-put = λ db k v j. lookup-put k j v db.0;
  get-del = λ db k j. lookup-delete k j db.0;
  get-entries = λ db k. refl;
  entries-IsUnique = λ db. db.1;
  entries-put = λ db k v. perm_refl _;
}
