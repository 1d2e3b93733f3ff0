-- ===== src/Relay/Level.antt =====
-- The database of the npm package `level` that the relay's stores keep their records in: text keys,
-- `get`, `put`, `del` and an iterator. It is a parameter; the laws are what its documentation says.
pub mod Model
use mathlib.Core.List.{Permᴰ}
use a.Base.{
  if◌then◌else◌, ◌==◌, Map, lookup, delete, String, ◌≡◌, Bool, false, Option, none, some, [], ◌∷◌,
  string_eq, nat_eq, bytes_eq,
}

-- No key twice.
abbrev pub IsUnique {ℓ} : {V : Type ℓ} → Map String V → Type ℓ
IsUnique [] = Unit
IsUnique ((k, v) ∷ m) = (lookup k m ≡ none) × IsUnique m

pub record Level (V : Type 0) : Type 1 where
  pub Db : Type 0
  pub get : Db → String → Option V
  pub put : Db → String → V → Db
  pub del : Db → String → Db
  -- what the iterator yields, in its order
  pub entries : Db → Map String V
  pub get-put :
      (db : Db) (k : String) (v : V) (j : String)
      → get (put db k v) j ≡ (if k == j then some v else get db j)
  pub get-del : (db : Db) (k j : String) → get (del db k) j ≡ (if k == j then none else get db j)
  pub get-entries : (db : Db) (k : String) → get db k ≡ lookup k (entries db)
  pub entries-IsUnique : (db : Db) → IsUnique (entries db)
  pub entries-put :
      (db : Db) (k : String) (v : V) → Permᴰ (entries (put db k v)) ((k, v) ∷ delete k (entries db))

-- The test holds of the record under the key.
abbrev pub passes : {V : Type 0} → (String × V → Bool) → String → Option V → Bool
passes p k none = false
passes p k (some v) = p (k, v)
