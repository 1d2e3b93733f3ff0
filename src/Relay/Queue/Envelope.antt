-- ===== src/Relay/Queue/Envelope.antt =====
-- Round trips of the stored envelopes of queue.ts.
use mathlib.Core.List.{Permᴰ}
use a.Base.{
  le→leb, All, or_throw, >>=-eq-ok, ok, insert_sorted, sort_by, All-perm, ℕ, ◌+◌, ◌≤◌, ◌<◌, ◌≡◌,
  refl, sym, subst, ◌∙◌, ◌≢◌, true, Option, none, some, List, [], ◌∷◌, map, arith,
}
use a.Relay.Queue.{
  JsonValue, whole, other, array, object, invalid_envelope, as_byte, all_bytes,
  serialize_queued_envelope, indexed_bytes, is_dense, deserialize_queued_envelope,
}

abbrev pub IsBytes : List ℕ → Type 0
IsBytes = All (λ n. n ≤ 255)

as_byte-le : (v : JsonValue) (n : ℕ) → as_byte v ≡ some n → n ≤ 255
as_byte-le (whole m) n h = ground arith
as_byte-le other n h = cc

pub all_bytes-IsBytes : (vs : List JsonValue) (bs : List ℕ) → all_bytes vs ≡ ok bs → IsBytes bs
unfolding all_bytes
all_bytes-IsBytes [] bs h = let e : bs ≡ [] = cc in rw e tt
all_bytes-IsBytes (v ∷ vs) bs h =
    let (b, hb, f) = >>=-eq-ok (or_throw (as_byte v) invalid_envelope) _ h in
    let (rest, hr, g) = >>=-eq-ok (all_bytes vs) _ f in
    let e : bs ≡ b ∷ rest = cc in
    rw e (as_byte-le v b (from_throw (as_byte v) b hb), all_bytes-IsBytes vs rest hr)
  where
    from_throw : (o : Option ℕ) (n : ℕ) → or_throw o invalid_envelope ≡ ok n → o ≡ some n
    from_throw none n k = cc
    from_throw (some m) n k = cc

pub all_bytes-whole : (bs : List ℕ) → IsBytes bs → all_bytes (map whole bs) ≡ ok bs
unfolding all_bytes
all_bytes-whole [] h = refl
all_bytes-whole (b ∷ bs) h = rw (le→leb b 255 h.0, all_bytes-whole bs h.1)

-- An envelope that was accepted for the queue reads back from its stored array as it was accepted.
pub deserialize-serialize :
    (vs : List JsonValue) (bs : List ℕ)
    → serialize_queued_envelope vs ≡ ok bs
    → deserialize_queued_envelope (array (map whole bs)) ≡ ok bs
unfolding serialize_queued_envelope deserialize_queued_envelope
deserialize-serialize vs bs h = all_bytes-whole bs (all_bytes-IsBytes vs bs h)

-- The bytes with their positions from `i` on, as pairs and as the entries of an object.
unfoldable pub indexed : ℕ → List ℕ → List (ℕ × ℕ)
indexed i [] = []
indexed i (b ∷ bs) = (i, b) ∷ indexed (i + 1) bs

abbrev pub entry : ℕ × ℕ → Option ℕ × JsonValue
entry e = (some e.0, whole e.1)

abbrev pub AreApart : List (ℕ × ℕ) → Type 0
AreApart [] = Unit
AreApart (e ∷ es) = All (λ f. f.0 ≢ e.0) es × AreApart es

AreApart-perm : {xs ys : List (ℕ × ℕ)} → Permᴰ xs ys → AreApart xs → AreApart ys
AreApart-perm Permᴰ.nil h = h
AreApart-perm (Permᴰ.cons {l₂} e d) h =
    (subst (λ b. All (λ f. f.0 ≢ b.0) l₂) e (All-perm _ d h.0), AreApart-perm d h.1)
AreApart-perm (Permᴰ.swap {a} {a'} {l} e f) h =
    subst (λ x. AreApart (a' ∷ x ∷ l)) e
      (subst (λ x. AreApart (x ∷ a ∷ l)) f ((λ k. h.0.0 (sym k), h.1.0), (h.0.1, h.1.1)))
AreApart-perm (Permᴰ.trans d e) h = AreApart-perm e (AreApart-perm d h)

abbrev index_of : ℕ × ℕ → ℕ
index_of e = e.0

insert_comm :
    (x y : ℕ × ℕ) (l : List (ℕ × ℕ))
    → y.0 ≢ x.0
    → insert_sorted index_of x (insert_sorted index_of y l)
      ≡ insert_sorted index_of y (insert_sorted index_of x l)
unfolding insert_sorted
insert_comm x y [] h = ground arith
insert_comm x y (z ∷ l) h = ground (arith, insert_comm x y l h)

sort-perm :
    {xs ys : List (ℕ × ℕ)} → Permᴰ xs ys → AreApart xs → sort_by index_of xs ≡ sort_by index_of ys
unfolding sort_by
sort-perm Permᴰ.nil h = refl
sort-perm (Permᴰ.cons {a} {b} {l₁} {l₂} e d) h = rw (e, sort-perm d h.1)
sort-perm (Permᴰ.swap {a} {b} {a'} {b'} {l} e f) h =
    rw (← e, ← f) (insert_comm a b (sort_by index_of l) h.0.0)
sort-perm (Permᴰ.trans d e) h = sort-perm d h ∙ sort-perm e (AreApart-perm d h)

indexed-above : (i k : ℕ) (bs : List ℕ) → k < i → All (λ f. f.0 ≢ k) (indexed i bs)
unfolding indexed
indexed-above i k [] h = tt
indexed-above i k (b ∷ bs) h = (omega arith, indexed-above (i + 1) k bs (omega arith))

indexed-AreApart : (i : ℕ) (bs : List ℕ) → AreApart (indexed i bs)
unfolding indexed
indexed-AreApart i [] = tt
indexed-AreApart i (b ∷ bs) =
    (indexed-above (i + 1) i bs (omega arith), indexed-AreApart (i + 1) bs)

sort-indexed : (i : ℕ) (bs : List ℕ) → sort_by index_of (indexed i bs) ≡ indexed i bs
unfolding sort_by indexed insert_sorted
sort-indexed i [] = refl
sort-indexed i (b ∷ []) = refl
sort-indexed i (b ∷ c ∷ bs) = rw (sort-indexed (i + 1) (c ∷ bs), le→leb i (i + 1) (omega arith))

is_dense-indexed : (i : ℕ) (bs : List ℕ) → is_dense i (indexed i bs) ≡ true
unfolding is_dense indexed
is_dense-indexed i [] = refl
is_dense-indexed i (b ∷ bs) = ground (arith, is_dense-indexed (i + 1) bs)

bytes-indexed : (i : ℕ) (bs : List ℕ) → map (λ e. e.1) (indexed i bs) ≡ bs
unfolding indexed
bytes-indexed i [] = refl
bytes-indexed i (b ∷ bs) = rw (bytes-indexed (i + 1) bs)

indexed_bytes-entries :
    (es : List (ℕ × ℕ)) → All (λ e. e.1 ≤ 255) es → indexed_bytes (map entry es) ≡ ok es
unfolding indexed_bytes
indexed_bytes-entries [] h = refl
indexed_bytes-entries (e ∷ es) h = rw (le→leb e.1 255 h.0, indexed_bytes-entries es h.1)

indexed-bytes : (i : ℕ) (bs : List ℕ) → IsBytes bs → All (λ e. e.1 ≤ 255) (indexed i bs)
unfolding indexed
indexed-bytes i [] h = tt
indexed-bytes i (b ∷ bs) h = (h.0, indexed-bytes (i + 1) bs h.1)

-- A byte array that was stored as an object of positions is read back as the array, whatever the
-- order in which the object lists its entries.
pub deserialize_object :
    (bs : List ℕ) (es : List (ℕ × ℕ))
    → IsBytes bs
    → Permᴰ (indexed 0 bs) es
    → deserialize_queued_envelope (object (map entry es)) ≡ ok bs
unfolding deserialize_queued_envelope
deserialize_object bs es h order =
    let sorted : sort_by index_of es ≡ indexed 0 bs =
      sym (sort-perm order (indexed-AreApart 0 bs)) ∙ sort-indexed 0 bs in
    rw (
      indexed_bytes-entries es (All-perm _ order (indexed-bytes 0 bs h)),
      sorted,
      is_dense-indexed 0 bs,
      bytes-indexed 0 bs,
    )
