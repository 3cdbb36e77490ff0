-- ===== src/Bolt/Defs.antt =====
-- The interface of bbolt and of encoding/json, and its laws.
use mathlib.Core.Option
use go_s.Prelude.{
  ◌≤◌, ◌<◌, Bytes, Result, ok, err, json, bolt, Error, Option, none, some, List, not, ◌≡◌, bytes_eq,
  bytes_lt, length, from_first, take_while, has_prefix, if◌then◌else◌, [], ◌∷◌,
}
use go_s.Bolt.Contents.{Entries, lookup, insert, remove, IsSorted}

-- A write transaction turns one database into the next. An operation that can return an error
-- returns a `Result`.
pub record Bolt : Type 1 where
  pub Db : Type 0
  -- tx.Bucket(name): `none` is a nil handle, else what a cursor of it walks over.
  pub bucket : Db → Bytes → Option Entries
  -- b.Get(key), by the name of the bucket
  pub get : Db → Bytes → Bytes → Option Bytes
  -- b.Put(key, value)
  pub put : Db → Bytes → Bytes → Bytes → Result Db
  -- b.Delete(key)
  pub delete : Db → Bytes → Bytes → Db
  -- tx.CreateBucketIfNotExists(name)
  pub create : Db → Bytes → Result Db
  -- tx.DeleteBucket(name)
  pub drop_bucket : Db → Bytes → Result Db
  -- The keys that `for k := c.Seek(p); k != nil; k = c.Next()` visits while its body deletes them, of
  -- which the laws say only what the first is.
  pub visited : Db → Bytes → Bytes → List Bytes

-- The first entry that a Seek to `p` reaches, and those after it.
abbrev pub seek : Bytes → Entries → Entries
seek p = from_first (λ e. not (bytes_lt e.0 p))

-- The entries of a loop `for k, v := c.Seek(p); k != nil && bytes.HasPrefix(k, p); k, v = c.Next()`.
unfoldable pub scan : Bytes → Entries → Entries
scan p es = take_while (λ e. has_prefix e.0 p) (seek p es)

-- The limits of bbolt on keys (MaxKeySize) and values (MaxValueSize).
abbrev pub FitsKey : Bytes → Type 0
FitsKey k = (0 < length k) × (length k ≤ 32768)

abbrev pub FitsValue : Bytes → Type 0
FitsValue v = length v ≤ 2147483646

abbrev pub opened : Option Entries → Entries
opened none = []
opened (some es) = es

pub record Laws (B : Bolt) : Type 0 where
  pub get_lookup :
      (db : B.Db) (b k : Bytes) (es : Entries)
      → B.bucket db b ≡ some es
      → B.get db b k ≡ lookup k es
  pub bucket_sorted : (db : B.Db) (b : Bytes) (es : Entries) → B.bucket db b ≡ some es → IsSorted es
  pub bucket_put :
      (db db' : B.Db) (b k v c : Bytes)
      → B.put db b k v ≡ ok db'
      → B.bucket db' c
        ≡ (if bytes_eq c b then Option.map (insert k v) (B.bucket db c) else B.bucket db c)
  pub put_total :
      (db : B.Db) (b k v : Bytes) (es : Entries)
      → B.bucket db b ≡ some es
      → FitsKey k
      → FitsValue v
      → (db' : B.Db) × (B.put db b k v ≡ ok db')
  pub bucket_delete :
      (db : B.Db) (b k c : Bytes)
      → B.bucket (B.delete db b k) c
        ≡ (if bytes_eq c b then Option.map (remove k) (B.bucket db c) else B.bucket db c)
  pub bucket_create :
      (db db' : B.Db) (b c : Bytes)
      → B.create db b ≡ ok db'
      → B.bucket db' c ≡ (if bytes_eq c b then some (opened (B.bucket db c)) else B.bucket db c)
  pub create_total : (db : B.Db) (b : Bytes) → FitsKey b → (db' : B.Db) × (B.create db b ≡ ok db')
  pub bucket_drop :
      (db db' : B.Db) (b c : Bytes)
      → B.drop_bucket db b ≡ ok db'
      → B.bucket db' c ≡ (if bytes_eq c b then none else B.bucket db c)
  pub drop_total :
      (db : B.Db) (b : Bytes) (es : Entries)
      → B.bucket db b ≡ some es
      → (db' : B.Db) × (B.drop_bucket db b ≡ ok db')
  -- The errors of bbolt are its own.
  pub put_error : (db : B.Db) (b k v : Bytes) (e : Error) → B.put db b k v ≡ err e → e ≡ bolt
  pub create_error : (db : B.Db) (b : Bytes) (e : Error) → B.create db b ≡ err e → e ≡ bolt
  pub drop_error : (db : B.Db) (b : Bytes) (e : Error) → B.drop_bucket db b ≡ err e → e ≡ bolt
  -- Seek is at the first key from `p` on. What Next returns once the row under the cursor is deleted
  -- is not documented.
  pub visited_first :
      (db : B.Db) (b p k v : Bytes) (es rest : Entries)
      → B.bucket db b ≡ some es
      → seek p es ≡ (k, v) ∷ rest
      → (ks : List Bytes) × (B.visited db b p ≡ k ∷ ks)

-- json.Marshal and json.Unmarshal at one type.
pub record Codec (A : Type 0) : Type 1 where
  pub marshal : A → Result Bytes
  pub unmarshal : Bytes → Option A
  -- The values that JSON keeps: texts of valid UTF-8, times of the years 0 to 9999.
  pub Stable : A → Type 0
  pub marshal_total : (a : A) → Stable a → (d : Bytes) × (marshal a ≡ ok d)
  pub marshal_error : (a : A) (e : Error) → marshal a ≡ err e → e ≡ json
  pub unmarshal_marshal : (a : A) (d : Bytes) → Stable a → marshal a ≡ ok d → unmarshal d ≡ some a

-- json.Unmarshal with its error as a value.
unfoldable pub decode : {A : Type 0} → Codec A → Bytes → Result A
decode c d = elim (c.unmarshal d) [ none ↦ err json | some a ↦ ok a ]
