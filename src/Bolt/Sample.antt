-- ===== src/Bolt/Sample.antt =====
-- A database in memory that keeps the laws: a function from names to sorted contents.
use mathlib.Core.Option
use mathlib.Core.Path.{subst}
use go_s.Prelude.{
  ◌∙◌, ok-injective, Bool-cases, Bytes, Result, ok, err, bolt, Error, Option, none, some, List, [],
  ◌∷◌, ◌≡◌, refl, bytes_eq, if◌then◌else◌, inl, inr, arith, ap,
}
use go_s.Bolt.Contents.{
  Entries, lookup, insert, remove, keys, IsSorted, insert-IsSorted, remove-IsSorted,
}
use go_s.Bolt.Defs.{Bolt, Laws, FitsKey, seek, opened}

abbrev pub Contents : Type 0
Contents = (es : Entries) × IsSorted es

abbrev pub MemDb : Type 0
MemDb = Bytes → Option Contents

abbrev shown : Option Contents → Option Entries
shown none = none
shown (some c) = some c.0

abbrev at_name : Bytes → (Option Contents → Option Contents) → MemDb → MemDb
at_name b f db c = if bytes_eq c b then f (db c) else db c

abbrev put_in : Bytes → Bytes → Option Contents → Option Contents
put_in k v none = none
put_in k v (some c) = some (insert k v c.0, insert-IsSorted k v c.0 c.1)

abbrev remove_in : Bytes → Option Contents → Option Contents
remove_in k none = none
remove_in k (some c) = some (remove k c.0, remove-IsSorted k c.0 c.1)

abbrev create_in : Option Contents → Option Contents
create_in none = some ([], tt)
create_in (some c) = some c

abbrev find_in : Bytes → Option Contents → Option Bytes
find_in k none = none
find_in k (some c) = lookup k c.0

abbrev put_mem : Bytes → Bytes → Bytes → MemDb → Result MemDb
put_mem b [] v db = err bolt
put_mem b (x ∷ k) v db = ok (at_name b (put_in (x ∷ k) v) db)

abbrev drop_mem : Bytes → Option Contents → MemDb → Result MemDb
drop_mem b none db = err bolt
drop_mem b (some c) db = ok (at_name b (λ _. none) db)

abbrev visit_in : Bytes → Option Contents → List Bytes
visit_in p none = []
visit_in p (some c) = keys (seek p c.0)

abbrev pub memory : Bolt
memory = record {
  Db = MemDb;
  bucket = λ db b. shown (db b);
  get = λ db b k. find_in k (db b);
  put = λ db b k v. put_mem b k v db;
  delete = λ db b k. at_name b (remove_in k) db;
  create = λ db b. ok (at_name b create_in db);
  drop_bucket = λ db b. drop_mem b (db b) db;
  visited = λ db b p. visit_in p (db b);
}

visit_shown :
    (p : Bytes) (es : Entries) (o : Option Contents)
    → shown o ≡ some es
    → visit_in p o ≡ keys (seek p es)
visit_shown p es none h = cc
visit_shown p es (some c) h = ap (λ o. keys (seek p (opened o))) h

module _ (db : MemDb) where
  get_lookup_mem :
      (b k : Bytes) (es : Entries) → shown (db b) ≡ some es → find_in k (db b) ≡ lookup k es
  get_lookup_mem b k es h = ground arith

  sorted_mem : (o : Option Contents) (es : Entries) → shown o ≡ some es → IsSorted es
  sorted_mem none es h = cc
  sorted_mem (some c) es h = subst IsSorted (ap (opened) h) c.1

  bucket_at :
      (b c : Bytes) (f : Option Contents → Option Contents) (g : Option Entries → Option Entries)
      → ((o : Option Contents) → shown (f o) ≡ g (shown o))
      → shown (at_name b f db c) ≡ (if bytes_eq c b then g (shown (db c)) else shown (db c))
  bucket_at b c f g h = elim (Bool-cases (bytes_eq c b)) [ inl e ↦ rw e (h (db c)) | inr e ↦ rw e ]

  visited_mem :
      (b p k v : Bytes) (es rest : Entries)
      → shown (db b) ≡ some es
      → seek p es ≡ (k, v) ∷ rest
      → (ks : List Bytes) × (visit_in p (db b) ≡ k ∷ ks)
  visited_mem b p k v es rest h e = (keys rest, visit_shown p es (db b) h ∙ ap (keys) e)

shown-put_in :
    (k v : Bytes) (o : Option Contents) → shown (put_in k v o) ≡ Option.map (insert k v) (shown o)
shown-put_in k v none = refl
shown-put_in k v (some c) = refl

shown-remove_in :
    (k : Bytes) (o : Option Contents) → shown (remove_in k o) ≡ Option.map (remove k) (shown o)
shown-remove_in k none = refl
shown-remove_in k (some c) = refl

shown-create_in : (o : Option Contents) → shown (create_in o) ≡ some (opened (shown o))
shown-create_in none = refl
shown-create_in (some c) = refl

bucket_put_mem :
    (db db' : MemDb) (b k v c : Bytes)
    → put_mem b k v db ≡ ok db'
    → shown (db' c)
      ≡ (if bytes_eq c b then Option.map (insert k v) (shown (db c)) else shown (db c))
bucket_put_mem db db' b [] v c h = cc
bucket_put_mem db db' b (x ∷ k) v c h =
    rw (← ok-injective h)
      (bucket_at db b c (put_in (x ∷ k) v) (Option.map (insert (x ∷ k) v)) (shown-put_in (x ∷ k) v))

put_total_mem :
    (db : MemDb) (b k v : Bytes) → FitsKey k → (db' : MemDb) × (put_mem b k v db ≡ ok db')
put_total_mem db b [] v h = absurd (omega arith)
put_total_mem db b (x ∷ k) v h = (_, refl)

bucket_drop_mem :
    (db db' : MemDb) (b c : Bytes) (o : Option Contents)
    → drop_mem b o db ≡ ok db'
    → shown (db' c) ≡ (if bytes_eq c b then none else shown (db c))
bucket_drop_mem db db' b c none h = cc
bucket_drop_mem db db' b c (some x) h =
    rw (← ok-injective h) (bucket_at db b c (λ _. none) (λ _. none) (λ o. refl))

drop_total_mem :
    (db : MemDb) (b : Bytes) (o : Option Contents) (es : Entries)
    → shown o ≡ some es
    → (db' : MemDb) × (drop_mem b o db ≡ ok db')
drop_total_mem db b none es h = cc
drop_total_mem db b (some c) es h = (_, refl)

put_error_mem : (db : MemDb) (b k v : Bytes) (e : Error) → put_mem b k v db ≡ err e → e ≡ bolt
put_error_mem db b [] v e h = cc
put_error_mem db b (x ∷ k) v e h = cc

drop_error_mem :
    (db : MemDb) (b : Bytes) (o : Option Contents) (e : Error) → drop_mem b o db ≡ err e → e ≡ bolt
drop_error_mem db b none e h = cc
drop_error_mem db b (some c) e h = cc

pub memory-Laws : Laws memory
memory-Laws = record {
  get_lookup = λ db b k es h. get_lookup_mem db b k es h;
  bucket_sorted = λ db b es h. sorted_mem db (db b) es h;
  bucket_put = bucket_put_mem;
  put_total = λ db b k v es e fk fv. put_total_mem db b k v fk;
  bucket_delete =
      λ db b k c. bucket_at db b c (remove_in k) (Option.map (remove k)) (shown-remove_in k);
  bucket_create = λ db db' b c h.
      rw (← ok-injective h) (bucket_at db b c create_in (λ o. some (opened o)) shown-create_in);
  create_total = λ db b f. (_, refl);
  bucket_drop = λ db db' b c h. bucket_drop_mem db db' b c (db b) h;
  drop_total = λ db b es h. drop_total_mem db b (db b) es h;
  put_error = put_error_mem;
  create_error = λ db b e h. cc;
  drop_error = λ db b e h. drop_error_mem db b (db b) e h;
  visited_first = visited_mem;
}
