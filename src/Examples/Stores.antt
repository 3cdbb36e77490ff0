-- ===== src/Examples/Stores.antt =====
-- Encodings of a few fields, and a database in memory with a bucket of objects.
use go_s.Prelude.{
  Bytes, codes, Result, ok, err, Option, none, some, [], ◌∷◌, Bool, true, false, ◌≡◌, refl, ℕ, leb,
  ap, ok-injective, sym, ◌∙◌,
}
use mathlib.Core.Path.{subst}
use go_s.Bolt.{Codec}
use go_s.Bolt.Sample.{memory, MemDb}
use go_s.Storage.{Time, ObjectMeta, BucketInfo}

abbrev pub meta_of : Time → Bool → Bytes → ObjectMeta
meta_of time is_latest version_id = record {
  size = 3;
  etag = codes "e";
  content_type = codes "text/plain";
  content_encoding = [];
  content_disposition = [];
  content_language = [];
  cache_control = [];
  expires = [];
  last_modified = time;
  user_meta = [];
  tags = [];
  storage_class = [];
  acl = [];
  version_id = version_id;
  is_delete_marker = false;
  is_latest = is_latest;
  server_side_encryption = [];
  object_lock_mode = [];
  object_lock_retain_until_date = none;
  object_lock_legal_hold_status = [];
}

-- The same with a legal hold status.
abbrev pub held : Bytes → Time → Bool → Bytes → ObjectMeta
held status time is_latest version_id = record (meta_of time is_latest version_id) {
  object_lock_legal_hold_status = status;
}

-- The metadata with the time and flags of `m` and nothing else of it.
abbrev pub plain : ObjectMeta → ObjectMeta
plain m = meta_of m.last_modified m.is_latest m.version_id

abbrev pub flag : Bool → ℕ
flag true = 1
flag false = 0

abbrev read_meta : Bytes → Bytes → Option ObjectMeta
read_meta status [] = none
read_meta status (t ∷ []) = none
read_meta status (t ∷ l ∷ vid) = some (held status t (leb 1 l) vid)

abbrev show_meta : ObjectMeta → Bytes
show_meta m = m.last_modified ∷ flag m.is_latest ∷ m.version_id

abbrev read_meta-show_meta :
    (status : Bytes) (t : Time) (l : Bool) (vid : Bytes)
    → read_meta status (t ∷ flag l ∷ vid) ≡ some (held status t l vid)
read_meta-show_meta status t true vid = refl
read_meta-show_meta status t false vid = refl

-- An encoding that keeps the metadata of `held` with one status.
abbrev pub status_codec : Bytes → Codec ObjectMeta
status_codec status = record {
  marshal = λ m. ok (show_meta m);
  unmarshal = read_meta status;
  Stable = λ m. m ≡ held status m.last_modified m.is_latest m.version_id;
  marshal_total = λ m s. (_, refl);
  marshal_error = λ m e h. cc;
  unmarshal_marshal = λ m d s h.
      subst (λ d. read_meta status d ≡ some m) (ok-injective h)
        (read_meta-show_meta status m.last_modified m.is_latest m.version_id
          ∙ ap (λ m. some m) (sym s));
}

abbrev pub meta_codec : Codec ObjectMeta
meta_codec = status_codec []

abbrev pub info_named : Bytes → BucketInfo
info_named name = record {
  name = name;
  creation_date = 7;
  region = codes "us-east-1";
  owner = codes "root";
  acl = codes "private";
  versioning = [];
  object_lock_enabled = false;
}

abbrev pub versioned : Bytes → Bytes → BucketInfo
versioned status name = record (info_named name) { versioning = status }

-- An encoding that keeps the information of `versioned` with one status.
abbrev pub versioned_codec : Bytes → Codec BucketInfo
versioned_codec status = record {
  marshal = λ b. ok b.name;
  unmarshal = λ text. some (versioned status text);
  Stable = λ b. b ≡ versioned status b.name;
  marshal_total = λ b s. (_, refl);
  marshal_error = λ b e h. cc;
  unmarshal_marshal = λ b d s h.
      ap (λ n. some (versioned status n)) (sym (ok-injective h)) ∙ ap (λ b. some b) (sym s);
}

abbrev pub bucket_codec : Codec BucketInfo
bucket_codec = versioned_codec []

abbrev pub made : Result MemDb → MemDb
made (ok db) = db
made (err e) = λ _. none

-- A database with the empty table of the buckets.
abbrev pub fresh : MemDb
fresh = made (memory.create (λ _. none) (codes "buckets"))

abbrev pub docs : Bytes
docs = codes "docs"

abbrev pub with_docs : MemDb
with_docs = made (memory.create fresh (codes "objects:docs"))

-- An encoding that keeps one value.
abbrev pub one_codec : {A : Type 0} → A → Codec A
one_codec a = record {
  marshal = λ x. ok (codes "{}");
  unmarshal = λ text. some a;
  Stable = λ x. x ≡ a;
  marshal_total = λ x s. (_, refl);
  marshal_error = λ x e h. cc;
  unmarshal_marshal = λ x d s h. ap (λ x. some x) (sym s);
}
