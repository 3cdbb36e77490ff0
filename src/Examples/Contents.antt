-- ===== src/Examples/Contents.antt =====
-- The theorems on the contents of objects, at a bucket with one object.
use go_s.Prelude.{
  ℕ, Bytes, codes, Result, ok, err, bolt, none, some, [], true, ◌≡◌, refl, arith, if◌then◌else◌,
  bytes_eq, has_prefix, pos, int64, pred, hex_encode, split,
}
use go_s.Bolt.{Codec, lookup, insert, decode}
use go_s.Bolt.Handles.{b_put, b_get}
use go_s.Bolt.Sample.{memory, memory-Laws, MemDb}
use go_s.Storage.{ObjectMeta, BucketInfo}
use go_s.Metadata.Names.{objects_of, versions_of, version_key, NoNul}
use go_s.Metadata.Rows.{write_row, read_row}
use go_s.Metadata.Buckets.{get_bucket}
use go_s.Metadata.Objects
use go_s.Local.Paths.{
  safe_path, join_path, clean, add_segment, add_segments, join_stack, join_texts,
}
use go_s.Local.Objects.{Files, bucket_exists_in}
use go_s.Local.Disk.{Calls, Body}
use go_s.Local.Contents.{
  PutResult, GetOptions, Object, put_object, receive, arrive, place, get_object, open_path, serve,
  clip, slice, stored,
}
use go_s.Local.Contents.RoundTrip.{get_object-put_object_content}
use go_s.Local.Contents.Ranges.{IsRead, IsSlice, get_object-IsSlice}
use go_s.Local.Contents.Failures.{IsLeft, put_object-IsLeft}
use go_s.Examples.Stores.{meta_of, info_named, one_codec, made, with_docs, docs}

-- System calls that all succeed.
abbrev pub calls : Calls
calls = record {
  space = λ n. none;
  create = none;
  mkdir = none;
  rename = none;
  remove_all = none;
  seek = none;
  open_file = λ path. none;
  read_file = λ path. none;
}

abbrev pub md5 : Bytes → Bytes
md5 s = codes "sum"

abbrev meta : ObjectMeta
meta = meta_of 1 true (codes "v1")

abbrev new : ObjectMeta
new = stored (hex_encode (md5 [])) 4 9 meta

abbrev body : Body
body = record { content = codes "data"; failure = none }

abbrev pub info_codec : Codec BucketInfo
info_codec = one_codec (info_named docs)

abbrev pub new_codec : Codec ObjectMeta
new_codec = one_codec new

unfoldable pub bucket_made : MemDb
unfolding write_row
bucket_made = made (write_row memory info_codec with_docs (codes "buckets") docs (info_named docs))

abbrev pub no_files : Files
no_files name = none

abbrev pub temp : Bytes
temp = codes "/data/tmp/upload-1"

-- PutObject of the body under a key.
unfoldable put_at : Bytes → Result PutResult × (MemDb × Files)
unfolding put_object bucket_made
put_at key =
    put_object memory info_codec new_codec calls md5 (codes "/data") temp 9 docs key body 4 meta
      (bucket_made, no_files)

abbrev answer : PutResult
answer = record { etag = hex_encode (md5 []); size = 4; version_id = codes "v1" }

abbrev pub key : Bytes
key = codes "a"

abbrev pub path : Bytes
path = codes "/data/buckets/docs/objects/a@v1"

path_lem : safe_path (codes "/data") docs key (codes "@v1") ≡ ok path
unfolding safe_path clean join_path add_segment add_segments join_stack join_texts split bytes_eq
    has_prefix
path_lem = refl

pub key-NoNul : NoNul key
key-NoNul = (omega arith, tt)

abbrev whole : Bytes → GetOptions
whole vid = record { range_start = none; range_end = none; version_id = vid }

put_at_lem : put_at key ≡ (ok answer, (put_at key).1)
unfolding put_at put_object receive arrive place bucket_exists_in get_bucket read_row b_get b_put
    lookup insert bytes_eq bucket_made write_row objects_of versions_of version_key decode safe_path
    clean join_path add_segment add_segments join_stack join_texts split has_prefix
    Objects.put_object hex_encode
put_at_lem = refl

get_object-put_object_content_example :
    (get_object memory new_codec calls (codes "/data") docs key (whole []) (put_at key).1
      ≡ ok (record {
        meta = new;
        content = codes "data";
        range_start = pos 0;
        range_end = pred (int64 4);
      }))
    × ((put_at key).1.1 path ≡ (
        if bytes_eq path path
        then some (codes "data")
        else if bytes_eq path temp
        then none
        else no_files path))
unfolding put_at objects_of bytes_eq bucket_made write_row b_put insert
get_object-put_object_content_example =
    get_object-put_object_content memory info_codec new_codec calls md5 (codes "/data") temp 9 docs
      key body meta memory-Laws bucket_made (put_at key).1.0 no_files (put_at key).1.1 4 answer []
      path path refl key-NoNul (_, refl) refl path_lem refl refl put_at_lem

-- A range that begins within the object and ends past it.
abbrev ranged : GetOptions
ranged = record { range_start = some (pos 1); range_end = some (pos 99); version_id = [] }

abbrev pub stored_file : Files
stored_file name = if bytes_eq name path then some (codes "data") else none

unfoldable pub held_db : MemDb
unfolding Objects.put_object bucket_made
held_db = made (Objects.put_object memory new_codec docs key new bucket_made)

abbrev pub part : Object
part = record { meta = new; content = codes "ata"; range_start = pos 1; range_end = pos 3 }

get_object-IsSlice_example :
    (r : IsRead memory new_codec calls (codes "/data") docs key ranged held_db stored_file part)
    × ((size : ℕ) → int64 r.meta.size ≡ pos size → IsSlice size (pos 1) r.file part)
unfolding held_db Objects.put_object bucket_made write_row b_put b_get insert lookup bytes_eq
    objects_of versions_of version_key decode get_object Objects.get_object safe_path clean
    join_path add_segment add_segments join_stack join_texts split has_prefix open_path serve clip
    slice
get_object-IsSlice_example =
    get_object-IsSlice memory new_codec calls (codes "/data") docs key ranged held_db stored_file
      part (pos 1) refl refl

-- The database takes no empty key.
refused_lem : put_at [] ≡ (err bolt, (put_at []).1)
unfolding put_at put_object receive arrive place bucket_exists_in get_bucket read_row b_get b_put
    lookup insert bytes_eq bucket_made write_row objects_of versions_of version_key decode safe_path
    clean join_path add_segment add_segments join_stack join_texts split has_prefix
    Objects.put_object hex_encode
refused_lem = refl

put_object-IsLeft_example :
    IsLeft memory info_codec new_codec calls md5
      (codes "/data")
      temp
      9
      docs
      []
      body
      meta
      bucket_made
      no_files
      bolt
      (put_at []).1
unfolding put_at
put_object-IsLeft_example =
    put_object-IsLeft memory info_codec new_codec calls md5 (codes "/data") temp 9 docs [] body meta
      bucket_made no_files 4 bolt (put_at []).1 refused_lem
