-- ===== src/Examples/Handlers.antt =====
-- A PUT and a GET through the handlers, by the root user, and a GET with a range.
use go_s.Prelude.{
  Option, length, Bool-cases, inl, inr, ap, sym, Bytes, codes, Result, ok, none, some, [], ◌∷◌,
  true, false, ◌≡◌, refl, if◌then◌else◌, bytes_eq, has_prefix, split, hex_encode, parse_int,
  parse_digits, pos,
}
use go_s.Bolt.{Codec, lookup, insert, decode}
use go_s.Bolt.Handles.{b_put, b_get}
use go_s.Bolt.Sample.{memory, memory-Laws, MemDb}
use go_s.Storage.{ObjectMeta}
use go_s.Auth.{User, Policy}
use go_s.Auth.Requests.{query_get}
use go_s.Metadata.Names.{objects_of, versions_of, version_key}
use go_s.Metadata.Rows.{write_row, read_row}
use go_s.Metadata.Buckets.{get_bucket}
use go_s.Metadata.Objects
use go_s.Local.Paths.{
  safe_path, join_path, clean, add_segment, add_segments, join_stack, join_texts,
}
use go_s.Local.Objects.{Files, bucket_exists_in}
use go_s.Local.Contents.{
  get_object, open_path, serve, clip, slice, put_object, receive, arrive, place, stored,
}
use go_s.Local.Chunks.{end_of_file, is_aws_chunked}
use go_s.S3.Names.{is_valid_storage_class}
use go_s.Handler.Access.{check_policy}
use go_s.Handler.Requests.{
  get_options, HttpRequest, Response, Dates, user_meta_of, header_meta, put_meta, content_length,
  body_of, parse_range,
}
use go_s.Handler.Writes.{put_checked, put_object_handler}
use go_s.Handler.Reads.{Website, failed_condition, get_object_handler}
use go_s.Handler.Ranged.{IsRanged, get_object_handler-IsRanged}
use go_s.Handler.Stored.{IsAccepted, whole_response, got, get_object_handler-put_object_handler}
use go_s.Examples.Stores.{one_codec, docs}
use go_s.Examples.Contents
use go_s.Examples.Contents.{
  held_db, stored_file, part, calls, md5, info_codec, bucket_made, no_files, temp, key, key-NoNul,
}

abbrev root_user : User
root_user = record {
  username = codes "root";
  password_hash = [];
  access_key_id = [];
  secret_key = [];
  policies = [];
  is_root = true;
  disabled = false;
  created_at = 0;
}

-- Dates that are never given.
abbrev no_dates : Dates
no_dates = record {
  parse_rfc3339 = λ s. none;
  format_rfc3339 = λ t. [];
  parse_http = λ s. none;
  format_http = λ t. codes "now";
}

abbrev put_header : Bytes → Bytes
put_header name = if bytes_eq name (codes "Content-Length") then codes "4" else []

abbrev put_request : HttpRequest
put_request = record {
  header = put_header;
  headers = (codes "X-Amz-Meta-A", codes "1" ∷ []) ∷ [];
  query = [];
  source = codes "data";
  source_end = end_of_file;
  source_joined = true;
  is_custom_domain = false;
}

abbrev get_request : HttpRequest
get_request = record {
  header = λ name. [];
  headers = [];
  query = [];
  source = [];
  source_end = end_of_file;
  source_joined = true;
  is_custom_domain = false;
}

abbrev new : ObjectMeta
new = stored (hex_encode (md5 [])) 4 9 (put_meta no_dates put_request [])

abbrev new_codec : Codec ObjectMeta
new_codec = one_codec new

abbrev policy_codec : Codec Policy
policy_codec = one_codec (record { version = []; statement = [] })

abbrev website_codec : Codec Website
website_codec = one_codec (record { index_suffix = []; error_key = [] })

unfoldable sent : Result Response × (MemDb × Files)
unfolding put_object_handler bucket_made
sent =
    put_object_handler memory info_codec new_codec policy_codec no_dates (some (pos 100)) calls md5
      (codes "/data") temp (codes "v1") 9 root_user docs key put_request (bucket_made, no_files)

abbrev answer : Response
answer = record { status = 200; headers = (codes "ETag", codes "\"73756d\"") ∷ []; content = [] }

abbrev path : Bytes
path = codes "/data/buckets/docs/objects/a@null"

path_lem : safe_path (codes "/data") docs key (codes "@null") ≡ ok path
unfolding safe_path clean join_path add_segment add_segments join_stack join_texts split bytes_eq
    has_prefix
path_lem = refl

sent_lem : sent ≡ (ok answer, sent.1)
unfolding sent put_object_handler put_checked check_policy is_valid_storage_class header_meta
    user_meta_of content_length parse_int parse_digits body_of is_aws_chunked put_object receive
    arrive place bucket_exists_in get_bucket read_row b_get b_put lookup insert bytes_eq bucket_made
    write_row objects_of versions_of version_key decode safe_path clean join_path add_segment
    add_segments join_stack join_texts split has_prefix Objects.put_object hex_encode
sent_lem = refl

get_object_handler-put_object_handler_example :
    IsAccepted memory info_codec new_codec policy_codec website_codec no_dates
      (some (pos 100))
      calls
      md5
      (codes "/data")
      temp
      (codes "v1")
      9
      root_user
      docs
      key
      put_request
      bucket_made
      sent.1.0
      no_files
      sent.1.1
      answer
    × (get_object_handler memory info_codec new_codec policy_codec website_codec no_dates calls
          (codes "/data")
          root_user
          docs
          key
          get_request
          sent.1
        ≡ ok (
            whole_response no_dates (
              got memory info_codec new_codec policy_codec website_codec no_dates
                (some (pos 100))
                calls
                md5
                (codes "/data")
                temp
                (codes "v1")
                9
                root_user
                docs
                key
                put_request
                bucket_made
                sent.1.0
                no_files
                sent.1.1)))
unfolding sent bytes_eq bucket_made write_row b_put insert objects_of check_policy parse_range
    has_prefix query_get failed_condition get_bucket read_row b_get lookup decode header_meta
    user_meta_of body_of is_aws_chunked hex_encode
get_object_handler-put_object_handler_example =
    get_object_handler-put_object_handler memory info_codec new_codec policy_codec website_codec
      no_dates (some (pos 100)) calls md5 (codes "/data") temp (codes "v1") 9 root_user docs key
      put_request bucket_made sent.1.0 no_files sent.1.1 memory-Laws answer root_user get_request
      path refl key-NoNul (_, refl) path_lem refl refl sent_lem refl refl refl refl

abbrev range_request : HttpRequest
range_request = record get_request {
  header = λ name. if bytes_eq name (codes "Range") then codes "bytes=1-99" else [];
}

stored_file-length : (path file : Bytes) → stored_file path ≡ some file → length file ≡ 4
stored_file-length path file h = elim (Bool-cases (bytes_eq path Contents.path)) [
  | inl e ↦ ap (λ (o : Option Bytes). elim o [ none ↦ 4 | some s ↦ length s ]) (sym (rw e at h))
  | inr e ↦ let x : none ≡ some file = rw e at h in absurd (cc)
]

get_object_handler-IsRanged_example :
    IsRanged memory info_codec Contents.new_codec policy_codec website_codec no_dates calls
      (codes "/data")
      root_user
      docs
      key
      range_request
      held_db
      stored_file
      part
      (pos 1)
      4
unfolding held_db Objects.put_object bucket_made write_row b_put b_get insert lookup bytes_eq
    objects_of versions_of version_key decode get_object Objects.get_object safe_path clean
    join_path add_segment add_segments join_stack join_texts split has_prefix open_path serve clip
    slice check_policy parse_range parse_int parse_digits query_get failed_condition get_options
get_object_handler-IsRanged_example =
    get_object_handler-IsRanged memory info_codec Contents.new_codec policy_codec website_codec
      no_dates calls (codes "/data") root_user docs key range_request held_db stored_file part
      (pos 1) (some (pos 99)) 4 refl refl refl refl refl refl (λ p f s h. stored_file-length p f h)
