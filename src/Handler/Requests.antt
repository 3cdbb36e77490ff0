-- ===== src/Handler/Requests.antt =====
-- What the object handlers of internal/handler/object.go read from a request, and the responses that
-- they write.
pub mod Bodies
use go_s.Prelude.{
  ℕ, suc, ◌+◌, ◌-◌, Bytes, codes, Result, ok, err, Error, missing_content_length, system, Option,
  none, some, List, [], ◌∷◌, ◌++◌, Bool, true, false, ◌&&◌, if◌then◌else◌, leb, is_empty,
  has_prefix, split, drop, length, ◌*◌, ℤ, pos, negsuc, parse_int, decimal,
}
use go_s.Storage.{Time, ObjectMeta}
use go_s.Auth.Requests.{Query, query_get, first_or_empty}
use go_s.Auth.Signatures.{or_other}
use go_s.Local.Disk.{Body}
use go_s.Local.Contents.{GetOptions}
use go_s.Local.Chunks.{Stop, end_of_file, broken, new_reader, copy, is_aws_chunked}
use go_s.S3.Names.{parse_acl}

-- `header` is r.Header.Get, `headers` are the entries of r.Header, `source` is what the body has and
-- `source_end` what it ends with, `source_joined` whether together with its last bytes;
-- `is_custom_domain` is the mark of the middleware.
pub record HttpRequest : Type 0 where
  pub header : Bytes → Bytes
  pub headers : List (Bytes × List Bytes)
  pub query : Query
  pub source : Bytes
  pub source_end : Stop
  pub source_joined : Bool
  pub is_custom_domain : Bool

pub record Response : Type 0 where
  pub status : ℕ
  pub headers : List (Bytes × Bytes)
  pub content : Bytes

-- time.Parse and Format with time.RFC3339, http.ParseTime, and Format with http.TimeFormat.
pub record Dates : Type 0 where
  pub parse_rfc3339 : Bytes → Option Time
  pub format_rfc3339 : Time → Bytes
  pub parse_http : Bytes → Option Time
  pub format_http : Time → Bytes

-- strings.ToLower of the name of a header
abbrev pub to_lower : Bytes → Bytes
to_lower [] = []
to_lower (c ∷ s) = (if leb b'A' c && leb c b'Z' then c + 32 else c) ∷ to_lower s

-- The headers that become the user's metadata.
unfoldable pub user_meta_of : List (Bytes × List Bytes) → List (Bytes × Bytes)
unfolding has_prefix
user_meta_of [] = []
user_meta_of ((k, vs) ∷ hs) =
    let rest = user_meta_of hs in
    if has_prefix (to_lower k) (codes "x-amz-meta-")
    then (to_lower k, first_or_empty vs) ∷ rest
    else rest

abbrev pub date_or_none : (Bytes → Option Time) → Bytes → Option Time
date_or_none parse s = if is_empty s then none else parse s

-- The metadata that PutObject and CopyObject both read from the headers.
unfoldable pub header_meta : Dates → HttpRequest → ObjectMeta
unfolding user_meta_of
header_meta D r = record {
  size = 0;
  etag = [];
  content_type = r.header (codes "Content-Type");
  content_encoding = r.header (codes "Content-Encoding");
  content_disposition = r.header (codes "Content-Disposition");
  content_language = r.header (codes "Content-Language");
  cache_control = r.header (codes "Cache-Control");
  expires = r.header (codes "Expires");
  last_modified = 0;
  user_meta = user_meta_of r.headers;
  tags = [];
  storage_class = or_other (r.header (codes "x-amz-storage-class")) (codes "STANDARD");
  acl = [];
  version_id = [];
  is_delete_marker = false;
  is_latest = false;
  server_side_encryption = r.header (codes "x-amz-server-side-encryption");
  object_lock_mode = r.header (codes "x-amz-object-lock-mode");
  object_lock_retain_until_date =
      date_or_none D.parse_rfc3339 (r.header (codes "x-amz-object-lock-retain-until-date"));
  object_lock_legal_hold_status = r.header (codes "x-amz-object-lock-legal-hold");
}

-- What PutObject stores, for the version that the bucket's versioning asks for.
abbrev pub put_meta : Dates → HttpRequest → Bytes → ObjectMeta
put_meta D r version_id = record (header_meta D r) {
  acl = parse_acl (r.header (codes "x-amz-acl"));
  version_id = version_id;
  is_latest = true;
}

abbrev pub size_of : Option ℤ → Result ℕ
size_of none = err missing_content_length
size_of (some (negsuc n)) = err missing_content_length
size_of (some (pos n)) = ok n

unfoldable pub content_length : Bytes → Result ℕ
unfolding parse_int
content_length cl = if is_empty cl then err missing_content_length else size_of (parse_int cl)

abbrev pub failure_of : Stop → Option Error
failure_of end_of_file = none
failure_of broken = some system

abbrev pub decoded : Option (Bytes × Stop) → Body
decoded none = record { content = []; failure = some system }
decoded (some (got, e)) = record { content = got; failure = failure_of e }

-- What io.Copy gets from the body, through the reader of signed chunks where the request asks for it;
-- the buffer of io.Copy has 32 KB.
unfoldable pub body_of : HttpRequest → Body
unfolding is_aws_chunked copy
body_of r =
    if is_aws_chunked (r.header (codes "x-amz-content-sha256"))
    then decoded
        (copy (2 * length r.source + 2) 32768 (new_reader r.source_joined r.source r.source_end) [])
    else record { content = r.source; failure = failure_of r.source_end }

abbrev pub bound : Bytes → Option ℤ
bound s = if is_empty s then none else parse_int s

abbrev pub two_bounds : List Bytes → Option ℤ × Option ℤ
two_bounds (a ∷ b ∷ []) = (bound a, bound b)
two_bounds other = (none, none)

-- The start and the end that the header Range names.
unfoldable pub parse_range : Bytes → Option ℤ × Option ℤ
unfolding has_prefix split parse_int
parse_range rng =
    if has_prefix rng (codes "bytes=") then two_bounds (split b'-' (drop 6 rng)) else (none, none)

unfoldable pub get_options : HttpRequest → GetOptions
unfolding query_get
get_options r =
    let range = parse_range (r.header (codes "Range")) in
    record {
      range_start = range.0;
      range_end = range.1;
      version_id = query_get (codes "versionId") r.query;
    }

abbrev pub quoted : Bytes → Bytes
quoted s = b'"' ∷ (s ++ b'"' ∷ [])

abbrev pub difference : ℕ → ℕ → ℤ
difference a b = if leb b a then pos (a - b) else negsuc (b - suc a)

-- end - start + 1
abbrev pub range_length : ℤ → ℤ → ℤ
range_length (pos s) (pos e) = difference (suc e) s
range_length (pos s) (negsuc n) = difference 0 (s + n)
range_length (negsuc s) (pos e) = pos (e + s + 2)
range_length (negsuc s) (negsuc n) = difference (suc s) n

-- strconv.FormatInt(n, 10)
abbrev pub int_text : ℤ → Bytes
int_text (pos n) = decimal 19 n
int_text (negsuc n) = b'-' ∷ decimal 19 (suc n)
