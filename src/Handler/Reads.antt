-- ===== src/Handler/Reads.antt =====
-- The handlers GetObject and HeadObject of internal/handler/object.go.
use go_s.Prelude.{
  ℕ, ◌+◌, Bytes, codes, Result, ok, err, Error, no_such_key, Option, none, some, is_some, [], ◌∷◌,
  ◌++◌, Bool, true, false, not, ◌&&◌, ◌||◌, if◌then◌else◌, ltb, bytes_eq, is_empty, has_suffix,
  index_of, int64,
}
use go_s.Bolt.{Bolt, Codec}
use go_s.Storage.{Time, BucketInfo, ObjectMeta}
use go_s.Auth.{User, Policy}
use go_s.Auth.Requests.{query_get}
use go_s.Metadata.Configs.{get_bucket_website}
use go_s.Local.Objects.{Files, head_object}
use go_s.Local.Disk.{Calls}
use go_s.Local.Contents.{GetOptions, Object, get_object}
use go_s.Middleware.Cors.{Headers, header_if}
use go_s.Handler.Requests.{
  HttpRequest, Response, Dates, date_or_none, get_options, quoted, range_length, int_text,
}
use go_s.Handler.Writes.{allowed, version_header}

-- WebsiteConfiguration of internal/s3/types.go
pub record Website : Type 0 where
  pub index_suffix : Bytes
  pub error_key : Bytes

abbrev pub header_some : Bytes → Bytes → Headers
header_some name value = header_if (not (is_empty value)) name value

abbrev pub date_header : (Time → Bytes) → Bytes → Option Time → Headers
date_header format name none = []
date_header format name (some t) = (name, format t) ∷ []

-- The headers that describe an object; `sized` is what HeadObject sets between them.
unfoldable pub object_headers : Dates → ObjectMeta → Headers → Headers
object_headers D m sized =
    (codes "ETag", quoted m.etag)
    ∷ (codes "Last-Modified", D.format_http m.last_modified)
    ∷ (codes "Accept-Ranges", codes "bytes")
    ∷ (sized
        ++ (header_some (codes "Content-Type") m.content_type
            ++ (header_some (codes "Content-Encoding") m.content_encoding
                ++ (header_some (codes "Content-Disposition") m.content_disposition
                    ++ (header_some (codes "Content-Language") m.content_language
                        ++ (header_some (codes "Cache-Control") m.cache_control
                            ++ (header_some (codes "Expires") m.expires
                                ++ ((codes "x-amz-storage-class", m.storage_class)
                                    ∷ (header_some (codes "x-amz-server-side-encryption")
                                          m.server_side_encryption
                                        ++ (header_some (codes "x-amz-object-lock-mode")
                                              m.object_lock_mode
                                            ++ (date_header D.format_rfc3339
                                                  (codes "x-amz-object-lock-retain-until-date")
                                                  m.object_lock_retain_until_date
                                                ++ (header_some
                                                      (codes "x-amz-object-lock-legal-hold")
                                                      m.object_lock_legal_hold_status
                                                    ++ m.user_meta))))))))))))

-- The conditions on times; an absent or unreadable date is no condition.
abbrev pub modified_since : Time → Option Time → Bool
modified_since last none = true
modified_since last (some t) = not (ltb last (t + 1000000000))

abbrev pub unmodified_since : Time → Option Time → Bool
unmodified_since last none = true
unmodified_since last (some t) = not (ltb t last)

-- The status for the first condition of the request that the object does not meet.
unfoldable pub failed_condition : Dates → HttpRequest → ObjectMeta → Option ℕ
unfolding bytes_eq
failed_condition D r m =
    let if_match = r.header (codes "If-Match") in
    let if_none_match = r.header (codes "If-None-Match") in
    if not (is_empty if_match) && not (bytes_eq (quoted m.etag) if_match)
    then some 412
    else if not (is_empty if_none_match) && bytes_eq (quoted m.etag) if_none_match
    then some 304
    else if not (
        modified_since m.last_modified
          (date_or_none D.parse_http (r.header (codes "If-Modified-Since"))))
    then some 304
    else if not (
        unmodified_since m.last_modified
          (date_or_none D.parse_http (r.header (codes "If-Unmodified-Since"))))
    then some 412
    else none

abbrev pub bare : ℕ → Headers → Response
bare status headers = record { status = status; headers = headers; content = [] }

-- The status, the length and the range of the content.
unfoldable pub whole_or_part : GetOptions → Object → Headers → Response
whole_or_part opts obj headers =
    if is_some opts.range_start || is_some opts.range_end
    then record {
      status = 206;
      headers =
          headers
          ++ (codes "Content-Length", int_text (range_length obj.range_start obj.range_end))
            ∷ (
              codes "Content-Range",
              codes "bytes "
                  ++ (int_text obj.range_start
                      ++ b'-' ∷ (int_text obj.range_end ++ b'/' ∷ int_text (int64 obj.meta.size))),
            )
            ∷ [];
      content = obj.content;
    }
    else record {
      status = 200;
      headers = headers ++ (codes "Content-Length", int_text (int64 obj.meta.size)) ∷ [];
      content = obj.content;
    }

-- The response for an object that was found.
unfoldable pub answer_object : Dates → HttpRequest → GetOptions → Object → Response
unfolding failed_condition whole_or_part object_headers
answer_object D r opts obj =
    let version = version_header obj.meta.version_id in
    if obj.meta.is_delete_marker
    then bare 404 (version ++ (codes "x-amz-delete-marker", codes "true") ∷ [])
    else elim (failed_condition D r obj.meta) [
      | some status ↦ bare status version
      | none ↦ whole_or_part opts obj (version ++ object_headers D obj.meta [])
    ]

abbrev pub wants_page : HttpRequest → Bool
wants_page r =
    is_some (index_of (r.header (codes "Accept")) (codes "text/html")) || r.is_custom_domain

abbrev pub is_missing : Error → Bool
is_missing no_such_key = true
is_missing e = false

-- What is answered for a key that is not there: the index document of the website, its error document,
-- or the error. `get` is GetObject of the backend by key.
module _ (D : Dates) (r : HttpRequest) (get : Bytes → Result Object) where
  unfoldable pub error_page : Website → Error → Result Response
  error_page w e = if is_empty w.error_key then err e else elim (get w.error_key) [
    | err _ ↦ err e
    | ok obj ↦ ok (record {
      status = 404;
      headers = (codes "Content-Type", obj.meta.content_type) ∷ [];
      content = obj.content;
    })
  ]

  unfoldable pub index_page : Website → Bytes → Error → Result Response
  unfolding error_page answer_object has_suffix
  index_page w key e =
      if has_suffix key (codes "/") && not (is_empty w.index_suffix)
      then elim (get (key ++ w.index_suffix)) [
        | err _ ↦ error_page w e
        | ok obj ↦ ok (answer_object D r (get_options r) obj)
      ]
      else error_page w e

  abbrev pub website_page : Result Website → Bytes → Error → Result Response
  website_page (err _) key e = err e
  website_page (ok w) key e = index_page w key e

  unfoldable pub answer_get : Result Website → Bytes → Result Response
  unfolding index_page answer_object
  answer_get website key = elim (get key) [
    | ok obj ↦ ok (answer_object D r (get_options r) obj)
    | err e ↦ if is_missing e && wants_page r then website_page website key e else err e
  ]

module _ (B : Bolt) (CB : Codec BucketInfo) (C : Codec ObjectMeta) (CP : Codec Policy)
    (CW : Codec Website) where
  unfoldable pub get_object_handler :
      Dates → Calls → Bytes → User → Bytes → Bytes → HttpRequest → B.Db × Files → Result Response
  unfolding answer_get get_options
  get_object_handler D calls data_dir user bucket key r (db, files) =
      elim (allowed B CB C CP user (codes "s3:GetObject") bucket key db) [
        | err e ↦ err e
        | ok _ ↦
            answer_get D r
              (λ name. get_object B C calls data_dir bucket name (get_options r) (db, files))
              (get_bucket_website B CW bucket db) key
      ]

  unfoldable pub head_object_handler :
      Dates → User → Bytes → Bytes → HttpRequest → B.Db → Result Response
  unfolding head_object object_headers
  head_object_handler D user bucket key r db =
      elim (allowed B CB C CP user (codes "s3:GetObject") bucket key db) [
        | err e ↦ err e
        | ok _ ↦ elim (head_object B C bucket key (query_get (codes "versionId") r.query) db) [
          | err e ↦ err e
          | ok m ↦
              let version = version_header m.version_id in
              if m.is_delete_marker
              then ok (bare 404 (version ++ (codes "x-amz-delete-marker", codes "true") ∷ []))
              else ok (
                  bare 200 (
                    version
                    ++ object_headers D m ((codes "Content-Length", int_text (int64 m.size)) ∷ [])))
        ]
      ]
