-- ===== src/Handler/Stored.antt =====
-- A PUT of an object and a GET of it, from the headers of the one to the response of the other.

use go_s.Prelude.{
  ℕ, ◌≤◌, Bytes, codes, Result, ok, Error, key_too_long, invalid_storage_class, entity_too_large,
  Option, none, [], ◌∷◌, ◌++◌, ◌≡◌, refl, sym, ap, ◌∙◌, Bool, true, false, not, ltb, bytes_eq,
  length, ℤ, pos, int64, pred, hex_encode, arith, ok-injective,
}
use go_s.Bolt.{Bolt, Laws, Codec}
use go_s.Bolt.Handles.{Exists}
use go_s.Storage.{Time, BucketInfo, ObjectMeta}
use go_s.Auth.{User, Policy}
use go_s.Auth.Requests.{query_get}
use go_s.Metadata.Configs.{get_bucket_website}
use go_s.Metadata.Names.{objects_of, NoNul}
use go_s.Local.Paths.{safe_path}
use go_s.Local.Objects.{Files}
use go_s.Local.Disk.{continue-eq-ok, reading-eq-ok, Calls}
use go_s.Local.Contents.{
  PutResult, GetOptions, Object, version_suffix, put_object, stored, get_object,
}
use go_s.Local.Contents.RoundTrip.{get_object-put_object_content}
use go_s.S3.Names.{is_valid_storage_class}
use go_s.Handler.Requests.{
  HttpRequest, Response, Dates, header_meta, content_length, body_of, parse_range, get_options,
  int_text,
}
use go_s.Handler.Writes.{
  check, is_within, version_header, put_response, allowed, new_meta, put_checked,
  put_object_handler,
}
use go_s.Handler.Reads.{
  Website, failed_condition, object_headers, whole_or_part, answer_object, answer_get,
  get_object_handler,
}

check-eq-ok : (b : Bool) (e : Error) (u : Unit {0}) → check b e ≡ ok u → b ≡ true
check-eq-ok true e u h = refl
check-eq-ok false e u h = cc

-- Options without a range and a version.
abbrev plain : GetOptions
plain = record { range_start = none; range_end = none; version_id = [] }

get_options-plain :
    (r : HttpRequest)
    → parse_range (r.header (codes "Range")) ≡ (none, none)
    → query_get (codes "versionId") r.query ≡ []
    → get_options r ≡ plain
unfolding get_options
get_options-plain r p q = rw (p, q, get_options) refl

answer_get_found :
    (D : Dates) (r : HttpRequest) (get : Bytes → Result Object) (website : Result Website)
    (key : Bytes) (obj : Object)
    → get key ≡ ok obj
    → answer_get D r get website key ≡ ok (answer_object D r (get_options r) obj)
unfolding answer_get
answer_get_found D r get website key obj h = rw (h, answer_get) refl

-- The response with the whole of an object.
abbrev pub whole_response : Dates → Object → Response
whole_response D obj = record {
  status = 200;
  headers =
      (version_header obj.meta.version_id ++ object_headers D obj.meta [])
      ++ (codes "Content-Length", int_text (int64 obj.meta.size)) ∷ [];
  content = obj.content;
}

answer_object_whole :
    (D : Dates) (r : HttpRequest) (obj : Object)
    → obj.meta.is_delete_marker ≡ false
    → failed_condition D r obj.meta ≡ none
    → answer_object D r plain obj ≡ whole_response D obj
unfolding answer_object whole_or_part
answer_object_whole D r obj m c = rw (m, answer_object) (rw (c, answer_object) refl)

module _ (B : Bolt) (CB : Codec BucketInfo) (C : Codec ObjectMeta) (CP : Codec Policy)
    (CW : Codec Website) (D : Dates) (largest : Option ℤ) (calls : Calls) (md5 : Bytes → Bytes)
    (data_dir tmp uuid : Bytes) (now : Time) (user : User) (bucket key : Bytes) (r : HttpRequest)
    (db db' : B.Db) (files files' : Files) where
  abbrev pub asked_meta : ObjectMeta
  asked_meta = new_meta B CB C CP D uuid bucket r db

  -- A PUT that is answered without an error.
  pub record IsAccepted (resp : Response) : Type 0 where
    pub granted : allowed B CB C CP user (codes "s3:PutObject") bucket key db ≡ ok tt
    pub is_short : length key ≤ 1024
    pub is_class : is_valid_storage_class (header_meta D r).storage_class ≡ true
    pub size : ℕ
    pub sized : content_length (r.header (codes "Content-Length")) ≡ ok size
    pub fits : is_within largest size ≡ true
    pub result : PutResult
    pub put :
        put_object B CB C calls md5 data_dir tmp now bucket key
          (body_of r)
          size
          asked_meta
          (db, files)
        ≡ (ok result, (db', files'))
    pub answer : resp ≡ put_response result asked_meta

  pub put_object_handler-IsAccepted :
      (resp : Response)
      → put_object_handler B CB C CP D largest calls md5 data_dir tmp uuid now user bucket key r
          (db, files)
        ≡ (ok resp, (db', files'))
      → IsAccepted resp
  unfolding put_object_handler put_checked
  put_object_handler-IsAccepted resp h =
      let s : B.Db × Files = (db, files) in
      let (g, granted, h1) =
        reading-eq-ok (allowed B CB C CP user (codes "s3:PutObject") bucket key db) s _ h in
      let (a, short, h2) =
        reading-eq-ok (check (not (ltb 1024 (length key))) key_too_long) s _ h1 in
      let (b, class, h3) =
        reading-eq-ok
          (check (is_valid_storage_class (header_meta D r).storage_class) invalid_storage_class) s _
          h2 in
      let (size, sized, h4) =
        reading-eq-ok (content_length (r.header (codes "Content-Length"))) s _ h3 in
      let (c, fits, h5) = reading-eq-ok (check (is_within largest size) entity_too_large) s _ h4 in
      let (res, mid, put, h6) =
        continue-eq-ok
          (put_object B CB C calls md5 data_dir tmp now bucket key (body_of r) size asked_meta s)
          (λ res s. (ok (put_response res asked_meta), s)) h5 in
      let last : Result Response × (B.Db × Files) → B.Db × Files = λ x. x.1 in
      let is_small : not (ltb 1024 (length key)) ≡ true = check-eq-ok _ key_too_long a short in
      record {
        granted = granted;
        is_short = ground (arith, is_small);
        is_class = check-eq-ok _ invalid_storage_class b class;
        size = size;
        sized = sized;
        fits = check-eq-ok _ entity_too_large c fits;
        result = res;
        put = put ∙ ap (λ m. (ok res, m)) (ap last h6);
        answer = sym (ok-injective (ap (λ (x : Result Response × (B.Db × Files)). x.0) h6));
      }

  -- The metadata of the object that a PUT stores.
  abbrev pub put_object_meta : ObjectMeta
  put_object_meta =
      stored (hex_encode (md5 (body_of r).content)) (length (body_of r).content) now asked_meta

  abbrev pub got : Object
  got = record {
    meta = put_object_meta;
    content = (body_of r).content;
    range_start = pos 0;
    range_end = pred (int64 (length (body_of r).content));
  }

  get_handler_lem :
      (reader : User) (g : HttpRequest) (s : B.Db × Files) (obj : Object)
      → allowed B CB C CP reader (codes "s3:GetObject") bucket key s.0 ≡ ok tt
      → get_options g ≡ plain
      → get_object B C calls data_dir bucket key plain s ≡ ok obj
      → obj.meta.is_delete_marker ≡ false
      → failed_condition D g obj.meta ≡ none
      → get_object_handler B CB C CP CW D calls data_dir reader bucket key g s
        ≡ ok (whole_response D obj)
  unfolding get_object_handler
  get_handler_lem reader g s obj a o f m c =
      let get : GetOptions → Bytes → Result Object =
        λ opts name. get_object B C calls data_dir bucket name opts s in
      let website = get_bucket_website B CW bucket s.0 in
      rw (a, get_object_handler)
        (answer_get_found D g (get (get_options g)) website key obj
            (ap (λ opts. get opts key) o ∙ f)
          ∙ ap (λ opts. ok (answer_object D g opts obj)) o
          ∙ ap (λ (x : Response). ok x) (answer_object_whole D g obj m c))

  -- A PUT that is answered without an error, and after it a GET of the key by a user whom the policies
  -- then allow it, without a range, a version or a condition that fails: the GET is answered with
  -- status 200, the content that the body of the PUT had, decoded where the PUT was in signed chunks,
  -- and the metadata that the PUT's headers named, with the MD5 sum of the content as ETag. The PUT
  -- was allowed by the policies, its key has at most 1024 bytes, its storage class is valid and its
  -- length within the configured size. The key holds no byte 0, the metadata is stable under JSON, the
  -- temporary file is not at the path of the version, the bucket has its table, and the file opens.
  pub get_object_handler-put_object_handler :
      (L : Laws B) (resp : Response) (reader : User) (g : HttpRequest) (path : Bytes)
      → C.Stable put_object_meta
      → NoNul key
      → Exists B db (objects_of bucket)
      → safe_path data_dir bucket key (version_suffix asked_meta.version_id) ≡ ok path
      → bytes_eq path tmp ≡ false
      → calls.open_file path ≡ none
      → put_object_handler B CB C CP D largest calls md5 data_dir tmp uuid now user bucket key r
          (db, files)
        ≡ (ok resp, (db', files'))
      → allowed B CB C CP reader (codes "s3:GetObject") bucket key db' ≡ ok tt
      → parse_range (g.header (codes "Range")) ≡ (none, none)
      → query_get (codes "versionId") g.query ≡ []
      → failed_condition D g put_object_meta ≡ none
      → IsAccepted resp
        × (get_object_handler B CB C CP CW D calls data_dir reader bucket key g (db', files')
            ≡ ok (whole_response D got))
  unfolding header_meta
  get_object_handler-put_object_handler L resp reader g path st n x safe apart opens h a rng vid c =
      let p = put_object_handler-IsAccepted resp h in
      let found =
        get_object-put_object_content B CB C calls md5 data_dir tmp now bucket key (body_of r)
          asked_meta L db db' files files' p.size p.result [] path path st n x refl safe apart opens
          p.put in
      (p, get_handler_lem reader g (db', files') got a (get_options-plain g rng vid) found.0 refl c)
