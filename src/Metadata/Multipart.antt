-- ===== src/Metadata/Multipart.antt =====
-- The multipart methods of internal/storage/metadata/bbolt.go: CreateMultipartUpload,
-- GetMultipartUpload, DeleteMultipartUpload, PutObjectPart, ListObjectParts and
-- ListMultipartUploads. Limits that are int there are natural numbers here, as in `Listing`.
pub mod Lifecycle
use go_s.Prelude.{
  decimal, is_empty, is_some, ℕ, zero, suc, ◌+◌, ◌-◌, ◌/◌, ◌%◌, Bytes, codes, Result, ok, err,
  Error, json, panic, upload_not_found, Option, none, some, List, [], ◌∷◌, ◌++◌, ◌>>=◌, true, false,
  not, ◌&&◌, if◌then◌else◌, ltb, leb, bytes_eq, has_prefix, index_of, length, take, drop, any,
  split,
}
use go_s.Bolt.{Bolt, Codec, Entries, seek}
use go_s.Bolt.Handles.{b_get, b_delete, b_entries}
use go_s.Storage.{Time, ObjectMeta, UploadInfo, PartInfo}
use go_s.Metadata.Names.{bucket_uploads, parts_of}
use go_s.Metadata.Rows.{read_row, write_row}
use go_s.Metadata.Objects.{or_same}
use go_s.Metadata.Listing.{skip_marker}

-- fmt.Sprintf("%s:%s:%s", bucket, key, uploadID)
unfoldable pub upload_key : Bytes → Bytes → Bytes → Bytes
upload_key bucket key upload_id = bucket ++ (b':' ∷ (key ++ (b':' ∷ upload_id)))

-- fmt.Sprintf("meta:%s:%s:%s", bucket, key, uploadID)
unfoldable pub upload_meta_key : Bytes → Bytes → Bytes → Bytes
unfolding upload_key
upload_meta_key bucket key upload_id = codes "meta:" ++ upload_key bucket key upload_id

unfoldable pub zeros : ℕ → Bytes
zeros zero = []
zeros (suc n) = 48 ∷ zeros n

-- fmt.Sprintf("%05d", partNum)
unfoldable pub part_key : ℕ → Bytes
unfolding decimal zeros
part_key n = let s = decimal 19 n in zeros (5 - length s) ++ s

abbrev pub new_upload : Bytes → Bytes → Time → UploadInfo
new_upload key upload_id now = record {
  key = key;
  upload_id = upload_id;
  initiated = now;
  initiator = codes "admin";
  owner = codes "admin";
}

module _ (B : Bolt) (JU : Codec UploadInfo) (JM : Codec ObjectMeta) where
  -- `upload_id` is the new UUID.
  unfoldable pub create_multipart_upload :
      Bytes → Bytes → ObjectMeta → Bytes → Time → B.Db → Result B.Db
  create_multipart_upload bucket key meta upload_id now db = do
    db1 ←
        write_row B JU db bucket_uploads (upload_key bucket key upload_id)
          (new_upload key upload_id now)
    db2 ← write_row B JM db1 bucket_uploads (upload_meta_key bucket key upload_id) meta
    B.create db2 (parts_of upload_id)

module _ (B : Bolt) (JM : Codec ObjectMeta) where
  unfoldable pub get_multipart_upload : Bytes → Bytes → Bytes → B.Db → Result ObjectMeta
  get_multipart_upload bucket key upload_id db =
      read_row B JM upload_not_found db bucket_uploads (upload_meta_key bucket key upload_id)

module _ (B : Bolt) where
  unfoldable pub delete_multipart_upload : Bytes → Bytes → Bytes → B.Db → Result B.Db
  delete_multipart_upload bucket key upload_id db = do
    old ← b_get B db bucket_uploads (upload_key bucket key upload_id)
    if is_some old
        then (do
          db1 ← b_delete B db bucket_uploads (upload_key bucket key upload_id)
          db2 ← b_delete B db1 bucket_uploads (upload_meta_key bucket key upload_id)
          ok (or_same B db2 (B.drop_bucket db2 (parts_of upload_id))))
        else err upload_not_found

module _ (B : Bolt) (JP : Codec PartInfo) where
  unfoldable pub put_object_part : Bytes → ℕ → PartInfo → B.Db → Result B.Db
  put_object_part upload_id part_num part_info db = elim (B.bucket db (parts_of upload_id)) [
    | none ↦ err upload_not_found
    | some _ ↦ write_row B JP db (parts_of upload_id) (part_key part_num) part_info
  ]

-- Where the cursor of ListObjectParts starts.
unfoldable pub start_parts : ℕ → Entries → Entries
unfolding skip_marker
start_parts marker es =
    if ltb 0 marker then skip_marker (part_key marker) (seek (part_key marker) es) else es

module _ (JP : Codec PartInfo) (max_parts : ℕ) where
  -- The next marker of a full page: 0 if no part is left.
  abbrev pub look_ahead : PartInfo → Entries → ℕ
  look_ahead part [] = 0
  look_ahead part (e ∷ es) = part.part_number

  abbrev pub part_turn :
      Option PartInfo
      → Entries
      → List PartInfo
      → (List PartInfo → Result (List PartInfo × ℕ))
      → Result (List PartInfo × ℕ)
  part_turn none es parts rest = err json
  part_turn (some part) es parts rest =
      let parts' = parts ++ part ∷ [] in
      let more = rest parts' in
      if leb max_parts (length parts') then ok (parts', look_ahead part es) else more

  unfoldable pub parts_loop : Entries → List PartInfo → Result (List PartInfo × ℕ)
  parts_loop [] parts = ok (parts, 0)
  parts_loop ((k, v) ∷ es) parts = part_turn (JP.unmarshal v) es parts (parts_loop es)

module _ (B : Bolt) (JP : Codec PartInfo) where
  unfoldable pub list_object_parts : Bytes → ℕ → ℕ → B.Db → Result (List PartInfo × ℕ)
  unfolding parts_loop start_parts
  list_object_parts upload_id marker max_parts db = elim (B.bucket db (parts_of upload_id)) [
    | none ↦ err upload_not_found
    | some es ↦ parts_loop JP max_parts (start_parts marker es) []
  ]

-- What ListMultipartUploads returns.
pub record UploadsPage : Type 0 where
  pub uploads : List UploadInfo
  pub common_prefixes : List Bytes
  pub next_key_marker : Bytes
  pub next_upload_id_marker : Bytes

pub data UploadsTurn : Type 0 where
  done : UploadsPage → UploadsTurn
  failed : Error → UploadsTurn
  next : List UploadInfo → List Bytes → UploadsTurn

-- rem := keyStr[len(prefix):] panics on a key that is shorter than the prefix.
pub data Rolled : Type 0 where
  out_of_range plain : Rolled
  rolled : Bytes → Rolled

abbrev pub rolled_at : Bytes → Bytes → Bytes → Option ℕ → Rolled
rolled_at pfx delimiter rem none = plain
rolled_at pfx delimiter rem (some idx) = rolled (pfx ++ take (idx + length delimiter) rem)

unfoldable pub roll_key : Bytes → Bytes → Bytes → Rolled
roll_key pfx delimiter key =
    if is_empty delimiter
    then plain
    else if ltb (length key) (length pfx)
    then out_of_range
    else rolled_at pfx delimiter (drop (length pfx) key)
        (index_of (drop (length pfx) key) delimiter)

module _ (JU : Codec UploadInfo) (bucket pfx delimiter : Bytes) (max_uploads : ℕ) where
  abbrev pub add_upload : Option UploadInfo → List UploadInfo → List Bytes → UploadsTurn
  add_upload none uploads prefixes = failed json
  add_upload (some info) uploads prefixes =
      if leb max_uploads (length (uploads ++ info ∷ []) + length prefixes)
      then done (record {
        uploads = uploads ++ info ∷ [];
        common_prefixes = prefixes;
        next_key_marker = info.key;
        next_upload_id_marker = info.upload_id;
      })
      else next (uploads ++ info ∷ []) prefixes

  abbrev pub roll_upload : Bytes → Bytes → List UploadInfo → List Bytes → UploadsTurn
  roll_upload key p uploads prefixes =
      if any (bytes_eq p) prefixes
      then next uploads prefixes
      else if leb max_uploads (length uploads + length (prefixes ++ p ∷ []))
      then done (record {
        uploads = uploads;
        common_prefixes = prefixes ++ p ∷ [];
        next_key_marker = key;
        next_upload_id_marker = [];
      })
      else next uploads (prefixes ++ p ∷ [])

  abbrev pub upload_of : Rolled → Bytes → Bytes → List UploadInfo → List Bytes → UploadsTurn
  upload_of out_of_range key text uploads prefixes = failed panic
  upload_of (rolled p) key text uploads prefixes = roll_upload key p uploads prefixes
  upload_of plain key text uploads prefixes = add_upload (JU.unmarshal text) uploads prefixes

  -- The rows whose key has three parts; the test of the source for the others is kept as it is.
  unfoldable pub uploads_turn :
      Bytes → List Bytes → Bytes → List UploadInfo → List Bytes → UploadsTurn
  unfolding roll_key upload_key
  uploads_turn k (p0 ∷ p1 ∷ p2 ∷ []) text uploads prefixes =
      if not (bytes_eq p0 (codes "meta")) && not (bytes_eq k (upload_key p0 p1 p2))
      then next uploads prefixes
      else upload_of (roll_key pfx delimiter p1) p1 text uploads prefixes
  uploads_turn k parts text uploads prefixes = next uploads prefixes

  unfoldable pub uploads_loop : Entries → List UploadInfo → List Bytes → Result UploadsPage
  unfolding uploads_turn
  uploads_loop [] uploads prefixes = ok (record {
    uploads = uploads;
    common_prefixes = prefixes;
    next_key_marker = [];
    next_upload_id_marker = [];
  })
  uploads_loop ((k, v) ∷ es) uploads prefixes = elim (has_prefix k (bucket ++ b':' ∷ [])) [
    | false ↦ ok (record {
      uploads = uploads;
      common_prefixes = prefixes;
      next_key_marker = [];
      next_upload_id_marker = [];
    })
    | true ↦ elim (uploads_turn k (split b':' k) v uploads prefixes) [
      | next uploads' prefixes' ↦ uploads_loop es uploads' prefixes'
      | done page ↦ ok page
      | failed e ↦ err e
    ]
  ]

module _ (B : Bolt) (JU : Codec UploadInfo) where
  -- The markers of a page are not read.
  unfoldable pub list_multipart_uploads :
      Bytes → Bytes → Bytes → Bytes → Bytes → ℕ → B.Db → Result UploadsPage
  unfolding uploads_loop
  list_multipart_uploads bucket pfx delimiter key_marker upload_id_marker max_uploads db = do
    es ← b_entries B db bucket_uploads
    uploads_loop JU bucket pfx delimiter max_uploads (seek ((bucket ++ b':' ∷ []) ++ pfx) es) [] []
