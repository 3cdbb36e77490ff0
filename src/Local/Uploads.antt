-- ===== src/Local/Uploads.antt =====
-- ListParts and ListMultipartUploads of internal/storage/local/local.go.
use go_s.Prelude.{ℕ, Bytes, Result, ok, List, Bool, not, ◌||◌, ◌>>=◌, is_empty, ltb}
use go_s.Bolt.{Bolt, Codec}
use go_s.Storage.{BucketInfo, ObjectMeta, PartInfo, UploadInfo}
use go_s.Metadata.Multipart
use go_s.Metadata.Multipart.{UploadsPage}
use go_s.Local.Objects.{bucket_exists_in}
use go_s.Local.Contents.{with_error, exists_or}
use go_s.Local.Multipart.{upload_error}

-- ListPartsResult and ListUploadsResult of internal/storage/interface.go, without the fields that are
-- left empty.
pub record ListPartsResult : Type 0 where
  pub is_truncated : Bool
  pub next_part_number_marker : ℕ
  pub parts : List PartInfo

pub record ListUploadsResult : Type 0 where
  pub is_truncated : Bool
  pub next_key_marker : Bytes
  pub next_upload_id_marker : Bytes
  pub uploads : List UploadInfo
  pub common_prefixes : List Bytes

abbrev pub parts_result : List PartInfo → ℕ → ListPartsResult
parts_result parts next = record {
  is_truncated = ltb 0 next;
  next_part_number_marker = next;
  parts = parts;
}

abbrev pub uploads_result : UploadsPage → ListUploadsResult
uploads_result p = record {
  is_truncated = not (is_empty p.next_key_marker) || not (is_empty p.next_upload_id_marker);
  next_key_marker = p.next_key_marker;
  next_upload_id_marker = p.next_upload_id_marker;
  uploads = p.uploads;
  common_prefixes = p.common_prefixes;
}

module _ (B : Bolt) (C : Codec ObjectMeta) (JP : Codec PartInfo) where
  unfoldable pub list_parts : Bytes → Bytes → Bytes → ℕ → ℕ → B.Db → Result ListPartsResult
  list_parts bucket key upload_id marker max_parts db = do
    meta ← with_error upload_error (Multipart.get_multipart_upload B C bucket key upload_id db)
    (parts, next) ← Multipart.list_object_parts B JP upload_id marker max_parts db
    ok (parts_result parts next)

module _ (B : Bolt) (CB : Codec BucketInfo) (C : Codec ObjectMeta) (JU : Codec UploadInfo) where
  unfoldable pub list_uploads :
      Bytes → Bytes → Bytes → Bytes → Bytes → ℕ → B.Db → Result ListUploadsResult
  list_uploads bucket pfx delimiter key_marker upload_id_marker max_uploads db = do
    exists ← exists_or (bucket_exists_in B CB C bucket db)
    page ←
        Multipart.list_multipart_uploads B JU bucket pfx delimiter key_marker upload_id_marker
          max_uploads db
    ok (uploads_result page)
