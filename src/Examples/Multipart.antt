-- ===== src/Examples/Multipart.antt =====
-- The theorems on multipart uploads, at a database with one upload.
use go_s.Prelude.{
  codes, ok, err, upload_not_found, none, some, [], false, ◌≡◌, refl, arith, ok-injective, bytes_eq,
  bytes_lt, sym, ap, ◌∙◌,
}
use go_s.Bolt.{Codec, lookup, insert}
use go_s.Bolt.Handles.{b_put, b_get, b_delete}
use go_s.Bolt.Sample.{memory, memory-Laws, MemDb}
use go_s.Storage.{ObjectMeta, UploadInfo, PartInfo}
use go_s.Metadata.Names.{parts_of}
use go_s.Metadata.Rows.{write_row}
use go_s.Metadata.Multipart.{
  upload_key, upload_meta_key, new_upload, create_multipart_upload, get_multipart_upload,
  delete_multipart_upload, list_object_parts,
}
use go_s.Metadata.Multipart.Lifecycle.{
  get_multipart_upload-create_multipart_upload, get_multipart_upload-delete_multipart_upload, Apart,
}
use go_s.Examples.Stores.{made, meta_codec, meta_of, docs}

-- An encoding that keeps the uploads of one key by their ID, and one of a single part.
abbrev upload_codec : Codec UploadInfo
upload_codec = record {
  marshal = λ u. ok u.upload_id;
  unmarshal = λ text. some (new_upload (codes "a") text 7);
  Stable = λ u. u ≡ new_upload (codes "a") u.upload_id 7;
  marshal_total = λ u s. (_, refl);
  marshal_error = λ u e h. cc;
  unmarshal_marshal = λ u d s h.
      ap (λ n. some (new_upload (codes "a") n 7)) (sym (ok-injective h)) ∙ ap (λ b. some b) (sym s);
}

abbrev one_part : PartInfo
one_part = record { part_number = 1; etag = []; last_modified = 0; size = 5 }

abbrev part_codec : Codec PartInfo
part_codec = record {
  marshal = λ p. ok [];
  unmarshal = λ text. some one_part;
  Stable = λ p. p ≡ one_part;
  marshal_total = λ p s. (_, refl);
  marshal_error = λ p e h. cc;
  unmarshal_marshal = λ p d s h. ap (λ b. some b) (sym s);
}

abbrev no_uploads : MemDb
no_uploads = made (memory.create (λ _. none) (codes "uploads"))

abbrev meta : ObjectMeta
meta = meta_of 7 false []

unfoldable one_upload : MemDb
unfolding create_multipart_upload
one_upload = made (
    create_multipart_upload memory upload_codec meta_codec docs (codes "a") meta (codes "u1") 7
      no_uploads)

unfoldable aborted : MemDb
unfolding delete_multipart_upload one_upload
aborted = made (delete_multipart_upload memory docs (codes "a") (codes "u1") one_upload)

ids-Apart : Apart (codes "u1") (codes "u2")
unfolding bytes_eq
ids-Apart =
    ((λ e. omega arith, (λ e. omega arith, tt)), (λ e. omega arith, (λ e. omega arith, tt)), refl)

get_multipart_upload-create_multipart_upload_example :
    (get_multipart_upload memory meta_codec docs (codes "a") (codes "u1") one_upload ≡ ok meta)
    × (get_multipart_upload memory meta_codec docs (codes "a") (codes "u2") one_upload
        ≡ get_multipart_upload memory meta_codec docs (codes "a") (codes "u2") no_uploads)
unfolding one_upload create_multipart_upload write_row b_put bytes_eq upload_key upload_meta_key
get_multipart_upload-create_multipart_upload_example =
    get_multipart_upload-create_multipart_upload memory memory-Laws upload_codec meta_codec
      no_uploads one_upload docs (codes "a") (codes "u1") docs (codes "a") (codes "u2") meta 7 refl
      (_, refl) ids-Apart refl

get_multipart_upload-delete_multipart_upload_example :
    (get_multipart_upload memory meta_codec docs (codes "a") (codes "u1") aborted
      ≡ err upload_not_found)
    × (list_object_parts memory part_codec (codes "u1") 0 10 aborted ≡ err upload_not_found)
    × (delete_multipart_upload memory docs (codes "a") (codes "u1") aborted ≡ err upload_not_found)
    × (get_multipart_upload memory meta_codec docs (codes "a") (codes "u2") aborted
        ≡ get_multipart_upload memory meta_codec docs (codes "a") (codes "u2") one_upload)
unfolding aborted one_upload create_multipart_upload delete_multipart_upload write_row b_put b_get
    b_delete bytes_eq lookup insert upload_key upload_meta_key parts_of bytes_lt
get_multipart_upload-delete_multipart_upload_example =
    get_multipart_upload-delete_multipart_upload memory memory-Laws meta_codec part_codec one_upload
      aborted docs (codes "a") (codes "u1") docs (codes "a") (codes "u2") 0 10 (_, refl) ids-Apart
      refl
