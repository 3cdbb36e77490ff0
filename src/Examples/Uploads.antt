-- ===== src/Examples/Uploads.antt =====
-- CompleteMultipartUpload, at an upload of two parts.
use go_s.Prelude.{
  Bytes, codes, Result, ok, none, some, List, [], ◌∷◌, ◌≡◌, refl, if◌then◌else◌, false, bytes_eq,
  bytes_lt, has_prefix, hex_encode, hex_decode, split, decimal,
}
use go_s.Bolt.{Codec, lookup, insert, decode}
use go_s.Bolt.Handles.{b_put, b_get, b_delete}
use go_s.Bolt.Sample.{memory, MemDb}
use go_s.Storage.{ObjectMeta, UploadInfo}
use go_s.Metadata.Names.{objects_of, versions_of, version_key, parts_of}
use go_s.Metadata.Rows.{write_row, read_row}
use go_s.Metadata.Buckets.{get_bucket}
use go_s.Metadata.Objects
use go_s.Metadata.Multipart.{
  upload_key, upload_meta_key, new_upload, zeros, part_key, create_multipart_upload,
  get_multipart_upload, delete_multipart_upload,
}
use go_s.Local.Paths.{
  safe_path, join_path, clean, add_segment, add_segments, join_stack, join_texts,
}
use go_s.Local.Objects.{Files}
use go_s.Local.Contents.{open_path}
use go_s.Local.Multipart.{
  CompletePart, CompleteResult, part_path, part_file, combine, safe_multipart_path, drop_upload,
  finish, assemble, complete_multipart_upload,
}
use go_s.Local.Multipart.Parts.{IsApart}
use go_s.Local.Multipart.Completion.{IsCompleted, complete_multipart_upload-IsCompleted}
use go_s.Examples.Stores.{meta_of, one_codec, made, with_docs, docs}
use go_s.Examples.Contents.{calls, md5, key, info_codec}

abbrev meta_codec : Codec ObjectMeta
meta_codec = one_codec (meta_of 7 false [])

abbrev upload_codec : Codec UploadInfo
upload_codec = one_codec (new_upload key (codes "u1") 7)

abbrev with_row : MemDb
with_row = made (
    memory.create (made (memory.put with_docs (codes "buckets") docs (codes "{}")))
      (codes "uploads"))

unfoldable one_upload : MemDb
unfolding create_multipart_upload
one_upload = made (
    create_multipart_upload memory upload_codec meta_codec docs key (meta_of 7 false [])
      (codes "u1") 7 with_row)

-- The files of the two parts.
abbrev part_files : Files
part_files name =
    if bytes_eq name (codes "/tmp/multipart/u1/parts/00001")
    then some (codes "one")
    else if bytes_eq name (codes "/tmp/multipart/u1/parts/00002")
    then some (codes "two")
    else none

abbrev parts : List CompletePart
parts =
    record { part_number = 1; etag = codes "6f" }
    ∷ record { part_number = 2; etag = codes "74" }
    ∷ []

abbrev temp : Bytes
temp = codes "/tmp/complete-1"

unfoldable done : Result CompleteResult × (MemDb × Files)
unfolding complete_multipart_upload one_upload
done =
    complete_multipart_upload memory info_codec meta_codec calls md5 (codes "/data") (codes "/tmp")
      temp (codes "v1") 9 docs key (codes "u1") parts (one_upload, part_files)

abbrev answer : CompleteResult
answer = record { etag = codes "73756d-2"; version_id = [] }

parts-IsApart : IsApart (codes "/tmp") (codes "u1") temp parts
unfolding part_path part_key decimal zeros join_path join_texts clean add_segment add_segments
    join_stack split bytes_eq has_prefix
parts-IsApart = (refl, (refl, tt))

done_lem : done ≡ (ok answer, done.1)
unfolding done complete_multipart_upload assemble combine finish drop_upload part_file open_path
    get_multipart_upload delete_multipart_upload one_upload create_multipart_upload upload_key
    upload_meta_key part_path part_key decimal zeros safe_multipart_path get_bucket read_row b_get
    b_put b_delete lookup insert bytes_eq bytes_lt write_row objects_of versions_of version_key
    parts_of decode safe_path clean join_path add_segment add_segments join_stack join_texts split
    has_prefix Objects.put_object hex_encode hex_decode
done_lem = refl

complete_multipart_upload-IsCompleted_example :
    IsCompleted memory info_codec meta_codec calls md5
      (codes "/data")
      (codes "/tmp")
      temp
      (codes "v1")
      9
      docs
      key
      (codes "u1")
      parts
      one_upload
      done.1.0
      part_files
      done.1.1
      answer
unfolding done
complete_multipart_upload-IsCompleted_example =
    complete_multipart_upload-IsCompleted memory info_codec meta_codec calls md5 (codes "/data")
      (codes "/tmp") temp (codes "v1") 9 docs key (codes "u1") parts one_upload done.1.0 part_files
      done.1.1 answer parts-IsApart done_lem
