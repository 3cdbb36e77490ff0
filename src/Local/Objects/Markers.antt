-- ===== src/Local/Objects/Markers.antt =====
-- DeleteObject of the backend in a bucket that keeps versions.
use go_s.Prelude.{Bytes, ok, true, ◌≡◌, >>=-eq-ok, if◌then◌else◌, [], ap, sym, ok-injective}
use go_s.Bolt.{Bolt, Laws, Codec}
use go_s.Bolt.Handles.{Exists}
use go_s.Storage.{Time, BucketInfo, ObjectMeta}
use go_s.Metadata.Names.{objects_of, NoNul}
use go_s.Metadata.Buckets.{get_bucket}
use go_s.Metadata.Objects.{get_object, put_object}
use go_s.Metadata.Objects.RoundTrip.{hits, get_object-put_object}
use go_s.Local.Objects.{Files, delete_object, delete_marker, marker_id, keeps_versions}

-- In a bucket whose versioning is enabled or suspended, a DeleteObject without a version ID that
-- returns no error takes no file away and adds a delete marker: GetObject of that key without a
-- version ID, or with the ID of the marker, returns the marker. Every other GetObject, of all other
-- versions of the key and of other keys and buckets that are there, returns what it did before. Keys
-- hold no byte 0, and the marker is stable under JSON.
pub get_object-delete_object_marked :
    (B : Bolt) (L : Laws B) (CB : Codec BucketInfo) (C : Codec ObjectMeta) (data_dir uuid : Bytes)
    (now : Time) (bucket key bucket' key' wanted : Bytes) (db db' : B.Db) (files files' : Files)
    (info : BucketInfo)
    → get_bucket B CB bucket db ≡ ok info
    → keeps_versions info ≡ true
    → C.Stable (delete_marker (marker_id info uuid) now)
    → NoNul key
    → NoNul key'
    → Exists B db (objects_of bucket')
    → delete_object B CB C data_dir uuid now bucket key [] (db, files) ≡ ok (db', files')
    → (files' ≡ files)
      × (get_object B C bucket' key' wanted db' ≡ (
          if hits bucket key (delete_marker (marker_id info uuid) now) bucket' key' wanted
          then ok (delete_marker (marker_id info uuid) now)
          else get_object B C bucket' key' wanted db))
unfolding delete_object
get_object-delete_object_marked B L CB C data_dir uuid now bucket key bucket' key' wanted db db'
      files files' info g v s n n' x h =
    let marker = delete_marker (marker_id info uuid) now in
    let (d, p, q) =
      >>=-eq-ok (put_object B C bucket key marker db) _ (rw (g, v, delete_object) at h) in
    let e = ok-injective q in
    let same : d ≡ db' = ap (λ (s : B.Db × Files). s.0) e in
    (
      sym (ap (λ (s : B.Db × Files). s.1) e),
      get_object-put_object B L C db db' bucket key bucket' key' wanted marker s n n' x
          (rw⁻¹ same p),
    )
