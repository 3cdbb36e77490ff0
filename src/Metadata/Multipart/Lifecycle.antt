-- ===== src/Metadata/Multipart/Lifecycle.antt =====
-- The life of a multipart upload: created, found by its ID, deleted with its parts, gone, and no
-- upload of another ID touched by it.
use mathlib.Core.Path.{subst}
use mathlib.Core.List.{append_assoc}
use go_s.Prelude.{
  ℕ, Bytes, codes, Result, ok, err, upload_not_found, none, ◌≡◌, ◌≢◌, refl, false, bytes_eq,
  bytes_eq_refl, bytes_eq_iff, arith, ◌∙◌, sym, ap, [], ◌∷◌, ◌++◌, if◌then◌else◌, Option-cases,
  Bool-cases, inl, inr, >>=-eq-ok, is_some, ok-injective, All,
}
use go_s.Bolt.{Bolt, Laws, Codec}
use go_s.Bolt.Handles.{
  value, Exists, b_get, b_get_lem, b_delete_total, value-delete, delete-Exists, value-drop,
  drop-Exists,
}
use go_s.Storage.{Time, ObjectMeta, UploadInfo, PartInfo}
use go_s.Metadata.Names.{bucket_uploads, parts_of}
use go_s.Metadata.Rows.{write_row, decode_or}
use go_s.Metadata.Rows.Laws.{
  read_row_lem, read_row-write_row, write_row-Exists, read_row-write_row_ne, read_row-create,
  value-write_row,
}
use go_s.Metadata.Objects.{or_same}
use go_s.Metadata.Multipart.{
  upload_key, upload_meta_key, new_upload, create_multipart_upload, get_multipart_upload,
  delete_multipart_upload, list_object_parts,
}

-- An upload ID that holds no colon, as a UUID.
abbrev pub NoColon : Bytes → Type 0
NoColon = All (λ c. c ≢ b':')

NoColon-inside : (s t : Bytes) → ¬ NoColon (s ++ b':' ∷ t)
NoColon-inside [] t h = h.0 refl
NoColon-inside (x ∷ s) t h = NoColon-inside s t h.1

-- Keys that end in different IDs are apart.
keys_apart :
    (s t u v : Bytes)
    → NoColon u
    → NoColon v
    → bytes_eq u v ≡ false
    → bytes_eq (s ++ b':' ∷ u) (t ++ b':' ∷ v) ≡ false
unfolding bytes_eq
keys_apart [] [] u v a b h = ground arith
keys_apart [] (y ∷ t) u v a b h = elim (Bool-cases (bytes_eq u (t ++ b':' ∷ v))) [
  | inl e ↦ absurd (NoColon-inside t v (subst NoColon ((bytes_eq_iff u (t ++ b':' ∷ v)).0 e) a))
  | inr e ↦ ground (arith, e)
]
keys_apart (x ∷ s) [] u v a b h = elim (Bool-cases (bytes_eq (s ++ b':' ∷ u) v)) [
  | inl e ↦
      absurd (NoColon-inside s u (subst NoColon (sym ((bytes_eq_iff (s ++ b':' ∷ u) v).0 e)) b))
  | inr e ↦ ground (arith, e)
]
keys_apart (x ∷ s) (y ∷ t) u v a b h = ground (arith, keys_apart s t u v a b h)

upload_key_lem :
    (bucket key id : Bytes) → upload_key bucket key id ≡ (bucket ++ b':' ∷ key) ++ b':' ∷ id
unfolding upload_key
upload_key_lem bucket key id = sym (append_assoc bucket (b':' ∷ key) (b':' ∷ id))

upload_meta_key_lem :
    (bucket key id : Bytes)
    → upload_meta_key bucket key id ≡ (codes "meta:" ++ (bucket ++ b':' ∷ key)) ++ b':' ∷ id
unfolding upload_meta_key
upload_meta_key_lem bucket key id = ap (λ t. codes "meta:" ++ t) (upload_key_lem bucket key id)

-- The keys of two uploads with different IDs.
abbrev pub Apart : Bytes → Bytes → Type 0
Apart id other = NoColon id × NoColon other × (bytes_eq other id ≡ false)

meta_key-Apart :
    (b k id b' k' other : Bytes)
    → Apart id other
    → (bytes_eq (upload_meta_key b' k' other) (upload_key b k id) ≡ false)
      × (bytes_eq (upload_meta_key b' k' other) (upload_meta_key b k id) ≡ false)
meta_key-Apart b k id b' k' other (n, m, h) =
    let p = codes "meta:" ++ (b' ++ b':' ∷ k') in
    (
      rw (upload_meta_key_lem b' k' other, upload_key_lem b k id)
          (keys_apart p (b ++ b':' ∷ k) other id m n h),
      rw (upload_meta_key_lem b' k' other, upload_meta_key_lem b k id)
          (keys_apart p (codes "meta:" ++ (b ++ b':' ∷ k)) other id m n h),
    )

module _ (B : Bolt) (L : Laws B) (JU : Codec UploadInfo) (JM : Codec ObjectMeta) where
  -- After a CreateMultipartUpload that returns no error, GetMultipartUpload of its bucket, key and
  -- ID returns the metadata it was given, and GetMultipartUpload of any bucket and key with another
  -- ID returns what it did before. The IDs hold no colon, the table of the uploads is there, and
  -- the metadata is stable under JSON.
  pub get_multipart_upload-create_multipart_upload :
      (db db' : B.Db) (bucket key id bucket' key' other : Bytes) (meta : ObjectMeta) (now : Time)
      → JM.Stable meta
      → Exists B db bucket_uploads
      → Apart id other
      → create_multipart_upload B JU JM bucket key meta id now db ≡ ok db'
      → (get_multipart_upload B JM bucket key id db' ≡ ok meta)
        × (get_multipart_upload B JM bucket' key' other db'
            ≡ get_multipart_upload B JM bucket' key' other db)
  unfolding create_multipart_upload get_multipart_upload
  get_multipart_upload-create_multipart_upload db db' bucket key id bucket' key' other meta now s x
        apart h =
      let info = new_upload key id now in
      let k = upload_key bucket key id in
      let mk = upload_meta_key bucket key id in
      let mo = upload_meta_key bucket' key' other in
      let (db1, p, h1) = >>=-eq-ok (write_row B JU db bucket_uploads k info) _ h in
      let (db2, q, h2) = >>=-eq-ok (write_row B JM db1 bucket_uploads mk meta) _ h1 in
      let x1 = write_row-Exists B L JU db db1 bucket_uploads k bucket_uploads info p x in
      let x2 = write_row-Exists B L JM db1 db2 bucket_uploads mk bucket_uploads meta q x1 in
      let (a1, a2) = meta_key-Apart bucket key id bucket' key' other apart in
      let same = λ (j : Bytes).
        read_row-create B L JM upload_not_found db2 db' (parts_of id) bucket_uploads j h2 x2 in
      (
        same mk ∙ read_row-write_row B L JM upload_not_found db1 db2 bucket_uploads mk meta s q,
        same mo
            ∙ read_row-write_row_ne B L JM upload_not_found db1 db2 bucket_uploads mk bucket_uploads
                mo meta q (ground (arith, a2)) x1
            ∙ read_row_lem B L JM upload_not_found db1 bucket_uploads mo x1
            ∙ ap (decode_or JM upload_not_found) (
                value-write_row B L JU db db1 bucket_uploads k bucket_uploads mo info p
                  (ground (arith, a1)))
            ∙ sym (read_row_lem B L JM upload_not_found db bucket_uploads mo x),
      )

uploads-parts_of : (id : Bytes) → bytes_eq bucket_uploads (parts_of id) ≡ false
unfolding parts_of bytes_eq
uploads-parts_of id = refl

module _ (B : Bolt) (L : Laws B) where
  -- A DeleteBucket whose error is dropped leaves no such bucket, and the others as they were.
  dropped :
      (db db' : B.Db) (b c : Bytes)
      → or_same B db (B.drop_bucket db b) ≡ db'
      → bytes_eq c b ≡ false
      → Exists B db c
      → (B.bucket db' b ≡ none) × Exists B db' c × ((j : Bytes) → value B db' c j ≡ value B db c j)
  dropped db db' b c h apart x = by (B.drop_bucket db b) refl h
    where
      by :
          (r : Result B.Db)
          → B.drop_bucket db b ≡ r
          → or_same B db r ≡ db'
          → (B.bucket db' b ≡ none)
            × Exists B db' c
            × ((j : Bytes) → value B db' c j ≡ value B db c j)
      by (ok d) e h =
          let e' : B.drop_bucket db b ≡ ok db' = e ∙ ap (λ t. ok t) h in
          (
            ground (arith, L.bucket_drop db db' b b e', bytes_eq_refl b),
            drop-Exists B L db db' b c e' apart x,
            λ j. value-drop B L db db' b c j e' apart,
          )
      by (err f) e h = rw⁻¹ h (
        elim (Option-cases (B.bucket db b)) [
          | inl n ↦ n
          | inr (es, n) ↦ let (d, k) = L.drop_total db b es n in absurd (ground arith)
        ],
        x,
        λ j. refl,
      )

  -- After a DeleteMultipartUpload that returns no error, the upload is gone: GetMultipartUpload,
  -- ListObjectParts and a second DeleteMultipartUpload find no upload. GetMultipartUpload of any
  -- bucket and key with another ID returns what it did before. The IDs hold no colon, and the table
  -- of the uploads is there.
  pub get_multipart_upload-delete_multipart_upload :
      (JM : Codec ObjectMeta) (JP : Codec PartInfo) (db db' : B.Db)
      (bucket key id bucket' key' other : Bytes) (marker max_parts : ℕ)
      → Exists B db bucket_uploads
      → Apart id other
      → delete_multipart_upload B bucket key id db ≡ ok db'
      → (get_multipart_upload B JM bucket key id db' ≡ err upload_not_found)
        × (list_object_parts B JP id marker max_parts db' ≡ err upload_not_found)
        × (delete_multipart_upload B bucket key id db' ≡ err upload_not_found)
        × (get_multipart_upload B JM bucket' key' other db'
            ≡ get_multipart_upload B JM bucket' key' other db)
  unfolding delete_multipart_upload get_multipart_upload list_object_parts
  get_multipart_upload-delete_multipart_upload JM JP db db' bucket key id bucket' key' other marker
        max_parts x apart h =
      let k = upload_key bucket key id in
      let mk = upload_meta_key bucket key id in
      let mo = upload_meta_key bucket' key' other in
      let db1 = B.delete db bucket_uploads k in
      let db2 = B.delete db1 bucket_uploads mk in
      let x1 = delete-Exists B L db bucket_uploads k bucket_uploads x in
      let x2 = delete-Exists B L db1 bucket_uploads mk bucket_uploads x1 in
      let (old, g, h1) = >>=-eq-ok (b_get B db bucket_uploads k) _ h in
      let d : or_same B db2 (B.drop_bucket db2 (parts_of id)) ≡ db' =
        elim (Bool-cases (is_some old)) [
          | inl e ↦ ok-injective (
              rw
                (
                  e,
                  b_delete_total B L db bucket_uploads k x,
                  b_delete_total B L db1 bucket_uploads mk x1,
                )
                at h1)
          | inr e ↦ absurd (ground arith)
        ] in
      let (gone, x3, same) =
        dropped db2 db' (parts_of id) bucket_uploads d (uploads-parts_of id) x2 in
      let (a1, a2) = meta_key-Apart bucket key id bucket' key' other apart in
      let v : (j : Bytes)
          → value B db' bucket_uploads j ≡ (
              if bytes_eq j mk
              then none
              else if bytes_eq j k
              then none
              else value B db bucket_uploads j) =
        λ j.
          same j
          ∙ ground (
            arith,
            value-delete B L db1 bucket_uploads mk bucket_uploads j,
            value-delete B L db bucket_uploads k bucket_uploads j,
            bytes_eq_refl bucket_uploads,
          ) in
      (
        read_row_lem B L JM upload_not_found db' bucket_uploads mk x3
            ∙ ground (arith, v mk, bytes_eq_refl mk),
        rw (gone, list_object_parts),
        ground (arith, b_get_lem B L db' bucket_uploads k x3, v k, bytes_eq_refl k),
        read_row_lem B L JM upload_not_found db' bucket_uploads mo x3
            ∙ ap (decode_or JM upload_not_found) (v mo ∙ rw (a2, a1))
            ∙ sym (read_row_lem B L JM upload_not_found db bucket_uploads mo x),
      )
