-- ===== src/Metadata/Rows/Laws.antt =====
-- What a written row reads as, under the laws of the database and of the encoding.
use go_s.Prelude.{
  Bytes, ok, err, Error, some, ◌≡◌, >>=-eq-ok, false, ◌&&◌, if◌then◌else◌, bytes_eq, bytes_eq_refl,
  arith, ap, ◌∙◌, sym,
}
use go_s.Bolt.{Bolt, Laws, Codec, decode, FitsKey, FitsValue}
use go_s.Bolt.Handles.{
  create-Exists, value-create, delete-Exists, b_put, value, Exists, b_get_lem, b_put-eq-ok,
  value-put, b_put_total, value-delete, b_put-Exists,
}
use go_s.Metadata.Rows.{read_row, write_row, decode_or}

-- A value that can be written under a key.
pub record IsWritable {A : Type 0} (C : Codec A) (k : Bytes) (a : A) : Type 0 where
  pub stable : C.Stable a
  pub fits_key : FitsKey k
  pub fits_value : (text : Bytes) → C.marshal a ≡ ok text → FitsValue text

pub decode-marshal :
    {A : Type 0} (C : Codec A) (a : A) (text : Bytes)
    → C.Stable a
    → C.marshal a ≡ ok text
    → decode C text ≡ ok a
unfolding decode
decode-marshal C a text s h = rw (C.unmarshal_marshal a text s h, decode)

module _ (B : Bolt) (L : Laws B) {A : Type 0} (C : Codec A) where
  pub write_row-eq-ok :
      (db db' : B.Db) (b k : Bytes) (a : A)
      → write_row B C db b k a ≡ ok db'
      → (text : Bytes) × (C.marshal a ≡ ok text) × (b_put B db b k text ≡ ok db')
  unfolding write_row
  write_row-eq-ok db db' b k a h = >>=-eq-ok (C.marshal a) (b_put B db b k) h

  pub read_row_lem :
      (missing : Error) (db : B.Db) (b k : Bytes)
      → Exists B db b
      → read_row B C missing db b k ≡ decode_or C missing (value B db b k)
  unfolding read_row
  read_row_lem missing db b k x = rw (b_get_lem B L db b k x)

  pub write_row-Exists :
      (db db' : B.Db) (b k c : Bytes) (a : A)
      → write_row B C db b k a ≡ ok db'
      → Exists B db c
      → Exists B db' c
  write_row-Exists db db' b k c a h x =
      let (text, m, p) = write_row-eq-ok db db' b k a h in b_put-Exists B L db db' b k text c p x

  pub value-write_row :
      (db db' : B.Db) (b k c j : Bytes) (a : A)
      → write_row B C db b k a ≡ ok db'
      → bytes_eq c b && bytes_eq j k ≡ false
      → value B db' c j ≡ value B db c j
  value-write_row db db' b k c j a h apart =
      let (text, m, p) = write_row-eq-ok db db' b k a h in
      value-put B L db db' b k text c j p ∙ (rw apart)

  pub value-put_self :
      (db db' : B.Db) (b k text : Bytes)
      → b_put B db b k text ≡ ok db'
      → value B db' b k ≡ some text
  value-put_self db db' b k text p =
      value-put B L db db' b k text b k p ∙ (rw (bytes_eq_refl b, bytes_eq_refl k))

  pub read_row-write_row :
      (missing : Error) (db db' : B.Db) (b k : Bytes) (a : A)
      → C.Stable a
      → write_row B C db b k a ≡ ok db'
      → read_row B C missing db' b k ≡ ok a
  read_row-write_row missing db db' b k a s h =
      let (text, m, p) = write_row-eq-ok db db' b k a h in
      let (x, q) = b_put-eq-ok B L db db' b k text p in
      read_row_lem missing db' b k (b_put-Exists B L db db' b k text b p x)
      ∙ ap (decode_or C missing) (value-put_self db db' b k text p)
      ∙ decode-marshal C a text s m

  pub write_row_total :
      (db : B.Db) (b k : Bytes) (a : A)
      → Exists B db b
      → IsWritable C k a
      → (db' : B.Db) × (write_row B C db b k a ≡ ok db')
  unfolding write_row
  write_row_total db b k a x w =
      let (text, m) = C.marshal_total a w.stable in
      let (db', p) = b_put_total B L db b k text x w.fits_key (w.fits_value text m) in
      (db', rw (m) p)

  -- A new bucket changes no row that is there.
  pub read_row-create :
      (missing : Error) (db db' : B.Db) (b c k : Bytes)
      → B.create db b ≡ ok db'
      → Exists B db c
      → read_row B C missing db' c k ≡ read_row B C missing db c k
  read_row-create missing db db' b c k h x =
      read_row_lem missing db' c k (create-Exists B L db db' b c h x)
      ∙ ap (decode_or C missing) (value-create B L db db' b c k h)
      ∙ sym (read_row_lem missing db c k x)

  pub read_row-write_row_ne :
      (missing : Error) (db db' : B.Db) (b k c j : Bytes) (a : A)
      → write_row B C db b k a ≡ ok db'
      → bytes_eq c b && bytes_eq j k ≡ false
      → Exists B db c
      → read_row B C missing db' c j ≡ read_row B C missing db c j
  read_row-write_row_ne missing db db' b k c j a h apart x =
      read_row_lem missing db' c j (write_row-Exists db db' b k c a h x)
      ∙ ap (decode_or C missing) (value-write_row db db' b k c j a h apart)
      ∙ sym (read_row_lem missing db c j x)

  pub read_row-delete :
      (missing : Error) (db : B.Db) (b k c j : Bytes)
      → Exists B db c
      → read_row B C missing (B.delete db b k) c j
        ≡ (if bytes_eq c b && bytes_eq j k then err missing else read_row B C missing db c j)
  read_row-delete missing db b k c j x = ground (
    arith,
    read_row_lem missing (B.delete db b k) c j (delete-Exists B L db b k c x),
    read_row_lem missing db c j x,
    value-delete B L db b k c j,
  )

  -- The row that was written is there.
  pub value-written :
      (db db' : B.Db) (b k : Bytes) (a : A)
      → write_row B C db b k a ≡ ok db'
      → (text : Bytes) × (value B db' b k ≡ some text)
  value-written db db' b k a h =
      let (text, m, p) = write_row-eq-ok db db' b k a h in (text, value-put_self db db' b k text p)
