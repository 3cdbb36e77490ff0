-- ===== src/Local/Contents/Ranges.antt =====
-- GetObject of the backend with a range.
use go_s.Prelude.{
  length-drop, ℕ, zero, suc, ◌-◌, ◌<◌, ◌≤◌, Bytes, Result, ok, err, Option, none, some, List, [],
  ◌∷◌, ◌≡◌, refl, sym, ap, ◌∙◌, arith, length, take, drop, ℤ, pos, negsuc, int64, pred, inl, inr,
  Option-cases, ok-injective, if◌then◌else◌, int_le, ltb, true,
}
use go_s.Bolt.{Bolt, Codec}
use go_s.Storage.{ObjectMeta}
use go_s.Metadata.Objects
use go_s.Local.Paths.{safe_path}
use go_s.Local.Objects.{Files, found_or}
use go_s.Local.Disk.{Calls}
use go_s.Local.Contents.{
  GetOptions, Object, version_suffix, clip, slice, serve, object_of, open_path, get_object,
}

abbrev pub at_most : ℕ → ℕ → ℕ
at_most a b = if ltb b a then b else a

length-take {ℓ} : {A : Type ℓ} (n : ℕ) (xs : List A) → n ≤ length xs → length (take n xs) ≡ n
length-take zero xs h = refl
length-take (suc n) [] h = omega arith
length-take (suc n) (x ∷ xs) h = omega (arith, length-take n xs (omega arith))

-- The bounds that `clip` lets through.
record IsWithin (size : ℕ) (start : ℤ) (first last : ℤ) : Type 0 where
  low : first ≡ start
  high : int_le last (pred (pos size)) ≡ true
  ordered : int_le first last ≡ true

clip-IsWithin :
    (start : ℤ) (range_end : Option ℤ) (size : ℕ) (first last : ℤ)
    → clip start range_end (pos size) ≡ ok (first, last)
    → IsWithin size start first last
unfolding clip
clip-IsWithin (pos s) none zero first last h = ground arith
clip-IsWithin (pos s) none (suc n) first last h = ground arith
clip-IsWithin (negsuc s) none zero first last h = ground arith
clip-IsWithin (negsuc s) none (suc n) first last h = ground arith
clip-IsWithin (pos s) (some (pos e)) zero first last h = ground arith
clip-IsWithin (pos s) (some (pos e)) (suc n) first last h = ground arith
clip-IsWithin (negsuc s) (some (pos e)) zero first last h = ground arith
clip-IsWithin (negsuc s) (some (pos e)) (suc n) first last h = ground arith
clip-IsWithin (pos s) (some (negsuc e)) zero first last h = ground arith
clip-IsWithin (pos s) (some (negsuc e)) (suc n) first last h = ground arith
clip-IsWithin (negsuc s) (some (negsuc e)) zero first last h = ground arith
clip-IsWithin (negsuc s) (some (negsuc e)) (suc n) first last h = ground arith

-- What a range of an object of `size` bytes gives out of the file.
pub record IsSlice (size : ℕ) (start : ℤ) (file : Bytes) (obj : Object) : Type 0 where
  pub first : ℕ
  pub last : ℕ
  pub is_first : obj.range_start ≡ pos first
  pub is_last : obj.range_end ≡ pos last
  pub asked : start ≡ pos first
  pub ordered : first ≤ last
  pub bounded : last < size
  pub is_content : obj.content ≡ take (suc last - first) (drop first file)
  pub is_length : length file ≡ size → length obj.content ≡ suc last - first

lt-of-high : (l size : ℕ) → int_le (pos l) (pred (pos size)) ≡ true → l < size
lt-of-high l zero h = cc
lt-of-high l (suc n) h = ground arith

length-part :
    (f l size : ℕ) (file : Bytes)
    → f ≤ l
    → l < size
    → length file ≡ size
    → length (take (suc l - f) (drop f file)) ≡ suc l - f
length-part f l size file o b e =
    length-take (suc l - f) (drop f file) (omega (arith, length-drop f file, o, b, e))

slice-IsSlice :
    (calls : Calls) (size : ℕ) (meta : ObjectMeta) (start first last : ℤ) (file : Bytes)
    (obj : Object)
    → IsWithin size start first last
    → object_of meta first last (slice calls file first last) ≡ ok obj
    → IsSlice size start file obj
unfolding slice
slice-IsSlice calls size meta start (negsuc f) last file obj w h = cc
slice-IsSlice calls size meta start (pos f) (negsuc l) file obj w h =
    absurd (ground (arith, w.ordered))
slice-IsSlice calls size meta start (pos f) (pos l) file obj w h = elim (Option-cases calls.seek) [
  | inr (e, p) ↦ absurd (ground (arith, p))
  | inl p ↦
      let e = ok-injective (rw (p, slice) at h) in
      let ordered : f ≤ l = ground (arith, w.ordered) in
      let bounded = lt-of-high l size w.high in
      let content : obj.content ≡ take (suc l - f) (drop f file) =
        ap (λ (o : Object). o.content) (sym e) in
      record {
        first = f;
        last = l;
        is_first = ap (λ (o : Object). o.range_start) (sym e);
        is_last = ap (λ (o : Object). o.range_end) (sym e);
        asked = sym w.low;
        ordered = ordered;
        bounded = bounded;
        is_content = content;
        is_length =
            λ n. ap (λ (c : Bytes). length c) content ∙ length-part f l size file ordered bounded n;
      }
]

serve-IsSlice :
    (calls : Calls) (opts : GetOptions) (meta : ObjectMeta) (file : Bytes) (obj : Object)
    (start : ℤ) (size : ℕ)
    → opts.range_start ≡ some start
    → int64 meta.size ≡ pos size
    → serve calls opts meta file ≡ ok obj
    → IsSlice size start file obj
unfolding serve
serve-IsSlice calls opts meta file obj start size r n h =
    by (clip start opts.range_end (int64 meta.size)) refl (rw (r, serve) at h)
  where
    by :
        (c : Result (ℤ × ℤ))
        → clip start opts.range_end (int64 meta.size) ≡ c
        → (elim c [
          | err e ↦ err e
          | ok (first, last) ↦ object_of meta first last (slice calls file first last)
        ])
          ≡ ok obj
        → IsSlice size start file obj
    by (err e) p q = cc
    by (ok (first, last)) p q =
        slice-IsSlice calls size meta start first last file obj
          (clip-IsWithin start opts.range_end size first last
            (ap (λ z. clip start opts.range_end z) (sym n) ∙ p))
          q

pub open_path-eq-ok :
    (calls : Calls) (path : Bytes) (files : Files) (file : Bytes)
    → open_path calls path files ≡ ok file
    → files path ≡ some file
unfolding open_path
open_path-eq-ok calls path files file h = ground arith

found_or-eq-ok : (r : Result ObjectMeta) (m : ObjectMeta) → found_or r ≡ ok m → r ≡ ok m
found_or-eq-ok (ok a) m h = h
found_or-eq-ok (err e) m h = cc

-- What a GetObject that returns no error has read.
pub record IsRead (B : Bolt) (C : Codec ObjectMeta) (calls : Calls) (data_dir bucket key : Bytes)
    (opts : GetOptions) (db : B.Db) (files : Files) (obj : Object) : Type 0 where
  pub meta : ObjectMeta
  pub path : Bytes
  pub file : Bytes
  pub is_meta : Objects.get_object B C bucket key opts.version_id db ≡ ok meta
  pub is_path : safe_path data_dir bucket key (version_suffix meta.version_id) ≡ ok path
  pub is_file : files path ≡ some file
  pub served : serve calls opts meta file ≡ ok obj

module _ (B : Bolt) (C : Codec ObjectMeta) (calls : Calls) (data_dir bucket key : Bytes)
    (opts : GetOptions) (db : B.Db) (files : Files) (obj : Object) where
  IsRead-file :
      (meta : ObjectMeta) (path : Bytes)
      → Objects.get_object B C bucket key opts.version_id db ≡ ok meta
      → safe_path data_dir bucket key (version_suffix meta.version_id) ≡ ok path
      → (r : Result Bytes) → open_path calls path files ≡ r
      → (elim r [ err e ↦ err e | ok file ↦ serve calls opts meta file ]) ≡ ok obj
      → IsRead B C calls data_dir bucket key opts db files obj
  IsRead-file meta path m s (err e) o h = cc
  IsRead-file meta path m s (ok file) o h = record {
    meta = meta;
    path = path;
    file = file;
    is_meta = m;
    is_path = s;
    is_file = open_path-eq-ok calls path files file o;
    served = h;
  }

  IsRead-path :
      (meta : ObjectMeta)
      → Objects.get_object B C bucket key opts.version_id db ≡ ok meta
      → (r : Result Bytes) → safe_path data_dir bucket key (version_suffix meta.version_id) ≡ r
      → (elim r [
        | err e ↦ err e
        | ok path ↦ elim (open_path calls path files) [
          | err e ↦ err e
          | ok file ↦ serve calls opts meta file
        ]
      ])
        ≡ ok obj
      → IsRead B C calls data_dir bucket key opts db files obj
  IsRead-path meta m (err e) s h = cc
  IsRead-path meta m (ok path) s h = IsRead-file meta path m s (open_path calls path files) refl h

  pub get_object-IsRead :
      get_object B C calls data_dir bucket key opts (db, files) ≡ ok obj
      → IsRead B C calls data_dir bucket key opts db files obj
  unfolding get_object
  get_object-IsRead h = by (found_or (Objects.get_object B C bucket key opts.version_id db)) refl h
    where
      by :
          (r : Result ObjectMeta)
          → found_or (Objects.get_object B C bucket key opts.version_id db) ≡ r
          → (elim r [
            | err e ↦ err e
            | ok meta ↦ elim (safe_path data_dir bucket key (version_suffix meta.version_id)) [
              | err e ↦ err e
              | ok path ↦ elim (open_path calls path files) [
                | err e ↦ err e
                | ok file ↦ serve calls opts meta file
              ]
            ]
          ])
            ≡ ok obj
          → IsRead B C calls data_dir bucket key opts db files obj
      by (err e) p q = cc
      by (ok meta) p q =
          IsRead-path meta
            (found_or-eq-ok (Objects.get_object B C bucket key opts.version_id db) meta p)
            (safe_path data_dir bucket key (version_suffix meta.version_id)) refl q

  -- A GetObject of the backend with the start of a range that returns no error gives out a part of
  -- the file of the version that the metadata store finds: the range it reports is not empty, starts
  -- where it was asked to and ends before the size of the object, so that a negative start is an
  -- error, and the content is the part of the file from the first to the last byte of that range. It
  -- is as long as the range, if the file has the size that the metadata says. The size in the
  -- metadata is not negative.
  pub get_object-IsSlice :
      (start : ℤ)
      → opts.range_start ≡ some start
      → get_object B C calls data_dir bucket key opts (db, files) ≡ ok obj
      → (r : IsRead B C calls data_dir bucket key opts db files obj) × ((size : ℕ)
          → int64 r.meta.size ≡ pos size
          → IsSlice size start r.file obj)
  get_object-IsSlice start r h =
      let found = get_object-IsRead h in
      (
        found,
        λ size n. serve-IsSlice calls opts found.meta found.file obj start size r n found.served,
      )
