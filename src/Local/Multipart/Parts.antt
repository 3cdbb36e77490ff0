-- ===== src/Local/Multipart/Parts.antt =====
-- The loop of CompleteMultipartUpload over the parts.
use mathlib.Core.List.{append_assoc, append-nil}
use go_s.Prelude.{
  ◌+◌, Bytes, Result, ok, some, List, [], ◌∷◌, ◌++◌, ◌≡◌, sym, ap, ◌∙◌, false, bytes_eq,
  bytes_eq_refl, arith, length, length-append, hex_decode, All, ok-injective,
}
use go_s.Local.Objects.{Files}
use go_s.Local.Disk.{reading-eq-ok, Calls}
use go_s.Local.Multipart.{
  CompletePart, Combined, add_part, append_file, part_path, part_file, combine,
}

abbrev pub joined : List Bytes → Bytes
joined [] = []
joined (s ∷ ss) = s ++ joined ss

abbrev pub sums_of : List CompletePart → Bytes
sums_of [] = []
sums_of (p ∷ ps) = hex_decode p.etag ++ sums_of ps

part_file-eq-ok :
    (calls : Calls) (path : Bytes) (files : Files) (file : Bytes)
    → part_file calls path files ≡ ok file
    → files path ≡ some file
unfolding part_file
part_file-eq-ok calls path files file h = ground arith

module _ (temp_dir upload_id : Bytes) where
  -- The file of each part holds the content at its place in the list.
  abbrev pub AreParts : List CompletePart → List Bytes → Files → Type 0
  AreParts [] [] files = Unit
  AreParts [] (s ∷ ss) files = ⊥
  AreParts (p ∷ ps) [] files = ⊥
  AreParts (p ∷ ps) (s ∷ ss) files =
      (files (part_path temp_dir upload_id p.part_number) ≡ some s) × AreParts ps ss files

  abbrev pub IsApart : Bytes → List CompletePart → Type 0
  IsApart tmp ps = All (λ p. bytes_eq (part_path temp_dir upload_id p.part_number) tmp ≡ false) ps

  pub AreParts-of-others :
      (tmp : Bytes) (ps : List CompletePart) (ss : List Bytes) (files files' : Files)
      → IsApart tmp ps
      → ((name : Bytes) → bytes_eq name tmp ≡ false → files' name ≡ files name)
      → AreParts ps ss files'
      → AreParts ps ss files
  AreParts-of-others tmp [] [] files files' a o h = h
  AreParts-of-others tmp [] (s ∷ ss) files files' a o h = h
  AreParts-of-others tmp (p ∷ ps) [] files files' a o h = h
  AreParts-of-others tmp (p ∷ ps) (s ∷ ss) files files' (a, as') o (h, hs) = (
    sym (o (part_path temp_dir upload_id p.part_number) a) ∙ h,
    AreParts-of-others tmp ps ss files files' as' o hs,
  )

module _ {D : Type 0} (calls : Calls) (temp_dir tmp upload_id : Bytes) where
  -- What the loop over the parts does.
  pub record IsCombined (ps : List CompletePart) (acc : Bytes) (c c' : Combined) (s s' : D × Files)
      : Type 0 where
    pub contents : List Bytes
    pub parts : AreParts temp_dir upload_id ps contents s.1
    pub same_db : s'.0 ≡ s.0
    pub collected : s'.1 tmp ≡ some (acc ++ joined contents)
    pub others : (name : Bytes) → bytes_eq name tmp ≡ false → s'.1 name ≡ s.1 name
    pub sized : c'.size ≡ c.size + length (joined contents)
    pub summed : c'.sums ≡ c.sums ++ sums_of ps

  pub combine-IsCombined :
      (ps : List CompletePart) (acc : Bytes) (c c' : Combined) (db : D) (files : Files)
      (s' : D × Files)
      → IsApart temp_dir upload_id tmp ps
      → files tmp ≡ some acc
      → combine calls temp_dir tmp upload_id ps c (db, files) ≡ (ok c', s')
      → IsCombined ps acc c c' (db, files) s'
  unfolding combine
  combine-IsCombined [] acc c c' db files s' a t h = record {
    contents = [];
    parts = tt;
    same_db = ap (λ (r : Result Combined × (D × Files)). r.1.0) (sym h);
    collected =
        ap (λ (r : Result Combined × (D × Files)). r.1.1 tmp) (sym h) ∙ simp (t, append-nil);
    others = λ name n. ap (λ (r : Result Combined × (D × Files)). r.1.1 name) (sym h);
    sized =
        ap (λ (d : Combined). d.size)
          (ok-injective (ap (λ (r : Result Combined × (D × Files)). r.0) (sym h)))
        ∙ omega arith;
    summed =
        ap (λ (d : Combined). d.sums)
          (ok-injective (ap (λ (r : Result Combined × (D × Files)). r.0) (sym h)))
        ∙ simp append-nil;
  }
  combine-IsCombined (p ∷ ps) acc c c' db files s' (a, as') t h =
      let (file, f, h1) =
        reading-eq-ok (part_file calls (part_path temp_dir upload_id p.part_number) files)
          (db, files) _ h in
      let copied = append_file tmp file files in
      let r =
        combine-IsCombined ps (acc ++ file) (add_part p file c) c' db copied s' as'
          (simp (bytes_eq_refl, t)) h1 in
      let kept : (name : Bytes) → bytes_eq name tmp ≡ false → copied name ≡ files name =
        λ name n. simp n in
      record {
        contents = file ∷ r.contents;
        parts = (
          part_file-eq-ok calls (part_path temp_dir upload_id p.part_number) files file f,
          AreParts-of-others temp_dir upload_id tmp ps r.contents files copied as' kept r.parts,
        );
        same_db = r.same_db;
        collected = r.collected ∙ simp append_assoc;
        others = λ name n. r.others name n ∙ kept name n;
        sized = omega (arith, r.sized, length-append {0} file (joined r.contents));
        summed = r.summed ∙ simp append_assoc;
      }
