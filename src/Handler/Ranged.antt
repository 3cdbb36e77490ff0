-- ===== src/Handler/Ranged.antt =====
-- A GET with a range: what its status, Content-Length and Content-Range say of its content.

use go_s.Prelude.{
  ℕ, suc, ◌-◌, ◌≤◌, ◌<◌, Bytes, codes, Result, ok, err, Option, none, some, [], ◌∷◌, ◌++◌, ◌≡◌,
  refl, sym, ap, ◌∙◌, true, false, leb, length, ℤ, pos, int64, pred, decimal, arith, ok-injective,
}
use go_s.Bolt.{Bolt, Codec}
use go_s.Storage.{BucketInfo, ObjectMeta}
use go_s.Auth.{User, Policy}
use go_s.Local.Paths.{safe_path}
use go_s.Local.Objects.{Files}
use go_s.Local.Disk.{Calls}
use go_s.Local.Contents.{
  GetOptions, Object, version_suffix, clip, slice, serve, object_of, get_object,
}
use go_s.Local.Contents.Ranges.{get_object-IsSlice}
use go_s.Handler.Requests.{HttpRequest, Response, Dates, parse_range, get_options, range_length}
use go_s.Handler.Writes.{version_header, allowed}
use go_s.Handler.Reads.{
  Website, failed_condition, object_headers, whole_or_part, answer_object, answer_get,
  get_object_handler,
}

object_of-meta :
    (meta : ObjectMeta) (first last : ℤ) (content : Result Bytes) (obj : Object)
    → object_of meta first last content ≡ ok obj
    → obj.meta ≡ meta
object_of-meta meta first last (err e) obj h = cc
object_of-meta meta first last (ok content) obj h =
    ap (λ (o : Object). o.meta) (sym (ok-injective h))

serve-meta :
    (calls : Calls) (opts : GetOptions) (meta : ObjectMeta) (file : Bytes) (obj : Object)
    → serve calls opts meta file ≡ ok obj
    → obj.meta ≡ meta
unfolding serve
serve-meta calls opts meta file obj h = by opts.range_start h
  where
    bounded :
        (c : Result (ℤ × ℤ))
        → (elim c [
          | err e ↦ err e
          | ok (first, last) ↦ object_of meta first last (slice calls file first last)
        ])
          ≡ ok obj
        → obj.meta ≡ meta
    bounded (err e) q = cc
    bounded (ok (first, last)) q = object_of-meta meta first last _ obj q

    by :
        (o : Option ℤ)
        → (elim o [
          | none ↦ object_of meta (pos 0) (pred (int64 meta.size)) (ok file)
          | some start ↦ elim (clip start opts.range_end (int64 meta.size)) [
            | err e ↦ err e
            | ok (first, last) ↦ object_of meta first last (slice calls file first last)
          ]
        ])
          ≡ ok obj
        → obj.meta ≡ meta
    by none q = object_of-meta meta _ _ (ok file) obj q
    by (some start) q = bounded (clip start opts.range_end (int64 meta.size)) q

range_length-of :
    (first last : ℕ) → first ≤ last → range_length (pos first) (pos last) ≡ pos (suc last - first)
range_length-of first last h = let b : leb first (suc last) ≡ true = ground (arith, h) in rw b refl

module _ (D : Dates) (obj : Object) (first last size : ℕ) where
  -- The response with the bytes from `first` to `last` of an object of `size` bytes.
  abbrev pub part_response : Response
  part_response = record {
    status = 206;
    headers =
        (version_header obj.meta.version_id ++ object_headers D obj.meta [])
        ++ (codes "Content-Length", decimal 19 (length obj.content))
          ∷ (
            codes "Content-Range",
            codes "bytes "
                ++ (decimal 19 first ++ b'-' ∷ (decimal 19 last ++ b'/' ∷ decimal 19 size)),
          )
          ∷ [];
    content = obj.content;
  }

  answer_object_part :
      (g : HttpRequest) (opts : GetOptions) (start : ℤ)
      → opts.range_start ≡ some start
      → obj.range_start ≡ pos first
      → obj.range_end ≡ pos last
      → int64 obj.meta.size ≡ pos size
      → first ≤ last
      → length obj.content ≡ suc last - first
      → obj.meta.is_delete_marker ≡ false
      → failed_condition D g obj.meta ≡ none
      → answer_object D g opts obj ≡ part_response
  unfolding answer_object whole_or_part
  answer_object_part g opts start o f l n b c m d =
      let r : range_length obj.range_start obj.range_end ≡ pos (length obj.content) =
        rw (f, l) (range_length-of first last b ∙ ap (λ k. pos k) (sym c)) in
      rw (m, answer_object)
        (rw (d, answer_object)
          (rw (o, answer_object) (rw (r, answer_object) (rw (f, l, n, answer_object) refl))))

module _ (B : Bolt) (CB : Codec BucketInfo) (C : Codec ObjectMeta) (CP : Codec Policy)
    (CW : Codec Website) (D : Dates) (calls : Calls) (data_dir : Bytes) (reader : User)
    (bucket key : Bytes) (g : HttpRequest) (db : B.Db) (files : Files) (obj : Object) where
  -- The range that a GET was answered with.
  pub record IsRanged (start : ℤ) (size : ℕ) : Type 0 where
    pub first : ℕ
    pub last : ℕ
    pub asked : start ≡ pos first
    pub ordered : first ≤ last
    pub bounded : last < size
    pub answered :
        get_object_handler B CB C CP CW D calls data_dir reader bucket key g (db, files)
        ≡ ok (part_response D obj first last size)

  handler_found :
      (resp : Response)
      → allowed B CB C CP reader (codes "s3:GetObject") bucket key db ≡ ok tt
      → get_object B C calls data_dir bucket key (get_options g) (db, files) ≡ ok obj
      → answer_object D g (get_options g) obj ≡ resp
      → get_object_handler B CB C CP CW D calls data_dir reader bucket key g (db, files) ≡ ok resp
  unfolding get_object_handler answer_get
  handler_found resp a f h = rw (a, get_object_handler) (rw (f, answer_get) (ap (λ x. ok x) h))

  -- A GET that the policies allow, with the start of a range, for which the backend gives an object out
  -- and of which no condition fails, is answered with status 206. Its Content-Range names a range of
  -- the object that is not empty, starts where it was asked to and ends before the size, and its
  -- Content-Length is the length of the content that is sent. The file has the size that the metadata
  -- says.
  pub get_object_handler-IsRanged :
      (start : ℤ) (range_end : Option ℤ) (size : ℕ)
      → allowed B CB C CP reader (codes "s3:GetObject") bucket key db ≡ ok tt
      → parse_range (g.header (codes "Range")) ≡ (some start, range_end)
      → get_object B C calls data_dir bucket key (get_options g) (db, files) ≡ ok obj
      → obj.meta.is_delete_marker ≡ false
      → failed_condition D g obj.meta ≡ none
      → int64 obj.meta.size ≡ pos size
      → ((path file : Bytes)
          → safe_path data_dir bucket key (version_suffix obj.meta.version_id) ≡ ok path
          → files path ≡ some file
          → length file ≡ size)
      → IsRanged start size
  unfolding get_options
  get_object_handler-IsRanged start range_end size a rng f m c n sized =
      let asked : (get_options g).range_start ≡ some start =
        ap (λ (p : Option ℤ × Option ℤ). p.0) rng in
      let (r, slices) =
        get_object-IsSlice B C calls data_dir bucket key (get_options g) db files obj start asked
          f in
      let same : obj.meta ≡ r.meta = serve-meta calls (get_options g) r.meta r.file obj r.served in
      let s = slices size (ap (λ (m : ObjectMeta). int64 m.size) (sym same) ∙ n) in
      let len = s.is_length (
        sized r.path r.file
          (ap (λ (m : ObjectMeta). safe_path data_dir bucket key (version_suffix m.version_id)) same
            ∙ r.is_path)
          r.is_file) in
      record {
        first = s.first;
        last = s.last;
        asked = s.asked;
        ordered = s.ordered;
        bounded = s.bounded;
        answered = handler_found (part_response D obj s.first s.last size) a f (
            answer_object_part D obj s.first s.last size g (get_options g) start asked s.is_first
              s.is_last n s.ordered len m c);
      }
