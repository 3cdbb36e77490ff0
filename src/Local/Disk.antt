-- ===== src/Local/Disk.antt =====
-- The operating system as internal/storage/local/local.go uses it: methods that change the database and
-- the files and can fail half-way, the outcome of each system call as a parameter, and the files as a
-- function from paths to contents.
use go_s.Prelude.{
  ℕ, Bytes, Result, ok, err, Error, Option, none, some, ◌≡◌, refl, ap, bytes_eq, ◌⊎◌, inl, inr, sym,
  has_prefix, codes, ◌++◌, ◌||◌, if◌then◌else◌,
}
use go_s.Local.Objects.{Files}

-- A method that returns an error leaves the state as its steps so far have changed it.
abbrev pub Method : Type 0 → Type 0 → Type 0
Method S A = S → Result A × S

module _ {S : Type 0} where
  abbrev pub continue : {A B : Type 0} → Result A × S → (A → Method S B) → Result B × S
  continue (err e, s) f = (err e, s)
  continue (ok a, s) f = f a s

  infixl 5 ◌>>=◌
  abbrev pub ◌>>=◌ : {A B : Type 0} → Method S A → (A → Method S B) → Method S B
  ◌>>=◌ m f s = continue (m s) f

  abbrev pub return : {A : Type 0} → A → Method S A
  return a s = (ok a, s)

  -- A step that reads the state and can fail.
  abbrev pub reading : {A : Type 0} → (S → Result A) → Method S A
  reading f s = (f s, s)

  abbrev pub changed : S → Result S → Result (Unit {0}) × S
  changed s (err e) = (err e, s)
  changed s (ok s') = (ok tt, s')

  -- A step that can fail, and changes the state where it does not.
  abbrev pub changing : (S → Result S) → Method S (Unit {0})
  changing f s = changed s (f s)

  -- `defer`, or a clean-up after an error.
  abbrev pub finally : {A : Type 0} → (S → S) → Method S A → Method S A
  finally cleanup m s = let r = m s in (r.0, cleanup r.1)

  abbrev pub cleaned : {A : Type 0} → (S → S) → Result A × S → Result A × S
  cleaned cleanup (err e, s) = (err e, cleanup s)
  cleaned cleanup (ok a, s) = (ok a, s)

  abbrev pub or_clean : {A : Type 0} → (S → S) → Method S A → Method S A
  or_clean cleanup m s = cleaned cleanup (m s)

  -- The steps of a method that returns no error.
  pub continue-eq-ok :
      {A B : Type 0} (r : Result A × S) (f : A → Method S B) {b : B} {s' : S}
      → continue r f ≡ (ok b, s')
      → (a : A) × (mid : S) × (r ≡ (ok a, mid)) × (f a mid ≡ (ok b, s'))
  continue-eq-ok (err e, s) f h = cc
  continue-eq-ok (ok a, s) f h = (a, s, refl, h)

  pub reading-eq-ok :
      {A B : Type 0} (r : Result A) (s : S) (f : A → Method S B) {b : B} {s' : S}
      → continue (r, s) f ≡ (ok b, s')
      → (a : A) × (r ≡ ok a) × (f a s ≡ (ok b, s'))
  reading-eq-ok (err e) s f h = cc
  reading-eq-ok (ok a) s f h = (a, refl, h)

  pub changing-eq-ok :
      {B : Type 0} (r : Result S) (s : S) (f : Unit {0} → Method S B) {b : B} {s' : S}
      → continue (changed s r) f ≡ (ok b, s')
      → (mid : S) × (r ≡ ok mid) × (f tt mid ≡ (ok b, s'))
  changing-eq-ok (err e) s f h = cc
  changing-eq-ok (ok mid) s f h = (mid, refl, h)

  pub or_clean-eq-ok :
      {B : Type 0} (r : Result S) (s : S) (cleanup : S → S) (f : Unit {0} → Method S B) {b : B}
      {s' : S}
      → continue (cleaned cleanup (changed s r)) f ≡ (ok b, s')
      → (mid : S) × (r ≡ ok mid) × (f tt mid ≡ (ok b, s'))
  or_clean-eq-ok (err e) s cleanup f h = cc
  or_clean-eq-ok (ok mid) s cleanup f h = (mid, refl, h)

  -- The steps of a method that returns an error: the first step that fails.
  pub reading-eq-err :
      {A B : Type 0} (r : Result A) (s : S) (f : A → Method S B) {e : Error} {s' : S}
      → continue (r, s) f ≡ (err e, s')
      → (s' ≡ s) ⊎ ((a : A) × (r ≡ ok a) × (f a s ≡ (err e, s')))
  reading-eq-err {B = B} (err e) s f h = inl (ap (λ (r : Result B × S). r.1) (sym h))
  reading-eq-err (ok a) s f h = inr (a, refl, h)

  pub or_clean-eq-err :
      {B : Type 0} (r : Result S) (s : S) (cleanup : S → S) (b : B) {e : Error} {s' : S}
      → continue (cleaned cleanup (changed s r)) (λ _. return b) ≡ (err e, s')
      → (r ≡ err e) × (s' ≡ cleanup s)
  or_clean-eq-err {B} (err e) s cleanup b h = (cc, ap (λ (r : Result B × S). r.1) (sym h))
  or_clean-eq-err (ok mid) s cleanup b h = cc

  pub finally-eq :
      {A : Type 0} (cleanup : S → S) (m : Method S A) (s : S) {a : Result A} {s' : S}
      → finally cleanup m s ≡ (a, s')
      → (mid : S) × (m s ≡ (a, mid)) × (cleanup mid ≡ s')
  finally-eq {A} cleanup m s h =
      ((m s).1, ap (λ (r : Result A × S). (r.0, (m s).1)) h, ap (λ (r : Result A × S). r.1) h)

abbrev pub unless : Option Error → Result (Unit {0})
unless none = ok tt
unless (some e) = err e

-- `if err != nil { return other }`
abbrev pub unless_as : Error → Option Error → Result (Unit {0})
unless_as other none = ok tt
unless_as other (some e) = err other

-- The errors of the system calls of one method; `none` is success.
pub record Calls : Type 0 where
  -- checkDiskSpace
  pub space : ℕ → Option Error
  pub create : Option Error
  pub mkdir : Option Error
  pub rename : Option Error
  pub remove_all : Option Error
  -- file.Seek, to an offset that is not negative
  pub seek : Option Error
  -- By path, for a file that is there.
  pub open_file : Bytes → Option Error
  pub read_file : Bytes → Option Error

-- What an io.Reader gives before it ends, and the error it ends with, or that writing it gives.
pub record Body : Type 0 where
  pub content : Bytes
  pub failure : Option Error

abbrev pub write_file : Bytes → Bytes → Files → Files
write_file path content files name = if bytes_eq name path then some content else files name

-- os.Rename of a file onto a path.
abbrev pub rename_file : Bytes → Bytes → Files → Files
rename_file old new files name =
    if bytes_eq name new then files old else if bytes_eq name old then none else files name

-- os.RemoveAll
abbrev pub remove_tree : Bytes → Files → Files
remove_tree dir files name =
    if bytes_eq name dir || has_prefix name (dir ++ codes "/") then none else files name
