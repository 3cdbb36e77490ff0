-- ===== src/Metadata/Rows.antt =====
-- What the methods of the store share: a row read and decoded, encoded and written, and all rows.
pub mod Laws
use go_s.Prelude.{
  Bytes, Result, ok, err, Error, Option, none, some, List, [], ◌∷◌, ◌>>=◌, Bool, true, false,
}
use go_s.Bolt.{Bolt, Codec, Entries, decode}
use go_s.Bolt.Handles.{b_get, b_put, b_entries}

module _ {A : Type 0} (C : Codec A) where
  -- `if data == nil { return missing }; return json.Unmarshal(data, &a)`
  abbrev pub decode_or : Error → Option Bytes → Result A
  decode_or missing none = err missing
  decode_or missing (some text) = decode C text

  -- A b.ForEach whose body returns the error of json.Unmarshal.
  unfoldable pub decode_all : Entries → Result (List A)
  decode_all [] = ok []
  decode_all ((k, v) ∷ es) = do a ← decode C v; rest ← decode_all es; ok (a ∷ rest)

module _ (B : Bolt) {A : Type 0} (C : Codec A) where
  unfoldable pub read_row : Error → B.Db → Bytes → Bytes → Result A
  read_row missing db b k = do text ← b_get B db b k; decode_or C missing text

  unfoldable pub write_row : B.Db → Bytes → Bytes → A → Result B.Db
  write_row db b k a = do text ← C.marshal a; b_put B db b k text

  unfoldable pub read_rows : B.Db → Bytes → Result (List A)
  unfolding decode_all
  read_rows db b = do es ← b_entries B db b; decode_all C es
