-- ===== src/Examples/Chunks.antt =====
-- The theorems on the reader of signed chunks, at bodies of one short chunk.
use go_s.Prelude.{true, Bytes, codes, some, none, [], ◌∷◌, ◌++◌, ◌≡◌, refl, arith, cut, skip_spaces}
use go_s.Local.Chunks.{
  Stop, end_of_file, broken, new_reader, copy, parse_header, trim_returns, before_semicolon,
  scan_digits, scan_signed,
}
use go_s.Local.Chunks.Copying.{copy_total}
use go_s.Local.Chunks.Rounds.{IsLine}
use go_s.Local.Chunks.Decoding.{Chunk, IsChunk, encode, contents, copy-encode}

-- The line of a chunk of `digit` bytes, and that of the last chunk.
abbrev line_of : Bytes → Bytes
line_of digit = digit ++ codes ";s=0\r"

abbrev three : Chunk
three = record { header = line_of (codes "3"); content = codes "abc" }

three-IsLine : IsLine three.header
three-IsLine = (ground arith, omega arith)

last-IsLine : IsLine (line_of (codes "0"))
last-IsLine = (ground arith, omega arith)

three-IsChunk : IsChunk three
unfolding parse_header trim_returns before_semicolon scan_signed scan_digits cut skip_spaces
three-IsChunk = (three-IsLine, refl)

last_lem : parse_header (line_of (codes "0")) ≡ some none
unfolding parse_header trim_returns before_semicolon scan_signed scan_digits cut skip_spaces
last_lem = refl

copy_total_example :
    (end : Bytes × Stop) × (copy 80 5 (new_reader true (encode (three ∷ []) (codes "0")) broken) []
      ≡ some end)
copy_total_example =
    copy_total 80 5 (new_reader true (encode (three ∷ []) (codes "0")) broken) [] (omega arith)
      (omega arith)

copy-encode_example :
    copy 80 2
      (new_reader true
        (encode (three ∷ []) (line_of (codes "0") ++ b'\n' ∷ codes "\r\n"))
        end_of_file)
      []
    ≡ some (contents (three ∷ []), end_of_file)
copy-encode_example =
    copy-encode true 2 end_of_file (line_of (codes "0")) (codes "\r\n") 80 (three ∷ [])
      (omega arith) last-IsLine last_lem (three-IsChunk, tt) (omega arith)
