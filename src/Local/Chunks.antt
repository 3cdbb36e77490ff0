-- ===== src/Local/Chunks.antt =====
-- internal/storage/local/chunk.go: the reader of bodies in signed chunks, `size;chunk-signature=...`,
-- each with its content and an end of line after it. The source is the bytes that are to come, and
-- what it ends with; a read of it gives as much as is there and asked for. An io.Reader may return its
-- last bytes together with its end or the end by itself afterwards, so that `joined` tells which; it
-- comes through bufio only where a read goes past the buffer, which holds 4096 bytes.
pub mod Copying
pub mod Rounds
pub mod Decoding
pub mod Endings
pub mod CutOff
use go_s.Prelude.{
  ℕ, zero, suc, ◌+◌, ◌-◌, ◌*◌, ◌^◌, ◌≤◌, ◌<◌, Bytes, codes, Option, none, some, List, [], ◌∷◌, ◌++◌,
  Bool, true, false, ◌||◌, ◌&&◌, if◌then◌else◌, ltb, leb, ◌==◌, length, take, drop, is_empty,
  hex_value, bytes_eq, cut, skip_spaces,
}

-- io.EOF, or any other error.
pub data Stop : Type 0 where
  end_of_file broken : Stop

-- `chunk` is the count of the io.LimitReader; a count below 0 reads like 0. `joined` says that the
-- source returns its last bytes together with its end in the read that takes them, if this read goes
-- past the buffer of bufio.
pub record Reader : Type 0 where
  pub joined : Bool
  pub rest : Bytes
  pub tail : Stop
  pub chunk : Option ℕ
  pub chunk_eof : Bool
  pub eof : Bool
  pub read_err : Option Stop

abbrev pub new_reader : Bool → Bytes → Stop → Reader
new_reader joined rest tail = record {
  joined = joined;
  rest = rest;
  tail = tail;
  chunk = none;
  chunk_eof = false;
  eof = false;
  read_err = none;
}

-- One round of the loop in Read: it returns bytes, or bytes and an error, or an error, or goes round
-- again.
pub data Round : Type 0 where
  give : Bytes → Reader → Round
  give_last : Bytes → Stop → Reader → Round
  stop : Stop → Reader → Round
  again : Reader → Round

-- bytes.TrimRight(line, "\r\n") of a line without its "\n"
unfoldable pub trim_returns : Bytes → Bytes
trim_returns [] = []
trim_returns (x ∷ s) =
    let rest = trim_returns s in if x == b'\r' && is_empty rest then [] else x ∷ rest

-- bytes.SplitN(line, ";", 2)[0]
unfoldable pub before_semicolon : Bytes → Bytes
before_semicolon line = elim (cut b';' line) [ none ↦ line | some (front, _) ↦ front ]

-- The number that the leading hexadecimal digits write after one that is read already.
unfoldable pub scan_digits : Option ℕ → Bytes → Option ℕ
scan_digits n [] = n
scan_digits n (c ∷ s) = elim (hex_value c) [
  | none ↦ n
  | some d ↦ elim n [ none ↦ scan_digits (some d) s | some m ↦ scan_digits (some (m * 16 + d)) s ]
]

abbrev pub in_range : ℕ → Option ℕ → Option ℕ
in_range limit none = none
in_range limit (some n) = if ltb n limit then some n else none

-- The count for a negative size.
abbrev pub nothing : Option ℕ → Option (Option ℕ)
nothing none = none
nothing (some n) = some (if n == 0 then none else some 0)

abbrev pub count_of : Option ℕ → Option (Option ℕ)
count_of none = none
count_of (some n) = some (if n == 0 then none else some n)

-- A sign and digits.
unfoldable pub scan_signed : Bytes → Option (Option ℕ)
unfolding scan_digits
scan_signed [] = none
scan_signed (c ∷ s) =
    if c == b'-'
    then nothing (in_range (2 ^ 63 + 1) (scan_digits none s))
    else if c == b'+'
    then count_of (in_range (2 ^ 63) (scan_digits none s))
    else count_of (in_range (2 ^ 63) (scan_digits none (c ∷ s)))

-- The count that a header line announces: `none` for a line that fmt.Sscanf(sizeHex, "%x", ...)
-- refuses, `some none` for the size 0. Spaces are those of ASCII.
unfoldable pub parse_header : Bytes → Option (Option ℕ)
unfolding trim_returns before_semicolon skip_spaces scan_signed
parse_header line = scan_signed (skip_spaces (before_semicolon (trim_returns line)))

-- ReadSlice('\n') with the buffer of 4096 bytes of bufio: the line without its end and what is left,
-- or the error.
pub data Line : Type 0 where
  line : Bytes → Bytes → Line
  no_line : Stop → Line

unfoldable pub read_line : Bytes → Stop → Line
read_line rest tail = elim (cut b'\n' rest) [
  | none ↦ no_line (if leb 4096 (length rest) then broken else tail)
  | some (before, after) ↦ if leb 4096 (length before) then no_line broken else line before after
]

abbrev pub failed : Stop → Reader → Round
failed e r = stop e (record r { read_err = some e })

-- The header of the next chunk.
unfoldable pub header_round : Reader → Round
header_round r = elim (read_line r.rest r.tail) [
  | no_line e ↦ failed e r
  | line text after ↦ elim (parse_header text) [
    | none ↦ failed broken r
    | some none ↦ stop end_of_file (record r { rest = after; eof = true })
    | some (some count) ↦ again (record r { rest = after; chunk = some count })
  ]
]

-- io.ReadFull of the two bytes after a chunk fails with the error of the source if there is none, and
-- with io.ErrUnexpectedEOF if there is one.
abbrev pub short_read : Bytes → Stop → Stop
short_read rest tail = if is_empty rest then tail else broken

unfoldable pub trail_round : Reader → Round
trail_round r =
    if r.chunk_eof
    then if ltb (length r.rest) 2
      then failed (short_read r.rest r.tail) r
      else header_round (record r { rest = drop 2 r.rest; chunk_eof = false })
    else header_round r

abbrev pub least : ℕ → ℕ → ℕ
least a b = if ltb b a then b else a

abbrev pub chunk_end : Reader → Reader
chunk_end r = record r { chunk = none; chunk_eof = true }

-- Whether a read of a chunk takes the last bytes of the source and gets its end with them.
unfoldable pub gets_end : ℕ → ℕ → Reader → Bool
gets_end size left r =
    r.joined
    && (least size (least left (length r.rest)) == length r.rest && leb 4096 (least size left))

-- What Read does with bytes that have come: with io.EOF beside them it goes round again without them.
abbrev pub taken : Bool → Bytes → Reader → Round
taken false bytes r = give bytes r
taken true bytes r = elim r.tail [
  | end_of_file ↦ again (chunk_end r)
  | broken ↦ give_last bytes broken (record r { read_err = some broken })
]

-- A read of the rest of a chunk, of at most `size` bytes.
unfoldable pub chunk_round : ℕ → ℕ → Reader → Round
unfolding gets_end
chunk_round size left r =
    if left == 0
    then again (chunk_end r)
    else if is_empty r.rest
    then elim r.tail [ end_of_file ↦ again (chunk_end r) | broken ↦ failed broken r ]
    else let n = least size (least left (length r.rest)) in
      taken (gets_end size left r) (take n r.rest)
        (record r { rest = drop n r.rest; chunk = some (left - n) })

unfoldable pub round : ℕ → Reader → Round
round size r = elim r.chunk [ some left ↦ chunk_round size left r | none ↦ trail_round r ]

-- What Read does before its loop.
abbrev pub stopped_already : Reader → Option Stop
stopped_already r = elim r.read_err [
  | some e ↦ some e
  | none ↦ if r.eof then some end_of_file else none
]

-- io.Copy from the reader, which calls Read with a buffer of `size` bytes until it returns an error:
-- the loop of io.Copy and that of Read are one, since Read keeps nothing else between its rounds.
-- `none` means that the fuel ran out.
unfoldable pub copy : ℕ → ℕ → Reader → Bytes → Option (Bytes × Stop)
copy zero size r got = none
copy (suc fuel) size r got = elim (stopped_already r) [
  | some e ↦ some (got, e)
  | none ↦ elim (round size r) [
    | give bytes r' ↦ copy fuel size r' (got ++ bytes)
    | give_last bytes e r' ↦ some (got ++ bytes, e)
    | stop e r' ↦ some (got, e)
    | again r' ↦ copy fuel size r' got
  ]
]

-- IsAWSChunked
unfoldable pub is_aws_chunked : Bytes → Bool
unfolding bytes_eq
is_aws_chunked content_sha256 =
    bytes_eq content_sha256 (codes "STREAMING-AWS4-HMAC-SHA256-PAYLOAD")
    || bytes_eq content_sha256 (codes "STREAMING-AWS4-HMAC-SHA256-EVENTS")
