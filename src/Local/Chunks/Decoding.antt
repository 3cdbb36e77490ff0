-- ===== src/Local/Chunks/Decoding.antt =====
-- What the reader of signed chunks gives for a body that is encoded as the protocol says.
use mathlib.Core.List.{append_assoc, append-nil}
use go_s.Prelude.{
  Bool, ℕ, zero, suc, ◌+◌, ◌*◌, ◌≤◌, ◌<◌, Bytes, none, some, List, [], ◌∷◌, ◌++◌, ◌≡◌, refl, ap,
  ◌∙◌, true, false, length, take, drop, length-append, length-drop, arith, All,
}
use go_s.Local.Chunks.{
  Stop, end_of_file, stop, again, new_reader, header_round, trail_round, chunk_round, round, copy,
  parse_header, least,
}
use go_s.Local.Chunks.Copying.{rounds}
use go_s.Local.Chunks.Rounds.{
  IsLine, within, read_line_lem, trail_round_lem, copy_next, ended, take-drop, chunk_round_lem,
}

-- A chunk by the line in front of it, without its "\n", and its content.
pub record Chunk : Type 0 where
  pub header : Bytes
  pub content : Bytes

-- It announces the length of the content.
abbrev pub IsChunk : Chunk → Type 0
IsChunk c = IsLine c.header × (parse_header c.header ≡ some (some (length c.content)))

abbrev pub encode : List Chunk → Bytes → Bytes
encode [] last = last
encode (c ∷ cs) last = c.header ++ b'\n' ∷ (c.content ++ b'\r' ∷ b'\n' ∷ encode cs last)

abbrev pub contents : List Chunk → Bytes
contents [] = []
contents (c ∷ cs) = c.content ++ contents cs

abbrev needs : List Chunk → ℕ
needs [] = 0
needs (c ∷ cs) = 2 * length c.content + 2 + needs cs

module _ (joined : Bool) (size : ℕ) (tail : Stop) (last trailer : Bytes) where
  abbrev final : Bytes
  final = last ++ b'\n' ∷ trailer

  header_last :
      IsLine last
      → parse_header last ≡ some none
      → header_round (within joined final tail none false)
        ≡ stop end_of_file (record (within joined trailer tail none false) { eof = true })
  unfolding header_round
  header_last l z = rw (read_line_lem last trailer tail l, header_round) (rw (z, header_round) refl)

  header_next :
      (c : Chunk) (cs : List Chunk)
      → IsChunk c
      → header_round (within joined (encode (c ∷ cs) final) tail none false)
        ≡ again (
            within joined
              (c.content ++ b'\r' ∷ b'\n' ∷ encode cs final)
              tail
              (some (length c.content))
              false)
  unfolding header_round
  header_next c cs (l, z) =
      rw
        (read_line_lem c.header (c.content ++ b'\r' ∷ b'\n' ∷ encode cs final) tail l, header_round)
        (rw (z, header_round) refl)

  abbrev Copies : ℕ → Bytes → List Chunk → Bytes → Type 0
  Copies fuel rest cs got =
      copy fuel size
        (within joined (rest ++ b'\r' ∷ b'\n' ∷ encode cs final) tail (some (length rest)) false)
        got
      ≡ some ((got ++ rest) ++ contents cs, end_of_file)

  copy-inside :
      (fuel : ℕ) (rest : Bytes) (cs : List Chunk) (got : Bytes)
      → 0 < size
      → IsLine last
      → parse_header last ≡ some none
      → All IsChunk cs
      → 2 * length rest + 2 + needs cs ≤ fuel
      → Copies fuel rest cs got
  unfolding round chunk_round
  copy-inside zero rest cs got p l z a h = absurd (omega arith)
  copy-inside (suc zero) rest cs got p l z a h = absurd (omega arith)
  copy-inside (suc (suc fuel)) [] [] got p l z a h =
      ended joined (suc fuel) size _ tail got
      ∙ copy_next fuel size (within joined (b'\r' ∷ b'\n' ∷ final) tail none true) got _ refl
          (trail_round_lem joined final tail ∙ header_last l z)
      ∙ ap (λ g. some (g, end_of_file)) (simp append-nil)
  copy-inside (suc (suc fuel)) [] (c ∷ cs) got p l z a h =
      ended joined (suc fuel) size _ tail got
      ∙ copy_next fuel size (within joined (b'\r' ∷ b'\n' ∷ encode (c ∷ cs) final) tail none true)
          got _ refl (trail_round_lem joined (encode (c ∷ cs) final) tail ∙ header_next c cs a.0)
      ∙ copy-inside fuel c.content cs got p l z a.1 (omega arith)
      ∙ ap (λ g. some (g, end_of_file)) (simp (append-nil, append_assoc))
  copy-inside (suc (suc fuel)) (x ∷ rest) cs got p l z a h =
      let s = x ∷ rest in
      let n = least size (length s) in
      let k : 0 < n = ground (arith, p) in
      copy_next (suc fuel) size
        (within joined (s ++ b'\r' ∷ b'\n' ∷ encode cs final) tail (some (length s)) false) got _
        refl
        (chunk_round_lem joined size x rest (b'\r' ∷ b'\n' ∷ encode cs final) tail (omega arith))
      ∙ copy-inside (suc fuel) (drop n s) cs (got ++ take n s) p l z a
          (omega (arith, length-drop {0} n s))
      ∙ ap (λ t. some (t ++ contents cs, end_of_file))
          (append_assoc got (take n s) (drop n s) ∙ ap (λ t. got ++ t) (take-drop n s))

  needs-le : (cs : List Chunk) → needs cs ≤ 2 * length (encode cs final)
  needs-le [] = omega arith
  needs-le (c ∷ cs) = omega (
    arith,
    needs-le cs,
    length-append {0} c.header (b'\n' ∷ (c.content ++ b'\r' ∷ b'\n' ∷ encode cs final)),
    length-append {0} c.content (b'\r' ∷ b'\n' ∷ encode cs final),
  )

  -- Copying a body of chunks whose header lines announce the lengths of their contents, after them the
  -- line of a chunk of size 0 and anything, gives the contents of the chunks one after the other and
  -- no error, for every size of the buffer that is not 0
  -- and whether or not the source returns its last bytes together with its end. The lines are shorter than the reader's
  -- buffer of 4096 bytes.
  pub copy-encode :
      (fuel : ℕ) (cs : List Chunk)
      → 0 < size
      → IsLine last
      → parse_header last ≡ some none
      → All IsChunk cs
      → rounds (new_reader joined (encode cs final) tail) < fuel
      → copy fuel size (new_reader joined (encode cs final) tail) []
        ≡ some (contents cs, end_of_file)
  unfolding round trail_round
  copy-encode zero cs p l z a h = absurd (omega arith)
  copy-encode (suc fuel) [] p l z a h =
      copy_next fuel size (within joined final tail none false) [] _ refl (header_last l z)
  copy-encode (suc fuel) (c ∷ cs) p l z a h =
      copy_next fuel size (within joined (encode (c ∷ cs) final) tail none false) [] _ refl
        (header_next c cs a.0)
      ∙ copy-inside fuel c.content cs [] p l z a.1 (
          omega (
            arith,
            needs-le cs,
            length-append {0} c.header (b'\n' ∷ (c.content ++ b'\r' ∷ b'\n' ∷ encode cs final)),
            length-append {0} c.content (b'\r' ∷ b'\n' ∷ encode cs final),
          ))
