-- ===== src/Handler/Requests/Bodies.antt =====
-- The bodies that the handler of PutObject passes on, which it decodes where they are in signed chunks.
use go_s.Prelude.{
  Bool, ℕ, ◌+◌, ◌*◌, ◌<◌, Bytes, codes, none, some, List, [], ◌∷◌, ◌++◌, ◌≡◌, ap, ◌∙◌, true, length,
  All, arith,
}
use go_s.Local.Chunks.{Stop, new_reader, copy, parse_header, is_aws_chunked}
use go_s.Local.Chunks.Copying.{copy_total}
use go_s.Local.Chunks.Rounds.{IsLine}
use go_s.Local.Chunks.Decoding.{Chunk, IsChunk, encode, contents, copy-encode}
use go_s.Handler.Requests.{HttpRequest, decoded, body_of}

-- The fuel that body_of gives is enough for every source.
pub copy_total_source :
    (joined : Bool) (size : ℕ) (source : Bytes) (tail : Stop)
    → 0 < size
    → (end : Bytes × Stop) × (copy (2 * length source + 2) size (new_reader joined source tail) []
        ≡ some end)
copy_total_source joined size source tail p =
    copy_total (2 * length source + 2) size (new_reader joined source tail) [] p (omega arith)

-- A request that says that its body is in signed chunks, and whose body is chunks as the protocol says,
-- passes on the contents of the chunks, one after the other, and no error.
pub body_of-encode :
    (r : HttpRequest) (cs : List Chunk) (last trailer : Bytes)
    → is_aws_chunked (r.header (codes "x-amz-content-sha256")) ≡ true
    → r.source ≡ encode cs (last ++ b'\n' ∷ trailer)
    → IsLine last
    → parse_header last ≡ some none
    → All IsChunk cs
    → body_of r ≡ (record { content = contents cs; failure = none })
unfolding body_of
body_of-encode r cs last trailer chunked e l z a =
    let source = encode cs (last ++ b'\n' ∷ trailer) in
    rw (chunked, body_of)
      (ap
          (λ (s : Bytes).
            decoded (copy (2 * length s + 2) 32768 (new_reader r.source_joined s r.source_end) []))
          e
        ∙ ap decoded (
            copy-encode r.source_joined 32768 r.source_end last trailer (2 * length source + 2) cs
              (omega arith) l z a (omega arith)))
