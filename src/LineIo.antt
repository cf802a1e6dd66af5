-- ===== src/LineIo.antt =====
-- clientapi/v1/lineio.go: one line of bounded length from a buffered reader.
pub mod Laws
use client_api.Prelude.{
  Bytes, ℕ, ◌+◌, Bool, true, false, ◌&&◌, List, [], ◌∷◌, ◌++◌, length, ℤ, pos, ltb_ℤ, ltb, leb, not,
  if◌then◌else◌, nat_eq, ◌==◌,
}
use client_api.Errors.{Error, limit_not_positive, line_too_large, read_failed}

-- What one call of bufio's ReadSlice('\n') returns beside its bytes: no error (they end in the
-- delimiter), ErrBufferFull, io.EOF, or another error.
pub data Status : Type 0 where
  delimited buffer_full eof failed : Status

pub record Slice : Type 0 where
  pub part : Bytes
  pub status : Status

-- The calls still to come. Behind the last one the reader goes on with io.EOF and no bytes.
abbrev pub Reader : Type 0
Reader = List Slice

-- readBoundedLine's two results: bytes without an error, bytes beside io.EOF or beside the reader's
-- error, or an error of its own without bytes.
pub data Line : Type 0 where
  line at_eof at_failure : Bytes → Line
  refused : Error → Line

abbrev exceeds : ℤ → Bytes → Bytes → Bool
exceeds max_bytes out part =
    not (length part == 0) && ltb_ℤ max_bytes (pos (length out + length part))

-- The loop, with what has been read so far; the reader that is left comes second.
unfoldable pub read_slices : ℤ → Bytes → Reader → Line × Reader
read_slices max_bytes out [] = (at_eof out, [])
read_slices max_bytes out (s ∷ rest) =
    let more = read_slices max_bytes (out ++ s.part) rest in
    if exceeds max_bytes out s.part then (refused line_too_large, rest) else elim s.status [
      | delimited ↦ (line (out ++ s.part), rest)
      | buffer_full ↦ more
      | eof ↦ (at_eof (out ++ s.part), rest)
      | failed ↦ (at_failure (out ++ s.part), rest)
    ]

-- readBoundedLine
unfoldable pub read_bounded_line : Reader → ℤ → Line × Reader
unfolding read_slices
read_bounded_line reader max_bytes =
    if ltb_ℤ (pos 0) max_bytes
    then read_slices max_bytes [] reader
    else (refused limit_not_positive, reader)

-- isEOFWithNoData
unfoldable pub is_eof_with_no_data : Line → Bool
is_eof_with_no_data (at_eof out) = length out == 0
is_eof_with_no_data (line out) = false
is_eof_with_no_data (at_failure out) = false
is_eof_with_no_data (refused e) = false
