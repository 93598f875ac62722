-- ===== src/Protocol/Lines.antt =====
-- internal/protocol/envelope.go, LineReader: lines of at most MaxLineBytes out of a stream.
-- bufio.Reader is not modelled: the stream is the list of the slices that its ReadSlice answers with,
-- however the buffer happens to cut it. `dropped` is the counter Dropped.
pub mod Whole
use voolo_whatsapp_bridge.Common.{
  ℕ, suc, ◌+◌, ◌-◌, Bool, true, false, List, [], ◌∷◌, ◌++◌, Option, none, some, length, take, ltb,
  leb, ◌==◌, if◌then◌else◌,
}

-- MaxLineBytes.
abbrev pub max_line_bytes : ℕ
max_line_bytes = 1048576

-- An answer of ReadSlice: a full buffer, bytes and their newline, the rest before the end of input, or
-- an error.
pub data Slice : Type 0 where
  full : List ℕ → Slice
  line_end : List ℕ → Slice  -- the bytes before the newline
  input_end : List ℕ → Slice
  broken_input : Slice

-- What Next answers.
pub data Got : Type 0 where
  line : List ℕ → Got
  end_of_input : Got
  input_error : Got

-- The first part of the inner loop: `none` is tooLong, else the bytes so far.
unfoldable pub take_in : ℕ → Option (List ℕ) → List ℕ → Option (List ℕ)
take_in max none chunk = none
take_in max (some buf) chunk =
    if ltb max (length buf + length chunk) then none else some (buf ++ chunk)

unfoldable pub ends_in_cr : List ℕ → Bool
ends_in_cr [] = false
ends_in_cr (c ∷ []) = c == b'\r'
ends_in_cr (c ∷ d ∷ cs) = ends_in_cr (d ∷ cs)

abbrev pub but_last : List ℕ → List ℕ
but_last buf = take (length buf - 1) buf

abbrev pub without_cr : List ℕ → List ℕ
without_cr buf = if ends_in_cr buf then but_last buf else buf

-- Whether a partial line was being read.
abbrev pub partial : Option (List ℕ) → ℕ
partial none = 1
partial (some []) = 0
partial (some (c ∷ cs)) = 1

-- What Next makes of a line that has been read, or of one that was too long.
abbrev pub finish : Option (List ℕ) → Got × List Slice × ℕ → List Slice → ℕ → Got × List Slice × ℕ
finish none later rest dropped = later
finish (some buf) later rest dropped = (line (without_cr (but_last buf)), rest, dropped)

-- Next, in the middle of a line: its answer, what is left of the stream and the counter.
unfoldable pub next_from : ℕ → ℕ → Option (List ℕ) → List Slice → Got × List Slice × ℕ
unfolding take_in ends_in_cr
next_from max dropped st [] = (end_of_input, [], dropped + partial st)
next_from max dropped st (full c ∷ ss) = next_from max dropped (take_in max st c) ss
next_from max dropped st (line_end c ∷ ss) =
    let later = next_from max (suc dropped) (some []) ss in
    finish (take_in max st (c ++ b'\n' ∷ [])) later ss dropped
next_from max dropped st (input_end c ∷ ss) =
    (end_of_input, [], dropped + partial (take_in max st c))
next_from max dropped st (broken_input ∷ ss) = (input_error, ss, dropped)

-- Next.
unfoldable pub next : ℕ → ℕ → List Slice → Got × List Slice × ℕ
unfolding next_from
next max dropped ss = next_from max dropped (some []) ss
