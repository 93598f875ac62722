-- ===== src/Transport/Limit.antt =====
-- internal/transport/limit.go: the limit on a response body.
-- The body that the server sends is read through io.ReadCloser, whose documented behaviour is the
-- record Source. A limit is positive wherever the bridge sets one.
pub mod Laws
use voolo_whatsapp_bridge.Common.{
  ℕ, ◌+◌, ◌-◌, ◌≤◌, ◌≡◌, Bool, true, false, List, [], ◌∷◌, ◌++◌, Option, none, some, length, ltb,
  leb, if◌then◌else◌,
}

-- The error that a Read answers with.
pub data Status : Type 0 where
  fine eof broken body_too_large : Status

-- What a Read answers: the bytes put into the buffer, and the error.
pub record Chunk : Type 0 where
  pub bytes : List ℕ
  pub status : Status

-- io.Reader: Read answers at most as many bytes as it is asked for, they are the next ones of the
-- stream, and io.EOF comes at its end only; it has errors of its own, not this package's.
pub record Source : Type 1 where
  pub Reader : Type 0
  pub read : ℕ → Reader → Chunk × Reader
  pub rest : Reader → List ℕ
  pub at_most : (n : ℕ) (r : Reader) → length (read n r).0.bytes ≤ n
  pub in_order : (n : ℕ) (r : Reader) → (read n r).0.bytes ++ rest (read n r).1 ≡ rest r
  pub eof_at_end : (n : ℕ) (r : Reader) → (read n r).0.status ≡ eof → rest (read n r).1 ≡ []
  pub own_errors : (n : ℕ) (r : Reader) → (read n r).0.status ≡ body_too_large → ⊥

-- What a caller has after a Read and, if that had no error, the Reads that follow it.
unfoldable pub settle : Chunk → List ℕ × Status → List ℕ × Status
settle c more = elim c.status [ fine ↦ (c.bytes ++ more.0, more.1) | e ↦ (c.bytes, e) ]

module _ (src : Source) where
  open src use {Reader, read}

  -- resp.Body as RoundTrip leaves it: as it came, refused unread, or limited.
  pub data Body : Type 0 where
    plain : Reader → Body
    refused : Body
    limited : Reader → ℕ → Body

  -- Read of limitedBody.
  unfoldable pub read_limited : ℕ → Reader → ℕ → Chunk × Reader × ℕ
  read_limited n rc left =
      if leb left 0
      then (let (c, rc') = read 1 rc in
          if ltb 0 (length c.bytes)
          then (record { bytes = []; status = body_too_large }, rc', left)
          else (record { bytes = []; status = c.status }, rc', left))
      else (let (c, rc') = read (if ltb left n then left else n) rc in
          (c, rc', left - length c.bytes))

  -- Read of a response's body.
  unfoldable pub read_body : ℕ → Body → Chunk × Body
  read_body n (plain rc) = ((read n rc).0, plain (read n rc).1)
  read_body n refused = (record { bytes = []; status = body_too_large }, refused)
  read_body n (limited rc left) =
      let (c, rc', left') = read_limited n rc left in (c, limited rc' left')

  -- RoundTrip after the base transport answered: the context's limit, the declared length if there
  -- is one (ContentLength is -1 if not), and the body.
  unfoldable pub round_trip : Option ℕ → Option ℕ → Reader → Body
  round_trip none declared rc = plain rc
  round_trip (some n) none rc = limited rc n
  round_trip (some n) (some len) rc = if ltb n len then refused else limited rc n

  -- Reads with buffers of some sizes, up to the first that answers an error: the bytes read, and
  -- the error.
  unfoldable pub read_all : List ℕ → Body → List ℕ × Status
  unfolding settle
  read_all [] b = ([], fine)
  read_all (n ∷ ns) b = settle (read_body n b).0 (read_all ns (read_body n b).1)
