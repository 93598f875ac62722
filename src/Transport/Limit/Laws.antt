-- ===== src/Transport/Limit/Laws.antt =====
-- What the limit of internal/transport/limit.go promises.
use mathlib.Core.List.{append_assoc, append-nil}
use voolo_whatsapp_bridge.Common.{
  ℕ, ◌+◌, ◌≤◌, ◌<◌, ◌≡◌, ◌≢◌, refl, ap, sym, subst, ◌∙◌, ◌⊎◌, inl, inr, true, List, [], ◌∷◌, ◌++◌,
  Option, none, some, length, length-append, ltb, leb, arith, Bool-cases, if◌then◌else◌,
}
use voolo_whatsapp_bridge.Transport.Limit.{
  Status, fine, eof, broken, body_too_large, Chunk, Source, refused, limited, read_limited,
  read_body, round_trip, read_all, settle,
}

settled : (c : Chunk) (r : List ℕ × Status) → c.status ≡ fine → settle c r ≡ (c.bytes ++ r.0, r.1)
unfolding settle
settled c r e = ground arith

unsettled : (c : Chunk) (r : List ℕ × Status) → c.status ≢ fine → settle c r ≡ (c.bytes, c.status)
unfolding settle
unsettled c r e = ground arith

module _ (src : Source) where
  open src use {Reader, read, rest, at_most, in_order, eof_at_end, own_errors}

  -- One Read of a limited body.
  record Reads (rc : Reader) (left : ℕ) (c : Chunk) (rc' : Reader) (left' : ℕ) : Type 0 where
    next : (c.status ≡ body_too_large) ⊎ (c.bytes ++ rest rc' ≡ rest rc)
    spent : left' + length c.bytes ≡ left
    ended : c.status ≡ eof → rest rc' ≡ []
    over : c.status ≡ body_too_large → (c.bytes ≡ []) × (left < length (rest rc))

  nothing_read :
      (n : ℕ) (rc : Reader) → length (read n rc).0.bytes ≡ 0 → rest (read n rc).1 ≡ rest rc
  nothing_read n rc e = go (read n rc).0.bytes e (in_order n rc)
    where
      go :
          (bs : List ℕ)
          → length bs ≡ 0
          → bs ++ rest (read n rc).1 ≡ rest rc
          → rest (read n rc).1 ≡ rest rc
      go [] h k = k
      go (b ∷ bs) h k = absurd (omega arith)

  longer : (n : ℕ) (rc : Reader) → 0 < length (read n rc).0.bytes → 0 < length (rest rc)
  longer n rc h =
      omega (
        arith,
        ap length (in_order n rc),
        length-append {0} (read n rc).0.bytes (rest (read n rc).1),
      )

  read_limited-Reads :
      (n : ℕ) (rc : Reader) (left : ℕ)
      → let (c, rc', left') = read_limited src n rc left in Reads rc left c rc' left'
  unfolding read_limited
  read_limited-Reads n rc left = elim (Bool-cases (leb left 0)) [
    | inl e ↦ rw e (elim (Bool-cases (ltb 0 (length (read 1 rc).0.bytes))) [
      | inl f ↦ rw f (record {
        next = inl refl;
        spent = omega arith;
        ended = λ h. cc;
        over = λ h. (refl, ground (arith, longer 1 rc));
      })
      | inr f ↦ rw f (record {
        next = inr (nothing_read 1 rc (ground arith));
        spent = omega arith;
        ended = eof_at_end 1 rc;
        over = λ h. absurd (own_errors 1 rc h);
      })
    ])
    | inr e ↦ rw e (record {
      next = inr (in_order (if ltb left n then left else n) rc);
      spent = ground (arith, at_most (if ltb left n then left else n) rc);
      ended = eof_at_end (if ltb left n then left else n) rc;
      over = λ h. absurd (own_errors (if ltb left n then left else n) rc h);
    })
  ]

  -- What a run of reads of a limited body may come to.
  abbrev Fair : Reader → ℕ → List ℕ × Status → Type 0
  Fair rc left r =
      (length r.0 ≤ left)
      × ((more : List ℕ) × (r.0 ++ more ≡ rest rc))
      × (r.1 ≡ eof → r.0 ≡ rest rc)
      × (r.1 ≡ body_too_large → left < length (rest rc))

  joined :
      (rc : Reader) (left : ℕ) (c : Chunk) (rc' : Reader) (left' : ℕ)
      → Reads rc left c rc' left'
      → c.status ≡ fine
      → (r : List ℕ × Status) → Fair rc' left' r
      → Fair rc left (c.bytes ++ r.0, r.1)
  joined rc left c rc' left' d e r (small, (more, split), whole, over) = (
    omega (arith, length-append {0} c.bytes r.0, d.spent),
    (more, append_assoc c.bytes r.0 more ∙ ap (λ l. c.bytes ++ l) split ∙ taken),
    λ h. ap (λ l. c.bytes ++ l) (whole h) ∙ taken,
    λ h. omega (arith, over h, d.spent, ap length taken, length-append {0} c.bytes (rest rc')),
  )
    where
      taken : c.bytes ++ rest rc' ≡ rest rc
      taken = elim d.next [ inl f ↦ cc | inr f ↦ f ]

  stopped :
      (rc : Reader) (left : ℕ) (c : Chunk) (rc' : Reader) (left' : ℕ)
      → Reads rc left c rc' left'
      → Fair rc left (c.bytes, c.status)
  stopped rc left c rc' left' d = (
    omega (arith, d.spent),
    elim d.next [ inl f ↦ (rest rc, rw (d.over f).0) | inr f ↦ (rest rc', f) ],
    λ h.
        sym (append-nil c.bytes)
        ∙ ap (λ l. c.bytes ++ l) (sym (d.ended h))
        ∙ elim d.next [ inl f ↦ cc | inr f ↦ f ],
    λ h. (d.over h).1,
  )

  settle-Fair :
      (s : Status) (rc : Reader) (left : ℕ) (c : Chunk) (rc' : Reader) (left' : ℕ)
      → c.status ≡ s
      → Reads rc left c rc' left'
      → (r : List ℕ × Status) → Fair rc' left' r
      → Fair rc left (settle c r)
  settle-Fair fine rc left c rc' left' e d r f =
      subst (Fair rc left) (sym (settled c r e)) (joined rc left c rc' left' d e r f)
  settle-Fair eof rc left c rc' left' e d r f =
      subst (Fair rc left) (sym (unsettled c r (λ h. cc))) (stopped rc left c rc' left' d)
  settle-Fair broken rc left c rc' left' e d r f =
      subst (Fair rc left) (sym (unsettled c r (λ h. cc))) (stopped rc left c rc' left' d)
  settle-Fair body_too_large rc left c rc' left' e d r f =
      subst (Fair rc left) (sym (unsettled c r (λ h. cc))) (stopped rc left c rc' left' d)

  read_all-Fair :
      (ns : List ℕ) (rc : Reader) (left : ℕ) → Fair rc left (read_all src ns (limited rc left))
  unfolding read_all read_body
  read_all-Fair [] rc left = (omega arith, (rest rc, refl), (λ h. cc), λ h. cc)
  read_all-Fair (n ∷ ns) rc left =
      let (c, rc', left') = read_limited src n rc left in
      settle-Fair c.status rc left c rc' left' refl (read_limited-Reads n rc left)
        (read_all src ns (limited rc' left')) (read_all-Fair ns rc' left')

  -- However a limited body is read, what comes out is the start of what the server sent and at most
  -- the limit; the reading ends with io.EOF only after all of it has come out, and with
  -- ErrBodyTooLarge only where the server sent more than the limit.
  pub read_all-limited :
      (ns : List ℕ) (rc : Reader) (left : ℕ)
      → let (out, e) = read_all src ns (limited rc left) in
        (length out ≤ left)
        × ((more : List ℕ) × (out ++ more ≡ rest rc))
        × (e ≡ eof → out ≡ rest rc)
        × (e ≡ body_too_large → left < length (rest rc))
  read_all-limited ns rc left = read_all-Fair ns rc left

  within :
      (limit : ℕ) {D : Type 0} (rc : Reader) (ns : List ℕ)
      → let (out, e) = read_all src ns (limited rc limit) in
        (limit < length (rest rc) → (e ≢ eof) × (length out ≤ limit))
        × (length (rest rc) ≤ limit → D → e ≢ body_too_large)
  within limit rc ns =
      let (small, more, whole, over) = read_all-Fair ns rc limit in
      (λ h. ((λ e. omega (arith, ap length (whole e))), small), λ h d e. omega (arith, over e))

  refused_reads :
      (ns : List ℕ) → (length (read_all src ns refused).0 ≡ 0) × ((read_all src ns refused).1 ≢ eof)
  unfolding read_all read_body settle
  refused_reads [] = (refl, λ h. cc)
  refused_reads (n ∷ ns) = (refl, λ h. cc)

  refuse :
      (limit len : ℕ) (rc : Reader) (ns : List ℕ)
      → ltb limit len ≡ true
      → let (out, e) = read_all src ns refused in
        (limit < length (rest rc) → (e ≢ eof) × (length out ≤ limit))
        × (length (rest rc) ≤ limit
            → (some len ≡ none) ⊎ (some len ≡ some (length (rest rc)))
            → e ≢ body_too_large)
  refuse limit len rc ns b =
      (λ h. ((refused_reads ns).1, omega (arith, (refused_reads ns).0)), λ h d e. ground arith)

  -- A response that is longer than the limit is never read to its end, whatever length it declares;
  -- one that is within the limit, and declares its length or none, is never refused as too large.
  pub round_trip-limited :
      (limit : ℕ) (declared : Option ℕ) (rc : Reader) (ns : List ℕ)
      → let (out, e) = read_all src ns (round_trip src (some limit) declared rc) in
        (limit < length (rest rc) → (e ≢ eof) × (length out ≤ limit))
        × (length (rest rc) ≤ limit
            → (declared ≡ none) ⊎ (declared ≡ some (length (rest rc)))
            → e ≢ body_too_large)
  unfolding round_trip
  round_trip-limited limit none rc ns = within limit rc ns
  round_trip-limited limit (some len) rc ns = elim (Bool-cases (ltb limit len)) [
    | inl e ↦ rw (e, round_trip) (refuse limit len rc ns e)
    | inr e ↦ rw (e, round_trip) (within limit rc ns)
  ]
