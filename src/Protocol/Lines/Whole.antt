-- ===== src/Protocol/Lines/Whole.antt =====
-- That LineReader (internal/protocol/envelope.go) finds the lines however its buffer cuts the stream.
use voolo_whatsapp_bridge.Common.{
  ℕ, suc, ◌+◌, ◌≤◌, ◌≡◌, refl, sym, ap, ◌∙◌, inl, inr, true, List, [], ◌∷◌, ◌++◌, none, some,
  length, take, ltb, if◌then◌else◌, length-append, arith, Bool-cases, by_test_true, by_test_false,
}
use voolo_whatsapp_bridge.Protocol.Lines.{
  Slice, full, line_end, Got, line, take_in, but_last, without_cr, finish, next_from, next,
}

-- The slices of a line that is cut in some full buffers and a last part.
abbrev pub cut : List (List ℕ) → List ℕ → List Slice → List Slice
cut [] last rest = line_end last ∷ rest
cut (c ∷ cs) last rest = full c ∷ cut cs last rest

-- The bytes of the line, without its newline, behind some bytes.
abbrev pub whole : List ℕ → List (List ℕ) → List ℕ → List ℕ
whole buf [] last = buf ++ last
whole buf (c ∷ cs) last = whole (buf ++ c) cs last

append_assoc : (a b c : List ℕ) → (a ++ b) ++ c ≡ a ++ (b ++ c)
append_assoc [] b c = refl
append_assoc (x ∷ a) b c = ap (λ l. x ∷ l) (append_assoc a b c)

take-length : (a b : List ℕ) → take (length a) (a ++ b) ≡ a
take-length [] b = refl
take-length (x ∷ a) b = ap (λ l. x ∷ l) (take-length a b)

but_last-newline : (a : List ℕ) (c : ℕ) → but_last (a ++ c ∷ []) ≡ a
but_last-newline a c =
    ap (λ n. take n (a ++ c ∷ [])) (omega (arith, length-append {0} a (c ∷ [])))
    ∙ take-length a (c ∷ [])

length-whole :
    (buf : List ℕ) (cs : List (List ℕ)) (last : List ℕ)
    → length buf + length last ≤ length (whole buf cs last)
length-whole buf [] last = omega (arith, length-append {0} buf last)
length-whole buf (c ∷ cs) last =
    omega (arith, length-append {0} buf c, length-whole (buf ++ c) cs last)

too_long :
    (max dropped : ℕ) (cs : List (List ℕ)) (last : List ℕ) (rest : List Slice)
    → next_from max dropped none (cut cs last rest) ≡ next_from max (suc dropped) (some []) rest
unfolding next_from take_in
too_long max dropped [] last rest = refl
too_long max dropped (c ∷ cs) last rest = too_long max dropped cs last rest

-- What the reader makes of a line.
abbrev outcome : ℕ → ℕ → List ℕ → List Slice → Got × List Slice × ℕ
outcome max dropped body rest =
    if ltb max (length body + 1)
    then next_from max (suc dropped) (some []) rest
    else (line (without_cr body), rest, dropped)

sizes_agree :
    (buf last : List ℕ) → length (buf ++ last) + 1 ≡ length buf + length (last ++ b'\n' ∷ [])
sizes_agree buf last =
    omega (arith, length-append {0} last (b'\n' ∷ []), length-append {0} buf last)

longer :
    (max : ℕ) (buf c : List ℕ) (cs : List (List ℕ)) (last : List ℕ)
    → ltb max (length buf + length c) ≡ true
    → ltb max (length (whole (buf ++ c) cs last) + 1) ≡ true
longer max buf c cs last e =
    ground (arith, length-append {0} buf c, length-whole (buf ++ c) cs last)

next_from-cut :
    (max dropped : ℕ) (buf : List ℕ) (cs : List (List ℕ)) (last : List ℕ) (rest : List Slice)
    → next_from max dropped (some buf) (cut cs last rest)
      ≡ outcome max dropped (whole buf cs last) rest
unfolding next_from take_in
next_from-cut max dropped buf [] last rest =
    let chunk = last ++ b'\n' ∷ [] in
    elim (Bool-cases (ltb max (length buf + length chunk))) [
      | inl e ↦
          ap (λ o. finish o (next_from max (suc dropped) (some []) rest) rest dropped)
            (by_test_true (ltb max (length buf + length chunk)) _ (some (buf ++ chunk)) e)
          ∙ sym (
              by_test_true (ltb max (length (buf ++ last) + 1)) _
                (line (without_cr (buf ++ last)), rest, dropped)
                (ap (ltb max) (sizes_agree buf last) ∙ e))
      | inr e ↦
          ap (λ o. finish o (next_from max (suc dropped) (some []) rest) rest dropped)
            (by_test_false (ltb max (length buf + length chunk)) none (some (buf ++ chunk)) e)
          ∙ ap (λ l. (line (without_cr l), rest, dropped))
              (ap but_last (sym (append_assoc buf last (b'\n' ∷ [])))
                ∙ but_last-newline (buf ++ last) b'\n')
          ∙ sym (
              by_test_false (ltb max (length (buf ++ last) + 1))
                (next_from max (suc dropped) (some []) rest) _
                (ap (ltb max) (sizes_agree buf last) ∙ e))
    ]
next_from-cut max dropped buf (c ∷ cs) last rest =
    elim (Bool-cases (ltb max (length buf + length c))) [
      | inl e ↦
          ap (λ o. next_from max dropped o (cut cs last rest))
            (by_test_true (ltb max (length buf + length c)) none (some (buf ++ c)) e)
          ∙ too_long max dropped cs last rest
          ∙ sym (
              by_test_true (ltb max (length (whole (buf ++ c) cs last) + 1)) _ _
                (longer max buf c cs last e))
      | inr e ↦
          ap (λ o. next_from max dropped o (cut cs last rest))
            (by_test_false (ltb max (length buf + length c)) none (some (buf ++ c)) e)
          ∙ next_from-cut max dropped (buf ++ c) cs last rest
    ]

-- A line that ReadSlice hands out in any number of pieces is answered whole, without its newline and a
-- carriage return before it, if it has at most `max` bytes with its newline; a longer one is counted
-- as dropped, and the answer is that for the stream behind it.
pub next-cut :
    (max dropped : ℕ) (cs : List (List ℕ)) (last : List ℕ) (rest : List Slice)
    → next max dropped (cut cs last rest) ≡ (
        if ltb max (length (whole [] cs last) + 1)
        then next max (suc dropped) rest
        else (line (without_cr (whole [] cs last)), rest, dropped))
unfolding next
next-cut max dropped cs last rest = next_from-cut max dropped [] cs last rest
