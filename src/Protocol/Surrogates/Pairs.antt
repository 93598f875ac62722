-- ===== src/Protocol/Surrogates/Pairs.antt =====
-- What loneSurrogate (internal/protocol/commands.go) finds in the raw text of a JSON value.
use voolo_whatsapp_bridge.Common.{
  ℕ, ◌≡◌, ◌≢◌, refl, sym, ap, ◌∙◌, inl, inr, Bool, true, false, ◌&&◌, List, [], ◌∷◌, Option, none,
  some, drop, ◌==◌, if◌then◌else◌, arith, Bool-cases, by_test_true, by_test_false,
}
use voolo_whatsapp_bridge.Protocol.Surrogates.{
  number4, hex4, is_high, is_low, bare, over, unit_move, escape_move, scan, lone_surrogate,
}

-- The pieces of raw JSON: a byte that is no backslash, an escape of two bytes, and an escape of a
-- UTF-16 unit with its four digits.
pub data Piece : Type 0 where
  plain : (c : ℕ) → c ≢ b'\\' → Piece
  escape : (c : ℕ) → c ≢ b'u' → Piece
  unit : (a b c d r : ℕ) → number4 a b c d ≡ some r → Piece

abbrev pub print : List Piece → List ℕ
print [] = []
print (plain c _ ∷ ps) = c ∷ print ps
print (escape c _ ∷ ps) = b'\\' ∷ c ∷ print ps
print (unit a b c d _ _ ∷ ps) = b'\\' ∷ b'u' ∷ a ∷ b ∷ c ∷ d ∷ print ps

-- Whether a surrogate stands alone; `high` that the unit just read was a high one.
abbrev pub unpaired : Bool → List Piece → Bool
unpaired high [] = high
unpaired true (unit _ _ _ _ r _ ∷ ps) =
    let rest = unpaired false ps in if is_low r then rest else true
unpaired true (_ ∷ ps) = true
unpaired false (unit _ _ _ _ r _ ∷ ps) =
    let low_next = unpaired true ps in
    let rest = unpaired false ps in
    if is_high r then low_next else (if is_low r then true else rest)
unpaired false (_ ∷ ps) = unpaired false ps

abbrev first_unit : List Piece → Option ℕ
first_unit (unit _ _ _ _ r _ ∷ ps) = some r
first_unit _ = none

hex4-none : (x y : ℕ) (l : List ℕ) → ((x == b'\\') && (y == b'u')) ≡ false → hex4 (x ∷ y ∷ l) ≡ none
unfolding hex4
hex4-none x y [] e = refl
hex4-none x y (a ∷ []) e = refl
hex4-none x y (a ∷ b ∷ []) e = refl
hex4-none x y (a ∷ b ∷ c ∷ []) e = refl
hex4-none x y (a ∷ b ∷ c ∷ d ∷ l) e = by_test_false _ _ _ e

hex4_plain : (x : ℕ) (l : List ℕ) → x ≢ b'\\' → hex4 (x ∷ l) ≡ none
unfolding hex4
hex4_plain x [] n = refl
hex4_plain x (y ∷ l) n = hex4-none x y l (ground (arith, n))

hex4_unit :
    (a b c d r : ℕ) (l : List ℕ)
    → number4 a b c d ≡ some r
    → hex4 (b'\\' ∷ b'u' ∷ a ∷ b ∷ c ∷ d ∷ l) ≡ some r
unfolding hex4
hex4_unit a b c d r l e = e

hex4-print : (ps : List Piece) → hex4 (print ps) ≡ first_unit ps
unfolding hex4
hex4-print [] = refl
hex4-print (plain c n ∷ ps) = hex4_plain c (print ps) n
hex4-print (escape c n ∷ ps) = hex4-none b'\\' c (print ps) (ground (arith, n))
hex4-print (unit a b c d r e ∷ ps) = e

scan_over :
    (n : ℕ) (cs : List ℕ)
    → escape_move (hex4 (b'\\' ∷ cs)) (hex4 (drop 6 (b'\\' ∷ cs))) ≡ over n
    → scan 0 (b'\\' ∷ cs) ≡ scan n cs
unfolding scan
scan_over n cs e = rw e refl

scan_bare :
    (cs : List ℕ)
    → escape_move (hex4 (b'\\' ∷ cs)) (hex4 (drop 6 (b'\\' ∷ cs))) ≡ bare
    → scan 0 (b'\\' ∷ cs) ≡ true
unfolding scan
scan_bare cs e = rw e refl

-- What the escape of a unit makes of the pieces behind it.
escape_move-unit :
    (a b c d r : ℕ) (e : number4 a b c d ≡ some r) (ps : List Piece)
    → escape_move (hex4 (print (unit a b c d r e ∷ ps))) (hex4 (print ps))
      ≡ unit_move r (first_unit ps)
escape_move-unit a b c d r e ps = rw (hex4_unit a b c d r (print ps) e, hex4-print ps) refl

module _ (a b c d r : ℕ) (e : number4 a b c d ≡ some r) (ps : List Piece) where
  unit_bare : unit_move r (first_unit ps) ≡ bare → scan 0 (print (unit a b c d r e ∷ ps)) ≡ true
  unit_bare m = scan_bare (b'u' ∷ a ∷ b ∷ c ∷ d ∷ print ps) (escape_move-unit a b c d r e ps ∙ m)

  unit_over :
      (n : ℕ)
      → unit_move r (first_unit ps) ≡ over n
      → scan 0 (print (unit a b c d r e ∷ ps)) ≡ scan n (b'u' ∷ a ∷ b ∷ c ∷ d ∷ print ps)
  unit_over n m =
      scan_over n (b'u' ∷ a ∷ b ∷ c ∷ d ∷ print ps) (escape_move-unit a b c d r e ps ∙ m)

  -- A unit that is no high surrogate, given what is found behind it.
  after_unit :
      scan 0 (print ps) ≡ unpaired false ps
      → (is_high r ≡ true → scan 0 (print (unit a b c d r e ∷ ps)) ≡ unpaired true ps)
      → scan 0 (print (unit a b c d r e ∷ ps)) ≡ unpaired false (unit a b c d r e ∷ ps)
  unfolding scan
  after_unit behind paired = elim (Bool-cases (is_high r)) [
    | inl h ↦ paired h ∙ sym (by_test_true (is_high r) _ _ h)
    | inr h ↦ elim (Bool-cases (is_low r)) [
      | inl l ↦
          unit_bare (by_test_false (is_high r) _ _ h ∙ by_test_true (is_low r) _ _ l)
          ∙ sym (by_test_false (is_high r) _ _ h ∙ by_test_true (is_low r) _ _ l)
      | inr l ↦
          unit_over 5 (by_test_false (is_high r) _ _ h ∙ by_test_false (is_low r) _ _ l)
          ∙ behind
          ∙ sym (by_test_false (is_high r) _ _ h ∙ by_test_false (is_low r) _ _ l)
    ]
  ]

  -- A high surrogate that no unit follows.
  high_alone :
      first_unit ps ≡ none → is_high r ≡ true → scan 0 (print (unit a b c d r e ∷ ps)) ≡ true
  high_alone n h = unit_bare (by_test_true (is_high r) _ _ h ∙ rw n refl)

-- A high surrogate in front of another unit.
high_first :
    (a b c d r : ℕ) (e : number4 a b c d ≡ some r) (a' b' c' d' r' : ℕ)
    (e' : number4 a' b' c' d' ≡ some r') (ps : List Piece)
    → scan 0 (print ps) ≡ unpaired false ps
    → is_high r ≡ true
    → scan 0 (print (unit a b c d r e ∷ unit a' b' c' d' r' e' ∷ ps))
      ≡ unpaired true (unit a' b' c' d' r' e' ∷ ps)
unfolding scan
high_first a b c d r e a' b' c' d' r' e' ps behind h = elim (Bool-cases (is_low r')) [
  | inl l ↦
      unit_over a b c d r e (unit a' b' c' d' r' e' ∷ ps) 11
        (by_test_true (is_high r) _ _ h ∙ by_test_true (is_low r') _ _ l)
      ∙ behind
      ∙ sym (by_test_true (is_low r') _ _ l)
  | inr l ↦
      unit_bare a b c d r e (unit a' b' c' d' r' e' ∷ ps)
        (by_test_true (is_high r) _ _ h ∙ by_test_false (is_low r') _ _ l)
      ∙ sym (by_test_false (is_low r') _ _ l)
]

scan-print : (ps : List Piece) → scan 0 (print ps) ≡ unpaired false ps
unfolding scan
scan-print [] = refl
scan-print (plain c n ∷ ps) = by_test_false (c == b'\\') _ _ (ground (arith, n)) ∙ scan-print ps
scan-print (escape c n ∷ ps) =
    scan_over 1 (c ∷ print ps) (
      ap (λ u. escape_move u (hex4 (drop 6 (b'\\' ∷ c ∷ print ps))))
        (hex4-none b'\\' c (print ps) (ground (arith, n))))
    ∙ scan-print ps
scan-print (unit a b c d r e ∷ []) = after_unit a b c d r e [] refl (high_alone a b c d r e [] refl)
scan-print (unit a b c d r e ∷ plain x n ∷ ps) =
    after_unit a b c d r e (plain x n ∷ ps) (scan-print (plain x n ∷ ps))
      (high_alone a b c d r e (plain x n ∷ ps) refl)
scan-print (unit a b c d r e ∷ escape x n ∷ ps) =
    after_unit a b c d r e (escape x n ∷ ps) (scan-print (escape x n ∷ ps))
      (high_alone a b c d r e (escape x n ∷ ps) refl)
scan-print (unit a b c d r e ∷ unit a' b' c' d' r' e' ∷ ps) =
    after_unit a b c d r e (unit a' b' c' d' r' e' ∷ ps) (scan-print (unit a' b' c' d' r' e' ∷ ps))
      (high_first a b c d r e a' b' c' d' r' e' ps (scan-print ps))

-- Of any raw JSON, read in its pieces, loneSurrogate says true exactly if among the escaped units a
-- high surrogate has no low one right behind it, or a low one no high one right before it.
pub lone_surrogate-print : (ps : List Piece) → lone_surrogate (print ps) ≡ unpaired false ps
unfolding lone_surrogate
lone_surrogate-print ps = scan-print ps
