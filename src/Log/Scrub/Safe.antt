-- ===== src/Log/Scrub/Safe.antt =====
-- What ScrubCode of internal/logx/logx.go lets onto a line holds nothing like a secret.
use voolo_whatsapp_bridge.Common.{
  ℕ, zero, suc, ◌≤◌, ◌≡◌, refl, sym, ap, ◌∙◌, Bool, true, false, ◌||◌, [], ◌∷◌, ◌++◌, length, take,
  drop, keep, ltb, leb, leb→le, ◌==◌, arith, by_test, Bool-cases, inl, inr, by_test_true,
  by_test_false,
}
use voolo_whatsapp_bridge.Protocol.Text.{Text, digit}
use voolo_whatsapp_bridge.Log.Scrub.{
  max_code, hex_digit, token_char, code_char, has_run, has_address_char, Token, no_token, longer,
  is_secret_token, has_secret_token, secret_like, is_space, trim_left, with_first, trim_right,
  redacted, cut, scrub_code,
}

or_false : (a b : Bool) → (a || b) ≡ false → (a ≡ false) × (b ≡ false)
or_false true b e = ground arith
or_false false b e = (refl, e)

both_false : {a b : Bool} → a ≡ false → b ≡ false → (a || b) ≡ false
both_false e f = ground (arith, e, f)

-- A run that is long enough stays one.
has_run_long : (p : ℕ → Bool) (n cur : ℕ) (s : Text) → n ≤ cur → has_run p n cur s ≡ true
unfolding has_run
has_run_long p n cur [] h = ground (arith, h)
has_run_long p n cur (c ∷ cs) h =
    by_test (λ (b : Bool). b ≡ true) (p c) (λ e. has_run_long p n (suc cur) cs (omega (arith, h)))
      (λ e. ground (arith, h))

-- The start of a text has no run that the text does not have.
has_run_prefix :
    (p : ℕ → Bool) (n cur : ℕ) (s rest : Text)
    → has_run p n cur (s ++ rest) ≡ false
    → has_run p n cur s ≡ false
unfolding has_run
has_run_prefix p n cur [] rest e = elim (Bool-cases (leb n cur)) [
  | inl f ↦ absurd (ground (arith, e, has_run_long p n cur rest (leb→le n cur f)))
  | inr f ↦ f
]
has_run_prefix p n cur (c ∷ cs) rest e = elim (Bool-cases (p c)) [
  | inl f ↦
      by_test_true (p c) _ _ f
      ∙ has_run_prefix p n (suc cur) cs rest (sym (by_test_true (p c) _ _ f) ∙ e)
  | inr f ↦
      let (g, h) = or_false _ _ (sym (by_test_false (p c) _ _ f) ∙ e) in
      by_test_false (p c) _ _ f ∙ both_false g (has_run_prefix p n 0 cs rest h)
]

has_address_char_prefix :
    (s rest : Text) → has_address_char (s ++ rest) ≡ false → has_address_char s ≡ false
unfolding has_address_char
has_address_char_prefix [] rest e = refl
has_address_char_prefix (c ∷ cs) rest e =
    let (a, f) = or_false (c == b'@') _ e in
    let (b, g) = or_false (c == b'+') _ f in
    both_false a (both_false b (has_address_char_prefix cs rest g))

longer_secret : (c : ℕ) (t : Token) → is_secret_token t ≡ true → is_secret_token (longer c t) ≡ true
longer_secret c t e = ground (arith, e)

has_secret_token_long :
    (t : Token) (s : Text) → is_secret_token t ≡ true → has_secret_token t s ≡ true
unfolding has_secret_token
has_secret_token_long t [] h = h
has_secret_token_long t (c ∷ cs) h =
    by_test (λ (b : Bool). b ≡ true) (token_char c)
      (λ e. has_secret_token_long (longer c t) cs (longer_secret c t h))
      (λ e. ap (λ b. b || has_secret_token no_token cs) h)

has_secret_token_prefix :
    (t : Token) (s rest : Text)
    → has_secret_token t (s ++ rest) ≡ false
    → has_secret_token t s ≡ false
unfolding has_secret_token
has_secret_token_prefix t [] rest e = elim (Bool-cases (is_secret_token t)) [
  | inl f ↦ absurd (ground (arith, e, has_secret_token_long t rest f))
  | inr f ↦ f
]
has_secret_token_prefix t (c ∷ cs) rest e = elim (Bool-cases (token_char c)) [
  | inl f ↦
      by_test_true (token_char c) _ _ f
      ∙ has_secret_token_prefix (longer c t) cs rest (sym (by_test_true (token_char c) _ _ f) ∙ e)
  | inr f ↦
      let (g, h) = or_false _ _ (sym (by_test_false (token_char c) _ _ f) ∙ e) in
      by_test_false (token_char c) _ _ f ∙ both_false g (has_secret_token_prefix no_token cs rest h)
]

secret_like_prefix : (s rest : Text) → secret_like (s ++ rest) ≡ false → secret_like s ≡ false
unfolding secret_like
secret_like_prefix s rest e =
    let (a, f) = or_false (has_address_char (s ++ rest)) _ e in
    let (b, g) = or_false (has_run digit 5 0 (s ++ rest)) _ f in
    let (c, h) = or_false (has_run hex_digit 16 0 (s ++ rest)) _ g in
    both_false (has_address_char_prefix s rest a) (
      both_false (has_run_prefix digit 5 0 s rest b) (
        both_false (has_run_prefix hex_digit 16 0 s rest c)
          (has_secret_token_prefix no_token s rest h)))

-- A space is in no run.
space-digit : (c : ℕ) → is_space c ≡ true → digit c ≡ false
space-digit c e = ground (arith, e)

space-hex_digit : (c : ℕ) → is_space c ≡ true → hex_digit c ≡ false
space-hex_digit c e = ground (arith, e)

space-token_char : (c : ℕ) → is_space c ≡ true → token_char c ≡ false
space-token_char c e = ground (arith, e)

has_run_tail :
    (p : ℕ → Bool) (n c : ℕ) (cs : Text)
    → p c ≡ false
    → has_run p n 0 (c ∷ cs) ≡ false
    → has_run p n 0 cs ≡ false
unfolding has_run
has_run_tail p n c cs f e = (or_false (leb n 0) _ (sym (by_test_false (p c) _ _ f) ∙ e)).1

has_secret_token_tail :
    (c : ℕ) (cs : Text)
    → token_char c ≡ false
    → has_secret_token no_token (c ∷ cs) ≡ false
    → has_secret_token no_token cs ≡ false
unfolding has_secret_token
has_secret_token_tail c cs f e =
    (or_false (is_secret_token no_token) _ (sym (by_test_false (token_char c) _ _ f) ∙ e)).1

has_address_char_tail :
    (c : ℕ) (cs : Text) → has_address_char (c ∷ cs) ≡ false → has_address_char cs ≡ false
unfolding has_address_char
has_address_char_tail c cs e = (or_false (c == b'+') _ (or_false (c == b'@') _ e).1).1

secret_like_tail :
    (c : ℕ) (cs : Text) → is_space c ≡ true → secret_like (c ∷ cs) ≡ false → secret_like cs ≡ false
unfolding secret_like
secret_like_tail c cs s e =
    let (a, f) = or_false (has_address_char (c ∷ cs)) _ e in
    let (b, g) = or_false (has_run digit 5 0 (c ∷ cs)) _ f in
    let (d, h) = or_false (has_run hex_digit 16 0 (c ∷ cs)) _ g in
    both_false (has_address_char_tail c cs a) (
      both_false (has_run_tail digit 5 c cs (space-digit c s) b) (
        both_false (has_run_tail hex_digit 16 c cs (space-hex_digit c s) d)
          (has_secret_token_tail c cs (space-token_char c s) h)))

trim_left_safe : (s : Text) → secret_like s ≡ false → secret_like (trim_left s) ≡ false
unfolding trim_left
trim_left_safe [] e = e
trim_left_safe (c ∷ cs) e =
    by_test (λ (t : Text). secret_like t ≡ false) (is_space c)
      (λ f. trim_left_safe cs (secret_like_tail c cs f e)) (λ f. e)

append_nil : (xs : Text) → xs ++ [] ≡ xs
append_nil [] = refl
append_nil (x ∷ xs) = ap (λ l. x ∷ l) (append_nil xs)

append_assoc : (xs ys zs : Text) → (xs ++ ys) ++ zs ≡ xs ++ (ys ++ zs)
append_assoc [] ys zs = refl
append_assoc (x ∷ xs) ys zs = ap (λ l. x ∷ l) (append_assoc xs ys zs)

-- What is cut off at the end.
with_first_prefix : (c : ℕ) (t : Text) → (rest : Text) × (with_first c t ++ rest ≡ c ∷ t)
with_first_prefix c [] =
    by_test (λ (u : Text). (rest : Text) × (u ++ rest ≡ c ∷ [])) (is_space c) (λ e. (c ∷ [], refl))
      (λ e. ([], refl))
with_first_prefix c (d ∷ t) = ([], ap (λ l. c ∷ d ∷ l) (append_nil t))

trim_right_prefix : (s : Text) → (rest : Text) × (trim_right s ++ rest ≡ s)
unfolding trim_right
trim_right_prefix [] = ([], refl)
trim_right_prefix (c ∷ cs) =
    let (rest, e) = trim_right_prefix cs in
    let (first, f) = with_first_prefix c (trim_right cs) in
    (
      first ++ rest,
      sym (append_assoc (with_first c (trim_right cs)) first rest)
          ∙ ap (λ l. l ++ rest) f
          ∙ ap (λ l. c ∷ l) e,
    )

trim_right_safe : (s : Text) → secret_like s ≡ false → secret_like (trim_right s) ≡ false
trim_right_safe s e =
    let (rest, f) = trim_right_prefix s in
    secret_like_prefix (trim_right s) rest (ap secret_like f ∙ e)

take-drop : (n : ℕ) (xs : Text) → take n xs ++ drop n xs ≡ xs
take-drop zero xs = refl
take-drop (suc n) [] = refl
take-drop (suc n) (x ∷ xs) = ap (λ l. x ∷ l) (take-drop n xs)

cut_safe : (s : Text) → secret_like s ≡ false → secret_like (cut s) ≡ false
cut_safe s e =
    by_test (λ (t : Text). secret_like t ≡ false) (ltb max_code (length s))
      (λ f.
        secret_like_prefix (take max_code s) (drop max_code s)
          (ap secret_like (take-drop max_code s) ∙ e))
      (λ f. e)

-- Whatever text it is given, ScrubCode answers one in which secretLike finds nothing.
pub scrub_code_safe : (s : Text) → secret_like (scrub_code s) ≡ false
unfolding scrub_code
scrub_code_safe s =
    by_test P (secret_like s) (λ e. safe_word)
      (λ e.
        by_test P (secret_like (keep code_char s)) (λ f. safe_word)
          (λ f.
            trim_right_safe (trim_left (cut (keep code_char s)))
              (trim_left_safe (cut (keep code_char s)) (cut_safe (keep code_char s) f))))
  where
    P : Text → Type 0
    P t = secret_like t ≡ false

    safe_word : secret_like redacted ≡ false
    safe_word = refl
