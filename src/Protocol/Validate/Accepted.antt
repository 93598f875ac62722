-- ===== src/Protocol/Validate/Accepted.antt =====
-- What holds of the commands that validate (internal/protocol/commands.go) accepts.
use voolo_whatsapp_bridge.Common.{
  ℕ, ◌+◌, ◌*◌, ◌-◌, ◌/◌, ◌%◌, ◌≤◌, ◌<◌, ◌≡◌, refl, ap, ◌∙◌, Bool, true, false, ◌&&◌, List, [], ◌∷◌,
  ◌++◌, Option, none, some, length, ltb, leb, ◌==◌, if◌then◌else◌, arith, All, by_test_true,
}
use voolo_whatsapp_bridge.Protocol.Text.{Text, all_of, lower_hex, is_hex64}
use voolo_whatsapp_bridge.Protocol.Commands.{
  JsonInt, nonneg, negative, Init, init, video_bytes, file_bytes, voice_bytes, or_default,
  max_video_bytes, max_file_bytes, max_voice_bytes, max_image_bytes, default_video_max_bytes,
  default_file_max_bytes, Command,
}
use voolo_whatsapp_bridge.Protocol.Validate.{
  Checked, accepted, refused, bad, and_then, in_range, in_range_if, hex_value, hex_pairs,
  waveform_bytes, is_slash, more_dots, has_parent, valid_limits, clean_abs, validate_init, validate,
  init_with, valid_device_name,
}

-- The hexadecimal digit of a value below 16, and the text of some bytes.
abbrev pub hex_digit : ℕ → ℕ
hex_digit v = if ltb v 10 then v + b'0' else v - 10 + b'a'

abbrev pub hex_text : List ℕ → Text
hex_text [] = []
hex_text (b ∷ bs) = hex_digit (b / 16) ∷ hex_digit (b % 16) ∷ hex_text bs

value-digit : (v : ℕ) → v < 16 → hex_value (hex_digit v) ≡ v
value-digit v h = ground arith

digit-lower_hex : (v : ℕ) → v < 16 → lower_hex (hex_digit v) ≡ true
digit-lower_hex v h = ground arith

pairs-hex_text : (bs : List ℕ) → All (λ b. b ≤ 100) bs → hex_pairs (hex_text bs) ≡ bs
unfolding hex_pairs
pairs-hex_text [] h = refl
pairs-hex_text (b ∷ bs) h =
    rw
      (
        value-digit (b / 16) (omega (arith, h.0)),
        value-digit (b % 16) (omega (arith, h.0)),
        pairs-hex_text bs h.1,
      )
      (ap (λ v. v ∷ bs) (omega arith))

length-hex_text : (bs : List ℕ) → length (hex_text bs) ≡ 2 * length bs
length-hex_text [] = omega arith
length-hex_text (b ∷ bs) = omega (arith, length-hex_text bs)

hex_text-lower_hex : (bs : List ℕ) → All (λ b. b ≤ 100) bs → all_of lower_hex (hex_text bs) ≡ true
unfolding all_of
hex_text-lower_hex [] h = refl
hex_text-lower_hex (b ∷ bs) h =
    rw
      (
        digit-lower_hex (b / 16) (omega (arith, h.0)),
        digit-lower_hex (b % 16) (omega (arith, h.0)),
        hex_text-lower_hex bs h.1,
      )
      refl

bars-all_of : (bs : List ℕ) → All (λ b. b ≤ 100) bs → all_of (λ v. leb v 100) bs ≡ true
unfolding all_of
bars-all_of [] h = refl
bars-all_of (b ∷ bs) h = ground (arith, h.0, bars-all_of bs h.1)

-- Any 64 bars of at most 100 are read back from their hexadecimal text.
pub waveform_bytes-hex_text :
    (bs : List ℕ) → length bs ≡ 64 → All (λ b. b ≤ 100) bs → waveform_bytes (hex_text bs) ≡ some bs
unfolding waveform_bytes
waveform_bytes-hex_text bs n h =
    by_test_true ((length (hex_text bs) == 128) && all_of lower_hex (hex_text bs)) _ _
      (ground (arith, length-hex_text bs, n, hex_text-lower_hex bs h))
    ∙ by_test_true (all_of (λ v. leb v 100) (hex_pairs (hex_text bs))) _ _
        (ap (all_of (λ v. leb v 100)) (pairs-hex_text bs h) ∙ bars-all_of bs h)
    ∙ ap some (pairs-hex_text bs h)

-- A slash in front of a piece that is "..": the path has such a piece.
after_slash :
    (pre s : Text) (dots c : ℕ)
    → is_slash c ≡ true
    → has_parent 0 s ≡ true
    → has_parent dots (pre ++ c ∷ s) ≡ true
unfolding has_parent
after_slash [] s dots c k h = ground (arith, h, k)
after_slash (p ∷ pre) s dots c k h =
    ground (arith, after_slash pre s 0 c k h, after_slash pre s (more_dots dots p) c k h)

-- The end of a piece: of the path, or before a slash.
abbrev pub PieceEnds : Text → Type 0
PieceEnds [] = Unit {0}
PieceEnds (c ∷ cs) = is_slash c ≡ true

dots_found : (post : Text) → PieceEnds post → has_parent 0 (b'.' ∷ b'.' ∷ post) ≡ true
unfolding has_parent
dots_found [] e = refl
dots_found (c ∷ cs) e = ground (arith, e)

and_then-accepted {ℓ κ} :
    {A : Type ℓ} {B : Type κ} (x : Checked A) (f : A → Checked B) (b : B)
    → and_then x f ≡ accepted b
    → (a : A) × (x ≡ accepted a) × (f a ≡ accepted b)
unfolding and_then
and_then-accepted (accepted a) f b e = (a, refl, e)
and_then-accepted (refused r) f b e = cc

-- A number between two bounds.
abbrev pub IsIn : ℕ → ℕ → JsonInt → Type 0
IsIn lo hi n = (k : ℕ) × (n ≡ nonneg k) × (lo ≤ k) × (k ≤ hi)

in_range-IsIn : (lo hi : ℕ) (n : JsonInt) → in_range lo hi n ≡ true → IsIn lo hi n
in_range-IsIn lo hi (nonneg k) e = (k, refl, ground arith, ground arith)
in_range-IsIn lo hi negative e = cc

or_default-IsIn :
    (d hi : ℕ) (n : Option JsonInt)
    → 1 ≤ d
    → d ≤ hi
    → in_range_if hi n ≡ true
    → IsIn 1 hi (or_default d n)
or_default-IsIn d hi none a b e = (d, refl, a, b)
or_default-IsIn d hi (some n) a b e = in_range-IsIn 1 hi n e

init_with-limits :
    (k : Bool) (store_dir media_dir : Checked Text) (n l : Bool) (c c' : Init)
    → init_with k store_dir media_dir n l c ≡ accepted c'
    → l ≡ true
init_with-limits true (accepted s) (accepted m) true true c c' e = refl
init_with-limits true (accepted s) (accepted m) true false c c' e = cc
init_with-limits true (accepted s) (accepted m) false l c c' e = cc
init_with-limits true (accepted s) (refused r) n l c c' e = cc
init_with-limits true (refused r) m n l c c' e = cc
init_with-limits false s m n l c c' e = cc

module _ (is_abs : Text → Bool) (clean : Text → Text) where
  refused_path : (p : Text) → has_parent 0 p ≡ true → clean_abs is_abs clean p ≡ refused bad
  unfolding clean_abs
  refused_path p h = ground (arith, h)

  -- A path in which ".." stands between slashes or backslashes or at an end is refused, whatever else
  -- is in it.
  pub clean_abs-parent :
      (pre post : Text) (c : ℕ)
      → is_slash c ≡ true
      → PieceEnds post
      → (clean_abs is_abs clean (b'.' ∷ b'.' ∷ post) ≡ refused bad)
        × (clean_abs is_abs clean (pre ++ c ∷ b'.' ∷ b'.' ∷ post) ≡ refused bad)
  clean_abs-parent pre post c k e = (
    refused_path (b'.' ∷ b'.' ∷ post) (dots_found post e),
    refused_path (pre ++ c ∷ b'.' ∷ b'.' ∷ post)
        (after_slash pre (b'.' ∷ b'.' ∷ post) 0 c k (dots_found post e)),
  )

  -- Once an init is accepted, the size limits in effect, the defaults included, are positive and
  -- within the ceilings compiled in.
  pub validate-init-IsIn :
      (c : Init) (d : Command)
      → validate is_abs clean (init c) ≡ accepted d
      → IsIn 1 max_image_bytes c.limits.image_max_bytes
        × IsIn 1 max_video_bytes (video_bytes c.limits)
        × IsIn 1 max_file_bytes (file_bytes c.limits)
        × IsIn 1 max_voice_bytes (voice_bytes c.limits)
  unfolding validate validate_init valid_limits
  validate-init-IsIn c d e =
      let (c', g, _) = and_then-accepted _ _ _ e in
      let v =
        init_with-limits (is_hex64 c.store_key) (clean_abs is_abs clean c.store_dir)
          (clean_abs is_abs clean c.media_dir) (valid_device_name c.device_name)
          (valid_limits c.limits) c c' g in
      (
        in_range-IsIn 1 max_image_bytes c.limits.image_max_bytes (ground arith),
        or_default-IsIn default_video_max_bytes max_video_bytes c.limits.video_max_bytes
            (omega arith) (omega arith) (ground arith),
        or_default-IsIn default_file_max_bytes max_file_bytes c.limits.file_max_bytes (omega arith)
            (omega arith) (ground arith),
        or_default-IsIn max_voice_bytes max_voice_bytes c.limits.voice_max_bytes (omega arith)
            (omega arith) (ground arith),
      )
