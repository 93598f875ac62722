-- ===== src/Examples/ProtocolRuns.antt =====
-- Runs of internal/protocol: a waveform, a path, an init, an id, escapes and a payload.
use Prim.Native.String.{String}
use voolo_whatsapp_bridge.Common.{
  length, ltb, if◌then◌else◌, ◌+◌, ℕ, zero, suc, ◌≤◌, ◌≡◌, refl, Bool, true, false, List, [], ◌∷◌,
  Option, none, some, arith, All,
}
use voolo_whatsapp_bridge.Protocol.Text.{Text, all_of, byte_len, is_ulid}
use voolo_whatsapp_bridge.Protocol.Commands.{nonneg, Init, init, Command, no_payload}
use voolo_whatsapp_bridge.Protocol.Validate.{
  accepted, has_parent, valid_limits, clean_abs, validate_init, validate,
}
use voolo_whatsapp_bridge.Protocol.Ulid.{new_id}
use voolo_whatsapp_bridge.Protocol.Ulid.Made.{IsByte, is_ulid-new_id}
use voolo_whatsapp_bridge.Protocol.Surrogates.{lone_surrogate, scan}
use voolo_whatsapp_bridge.Protocol.Surrogates.Pairs.{
  Piece, plain, unit, print, unpaired, lone_surrogate-print,
}
use voolo_whatsapp_bridge.Protocol.Lines.{line, without_cr, next}
use voolo_whatsapp_bridge.Protocol.Lines.Whole.{cut, whole, next-cut}
use voolo_whatsapp_bridge.Protocol.Fields.{
  CommandSpec, command_specs, look, check_fields, decode_command,
}
use voolo_whatsapp_bridge.Protocol.Fields.Decoded.{Strict, decode_command-Strict}

abbrev bars : ℕ → List ℕ
bars zero = []
bars (suc n) = n ∷ bars n

bars_small : (n : ℕ) → n ≤ 101 → All (λ b. b ≤ 100) (bars n)
bars_small zero h = tt
bars_small (suc n) h = (omega arith, bars_small n (omega arith))

-- Every path is absolute, and clean already.
abbrev absolute : Text → Bool
absolute p = true

abbrev as_is : Text → Text
as_is p = p

-- A key of 64 zeros.
abbrev zeros : ℕ → Text
zeros zero = []
zeros (suc n) = b'0' ∷ zeros n

abbrev an_init : Init
an_init = record {
  store_key = zeros 64;
  store_dir = b'/' ∷ b's' ∷ [];
  media_dir = b'/' ∷ b'm' ∷ [];
  device_name = b'V' ∷ [];
  limits = record {
    history_days = nonneg 30;
    history_max_per_chat = nonneg 100;
    image_max_bytes = nonneg 1000;
    voice_max_seconds = nonneg 60;
    voice_max_bytes = none;
    video_max_bytes = some (nonneg 5000);
    file_max_bytes = none;
  };
}

init_accepted : validate absolute as_is (init an_init) ≡ accepted (init an_init)
unfolding validate validate_init clean_abs valid_limits has_parent all_of byte_len
init_accepted = refl

abbrev some_bytes : List ℕ
some_bytes = 0 ∷ 255 ∷ 17 ∷ 34 ∷ 51 ∷ 68 ∷ 85 ∷ 102 ∷ 119 ∷ 136 ∷ []

some_bytes_small : All IsByte some_bytes
some_bytes_small = (
  omega arith,
  (
    omega arith,
    (
      omega arith,
      (
        omega arith,
        (
          omega arith,
          (omega arith, (omega arith, (omega arith, (omega arith, (omega arith, tt))))),
        ),
      ),
    ),
  ),
)

is_ulid-new_id_example : is_ulid (new_id 1700000000000 some_bytes) ≡ true
is_ulid-new_id_example = is_ulid-new_id 1700000000000 some_bytes refl some_bytes_small

-- \ud83d\ude00x\ud83d
abbrev pieces : List Piece
pieces =
    unit b'd' b'8' b'3' b'd' 0xd83d refl
    ∷ unit b'd' b'e' b'0' b'0' 0xde00 refl
    ∷ plain b'x' (λ e. omega arith)
    ∷ unit b'd' b'8' b'3' b'd' 0xd83d refl
    ∷ []

surrogate_example : lone_surrogate (print pieces) ≡ unpaired false pieces
surrogate_example = lone_surrogate-print pieces

-- A decoder of the one payload {}.
abbrev no_members : Text → Option (List (String × Text))
no_members raw = some []

abbrev never : Text → Bool
never v = false

abbrev always : Text → Bool
always v = true

abbrev to_empty : String → Text → Option Command
to_empty typ raw = some no_payload

ping_accepted :
    decode_command no_members never always to_empty absolute as_is "ping" (b'{' ∷ b'}' ∷ [])
    ≡ accepted no_payload
unfolding decode_command check_fields look lone_surrogate scan validate
ping_accepted = refl

decode_example :
    (spec : CommandSpec) × (look "ping" command_specs ≡ some spec)
    × Strict no_members never spec (b'{' ∷ b'}' ∷ [])
decode_example =
    decode_command-Strict no_members never always to_empty absolute as_is "ping" (b'{' ∷ b'}' ∷ [])
      no_payload ping_accepted

-- "abc\r\n" in two slices, where a line may have 6 bytes.
next_example : next 6 0 (cut ((b'a' ∷ b'b' ∷ []) ∷ []) (b'c' ∷ b'\r' ∷ []) []) ≡ (
    if ltb 6 (length (whole [] ((b'a' ∷ b'b' ∷ []) ∷ []) (b'c' ∷ b'\r' ∷ [])) + 1)
    then next 6 1 []
    else (line (without_cr (whole [] ((b'a' ∷ b'b' ∷ []) ∷ []) (b'c' ∷ b'\r' ∷ []))), [], 0))
next_example = next-cut 6 0 ((b'a' ∷ b'b' ∷ []) ∷ []) (b'c' ∷ b'\r' ∷ []) []
