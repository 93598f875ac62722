-- ===== src/Protocol/Fields.antt =====
-- internal/protocol/commands.go: the members that the payload of each command may have, checkFields
-- and DecodeCommand. The reading of JSON is encoding/json's and comes as arguments: `members` is
-- objectFields (the members of an object, each once, or none for anything else), `is_null` says that a
-- member's value is null, `decode` fills the payload of a command. A payload is its bytes.
pub mod Decoded
use Prim.Native.String.{String}
use text.Mathlib.Text.{◌==◌ as str_eq}
use voolo_whatsapp_bridge.Common.{
  ℕ, Bool, true, false, not, ◌&&◌, ◌||◌, List, [], ◌∷◌, ◌++◌, Option, none, some, if◌then◌else◌,
}
use voolo_whatsapp_bridge.Protocol.Text.{Text}
use voolo_whatsapp_bridge.Protocol.Commands.{Command}
use voolo_whatsapp_bridge.Protocol.Validate.{Checked, accepted, refused, bad, validate}
use voolo_whatsapp_bridge.Protocol.Surrogates.{lone_surrogate}

-- fieldSpec: each name that may stand, and whether it must.
abbrev pub FieldSpec : Type 0
FieldSpec = List (String × Bool)

-- commandSpec, without the decoder.
pub record CommandSpec : Type 0 where
  pub fields : FieldSpec
  pub nested : List (String × FieldSpec)

abbrev pub limits_spec : FieldSpec
limits_spec =
    ("historyDays", true)
    ∷ ("historyMaxPerChat", true)
    ∷ ("imageMaxBytes", true)
    ∷ ("voiceMaxSeconds", true)
    ∷ ("voiceMaxBytes", false)
    ∷ ("videoMaxBytes", false)
    ∷ ("fileMaxBytes", false)
    ∷ []

-- withQuote.
abbrev pub with_quote : FieldSpec → FieldSpec
with_quote f =
    f
    ++ ("quotedMessageId", false)
      ∷ ("quotedSenderJid", false)
      ∷ ("quotedText", false)
      ∷ ("forwarded", false)
      ∷ []

abbrev pub flat : FieldSpec → CommandSpec
flat f = record { fields = f; nested = [] }

-- commandSpecs.
abbrev pub command_specs : List (String × CommandSpec)
command_specs =
    (
      "init",
      record {
        fields =
            ("storeKey", true)
            ∷ ("storeDir", true)
            ∷ ("mediaDir", true)
            ∷ ("deviceName", true)
            ∷ ("limits", true)
            ∷ [];
        nested = ("limits", limits_spec) ∷ [];
      },
    )
    ∷ ("pair_qr", flat [])
    ∷ ("pair_phone", flat (("phone", true) ∷ []))
    ∷ ("logout", flat [])
    ∷ (
      "send_text",
      flat (with_quote (("chatJid", true) ∷ ("text", true) ∷ ("outboxId", true) ∷ [])),
    )
    ∷ (
      "send_media",
      flat (
          with_quote (
            ("chatJid", true)
            ∷ ("outboxId", true)
            ∷ ("kind", true)
            ∷ ("path", true)
            ∷ ("key", true)
            ∷ ("sha256", true)
            ∷ ("mime", true)
            ∷ ("caption", false)
            ∷ ("fileName", false)
            ∷ ("durationS", false)
            ∷ ("width", false)
            ∷ ("height", false)
            ∷ ("waveform", false)
            ∷ [])),
    )
    ∷ ("mark_read", flat (("chatJid", true) ∷ ("messageIds", true) ∷ ("senderJid", false) ∷ []))
    ∷ ("fetch_media", flat (("chatJid", true) ∷ ("messageId", true) ∷ []))
    ∷ ("ack", flat (("seq", true) ∷ []))
    ∷ ("set_pin", flat (("chatJid", true) ∷ ("pinned", true) ∷ []))
    ∷ ("fetch_avatar", flat (("jid", true) ∷ ("knownId", false) ∷ []))
    ∷ ("ping", flat [])
    ∷ ("shutdown", flat [])
    ∷ []

-- A look at a map.
unfoldable pub look {ℓ} : {A : Type ℓ} → String → List (String × A) → Option A
look k [] = none
look k ((j, a) ∷ rest) = let later = look k rest in if str_eq j k then some a else later

unfoldable pub has_key {ℓ} : {A : Type ℓ} → String → List (String × A) → Bool
has_key k [] = false
has_key k ((j, a) ∷ rest) = str_eq j k || has_key k rest

-- IsCommand.
unfoldable pub is_command : String → Bool
unfolding has_key
is_command typ = has_key typ command_specs

module _ (members : Text → Option (List (String × Text))) (is_null : Text → Bool) where
  -- The first loop of checkFields: no member is unknown.
  unfoldable pub all_known : FieldSpec → List (String × Text) → Bool
  all_known spec [] = true
  all_known spec ((name, v) ∷ rest) = has_key name spec && all_known spec rest

  -- The test of one member that the spec names.
  abbrev pub member_ok : Bool → Option Text → Bool
  member_ok required none = not required
  member_ok required (some v) = not (is_null v)

  -- The second loop: what must stand does, and nothing is null.
  unfoldable pub all_there : FieldSpec → List (String × Text) → Bool
  unfolding look
  all_there [] fs = true
  all_there ((name, required) ∷ rest) fs = member_ok required (look name fs) && all_there rest fs

  abbrev pub members_ok : FieldSpec → Option (List (String × Text)) → Bool
  members_ok spec none = false
  members_ok spec (some fs) = all_known spec fs && all_there spec fs

  -- The third loop: the nested objects, checked in the same way.
  abbrev pub nested_ok : FieldSpec → Option Text → Bool
  nested_ok spec none = true
  nested_ok spec (some v) = members_ok spec (members v)

  unfoldable pub all_nested : List (String × FieldSpec) → List (String × Text) → Bool
  unfolding all_known all_there look
  all_nested [] fs = true
  all_nested ((name, spec) ∷ rest) fs = nested_ok spec (look name fs) && all_nested rest fs

  abbrev pub payload_ok : CommandSpec → Option (List (String × Text)) → Bool
  payload_ok spec none = false
  payload_ok spec (some fs) =
      all_known spec.fields fs && all_there spec.fields fs && all_nested spec.nested fs

  -- checkFields on the payload of a command.
  unfoldable pub check_fields : CommandSpec → Text → Bool
  unfolding all_known all_there all_nested
  check_fields spec raw = payload_ok spec (members raw)

  module _ (valid_utf8 : Text → Bool) (decode : String → Text → Option Command)
      (is_abs : Text → Bool) (clean : Text → Text) where
    abbrev pub validate_decoded : Option Command → Checked Command
    validate_decoded none = refused bad
    validate_decoded (some c) = validate is_abs clean c

    -- DecodeCommand behind the look for its spec.
    abbrev pub decode_with : Option CommandSpec → String → Text → Checked Command
    decode_with none typ raw = refused bad
    decode_with (some spec) typ raw =
        if not (valid_utf8 raw) || lone_surrogate raw
        then refused bad
        else (if check_fields spec raw then validate_decoded (decode typ raw) else refused bad)

    -- DecodeCommand.
    unfoldable pub decode_command : String → Text → Checked Command
    unfolding look check_fields
    decode_command typ raw = decode_with (look typ command_specs) typ raw
