-- ===== src/Protocol/Fields/Decoded.antt =====
-- What holds of the payloads that DecodeCommand (internal/protocol/commands.go) accepts.
use Prim.Native.String.{String}
use voolo_whatsapp_bridge.Common.{
  ◌≡◌, ◌≢◌, refl, sym, ◌∙◌, inl, inr, Bool, true, false, not, ◌||◌, List, [], ◌∷◌, Option, none,
  some, arith, All, Bool-cases, by_test_true, by_test_false,
}
use voolo_whatsapp_bridge.Protocol.Text.{Text}
use voolo_whatsapp_bridge.Protocol.Commands.{Command}
use voolo_whatsapp_bridge.Protocol.Validate.{accepted, refused, bad}
use voolo_whatsapp_bridge.Protocol.Surrogates.{lone_surrogate}
use voolo_whatsapp_bridge.Protocol.Fields.{
  FieldSpec, CommandSpec, command_specs, look, has_key, all_known, member_ok, all_there, payload_ok,
  check_fields, decode_with, decode_command,
}

refused_not : (c : Command) → refused bad ≢ accepted c
refused_not c e = cc

module _ (members : Text → Option (List (String × Text))) (is_null : Text → Bool) where
  known :
      (spec : FieldSpec) (fs : List (String × Text))
      → all_known members is_null spec fs ≡ true
      → All (λ f. has_key f.0 spec ≡ true) fs
  unfolding all_known
  known spec [] e = tt
  known spec ((n, v) ∷ fs) e = (ground arith, known spec fs (ground arith))

  -- What a spec asks of some members: those that must stand do, and none that stands is null.
  abbrev pub Meets : FieldSpec → List (String × Text) → Type 0
  Meets spec fs =
      All
        (λ f.
          (f.1 ≡ true → look f.0 fs ≢ none)
          × ((v : Text) → look f.0 fs ≡ some v → is_null v ≡ false))
        spec

  member_there :
      (required : Bool) (o : Option Text)
      → member_ok members is_null required o ≡ true
      → (required ≡ true → o ≢ none) × ((v : Text) → o ≡ some v → is_null v ≡ false)
  member_there true none e = cc
  member_there false none e = ((λ r. cc), λ v k. cc)
  member_there required (some w) e = ((λ r k. cc), λ v k. ground (arith, k))

  there :
      (spec : FieldSpec) (fs : List (String × Text))
      → all_there members is_null spec fs ≡ true
      → Meets spec fs
  unfolding all_there
  there [] fs e = tt
  there ((n, required) ∷ spec) fs e =
      (member_there required (look n fs) (ground arith), there spec fs (ground arith))

  -- What DecodeCommand asks of a payload under a spec.
  abbrev pub Strict : CommandSpec → Text → Type 0
  Strict spec raw =
      (lone_surrogate raw ≡ false)
      × ((fs : List (String × Text)) × (members raw ≡ some fs)
          × All (λ f. has_key f.0 spec.fields ≡ true) fs
          × Meets spec.fields fs)

  payload-Strict :
      (spec : CommandSpec) (raw : Text) (o : Option (List (String × Text)))
      → members raw ≡ o
      → lone_surrogate raw ≡ false
      → payload_ok members is_null spec o ≡ true
      → Strict spec raw
  payload-Strict spec raw none m l e = cc
  payload-Strict spec raw (some fs) m l e =
      (l, (fs, m, known spec.fields fs (ground arith), there spec.fields fs (ground arith)))

  module _ (valid_utf8 : Text → Bool) (decode : String → Text → Option Command)
      (is_abs : Text → Bool) (clean : Text → Text) where
    decode_with-Strict :
        (spec : CommandSpec) (typ : String) (raw : Text) (c : Command)
        → decode_with members is_null valid_utf8 decode is_abs clean (some spec) typ raw
          ≡ accepted c
        → Strict spec raw
    unfolding check_fields
    decode_with-Strict spec typ raw c e =
        elim (Bool-cases (not (valid_utf8 raw) || lone_surrogate raw)) [
          | inl u ↦ elim (refused_not c (sym (by_test_true _ _ _ u) ∙ e)) [ ]
          | inr u ↦ elim (Bool-cases (check_fields members is_null spec raw)) [
            | inl k ↦ payload-Strict spec raw (members raw) refl (ground (arith, u)) k
            | inr k ↦
                elim (refused_not c (sym (by_test_false _ _ _ u ∙ by_test_false _ _ _ k) ∙ e)) [ ]
          ]
        ]

    -- DecodeCommand accepts only a command of the list, and a payload without a lone surrogate that
    -- is an object with no member that the command does not have, all members that it must have, and
    -- none of those that it may have null.
    pub decode_command-Strict :
        (typ : String) (raw : Text) (c : Command)
        → decode_command members is_null valid_utf8 decode is_abs clean typ raw ≡ accepted c
        → (spec : CommandSpec) × (look typ command_specs ≡ some spec) × Strict spec raw
    unfolding decode_command
    decode_command-Strict typ raw c e = found (look typ command_specs) refl e
      where
        found :
            (o : Option CommandSpec)
            → look typ command_specs ≡ o
            → decode_with members is_null valid_utf8 decode is_abs clean o typ raw ≡ accepted c
            → (spec : CommandSpec) × (look typ command_specs ≡ some spec) × Strict spec raw
        found none l e = cc
        found (some spec) l e = (spec, l, decode_with-Strict spec typ raw c e)
