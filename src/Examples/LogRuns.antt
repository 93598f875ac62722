-- ===== src/Examples/LogRuns.antt =====
-- Concrete runs of the scrubbing of internal/logx/logx.go.
use voolo_whatsapp_bridge.Common.{◌≡◌, refl, false, [], ◌∷◌}
use voolo_whatsapp_bridge.Protocol.Text.{Text}
use voolo_whatsapp_bridge.Log.Scrub.{secret_like, scrub_code, redacted}
use voolo_whatsapp_bridge.Log.Scrub.Safe.{scrub_code_safe}

-- " 12345", and the same with a mark between the digits that the scrubbing removes.
abbrev digits : Text
digits = b' ' ∷ b'1' ∷ b'2' ∷ b'3' ∷ b'4' ∷ b'5' ∷ []

abbrev split_digits : Text
split_digits = b'1' ∷ b'2' ∷ b'3' ∷ b'!' ∷ b'4' ∷ b'5' ∷ []

abbrev harmless : Text
harmless = b' ' ∷ b'4' ∷ b'0' ∷ b'4' ∷ b'!' ∷ b' ' ∷ []

digits-redacted : scrub_code digits ≡ redacted
unfolding scrub_code
digits-redacted = refl

split_digits-redacted : scrub_code split_digits ≡ redacted
unfolding scrub_code
split_digits-redacted = refl

harmless_kept : scrub_code harmless ≡ b'4' ∷ b'0' ∷ b'4' ∷ []
unfolding scrub_code
harmless_kept = refl

scrub_code_safe_example : secret_like (scrub_code split_digits) ≡ false
scrub_code_safe_example = scrub_code_safe split_digits
