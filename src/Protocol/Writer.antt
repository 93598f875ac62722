-- ===== src/Protocol/Writer.antt =====
-- internal/protocol/envelope.go: the Writer. What encoding/json makes of an event is an argument:
-- `render` gives its bytes for an id and a time, or none when it returns an error; so is whether the
-- write itself fails. The lines written are kept, the newest first, and io.Writer is what takes them.
pub mod Laws
use Prim.Native.String.{String}
use voolo_whatsapp_bridge.Common.{
  ℕ, suc, Bool, true, false, not, ◌&&◌, List, [], ◌∷◌, Option, none, some, length, ltb,
  if◌then◌else◌,
}
use voolo_whatsapp_bridge.Protocol.Lines.{max_line_bytes}

-- What Emit returns instead of nil.
pub data EmitError : Type 0 where
  not_encoded line_too_long quiesced_line write_failed : EmitError

-- Writer, without the clock and the source of ids.
pub record Writer (L : Type 0) : Type 0 where
  pub quiesced : Bool
  pub dropped : ℕ
  pub written : List L

abbrev pub new_writer : {L : Type 0} → Writer L
new_writer = record { quiesced = false; dropped = 0; written = [] }

-- Encode: the line, or why there is none.
pub data Encoded (L : Type 0) : Type 0 where
  line : L → Encoded L
  not_a_line : EmitError → Encoded L

abbrev pub rendered : Option (List ℕ) → Encoded (List ℕ)
rendered none = not_a_line not_encoded
rendered (some bytes) =
    if ltb max_line_bytes (length bytes) then not_a_line line_too_long else line bytes

unfoldable pub encode : {E : Type 0} → (E → Option (List ℕ)) → E → Encoded (List ℕ)
encode render event = rendered (render event)

-- w.w.Write.
abbrev pub written_out : {L : Type 0} → Bool → L → Writer L → Option EmitError × Writer L
written_out true l w = (some write_failed, w)
written_out false l w = (none, record w { written = l ∷ w.written })

abbrev pub emit_encoded :
    {L : Type 0} → Bool → Bool → Encoded L → Writer L → Option EmitError × Writer L
emit_encoded fails final (not_a_line e) w = (some e, w)
emit_encoded fails final (line l) w =
    if w.quiesced && not final
    then (some quiesced_line, record w { dropped = suc w.dropped })
    else written_out fails l w

-- emit: `final` tells EmitFinal from Emit.
unfoldable pub emit_event :
    {E L : Type 0} → (E → Encoded L) → Bool → Bool → E → Writer L → Option EmitError × Writer L
emit_event encode fails final event w = emit_encoded fails final (encode event) w

-- Quiesce.
abbrev pub quiesce : {L : Type 0} → Writer L → Writer L
quiesce w = record w { quiesced = true }
