-- ===== src/Wa/Lifecycle/Codes.antt =====
-- internal/wa/pairing.go, cycleCodes: the QR codes one after the other. What wakes its select is an
-- argument, one Wake for each code shown; strings.Replace of one occurrence is the argument `replace`.
-- Times are in milliseconds.
pub mod Shown
use Prim.Native.String.{String}
use text.Mathlib.Text.{◌==◌ as str_eq}
use voolo_whatsapp_bridge.Common.{
  ℕ, zero, suc, ◌+◌, Bool, true, false, ◌&&◌, List, [], ◌∷◌, ◌++◌, map, leb, ◌==◌, if◌then◌else◌,
}
use voolo_whatsapp_bridge.Wa.Lifecycle.{Notice, qr}

-- The cases of the select: the timer, a rotation of the ADV secret, new codes, a cancelled pairing.
pub data Wake : Type 0 where
  expired : Wake
  rotated : String → String → Wake
  new_codes : List String → Wake
  cancelled : Wake

-- How cycleCodes is left: no code is left, the pairing is cancelled, or it waits for the next Wake.
pub data Left : Type 0 where
  ran_out was_cancelled still_waiting : Left

-- What stays the same while the codes pass.
pub record Showing : Type 0 where
  pub replace : String → String → String → String  -- text, old, new
  pub code_bytes : String → ℕ
  pub reply_to : String
  pub phone : String
  pub qr_first : ℕ
  pub qr_next : ℕ

-- How long the code of this index is shown.
abbrev pub ttl_of : Showing → ℕ → ℕ
ttl_of c idx = if idx == 0 then c.qr_first else c.qr_next

-- The event of a code: none for a phone link, or for a code longer than 4096 bytes.
abbrev pub shown : Showing → ℕ → ℕ → String → List Notice
shown c now idx code =
    if str_eq c.phone "" && leb (c.code_bytes code) 4096
    then qr c.reply_to code (now + ttl_of c idx) idx ∷ []
    else []

-- The codes after one Wake, unless it ends the loop.
abbrev pub after_wake : Showing → Wake → List String → List String
after_wake c (rotated old new) (code ∷ codes) = map (λ t. c.replace t old new) (code ∷ codes)
after_wake c (new_codes fresh) codes = fresh
after_wake c _ [] = []
after_wake c _ (code ∷ codes) = codes

abbrev pub ends_it : Wake → Bool
ends_it cancelled = true
ends_it _ = false

-- cycleCodes: the events in order, and how it is left; each Wake has the time of the code before it.
unfoldable pub cycle_codes : Showing → ℕ → List String → List (ℕ × Wake) → List Notice × Left
cycle_codes c idx [] wakes = ([], ran_out)
cycle_codes c idx (code ∷ codes) [] = ([], still_waiting)
cycle_codes c idx (code ∷ codes) ((now, w) ∷ wakes) =
    let (lines, left) = cycle_codes c (suc idx) (after_wake c w (code ∷ codes)) wakes in
    if ends_it w
    then (shown c now idx code, was_cancelled)
    else (shown c now idx code ++ lines, left)
