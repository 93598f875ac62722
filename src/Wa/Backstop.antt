-- ===== src/Wa/Backstop.antt =====
-- internal/wa/commands.go: the send backstop and the set_pin backstop.
-- A time is a number of nanoseconds since Go's zero time, so no reading of a clock lies within a
-- second of 0 and now.Add(-MinSendInterval) is exact. A test `now.Sub(t) < d` is `now < t + d`,
-- which holds too where t lies after now. Lists are oldest first, as in the source.
pub mod Spacing
pub mod Rate
pub mod Skew
use voolo_whatsapp_bridge.Common.{
  ℕ, ◌+◌, ◌-◌, Bool, true, false, ◌&&◌, ◌||◌, List, [], ◌∷◌, ◌++◌, map, Option, none, some, length,
  keep, count_of, ltb, leb, if◌then◌else◌,
}

-- MinSendInterval and MinPinInterval.
abbrev pub second : ℕ
second = 1000000000

-- SendWindow and PinWindow: ten minutes.
abbrev pub window : ℕ
window = 600000000000

-- MaxSendsInWindow.
abbrev pub max_sends_in_window : ℕ
max_sends_in_window = 30

-- MaxPinsInWindow.
abbrev pub max_pins_in_window : ℕ
max_pins_in_window = 20

-- The last element: sends[len(sends)-1].
abbrev pub last? {ℓ} : {A : Type ℓ} → List A → Option A
last? [] = none
last? (x ∷ []) = some x
last? (x ∷ y ∷ ys) = last? (y ∷ ys)

-- The second loop of clampSends, after an element `prev`.
unfoldable pub raise_from : ℕ → List ℕ → List ℕ
raise_from prev [] = []
raise_from prev (t ∷ ts) = let t' = if ltb t prev then prev else t in t' ∷ raise_from t' ts

unfoldable pub raise : List ℕ → List ℕ
unfolding raise_from
raise [] = []
raise (t ∷ ts) = t ∷ raise_from t ts

-- The first loop of clampSends.
abbrev pub lower : ℕ → List ℕ → List ℕ
lower now = map (λ t. if ltb now t then now - second else t)

unfoldable pub clamp_sends : List ℕ → ℕ → List ℕ
unfolding raise
clamp_sends sends now =
    if ltb 0 (count_of (λ t. ltb now t) sends) then raise (lower now sends) else lower now sends

-- now.Sub(t) < SendWindow.
abbrev pub within : ℕ → ℕ → Bool
within now t = ltb now (t + window)

-- Whether the last of some times is less than the floor interval ago.
abbrev pub too_soon : ℕ → Option ℕ → Bool
too_soon now none = false
too_soon now (some t) = ltb now (t + second)

-- backstopAllows: the answer, and b.sends after it.
unfoldable pub backstop_allows : List ℕ → ℕ → Bool × List ℕ
unfolding clamp_sends
backstop_allows sends now =
    let kept = keep (within now) (clamp_sends sends now) in
    if leb max_sends_in_window (length kept)
    then (false, kept)
    else (if too_soon now (last? kept) then (false, kept) else (true, kept))

-- recordSend.
abbrev pub record_send : List ℕ → ℕ → List ℕ
record_send sends t = sends ++ t ∷ []

-- 0 <= now.Sub(t) && now.Sub(t) < PinWindow.
abbrev pub pin_within : ℕ → ℕ → Bool
pin_within now t = leb t now && ltb now (t + window)

-- pinAllowed: the answer, and b.pins after it.
unfoldable pub pin_allowed : List ℕ → ℕ → Bool × List ℕ
pin_allowed pins now =
    let kept = keep (pin_within now) pins in
    if leb max_pins_in_window (length kept) || too_soon now (last? kept)
    then (false, kept)
    else (true, kept ++ now ∷ [])

-- A send of the bridge: the time of its check in beginSend, and the time at which deliver handed it
-- to WhatsApp, if it got that far.
pub record Attempt : Type 0 where
  pub check : ℕ
  pub handed_over : Option ℕ

-- The sends one after another (the bridge has one send slot): b.sends, and the times at which they
-- were handed over, newest first.
unfoldable pub outcome : Bool → List ℕ → Option ℕ → List ℕ × List ℕ
outcome true kept (some t) = (record_send kept t, t ∷ [])
outcome _ kept _ = (kept, [])

unfoldable pub attempt : List ℕ → Attempt → List ℕ × List ℕ
unfolding outcome
attempt sends a =
    outcome (backstop_allows sends a.check).0 (backstop_allows sends a.check).1 a.handed_over

unfoldable pub attempts : List ℕ → List ℕ → List Attempt → List ℕ
attempts sends log [] = log
attempts sends log (a ∷ more) = attempts (attempt sends a).0 ((attempt sends a).1 ++ log) more

-- The writes of set_pin: the times at which pinAllowed let one pass, newest first.
unfoldable pub pins_written : List ℕ → List ℕ → List ℕ → List ℕ
pins_written pins log [] = log
pins_written pins log (now ∷ more) =
    pins_written (pin_allowed pins now).1 (if (pin_allowed pins now).0 then now ∷ log else log) more
