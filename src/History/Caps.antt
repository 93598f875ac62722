-- ===== src/History/Caps.antt =====
-- internal/history/history.go, type Caps: the limits on days and on messages of one chat.
-- Filter reads the clock once; `now` is that reading in milliseconds since 1970. Truncated
-- subtraction gives the same tests as the source's int64: a time is at least a negative cutoff.
pub mod Laws
use Prim.Native.String.{String}
use text.Mathlib.Text.{◌==◌ as str_eq}
use voolo_whatsapp_bridge.Common.{
  ℕ, ◌+◌, ◌-◌, ◌*◌, Bool, List, length, keep, take, ltb, leb, if◌then◌else◌,
}
use voolo_whatsapp_bridge.Common.Sort.{sort_stable}
use voolo_whatsapp_bridge.Protocol.Events.{Message}

-- Caps; `counts` is the map, with 0 for a chat that it has no entry for.
pub record Caps : Type 0 where
  pub days : ℕ
  pub max_per_chat : ℕ
  pub counts : String → ℕ

-- A map with one entry written.
unfoldable pub update : (String → ℕ) → String → ℕ → String → ℕ
update f k v j = if str_eq j k then v else f j

-- 24 hours, in milliseconds.
abbrev pub day_ms : ℕ
day_ms = 86400000

abbrev pub cutoff : Caps → ℕ → ℕ
cutoff c now = now - c.days * day_ms

-- The less functions of the two sorts.
abbrev pub newer : Message → Message → Bool
newer a b = ltb b.ts a.ts

abbrev pub older : Message → Message → Bool
older a b = ltb a.ts b.ts

abbrev pub recent : Caps → ℕ → List Message → List Message
recent c now msgs = keep (λ m. leb (cutoff c now) m.ts) msgs

abbrev pub room : Caps → String → ℕ
room c chat = c.max_per_chat - c.counts chat

-- Filter: the kept messages, how many were dropped, and the caps after it.
unfoldable pub filter : Caps → ℕ → String → List Message → List Message × ℕ × Caps
filter c now chat msgs =
    let kept = sort_stable newer (recent c now msgs) in
    let few = if ltb (room c chat) (length kept) then take (room c chat) kept else kept in
    (
      sort_stable older few,
      (length msgs - length kept)
          + (if ltb (room c chat) (length kept) then length kept - room c chat else 0),
      record c { counts = update c.counts chat (c.counts chat + length few) },
    )
