-- ===== src/Wa/Steps/Contract.antt =====
-- What the bridge promises of stdout and of its exit code: sections 6.11 and 9 of PROTOCOL.md, as
-- Stop, exit and the Writer of internal/wa/bridge.go and internal/protocol/envelope.go keep it.
pub mod Obeyed
pub mod Promised
use Prim.Native.String.{String}
use voolo_whatsapp_bridge.Common.{
  ℕ, ◌≤◌, ◌≡◌, Bool, true, false, List, ◌∷◌, ◌++◌, Option, none, some, length, All,
}
use voolo_whatsapp_bridge.Wa.Lifecycle.{Engine, Notice, done}
use voolo_whatsapp_bridge.Wa.Steps.Ending.{is_final, Between}

-- What is seen of the bridge: whether it is stopping, whether it has closed its output to all but the
-- last lines, whether it has stopped, whether shutdown was answered, its lines, the newest first, and
-- the exit code it asked for.
pub record View : Type 0 where
  pub stopping : Bool
  pub closed : Bool
  pub ended : Bool
  pub replied : Bool
  pub lines : List Notice
  pub code : Option ℕ

-- What may happen: lines while the output is open, one exit code, a stop that closes the output, then
-- Stop's own last lines, once, in their order and none twice, and behind them, once, the answer to
-- shutdown.
pub data Promise (v : View) : View → Type 0 where
  writes : (n : Notice) → v.closed ≡ false → Promise v (record v { lines = n ∷ v.lines })
  asks : (c : ℕ) → v.code ≡ none → Promise v (record v { code = some c })
  begins : v.stopping ≡ false → Promise v (record v { stopping = true })
  closes : v.stopping ≡ true → Promise v (record v { closed = true })
  leaves :
      (last : List Notice)
      → v.closed ≡ true
      → v.ended ≡ false
      → Between 1 5 last
      → All (λ n. is_final n ≡ true) last
      → Promise v (record v { ended = true; lines = last ++ v.lines })
  answers :
      (id : String)
      → v.ended ≡ true
      → v.replied ≡ false
      → Promise v (record v { replied = true; lines = done id ∷ v.lines })

pub data Promises (v : View) : View → Type 0 where
  none_yet : Promises v v
  and_then : {u w : View} → Promises v u → Promise u w → Promises v w

abbrev pub view : Engine → View
view b = record {
  stopping = b.stopping;
  closed = b.out.quiesced;
  ended = b.ended;
  replied = b.replied;
  lines = b.out.written;
  code = b.fatal;
}
