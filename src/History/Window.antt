-- ===== src/History/Window.antt =====
-- internal/history/history.go, type Window: sequence numbers and the acknowledgement window.
-- A method runs under w.mu, so each is one function on the record. The field `changed` is the number
-- of channels made before the present one: a waiter that holds channel k is woken once `changed`
-- is not k any more, since a channel is closed exactly where the next one takes its place.
-- A seq is an int64 that counts up from 1, one for each batch of a process.
pub mod Runs
use voolo_whatsapp_bridge.Common.{
  ℕ, suc, ◌+◌, ◌<◌, Bool, true, false, not, List, [], ◌∷◌, length, keep, count_of, ltb, leb,
  if◌then◌else◌,
}

-- WindowSize.
abbrev pub window_size : ℕ
window_size = 4

pub record Window : Type 0 where
  pub size : ℕ
  pub next : ℕ
  pub outstanding : List ℕ  -- the keys of the map, newest first
  pub changed : ℕ

-- NewWindow.
unfoldable pub new_window : ℕ → Window
new_window size = record { size = size; next = 1; outstanding = []; changed = 0 }

-- What one round of the loop in Acquire comes to.
pub data Acquired : Type 0 where
  cancelled : Acquired
  granted : ℕ → Acquired
  waits : ℕ → Acquired  -- on the channel of this number

-- One round of the loop in Acquire; `stop` says that ctx.Err() is not nil.
unfoldable pub acquire : Bool → Window → Acquired × Window
acquire stop w =
    if stop
    then (cancelled, w)
    else (if ltb (length w.outstanding) w.size
        then (granted w.next, record w { next = w.next + 1; outstanding = w.next ∷ w.outstanding })
        else (waits w.changed, w))

-- Ack: how many batches it released, and the window after it.
unfoldable pub ack : ℕ → Window → ℕ × Window
ack seq w =
    let n = count_of (λ s. leb s seq) w.outstanding in
    let left = keep (λ s. not (leb s seq)) w.outstanding in
    (n, record w { outstanding = left; changed = if ltb 0 n then w.changed + 1 else w.changed })

-- Reset.
unfoldable pub reset : Window → Window
reset w = record w { outstanding = []; changed = w.changed + 1 }

-- Outstanding.
unfoldable pub outstanding_count : Window → ℕ
outstanding_count w = length w.outstanding

-- The calls that goroutines make on one window, in the order of its lock.
pub data Call : Type 0 where
  acquires : Bool → Call
  acks : ℕ → Call
  resets : Call

unfoldable pub step : Window → Call → Window
unfolding acquire ack reset
step w (acquires stop) = (acquire stop w).1
step w (acks seq) = (ack seq w).1
step w resets = reset w

unfoldable pub run : Window → List Call → Window
run w [] = w
run w (c ∷ cs) = run (step w c) cs
