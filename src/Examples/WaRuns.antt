-- ===== src/Examples/WaRuns.antt =====
-- Runs of internal/wa/commands.go: sends, pin changes and the sender cache.
use voolo_whatsapp_bridge.Common.{ℕ, ◌≤◌, ◌≡◌, true, List, [], ◌∷◌, none, some, arith}
use voolo_whatsapp_bridge.Wa.Backstop.{max_sends_in_window, backstop_allows, Attempt, attempts}
use voolo_whatsapp_bridge.Wa.Backstop.Skew.{backstop_allows_recovers}
use voolo_whatsapp_bridge.Wa.Backstop.Spacing.{Spaced}
use voolo_whatsapp_bridge.Wa.Backstop.Spacing.{Spaced}
use voolo_whatsapp_bridge.Wa.Backstop.Rate.{Forward, sends-Spaced}
use voolo_whatsapp_bridge.Wa.Lru.{new_lru, put, get, evict}
use voolo_whatsapp_bridge.Wa.Lru.Laws.{
  IsValid, Use, puts, gets, use_all, use_one, use_all-new_lru-IsValid,
}

-- A send that goes out, one that is refused for its closeness, one that fails in between, and one.
abbrev tries : List Attempt
tries =
    record { check = 5000000000; handed_over = some 5100000000 }
    ∷ record { check = 5200000000; handed_over = some 5300000000 }
    ∷ record { check = 7000000000; handed_over = none }
    ∷ record { check = 8000000000; handed_over = some 8100000000 }
    ∷ []

tries-Forward : Forward 0 tries
tries-Forward = (
  omega arith,
  omega arith,
  (omega arith, omega arith, (omega arith, omega arith, (omega arith, omega arith, tt))),
)

sends_example : Spaced max_sends_in_window (attempts [] [] tries)
sends_example = sends-Spaced tries tries-Forward

abbrev pin_times : List ℕ
pin_times = 5000000000 ∷ 5500000000 ∷ 6500000000 ∷ []

-- Two of three sends lie after the time that the clock shows.
abbrev skewed : List ℕ
skewed = 3000000000 ∷ 9000000000 ∷ 11000000000 ∷ []

recovers_example : (backstop_allows (backstop_allows skewed 5000000000).1 605000000000).0 ≡ true
recovers_example = backstop_allows_recovers skewed 5000000000 605000000000 (omega arith)

abbrev uses : List Use
uses = puts "m1" "ann" ∷ puts "m2" "bob" ∷ gets "m1" ∷ puts "m3" "cyd" ∷ []

IsValid-example : IsValid (use_all (new_lru 2) uses)
IsValid-example = use_all-new_lru-IsValid 2 uses

max_2 : 1 ≤ (use_all (new_lru 2) uses).max
unfolding use_all use_one put get new_lru evict
max_2 = omega arith
