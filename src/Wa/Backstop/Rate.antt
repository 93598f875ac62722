-- ===== src/Wa/Backstop/Rate.antt =====
-- The rates that the backstops (internal/wa/commands.go) keep to, while the clock does not go back.
use voolo_whatsapp_bridge.Common.{
  ℕ, ◌≤◌, ◌<◌, ◌≡◌, refl, inl, inr, Bool, true, false, List, [], ◌∷◌, ◌++◌, Option, none, some,
  length, keep, arith,
}
use voolo_whatsapp_bridge.Wa.Backstop.Skew.{clamp_past}
use voolo_whatsapp_bridge.Wa.Backstop.{
  max_sends_in_window, last?, clamp_sends, within, too_soon, outcome, backstop_allows, Attempt,
  attempt, attempts,
}
use voolo_whatsapp_bridge.Wa.Backstop.Spacing.{
  Spaced, NewestKnown, Tracks, All-later, kept-Tracks, admitted-Spaced,
}

-- When an attempt is over.
abbrev pub ended : Attempt → ℕ
ended a = elim a.handed_over [ none ↦ a.check | some t ↦ t ]

-- The clock does not go back during the attempts.
abbrev pub Forward : ℕ → List Attempt → Type 0
Forward clock [] = Unit {0}
Forward clock (a ∷ more) = (clock ≤ a.check) × (a.check ≤ ended a) × Forward (ended a) more

NewestKnown-later :
    (c d : ℕ) (times log : List ℕ) → c ≤ d → NewestKnown c times log → NewestKnown d times log
NewestKnown-later c d times [] h n = tt
NewestKnown-later c d times (x ∷ log) h (inl e) = inl e
NewestKnown-later c d times (x ∷ log) h (inr e) = inr (omega arith)

Tracks-later :
    {c : ℕ} {times log : List ℕ} (d : ℕ) → c ≤ d → Tracks c times log → Tracks d times log
Tracks-later {c} {times} {log} d h v = record {
  counts = λ t k. v.counts t (omega arith);
  newest = NewestKnown-later c d times log h v.newest;
  past = All-later c d times h v.past;
}

-- What a check remembers and asks while the clock does not go back.
module _ {clock : ℕ} {times log : List ℕ} (now : ℕ) (h : clock ≤ now)
    (v : Tracks clock times log) where
  past_now : clamp_sends times now ≡ times
  past_now = clamp_past times now (All-later clock now times h v.past)

  kept-backstop_allows : (backstop_allows times now).1 ≡ keep (within now) times
  unfolding backstop_allows
  kept-backstop_allows = rw past_now (ground arith)

  allowed_when :
      (backstop_allows times now).0 ≡ true
      → (length (keep (within now) times) < max_sends_in_window)
        × (too_soon now (last? (keep (within now) times)) ≡ false)
  unfolding backstop_allows
  allowed_when = rw past_now (λ e. ground arith)

outcome-Spaced :
    (b : Bool) (o : Option ℕ) {clock : ℕ} {times log : List ℕ} (now : ℕ)
    → clock ≤ now
    → now ≤ ended (record { check = now; handed_over = o })
    → Tracks clock times log
    → Spaced max_sends_in_window log
    → (b ≡ true
        → (length (keep (within now) times) < max_sends_in_window)
          × (too_soon now (last? (keep (within now) times)) ≡ false))
    → Spaced max_sends_in_window ((outcome b (keep (within now) times) o).1 ++ log)
      × Tracks
          (ended (record { check = now; handed_over = o }))
          (outcome b (keep (within now) times) o).0
          ((outcome b (keep (within now) times) o).1 ++ log)
unfolding outcome
outcome-Spaced true (some t) {log = log} now h k v sp f =
    admitted-Spaced now h v max_sends_in_window t k (f refl).0 (f refl).1 sp
outcome-Spaced true none now h k v sp f = (sp, kept-Tracks now h v)
outcome-Spaced false o now h k v sp f = (sp, Tracks-later _ k (kept-Tracks now h v))

attempt-Spaced :
    {clock : ℕ} {times log : List ℕ} (a : Attempt)
    → clock ≤ a.check
    → a.check ≤ ended a
    → Tracks clock times log
    → Spaced max_sends_in_window log
    → Spaced max_sends_in_window ((attempt times a).1 ++ log)
      × Tracks (ended a) (attempt times a).0 ((attempt times a).1 ++ log)
unfolding attempt
attempt-Spaced {times = times} a h k v sp = rw (kept-backstop_allows a.check h v) (
    outcome-Spaced (backstop_allows times a.check).0 a.handed_over a.check h k v sp
      (allowed_when a.check h v))

attempts-Spaced :
    (more : List Attempt) (clock : ℕ) (times log : List ℕ)
    → Forward clock more
    → Tracks clock times log
    → Spaced max_sends_in_window log
    → Spaced max_sends_in_window (attempts times log more)
unfolding attempts
attempts-Spaced [] clock times log f v sp = sp
attempts-Spaced (a ∷ more) clock times log f v sp =
    let (sp', v') = attempt-Spaced a f.0 f.1 v sp in
    attempts-Spaced more (ended a) (attempt times a).0 ((attempt times a).1 ++ log) f.2 v' sp'

-- While the clock does not go back, the bridge, from a start with no sends remembered, hands over at
-- most 30 sends in any ten minutes, and each at least a second after the one before it, whatever sends
-- are tried and refused.
pub sends-Spaced :
    (tries : List Attempt) → Forward 0 tries → Spaced max_sends_in_window (attempts [] [] tries)
sends-Spaced tries f =
    attempts-Spaced tries 0 [] [] f (record { counts = λ t h. refl; newest = tt; past = tt }) tt

-- Times that do not fall.
abbrev pub Climbs : ℕ → List ℕ → Type 0
Climbs clock [] = Unit {0}
Climbs clock (t ∷ ts) = (clock ≤ t) × Climbs t ts
