-- ===== src/Wa/Steps/Moves.antt =====
-- The operations of the engine in internal/wa as sequences of a few moves, so that what holds of each
-- move holds of each operation.
pub mod Operations
pub mod All
use voolo_whatsapp_bridge.Common.{
  ℕ, suc, ◌+◌, ◌≤◌, ◌≡◌, refl, ap, Bool, true, false, not, List, [], ◌∷◌, Option, none, some,
  length, arith, by_test, ◌⊎◌, inl, inr,
}
use voolo_whatsapp_bridge.Protocol.Events.{State, pair_failed as pair_failed_code}
use voolo_whatsapp_bridge.Protocol.Writer.{Writer}
use voolo_whatsapp_bridge.Wa.Lifecycle.{
  Engine, Notice, problem, status, pair_failed, logged_out_line, Pairing, notify, exit_with,
  set_state,
}
use voolo_whatsapp_bridge.Wa.Steps.{is_pair_failed}

-- The lines that are one answer of a pairing that failed.
abbrev pub is_answer : Notice → Bool
is_answer (problem e) = is_pair_failed e.code
is_answer (pair_failed r reason) = true
is_answer _ = false

-- The lines that have no move of their own.
abbrev pub is_plain : Notice → Bool
is_plain (status s) = false
is_plain (logged_out_line r c) = false
is_plain n = not (is_answer n)

abbrev pub open_pairs : Option Pairing → ℕ
open_pairs none = 0
open_pairs (some p) = 1

-- What a move that writes nothing leaves as it is.
pub record Frame (b t : Engine) : Type 0 where
  pub same_out : t.out ≡ b.out
  pub same_stopping : t.stopping ≡ b.stopping
  pub same_ended : t.ended ≡ b.ended
  pub same_fatal : t.fatal ≡ b.fatal
  pub same_replied : t.replied ≡ b.replied
  pub accepted : open_pairs t.pair + length b.pairings ≤ open_pairs b.pair + length t.pairings

-- The fields that a Frame keeps.
abbrev pub Kept : Type 0
Kept = Writer Notice × Bool × Bool × Option ℕ × Bool

abbrev pub kept : Engine → Kept
kept b = (b.out, b.stopping, b.ended, b.fatal, b.replied)

pub data Move (b : Engine) : Engine → Type 0 where
  says : (n : Notice) → is_plain n ≡ true → Move b (notify n b)
  answers :
      (n : Notice)
      → is_answer n ≡ true
      → open_pairs b.pair ≡ 1
      → Move b (notify n (record b { pair = none }))
  sets : (s : State) → Move b (set_state s b)
  exits : (code : ℕ) → Move b (exit_with code b)
  silent : {t : Engine} → Frame b t → Move b t

pub data Moves (b : Engine) : Engine → Type 0 where
  no_move : Moves b b
  then_move : {s t : Engine} → Moves b s → Move s t → Moves b t

pub Moves-trans : {a b c : Engine} → Moves a b → Moves b c → Moves a c
Moves-trans m no_move = m
Moves-trans m (then_move n x) = then_move (Moves-trans m n) x

pub one_move : {b t : Engine} → Move b t → Moves b t
one_move x = then_move no_move x

-- An update of the other fields is one move.
pub quiet :
    {b t : Engine}
    → kept t ≡ kept b
    → open_pairs t.pair + length b.pairings ≤ open_pairs b.pair + length t.pairings
    → Moves b t
quiet e a = one_move (
    silent (record {
      same_out = ap (λ k. k.0) e;
      same_stopping = ap (λ k. k.1) e;
      same_ended = ap (λ k. k.2) e;
      same_fatal = ap (λ k. k.3) e;
      same_replied = ap (λ k. k.4) e;
      accepted = a;
    }))
