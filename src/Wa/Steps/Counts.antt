-- ===== src/Wa/Steps/Counts.antt =====
-- How often the engine of internal/wa answers a pairing and reports a logout.
use Prim.Native.String.{String}
use voolo_whatsapp_bridge.Common.{
  ℕ, ◌+◌, ◌≤◌, ◌≡◌, refl, subst, Bool, true, false, not, List, [], ◌∷◌, ◌++◌, none, length,
  count_of, arith, All, by_test, Bool-cases, inl, inr, if◌then◌else◌,
}
use voolo_whatsapp_bridge.Protocol.Events.{State, ErrorCode, pair_failed as pair_failed_code}
use voolo_whatsapp_bridge.Protocol.Writer.Laws.{emit_open, emit_quiesced, emit_final}
use voolo_whatsapp_bridge.Store.Tables.{Removals}
use voolo_whatsapp_bridge.Wa.Lifecycle.{
  Engine, Notice, status, pair_failed, problem, logged_out_line, notify, set_state, same_state,
  notify_last, say_status, done,
}
use voolo_whatsapp_bridge.Wa.Lifecycle.Stop.{begin_stop, end_stop, silence, answer_shutdown}
use voolo_whatsapp_bridge.Wa.Steps.{Step, Runs, here, later, new_engine, is_pair_failed}
use voolo_whatsapp_bridge.Wa.Steps.Ending.{
  is_store_error, is_final, is_logout, count_of-append, Ends, end_stop-Ends, end_stop-ended,
}
use voolo_whatsapp_bridge.Wa.Steps.Moves.{
  is_answer, is_plain, open_pairs, Frame, Move, says, answers, sets, exits, silent, Moves, no_move,
  then_move,
}
use voolo_whatsapp_bridge.Wa.Steps.Moves.All.{
  Kind, moves, tells_status, begins, closes, finishes, answers_shutdown, Step-Kind,
}

-- The lines of a kind.
abbrev pub answered : Engine → ℕ
answered b = count_of is_answer b.out.written

abbrev pub logouts : Engine → ℕ
logouts b = count_of is_logout b.out.written

-- What is counted of a run: no pairing is answered twice, no logout is reported before the end.
pub record Counted (b : Engine) : Type 0 where
  pub pairings : answered b + open_pairs b.pair ≤ length b.pairings
  pub logout : logouts b ≤ (if b.ended then 1 else 0)

-- A line adds itself or is dropped.
notify-count :
    (p : Notice → Bool) (n : Notice) (b : Engine)
    → count_of p (notify n b).out.written ≤ count_of p (n ∷ b.out.written)
unfolding notify
notify-count p n b = elim (Bool-cases b.out.quiesced) [
  | inl e ↦ rw (emit_quiesced n b.out e) (ground arith)
  | inr e ↦ rw (emit_open n b.out e) (ground arith)
]

-- A line that is neither adds nothing to either count.
Neither : Notice → Type 0
Neither n = (is_answer n ≡ false) × (is_logout n ≡ false)

of_not : (b : Bool) → not b ≡ true → b ≡ false
of_not true e = ground arith
of_not false e = refl

plain-Neither : (n : Notice) → is_plain n ≡ true → Neither n
unfolding Neither
plain-Neither (status s) e = ground arith
plain-Neither (logged_out_line r c) e = ground arith
plain-Neither (pair_failed r c) e = ground arith
plain-Neither (problem x) e = (of_not _ e, refl)
plain-Neither n e = (refl, refl)

notify-Counted : (n : Notice) (b : Engine) → Neither n → Counted b → Counted (notify n b)
unfolding notify Neither
notify-Counted n b (a, l) k = record {
  pairings = ground (arith, notify-count is_answer n b, k.pairings, a);
  logout = ground (arith, notify-count is_logout n b, k.logout, l);
}

set_state-Counted : (s : State) (b : Engine) → Counted b → Counted (set_state s b)
unfolding set_state
set_state-Counted s b k =
    by_test Counted (same_state b.state s)
      (λ e. record { pairings = k.pairings; logout = k.logout })
      (λ e. record { pairings = k.pairings; logout = k.logout })

-- An answer takes the place of the open pairing.
answer-Counted :
    (n : Notice) (b : Engine)
    → is_answer n ≡ true
    → open_pairs b.pair ≡ 1
    → Counted b
    → Counted (notify n (record b { pair = none }))
unfolding notify
answer-Counted n b a o k = record {
  pairings = ground (arith, notify-count is_answer n (record b { pair = none }), k.pairings, o, a);
  logout =
      ground
        (arith, notify-count is_logout n (record b { pair = none }), k.logout, answer-logout n a);
}
  where
    answer-logout : (n : Notice) → is_answer n ≡ true → is_logout n ≡ false
    answer-logout (logged_out_line r c) e = ground arith
    answer-logout n e = refl

Frame-Counted : {b t : Engine} → Frame b t → Counted b → Counted t
Frame-Counted f k = record {
  pairings = rw (f.same_out) (omega (arith, f.accepted, k.pairings));
  logout = rw (f.same_out, f.same_ended) k.logout;
}

Move-Counted : {b t : Engine} → Move b t → Counted b → Counted t
Move-Counted (says n p) k = notify-Counted n _ (plain-Neither n p) k
Move-Counted (answers n a o) k = answer-Counted n _ a o k
Move-Counted (sets s) k = set_state-Counted s _ k
Move-Counted (exits c) k = record { pairings = k.pairings; logout = k.logout }
Move-Counted (silent f) k = Frame-Counted f k

Moves-Counted : {b t : Engine} → Moves b t → Counted b → Counted t
Moves-Counted no_move k = k
Moves-Counted (then_move ms m) k = Move-Counted m (Moves-Counted ms k)

begin_stop-Counted : (b : Engine) → Counted b → Counted (begin_stop b)
unfolding begin_stop
begin_stop-Counted b k =
    by_test Counted b.stopping (λ e. k)
      (λ e. record { pairings = omega (arith, k.pairings); logout = k.logout })

store_error-not_pair_failed : (c : ErrorCode) → is_store_error c ≡ true → is_pair_failed c ≡ false
store_error-not_pair_failed pair_failed_code e = ground arith
store_error-not_pair_failed c e = refl

-- The shutdown's lines answer no pairing.
final-no_answer : (n : Notice) → is_final n ≡ true → is_answer n ≡ false
final-no_answer (problem e) f = store_error-not_pair_failed e.code f
final-no_answer (pair_failed r c) f = ground arith
final-no_answer n f = refl

finals-no_answer :
    (lines : List Notice) → All (λ n. is_final n ≡ true) lines → count_of is_answer lines ≡ 0
finals-no_answer [] h = refl
finals-no_answer (n ∷ lines) h = ground (arith, final-no_answer n h.0, finals-no_answer lines h.1)

end_stop-Counted :
    (fails : Bool) (removals : Removals) (b : Engine)
    → b.ended ≡ false
    → Counted b
    → Counted (end_stop fails removals b)
end_stop-Counted fails removals b d k = record {
  pairings =
      rw (e.added, e.pair, e.pairings)
        (omega (
          arith,
          count_of-append is_answer e.lines b.out.written,
          finals-no_answer e.lines e.final,
          k.pairings,
        ));
  logout =
      rw (e.added, end_stop-ended fails removals b)
        (omega (arith, count_of-append is_logout e.lines b.out.written, e.logouts, none_before));
}
  where
    e : Ends 1 5 1 b (end_stop fails removals b)
    e = end_stop-Ends fails removals b

    none_before : logouts b ≤ 0
    none_before = subst (λ t. logouts b ≤ (if t then 1 else 0)) d k.logout

say_status-Counted :
    (before : List State) (s : State) (after : List State) (b : Engine)
    → Counted b
    → Counted (say_status before s after b)
unfolding say_status Neither
say_status-Counted before s after b k =
    notify-Counted (status s) (record b { unsaid = before ++ after }) (refl, refl)
      (record { pairings = k.pairings; logout = k.logout })

silence-Counted : (b : Engine) → Counted b → Counted (silence b)
unfolding silence
silence-Counted b k = record { pairings = k.pairings; logout = k.logout }

answer_shutdown-Counted : (id : String) (b : Engine) → Counted b → Counted (answer_shutdown id b)
unfolding answer_shutdown notify_last
answer_shutdown-Counted id b k =
    rw (emit_final (done id) b.out) (record { pairings = k.pairings; logout = k.logout })

Step-Counted : {b t : Engine} → Step b t → Counted b → Counted t
Step-Counted st k = kind (Step-Kind st) k
  where
    kind : {b t : Engine} → Kind b t → Counted b → Counted t
    kind (moves ms) k = Moves-Counted ms k
    kind {b} (tells_status before s after) k = say_status-Counted before s after b k
    kind {b} begins k = begin_stop-Counted b k
    kind {b} (closes s) k = silence-Counted b k
    kind {b} (finishes fails removals s d) k = end_stop-Counted fails removals b d k
    kind {b} (answers_shutdown id e r) k = answer_shutdown-Counted id b k

-- Of a run of the bridge: the pairings that were answered as failed, and the one that runs, are no
-- more than the pairings that were accepted; and a logout is reported once at most, at the end of Stop.
pub Runs-Counted : {t : Engine} → Runs new_engine t → Counted t
Runs-Counted here = record { pairings = omega arith; logout = omega arith }
Runs-Counted (later r st) = Step-Counted st (Runs-Counted r)
