-- ===== src/Wa/Steps/Ending.antt =====
-- What the end of Stop in internal/wa/bridge.go writes.
pub mod Stores
use voolo_whatsapp_bridge.Common.{
  ℕ, zero, suc, ◌+◌, ◌≤◌, ◌<◌, ◌≡◌, refl, ap, sym, ◌∙◌, Bool, true, false, not, ◌&&◌, List, [], ◌∷◌,
  ◌++◌, Option, none, some, length, length-append, arith, All, by_test, Bool-cases, inl, inr,
  count_of, if◌then◌else◌,
}
use Prim.Native.String.{String}
use text.Mathlib.Text.{◌==◌ as str_eq}
use voolo_whatsapp_bridge.Protocol.Events.{State, stopped, ErrorCode, store_io, new_error}
use voolo_whatsapp_bridge.Protocol.Writer.{Writer}
use voolo_whatsapp_bridge.Protocol.Writer.Laws.{emit_final}
use voolo_whatsapp_bridge.Store.Tables.{Result, ok, err_closed, io_error, Removals, wipe, close}
use voolo_whatsapp_bridge.Wa.Lifecycle.{
  Engine, Notice, status, problem, done, logged_out_line, LogoutInfo, Session, Pairing, notify_last,
  same_state,
}
use voolo_whatsapp_bridge.Wa.Lifecycle.Stop.{
  set_last_state, wipe_line, end_store, last_ok, end_stop,
}

-- A line of the shutdown sequence, and that of a logout.
abbrev pub is_store_error : ErrorCode → Bool
is_store_error store_io = true
is_store_error code = false

abbrev pub is_final : Notice → Bool
is_final (status stopped) = true
is_final (problem e) = is_store_error e.code
is_final (done r) = true
is_final (logged_out_line r c) = true
is_final n = false

abbrev pub is_logout : Notice → Bool
is_logout (logged_out_line r c) = true
is_logout n = false

-- The order of the shutdown lines: the store error, the logout, the status, the ok for logout.
abbrev pub rank : Notice → ℕ
rank (problem e) = 1
rank (logged_out_line r c) = 2
rank (status s) = 3
rank (done r) = 4
rank n = 0

-- Lines, newest first, that were written in this order, none twice, from rank `lo` to below `hi`.
abbrev pub Between : ℕ → ℕ → List Notice → Type 0
Between lo hi [] = lo ≤ hi
Between lo hi (n ∷ lines) = (rank n < hi) × Between lo (rank n) lines

pub Between-length :
    (lo hi : ℕ) (lines : List Notice) → Between lo hi lines → lo + length lines ≤ hi
Between-length lo hi [] h = omega (arith, h)
Between-length lo hi (n ∷ lines) h = omega (arith, h.0, Between-length lo (rank n) lines h.1)

Between-wider :
    (lo mid hi : ℕ) (lines : List Notice) → mid ≤ hi → Between lo mid lines → Between lo hi lines
Between-wider lo mid hi [] w h = omega (arith, w, h)
Between-wider lo mid hi (n ∷ lines) w h = (omega (arith, w, h.0), h.1)

Between-append :
    (lo mid hi : ℕ) (later earlier : List Notice)
    → Between mid hi later
    → Between lo mid earlier
    → Between lo hi (later ++ earlier)
Between-append lo mid hi [] earlier h k = Between-wider lo mid hi earlier h k
Between-append lo mid hi (n ∷ later) earlier h k =
    (h.0, Between-append lo mid (rank n) later earlier h.1 k)

-- From `b` to `t` only shutdown lines were written, in their order, `m` of a logout at most, and what
-- else the runs look at is kept.
pub record Ends (lo hi m : ℕ) (b t : Engine) : Type 0 where
  pub lines : List Notice
  pub added : t.out.written ≡ lines ++ b.out.written
  pub final : All (λ n. is_final n ≡ true) lines
  pub ordered : Between lo hi lines
  pub logouts : count_of is_logout lines ≤ m
  pub stopping : t.stopping ≡ b.stopping
  pub quiesced : t.out.quiesced ≡ b.out.quiesced
  pub fatal : t.fatal ≡ b.fatal
  pub pair : t.pair ≡ b.pair
  pub pairings : t.pairings ≡ b.pairings
  pub replied : t.replied ≡ b.replied

All-append : (P : Notice → Type 0) (xs ys : List Notice) → All P xs → All P ys → All P (xs ++ ys)
All-append P [] ys h g = g
All-append P (x ∷ xs) ys h g = (h.0, All-append P xs ys h.1 g)

pub count_of-append :
    (p : Notice → Bool) (xs ys : List Notice)
    → count_of p (xs ++ ys) ≡ count_of p xs + count_of p ys
count_of-append p [] ys = omega arith
count_of-append p (x ∷ xs) ys = ground (arith, count_of-append p xs ys)

append_assoc : (xs ys zs : List Notice) → (xs ++ ys) ++ zs ≡ xs ++ (ys ++ zs)
append_assoc [] ys zs = refl
append_assoc (x ∷ xs) ys zs = ap (λ l. x ∷ l) (append_assoc xs ys zs)

Ends-trans :
    {lo mid hi m n : ℕ} {a b c : Engine}
    → Ends lo mid m a b
    → Ends mid hi n b c
    → Ends lo hi (m + n) a c
Ends-trans {lo} {mid} {hi} {a = a} d e = record {
  lines = e.lines ++ d.lines;
  added =
      e.added ∙ ap (λ l. e.lines ++ l) d.added ∙ sym (append_assoc e.lines d.lines a.out.written);
  final = All-append (λ n. is_final n ≡ true) e.lines d.lines e.final d.final;
  ordered = Between-append lo mid hi e.lines d.lines e.ordered d.ordered;
  logouts = omega (arith, count_of-append is_logout e.lines d.lines, d.logouts, e.logouts);
  stopping = e.stopping ∙ d.stopping;
  quiesced = e.quiesced ∙ d.quiesced;
  fatal = e.fatal ∙ d.fatal;
  pair = e.pair ∙ d.pair;
  pairings = e.pairings ∙ d.pairings;
  replied = e.replied ∙ d.replied;
}

-- The fields that Ends keeps when no line is written.
abbrev Held : Type 0
Held = Writer Notice × Bool × Option ℕ × Option Pairing × List String × Bool

abbrev held : Engine → Held
held b = (b.out, b.stopping, b.fatal, b.pair, b.pairings, b.replied)

Ends-none : {lo hi m : ℕ} {b t : Engine} → lo ≤ hi → held t ≡ held b → Ends lo hi m b t
Ends-none h e = record {
  lines = [];
  added = ap (λ k. k.0.written) e;
  final = tt;
  ordered = h;
  logouts = omega arith;
  stopping = ap (λ k. k.1) e;
  quiesced = ap (λ k. k.0.quiesced) e;
  fatal = ap (λ k. k.2) e;
  pair = ap (λ k. k.3) e;
  pairings = ap (λ k. k.4) e;
  replied = ap (λ k. k.5) e;
}

-- How often one line is of a logout.
abbrev logout_of : Notice → ℕ
logout_of n = if is_logout n then 1 else 0

notify_last-Ends :
    (n : Notice) (b : Engine)
    → is_final n ≡ true
    → Ends (rank n) (suc (rank n)) (logout_of n) b (notify_last n b)
unfolding notify_last
notify_last-Ends n b f = record {
  lines = n ∷ [];
  added = ap (λ w. w.written) (emit_final n b.out);
  final = (f, tt);
  ordered = (omega arith, omega arith);
  logouts = omega arith;
  stopping = refl;
  quiesced = ap (λ w. w.quiesced) (emit_final n b.out);
  fatal = refl;
  pair = refl;
  pairings = refl;
  replied = refl;
}

wipe_line-Ends : (r : Result (Unit {0})) (b : Engine) → Ends 1 2 0 b (wipe_line r b)
wipe_line-Ends (ok u) b = Ends-none (omega arith) refl
wipe_line-Ends err_closed b = notify_last-Ends _ b refl
wipe_line-Ends io_error b = notify_last-Ends _ b refl

end_store-Ends :
    (fails : Bool) (removals : Removals) (s : Option Session) (lo : Option LogoutInfo) (b : Engine)
    → Ends 1 3 1 b (end_store fails removals s lo b)
unfolding wipe
end_store-Ends fails removals none lo b = Ends-none (omega arith) refl
end_store-Ends fails removals (some s) none b = Ends-none (omega arith) refl
end_store-Ends fails removals (some s) (some lo) b =
    Ends-trans
      (Ends-trans (Ends-none {m = 0} (omega arith) refl)
        (wipe_line-Ends (wipe removals s.store).0 _))
      (notify_last-Ends _ _ refl)

set_last_state-Ends : (b : Engine) → Ends 3 4 0 b (set_last_state stopped b)
unfolding set_last_state
set_last_state-Ends b =
    by_test (Ends 3 4 0 b) (same_state b.state stopped) (λ e. Ends-none (omega arith) refl)
      (λ e.
        Ends-trans (Ends-none {m = 0} {t = record b { state = some stopped }} (omega arith) refl)
          (notify_last-Ends _ _ refl))

last_ok-Ends : (lo : Option LogoutInfo) (b : Engine) → Ends 4 5 0 b (last_ok lo b)
last_ok-Ends none b = Ends-none (omega arith) refl
last_ok-Ends (some lo) b =
    by_test (Ends 4 5 0 b) (str_eq lo.reply_to "") (λ e. Ends-none (omega arith) refl)
      (λ e. notify_last-Ends _ b refl)

pub end_stop-Ends :
    (fails : Bool) (removals : Removals) (b : Engine) → Ends 1 5 1 b (end_stop fails removals b)
unfolding end_stop
end_stop-Ends fails removals b =
    Ends-trans
      (Ends-trans (end_store-Ends fails removals b.session b.logged_out b)
        (Ends-trans stated (Ends-none {m = 0} (omega arith) refl)))
      (last_ok-Ends b.logged_out _)
  where
    stored : Engine
    stored = end_store fails removals b.session b.logged_out b

    stated : Ends 3 4 0 stored (if b.inited then set_last_state stopped stored else stored)
    stated =
        by_test (Ends 3 4 0 stored) b.inited (λ e. set_last_state-Ends stored)
          (λ e. Ends-none (omega arith) refl)

last_ok-ended : (lo : Option LogoutInfo) (b : Engine) → b.ended ≡ true → (last_ok lo b).ended ≡ true
unfolding notify_last
last_ok-ended none b e = e
last_ok-ended (some lo) b e =
    by_test (λ (t : Engine). t.ended ≡ true) (str_eq lo.reply_to "") (λ f. e) (λ f. e)

pub end_stop-ended :
    (fails : Bool) (removals : Removals) (b : Engine) → (end_stop fails removals b).ended ≡ true
unfolding end_stop
end_stop-ended fails removals b = last_ok-ended b.logged_out _ refl
