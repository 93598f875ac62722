-- ===== src/Wa/Live/Once/Aliases.antt =====
-- How often internal/wa/events.go reports one chat, and its alias.
use Prim.Native.String.{String}
use text.Mathlib.Text.{◌==◌ as str_eq}
use text.Mathlib.TextEquality.{eq_iff}
use voolo_whatsapp_bridge.Common.{
  ℕ, suc, ◌+◌, ◌≤◌, ◌≡◌, refl, subst, Bool, true, false, List, [], ◌∷◌, Option, none, some,
  count_of, arith, if◌then◌else◌,
}
use voolo_whatsapp_bridge.Protocol.Events.{Chat}
use voolo_whatsapp_bridge.Store.Tables.{ChatRow}
use voolo_whatsapp_bridge.Store.Chats.{chat_at}
use voolo_whatsapp_bridge.Wa.Live.{
  Spelling, LiveLine, chat_line, alias_line, message_line, Live, say,
}
use voolo_whatsapp_bridge.Wa.Live.Jid.{Jids}
use voolo_whatsapp_bridge.Wa.Live.Chats.{is_pending, is_given}
use voolo_whatsapp_bridge.Wa.Live.Moves.{
  is_free, present, LiveMove, silent, says, says_message, aliases, reports, LiveMoves, no_move,
  then_move,
}
use voolo_whatsapp_bridge.Wa.Live.Once.{
  LiveRuns, none_yet, and_then, LiveKind, moves, marks_only, Step-Kind,
}

abbrev pub is_alias_of : String → LiveLine → Bool
is_alias_of j (alias_line pn lid) = str_eq lid j
is_alias_of j l = false

abbrev pub is_chat_of : String → LiveLine → Bool
is_chat_of j (chat_line ch) = str_eq ch.jid j
is_chat_of j l = false

abbrev pub num : Bool → ℕ
num b = if b then 1 else 0

-- The aliases of `j` that were or may yet be reported are one at most, and none while it is unknown;
-- and so are the reports of `j` as a chat.
pub record Once (j : String) (rows : List ChatRow) (lines : List LiveLine) : Type 0 where
  pub alias :
      count_of (is_alias_of j) lines + num (is_pending (chat_at j rows)) ≤ num (present j rows)
  pub chat : count_of (is_chat_of j) lines ≤ num (present j rows)

free-neither :
    (j : String) (l : LiveLine)
    → is_free l ≡ true
    → (is_alias_of j l ≡ false) × (is_chat_of j l ≡ false)
free-neither j (chat_line ch) e = ground arith
free-neither j (alias_line pn lid) e = ground arith
free-neither j (message_line m) e = ground arith
free-neither j l e = (refl, refl)

says-Once :
    (j : String) (l : LiveLine) (rows : List ChatRow) (lines : List LiveLine)
    → (is_alias_of j l ≡ false) × (is_chat_of j l ≡ false)
    → Once j rows lines
    → Once j rows (l ∷ lines)
says-Once j l rows lines (a, h) o = record {
  alias = ground (arith, o.alias, a);
  chat = ground (arith, o.chat, h);
}

-- A key after an alias: of the phone number, of the linked id, or another.
after_alias : Bool → Bool → Option Bool → Option Bool
after_alias true is_lid o = some false
after_alias false true o = some false
after_alias false false o = o

one_more : Bool → ℕ → ℕ
one_more true n = suc n
one_more false n = n

alias_le :
    (is_pn is_lid : Bool) (o : Option Bool) (n : ℕ)
    → (is_lid ≡ true → is_pending o ≡ true)
    → n + num (is_pending o) ≤ num (is_given o)
    → one_more is_lid n + num (is_pending (after_alias is_pn is_lid o))
      ≤ num (is_given (after_alias is_pn is_lid o))
unfolding after_alias one_more
alias_le p true none n h k = ground (arith, h refl)
alias_le p true (some false) n h k = ground (arith, h refl)
alias_le true true (some true) n h k = omega (arith, k)
alias_le false true (some true) n h k = omega (arith, k)
alias_le true false none n h k = omega (arith, k)
alias_le true false (some true) n h k = omega (arith, k)
alias_le true false (some false) n h k = omega (arith, k)
alias_le false false o n h k = k

chat_at-alias :
    (j lid pn : String) (rows : List ChatRow)
    → chat_at j ((pn, false) ∷ (lid, false) ∷ rows)
      ≡ after_alias (str_eq pn j) (str_eq lid j) (chat_at j rows)
unfolding chat_at after_alias
chat_at-alias j lid pn rows = ground arith

count-alias :
    (j lid pn : String) (lines : List LiveLine)
    → count_of (is_alias_of j) (alias_line pn lid ∷ lines)
      ≡ one_more (str_eq lid j) (count_of (is_alias_of j) lines)
unfolding one_more
count-alias j lid pn lines = ground arith

aliases-Once :
    (j lid pn : String) (rows : List ChatRow) (lines : List LiveLine)
    → is_pending (chat_at lid rows) ≡ true
    → Once j rows lines
    → Once j ((pn, false) ∷ (lid, false) ∷ rows) (alias_line pn lid ∷ lines)
unfolding after_alias
aliases-Once j lid pn rows lines p o = record {
  alias =
      rw (chat_at-alias j lid pn rows, count-alias j lid pn lines)
        (alias_le (str_eq pn j) (str_eq lid j) (chat_at j rows) _ same o.alias);
  chat =
      rw (chat_at-alias j lid pn rows) (kept (str_eq pn j) (str_eq lid j) (chat_at j rows) o.chat);
}
  where
    same : str_eq lid j ≡ true → is_pending (chat_at j rows) ≡ true
    same e = subst (λ k. is_pending (chat_at k rows) ≡ true) ((eq_iff lid j).0 e) p

    kept :
        (a b : Bool) (q : Option Bool)
        → count_of (is_chat_of j) lines ≤ num (is_given q)
        → count_of (is_chat_of j) lines ≤ num (is_given (after_alias a b q))
    kept true b none h = omega (arith, h)
    kept true b (some q) h = h
    kept false true none h = omega (arith, h)
    kept false true (some q) h = h
    kept false false q h = h

-- A key after the report of a chat: of that chat, or another.
after_report : Bool → Bool → Option Bool → Option Bool
after_report true w o = some w
after_report false w o = o

report_le :
    (is_new w : Bool) (o : Option Bool) (n m : ℕ)
    → (is_new ≡ true → o ≡ none)
    → n + num (is_pending o) ≤ num (is_given o)
    → m ≤ num (is_given o)
    → (n + num (is_pending (after_report is_new w o)) ≤ num (is_given (after_report is_new w o)))
      × (one_more is_new m ≤ num (is_given (after_report is_new w o)))
unfolding after_report one_more
report_le true w (some p) n m e h k = absurd (ground (arith, e refl))
report_le true true none n m e h k = (omega (arith, h), omega (arith, k))
report_le true false none n m e h k = (omega (arith, h), omega (arith, k))
report_le false w o n m e h k = (h, k)

chat_at-report :
    (j k : String) (w : Bool) (rows : List ChatRow)
    → chat_at j ((k, w) ∷ rows) ≡ after_report (str_eq k j) w (chat_at j rows)
unfolding chat_at after_report
chat_at-report j k w rows = ground arith

count-report :
    (j : String) (ch : Chat) (lines : List LiveLine)
    → count_of (is_chat_of j) (chat_line ch ∷ lines)
      ≡ one_more (str_eq ch.jid j) (count_of (is_chat_of j) lines)
unfolding one_more
count-report j ch lines = ground arith

reports-Once :
    (j : String) (w : Bool) (ch : Chat) (rows : List ChatRow) (lines : List LiveLine)
    → chat_at ch.jid rows ≡ none
    → Once j rows lines
    → Once j ((ch.jid, w) ∷ rows) (chat_line ch ∷ lines)
reports-Once j w ch rows lines n o = record {
  alias = rw (chat_at-report j ch.jid w rows) (both.0);
  chat = rw (chat_at-report j ch.jid w rows, count-report j ch lines) (both.1);
}
  where
    new : str_eq ch.jid j ≡ true → chat_at j rows ≡ none
    new e = subst (λ k. chat_at k rows ≡ none) ((eq_iff ch.jid j).0 e) n

    both :
        (count_of (is_alias_of j) lines
            + num (is_pending (after_report (str_eq ch.jid j) w (chat_at j rows)))
          ≤ num (is_given (after_report (str_eq ch.jid j) w (chat_at j rows))))
        × (one_more (str_eq ch.jid j) (count_of (is_chat_of j) lines)
            ≤ num (is_given (after_report (str_eq ch.jid j) w (chat_at j rows))))
    both = report_le (str_eq ch.jid j) w (chat_at j rows) _ _ new o.alias o.chat

one_more_le : (b : Bool) (n : ℕ) → n ≤ one_more b n
unfolding one_more
one_more_le true n = omega arith
one_more_le false n = omega arith

-- A key that is marked without a line.
marks-Once :
    (j k : String) (w : Bool) (rows : List ChatRow) (lines : List LiveLine)
    → chat_at k rows ≡ none
    → Once j rows lines
    → Once j ((k, w) ∷ rows) lines
marks-Once j k w rows lines n o = record {
  alias = rw (chat_at-report j k w rows) (both.0);
  chat =
      rw (chat_at-report j k w rows)
        (omega (arith, both.1, one_more_le (str_eq k j) (count_of (is_chat_of j) lines)));
}
  where
    new : str_eq k j ≡ true → chat_at j rows ≡ none
    new e = subst (λ i. chat_at i rows ≡ none) ((eq_iff k j).0 e) n

    both :
        (count_of (is_alias_of j) lines
            + num (is_pending (after_report (str_eq k j) w (chat_at j rows)))
          ≤ num (is_given (after_report (str_eq k j) w (chat_at j rows))))
        × (one_more (str_eq k j) (count_of (is_chat_of j) lines)
            ≤ num (is_given (after_report (str_eq k j) w (chat_at j rows))))
    both = report_le (str_eq k j) w (chat_at j rows) _ _ new o.alias o.chat

Move-Once :
    {b t : Live} (j : String) → LiveMove b t → Once j b.reported b.lines → Once j t.reported t.lines
unfolding say
Move-Once j (silent r l) o = rw (r, l) o
Move-Once j (says l f) o = says-Once j l _ _ (free-neither j l f) o
Move-Once j (says_message m p) o = says-Once j (message_line m) _ _ (refl, refl) o
Move-Once {b} j (aliases lid pn p r l) o = rw (r, l) (aliases-Once j lid pn b.reported b.lines p o)
Move-Once {b} j (reports ch w n r l) o = rw (r, l) (reports-Once j w ch b.reported b.lines n o)

Moves-Once :
    {b t : Live} (j : String)
    → LiveMoves b t
    → Once j b.reported b.lines
    → Once j t.reported t.lines
Moves-Once j no_move o = o
Moves-Once j (then_move ms m) o = Move-Once j m (Moves-Once j ms o)

Kind-Once :
    {J : Type 0} (c : Spelling) (jids : Jids J) {b t : Live} {js : List String} (j : String)
    → LiveKind c jids b js t
    → Once j b.reported b.lines
    → Once j t.reported t.lines
Kind-Once c jids j (moves ms) o = Moves-Once j ms o
Kind-Once c jids {b} j (marks_only k w n r l) o =
    rw (r, l) (marks-Once j k w b.reported b.lines n o)

Runs-Once :
    {J : Type 0} (c : Spelling) (jids : Jids J) {b t : Live} (j : String)
    → LiveRuns c jids b t
    → Once j b.reported b.lines
    → Once j t.reported t.lines
Runs-Once c jids j none_yet o = o
Runs-Once c jids j (and_then r st) o =
    Kind-Once c jids j (Step-Kind c jids st) (Runs-Once c jids j r o)

start-Once : (j : String) (rows : List ChatRow) → Once j rows []
start-Once j rows = record { alias = pending_le (chat_at j rows); chat = omega arith }
  where
    pending_le : (o : Option Bool) → 0 + num (is_pending o) ≤ num (is_given o)
    pending_le none = omega arith
    pending_le (some true) = omega arith
    pending_le (some false) = omega arith

num_le : (b : Bool) → num b ≤ 1
num_le true = omega arith
num_le false = omega arith

-- Whatever messages, receipts and updates the handler sees, whatever conversations, joined groups and
-- sweeps its goroutines work at, and whatever the client answers and the disk does: no chat is reported
-- by more than one chat event, so by none again when it changes, nor a linked id by more than one alias.
pub reported_once :
    (c : Spelling) {J : Type 0} (jids : Jids J) {b t : Live} (j : String)
    → b.lines ≡ []
    → LiveRuns c jids b t
    → (count_of (is_chat_of j) t.lines ≤ 1) × (count_of (is_alias_of j) t.lines ≤ 1)
reported_once c jids {b} {t} j e r = (
  omega (arith, o.chat, num_le (present j t.reported)),
  omega (arith, o.alias, num_le (present j t.reported)),
)
  where
    o : Once j t.reported t.lines
    o = Runs-Once c jids j r (rw e (start-Once j b.reported))
