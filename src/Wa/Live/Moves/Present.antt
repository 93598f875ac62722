-- ===== src/Wa/Live/Moves/Present.antt =====
-- No move forgets a chat that was reported.
use Prim.Native.String.{String}
use text.Mathlib.Text.{◌==◌ as str_eq}
use text.Mathlib.TextEquality.{eq_iff}
use voolo_whatsapp_bridge.Common.{
  ◌≡◌, refl, ap, ◌∙◌, Bool, true, false, List, ◌∷◌, Option, arith, by_test,
}
use voolo_whatsapp_bridge.Store.Tables.{ChatRow}
use voolo_whatsapp_bridge.Store.Chats.{chat_at}
use voolo_whatsapp_bridge.Wa.Live.{Live, say}
use voolo_whatsapp_bridge.Wa.Live.Chats.{is_given}
use voolo_whatsapp_bridge.Wa.Live.Moves.{
  present, LiveMove, silent, says, says_message, aliases, reports, LiveMoves, no_move, then_move,
}

pub present-cons :
    (j k : String) (p : Bool) (rows : List ChatRow)
    → present j rows ≡ true
    → present j ((k, p) ∷ rows) ≡ true
unfolding chat_at
present-cons j k p rows e =
    by_test (λ (o : Option Bool). is_given o ≡ true) (str_eq k j) (λ f. refl) (λ f. e)

pub present-new : (j : String) (p : Bool) (rows : List ChatRow) → present j ((j, p) ∷ rows) ≡ true
unfolding chat_at
present-new j p rows =
    by_test (λ (o : Option Bool). is_given o ≡ true) (str_eq j j) (λ f. refl)
      (λ f. ground (arith, eq_iff j j))

Move-present :
    {b t : Live} (j : String)
    → LiveMove b t
    → present j b.reported ≡ true
    → present j t.reported ≡ true
unfolding say
Move-present j (silent r l) e = ap (present j) r ∙ e
Move-present j (says l f) e = e
Move-present j (says_message m p) e = e
Move-present {b} j (aliases lid pn p r l) e =
    ap (present j) r ∙ present-cons j pn false _ (present-cons j lid false b.reported e)
Move-present {b} j (reports ch w n r l) e = ap (present j) r ∙ present-cons j ch.jid w b.reported e

pub Moves-present :
    {b t : Live} (j : String)
    → LiveMoves b t
    → present j b.reported ≡ true
    → present j t.reported ≡ true
Moves-present j no_move e = e
Moves-present j (then_move ms m) e = Move-present j m (Moves-present j ms e)
