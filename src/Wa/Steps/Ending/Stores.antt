-- ===== src/Wa/Steps/Ending/Stores.antt =====
-- What the end of Stop in internal/wa/bridge.go does with the store.
use text.Mathlib.Text.{◌==◌ as str_eq}
use voolo_whatsapp_bridge.Common.{
  ◌≡◌, refl, ap, ◌∙◌, Bool, true, false, [], Option, none, some, by_test,
}
use voolo_whatsapp_bridge.Protocol.Events.{stopped}
use voolo_whatsapp_bridge.Store.Tables.{
  Store, Result, ok, err_closed, io_error, Removal, Removals, removed, absent, remove_failed,
  without_file, close, wipe,
}
use voolo_whatsapp_bridge.Wa.Lifecycle.{Engine, LogoutInfo, Session, notify_last, same_state}
use voolo_whatsapp_bridge.Wa.Lifecycle.Stop.{
  set_last_state, wipe_line, end_store, last_ok, end_stop,
}

-- What Stop leaves of a store: after a logout nothing, unless the database file cannot be removed,
-- else its tables, and no lock.
abbrev pub left_of : Removal → Option LogoutInfo → Store → Store
left_of r none st = record st { closed = true; locked = false }
left_of remove_failed (some lo) st = record st { closed = true; locked = false }
left_of removed (some lo) st = record {
  closed = true;
  locked = false;
  sent = [];
  media = [];
  chats = [];
}
left_of absent (some lo) st = record {
  closed = true;
  locked = false;
  sent = [];
  media = [];
  chats = [];
}

wiped-left_of :
    (r : Removal) (lo : LogoutInfo) (st : Store)
    → without_file r (record st { closed = true; locked = false }) ≡ left_of r (some lo) st
wiped-left_of removed lo st = refl
wiped-left_of absent lo st = refl
wiped-left_of remove_failed lo st = refl

wipe_line-session : (r : Result (Unit {0})) (b : Engine) → (wipe_line r b).session ≡ b.session
unfolding notify_last
wipe_line-session (ok u) b = refl
wipe_line-session err_closed b = refl
wipe_line-session io_error b = refl

end_store-session :
    (fails : Bool) (removals : Removals) (s : Session) (lo : Option LogoutInfo) (b : Engine)
    → (end_store fails removals (some s) lo b).session
      ≡ some (record s { store = left_of removals.database lo s.store })
unfolding close wipe notify_last
end_store-session fails removals s none b = refl
end_store-session fails removals s (some lo) b =
    wipe_line-session (wipe removals s.store).0 _
    ∙ ap (λ st. some (record s { store = st })) (wiped-left_of removals.database lo s.store)

set_last_state-session : (b : Engine) → (set_last_state stopped b).session ≡ b.session
unfolding set_last_state notify_last
set_last_state-session b =
    by_test (λ (t : Engine). t.session ≡ b.session) (same_state b.state stopped) (λ e. refl)
      (λ e. refl)

last_ok-session : (lo : Option LogoutInfo) (b : Engine) → (last_ok lo b).session ≡ b.session
unfolding notify_last
last_ok-session none b = refl
last_ok-session (some lo) b =
    by_test (λ (t : Engine). t.session ≡ b.session) (str_eq lo.reply_to "") (λ e. refl) (λ e. refl)

-- Stop closes the store of its session, with no lock left on it, however the closing or the removal of
-- its files ends. Its rows stay unless the account was unlinked; then they are gone, except when the
-- database file could not be removed.
pub end_stop-left_of :
    (fails : Bool) (removals : Removals) (s : Session) (b : Engine)
    → b.session ≡ some s
    → (end_stop fails removals b).session
      ≡ some (record s { store = left_of removals.database b.logged_out s.store })
unfolding end_stop
end_stop-left_of fails removals s b e =
    last_ok-session b.logged_out _
    ∙ by_test (λ (t : Engine). t.session ≡ stored.session) b.inited
        (λ i. set_last_state-session stored) (λ i. refl)
    ∙ ap (λ o. (end_store fails removals o b.logged_out b).session) e
    ∙ end_store-session fails removals s b.logged_out b
  where
    stored : Engine
    stored = end_store fails removals b.session b.logged_out b
