-- ===== src/Examples/LiveRuns.antt =====
-- Runs of internal/wa/events.go: a history conversation that marks its chat, a message there, and two
-- messages in a chat that the store does not have, of which the second brings the phone number of the
-- chat's linked id, and a receipt with one id that is none.
use Prim.Native.String.{String}
use text.Mathlib.Text.{◌==◌ as str_eq}
use voolo_whatsapp_bridge.Common.{
  ◌≤◌, refl, true, false, [], ◌∷◌, none, some, count_of, if◌then◌else◌,
}
use voolo_whatsapp_bridge.Protocol.Text.{Text}
use voolo_whatsapp_bridge.Wa.Live.{Spelling, ContactInfo, Live, Disk, delivered}
use voolo_whatsapp_bridge.Wa.Live.Jid.{
  Jids, Client, Server, default_user, hidden_user, reportable_chat,
}
use voolo_whatsapp_bridge.Wa.Live.Incoming.{Incoming, Content}
use voolo_whatsapp_bridge.Wa.Live.Messages.{on_message}
use voolo_whatsapp_bridge.Wa.Live.Chats.{mark_reported}
use voolo_whatsapp_bridge.Wa.Live.Receipts.{IncomingReceipt, receipt_of, valid_ids, on_receipt}
use voolo_whatsapp_bridge.Wa.Live.Receipts.Split.{Parts, on_receipt-Parts}
use voolo_whatsapp_bridge.Wa.Live.Once.{LiveRuns, none_yet, and_then, messages, marks}
use voolo_whatsapp_bridge.Wa.Live.Once.Aliases.{is_alias_of, is_chat_of, reported_once}

abbrev points_of : String → Text
points_of s =
    if str_eq s "1@s.whatsapp.net"
    then b'1' ∷ b'@' ∷ b's' ∷ b'.' ∷ b'w' ∷ b'h' ∷ b'a' ∷ b't' ∷ b's' ∷ b'a' ∷ b'p' ∷ b'p' ∷ b'.'
      ∷ b'n' ∷ b'e' ∷ b't' ∷ []
    else (if str_eq s "9@lid"
        then b'9' ∷ b'@' ∷ b'l' ∷ b'i' ∷ b'd' ∷ []
        else (if str_eq s "" then [] else b'A' ∷ b'B' ∷ []))

abbrev spelling : Spelling
spelling = record { points = points_of; spell = λ t. "AB" }

-- A JID is its text here.
abbrev server_of : String → Server
server_of s = if str_eq s "9@lid" then hidden_user else default_user

abbrev jids : Jids String
jids = record {
  server = server_of;
  has_user = λ s. if str_eq s "" then false else true;
  to_non_ad = λ s. s;
  show = λ s. s;
  parse = λ s. some s;
  empty = "";
}

abbrev nobody : ContactInfo
nobody = record {
  found = false;
  full_name = "";
  first_name = "";
  push_name = "";
  business_name = "";
}

abbrev client : Client String
client = record {
  account = some "2@s.whatsapp.net";
  pn_for_lid = λ s. none;
  lid_for_pn = λ s. none;
  contact = λ s. nobody;
}

abbrev disk : Disk
disk = record { begin_fails = false; fail_at = none; commit_fails = false; resolve_fails = false }

abbrev live : Live
live = record {
  reported = [];
  contacts = [];
  groups_sent = [];
  group_names = [];
  groups_loaded = false;
  group_fetches = [];
  history_queued = 0;
  store = record { closed = false; locked = true; sent = []; media = []; chats = [] };
  senders = record { max = 100; ll = []; m = λ s. false };
  raw_senders = record { max = 100; ll = []; m = λ s. false };
  lines = [];
}

abbrev content : Content
content = record {
  kind = "text";
  text = "hello";
  media = none;
  keys = none;
  quoted_id = "";
  quoted_by = "";
  mentions = [];
  forwarded = false;
}

abbrev message : String → Incoming String
message alt = record {
  chat = "9@lid";
  sender = "9@lid";
  sender_alt = alt;
  recipient_alt = "";
  from_me = false;
  is_group = false;
  id = "AB";
  ts = 1000;
  push_name = "AB";
  edited = false;
  content = some content;
  history = false;
  change = none;
  reaction = none;
}

abbrev after_three : Live
after_three = on_message spelling jids client disk (message "1@s.whatsapp.net") (
    on_message spelling jids client disk (message "") (
      on_message spelling jids client disk
        (record (message "") { chat = "3@s.whatsapp.net"; sender = "3@s.whatsapp.net" })
        (mark_reported disk ("3@s.whatsapp.net" ∷ []) live).1))

abbrev three_messages : LiveRuns spelling jids live after_three
three_messages =
    and_then
      (and_then
        (and_then (and_then none_yet (marks disk "3@s.whatsapp.net")) (
          messages client disk
            (record (message "") { chat = "3@s.whatsapp.net"; sender = "3@s.whatsapp.net" })))
        (messages client disk (message "")))
      (messages client disk (message "1@s.whatsapp.net"))

reported_once_example :
    (count_of (is_chat_of "9@lid") after_three.lines ≤ 1)
    × (count_of (is_alias_of "9@lid") after_three.lines ≤ 1)
reported_once_example = reported_once spelling jids "9@lid" refl three_messages

abbrev receipt : IncomingReceipt String
receipt = record {
  chat = "1@s.whatsapp.net";
  sender = "1@s.whatsapp.net";
  sender_alt = "";
  from_me = false;
  is_group = false;
  ids = "AB" ∷ "" ∷ "AC" ∷ [];
  kind = some delivered;
  at = 1000;
}

on_receipt-Parts_example :
    Parts
      (receipt_of spelling jids client disk receipt delivered "1@s.whatsapp.net")
      (valid_ids spelling jids client disk receipt)
      live
      (on_receipt spelling jids client disk receipt live)
unfolding on_receipt reportable_chat
on_receipt-Parts_example =
    on_receipt-Parts spelling jids client disk receipt delivered "1@s.whatsapp.net" live live refl
      refl refl
