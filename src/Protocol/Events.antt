-- ===== src/Protocol/Events.antt =====
-- internal/protocol/events.go: the payloads and the codes that the other parts pass around.
use Prim.Native.String.{String}
use voolo_whatsapp_bridge.Common.{ℕ, Bool, true, false, List, Option}

-- Quoted.
pub record Quoted : Type 0 where
  pub id : String
  pub sender_jid : String

-- Media.
pub record MediaInfo : Type 0 where
  pub mime : String
  pub size_bytes : ℕ
  pub duration_s : ℕ
  pub width : ℕ
  pub height : ℕ
  pub file_name : String

-- MentionLID.
pub record MentionLid : Type 0 where
  pub lid : String
  pub jid : String

-- Message; ts is in milliseconds since 1970 and not negative for a reported message.
pub record Message : Type 0 where
  pub chat_jid : String
  pub id : String
  pub sender_jid : String
  pub from_me : Bool
  pub ts : ℕ
  pub kind : String
  pub text : String
  pub push_name : String
  pub quoted : Option Quoted
  pub mentions : List String
  pub mention_lids : List MentionLid
  pub forwarded : Bool
  pub edited : Bool
  pub media : Option MediaInfo

-- Chat.
pub record Chat : Type 0 where
  pub jid : String
  pub kind : String
  pub name : String
  pub unread_count : Option ℕ
  pub pinned : Option Bool
  pub muted_until : ℕ
  pub archived : Option Bool
  pub last_message_at : ℕ

-- MaxBatchMessages and MaxBatchBytes.
abbrev pub max_batch_messages : ℕ
max_batch_messages = 200

abbrev pub max_batch_bytes : ℕ
max_batch_bytes = 786432

-- The error codes of section 9.
pub data ErrorCode : Type 0 where
  bad_request unknown_command unsupported_version not_initialized already_initialized : ErrorCode
  store_key_invalid store_locked store_io not_paired already_paired phone_invalid : ErrorCode
  pair_failed not_connected busy duplicate_outbox_id unknown_chat unknown_message : ErrorCode
  rate_limited send_failed timeout media_too_large media_expired media_unavailable : ErrorCode
  media_invalid host_blocked client_outdated internal rate_limited_local : ErrorCode

-- Retryable.
abbrev pub retryable : ErrorCode → Bool
retryable store_io = true
retryable pair_failed = true
retryable not_connected = true
retryable busy = true
retryable rate_limited = true
retryable rate_limited_local = true
retryable _ = false

-- ErrorEvent.
pub record ErrorEvent : Type 0 where
  pub reply_to : String
  pub code : ErrorCode
  pub retry : Bool
  pub fatal : Bool

-- NewError.
abbrev pub new_error : String → ErrorCode → ErrorEvent
new_error reply_to code = record {
  reply_to = reply_to;
  code = code;
  retry = retryable code;
  fatal = false;
}

-- The connection states of section 5.3; the bridge starts in none of them.
pub data State : Type 0 where
  unpaired connecting connected reconnecting stopped : State

-- The logout reasons of section 5.9.
pub data LogoutReason : Type 0 where
  user device_removed primary_gone banned unknown : LogoutReason

-- The pair failure reasons of section 5.8.
pub data PairReason : Type 0 where
  pair_timeout pair_rejected pair_client_outdated pair_error : PairReason
