-- ===== src/Lib.antt =====
-- voolo-whatsapp-bridge: a program that links to a WhatsApp account and speaks one JSON object per
-- line on its standard input and output. This library models the parts of it that decide something.
--
-- The client's commands come in as lines (internal/protocol), the bridge (internal/wa) checks each
-- against its state, the session store (internal/store) and its two backstops, and hands it to
-- whatsmeow; the messages that whatsmeow reports go back as events, the history among them in
-- batches under a window of acknowledgements (internal/history). Whatever whatsmeow connects to goes
-- through one guarded transport (internal/transport).
--
-- Which file models what:
--   Protocol/Events     internal/protocol/events.go: the payloads and error codes the rest uses.
--   Protocol/Text       internal/protocol/commands.go: the patterns of JIDs, ids and MIME types.
--   Protocol/Commands   the same file: the payloads, the ceilings, VideoBytes and the like.
--   Protocol/Validate   the same file: validate, validQuote, cleanAbs, WaveformBytes.
--   Protocol/Surrogates the same file, loneSurrogate; the index is a count of bytes to pass over.
--   Protocol/Fields     the same file: commandSpecs, checkFields, DecodeCommand; encoding/json, and
--                       objectFields with it, is an argument.
--   Protocol/Lines      internal/protocol/envelope.go, LineReader; the stream is the list of slices that
--                       bufio.Reader answers with.
--   Protocol/Ulid       the same file, IDSource.New; the random bytes are an argument.
--   Protocol/Writer     the same file, Writer: Encode, emit, Quiesce; encoding/json and a write that fails
--                       are arguments.
--   History/Window      internal/history/history.go, Window: Acquire, Ack, Reset, Outstanding. Each
--                       method runs under one lock, so an interleaving of goroutines is a list of calls.
--   History/Caps        the same file, Caps.Filter; the map of counts is a function.
--   History/Split       the same file, Split; the sizes of the encoded messages are an argument.
--   Wa/Backstop         internal/wa/commands.go: backstopAllows, clampSends, recordSend, pinAllowed.
--                       A time is a number of nanoseconds.
--   Wa/Lru              the same file, lru: newLRU, put, get; the list of entries and the set of keys.
--   Wa/Send             the same file: ready, beginSend, deliver, contextInfo, sendText, setPin on a
--                       record of the bridge; what they find outside of it is a record World.
--   Wa/MarkRead         the same file, markRead on the same record.
--   Wa/Lifecycle        internal/wa/bridge.go: the record Engine, doInit, install, connect, goSafe,
--                       loggedOutBy. Stop has Stop, Pair the operations of internal/wa/pairing.go,
--                       Codes its cycleCodes, Handle has Handle and the part of onEvent that changes the engine.
--   Wa/Steps            the relation of all of these in any order. A step is an operation up to the
--                       status lines that its changeState leaves behind, which are steps of their own;
--                       Stop is four, and the answer to shutdown of cmd/voolo-whatsapp-bridge/run.go
--                       one more. Moves takes each operation apart into a few moves, Contract is what
--                       stdout and the exit code promise.
--   Wa/Live             internal/wa/events.go on a record Live of what was reported: Jid has userJID, Chats
--                       chatJID, alias, markReported, ensureChat and the contacts, Incoming toMessage,
--                       Messages onMessage and onUndecryptable, Receipts onReceipt and chatUpdate, Groups
--                       joinedGroup. A JID
--                       is any type with the operations of types.JID; the client's answers to an event
--                       and the disk's are arguments. Moves and Once are like Wa/Steps; Once has the steps
--                       of historyConversation that report chats, too.
--   Wa/Fetch            internal/wa/commands.go: fetchMedia and voiceDuration; the answer of
--                       DownloadMediaWithPath is an argument.
--   Wa/Delivery         internal/wa/historysync.go: the batches of one conversation, which puts
--                       History/Caps, Split and Window together.
--   Media               internal/media/media.go: Limits has CheckFetch and the ceilings, Ogg
--                       OggDurationSeconds, Handoff Seal, Open and Discard. The cipher, the hash,
--                       hexadecimal and filepath are a record Library.
--   Store               internal/store/store.go. Tables has the rows and the life of the store, Outbox,
--                       Media and Chats the methods on each table. A table is the list of its rows, what
--                       a statement does is read off its SQL, and whether it fails is an argument.
--   Transport/Hosts     internal/transport/allowlist.go: HostAllowed. A name is the list of its bytes.
--   Transport/Ip        the same file, PublicIP; an address is a number of 32 or of 128 bits.
--   Transport/Dial      the same file, Guard, Resolve, CheckRedirect; the resolver and the dialer are
--                       arguments, and a dial answers with the addresses that it dialed.
--   Transport/Limit     internal/transport/limit.go; the body the server sends is a record Source that
--                       says what io.Reader promises.
--   Log/Scrub           internal/logx/logx.go: secretLike and ScrubCode.
--   Common              shared helpers; Examples has the concrete runs.
--
-- Numbers are natural numbers. The counts and sizes are far below the range of the source's int64;
-- truncated subtraction is used only where the source clamps at 0 or a lower value decides the same,
-- which the file says. The loops are recursions over lists and need no fuel, but for two:
-- that of onReceipt has the number of its ids as fuel, of which every round takes one or more, and that
-- of OggDurationSeconds the number of bytes, of which every page takes 27 or more.
--
-- Not modelled: the JSON encoding of the protocol, the rest of the log, the command line and its
-- signals, the conversion of whatsmeow's protobuf messages (ContentOf), the metadata of groups,
-- runPairing, the queue of history notifications, stale media files, SQLite and the file system,
-- whatsmeow itself.

pub mod Common
pub mod Examples
pub mod History
pub mod Protocol
pub mod Log
pub mod Media
pub mod Store
pub mod Transport
pub mod Wa
