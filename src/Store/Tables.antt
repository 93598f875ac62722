-- ===== src/Store/Tables.antt =====
-- internal/store/store.go: the rows of the three tables, and the store as its methods see it.
-- A table is the list of its rows, that with the greatest rowid first. SQLite itself and the disk are
-- not modelled: what a statement does is read off its SQL, and whether it fails is an argument of
-- the method that runs it.
use Prim.Native.String.{String}
use voolo_whatsapp_bridge.Common.{
  ℕ, Bool, true, false, List, [], ◌∷◌, Option, if◌then◌else◌, by_test, by_test_false, ◌≡◌,
}

-- voolo_sent.
pub record Sent : Type 0 where
  pub outbox_id : String
  pub message_id : Option String
  pub created_at : ℕ
  pub dispatched_at : Option ℕ

-- MediaDesc and voolo_media.
pub record MediaDesc : Type 0 where
  pub chat_jid : String
  pub message_id : String
  pub kind : String
  pub mime : String
  pub size_bytes : ℕ
  pub duration_s : ℕ
  pub direct_path : String
  pub media_key : List ℕ
  pub file_sha256 : List ℕ
  pub file_enc_sha256 : List ℕ
  pub msg_ts : ℕ

-- voolo_chats: a JID, and whether it is a @lid chat that waits for its alias.
abbrev pub ChatRow : Type 0
ChatRow = String × Bool

-- Store: the flag of Close and Wipe, whether the lock is held, and the tables of the open database.
pub record Store : Type 0 where
  pub closed : Bool
  pub locked : Bool
  pub sent : List Sent
  pub media : List MediaDesc
  pub chats : List ChatRow

-- How a method ends: with a value, with ErrClosed or with an IOError.
pub data Result {ℓ} (A : Type ℓ) : Type ℓ where
  ok : A → Result A
  err_closed : Result A
  io_error : Result A

-- use: a method of a closed store does nothing and returns ErrClosed.
abbrev pub use_store {ℓ} : {A : Type ℓ} → (Store → Result A × Store) → Store → Result A × Store
use_store method s = if s.closed then (err_closed, s) else method s

-- Close: the error of the container, if any. A second Close changes nothing.
unfoldable pub close : Bool → Store → Result (Unit {0}) × Store
close container_fails s = (
  if s.closed then ok tt else (if container_fails then io_error else ok tt),
  record s { closed = true; locked = false },
)

-- How the removal of one file ends.
pub data Removal : Type 0 where
  removed absent remove_failed : Removal

-- The loop of Wipe over the database file and its companions: the first error that counts.
unfoldable pub first_error : List Removal → Result (Unit {0})
first_error [] = ok tt
first_error (remove_failed ∷ rs) = io_error
first_error (r ∷ rs) = first_error rs

-- The files in the order in which Wipe removes them: the database and what SQLite keeps beside it.
pub record Removals : Type 0 where
  pub database : Removal
  pub wal : Removal
  pub shm : Removal
  pub journal : Removal

-- The rows are gone with the database file, and stay when it cannot be removed.
abbrev pub without_file : Removal → Store → Store
without_file remove_failed s = s
without_file r s = record s { sent = []; media = []; chats = [] }

-- Wipe.
unfoldable pub wipe : Removals → Store → Result (Unit {0}) × Store
unfolding first_error
wipe r s = (
  first_error (r.database ∷ r.wal ∷ r.shm ∷ r.journal ∷ []),
  without_file r.database (record s { closed = true; locked = false }),
)

-- What holds of a refusal and of the method holds of the method of any store.
pub use_store_cases {ℓ κ} :
    {A : Type ℓ} (P : Result A × Store → Type κ) (method : Store → Result A × Store) (s : Store)
    → P (err_closed, s)
    → P (method s)
    → P (use_store method s)
use_store_cases P method s refused done = by_test P s.closed (λ e. refused) (λ e. done)

-- An open store runs the method.
pub use_store_open {ℓ} :
    {A : Type ℓ} (method : Store → Result A × Store) (s : Store)
    → s.closed ≡ false
    → use_store method s ≡ method s
use_store_open method s o = by_test_false s.closed _ _ o
