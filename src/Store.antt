-- ===== src/Store.antt =====
-- internal/store: the tables of the bridge inside the encrypted session store.
pub mod Tables
pub mod Outbox
pub mod Media
pub mod Chats
