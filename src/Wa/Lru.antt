-- ===== src/Wa/Lru.antt =====
-- internal/wa/commands.go, type lru: the bounded map from a message to its sender.
-- `ll` is the linked list of entries, front first, and `m` tells the keys that the map has an
-- element for; an element of the map is the one of the list that holds its key.
pub mod Entries
pub mod Laws
use Prim.Native.String.{String}
use text.Mathlib.Text.{◌==◌ as str_eq}
use voolo_whatsapp_bridge.Common.{
  ℕ, Bool, true, false, List, [], ◌∷◌, Option, none, some, length, ltb, if◌then◌else◌,
}

-- lruEntry.
abbrev pub Entry : Type 0
Entry = String × String

-- lru.
pub record Lru : Type 0 where
  pub max : ℕ
  pub ll : List Entry
  pub m : String → Bool

-- newLRU.
unfoldable pub new_lru : ℕ → Lru
new_lru max = record { max = max; ll = []; m = λ _. false }

-- A set of keys with one added or deleted.
unfoldable pub mark : (String → Bool) → String → Bool → String → Bool
mark m k b j = if str_eq j k then b else m j

-- The value of the element that holds a key.
unfoldable pub value_of : String → List Entry → Option String
value_of k [] = none
value_of k ((j, v) ∷ es) = let rest = value_of k es in if str_eq j k then some v else rest

-- The list without the element that holds a key.
unfoldable pub without : String → List Entry → List Entry
without k [] = []
without k ((j, v) ∷ es) = let rest = without k es in if str_eq j k then es else (j, v) ∷ rest

-- ll.MoveToFront of the element that holds a key.
abbrev pub to_front : String → List Entry → List Entry
to_front k es = elim (value_of k es) [ none ↦ es | some v ↦ (k, v) ∷ without k es ]

-- ll.Back.
unfoldable pub back : List Entry → Option Entry
back [] = none
back (e ∷ []) = some e
back (e ∷ d ∷ es) = back (d ∷ es)

-- The list without its back element.
unfoldable pub but_back : List Entry → List Entry
but_back [] = []
but_back (e ∷ []) = []
but_back (e ∷ d ∷ es) = e ∷ but_back (d ∷ es)

-- The eviction in put.
unfoldable pub evict : Lru → Lru
unfolding mark back but_back
evict l = elim (back l.ll) [
  | none ↦ l
  | some (k, v) ↦ record l { ll = but_back l.ll; m = mark l.m k false }
]

unfoldable pub put : String → String → Lru → Lru
unfolding mark without evict
put k v l =
    if l.m k
    then record l { ll = (k, v) ∷ without k l.ll }
    else (let pushed : Lru = record l { ll = (k, v) ∷ l.ll; m = mark l.m k true } in
        if ltb l.max (length pushed.ll) then evict pushed else pushed)

unfoldable pub get : String → Lru → Option String × Lru
unfolding value_of without
get k l = if l.m k then (value_of k l.ll, record l { ll = to_front k l.ll }) else (none, l)
