-- ===== src/Examples/TransportRuns.antt =====
-- Runs of internal/transport: names and addresses, a guarded dial, and a limited body.
use voolo_whatsapp_bridge.Common.{
  ℕ, ◌≤◌, ◌<◌, ◌≡◌, ◌≢◌, ◌↔◌, ◌⊎◌, refl, Bool, true, false, List, [], ◌∷◌, ◌++◌, Option, none, some,
  length, take, drop, length-take, zero, suc, arith, All,
}
use voolo_whatsapp_bridge.Common.Sort.{take-append-drop}
use voolo_whatsapp_bridge.Transport.Ip.{
  contains, nat64, six_to_four, quad, addr_from_slice, in_any, public_addr, public_v4, public_ip,
}
use voolo_whatsapp_bridge.Transport.Ip.Ranges.{IsGlobal4, public_v4-IsGlobal4}
use voolo_whatsapp_bridge.Transport.Hosts.{normal, trim_brackets, host_allowed}
use voolo_whatsapp_bridge.Transport.Hosts.Allowed.{OnList, host_allowed-OnList}
use voolo_whatsapp_bridge.Transport.Dial.{
  Network, tcp, other, Dialed, conn, skipped, addr_allowed, guarded_dial,
}
use voolo_whatsapp_bridge.Transport.Dial.Guarded.{MayDial, guarded_dial-MayDial}
use voolo_whatsapp_bridge.Transport.Limit.{
  Status, fine, eof, body_too_large, Chunk, Source, limited, round_trip, read_all,
}
use voolo_whatsapp_bridge.Transport.Limit.Laws.{read_all-limited, round_trip-limited}

v4_example : (public_v4 (quad 157 240 1 60) ≡ true) ↔ IsGlobal4 (quad 157 240 1 60)
v4_example = public_v4-IsGlobal4 (quad 157 240 1 60) (omega arith)

abbrev facebook : ℕ
facebook = 0x2a03_2880_0000_0000_0000_0000_0000_0001

not_nat64 : contains 128 nat64 facebook ≡ false
not_nat64 = refl

not_six_to_four : contains 128 six_to_four facebook ≡ false
not_six_to_four = refl

-- "g.WhatsApp.net."
abbrev media_host : List ℕ
media_host =
    b'g' ∷ b'.' ∷ b'W' ∷ b'h' ∷ b'a' ∷ b't' ∷ b's' ∷ b'A' ∷ b'p' ∷ b'p' ∷ b'.' ∷ b'n' ∷ b'e' ∷ b't'
    ∷ b'.' ∷ []

abbrev keep_other : ℕ → ℕ
keep_other c = c

abbrev no_ip : List ℕ → Bool
no_ip h = false

host_example : (host_allowed keep_other no_ip media_host ≡ true) ↔ (
    (no_ip (trim_brackets (normal keep_other no_ip media_host)) ≡ false)
    × OnList (normal keep_other no_ip media_host))
host_example = host_allowed-OnList keep_other no_ip media_host

-- A resolver that answers with an address of the local network and a public one, and a dialer that
-- always connects.
abbrev answers : List (List ℕ)
answers = (10 ∷ 0 ∷ 0 ∷ 1 ∷ []) ∷ (157 ∷ 240 ∷ 1 ∷ 60 ∷ []) ∷ []

abbrev resolver : List ℕ → Option (List (List ℕ))
resolver host = some answers

abbrev splits : List ℕ → Option (List ℕ × List ℕ)
splits addr = some (addr, b'4' ∷ b'4' ∷ b'3' ∷ [])

abbrev connects : Network → List ℕ → List ℕ → Dialed ℕ ℕ
connects network ip port = conn 7

dial_example :
    let t = guarded_dial connects splits resolver 0 keep_other no_ip tcp media_host in
    All (MayDial connects tcp) t.dialed
    × ((t.dialed ≡ []) ⊎ ((tcp ≢ other) × (addr_allowed splits keep_other no_ip media_host ≡ true)))
dial_example = guarded_dial-MayDial connects splits resolver 0 keep_other no_ip tcp media_host

abbrev local_only : List (List ℕ)
local_only = (10 ∷ 0 ∷ 0 ∷ 1 ∷ []) ∷ (127 ∷ 0 ∷ 0 ∷ 1 ∷ []) ∷ []

local_only-skipped : All (λ ip. skipped tcp ip ≡ true) local_only
unfolding public_ip addr_from_slice public_addr public_v4 in_any
local_only-skipped = (refl, (refl, tt))

-- A stream in memory: a Read answers with what fits, and with io.EOF once nothing is left.
abbrev status_of : List ℕ → Status
status_of [] = eof
status_of (x ∷ xs) = fine

abbrev read_bytes : ℕ → List ℕ → Chunk × List ℕ
read_bytes n r = (record { bytes = take n r; status = status_of r }, drop n r)

length-taken : (n : ℕ) (r : List ℕ) → length (take n r) ≤ n
length-taken n r = omega (arith, length-take {0} n r)

nothing_left : (n : ℕ) (r : List ℕ) → status_of r ≡ eof → drop n r ≡ []
nothing_left zero [] e = refl
nothing_left (suc n) [] e = refl
nothing_left n (x ∷ xs) e = ground arith

not_too_large : (r : List ℕ) → status_of r ≢ body_too_large
not_too_large [] e = cc
not_too_large (x ∷ xs) e = cc

abbrev memory : Source
memory = record {
  Reader = List ℕ;
  read = read_bytes;
  rest = λ r. r;
  at_most = length-taken;
  in_order = λ n r. take-append-drop {0} n r;
  eof_at_end = nothing_left;
  own_errors = λ n r. not_too_large r;
}

abbrev hello : List ℕ
hello = 104 ∷ 101 ∷ 108 ∷ 108 ∷ 111 ∷ []

read_example :
    let (out, e) = read_all memory (2 ∷ 2 ∷ 2 ∷ 2 ∷ []) (limited hello 4) in
    (length out ≤ 4)
    × ((more : List ℕ) × (out ++ more ≡ hello))
    × (e ≡ eof → out ≡ hello)
    × (e ≡ body_too_large → 4 < length hello)
read_example = read_all-limited memory (2 ∷ 2 ∷ 2 ∷ 2 ∷ []) hello 4

-- No declared length.
abbrev absent : Option ℕ
absent = none

round_trip_example :
    let (out, e) = read_all memory (2 ∷ 2 ∷ 2 ∷ 2 ∷ []) (round_trip memory (some 4) absent hello) in
    (4 < length hello → (e ≢ eof) × (length out ≤ 4))
    × (length hello ≤ 4 → (absent ≡ none) ⊎ (absent ≡ some (length hello)) → e ≢ body_too_large)
round_trip_example = round_trip-limited memory 4 absent hello (2 ∷ 2 ∷ 2 ∷ 2 ∷ [])
