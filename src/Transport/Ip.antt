-- ===== src/Transport/Ip.antt =====
-- internal/transport/allowlist.go: the addresses that may be dialed.
-- A net.IP is a list of bytes; a netip.Addr is the number that its bytes write, big-endian, and
-- `p.Contains(a)` compares the leading bits.
pub mod Ranges
pub mod Embedded
use voolo_whatsapp_bridge.Common.{
  ℕ, ◌+◌, ◌-◌, ◌*◌, ◌/◌, ◌%◌, ◌^◌, Bool, true, false, not, ◌&&◌, List, [], ◌∷◌, Option, none, some,
  ◌==◌, if◌then◌else◌,
}

-- netip.Prefix: an address and the number of its leading bits that count.
abbrev pub Prefix : Type 0
Prefix = ℕ × ℕ

-- netip.Addr, after Unmap.
pub data Addr : Type 0 where
  v4 : ℕ → Addr
  v6 : ℕ → Addr

-- Contains, for addresses of `width` bits.
abbrev pub contains : ℕ → Prefix → ℕ → Bool
contains width (p, bits) a = a / 2 ^ (width - bits) == p / 2 ^ (width - bits)

unfoldable pub in_any : ℕ → ℕ → List Prefix → Bool
in_any width a [] = false
in_any width a (p ∷ ps) = let rest = in_any width a ps in if contains width p a then true else rest

-- Four bytes.
abbrev pub quad : ℕ → ℕ → ℕ → ℕ → ℕ
quad a b c d = ((a * 256 + b) * 256 + c) * 256 + d

-- deniedV4.
abbrev pub denied_v4 : List Prefix
denied_v4 =
    (quad 0 0 0 0, 8)
    ∷ (quad 10 0 0 0, 8)
    ∷ (quad 100 64 0 0, 10)
    ∷ (quad 127 0 0 0, 8)
    ∷ (quad 169 254 0 0, 16)
    ∷ (quad 172 16 0 0, 12)
    ∷ (quad 192 0 0 0, 24)
    ∷ (quad 192 0 2 0, 24)
    ∷ (quad 192 168 0 0, 16)
    ∷ (quad 198 18 0 0, 15)
    ∷ (quad 198 51 100 0, 24)
    ∷ (quad 203 0 113 0, 24)
    ∷ (quad 224 0 0 0, 4)
    ∷ (quad 240 0 0 0, 4)
    ∷ []

-- deniedV6, global6, nat64 and sixToFour.
abbrev pub denied_v6 : List Prefix
denied_v6 =
    (0x2001_0000_0000_0000_0000_0000_0000_0000, 23)
    ∷ (0x2001_0db8_0000_0000_0000_0000_0000_0000, 32)
    ∷ []

abbrev pub global6 : Prefix
global6 = (0x2000_0000_0000_0000_0000_0000_0000_0000, 3)

abbrev pub nat64 : Prefix
nat64 = (0x0064_ff9b_0000_0000_0000_0000_0000_0000, 96)

abbrev pub six_to_four : Prefix
six_to_four = (0x2002_0000_0000_0000_0000_0000_0000_0000, 16)

-- The number that some bytes write after the number of the bytes before them.
unfoldable pub number : ℕ → List ℕ → ℕ
number n [] = n
number n (b ∷ bs) = number (n * 256 + b) bs

-- netip.AddrFromSlice and Unmap: an IPv4-mapped address is the IPv4 address.
unfoldable pub unmap : ℕ → Addr
unmap n = if n / 2 ^ 32 == 0xffff then v4 (n % 2 ^ 32) else v6 n

unfoldable pub addr_from_slice : List ℕ → Option Addr
addr_from_slice (a ∷ b ∷ c ∷ d ∷ []) = some (v4 (quad a b c d))
addr_from_slice (a ∷ b ∷ c ∷ d ∷ e ∷ f ∷ g ∷ h ∷ i ∷ j ∷ k ∷ l ∷ m ∷ n ∷ o ∷ p ∷ []) =
    some (unmap (number 0 (a ∷ b ∷ c ∷ d ∷ e ∷ f ∷ g ∷ h ∷ i ∷ j ∷ k ∷ l ∷ m ∷ n ∷ o ∷ p ∷ [])))
addr_from_slice _ = none

unfoldable pub public_v4 : ℕ → Bool
public_v4 a = not (in_any 32 a denied_v4)

-- The switch of PublicIP: the IPv4 address inside a NAT64 address is its last four bytes, that
-- inside a 6to4 address its bytes 2 to 5.
unfoldable pub public_v6 : ℕ → Bool
public_v6 n =
    if contains 128 nat64 n
    then public_v4 (n % 2 ^ 32)
    else (if contains 128 six_to_four n
        then public_v4 (n / 2 ^ 80 % 2 ^ 32)
        else contains 128 global6 n && not (in_any 128 n denied_v6))

unfoldable pub public_addr : Addr → Bool
public_addr (v4 a) = public_v4 a
public_addr (v6 n) = public_v6 n

-- PublicIP.
unfoldable pub public_ip : List ℕ → Bool
public_ip ip = elim (addr_from_slice ip) [ none ↦ false | some a ↦ public_addr a ]
