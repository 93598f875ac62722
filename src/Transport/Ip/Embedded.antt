-- ===== src/Transport/Ip/Embedded.antt =====
-- IPv4 addresses inside IPv6 addresses, as PublicIP (internal/transport/allowlist.go) judges them.
use voolo_whatsapp_bridge.Common.{
  ℕ, ◌+◌, ◌*◌, ◌/◌, ◌^◌, ◌<◌, ◌≡◌, ◌⊎◌, refl, ap, true, false, [], ◌∷◌, ◌==◌, ◌∙◌, All, arith,
}
use voolo_whatsapp_bridge.Transport.Ip.{
  quad, number, addr_from_slice, unmap, public_v4, public_v6, public_addr, public_ip, nat64,
  six_to_four, v4,
}

is : (a b : ℕ) → a ≡ b → (a == b) ≡ true
is a b h = ground arith

is_not : (a b : ℕ) → (a < b) ⊎ (b < a) → (a == b) ≡ false
is_not a b h = ground arith

same_v4 : (a b : ℕ) → a ≡ b → public_v4 a ≡ public_v4 b
same_v4 a b h = ap public_v4 h

same_addr : (m n : ℕ) → m ≡ n → public_addr (unmap m) ≡ public_addr (unmap n)
same_addr m n h = ap (λ k. public_addr (unmap k)) h

public_mapped : (q : ℕ) → q < 2 ^ 32 → public_addr (unmap (0xffff * 2 ^ 32 + q)) ≡ public_v4 q
unfolding public_addr unmap
public_mapped q h =
    rw (is ((0xffff * 2 ^ 32 + q) / 2 ^ 32) 0xffff (omega arith)) (same_v4 _ _ (omega arith))

public_nat64 : (q : ℕ) → q < 2 ^ 32 → public_addr (unmap (0x64ff9b * 2 ^ 96 + q)) ≡ public_v4 q
unfolding public_addr unmap public_v6
public_nat64 q h =
    rw
      (
        is_not ((0x64ff9b * 2 ^ 96 + q) / 2 ^ 32) 0xffff (omega arith),
        is ((0x64ff9b * 2 ^ 96 + q) / 2 ^ 32) (nat64.0 / 2 ^ 32) (omega arith),
      )
      (same_v4 _ _ (omega arith))

public_six_to_four :
    (q r : ℕ)
    → q < 2 ^ 32
    → r < 2 ^ 80
    → public_addr (unmap (0x2002 * 2 ^ 112 + q * 2 ^ 80 + r)) ≡ public_v4 q
unfolding public_addr unmap public_v6
public_six_to_four q r h k =
    rw
      (
        is_not ((0x2002 * 2 ^ 112 + q * 2 ^ 80 + r) / 2 ^ 32) 0xffff (omega arith),
        is_not ((0x2002 * 2 ^ 112 + q * 2 ^ 80 + r) / 2 ^ 32) (nat64.0 / 2 ^ 32) (omega arith),
        is ((0x2002 * 2 ^ 112 + q * 2 ^ 80 + r) / 2 ^ 112) (six_to_four.0 / 2 ^ 112) (omega arith),
      )
      (same_v4 _ _ (omega arith))

v4_itself : (q : ℕ) → public_v4 q ≡ public_addr (v4 q)
unfolding public_addr
v4_itself q = refl

abbrev pub IsByte : ℕ → Type 0
IsByte b = b < 256

-- An IPv4 address written as an IPv4-mapped or a NAT64 address is judged as it is by itself, so
-- neither form makes an address of the local network public.
pub public_ip-embedded :
    (a b c d : ℕ)
    → IsByte a
    → IsByte b
    → IsByte c
    → IsByte d
    → (public_ip (0 ∷ 0 ∷ 0 ∷ 0 ∷ 0 ∷ 0 ∷ 0 ∷ 0 ∷ 0 ∷ 0 ∷ 255 ∷ 255 ∷ a ∷ b ∷ c ∷ d ∷ [])
        ≡ public_ip (a ∷ b ∷ c ∷ d ∷ []))
      × (public_ip (0 ∷ 0x64 ∷ 0xff ∷ 0x9b ∷ 0 ∷ 0 ∷ 0 ∷ 0 ∷ 0 ∷ 0 ∷ 0 ∷ 0 ∷ a ∷ b ∷ c ∷ d ∷ [])
          ≡ public_ip (a ∷ b ∷ c ∷ d ∷ []))
unfolding public_ip addr_from_slice number
public_ip-embedded a b c d ha hb hc hd = (
  same_addr _ (0xffff * 2 ^ 32 + quad a b c d) (omega arith)
      ∙ public_mapped (quad a b c d) (omega arith)
      ∙ v4_itself (quad a b c d),
  same_addr _ (0x64ff9b * 2 ^ 96 + quad a b c d) (omega arith)
      ∙ public_nat64 (quad a b c d) (omega arith)
      ∙ v4_itself (quad a b c d),
)

-- A 6to4 address is judged by the IPv4 address in its bytes 2 to 5, whatever follows.
pub public_ip_six_to_four :
    (a b c d e f g h i j k l m n : ℕ)
    → All IsByte (a ∷ b ∷ c ∷ d ∷ e ∷ f ∷ g ∷ h ∷ i ∷ j ∷ k ∷ l ∷ m ∷ n ∷ [])
    → public_ip (0x20 ∷ 0x02 ∷ a ∷ b ∷ c ∷ d ∷ e ∷ f ∷ g ∷ h ∷ i ∷ j ∷ k ∷ l ∷ m ∷ n ∷ [])
      ≡ public_ip (a ∷ b ∷ c ∷ d ∷ [])
unfolding public_ip addr_from_slice number
public_ip_six_to_four a b c d e f g h i j k l m n hs =
    let low = number 0 (e ∷ f ∷ g ∷ h ∷ i ∷ j ∷ k ∷ l ∷ m ∷ n ∷ []) in
    same_addr _ (0x2002 * 2 ^ 112 + quad a b c d * 2 ^ 80 + low) (omega arith)
    ∙ public_six_to_four (quad a b c d) low (omega arith) (omega arith)
    ∙ v4_itself (quad a b c d)
