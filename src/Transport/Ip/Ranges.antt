-- ===== src/Transport/Ip/Ranges.antt =====
-- PublicIP (internal/transport/allowlist.go) in plain ranges of numbers.
use voolo_whatsapp_bridge.Common.{
  ℕ, ◌^◌, ◌≤◌, ◌<◌, ◌≡◌, ◌↔◌, ◌⊎◌, inl, inr, refl, true, false, List, [], ◌∷◌, ◌==◌, arith,
  Bool-cases, ==→eq, All,
}
use voolo_whatsapp_bridge.Transport.Ip.{
  Prefix, quad, contains, in_any, denied_v4, denied_v6, public_v4, public_v6, global6, nat64,
  six_to_four,
}

-- a lies from lo to hi.
abbrev pub Between : ℕ → ℕ → ℕ → Type 0
Between lo hi a = (lo ≤ a) × (a ≤ hi)

-- Outside the special-purpose IPv4 addresses: "this network", the private blocks, shared, loopback,
-- link-local, the protocol, documentation and benchmarking blocks, multicast and reserved.
pub record IsGlobal4 (a : ℕ) : Type 0 where
  pub this_network : quad 0 255 255 255 < a
  pub private_10 : (a < quad 10 0 0 0) ⊎ (quad 10 255 255 255 < a)
  pub shared : (a < quad 100 64 0 0) ⊎ (quad 100 127 255 255 < a)
  pub loopback : (a < quad 127 0 0 0) ⊎ (quad 127 255 255 255 < a)
  pub link_local : (a < quad 169 254 0 0) ⊎ (quad 169 254 255 255 < a)
  pub private_172 : (a < quad 172 16 0 0) ⊎ (quad 172 31 255 255 < a)
  pub protocol : (a < quad 192 0 0 0) ⊎ (quad 192 0 0 255 < a)
  pub test_net_1 : (a < quad 192 0 2 0) ⊎ (quad 192 0 2 255 < a)
  pub private_192 : (a < quad 192 168 0 0) ⊎ (quad 192 168 255 255 < a)
  pub benchmarking : (a < quad 198 18 0 0) ⊎ (quad 198 19 255 255 < a)
  pub test_net_2 : (a < quad 198 51 100 0) ⊎ (quad 198 51 100 255 < a)
  pub test_net_3 : (a < quad 203 0 113 0) ⊎ (quad 203 0 113 255 < a)
  pub multicast_reserved : a < quad 224 0 0 0

in_any-All :
    (width a : ℕ) (ps : List Prefix)
    → in_any width a ps ≡ false
    → All (λ p. contains width p a ≡ false) ps
unfolding in_any
in_any-All width a [] h = tt
in_any-All width a (p ∷ ps) h = elim (Bool-cases (contains width p a)) [
  | inl e ↦ ground arith
  | inr e ↦ (e, in_any-All width a ps (ground arith))
]

All-in_any :
    (width a : ℕ) (ps : List Prefix)
    → All (λ p. contains width p a ≡ false) ps
    → in_any width a ps ≡ false
unfolding in_any
All-in_any width a [] h = refl
All-in_any width a (p ∷ ps) h = rw h.0 (All-in_any width a ps h.1)

ne : (a b : ℕ) → (a == b) ≡ false → (a < b) ⊎ (b < a)
ne a b h = ground arith

eq_true : (a b : ℕ) → a ≡ b → (a == b) ≡ true
eq_true a b h = ground arith

eq_false : (a b : ℕ) → (a < b) ⊎ (b < a) → (a == b) ≡ false
eq_false a b h = ground arith

judged_global : (a : ℕ) → a < 2 ^ 32 → public_v4 a ≡ true → IsGlobal4 a
unfolding public_v4
judged_global a h e = record {
  this_network = omega (arith, ne _ _ f.0);
  private_10 = omega (arith, ne _ _ f.1.0);
  shared = omega (arith, ne _ _ f.1.1.0);
  loopback = omega (arith, ne _ _ f.1.1.1.0);
  link_local = omega (arith, ne _ _ f.1.1.1.1.0);
  private_172 = omega (arith, ne _ _ f.1.1.1.1.1.0);
  protocol = omega (arith, ne _ _ f.1.1.1.1.1.1.0);
  test_net_1 = omega (arith, ne _ _ f.1.1.1.1.1.1.1.0);
  private_192 = omega (arith, ne _ _ f.1.1.1.1.1.1.1.1.0);
  benchmarking = omega (arith, ne _ _ f.1.1.1.1.1.1.1.1.1.0);
  test_net_2 = omega (arith, ne _ _ f.1.1.1.1.1.1.1.1.1.1.0);
  test_net_3 = omega (arith, ne _ _ f.1.1.1.1.1.1.1.1.1.1.1.0);
  multicast_reserved =
      omega (arith, ne _ _ f.1.1.1.1.1.1.1.1.1.1.1.1.0, ne _ _ f.1.1.1.1.1.1.1.1.1.1.1.1.1.0);
}
  where
    f : All (λ p. contains 32 p a ≡ false) denied_v4
    f = in_any-All 32 a denied_v4 (ground arith)

global_judged : (a : ℕ) → IsGlobal4 a → public_v4 a ≡ true
unfolding public_v4
global_judged a g = rw (
    All-in_any 32 a denied_v4 (
      eq_false _ _ (omega (arith, g.this_network)),
      (
        eq_false _ _ (omega (arith, g.private_10)),
        (
          eq_false _ _ (omega (arith, g.shared)),
          (
            eq_false _ _ (omega (arith, g.loopback)),
            (
              eq_false _ _ (omega (arith, g.link_local)),
              (
                eq_false _ _ (omega (arith, g.private_172)),
                (
                  eq_false _ _ (omega (arith, g.protocol)),
                  (
                    eq_false _ _ (omega (arith, g.test_net_1)),
                    (
                      eq_false _ _ (omega (arith, g.private_192)),
                      (
                        eq_false _ _ (omega (arith, g.benchmarking)),
                        (
                          eq_false _ _ (omega (arith, g.test_net_2)),
                          (
                            eq_false _ _ (omega (arith, g.test_net_3)),
                            (
                              eq_false _ _ (omega (arith, g.multicast_reserved)),
                              (eq_false _ _ (omega (arith, g.multicast_reserved)), tt),
                            ),
                          ),
                        ),
                      ),
                    ),
                  ),
                ),
              ),
            ),
          ),
        ),
      ),
    ))

-- An IPv4 address is judged public exactly when it lies in none of the special-purpose blocks.
pub public_v4-IsGlobal4 : (a : ℕ) → a < 2 ^ 32 → (public_v4 a ≡ true) ↔ IsGlobal4 a
public_v4-IsGlobal4 a h = (judged_global a h, global_judged a)

-- The global unicast addresses but the protocol assignments and the documentation block.
pub record IsGlobal6 (n : ℕ) : Type 0 where
  pub first : 0x2000_0000_0000_0000_0000_0000_0000_0000 ≤ n
  pub last : n ≤ 0x3fff_ffff_ffff_ffff_ffff_ffff_ffff_ffff
  pub assignments :
      (n < 0x2001_0000_0000_0000_0000_0000_0000_0000)
      ⊎ (0x2001_01ff_ffff_ffff_ffff_ffff_ffff_ffff < n)
  pub documentation :
      (n < 0x2001_0db8_0000_0000_0000_0000_0000_0000)
      ⊎ (0x2001_0db8_ffff_ffff_ffff_ffff_ffff_ffff < n)

judged_global6 :
    (n : ℕ) → contains 128 global6 n ≡ true → in_any 128 n denied_v6 ≡ false → IsGlobal6 n
judged_global6 n g e = record {
  first = omega (arith, ==→eq _ _ g);
  last = omega (arith, ==→eq _ _ g);
  assignments = omega (arith, ne _ _ f.0);
  documentation = omega (arith, ne _ _ f.1.0);
}
  where
    f : All (λ p. contains 128 p n ≡ false) denied_v6
    f = in_any-All 128 n denied_v6 e

global_judged6 :
    (n : ℕ) → IsGlobal6 n → (contains 128 global6 n ≡ true) × (in_any 128 n denied_v6 ≡ false)
global_judged6 n g = (
  eq_true _ _ (omega (arith, g.first, g.last)),
  All-in_any 128 n denied_v6 (
    eq_false _ _ (omega (arith, g.assignments)),
    (eq_false _ _ (omega (arith, g.documentation)), tt),
  ),
)

-- An IPv6 address that holds no IPv4 address is judged public exactly when it is global unicast
-- outside the two blocks.
pub public_v6-IsGlobal6 :
    (n : ℕ)
    → contains 128 nat64 n ≡ false
    → contains 128 six_to_four n ≡ false
    → (public_v6 n ≡ true) ↔ IsGlobal6 n
unfolding public_v6
public_v6-IsGlobal6 n h k =
    rw (h, k)
      (
        (λ e. judged_global6 n (ground arith) (ground arith)),
        λ g. let (a, b) = global_judged6 n g in rw (a, b),
      )
