-- ===== src/Transport/Dial.antt =====
-- internal/transport/allowlist.go: Guard, Resolve and CheckRedirect.
-- What is not in the repository comes as arguments: net.SplitHostPort, the resolver and the dialer.
-- The answer of a dial says which addresses were dialed, in order, and how often onBlock was called.
pub mod Guarded
use voolo_whatsapp_bridge.Common.{
  ℕ, suc, ◌+◌, Bool, true, false, not, ◌&&◌, ◌||◌, List, [], ◌∷◌, Option, none, some, length, ltb,
  leb, ◌==◌, if◌then◌else◌,
}
use voolo_whatsapp_bridge.Transport.Hosts.{same, host_allowed}
use voolo_whatsapp_bridge.Transport.Ip.{public_ip}

-- The network argument of a dial.
pub data Network : Type 0 where
  tcp tcp4 tcp6 other : Network

-- How a dial ends: a connection, ErrHostBlocked, or another error.
pub data Dialed (Conn Error : Type 0) : Type 0 where
  conn : Conn → Dialed Conn Error
  host_blocked : Dialed Conn Error
  failed : Error → Dialed Conn Error

-- The end of a dial, the addresses dialed and the calls of onBlock.
pub record Trace (Conn Error : Type 0) : Type 0 where
  pub result : Dialed Conn Error
  pub dialed : List (List ℕ)
  pub blocks : ℕ

-- ip.To4() is not nil: four bytes, or the 16 of an IPv4-mapped address.
unfoldable pub is_to4 : List ℕ → Bool
is_to4 (a ∷ b ∷ c ∷ d ∷ []) = true
is_to4 (a ∷ b ∷ c ∷ d ∷ e ∷ f ∷ g ∷ h ∷ i ∷ j ∷ k ∷ l ∷ m ∷ n ∷ o ∷ p ∷ []) =
    same (a ∷ b ∷ c ∷ d ∷ e ∷ f ∷ g ∷ h ∷ i ∷ j ∷ k ∷ l ∷ [])
      (0 ∷ 0 ∷ 0 ∷ 0 ∷ 0 ∷ 0 ∷ 0 ∷ 0 ∷ 0 ∷ 0 ∷ 255 ∷ 255 ∷ [])
is_to4 _ = false

-- network == "tcp4" && ip.To4() == nil || network == "tcp6" && ip.To4() != nil
abbrev pub wrong_family : Network → List ℕ → Bool
wrong_family tcp4 ip = not (is_to4 ip)
wrong_family tcp6 ip = is_to4 ip
wrong_family _ ip = false

abbrev pub skipped : Network → List ℕ → Bool
skipped network ip = not (public_ip ip) || wrong_family network ip

-- AllowedPort.
abbrev pub allowed_port : List ℕ
allowed_port = b'4' ∷ b'4' ∷ b'3' ∷ []

-- AddrAllowed.
unfoldable pub addr_allowed :
    (List ℕ → Option (List ℕ × List ℕ)) → (ℕ → ℕ) → (List ℕ → Bool) → List ℕ → Bool
addr_allowed split_host_port lower_other parses_as_ip addr = elim (split_host_port addr) [
  | none ↦ false
  | some (host, port) ↦ same port allowed_port && host_allowed lower_other parses_as_ip host
]

module _ {Conn Error : Type 0} (base : Network → List ℕ → List ℕ → Dialed Conn Error) where
  -- The end of the loop in Resolve.
  abbrev pub resolve_end : Option (Dialed Conn Error) → Trace Conn Error
  resolve_end none = record { result = host_blocked; dialed = []; blocks = 1 }
  resolve_end (some e) = record { result = e; dialed = []; blocks = 0 }

  -- An address is dialed before whatever a trace has.
  abbrev pub dialed_first : List ℕ → Trace Conn Error → Trace Conn Error
  dialed_first ip t = record t { dialed = ip ∷ t.dialed }

  abbrev pub after_dial : List ℕ → Dialed Conn Error → Trace Conn Error → Trace Conn Error
  after_dial ip (conn c) later = record { result = conn c; dialed = ip ∷ []; blocks = 0 }
  after_dial ip _ later = dialed_first ip later

  -- The loop in Resolve; `last` is lastErr.
  unfoldable pub resolve_loop :
      Network → List ℕ → List (List ℕ) → Option (Dialed Conn Error) → Trace Conn Error
  resolve_loop network port [] last = resolve_end last
  resolve_loop network port (ip ∷ ips) last =
      let skip = resolve_loop network port ips last in
      let go_on = resolve_loop network port ips (some (base network ip port)) in
      if skipped network ip then skip else after_dial ip (base network ip port) go_on

  module _ (split_host_port : List ℕ → Option (List ℕ × List ℕ))
      (lookup : List ℕ → Option (List (List ℕ))) (lookup_error : Error) where
    -- Resolve.
    unfoldable pub resolve : Network → List ℕ → Trace Conn Error
    resolve network addr = elim (split_host_port addr) [
      | none ↦ record { result = host_blocked; dialed = []; blocks = 0 }
      | some (host, port) ↦ elim (lookup host) [
        | none ↦ record { result = failed lookup_error; dialed = []; blocks = 0 }
        | some ips ↦ resolve_loop network port ips none
      ]
    ]

    module _ (lower_other : ℕ → ℕ) (parses_as_ip : List ℕ → Bool) where
      -- Guard around Resolve: the dialer of the transport.
      unfoldable pub guarded_dial : Network → List ℕ → Trace Conn Error
      guarded_dial other addr = record { result = host_blocked; dialed = []; blocks = 1 }
      guarded_dial network addr =
          if addr_allowed split_host_port lower_other parses_as_ip addr
          then resolve network addr
          else record { result = host_blocked; dialed = []; blocks = 1 }

-- What CheckRedirect looks at: how many requests came before, the scheme, the host and the port.
pub data Redirect : Type 0 where
  follow too_many blocked : Redirect

-- https
abbrev pub https : List ℕ
https = b'h' ∷ b't' ∷ b't' ∷ b'p' ∷ b's' ∷ []

-- CheckRedirect: its answer, and the calls of onBlock.
unfoldable pub check_redirect :
    (ℕ → ℕ) → (List ℕ → Bool) → ℕ → List ℕ → List ℕ → List ℕ → Redirect × ℕ
check_redirect lower_other parses_as_ip via scheme host port =
    if leb 5 via
    then (too_many, 0)
    else (if not (same scheme https)
          || not (host_allowed lower_other parses_as_ip host)
          || (ltb 0 (length port) && not (same port allowed_port))
        then (blocked, 1)
        else (follow, 0))
