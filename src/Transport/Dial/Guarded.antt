-- ===== src/Transport/Dial/Guarded.antt =====
-- What the guarded dialer of internal/transport/allowlist.go can reach.
use voolo_whatsapp_bridge.Common.{
  ℕ, ◌≡◌, ◌≢◌, ◌⊎◌, inl, inr, refl, Bool, true, false, List, [], ◌∷◌, Option, none, some,
  if◌then◌else◌, arith, All, Bool-cases, Option-cases,
}
use voolo_whatsapp_bridge.Transport.Ip.{public_ip}
use voolo_whatsapp_bridge.Transport.Dial.{
  Network, tcp, tcp4, tcp6, other, Dialed, conn, host_blocked, failed, Trace, wrong_family, skipped,
  after_dial, resolve_loop, resolve, addr_allowed, guarded_dial,
}

module _ {Conn Error : Type 0} (base : Network → List ℕ → List ℕ → Dialed Conn Error) where
  -- A public address of the family that the dial asks for.
  abbrev pub MayDial : Network → List ℕ → Type 0
  MayDial network ip = (public_ip ip ≡ true) × (wrong_family network ip ≡ false)

  resolve_loop-MayDial :
      (network : Network) (port : List ℕ) (ips : List (List ℕ)) (last : Option (Dialed Conn Error))
      → All (MayDial network) (resolve_loop base network port ips last).dialed
  unfolding resolve_loop
  resolve_loop-MayDial network port [] none = tt
  resolve_loop-MayDial network port [] (some e) = tt
  resolve_loop-MayDial network port (ip ∷ ips) last = elim (Bool-cases (skipped network ip)) [
    | inl e ↦ rw e (resolve_loop-MayDial network port ips last)
    | inr e ↦ rw e (
        go (base network ip port) _
          (resolve_loop-MayDial network port ips (some (base network ip port))) e)
  ]
    where
      go :
          (r : Dialed Conn Error) (later : Trace Conn Error)
          → All (MayDial network) later.dialed
          → skipped network ip ≡ false
          → All (MayDial network) (after_dial base ip r later).dialed
      go (conn c) later a e = (ground arith, tt)
      go host_blocked later a e = (ground arith, a)
      go (failed x) later a e = (ground arith, a)

  -- With no address of the name that may be dialed, nothing is dialed, the refusal is reported once
  -- and the answer is ErrHostBlocked.
  pub resolve_loop-blocked :
      (network : Network) (port : List ℕ) (ips : List (List ℕ))
      → All (λ ip. skipped network ip ≡ true) ips
      → resolve_loop base network port ips none
        ≡ record { result = host_blocked; dialed = []; blocks = 1 }
  unfolding resolve_loop
  resolve_loop-blocked network port [] a = refl
  resolve_loop-blocked network port (ip ∷ ips) a =
      rw a.0 (resolve_loop-blocked network port ips a.1)

  module _ (split_host_port : List ℕ → Option (List ℕ × List ℕ))
      (lookup : List ℕ → Option (List (List ℕ))) (lookup_error : Error) (lower_other : ℕ → ℕ)
      (parses_as_ip : List ℕ → Bool) where
    resolve-MayDial :
        (network : Network) (addr : List ℕ)
        → All
            (MayDial network)
            (resolve base split_host_port lookup lookup_error network addr).dialed
    unfolding resolve
    resolve-MayDial network addr = elim (Option-cases (split_host_port addr)) [
      | inl e ↦ rw (e, resolve) tt
      | inr ((host, port), e) ↦
          rw (e, resolve)
            (elim (Option-cases (lookup host)) [
              | inl f ↦ rw f tt
              | inr (ips, f) ↦ rw f (resolve_loop-MayDial network port ips none)
            ])
    ]

    dialer-MayDial :
        (network : Network) (addr : List ℕ)
        → network ≢ other
        → let t =
            if addr_allowed split_host_port lower_other parses_as_ip addr
            then resolve base split_host_port lookup lookup_error network addr
            else record { result = host_blocked; dialed = []; blocks = 1 } in
          All (MayDial network) t.dialed
          × ((t.dialed ≡ [])
              ⊎ ((network ≢ other)
                  × (addr_allowed split_host_port lower_other parses_as_ip addr ≡ true)))
    dialer-MayDial network addr n =
        elim (Bool-cases (addr_allowed split_host_port lower_other parses_as_ip addr)) [
          | inl e ↦ rw e (resolve-MayDial network addr, inr (n, refl))
          | inr e ↦ rw e (tt, inl refl)
        ]

    -- Every address that the transport dials is public and of the family asked for, and none is
    -- dialed unless the network is a TCP one and the name and port are on the list.
    pub guarded_dial-MayDial :
        (network : Network) (addr : List ℕ)
        → let t =
            guarded_dial base split_host_port lookup lookup_error lower_other parses_as_ip network
              addr in
          All (MayDial network) t.dialed
          × ((t.dialed ≡ [])
              ⊎ ((network ≢ other)
                  × (addr_allowed split_host_port lower_other parses_as_ip addr ≡ true)))
    unfolding guarded_dial
    guarded_dial-MayDial tcp addr = dialer-MayDial tcp addr (λ h. cc)
    guarded_dial-MayDial tcp4 addr = dialer-MayDial tcp4 addr (λ h. cc)
    guarded_dial-MayDial tcp6 addr = dialer-MayDial tcp6 addr (λ h. cc)
    guarded_dial-MayDial other addr = (tt, inl refl)
