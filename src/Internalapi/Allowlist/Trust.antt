-- ===== src/Internalapi/Allowlist/Trust.antt =====
-- What the forwarded address counts for, ip_allowlist.go.
use audistro_provider.Prelude.{
  ◌≡◌, refl, ◌⊎◌, inl, inr, true, false, not, ◌||◌, Option, none, some, [], Text, text_eq,
  Option-cases, Bool-cases, arith,
}
use audistro_provider.Go.Strings.{trim_space, split_two}
use audistro_provider.Go.Net.{NetLibrary}
use audistro_provider.Internalapi.Allowlist.{
  IpAllowlist, Peer, ip_in_cidrs, parse_remote_ip, forwarded, client_ip, of_remote, behind_proxy,
  is_allowed, passes, before_cut,
}

module _ {Ip IpNet : Type 0} (net : NetLibrary Ip IpNet) (a : IpAllowlist IpNet) where
  -- The peer is a proxy whose headers are trusted.
  abbrev pub IsTrusted : Ip → Type 0
  IsTrusted peer =
      (a.trust_proxy_headers ≡ true) × (ip_in_cidrs net peer a.trusted_proxy_cidrs ≡ true)

  -- The address that a request is judged by: the peer's, or the forwarded one of a trusted peer.
  pub data IsClient (r : Peer) (ip : Ip) : Type 0 where
    direct : parse_remote_ip net r.remote_addr ≡ some ip → IsClient r ip
    behind :
        (peer : Ip)
        → parse_remote_ip net r.remote_addr ≡ some peer
        → IsTrusted peer
        → forwarded net r.x_forwarded_for ≡ some ip
        → IsClient r ip

  behind_proxy-cases :
      (peer : Ip) (header : Text)
      → (behind_proxy net peer header ≡ some peer)
        ⊎ ((ip : Ip) × (behind_proxy net peer header ≡ some ip) × (forwarded net header ≡ some ip))
  behind_proxy-cases peer header = elim (Option-cases (forwarded net header)) [
    | inl none_there ↦ inl (rw none_there (ground arith))
    | inr (ip, there) ↦ elim (Bool-cases (text_eq header [])) [
      | inl empty ↦ inl (rw empty refl)
      | inr filled ↦
          elim (Bool-cases (text_eq (trim_space (before_cut (split_two b',' header))) [])) [
            | inl blank ↦ inl (rw (filled, blank) refl)
            | inr named ↦ inr (ip, rw (filled, named, there) refl, there)
          ]
    ]
  ]

  of_remote-IsClient :
      (r : Peer) (o : Option Ip)
      → parse_remote_ip net r.remote_addr ≡ o
      → is_allowed net a (of_remote net a r.x_forwarded_for o) ≡ true
      → (ip : Ip) × IsClient r ip × (ip_in_cidrs net ip a.allowed_cidrs ≡ true)
  of_remote-IsClient r none at e = cc
  of_remote-IsClient r (some peer) at e =
      elim (Bool-cases
        (not a.trust_proxy_headers || not (ip_in_cidrs net peer a.trusted_proxy_cidrs))) [
          | inl other ↦ (peer, direct at, rw other at e)
          | inr trusted ↦
              let allowed : is_allowed net a (behind_proxy net peer r.x_forwarded_for) ≡ true =
                rw trusted at e in
              elim (behind_proxy-cases peer r.x_forwarded_for) [
                | inl same ↦ (peer, direct at, rw same at allowed)
                | inr (ip, shown, named) ↦
                    (ip, behind peer at (ground arith) named, rw shown at allowed)
              ]
        ]

  -- A request that is let through comes from an allowed address; that is the peer's own, unless the
  -- peer is a trusted proxy, which may name another.
  pub passes-IsClient :
      (r : Peer)
      → passes net a r ≡ true
      → (ip : Ip) × IsClient r ip × (ip_in_cidrs net ip a.allowed_cidrs ≡ true)
  unfolding passes client_ip
  passes-IsClient r e = of_remote-IsClient r (parse_remote_ip net r.remote_addr) refl e

  -- From a peer that is no trusted proxy, a request is judged alike with every forwarded address.
  pub passes-untrusted :
      (remote_addr header header' : Text) (peer : Ip)
      → parse_remote_ip net remote_addr ≡ some peer
      → (a.trust_proxy_headers ≡ false) ⊎ (ip_in_cidrs net peer a.trusted_proxy_cidrs ≡ false)
      → passes net a (record { remote_addr = remote_addr; x_forwarded_for = header })
        ≡ passes net a (record { remote_addr = remote_addr; x_forwarded_for = header' })
  unfolding passes client_ip
  passes-untrusted remote_addr header header' peer at other = rw at (ground arith)
