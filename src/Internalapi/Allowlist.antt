-- ===== src/Internalapi/Allowlist.antt =====
-- internal/internalapi/ip_allowlist.go: which clients reach the internal API.
pub mod Trust
pub mod Networks
use audistro_provider.Prelude.{
  Bool, true, false, not, ◌&&◌, ◌||◌, Option, none, some, List, [], ◌∷◌, Text, any, text_eq,
  if◌then◌else◌,
}
use audistro_provider.Go.Strings.{split, split_two, Cut, whole, parts, trim_space}
use audistro_provider.Go.Net.{NetLibrary}
use audistro_provider.Config.{Config}

pub record IpAllowlist (IpNet : Type 0) : Type 0 where
  pub allowed_cidrs : List IpNet
  pub trust_proxy_headers : Bool
  pub trusted_proxy_cidrs : List IpNet

-- What is read of a request: the peer's address and the X-Forwarded-For header, empty where there is
-- none.
pub record Peer : Type 0 where
  pub remote_addr : Text
  pub x_forwarded_for : Text

abbrev pub before_cut : Cut → Text
before_cut (whole s) = s
before_cut (parts s t) = s

module _ {Ip IpNet : Type 0} (net : NetLibrary Ip IpNet) where
  abbrev cons_parsed : Option IpNet → Option (List IpNet) → Option (List IpNet)
  cons_parsed none rest = none
  cons_parsed (some n) none = none
  cons_parsed (some n) (some rest) = some (n ∷ rest)

  unfoldable pub parse_each : List Text → Option (List IpNet)
  parse_each [] = some []
  parse_each (part ∷ rest) =
      let later = parse_each rest in
      if text_eq (trim_space part) []
      then later
      else cons_parsed (net.parse_cidr (trim_space part)) later

  unfoldable pub parse_cidr_list : Text → Option (List IpNet)
  unfolding parse_each
  parse_cidr_list value =
      if text_eq (trim_space value) [] then some [] else parse_each (split b',' (trim_space value))

  -- A list that does not parse is none.
  abbrev pub or_nil : Option (List IpNet) → List IpNet
  or_nil none = []
  or_nil (some nets) = nets

  unfoldable pub new_ip_allowlist : Config → IpAllowlist IpNet
  unfolding parse_cidr_list
  new_ip_allowlist cfg = record {
    allowed_cidrs = or_nil (parse_cidr_list cfg.internal_allowed_cidrs);
    trust_proxy_headers = cfg.trust_proxy_headers;
    trusted_proxy_cidrs = or_nil (parse_cidr_list cfg.trusted_proxy_cidrs);
  }

  abbrev pub ip_in_cidrs : Ip → List IpNet → Bool
  ip_in_cidrs ip cidrs = any (λ n. net.contains n ip) cidrs

  abbrev host_of : Text → Option Text → Text
  host_of remote_addr none = remote_addr
  host_of remote_addr (some host) = host

  unfoldable pub parse_remote_ip : Text → Option Ip
  parse_remote_ip remote_addr =
      net.parse_ip (trim_space (host_of remote_addr (net.split_host remote_addr)))

  abbrev pub or_remote : Ip → Option Ip → Option Ip
  or_remote remote none = some remote
  or_remote remote (some forwarded) = some forwarded

  -- The first address of the header.
  abbrev pub forwarded : Text → Option Ip
  forwarded header = net.parse_ip (trim_space (before_cut (split_two b',' header)))

  abbrev pub behind_proxy : Ip → Text → Option Ip
  behind_proxy remote header =
      if text_eq header []
      then some remote
      else if text_eq (trim_space (before_cut (split_two b',' header))) []
      then some remote
      else or_remote remote (forwarded header)

  abbrev pub of_remote : IpAllowlist IpNet → Text → Option Ip → Option Ip
  of_remote a header none = none
  of_remote a header (some remote) =
      if not a.trust_proxy_headers || not (ip_in_cidrs remote a.trusted_proxy_cidrs)
      then some remote
      else behind_proxy remote header

  unfoldable pub client_ip : IpAllowlist IpNet → Peer → Option Ip
  unfolding parse_remote_ip
  client_ip a r = of_remote a r.x_forwarded_for (parse_remote_ip r.remote_addr)

  abbrev pub is_allowed : IpAllowlist IpNet → Option Ip → Bool
  is_allowed a none = false
  is_allowed a (some ip) = ip_in_cidrs ip a.allowed_cidrs

  -- The handler of `NewIPAllowlistMiddleware`: whether the request goes on; it is answered 403 if not.
  unfoldable pub passes : IpAllowlist IpNet → Peer → Bool
  unfolding client_ip
  passes a r = is_allowed a (client_ip a r)
