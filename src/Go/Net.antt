-- ===== src/Go/Net.antt =====
-- What the program asks of packages net and net/url: parsers of addresses and URLs, as arguments.
use audistro_provider.Prelude.{Bool, Option, Text}

-- SplitHostPort, of whose result the host is used, ParseIP, the network of ParseCIDR, and Contains.
-- `none` is an error, or the nil address.
pub record NetLibrary (Ip : Type 0) (IpNet : Type 0) : Type 0 where
  pub split_host : Text → Option Text
  pub parse_ip : Text → Option Ip
  pub parse_cidr : Text → Option IpNet
  pub contains : IpNet → Ip → Bool

-- The parts of a url.URL that are read.
pub record Url : Type 0 where
  pub scheme : Text
  pub host : Text
