-- ===== src/Assets/Upstream.antt =====
-- internal/assets/handler.go: what the reverse proxy makes of a request to the origin and of the
-- headers of its answer. net.SplitHostPort and the transport are arguments.
pub mod Forwarded
use audistro_provider.Prelude.{
  ℕ, Bool, true, false, not, ◌&&◌, ◌||◌, Option, none, some, List, [], ◌∷◌, ◌++◌, Text, codes, leb,
  ltb, text_eq, if◌then◌else◌, drop,
}
use audistro_provider.Go.Int64.{ℤ, pos, ltb_ℤ}
use audistro_provider.Go.Time.{Instant}
use audistro_provider.Go.Strings.{split, trim_space, has_prefix, has_suffix}
use audistro_provider.Go.Header.{Header, get, del, set}
use audistro_provider.Assets.Serve.{is_segment_like}

unfoldable pub hop_by_hop_headers : List Text
hop_by_hop_headers =
    codes "Connection"
    ∷ codes "Keep-Alive"
    ∷ codes "Proxy-Authenticate"
    ∷ codes "Proxy-Authorization"
    ∷ codes "TE"
    ∷ codes "Trailer"
    ∷ codes "Transfer-Encoding"
    ∷ codes "Upgrade"
    ∷ []

unfoldable pub del_all : List Text → Header → Header
del_all [] h = h
del_all (key ∷ keys) h = del_all keys (del key h)

-- The fields of a Connection header that are not blank.
unfoldable pub connection_fields : List Text → List Text
connection_fields [] = []
connection_fields (field ∷ fields) =
    let rest = connection_fields fields in
    if text_eq (trim_space field) [] then rest else trim_space field ∷ rest

unfoldable pub remove_hop_by_hop_headers : Header → Header
remove_hop_by_hop_headers h =
    let connection = get (codes "Connection") h in
    let stripped = del_all hop_by_hop_headers h in
    if text_eq connection []
    then stripped
    else del_all (connection_fields (split b',' connection)) stripped

unfoldable pub single_joining_slash : Text → Text → Text
single_joining_slash a b =
    let aslash = has_suffix a (codes "/") in
    let bslash = has_prefix b (codes "/") in
    if aslash && bslash
    then a ++ drop 1 b
    else if not aslash && not bslash
    then a ++ b'/' ∷ b
    else a ++ b

-- The parsed origin, and of a request what the rewriting reads or sets.
pub record Origin : Type 0 where
  pub scheme : Text
  pub host : Text
  pub path : Text

pub record Incoming : Type 0 where
  pub path : Text
  pub raw_query : Text
  pub remote_addr : Text
  pub tls : Bool

pub record Outgoing : Type 0 where
  pub scheme : Text
  pub url_host : Text
  pub path : Text
  pub raw_path : Text
  pub raw_query : Text
  pub host : Text
  pub header : Header

abbrev or_whole : Text → Option Text → Text
or_whole addr none = addr
or_whole addr (some host) = host

unfoldable pub remote_host : (Text → Option Text) → Text → Text
remote_host split_host addr = or_whole addr (split_host addr)

-- Rewrite, where `header` is the header that the proxy starts from.
unfoldable pub rewrite : (Text → Option Text) → Origin → Incoming → Header → Outgoing
rewrite split_host origin in_request header =
    let path = single_joining_slash origin.path in_request.path in
    record {
      scheme = origin.scheme;
      url_host = origin.host;
      path = path;
      raw_path = path;
      raw_query = in_request.raw_query;
      host = origin.host;
      header =
          set (codes "X-Forwarded-Proto") (if in_request.tls then codes "https" else codes "http") (
            set (codes "X-Forwarded-For") (remote_host split_host in_request.remote_addr)
              (remove_hop_by_hop_headers header));
    }

abbrev content_type : Text → Bool → Header → Header
content_type type true h = set (codes "Content-Type") type h
content_type type false h = h

abbrev immutable : Header → Header
immutable = set (codes "Cache-Control") (codes "public, max-age=31536000, immutable")

unfoldable pub apply_content_headers : Text → Bool → Header → Header
apply_content_headers ext set_type h =
    if text_eq ext (codes ".m3u8")
    then set (codes "Cache-Control") (codes "public, max-age=5")
        (content_type (codes "application/vnd.apple.mpegurl") set_type h)
    else if text_eq ext (codes ".ts")
    then immutable (content_type (codes "video/mp2t") set_type h)
    else if text_eq ext (codes ".m4s")
    then immutable (content_type (codes "video/iso.segment") set_type h)
    else if text_eq ext (codes ".mp4")
    then immutable (content_type (codes "video/mp4") set_type h)
    else h

unfoldable pub set_content_headers : Text → Header → Header
set_content_headers ext h = apply_content_headers ext true h

-- The header that ModifyResponse leaves, for an answer that it does not refuse.
unfoldable pub modified_header : Text → ℤ → ℤ → Header → Header
modified_header ext max_segment_bytes content_length h =
    let with_content = apply_content_headers ext false (remove_hop_by_hop_headers h) in
    if is_segment_like ext && ltb_ℤ (pos 0) max_segment_bytes && ltb_ℤ content_length (pos 0)
    then del (codes "Content-Length") with_content
    else with_content

pub data ProxyResult : Type 0 where
  ok client_error upstream_error error : ProxyResult

unfoldable pub proxy_result : ℕ → ProxyResult
proxy_result status =
    if leb 200 status && ltb status 400
    then ok
    else if leb 400 status && ltb status 500
    then client_error
    else if leb 500 status
    then upstream_error
    else error
