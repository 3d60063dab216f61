-- ===== src/Tests/Settings.antt =====
-- Runs of the settings, the internal API and the start of the program.
use audistro_provider.Prelude.{
  ◌≡◌, refl, ◌≢◌, ◌↔◌, ◌⊎◌, true, false, Option, some, none, Text, codes, [], ◌∷◌, text_eq,
  if◌then◌else◌,
}
use audistro_provider.Go.Int64.{pos}
use audistro_provider.Go.Strings.{
  split_two, Cut, whole, parts, has_prefix, trim_space, to_lower, split, trim_left, trim_right,
}
use audistro_provider.Go.Filepath.{clean, join, keep_all}
use audistro_provider.Go.Strconv.{digits_value, parse_bool, parse_int, parse_uint}
use audistro_provider.Go.Net.{NetLibrary}
use audistro_provider.Config.{split_csv, trimmed_parts}
use audistro_provider.Config.Load.{
  getenv, getenv_int64, getenv_or_empty, getenv_int, load_data_path, getenv_bool,
  getenv_bool_with_explicit, getenv_with_explicit, load_env, load_internal_allowed_cidrs,
  load_internal_enable, load_path, Environment, load,
}
use audistro_provider.Config.Load.Exposure.{load-validate-internal}
use audistro_provider.Config.Validate.{
  check_mode, check_limits, check_paths, check_public, check_origin, check_auth, check_catalog,
  check_cors, check_internal, check_proxies, validate_url, Host, ok, validate, parse_cidrs,
}
use audistro_provider.Config.Validate.Conditions.{IsValid}
use audistro_provider.Config.Validate.Valid.{validate-IsValid_iff}
use audistro_provider.Internalapi.Allowlist.{
  IpAllowlist, Peer, new_ip_allowlist, client_ip, parse_remote_ip, passes, ip_in_cidrs,
}
use audistro_provider.Internalapi.Allowlist.Trust.{IsClient, passes-IsClient}
use audistro_provider.Internalapi.Allowlist.Networks.{validate-new_ip_allowlist}
use audistro_provider.Fssecure.{FileInfo, directory, found, Node, leaf, link, dir, entry, empty}
use audistro_provider.Program.{readiness_checker}
use audistro_provider.Program.Readiness.{IsReady, readiness_checker-IsReady_iff}

-- Addresses are texts, and a network is the text that its addresses start with.
abbrev host_part : Cut → Option Text
host_part (whole s) = none
host_part (parts s t) = some s

abbrev filled : Text → Option Text
filled s = if text_eq s [] then none else some s

abbrev net : NetLibrary Text Text
net = record {
  split_host = λ s. host_part (split_two b':' s);
  parse_ip = filled;
  parse_cidr = filled;
  contains = λ n ip. has_prefix ip n;
}

abbrev host : Host Text
host = record {
  makes_data_path = true;
  makes_assets_root = true;
  read_file = λ path. none;
  parse_url = λ s. some (record { scheme = codes "https"; host = s });
  parse_cidr = filled;
}

-- An internal API that is open to 10.0.0.
abbrev opened : Environment
opened key =
    if text_eq key (codes "PROVIDER_INTERNAL_ENABLE")
    then some (codes "true")
    else if text_eq key (codes "PROVIDER_INTERNAL_ALLOWED_CIDRS")
    then some (codes " 10.0.0., 10.0.1.")
    else none

opened_is_valid : validate host (load opened) ≡ ok tt
unfolding validate load parse_cidrs split_csv trimmed_parts clean join keep_all digits_value
    parse_bool parse_int parse_uint split trim_left trim_right trim_space to_lower text_eq
    check_mode check_limits check_paths check_public check_origin check_auth check_catalog
    check_cors check_internal check_proxies validate_url getenv getenv_int64 getenv_or_empty
    getenv_int load_data_path getenv_bool getenv_bool_with_explicit getenv_with_explicit load_env
    load_internal_allowed_cidrs load_internal_enable load_path
opened_is_valid = refl

opened_is_production : (load opened).env ≡ codes "prod"
unfolding load load_env text_eq to_lower trim_space getenv_or_empty
opened_is_production = refl

opened_is_open : (load opened).internal_enable ≡ true
unfolding load load_internal_enable getenv_bool_with_explicit text_eq getenv_bool getenv_or_empty
    parse_bool
opened_is_open = refl

validate_example : (validate host (load opened) ≡ ok tt) ↔ IsValid host (load opened)
validate_example = validate-IsValid_iff host (load opened)

internal_example :
    (csv : Text) × (opened (codes "PROVIDER_INTERNAL_ALLOWED_CIDRS") ≡ some csv)
    × (trim_space csv ≢ [])
    × (parse_cidrs host.parse_cidr csv ≢ none)
internal_example =
    load-validate-internal opened host opened_is_valid opened_is_open
      (rw opened_is_production (λ e. cc))

networks_example :
    (((load opened).internal_enable ≡ false)
      ⊎ ((parse_cidrs net.parse_cidr (load opened).internal_allowed_cidrs
            ≡ some (new_ip_allowlist net (load opened)).allowed_cidrs)
          × ((new_ip_allowlist net (load opened)).allowed_cidrs ≢ [])))
    × (((trim_space (load opened).trusted_proxy_cidrs ≡ [])
          × ((new_ip_allowlist net (load opened)).trusted_proxy_cidrs ≡ []))
        ⊎ (parse_cidrs net.parse_cidr (load opened).trusted_proxy_cidrs
            ≡ some (new_ip_allowlist net (load opened)).trusted_proxy_cidrs))
networks_example = validate-new_ip_allowlist net host (load opened) refl opened_is_valid

-- An allow list behind a trusted proxy, and a request that the proxy passes on.
abbrev behind_proxy : IpAllowlist Text
behind_proxy = record {
  allowed_cidrs = codes "10.0.0." ∷ [];
  trust_proxy_headers = true;
  trusted_proxy_cidrs = codes "192." ∷ [];
}

abbrev forwarded_request : Peer
forwarded_request = record {
  remote_addr = codes "192.0.2.1:4000";
  x_forwarded_for = codes "10.0.0.7, 192.0.2.1";
}

forwarded_passes : passes net behind_proxy forwarded_request ≡ true
unfolding passes client_ip parse_remote_ip split_two has_prefix text_eq trim_space trim_left
    trim_right
forwarded_passes = refl

passes-IsClient_example :
    (ip : Text) × IsClient net behind_proxy forwarded_request ip
    × (ip_in_cidrs net ip behind_proxy.allowed_cidrs ≡ true)
passes-IsClient_example = passes-IsClient net behind_proxy forwarded_request forwarded_passes

-- A directory that holds a link.
abbrev linked : Node
linked = dir (entry leaf (entry link empty))

abbrev root_info : FileInfo
root_info = record { file_type = directory; file_id = 1; size = pos 0 }

readiness_example :
    (readiness_checker (load opened) true true (found root_info) linked ≡ none)
    ↔ IsReady (load opened) true true (found root_info) linked
readiness_example = readiness_checker-IsReady_iff (load opened) true true (found root_info) linked
