-- ===== src/Cloud/Endpoint.antt =====
-- src-tauri/src/storage/cloud/endpoint.rs. Whether the environment variable allows http:// is an
-- argument.
pub mod Hosts
pub mod Encrypted
use arx_runa.Prelude.{
  ℕ, Bool, true, false, not, ◌&&◌, ◌||◌, ◌≡◌, ◌⊎◌, inl, inr, refl, Option, none, some, [], ◌∷◌,
  Text, codes, arith, drop, ◌==◌, ◌===◌, if◌then◌else◌, Result, ok, err,
}
use arx_runa.Prelude.Strings.{
  is_empty, any, all, contains_char, starts_with, strip_prefix, split_once, is_control,
  is_whitespace, to_ascii_lowercase,
}
use arx_runa.Cloud.Remote.{CloudTransportError, other, and_then, validate_remote_root_component}

pub record CloudEndpoint : Type 0 where
  pub provider : Text
  pub bucket : Text
  pub region : Text
  pub endpoint : Text
  pub path_prefix : Text

pub data Scheme : Type 0 where
  https http : Scheme

-- The text up to a slash, and the text from it on.
abbrev pub authority_of : Text → Text
authority_of [] = []
authority_of (c ∷ rest) = let more = authority_of rest in if c == b'/' then [] else c ∷ more

abbrev pub path_of : Text → Text
path_of [] = []
path_of (c ∷ rest) = let more = path_of rest in if c == b'/' then c ∷ rest else more

abbrev pub scheme_or : Option Text → Option Text → Result CloudTransportError (Scheme × Text)
scheme_or (some rest) o = ok (https, rest)
scheme_or none (some rest) = ok (http, rest)
scheme_or none none = err other

abbrev pub up_to_bracket : Option (Text × Text) → Result CloudTransportError Text
up_to_bracket none = err other
up_to_bracket (some (host, rest)) = ok host

abbrev pub up_to_colon : Text → Option (Text × Text) → Text
up_to_colon authority none = authority
up_to_colon authority (some (host, port)) = host

unfoldable pub extract_authority_host : Text → Result CloudTransportError Text
extract_authority_host authority =
    if starts_with (b'[' ∷ []) authority
    then up_to_bracket (split_once b']' (drop 1 authority))
    else ok (up_to_colon authority (split_once b':' authority))

unfoldable pub is_local_development_host : Text → Bool
is_local_development_host host =
    to_ascii_lowercase host === codes "localhost"
    || host === codes "::1"
    || starts_with (codes "127.") host

abbrev pub is_http : Scheme → Bool
is_http https = false
is_http http = true

-- Behind the scheme.
abbrev pub validate_rest : Bool → Scheme → Text → Result CloudTransportError (Unit {0})
validate_rest local_dev_http_override_enabled scheme rest =
    let authority = authority_of rest in
    if is_empty rest
    then err other
    else if is_empty authority
    then err other
    else if contains_char b'@' authority
    then err other
    else and_then (extract_authority_host authority) λ host.
      if is_empty host
      then err other
      else if is_http scheme
          && not (local_dev_http_override_enabled && is_local_development_host host)
      then err other
      else if not (is_empty (path_of rest)) && not (path_of rest === b'/' ∷ [])
      then err other
      else ok tt

unfoldable pub validate_endpoint_url_with_policy :
    Text → Bool → Result CloudTransportError (Unit {0})
unfolding extract_authority_host is_local_development_host
validate_endpoint_url_with_policy endpoint local_dev_http_override_enabled =
    if is_empty endpoint
    then ok tt
    else if any is_control endpoint
    then err other
    else if contains_char b'?' endpoint || contains_char b'#' endpoint
    then err other
    else and_then
        (scheme_or (strip_prefix (codes "https://") endpoint)
          (strip_prefix (codes "http://") endpoint))
        λ found. validate_rest local_dev_http_override_enabled found.0 found.1

-- `CloudEndpoint::validate`.
unfoldable pub validate : CloudEndpoint → Bool → Result CloudTransportError (Unit {0})
unfolding validate_endpoint_url_with_policy validate_remote_root_component
validate e local_dev_http_override_enabled =
    if all is_whitespace e.provider
    then err other
    else if any is_control e.bucket
    then err other
    else and_then (validate_remote_root_component e.bucket true) λ _.
      if any is_control e.region
      then err other
      else and_then (validate_remote_root_component e.path_prefix true)
          λ _. validate_endpoint_url_with_policy e.endpoint local_dev_http_override_enabled
