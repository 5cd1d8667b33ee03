-- ===== src/Cloud/Endpoint/Encrypted.antt =====
-- What endpoint.rs accepts is encrypted, unless it was told otherwise.
use arx_runa.Prelude.{Bool, true, false, ◌≡◌, ◌⊎◌, [], ◌∷◌, ◌++◌, Text, codes, ok}
use arx_runa.Prelude.Strings.{is_empty, contains_char}
use arx_runa.Cloud.Endpoint.{
  Scheme, authority_of, path_of, is_http, extract_authority_host, is_local_development_host,
}
use arx_runa.Cloud.Endpoint.Hosts.{HasHost, IsLocal}

-- A URL: the scheme, an authority with neither slash nor user information, whose host is not empty,
-- and no path but the root.
pub record IsUrl (scheme endpoint host : Text) : Type 0 where
  pub authority : Text
  pub path : Text
  pub parts : endpoint ≡ scheme ++ (authority ++ path)
  pub no_slash : contains_char b'/' authority ≡ false
  pub no_user : contains_char b'@' authority ≡ false
  pub names : HasHost authority host
  pub not_empty : is_empty host ≡ false
  pub root : (path ≡ []) ⊎ (path ≡ b'/' ∷ [])

-- What is accepted of the text behind the scheme.
abbrev Accepted : Bool → Scheme → Text → Text → Type 0
Accepted allowed scheme rest host =
    (contains_char b'@' (authority_of rest) ≡ false)
    × (extract_authority_host (authority_of rest) ≡ ok host)
    × (is_empty host ≡ false)
    × ((path_of rest ≡ []) ⊎ (path_of rest ≡ b'/' ∷ []))
    × ((is_http scheme ≡ false) ⊎ ((allowed ≡ true) × (is_local_development_host host ≡ true)))

-- An https:// URL, or an http:// URL of the machine itself where that is allowed.
abbrev pub IsEncrypted : Text → Bool → Type 0
IsEncrypted endpoint allowed =
    (host : Text) × (IsUrl (codes "https://") endpoint host
      ⊎ ((allowed ≡ true) × IsLocal host × IsUrl (codes "http://") endpoint host))
