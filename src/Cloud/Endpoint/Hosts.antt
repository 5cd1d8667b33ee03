-- ===== src/Cloud/Endpoint/Hosts.antt =====
-- The host in the authority of a URL, and how endpoint.rs finds it.
use arx_runa.Prelude.{
  ℕ, true, false, ◌≡◌, ◌⊎◌, inl, inr, refl, ap, ◌∙◌, sym, subst, Option, Option-cases, Bool-cases,
  none, some, [], ◌∷◌, ◌++◌, Text, codes, arith, drop, ◌==◌, ==_iff, ===_iff, Result, ok,
}
use arx_runa.Prelude.Strings.{
  contains_char, starts_with, strip_prefix, split_once, to_ascii_lowercase,
}
use arx_runa.Cloud.Remote.{CloudTransportError}
use arx_runa.Cloud.Endpoint.{
  authority_of, path_of, up_to_bracket, up_to_colon, extract_authority_host,
  is_local_development_host,
}

-- `[host]`, with anything behind it; or, where no bracket comes first, `host:port` or the host alone.
pub data HasHost : Text → Text → Type 0 where
  in_brackets :
      (host after : Text)
      → contains_char b']' host ≡ false
      → HasHost (b'[' ∷ (host ++ (b']' ∷ after))) host
  with_port :
      (host port : Text)
      → starts_with (b'[' ∷ []) host ≡ false
      → contains_char b':' host ≡ false
      → HasHost (host ++ (b':' ∷ port)) host
  alone :
      (host : Text)
      → starts_with (b'[' ∷ []) host ≡ false
      → contains_char b':' host ≡ false
      → HasHost host host

-- The machine itself.
abbrev pub IsLocal : Text → Type 0
IsLocal host =
    (to_ascii_lowercase host ≡ codes "localhost")
    ⊎ (host ≡ codes "::1")
    ⊎ (starts_with (codes "127.") host ≡ true)

pub is_local_development_host-IsLocal :
    (host : Text) → is_local_development_host host ≡ true → IsLocal host
unfolding is_local_development_host
is_local_development_host-IsLocal host h =
    ground
      (arith, ===_iff (to_ascii_lowercase host) (codes "localhost"), ===_iff host (codes "::1"))

pub strip_prefix-some : (pat s rest : Text) → strip_prefix pat s ≡ some rest → s ≡ pat ++ rest
strip_prefix-some [] s rest h = ground arith
strip_prefix-some (c ∷ pat) [] rest h = cc
strip_prefix-some (c ∷ pat) (d ∷ s) rest h = elim (Bool-cases (c == d)) [
  | inl same ↦
      let e = (==_iff c d).0 same in
      let ih = strip_prefix-some pat s rest (ground (arith, same)) in cc (e, ih)
  | inr other ↦ absurd (ground (arith, other))
]

pub authority-path : (rest : Text) → rest ≡ authority_of rest ++ path_of rest
authority-path [] = refl
authority-path (c ∷ rest) = elim (Bool-cases (c == b'/')) [
  | inl slash ↦ rw slash refl
  | inr other ↦ rw other (ap (λ (x : Text). c ∷ x) (authority-path rest))
]

pub authority_of-slash : (rest : Text) → contains_char b'/' (authority_of rest) ≡ false
authority_of-slash [] = refl
authority_of-slash (c ∷ rest) = elim (Bool-cases (c == b'/')) [
  | inl slash ↦ rw slash refl
  | inr other ↦ rw other (rw other (authority_of-slash rest))
]

split_once-some :
    (c : ℕ) (s t u : Text)
    → split_once c s ≡ some (t, u)
    → (s ≡ t ++ (c ∷ u)) × (contains_char c t ≡ false)
split_once-some c [] t u h = cc
split_once-some c (d ∷ s) t u h = elim (Bool-cases (d == c)) [
  | inl found ↦
      let e = (==_iff d c).0 found in
      let h' : ◌≡◌ {A = Option (Text × Text)} (some ([], s)) (some (t, u)) =
        ground (arith, found) in
      (ground (arith, e, h'), ground (arith, h'))
  | inr other ↦ elim (Option-cases (split_once c s)) [
    | inl k ↦ absurd (ground (arith, other, k))
    | inr ((first, last), k) ↦
        let h' : ◌≡◌ {A = Option (Text × Text)} (some (d ∷ first, last)) (some (t, u)) =
          ground (arith, other, k) in
        let (joined, free) = split_once-some c s first last k in
        (ground (arith, h', joined), ground (arith, h', free, other))
  ]
]

split_once-none : (c : ℕ) (s : Text) → split_once c s ≡ none → contains_char c s ≡ false
split_once-none c [] h = refl
split_once-none c (d ∷ s) h = elim (Bool-cases (d == c)) [
  | inl found ↦ absurd (ground (arith, found))
  | inr other ↦ elim (Option-cases (split_once c s)) [
    | inl k ↦ ground (arith, other, split_once-none c s k)
    | inr (parts, k) ↦ absurd (ground (arith, other, k))
  ]
]

bracket-HasHost :
    (authority host : Text)
    → starts_with (b'[' ∷ []) authority ≡ true
    → up_to_bracket (split_once b']' (drop 1 authority)) ≡ ok host
    → HasHost authority host
bracket-HasHost [] host opens h = cc
bracket-HasHost (c ∷ s) host opens h = elim (Option-cases (split_once b']' s)) [
  | inl k ↦ absurd (ground (arith, k))
  | inr ((inside, after), k) ↦
      let (joined, free) = split_once-some b']' s inside after k in
      let same : inside ≡ host = ground (arith, k) in
      let first : c ≡ b'[' = let e = ==_iff b'[' c in ground (arith, e) in
      subst (HasHost (c ∷ s)) same (
        subst (λ (x : Text). HasHost x inside)
          (sym (
            ap (λ (x : Text). c ∷ x) joined ∙ ap (λ (d : ℕ). d ∷ (inside ++ (b']' ∷ after))) first))
          (in_brackets inside after free))
]

first_bracket :
    (host port : Text)
    → starts_with (b'[' ∷ []) (host ++ (b':' ∷ port)) ≡ false
    → starts_with (b'[' ∷ []) host ≡ false
first_bracket [] port h = refl
first_bracket (c ∷ host) port h = h

colon-HasHost :
    (authority host : Text)
    → starts_with (b'[' ∷ []) authority ≡ false
    → ◌≡◌ {A = Result CloudTransportError Text}
        (ok (up_to_colon authority (split_once b':' authority)))
        (ok host)
    → HasHost authority host
colon-HasHost authority host plain h = elim (Option-cases (split_once b':' authority)) [
  | inl k ↦
      let same : authority ≡ host = ground (arith, k) in
      subst (HasHost authority) same (alone authority plain (split_once-none b':' authority k))
  | inr ((name, port), k) ↦
      let (joined, free) = split_once-some b':' authority name port k in
      let same : name ≡ host = ground (arith, k) in
      subst (HasHost authority) same (
        subst (λ (x : Text). HasHost x name) (sym joined)
          (with_port name port
            (first_bracket name port (ap (starts_with (b'[' ∷ [])) (sym joined) ∙ plain)) free))
]

pub extract_authority_host-HasHost :
    (authority host : Text) → extract_authority_host authority ≡ ok host → HasHost authority host
unfolding extract_authority_host
extract_authority_host-HasHost authority host h =
    elim (Bool-cases (starts_with (b'[' ∷ []) authority)) [
      | inl opens ↦ bracket-HasHost authority host opens (ground (arith, opens))
      | inr no_bracket ↦ colon-HasHost authority host no_bracket (ground (arith, no_bracket))
    ]
