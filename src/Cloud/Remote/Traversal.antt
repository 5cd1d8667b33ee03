-- ===== src/Cloud/Remote/Traversal.antt =====
-- A remote path that is accepted stays below the root: remote_path.rs.
use arx_runa.Prelude.{
  ℕ, true, false, Bool-cases, inl, inr, ◌≡◌, ◌≢◌, refl, [], ◌∷◌, List, Text, arith, ◌==◌, ok,
}
use arx_runa.Prelude.Strings.{is_empty, all, contains, starts_with, split, onto_first, NoneIs}
use arx_runa.Cloud.Remote.{is_allowed, validate_remote_path}

abbrev pub dots : Text
dots = b'.' ∷ b'.' ∷ []

abbrev first_part : List Text → Text
first_part [] = []
first_part (s ∷ parts) = s

first_part-onto_first :
    (c : ℕ) (parts : List Text) → first_part (onto_first c parts) ≡ c ∷ first_part parts
first_part-onto_first c [] = refl
first_part-onto_first c (s ∷ parts) = refl

-- A text that does not begin with two dots has another first part.
first_part-ne : (s : Text) → starts_with dots s ≡ false → first_part (split b'/' s) ≢ dots
first_part-ne [] h e = cc
first_part-ne (a ∷ []) h e = let f = first_part-onto_first a ([] ∷ []) in ground arith
first_part-ne (a ∷ b ∷ s) h e =
    let f = first_part-onto_first a (split b'/' (b ∷ s)) in
    let g = first_part-onto_first b (split b'/' s) in ground arith

onto_first-NoneIs :
    (c : ℕ) (parts : List Text)
    → NoneIs dots parts
    → first_part (onto_first c parts) ≢ dots
    → NoneIs dots (onto_first c parts)
onto_first-NoneIs c [] n h = (h, tt)
onto_first-NoneIs c (s ∷ parts) n h = (h, n.1)

pub split-NoneIs : (s : Text) → contains dots s ≡ false → NoneIs dots (split b'/' s)
split-NoneIs [] h = ((λ e. cc), tt)
split-NoneIs (c ∷ s) h =
    let ih = split-NoneIs s (ground arith) in
    let first : first_part (split b'/' (c ∷ s)) ≢ dots = first_part-ne (c ∷ s) (ground arith) in
    elim (Bool-cases (c == b'/')) [
      | inl slash ↦ rw slash ((λ e. cc), ih)
      | inr other ↦ rw other (onto_first-NoneIs c (split b'/' s) ih (rw other at first))
    ]

-- A remote path that `validate_remote_path` accepts is the path it was given. It is not empty and
-- not absolute, none of its parts is "..", and all of its characters are in [a-zA-Z0-9._/-].
pub validate_remote_path-IsBelow :
    (path accepted : Text)
    → validate_remote_path path ≡ ok accepted
    → (accepted ≡ path)
      × (is_empty path ≡ false)
      × (starts_with (b'/' ∷ []) path ≡ false)
      × NoneIs dots (split b'/' path)
      × (all is_allowed path ≡ true)
unfolding validate_remote_path
validate_remote_path-IsBelow path accepted h =
    let inside : contains dots path ≡ false = ground arith in
    (ground arith, ground arith, ground arith, split-NoneIs path inside, ground arith)
