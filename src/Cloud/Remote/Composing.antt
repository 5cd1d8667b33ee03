-- ===== src/Cloud/Remote/Composing.antt =====
-- `compose_remote_root` of remote_path.rs, read back.
use arx_runa.Prelude.{
  true, false, ◌≡◌, refl, [], ◌∷◌, ◌++◌, some, Text, arith, ◌==◌, ok, Result-cases, inl, inr,
}
use arx_runa.Prelude.Strings.{
  all, contains_char, contains, split, split_once, NoneIs, split_once-append, any-append,
}
use arx_runa.Cloud.Remote.{
  is_name_char, validate_remote_name, validate_remote_root_component, root_path,
  compose_remote_root,
}
use arx_runa.Cloud.Remote.Traversal.{dots, split-NoneIs}

no_colon : (s : Text) → all is_name_char s ≡ true → contains_char b':' s ≡ false
no_colon [] h = refl
no_colon (c ∷ s) h = let ih = no_colon s (ground arith) in ground arith

validate_remote_name-ok :
    (s t : Text) → validate_remote_name s ≡ ok t → (t ≡ s) × (contains_char b':' s ≡ false)
unfolding validate_remote_name
validate_remote_name-ok [] t h = cc
validate_remote_name-ok (c ∷ s) t h =
    let tail = no_colon s (ground arith) in (ground arith, ground arith)

-- A component of a root: no colon, and no two dots in a row.
abbrev IsComponent : Text → Type 0
IsComponent s = (contains_char b':' s ≡ false) × (contains dots s ≡ false)

IsComponent-ok :
    (s t : Text) → validate_remote_root_component s true ≡ ok t → (t ≡ s) × IsComponent s
unfolding validate_remote_root_component
IsComponent-ok [] t h = (ground arith, (refl, refl))
IsComponent-ok (c ∷ s) t h = (ground arith, (ground arith, ground arith))

-- No two dots meet across a slash.
contains-slash :
    (s t : Text)
    → contains dots s ≡ false
    → contains dots t ≡ false
    → contains dots (s ++ b'/' ∷ t) ≡ false
contains-slash [] t h k = ground arith
contains-slash (a ∷ []) t h k = ground arith
contains-slash (a ∷ b ∷ s) t h k =
    let ih = contains-slash (b ∷ s) t (ground arith) k in ground arith

root_path-IsComponent :
    (bucket prefix : Text)
    → IsComponent bucket
    → IsComponent prefix
    → IsComponent (root_path bucket prefix)
root_path-IsComponent bucket [] b p = b
root_path-IsComponent [] (c ∷ prefix) b p = p
root_path-IsComponent (a ∷ bucket) (c ∷ prefix) b p =
    let colon = any-append (λ d. d == b':') (a ∷ bucket) (b'/' ∷ c ∷ prefix) in
    (ground (arith, colon), contains-slash (a ∷ bucket) (c ∷ prefix) b.1 p.1)

-- What `compose_remote_root` gives is read back at its first colon: in front of it is the name of the
-- remote, behind it are the bucket and the prefix. No part of the path behind is "..", and no colon
-- is in it.
pub split_once-compose_remote_root :
    (name bucket prefix root : Text)
    → compose_remote_root name bucket prefix ≡ ok root
    → (split_once b':' root ≡ some (name, root_path bucket prefix))
      × (contains_char b':' (root_path bucket prefix) ≡ false)
      × NoneIs dots (split b'/' (root_path bucket prefix))
unfolding compose_remote_root
split_once-compose_remote_root name bucket prefix root h =
    elim (Result-cases (validate_remote_name name)) [
      | inr (e, k) ↦ absurd (ground (arith, k))
      | inl (name', k) ↦ elim (Result-cases (validate_remote_root_component bucket true)) [
        | inr (e, l) ↦ absurd (ground (arith, k, l))
        | inl (bucket', l) ↦ elim (Result-cases (validate_remote_root_component prefix true)) [
          | inr (e, o) ↦ absurd (ground (arith, k, l, o))
          | inl (prefix', o) ↦
              let n = validate_remote_name-ok name name' k in
              let b = IsComponent-ok bucket bucket' l in
              let p = IsComponent-ok prefix prefix' o in
              let inside = root_path-IsComponent bucket prefix b.1 p.1 in
              let back = split_once-append b':' name (root_path bucket prefix) n.1 in
              (
                ground (arith, k, l, o, back),
                inside.0,
                split-NoneIs (root_path bucket prefix) inside.1,
              )
        ]
      ]
    ]
