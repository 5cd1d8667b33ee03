-- ===== src/World/Paths.antt =====
-- Paths as their components, and the names of blob files.
use arx_runa.Prelude.{
  ◌≡◌, refl, ◌↔◌, Bool, true, false, ◌&&◌, List, [], ◌∷◌, ◌++◌, arith, Text, codes, ◌===◌, ===_iff,
}
use mathlib.Core.List.{append_cancel_left, append_cancel_right}

abbrev pub FilePath : Type 0
FilePath = List Text

-- `Path::join`, on a name with no separator.
unfoldable pub join : FilePath → Text → FilePath
join dir name = dir ++ (name ∷ [])

-- `format!("{blob_name}.blob")`.
unfoldable pub blob_file : Text → Text
blob_file blob_name = blob_name ++ codes ".blob"

unfoldable pub path_eq : FilePath → FilePath → Bool
path_eq [] [] = true
path_eq [] (y ∷ ys) = false
path_eq (x ∷ xs) [] = false
path_eq (x ∷ xs) (y ∷ ys) = x === y && path_eq xs ys

path_eq→eq : (p q : FilePath) → path_eq p q ≡ true → p ≡ q
unfolding path_eq
path_eq→eq [] [] h = refl
path_eq→eq [] (y ∷ ys) h = cc
path_eq→eq (x ∷ xs) [] h = cc
path_eq→eq (x ∷ xs) (y ∷ ys) h = ground (arith, ===_iff x y, path_eq→eq xs ys)

path_eq_refl : (p : FilePath) → path_eq p p ≡ true
unfolding path_eq
path_eq_refl [] = refl
path_eq_refl (x ∷ xs) = ground (arith, ===_iff x x, path_eq_refl xs)

pub path_eq_iff : (p q : FilePath) → (path_eq p q ≡ true) ↔ (p ≡ q)
path_eq_iff p q = (path_eq→eq p q, λ e. cc (e, path_eq_refl p))

-- Blobs of one folder with the same path have the same name.
pub join-blob_file_injective :
    (dir : FilePath) (a b : Text) → join dir (blob_file a) ≡ join dir (blob_file b) → a ≡ b
unfolding join blob_file
join-blob_file_injective dir a b e =
    append_cancel_right a b (codes ".blob") (cc (append_cancel_left dir _ _ e))
