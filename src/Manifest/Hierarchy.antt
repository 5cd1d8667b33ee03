-- ===== src/Manifest/Hierarchy.antt =====
-- The tree of nodes: list_children, rename_node and move_node of sqlcipher.rs.
pub mod Depth
pub mod Subtree
pub mod Moving
use arx_runa.Prelude.{
  ℕ, zero, suc, Bool, true, false, ◌||◌, Option, none, some, List, [], ◌∷◌, ◌++◌, Text, length, leb,
  ltb, ◌==◌, if◌then◌else◌, Result, ok, err,
}
use arx_runa.World.{Env, Exec, ◌>>=◌, ◌>>◌, pure, raise, lift}
use arx_runa.World.Files.{attempt}
use arx_runa.Storage.Error.{StorageError, database, not_found, constraint_violation}
use arx_runa.Manifest.Types.{Node}
use arx_runa.Manifest.Store.{transaction, get_manifest, put_manifest, has_node}
use arx_runa.Manifest.Nodes.{find_node, type_of, validate_parent_type}

abbrev pub is_parent : ℕ → Option ℕ → Bool
is_parent node_id none = false
is_parent node_id (some p) = p == node_id

-- `SELECT node_id FROM nodes WHERE parent_id = ?1`.
unfoldable pub children : List Node → ℕ → List ℕ
children [] node_id = []
children (n ∷ nodes) node_id =
    let rest = children nodes node_id in
    if is_parent node_id n.parent_id then n.node_id ∷ rest else rest

unfoldable pub children_of : List Node → List ℕ → List ℕ
unfolding children
children_of nodes [] = []
children_of nodes (i ∷ ids) = children nodes i ++ children_of nodes ids

-- The recursive query: a set of rows, the rows that hang on these, and so on, for a number of rounds.
unfoldable pub levels : ℕ → List Node → List ℕ → List ℕ
unfolding children_of
levels zero nodes ids = []
levels (suc rounds) nodes ids = ids ++ levels rounds nodes (children_of nodes ids)

-- `subtree` of `move_node`, which begins below the node.
unfoldable pub below : List Node → ℕ → List ℕ
unfolding levels children
below nodes node_id = levels (length nodes) nodes (children nodes node_id)

abbrev pub has_id : List ℕ → ℕ → Bool
has_id [] i = false
has_id (j ∷ ids) i = j == i || has_id ids i

unfoldable pub exists_or : List Node → ℕ → Result StorageError (Unit {0})
unfolding has_node
exists_or nodes node_id = if has_node nodes node_id then ok tt else err not_found

unfoldable pub creates_no_cycle : List Node → ℕ → ℕ → Result StorageError (Unit {0})
unfolding below
creates_no_cycle nodes node_id parent_id =
    if has_id (below nodes node_id) parent_id then err constraint_violation else ok tt

-- The rows behind an `UPDATE`.
unfoldable pub set_parent : List Node → ℕ → Option ℕ → ℕ → List Node
set_parent [] node_id new_parent_id modified_at = []
set_parent (n ∷ nodes) node_id new_parent_id modified_at =
    (if n.node_id == node_id
      then record n { parent_id = new_parent_id; modified_at = modified_at }
      else n)
    ∷ set_parent nodes node_id new_parent_id modified_at

unfoldable pub set_name : List Node → ℕ → Text → ℕ → List Node
set_name [] node_id new_name modified_at = []
set_name (n ∷ nodes) node_id new_name modified_at =
    (if n.node_id == node_id then record n { name = new_name; modified_at = modified_at } else n)
    ∷ set_name nodes node_id new_name modified_at

-- `ORDER BY name ASC`, by code points.
abbrev pub name_le : Text → Text → Bool
name_le [] t = true
name_le (c ∷ s) [] = false
name_le (c ∷ s) (d ∷ t) = let rest = name_le s t in if c == d then rest else ltb c d

unfoldable pub insert_by_name : Node → List Node → List Node
insert_by_name n [] = n ∷ []
insert_by_name n (o ∷ nodes) =
    if name_le n.name o.name then n ∷ o ∷ nodes else o ∷ insert_by_name n nodes

unfoldable pub child_rows : List Node → ℕ → List Node
unfolding insert_by_name
child_rows [] parent_id = []
child_rows (n ∷ nodes) parent_id =
    let rest = child_rows nodes parent_id in
    if is_parent parent_id n.parent_id then insert_by_name n rest else rest

module _ (env : Env) where
  unfoldable pub list_children : ℕ → Exec (List Node)
  unfolding attempt child_rows
  list_children parent_id = do
    attempt env database
    m ← get_manifest
    pure (child_rows m.nodes parent_id)

  abbrev pub check_new_parent : ℕ → Option ℕ → Exec (Unit {0})
  check_new_parent node_id none = pure tt
  check_new_parent node_id (some parent_id) =
      if parent_id == node_id then raise constraint_violation else (do
        attempt env database
        m ← get_manifest
        lift (validate_parent_type (type_of (find_node m.nodes parent_id)))
        attempt env database
        m' ← get_manifest
        lift (creates_no_cycle m'.nodes node_id parent_id))

  unfoldable pub ensure_move_respects_hierarchy : ℕ → Option ℕ → Exec (Unit {0})
  unfolding attempt exists_or creates_no_cycle
  ensure_move_respects_hierarchy node_id new_parent_id = do
    attempt env database
    m ← get_manifest
    lift (exists_or m.nodes node_id)
    check_new_parent node_id new_parent_id

  abbrev pub update_rows : ℕ → Option ℕ → ℕ → Exec (Unit {0})
  update_rows node_id new_parent_id modified_at = do
    attempt env database
    m ← get_manifest
    put_manifest (record m { nodes = set_parent m.nodes node_id new_parent_id modified_at })

  -- What `move_node` does in its transaction.
  abbrev pub moves : ℕ → Option ℕ → ℕ → Exec (Unit {0})
  moves node_id new_parent_id modified_at = do
    ensure_move_respects_hierarchy node_id new_parent_id
    update_rows node_id new_parent_id modified_at

  unfoldable pub move_node : ℕ → Option ℕ → ℕ → Exec (Unit {0})
  unfolding attempt ensure_move_respects_hierarchy set_parent
  move_node node_id new_parent_id modified_at =
      transaction env (moves node_id new_parent_id modified_at)

  unfoldable pub rename_node : ℕ → Text → ℕ → Exec (Unit {0})
  unfolding attempt exists_or set_name
  rename_node node_id new_name modified_at = transaction env (do
    attempt env database
    m ← get_manifest
    lift (exists_or m.nodes node_id)
    put_manifest (record m { nodes = set_name m.nodes node_id new_name modified_at }))
