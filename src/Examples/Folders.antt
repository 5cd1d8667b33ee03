-- ===== src/Examples/Folders.antt =====
-- A move of a folder in a small tree.
use arx_runa.Prelude.{
  ℕ, refl, subst, Bool-cases, inl, inr, Option, none, some, List, [], ◌∷◌, codes, ◌==◌, arith,
}
use arx_runa.World.{World}
use arx_runa.Manifest.Types.{Node, directory}
use arx_runa.Manifest.Nodes.{find_node}
use arx_runa.Manifest.Hierarchy.{move_node}
use arx_runa.Manifest.Hierarchy.Depth.{Depth, root, under, IsForest}
use arx_runa.Manifest.Hierarchy.Moving.{move_node-IsForest}
use arx_runa.Examples.Toy.{env, world}

abbrev folder : ℕ → Option ℕ → Node
folder node_id parent_id = record {
  node_id = node_id;
  parent_id = parent_id;
  node_type = directory;
  name = codes "folder";
  created_at = 0;
  modified_at = 0;
  size_bytes = 0;
  file_key_wrapped = none;
}

abbrev folders : List Node
folders = folder 1 none ∷ folder 2 (some 1) ∷ folder 3 (some 2) ∷ []

abbrev tree : World
tree = record world { manifest = record world.manifest { nodes = folders } }

top : Depth folders 1 0
unfolding find_node
top = root 1 (folder 1 none) refl refl

middle : Depth folders 2 1
unfolding find_node
middle = under 2 (folder 2 (some 1)) 1 0 refl refl top

bottom : Depth folders 3 2
unfolding find_node
bottom = under 3 (folder 3 (some 2)) 2 1 refl refl middle

folders-IsForest : IsForest folders
unfolding find_node
folders-IsForest i n h = elim (Bool-cases (1 == i)) [
  | inl a ↦ (0, subst (λ z. Depth folders z 0) (ground arith) top)
  | inr a ↦ elim (Bool-cases (2 == i)) [
    | inl b ↦ (1, subst (λ z. Depth folders z 1) (ground arith) middle)
    | inr b ↦ elim (Bool-cases (3 == i)) [
      | inl c ↦ (2, subst (λ z. Depth folders z 2) (ground arith) bottom)
      | inr c ↦ absurd (ground (arith, a, b, c))
    ]
  ]
]

move_node-IsForest_example : IsForest (move_node env 3 (some 1) 5 tree).1.manifest.nodes
move_node-IsForest_example = move_node-IsForest env 3 (some 1) 5 tree folders-IsForest
