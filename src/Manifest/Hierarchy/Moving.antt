-- ===== src/Manifest/Hierarchy/Moving.antt =====
-- `move_node` of sqlcipher.rs keeps the nodes a forest.
use arx_runa.Prelude.{
  ℕ, zero, suc, ◌≡◌, ◌≢◌, refl, sym, ap, ◌∙◌, subst, ◌⊎◌, inl, inr, Bool-cases, true, Option, none,
  some, List, [], ◌∷◌, ◌==◌, arith, Result-cases, ok,
}
use arx_runa.World.{Env, World, Fate-cases}
use arx_runa.World.Files.{attempt}
use arx_runa.Manifest.Types.{Manifest, Node}
use arx_runa.Manifest.Store.{settle-err, has_node}
use arx_runa.Manifest.Store.Transactions.{transaction-ok}
use arx_runa.Manifest.Nodes.{find_node, type_of, validate_parent_type}
use arx_runa.Manifest.Hierarchy.{
  creates_no_cycle, set_parent, update_rows, exists_or, moves, check_new_parent,
  ensure_move_respects_hierarchy, move_node,
}
use arx_runa.Manifest.Hierarchy.Depth.{Depth, root, under, IsForest}
use arx_runa.Manifest.Hierarchy.Subtree.{Below, child, deeper, has_id-below}

set_parent_ne :
    (nodes : List Node) (x i : ℕ) (new_parent_id : Option ℕ) (at : ℕ)
    → i ≢ x
    → find_node (set_parent nodes x new_parent_id at) i ≡ find_node nodes i
unfolding find_node set_parent
set_parent_ne [] x i new_parent_id at ne = refl
set_parent_ne (o ∷ nodes) x i new_parent_id at ne =
    ground (arith, set_parent_ne nodes x i new_parent_id at ne)

set_parent_eq :
    (nodes : List Node) (x : ℕ) (new_parent_id : Option ℕ) (at : ℕ) (n : Node)
    → find_node nodes x ≡ some n
    → (n' : Node) × (find_node (set_parent nodes x new_parent_id at) x ≡ some n')
      × (n'.parent_id ≡ new_parent_id)
unfolding find_node set_parent
set_parent_eq [] x new_parent_id at n h = absurd (cc (h))
set_parent_eq (o ∷ nodes) x new_parent_id at n h = elim (Bool-cases (o.node_id == x)) [
  | inl here ↦ (record o { parent_id = new_parent_id; modified_at = at }, ground arith, refl)
  | inr there ↦
      let (n', found, parent) = set_parent_eq nodes x new_parent_id at n (rw there at h) in
      (n', ground arith, parent)
]

find_node-set_parent :
    (nodes : List Node) (x i : ℕ) (new_parent_id : Option ℕ) (at : ℕ) (n' : Node)
    → find_node (set_parent nodes x new_parent_id at) i ≡ some n'
    → (n : Node) × (find_node nodes i ≡ some n)
unfolding find_node set_parent
find_node-set_parent [] x i new_parent_id at n' h = absurd (cc (h))
find_node-set_parent (o ∷ nodes) x i new_parent_id at n' h = elim (Bool-cases (o.node_id == i)) [
  | inl here ↦ (o, ground arith)
  | inr there ↦
      let (n, found) = find_node-set_parent nodes x i new_parent_id at n' (ground arith) in
      (n, ground arith)
]

has_node-find_node :
    (nodes : List Node) (i : ℕ)
    → has_node nodes i ≡ true
    → (n : Node) × (find_node nodes i ≡ some n)
unfolding find_node has_node
has_node-find_node [] i h = absurd (cc (h))
has_node-find_node (o ∷ nodes) i h = elim (Bool-cases (o.node_id == i)) [
  | inl here ↦ (o, ground arith)
  | inr there ↦ let (n, found) = has_node-find_node nodes i (ground arith) in (n, ground arith)
]

module _ (nodes : List Node) (x at : ℕ) (new_parent_id : Option ℕ) where
  abbrev moved : List Node
  moved = set_parent nodes x new_parent_id at

  -- A node keeps its depth, or it is the one that moves, or it is below that.
  spared : (i d : ℕ) → Depth nodes i d → Depth moved i d ⊎ ((i ≡ x) ⊎ ((k : ℕ) × Below nodes x i k))
  spared i zero (root _ n f e) = elim (Bool-cases (i == x)) [
    | inl same ↦ inr (inl (ground arith))
    | inr other ↦ inl (root i n (set_parent_ne nodes x i new_parent_id at (ground arith) ∙ f) e)
  ]
  spared i (suc d) (under _ n p _ f e depth) = elim (spared p d depth) [
    | inr (inl top) ↦ inr (inr (zero, child i n f (e ∙ ap some top)))
    | inr (inr (k, b)) ↦ inr (inr (suc k, deeper i n p k f e b))
    | inl kept ↦ elim (Bool-cases (i == x)) [
      | inl same ↦ inr (inl (ground arith))
      | inr other ↦
          inl (under i n p d (set_parent_ne nodes x i new_parent_id at (ground arith) ∙ f) e kept)
    ]
  ]

  -- Where the node that moves has a depth behind the move, every node has.
  resettled : ((d : ℕ) × Depth moved x d) → (i d : ℕ) → Depth nodes i d → (e : ℕ) × Depth moved i e
  resettled (d₀, top) i zero (root _ n f e) = elim (Bool-cases (i == x)) [
    | inl same ↦ (d₀, subst (λ z. Depth moved z d₀) (ground arith) top)
    | inr other ↦ (zero, root i n (set_parent_ne nodes x i new_parent_id at (ground arith) ∙ f) e)
  ]
  resettled (d₀, top) i (suc d) (under _ n p _ f e depth) = elim (Bool-cases (i == x)) [
    | inl same ↦ (d₀, subst (λ z. Depth moved z d₀) (ground arith) top)
    | inr other ↦
        let (d', kept) = resettled (d₀, top) p d depth in
        (
          suc d',
          under i n p d' (set_parent_ne nodes x i new_parent_id at (ground arith) ∙ f) e kept,
        )
  ]

  moved-IsForest : IsForest nodes → ((d : ℕ) × Depth moved x d) → IsForest moved
  moved-IsForest forest top i n' found =
      let (n, f) = find_node-set_parent nodes x i new_parent_id at n' found in
      let (d, depth) = forest i n f in resettled top i d depth

type_of-find_node :
    (o : Option Node) → validate_parent_type (type_of o) ≡ ok tt → (n : Node) × (o ≡ some n)
unfolding validate_parent_type
type_of-find_node none h = absurd (cc (h))
type_of-find_node (some n) h = (n, refl)

-- The checks of a move give the node that moves a depth.
checked :
    (nodes : List Node) (x at p : ℕ)
    → IsForest nodes
    → has_node nodes x ≡ true
    → p ≢ x
    → validate_parent_type (type_of (find_node nodes p)) ≡ ok tt
    → creates_no_cycle nodes x p ≡ ok tt
    → (d : ℕ) × Depth (set_parent nodes x (some p) at) x d
unfolding creates_no_cycle
checked nodes x at p forest exists ne typed acyclic =
    let (n, f) = type_of-find_node (find_node nodes p) typed in
    let (d, depth) = forest p n f in
    let (o, g) = has_node-find_node nodes x exists in
    let (n', f', e') = set_parent_eq nodes x (some p) at o g in
    elim (spared nodes x at (some p) p d depth) [
      | inl kept ↦ (suc d, under x n' p d f' e' kept)
      | inr (inl same) ↦ absurd (ne same)
      | inr (inr (k, b)) ↦ let inside = has_id-below nodes x p k d b depth in absurd (ground arith)
    ]

module _ (env : Env) where
  check_new_parent-ok :
      (x : ℕ) (new_parent_id : Option ℕ) (at : ℕ) (w w' : World)
      → IsForest w.manifest.nodes
      → has_node w.manifest.nodes x ≡ true
      → check_new_parent env x new_parent_id w ≡ (ok tt, w')
      → ((d : ℕ) × Depth (set_parent w.manifest.nodes x new_parent_id at) x d)
        × (w'.manifest ≡ w.manifest)
  unfolding attempt
  check_new_parent-ok x none at w w' forest exists h =
      let (o, g) = has_node-find_node w.manifest.nodes x exists in
      let (n', f', e') = set_parent_eq w.manifest.nodes x none at o g in
      ((zero, root x n' f' e'), ap (λ y. y.1.manifest) (sym h))
  check_new_parent-ok x (some p) at w w' forest exists h = elim (Bool-cases (p == x)) [
    | inl same ↦ absurd (ground (arith, same))
    | inr other ↦ elim (Fate-cases (env.fate w.calls)) [
      | inr fails ↦ absurd (ground (arith, other, fails))
      | inl asked ↦ elim (Fate-cases (env.fate (suc w.calls))) [
        | inr fails ↦ absurd (ground (arith, other, asked, fails))
        | inl asked' ↦ (
          checked w.manifest.nodes x at p forest exists (ground (arith, other))
              (ground (arith, other, asked, asked')) (ground (arith, other, asked, asked')),
          ground (arith, other, asked, asked'),
        )
      ]
    ]
  ]

  updates :
      (x : ℕ) (new_parent_id : Option ℕ) (at : ℕ) (v w w' : World)
      → v.manifest ≡ w.manifest
      → update_rows env x new_parent_id at v ≡ (ok tt, w')
      → w'.manifest.nodes ≡ set_parent w.manifest.nodes x new_parent_id at
  unfolding attempt
  updates x new_parent_id at v w w' same h = elim (Fate-cases (env.fate v.calls)) [
    | inr fails ↦ absurd (ground (arith, fails))
    | inl asked ↦ ground (arith, asked)
  ]

  moves-ok :
      (x : ℕ) (new_parent_id : Option ℕ) (at : ℕ) (w w' : World)
      → IsForest w.manifest.nodes
      → moves env x new_parent_id at w ≡ (ok tt, w')
      → IsForest w'.manifest.nodes
  unfolding ensure_move_respects_hierarchy exists_or attempt
  moves-ok x new_parent_id at w w' forest h =
      let asked_world = record w { calls = suc w.calls } in
      let run = check_new_parent env x new_parent_id asked_world in
      elim (Fate-cases (env.fate w.calls)) [
        | inr fails ↦ absurd (ground (arith, fails))
        | inl asked ↦ elim (Bool-cases (has_node w.manifest.nodes x)) [
          | inr missing ↦ absurd (ground (arith, asked, missing))
          | inl exists ↦ elim (Result-cases run.0) [
            | inr (e, k) ↦ absurd (ground (arith, asked, exists, k))
            | inl (u, k) ↦
                let (top, kept) =
                  check_new_parent-ok x new_parent_id at asked_world run.1 forest exists
                    (ap (λ r. (r, run.1)) k) in
                let updated : w'.manifest.nodes ≡ set_parent w.manifest.nodes x new_parent_id at =
                  updates x new_parent_id at run.1 w w' kept (ground (arith, asked, exists, k)) in
                subst IsForest (sym updated)
                  (moved-IsForest w.manifest.nodes x at new_parent_id forest top)
          ]
        ]
      ]

  -- Whatever comes of a move, a forest stays a forest: no node is below itself, and none has a parent
  -- that is missing.
  pub move_node-IsForest :
      (x : ℕ) (new_parent_id : Option ℕ) (at : ℕ) (w : World)
      → IsForest w.manifest.nodes
      → IsForest (move_node env x new_parent_id at w).1.manifest.nodes
  unfolding move_node
  move_node-IsForest x new_parent_id at w forest =
      let run = move_node env x new_parent_id at w in
      elim (Result-cases run.0) [
        | inr (e, k) ↦
            let same = settle-err w.manifest _ _ run.1 e (ap (λ r. (r, run.1)) k) in
            subst (λ (m : Manifest). IsForest m.nodes) (sym same) forest
        | inl (u, k) ↦
            let (w₁, w₂, started, did, ended) =
              transaction-ok env (moves env x new_parent_id at) w run.1 tt
                (ap (λ r. (r, run.1)) k) in
            let begun = subst (λ (m : Manifest). IsForest m.nodes) (sym started) forest in
            subst (λ (m : Manifest). IsForest m.nodes) (sym ended)
              (moves-ok x new_parent_id at w₁ w₂ begun did)
      ]
