-- ===== src/Manifest/Hierarchy/Depth.antt =====
-- Depths of nodes, and why no node is deeper than there are nodes.
use arx_runa.Prelude.{
  ℕ, zero, suc, ◌≤◌, ◌<◌, ◌≡◌, ◌≢◌, refl, sym, ap, subst, true, none, some, List, [], ◌∷◌, length,
  ◌==◌, if◌then◌else◌, arith,
}
use arx_runa.Manifest.Types.{Node}
use arx_runa.Manifest.Store.{has_node}
use arx_runa.Manifest.Nodes.{find_node}

-- The parents of the node end at a root, after a number of steps.
pub data Depth (nodes : List Node) : ℕ → ℕ → Type 0 where
  root : (i : ℕ) (n : Node) → find_node nodes i ≡ some n → n.parent_id ≡ none → Depth nodes i zero
  under :
      (i : ℕ) (n : Node) (p d : ℕ)
      → find_node nodes i ≡ some n
      → n.parent_id ≡ some p
      → Depth nodes p d
      → Depth nodes i (suc d)

-- Every node has a depth: there is no cycle, and no parent is missing.
abbrev pub IsForest : List Node → Type 0
IsForest nodes = (i : ℕ) (n : Node) → find_node nodes i ≡ some n → (d : ℕ) × Depth nodes i d

pub find_node-has_node :
    (nodes : List Node) (i : ℕ) (n : Node) → find_node nodes i ≡ some n → has_node nodes i ≡ true
unfolding find_node has_node
find_node-has_node [] i n h = cc
find_node-has_node (o ∷ nodes) i n h = ground (arith, find_node-has_node nodes i n)

-- Distinct identifiers of rows are no more than the rows.
abbrev remove : ℕ → List Node → List Node
remove x [] = []
remove x (n ∷ nodes) = let rest = remove x nodes in if n.node_id == x then rest else n ∷ rest

remove_le : (x : ℕ) (nodes : List Node) → length (remove x nodes) ≤ length nodes
remove_le x [] = omega arith
remove_le x (n ∷ nodes) = ground (arith, remove_le x nodes)

remove_lt :
    (x : ℕ) (nodes : List Node) → has_node nodes x ≡ true → length (remove x nodes) < length nodes
unfolding has_node
remove_lt x [] h = cc
remove_lt x (n ∷ nodes) h = ground (arith, remove_le x nodes, remove_lt x nodes)

has_node-remove :
    (x y : ℕ) (nodes : List Node)
    → x ≢ y
    → has_node nodes y ≡ true
    → has_node (remove x nodes) y ≡ true
unfolding has_node
has_node-remove x y [] ne h = cc
has_node-remove x y (n ∷ nodes) ne h = ground (arith, has_node-remove x y nodes ne)

abbrev NotIn : ℕ → List ℕ → Type 0
NotIn x [] = Unit
NotIn x (y ∷ ys) = (x ≢ y) × NotIn x ys

abbrev IsDistinct : List ℕ → Type 0
IsDistinct [] = Unit
IsDistinct (x ∷ xs) = NotIn x xs × IsDistinct xs

abbrev AreNodes : List Node → List ℕ → Type 0
AreNodes nodes [] = Unit
AreNodes nodes (x ∷ xs) = (has_node nodes x ≡ true) × AreNodes nodes xs

AreNodes-remove :
    (x : ℕ) (nodes : List Node) (ys : List ℕ)
    → NotIn x ys
    → AreNodes nodes ys
    → AreNodes (remove x nodes) ys
AreNodes-remove x nodes [] n a = tt
AreNodes-remove x nodes (y ∷ ys) n a =
    (has_node-remove x y nodes n.0 a.0, AreNodes-remove x nodes ys n.1 a.1)

distinct_le :
    (xs : List ℕ) (nodes : List Node) → IsDistinct xs → AreNodes nodes xs → length xs ≤ length nodes
distinct_le [] nodes d a = omega arith
distinct_le (x ∷ xs) nodes d a =
    let rest = distinct_le xs (remove x nodes) d.1 (AreNodes-remove x nodes xs d.0 a.1) in
    omega (arith, remove_lt x nodes a.0)

module _ (nodes : List Node) where
  pub Depth_unique : (i d e : ℕ) → Depth nodes i d → Depth nodes i e → d ≡ e
  Depth_unique i zero zero (root _ n f k) (root _ o g l) = refl
  Depth_unique i zero (suc e) (root _ n f k) (under _ o p _ g l x) = absurd (cc (f, g, k, l))
  Depth_unique i (suc d) zero (under _ n p _ f k x) (root _ o g l) = absurd (cc (f, g, k, l))
  Depth_unique i (suc d) (suc e) (under _ n p _ f k x) (under _ o q _ g l y) =
      let same : q ≡ p = cc (f, g, k, l) in
      ap suc (Depth_unique p d e x (subst (λ z. Depth nodes z e) same y))

  abbrev AreShallow : ℕ → List ℕ → Type 0
  AreShallow d [] = Unit
  AreShallow d (x ∷ xs) = ((e : ℕ) × (e ≤ d) × Depth nodes x e) × AreShallow d xs

  AreShallow-NotIn : (i d : ℕ) (xs : List ℕ) → Depth nodes i (suc d) → AreShallow d xs → NotIn i xs
  AreShallow-NotIn i d [] x s = tt
  AreShallow-NotIn i d (y ∷ ys) x ((e, le, z), s) = (
    (λ same.
        absurd
          (omega (arith, Depth_unique i (suc d) e x (subst (λ j. Depth nodes j e) (sym same) z)))),
    AreShallow-NotIn i d ys x s,
  )

  AreShallow-suc : (d : ℕ) (xs : List ℕ) → AreShallow d xs → AreShallow (suc d) xs
  AreShallow-suc d [] s = tt
  AreShallow-suc d (x ∷ xs) ((e, le, z), s) = ((e, omega arith, z), AreShallow-suc d xs s)

  -- The node and its ancestors.
  ancestors :
      (i d : ℕ)
      → Depth nodes i d
      → (xs : List ℕ) × (length xs ≡ suc d) × IsDistinct xs × AreNodes nodes xs × AreShallow d xs
  ancestors i zero (root _ n f k) = (
    i ∷ [],
    refl,
    (tt, tt),
    (find_node-has_node nodes i n f, tt),
    ((zero, omega arith, root i n f k), tt),
  )
  ancestors i (suc d) (under _ n p _ f k x) =
      let (xs, len, distinct, are, shallow) = ancestors p d x in
      (
        i ∷ xs,
        ap suc len,
        (AreShallow-NotIn i d xs (under i n p d f k x) shallow, distinct),
        (find_node-has_node nodes i n f, are),
        ((suc d, omega arith, under i n p d f k x), AreShallow-suc d xs shallow),
      )

  -- No node is as deep as there are nodes.
  pub Depth-lt-length : (i d : ℕ) → Depth nodes i d → d < length nodes
  Depth-lt-length i d x =
      let (xs, len, distinct, are, shallow) = ancestors i d x in
      omega (arith, distinct_le xs nodes distinct are)
