-- ===== src/Manifest/Hierarchy/Subtree.antt =====
-- The recursive query of sqlcipher.rs finds every node below another, in as many rounds as there are
-- nodes.
use arx_runa.Prelude.{
  ℕ, zero, suc, ◌<◌, ◌≡◌, refl, sym, ap, ◌∙◌, subst, Bool-cases, true, inl, inr, ◌||◌, Option, none,
  some, List, [], ◌∷◌, ◌++◌, length, ◌==◌, arith,
}
use arx_runa.Manifest.Types.{Node}
use arx_runa.Manifest.Nodes.{find_node}
use arx_runa.Manifest.Hierarchy.{is_parent, children, children_of, levels, below, has_id}
use arx_runa.Manifest.Hierarchy.Depth.{Depth, root, under, Depth-lt-length}

-- The second node is that many steps, and one, below the first.
pub data Below (nodes : List Node) (x : ℕ) : ℕ → ℕ → Type 0 where
  child :
      (i : ℕ) (n : Node) → find_node nodes i ≡ some n → n.parent_id ≡ some x → Below nodes x i zero
  deeper :
      (i : ℕ) (n : Node) (p k : ℕ)
      → find_node nodes i ≡ some n
      → n.parent_id ≡ some p
      → Below nodes x p k
      → Below nodes x i (suc k)

pub has_id-append : (xs ys : List ℕ) (i : ℕ) → has_id (xs ++ ys) i ≡ (has_id xs i || has_id ys i)
has_id-append [] ys i = refl
has_id-append (x ∷ xs) ys i = ground (arith, has_id-append xs ys i)

is_parent_self : (p : ℕ) (o : Option ℕ) → o ≡ some p → is_parent p o ≡ true
is_parent_self p none e = cc
is_parent_self p (some q) e = ground arith

pub find_node_id :
    (nodes : List Node) (i : ℕ) (n : Node) → find_node nodes i ≡ some n → n.node_id ≡ i
unfolding find_node
find_node_id [] i n h = cc
find_node_id (o ∷ nodes) i n h = ground (arith, find_node_id nodes i n)

has_id-children :
    (nodes : List Node) (i p : ℕ) (n : Node)
    → find_node nodes i ≡ some n
    → n.parent_id ≡ some p
    → has_id (children nodes p) i ≡ true
unfolding find_node children
has_id-children [] i p n h k = cc
has_id-children (o ∷ nodes) i p n h k = elim (Bool-cases (o.node_id == i)) [
  | inl here ↦
      let same : o ≡ n = ground arith in
      let hangs = is_parent_self p o.parent_id (ap (λ (z : Node). z.parent_id) same ∙ k) in
      rw hangs (ground arith)
  | inr there ↦ let ih = has_id-children nodes i p n (rw there at h) k in ground arith
]

has_id-children_of :
    (nodes : List Node) (ids : List ℕ) (p i : ℕ)
    → has_id ids p ≡ true
    → has_id (children nodes p) i ≡ true
    → has_id (children_of nodes ids) i ≡ true
unfolding children_of
has_id-children_of nodes [] p i h k = cc
has_id-children_of nodes (j ∷ ids) p i h k =
    let split = has_id-append (children nodes j) (children_of nodes ids) i in
    elim (Bool-cases (j == p)) [
      | inl same ↦
          let e : j ≡ p = ground arith in
          let found = subst (λ z. has_id (children nodes z) i ≡ true) (sym e) k in
          ground (arith, split)
      | inr other ↦ ground (arith, split, has_id-children_of nodes ids p i)
    ]

abbrev iterate : List Node → ℕ → List ℕ → List ℕ
iterate nodes zero ids = ids
iterate nodes (suc k) ids = children_of nodes (iterate nodes k ids)

iterate_shift :
    (nodes : List Node) (k : ℕ) (ids : List ℕ)
    → iterate nodes (suc k) ids ≡ iterate nodes k (children_of nodes ids)
iterate_shift nodes zero ids = refl
iterate_shift nodes (suc k) ids = ap (children_of nodes) (iterate_shift nodes k ids)

has_id-levels :
    (nodes : List Node) (rounds k : ℕ) (ids : List ℕ) (i : ℕ)
    → k < rounds
    → has_id (iterate nodes k ids) i ≡ true
    → has_id (levels rounds nodes ids) i ≡ true
unfolding levels
has_id-levels nodes zero k ids i h f = elim h [ ]
has_id-levels nodes (suc rounds) zero ids i h f =
    ground (arith, has_id-append ids (levels rounds nodes (children_of nodes ids)) i)
has_id-levels nodes (suc rounds) (suc k) ids i h f =
    let shifted = subst (λ z. has_id z i ≡ true) (iterate_shift nodes k ids) f in
    let ih = has_id-levels nodes rounds k (children_of nodes ids) i (omega arith) shifted in
    ground (arith, has_id-append ids (levels rounds nodes (children_of nodes ids)) i)

module _ (nodes : List Node) (x : ℕ) where
  Below-iterate :
      (i k : ℕ) → Below nodes x i k → has_id (iterate nodes k (children nodes x)) i ≡ true
  Below-iterate i zero (child _ n f e) = has_id-children nodes i x n f e
  Below-iterate i (suc k) (deeper _ n p _ f e b) =
      has_id-children_of nodes (iterate nodes k (children nodes x)) p i (Below-iterate p k b)
        (has_id-children nodes i p n f e)

  Below-lt-Depth : (i k d : ℕ) → Below nodes x i k → Depth nodes i d → k < d
  Below-lt-Depth i zero zero (child _ n f e) (root _ o g l) = absurd (cc (f, g, e, l))
  Below-lt-Depth i zero (suc d) b x' = omega arith
  Below-lt-Depth i (suc k) zero (deeper _ n p _ f e b) (root _ o g l) = absurd (cc (f, g, e, l))
  Below-lt-Depth i (suc k) (suc d) (deeper _ n p _ f e b) (under _ o q _ g l y) =
      let same : q ≡ p = cc (f, g, e, l) in
      omega (arith, Below-lt-Depth p k d b (subst (λ z. Depth nodes z d) same y))

  -- A node with a depth that is below `x` is in the result of the query.
  pub has_id-below :
      (i k d : ℕ) → Below nodes x i k → Depth nodes i d → has_id (below nodes x) i ≡ true
  unfolding below
  has_id-below i k d b y =
      has_id-levels nodes (length nodes) k (children nodes x) i
        (omega (arith, Below-lt-Depth i k d b y, Depth-lt-length nodes i d y)) (Below-iterate i k b)
