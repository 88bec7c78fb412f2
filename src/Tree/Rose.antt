-- ===== src/Tree/Rose.antt =====
-- The specification of tree.js: finite trees, their height, and the orders in which the two
-- traversals are to visit the nodes.
use incubator_htrace.Prelude.{ℕ, ◌+◌, max, ◌≡◌, List, [], ◌∷◌, ◌++◌}

mutual
  pub data Rose {ℓ} (A : Type ℓ) : Type ℓ where
    node : A → Forest A → Rose A

  pub data Forest {ℓ} (A : Type ℓ) : Type ℓ where
    nil : Forest A
    cons : Rose A → Forest A → Forest A

module _ {ℓ} {A : Type ℓ} where
  abbrev pub root : Rose A → A
  root (node a f) = a

  abbrev pub roots : Forest A → List A
  roots nil = []
  roots (cons t f) = root t ∷ roots f

  -- The number of edges on the longest downward path; of a forest, the number of levels.
  abbrev mutual
    pub height : Rose A → ℕ
    height (node a f) = levels f

    pub levels : Forest A → ℕ
    levels nil = 0
    levels (cons t f) = max (1 + height t) (levels f)

  -- `get` gives, at each node of the tree, the roots of the subtrees there.
  abbrev mutual
    pub IsTreeOf : (A → List A) → Rose A → Type ℓ
    IsTreeOf get (node a f) = (get a ≡ roots f) × AreTreesOf get f

    pub AreTreesOf : (A → List A) → Forest A → Type ℓ
    AreTreesOf get nil = Unit
    AreTreesOf get (cons t f) = IsTreeOf get t × AreTreesOf get f

  -- Parents before their descendants, each node with its depth.
  abbrev mutual
    pub preorder : Rose A → ℕ → List (A × ℕ)
    preorder (node a f) depth = (a, depth) ∷ preorders f (depth + 1)

    pub preorders : Forest A → ℕ → List (A × ℕ)
    preorders nil depth = []
    preorders (cons t f) depth = preorder t depth ++ preorders f depth

  -- Descendants before their parents.
  abbrev mutual
    pub postorder : Rose A → ℕ → List (A × ℕ)
    postorder (node a f) depth = postorders f (depth + 1) ++ (a, depth) ∷ []

    pub postorders : Forest A → ℕ → List (A × ℕ)
    postorders nil depth = []
    postorders (cons t f) depth = postorder t depth ++ postorders f depth

  -- The callback at each visit, in order.
  abbrev pub visit_all {κ} : {S : Type κ} → (A → ℕ → S → S) → List (A × ℕ) → S → S
  visit_all cb [] s = s
  visit_all cb ((a, depth) ∷ vs) s = visit_all cb vs (cb a depth s)
