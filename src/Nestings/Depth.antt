-- ===== src/Nestings/Depth.antt =====
-- The nesting depth as a relation, without levels, fuel and the set of what was seen.
use hetida_designer.Prelude.{
  ℕ, suc, max, ◌≡◌, refl, ap, some, List, [], ◌∷◌, get, nat_eq, true, is_some,
}
use hetida_designer.Operator.{Operator, component, workflow}
use hetida_designer.Nestings.{Transformation, Transformations, operators_of}

mutual
  -- A component has depth 0, a workflow one more than the deepest of its operators that are
  -- workflows, and depth 1 if it has none.
  pub data HasDepth (dict : Transformations) : ℕ → ℕ → Type 0 where
    leaf :
        {id : ℕ} (t : Transformation)
        → get id dict ≡ some t
        → t.type ≡ component
        → HasDepth dict id 0
    node :
        {id n : ℕ} (t : Transformation) (operators : List Operator)
        → get id dict ≡ some t
        → t.type ≡ workflow
        → t.content ≡ operators_of operators
        → MaxDepth dict operators n
        → HasDepth dict id (suc n)

  pub data MaxDepth (dict : Transformations) : List Operator → ℕ → Type 0 where
    nothing : MaxDepth dict [] 0
    skipped :
        {op : Operator} {ops : List Operator} {n : ℕ}
        → op.type ≡ component
        → MaxDepth dict ops n
        → MaxDepth dict (op ∷ ops) n
    counted :
        {op : Operator} {ops : List Operator} {k : ℕ} (m n : ℕ)
        → op.type ≡ workflow
        → HasDepth dict op.transformation_id m
        → MaxDepth dict ops n
        → k ≡ max m n
        → MaxDepth dict (op ∷ ops) k

mutual
  depth_unique :
      (dict : Transformations) {id id' m n : ℕ}
      → HasDepth dict id m
      → HasDepth dict id' n
      → id ≡ id'
      → m ≡ n
  depth_unique dict (leaf t e p) (leaf u f q) s = refl
  depth_unique dict (leaf t e p) (node u ops f q c d) s = cc
  depth_unique dict (node t ops e p c d) (leaf u f q) s = cc
  depth_unique dict (node t ops e p c d) (node u ops' f q c' d') s =
      ap suc (max_unique dict d d' (cc))

  max_unique :
      (dict : Transformations) {ops ops' : List Operator} {m n : ℕ}
      → MaxDepth dict ops m
      → MaxDepth dict ops' n
      → ops ≡ ops'
      → m ≡ n
  max_unique dict nothing nothing s = refl
  max_unique dict nothing (skipped q d') s = cc
  max_unique dict nothing (counted m' n' q h' d' e') s = cc
  max_unique dict (skipped p d) nothing s = cc
  max_unique dict (skipped p d) (skipped q d') s = max_unique dict d d' (cc)
  max_unique dict (skipped p d) (counted m' n' q h' d' e') s = cc
  max_unique dict (counted m n p h d e) nothing s = cc
  max_unique dict (counted m n p h d e) (skipped q d') s = cc
  max_unique dict (counted {op} m n p h d e) (counted {op = op'} m' n' q h' d' e') s =
      let same : op ≡ op' = cc in
      cc (
        e,
        e',
        depth_unique dict h h' (ap (λ (o : Operator). o.transformation_id) same),
        max_unique dict d d' (cc),
      )

-- A transformation has at most one depth.
pub HasDepth-unique :
    (dict : Transformations) (id : ℕ) {m n : ℕ} → HasDepth dict id m → HasDepth dict id n → m ≡ n
HasDepth-unique dict id h k = depth_unique dict h k refl

pub HasDepth-found :
    {dict : Transformations} {id n : ℕ} → HasDepth dict id n → is_some (get id dict) ≡ true
HasDepth-found (leaf t e p) = rw e refl
HasDepth-found (node t ops e p c d) = rw e refl
