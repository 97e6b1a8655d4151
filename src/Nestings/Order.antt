-- ===== src/Nestings/Order.antt =====
-- Nesting levels as an order for the import of transformation revisions.
use hetida_designer.Prelude.{
  ℕ, ◌≤◌, ◌<◌, ◌≡◌, ap, subst, sym, some, List, get, nat_eq, arith, Memᴰ, ok,
}
use hetida_designer.Operator.{Operator, workflow}
use hetida_designer.Nestings.{Transformation, Transformations, operators_of, nesting_level}
use hetida_designer.Nestings.Depth.{HasDepth, leaf, node, MaxDepth, nothing, skipped, counted}
use hetida_designer.Nestings.Level.{nesting_level_iff}

-- An operator that is a workflow is at most as deep as the deepest one.
operator-HasDepth :
    {dict : Transformations} {ops : List Operator} {n : ℕ} {op : Operator}
    → MaxDepth dict ops n
    → Memᴰ op ops
    → op.type ≡ workflow
    → (m : ℕ) × HasDepth dict op.transformation_id m × (m ≤ n)
operator-HasDepth nothing i is_workflow = elim i [ ]
operator-HasDepth (skipped p deep) (Memᴰ.head e) is_workflow =
    cc (p, ap (λ (o : Operator). o.type) e)
operator-HasDepth (skipped p deep) (Memᴰ.tail i) is_workflow = operator-HasDepth deep i is_workflow
operator-HasDepth {dict} (counted m n p depth deep e) (Memᴰ.head same) is_workflow =
    (m, subst (λ (o : Operator). HasDepth dict o.transformation_id m) (sym same) depth, omega arith)
operator-HasDepth (counted m n p depth deep e) (Memᴰ.tail i) is_workflow =
    let (k, d, le) = operator-HasDepth deep i is_workflow in (k, d, omega arith)

below :
    {dict : Transformations} {id n : ℕ} {op : Operator} (t : Transformation) (ops : List Operator)
    → HasDepth dict id n
    → get id dict ≡ some t
    → t.type ≡ workflow
    → t.content ≡ operators_of ops
    → Memᴰ op ops
    → op.type ≡ workflow
    → (m : ℕ) × HasDepth dict op.transformation_id m × (m < n)
below t ops (leaf u found p) e q c i w = cc
below {dict} t ops (node {n = n} u others found p d deep) e q c i w =
    let same : others ≡ ops = cc in
    let (m, depth, le) = operator-HasDepth (subst (λ os. MaxDepth dict os n) same deep) i w in
    (m, depth, omega arith)

-- If a workflow has a nesting level, then the transformation of each of its operators that are
-- workflows has one too, and it is lower: in the order of the levels a workflow comes after all
-- workflows that it contains.
pub nesting_level-operators :
    (id n : ℕ) (op : Operator) (dict : Transformations) (t : Transformation) (ops : List Operator)
    → nesting_level id dict ≡ ok n
    → get id dict ≡ some t
    → t.type ≡ workflow
    → t.content ≡ operators_of ops
    → Memᴰ op ops
    → op.type ≡ workflow
    → (m : ℕ) × (nesting_level op.transformation_id dict ≡ ok m) × (m < n)
nesting_level-operators id n op dict t ops h e q c i w =
    let (m, depth, lt) = below t ops ((nesting_level_iff id n dict).0 h) e q c i w in
    (m, (nesting_level_iff op.transformation_id m dict).1 depth, lt)
