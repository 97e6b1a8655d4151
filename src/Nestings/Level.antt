-- ===== src/Nestings/Level.antt =====
-- The level that `nesting_level` returns, and the nesting depth.
use hetida_designer.Prelude.{
  ℕ, zero, suc, ◌+◌, ◌≤◌, ◌<◌, max, ◌≡◌, ◌↔◌, ◌⊎◌, ap, refl, true, false, some, List, [], ◌∷◌,
  any-Memᴰ, get, is_some, length, Memᴰ, ◌==◌, nat_eq, ==→≡, ==_self, arith, Bool-cases,
  Option-cases, inl, inr, Result, ok, err, ◌>>=◌, >>=-eq-ok, out_of_fuel,
}
use hetida_designer.Operator.{Operator, TrafoType, component, workflow, trafo_type_eq}
use hetida_designer.Nestings.{
  Transformation, Transformations, TrafoContent, code, operators_of, member, next_level,
  operators_level, trafo_level, nesting_level_from, nesting_level,
}
use hetida_designer.Nestings.Depth.{
  HasDepth, leaf, node, MaxDepth, nothing, skipped, counted, HasDepth-unique, HasDepth-found,
}
use hetida_designer.Nestings.Fuel.{nesting_level-ends}

module _ (nested : ℕ → Result ℕ) (dict : Transformations) (level : ℕ)
    (sound : (id k : ℕ) → nested id ≡ ok k → (n : ℕ) × HasDepth dict id n × (k ≡ level + n)) where
  next_cases :
      (next : ℕ) (op : Operator) {k : ℕ}
      → next_level nested dict next op ≡ ok k
      → ((op.type ≡ component) × (k ≡ next))
        ⊎ ((op.type ≡ workflow)
            × ((j : ℕ) × (nested op.transformation_id ≡ ok j) × (k ≡ max next j)))
  unfolding next_level
  next_cases next op {k} h = go op.type refl
    where
      go :
          (ty : TrafoType)
          → op.type ≡ ty
          → ((op.type ≡ component) × (k ≡ next))
            ⊎ ((op.type ≡ workflow)
                × ((j : ℕ) × (nested op.transformation_id ≡ ok j) × (k ≡ max next j)))
      go component e = inl (e, ground arith)
      go workflow e = inr (e, found (nested op.transformation_id) refl)
        where
          found :
              (r : Result ℕ)
              → nested op.transformation_id ≡ r
              → (j : ℕ) × (nested op.transformation_id ≡ ok j) × (k ≡ max next j)
          found (ok j) p = (j, p, ground arith)
          found (err x) p = absurd (ground arith)

  operators_sound :
      (next : ℕ) (ops : List Operator) {m : ℕ}
      → level ≤ next
      → operators_level nested dict next ops ≡ ok m
      → (n : ℕ) × MaxDepth dict ops n × (m ≡ max next (level + n))
  unfolding operators_level
  operators_sound next [] h e = (0, nothing, ground arith)
  operators_sound next (op ∷ ops) h e =
      let (next', step, rest) = >>=-eq-ok (next_level nested dict next op) _ e in
      elim (next_cases next op step) [
        | inl (p, q) ↦
            let (n, deep, eq) = operators_sound next' ops (omega arith) rest in
            (n, skipped p deep, omega arith)
        | inr (p, (j, run, q)) ↦
            let (d, depth, at) = sound op.transformation_id j run in
            let (n, deep, eq) = operators_sound next' ops (omega arith) rest in
            (max d n, counted d n p depth deep refl, omega arith)
      ]

trafo_sound :
    (nested : ℕ → Result ℕ) (dict : Transformations) (level : ℕ) (id : ℕ) {k : ℕ}
    (t : Transformation) (ty : TrafoType) (c : TrafoContent)
    → ((i j : ℕ) → nested i ≡ ok j → (n : ℕ) × HasDepth dict i n × (j ≡ level + 1 + n))
    → get id dict ≡ some t
    → t.type ≡ ty
    → t.content ≡ c
    → trafo_level nested dict level ty c ≡ ok k
    → (n : ℕ) × HasDepth dict id n × (k ≡ level + n)
unfolding trafo_level
trafo_sound nested dict level id t component c sound found p q e = (0, leaf t found p, ground arith)
trafo_sound nested dict level id t workflow (code x) sound found p q e = cc
trafo_sound nested dict level id t workflow (operators_of ops) sound found p q e =
    let (n, deep, eq) =
      operators_sound nested dict (level + 1) sound (level + 1) ops (omega arith) e in
    (suc n, node t ops found p q deep, omega arith)

from_sound :
    (fuel id : ℕ) (dict : Transformations) (level : ℕ) (seen : List ℕ) {k : ℕ}
    → nesting_level_from fuel id dict level seen ≡ ok k
    → (n : ℕ) × HasDepth dict id n × (k ≡ level + n)
unfolding nesting_level_from
from_sound zero id dict level seen h = cc
from_sound (suc fuel) id dict level seen {k} h = elim (Bool-cases (member id seen)) [
  | inl old ↦ cc (rw old at h)
  | inr new ↦ elim (Option-cases (get id dict)) [
    | inl missing ↦ cc (rw (new, missing) at h)
    | inr (t, found) ↦
        trafo_sound (λ nested. nesting_level_from fuel nested dict (level + 1) (id ∷ seen)) dict
          level id t t.type t.content (λ i j e. from_sound fuel i dict (level + 1) (id ∷ seen) e)
          found refl refl (rw (new, found) at h)
  ]
]

component_skipped :
    (nested : ℕ → Result ℕ) (dict : Transformations) (next : ℕ) (op : Operator)
    → op.type ≡ component
    → next_level nested dict next op ≡ ok next
unfolding next_level
component_skipped nested dict next op p = ground arith

-- It returns, or it meets the end of its fuel.
abbrev IsFine : Result ℕ → Type 0
IsFine r = (r ≡ err out_of_fuel) ⊎ ((m : ℕ) × (r ≡ ok m))

bind-IsFine :
    (r : Result ℕ) (f : ℕ → Result ℕ) → IsFine r → ((n : ℕ) → IsFine (f n)) → IsFine (r >>= f)
bind-IsFine r f (inl e) k = inl (rw e refl)
bind-IsFine r f (inr (m, e)) k = rw e (k m)

module _ (nested : ℕ → Result ℕ) (dict : Transformations) where
  next-IsFine :
      (next : ℕ) (op : Operator)
      → op.type ≡ workflow
      → is_some (get op.transformation_id dict) ≡ true
      → IsFine (nested op.transformation_id)
      → IsFine (next_level nested dict next op)
  unfolding next_level
  next-IsFine next op p known h =
      rw (p, ==_self workflow, known)
        (bind-IsFine (nested op.transformation_id) (λ level. ok (max next level)) h
          (λ n. inr (max next n, refl)))

  operators-IsFine :
      (bound : ℕ)
      → ((id m : ℕ) → HasDepth dict id m → m ≤ bound → IsFine (nested id))
      → (next : ℕ) {ops : List Operator} {n : ℕ} → MaxDepth dict ops n
      → n ≤ bound
      → IsFine (operators_level nested dict next ops)
  unfolding operators_level
  operators-IsFine bound k next nothing h = inr (next, refl)
  operators-IsFine bound k next (skipped {op} {ops} p deep) h =
      rw (component_skipped nested dict next op p) (operators-IsFine bound k next deep h)
  operators-IsFine bound k next (counted {op} {ops} m n p depth deep e) h =
      bind-IsFine (next_level nested dict next op) (λ i. operators_level nested dict i ops)
        (next-IsFine next op p (HasDepth-found depth)
          (k op.transformation_id m depth (omega arith)))
        (λ i. operators-IsFine bound k i deep (omega arith))

abbrev Deeper : Transformations → ℕ → List ℕ → Type 0
Deeper dict n seen = (s : ℕ) → Memᴰ s seen → (k : ℕ) × HasDepth dict s k × (n < k)

Deeper-unseen :
    {dict : Transformations} {id n : ℕ} {seen : List ℕ}
    → HasDepth dict id n
    → Deeper dict n seen
    → member id seen ≡ false
Deeper-unseen {dict} {id} {n} {seen} depth deeper = elim (Bool-cases (member id seen)) [
  | inr new ↦ new
  | inl old ↦
      let (s, m, eq) = any-Memᴰ (λ s. s == id) seen old in
      let (k, deep, lt) = deeper s m in
      let same : k ≡ n = HasDepth-unique dict id (rw (← ==→≡ s id eq) deep) depth in
      absurd (omega arith)
]

Deeper-cons :
    {dict : Transformations} {id m n : ℕ} {seen : List ℕ}
    → HasDepth dict id (suc n)
    → Deeper dict (suc n) seen
    → m ≤ n
    → Deeper dict m (id ∷ seen)
Deeper-cons {n} depth deeper le s (Memᴰ.head e) = (suc n, rw e depth, omega arith)
Deeper-cons depth deeper le s (Memᴰ.tail i) =
    let (k, deep, lt) = deeper s i in (k, deep, omega arith)

from-IsFine :
    (fuel id : ℕ) (dict : Transformations) (level : ℕ) (seen : List ℕ) {n : ℕ}
    → HasDepth dict id n
    → Deeper dict n seen
    → IsFine (nesting_level_from fuel id dict level seen)
unfolding nesting_level_from trafo_level
from-IsFine zero id dict level seen depth deeper = inl refl
from-IsFine (suc fuel) id dict level seen (leaf t found p) deeper =
    rw (Deeper-unseen (leaf t found p) deeper, found, p) (inr (level, refl))
from-IsFine (suc fuel) id dict level seen (node {n = n} t ops found p c deep) deeper =
    let depth = node t ops found p c deep in
    rw (Deeper-unseen depth deeper, found, p, c)
      (operators-IsFine (λ nested. nesting_level_from fuel nested dict (level + 1) (id ∷ seen)) dict
        n
        (λ i m d le.
          from-IsFine fuel i dict (level + 1) (id ∷ seen) d (Deeper-cons depth deeper le))
        (level + 1) deep (omega arith))

-- `nesting_level` returns a level exactly if the transformation is there and the nesting is sound
-- below it: each workflow has operators as its content, the transformations of its operators that
-- are workflows are there, and no chain of them leads back. The level is then the nesting depth.
pub nesting_level_iff :
    (id n : ℕ) (dict : Transformations) → (nesting_level id dict ≡ ok n) ↔ HasDepth dict id n
unfolding nesting_level
nesting_level_iff id n dict = (sound, complete)
  where
    sound : nesting_level_from (suc (length dict)) id dict 0 [] ≡ ok n → HasDepth dict id n
    sound h =
        let (m, depth, eq) = from_sound (suc (length dict)) id dict 0 [] h in
        let same : m ≡ n = omega arith in rw (← same) depth

    complete : HasDepth dict id n → nesting_level_from (suc (length dict)) id dict 0 [] ≡ ok n
    complete depth = elim (from-IsFine (suc (length dict)) id dict 0 [] depth (λ s i. elim i [ ])) [
      | inl fuel ↦ absurd (nesting_level-ends id dict fuel)
      | inr (m, e) ↦
          let (k, found, eq) = from_sound (suc (length dict)) id dict 0 [] e in
          let same : k ≡ n = HasDepth-unique dict id found depth in rw e (ap ok (omega arith))
    ]
