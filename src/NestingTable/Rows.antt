-- ===== src/NestingTable/Rows.antt =====
-- What single calls do to the relation "is nested in" of the table.
use hetida_designer.Prelude.{
  ℕ, ◌≡◌, ◌≢◌, ◌↔◌, ◌⊎◌, inl, inr, true, some, Memᴰ, Bool-cases, Option-cases, nat_eq, arith, ok,
}
use hetida_designer.NestingTable.{NestingDbModel, NestingStore, same_key, add_single_nesting}

-- Some row says that `b` is nested in the workflow `a`.
abbrev pub Nests : (store : NestingStore) → store.Session → ℕ → ℕ → Type 0
Nests store s a b =
    (r : NestingDbModel) × Memᴰ r (store.rows s)
    × (r.workflow_id ≡ a)
    × (r.nested_transformation_id ≡ b)

-- Rows that name the same operator name the same transformation revision.
abbrev pub IsTyped : (store : NestingStore) → (ℕ → ℕ) → store.Session → Type 0
IsTyped store trafo_of s =
    (r : NestingDbModel)
    → Memᴰ r (store.rows s)
    → r.nested_transformation_id ≡ trafo_of r.nested_operator_id

-- Rows of the workflow `w` that name the same operator to go through name the same revision, too.
abbrev pub IsTypedAt : (store : NestingStore) → (ℕ → ℕ) → ℕ → store.Session → Type 0
IsTypedAt store trafo_of w s =
    IsTyped store trafo_of s
    × ((r : NestingDbModel)
        → Memᴰ r (store.rows s)
        → r.workflow_id ≡ w
        → r.via_transformation_id ≡ trafo_of r.via_operator_id)

key_workflow : (x r : NestingDbModel) → same_key x r ≡ true → x.workflow_id ≡ r.workflow_id
unfolding same_key
key_workflow x r h = ground arith

pub row_ext :
    (r x : NestingDbModel)
    → r.workflow_id ≡ x.workflow_id
    → r.via_transformation_id ≡ x.via_transformation_id
    → r.via_operator_id ≡ x.via_operator_id
    → r.depth ≡ x.depth
    → r.nested_transformation_id ≡ x.nested_transformation_id
    → r.nested_operator_id ≡ x.nested_operator_id
    → r ≡ x
row_ext r x a b c d e f i = record {
  workflow_id = a i;
  via_transformation_id = b i;
  via_operator_id = c i;
  depth = d i;
  nested_transformation_id = e i;
  nested_operator_id = f i;
}

-- The primary key of a row of the workflow fixes the whole row.
key_row :
    (trafo_of : ℕ → ℕ) (x r : NestingDbModel)
    → x.via_transformation_id ≡ trafo_of x.via_operator_id
    → x.nested_transformation_id ≡ trafo_of x.nested_operator_id
    → r.via_transformation_id ≡ trafo_of r.via_operator_id
    → r.nested_transformation_id ≡ trafo_of r.nested_operator_id
    → same_key x r ≡ true
    → r ≡ x
unfolding same_key
key_row trafo_of x r xv xn rv rn h =
    let w : r.workflow_id ≡ x.workflow_id = ground arith in
    let v : r.via_operator_id ≡ x.via_operator_id = ground arith in
    let d : r.depth ≡ x.depth = ground arith in
    let n : r.nested_operator_id ≡ x.nested_operator_id = ground arith in
    row_ext r x w (cc) v d (cc) n

-- From `s` to `t` those rows of the workflow `w` were added that fulfil `New`, and no other row was
-- touched.
pub record Grows (store : NestingStore) (trafo_of : ℕ → ℕ) (w : ℕ) (s t : store.Session)
    (New : NestingDbModel → Type 0) : Type 0 where
  pub others :
      (r : NestingDbModel) → r.workflow_id ≢ w → Memᴰ r (store.rows t) ↔ Memᴰ r (store.rows s)
  pub own :
      (r : NestingDbModel)
      → r.workflow_id ≡ w
      → Memᴰ r (store.rows t) ↔ (Memᴰ r (store.rows s) ⊎ New r)
  pub typed : IsTypedAt store trafo_of w t

module _ (store : NestingStore) (trafo_of : ℕ → ℕ) (w : ℕ) where
  pub Grows-refl :
      (s : store.Session) → IsTypedAt store trafo_of w s → Grows store trafo_of w s s (λ r. ⊥)
  Grows-refl s typed = record {
    others = λ r ne. (λ m. m, λ m. m);
    own = λ r at. (λ n. inl n, λ n. elim n [ inl m ↦ m | inr e ↦ absurd e ]);
    typed = typed;
  }

  pub Grows-trans :
      (s t u : store.Session) {A B : NestingDbModel → Type 0}
      → Grows store trafo_of w s t A
      → Grows store trafo_of w t u B
      → Grows store trafo_of w s u (λ r. A r ⊎ B r)
  Grows-trans s t u g h = record {
    others = λ r ne. (
      λ m. (g.others r ne).0 ((h.others r ne).0 m),
      λ m. (h.others r ne).1 ((g.others r ne).1 m),
    );
    own = λ r at. (
      λ n. elim ((h.own r at).0 n) [
        | inl early ↦ elim ((g.own r at).0 early) [ inl old ↦ inl old | inr a ↦ inr (inl a) ]
        | inr late ↦ inr (inr late)
      ],
      λ n. elim n [
        | inl old ↦ (h.own r at).1 (inl ((g.own r at).1 (inl old)))
        | inr new ↦ elim new [
          | inl a ↦ (h.own r at).1 (inl ((g.own r at).1 (inr a)))
          | inr late ↦ (h.own r at).1 (inr late)
        ]
      ],
    );
    typed = h.typed;
  }

  pub Grows-iff :
      (s t : store.Session) {A B : NestingDbModel → Type 0}
      → ((r : NestingDbModel) → A r ↔ B r)
      → Grows store trafo_of w s t A
      → Grows store trafo_of w s t B
  Grows-iff s t same g = record {
    others = g.others;
    own = λ r at. (
      λ n. elim ((g.own r at).0 n) [ inl old ↦ inl old | inr a ↦ inr ((same r).0 a) ],
      λ n. elim n [
        | inl old ↦ (g.own r at).1 (inl old)
        | inr c ↦ (g.own r at).1 (inr ((same r).1 c))
      ],
    );
    typed = g.typed;
  }

  pub Grows-add :
      (x : NestingDbModel) (s t : store.Session)
      → add_single_nesting store x s ≡ ok t
      → x.workflow_id ≡ w
      → x.via_transformation_id ≡ trafo_of x.via_operator_id
      → x.nested_transformation_id ≡ trafo_of x.nested_operator_id
      → IsTypedAt store trafo_of w s
      → Grows store trafo_of w s t (λ r. r ≡ x)
  unfolding add_single_nesting
  Grows-add x s t h at_w through fits typed = record {
    others = λ r ne. (
      λ m. elim ((change r).0 m) [ inl e ↦ absurd (ne (cc)) | inr old ↦ old.0 ],
      λ m. (change r).1 (inr (m, λ key. ne (cc (key_workflow x r key)))),
    );
    own = λ r at. (
      λ m. elim ((change r).0 m) [ inl e ↦ inr e | inr old ↦ inl old.0 ],
      λ n. elim n [ inl old ↦ keep r at old | inr e ↦ (change r).1 (inl e) ],
    );
    typed = (
      λ r m. elim ((change r).0 m) [ inl e ↦ cc | inr old ↦ typed.0 r old.0 ],
      λ r m at. elim ((change r).0 m) [ inl e ↦ cc | inr old ↦ typed.1 r old.0 at ],
    );
  }
    where
      merged : store.merge x s ≡ some t
      merged = elim (Option-cases (store.merge x s)) [
        | inl e ↦ cc (rw e at h)
        | inr (u, e) ↦ cc (rw e at h)
      ]

      change :
          (r : NestingDbModel)
          → Memᴰ r (store.rows t) ↔ ((r ≡ x) ⊎ (Memᴰ r (store.rows s) × (same_key x r ≢ true)))
      change = store.rows-merge x s t merged

      keep :
          (r : NestingDbModel) → r.workflow_id ≡ w → Memᴰ r (store.rows s) → Memᴰ r (store.rows t)
      keep r at m = elim (Bool-cases (same_key x r)) [
        | inl key ↦
            (change r).1
              (inl (key_row trafo_of x r through fits (typed.1 r m at) (typed.0 r m) key))
        | inr new ↦ (change r).1 (inr (m, λ key. cc))
      ]
