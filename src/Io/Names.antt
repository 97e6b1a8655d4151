-- ===== src/Io/Names.antt =====
-- When the names of a list of inputs or outputs are accepted (`names_unique` of models/util.py).
use hetida_designer.Prelude.{
  suc, ◌≡◌, ◌≢◌, ◌↔◌, ◌⊎◌, true, some, filter_by-Memᴰ, ◌≤◌, refl, ap, false, not, Option, none,
  List, [], ◌∷◌, Text, ◌==◌, nat_eq, name_eq, inl, inr, arith, All, any, any-Memᴰ, any-false,
  length, Memᴰ-All, All-Memᴰ, Memᴰ-filter_by, Bool-cases, ==→≡, ==_self, ok,
}
use hetida_designer.Io.{is_nameless, distinct, names_unique, nonempty_names, io_names_unique}

-- No name of the list occurs again behind its place.
abbrev pub IsDistinct : List (Option Text) → Type 0
IsDistinct [] = Unit
IsDistinct (n ∷ ns) = All (λ m. m ≢ n) ns × IsDistinct ns

length-distinct : (ns : List (Option Text)) → length (distinct ns) ≤ length ns
unfolding distinct
length-distinct [] = omega arith
length-distinct (n ∷ ns) = ground (arith, length-distinct ns)

fresh_of_any :
    (n : Option Text) (ns : List (Option Text)) → any (λ m. m == n) ns ≡ false → All (λ m. m ≢ n) ns
fresh_of_any n ns h =
    Memᴰ-All ns
      λ m member same. cc (any-false (λ k. k == n) member h, ==_self n, ap (λ k. k == n) same)

any_of_fresh :
    (n : Option Text) (ns : List (Option Text)) → All (λ m. m ≢ n) ns → any (λ m. m == n) ns ≡ false
any_of_fresh n ns h = elim (Bool-cases (any (λ m. m == n) ns)) [
  | inl found ↦
      let (m, member, same) = any-Memᴰ (λ k. k == n) ns found in
      absurd (All-Memᴰ (λ k. k ≢ n) member h (==→≡ m n same))
  | inr e ↦ e
]

distinct_of_length : (ns : List (Option Text)) → length (distinct ns) ≡ length ns → IsDistinct ns
unfolding distinct
distinct_of_length [] h = tt
distinct_of_length (n ∷ ns) h = elim (Bool-cases (any (λ m. m == n) ns)) [
  | inl found ↦ absurd (omega (arith, rw found at h, length-distinct ns))
  | inr fresh ↦ (fresh_of_any n ns fresh, distinct_of_length ns (omega (arith, rw fresh at h)))
]

length_of_distinct : (ns : List (Option Text)) → IsDistinct ns → length (distinct ns) ≡ length ns
unfolding distinct
length_of_distinct [] h = refl
length_of_distinct (n ∷ ns) h = rw (any_of_fresh n ns h.0) (ap suc (length_of_distinct ns h.1))

-- `names_unique` accepts exactly the lists in which every name is given and no name occurs twice.
pub names_unique_iff :
    (ns : List (Option Text)) → (names_unique ns ≡ ok tt) ↔ (All (λ n. n ≢ none) ns × IsDistinct ns)
unfolding names_unique
names_unique_iff ns = (to, from)
  where
    to : names_unique ns ≡ ok tt → All (λ n. n ≢ none) ns × IsDistinct ns
    to h = elim (Bool-cases (any (λ n. n == none) ns)) [
      | inl e ↦ cc (rw e at h)
      | inr e ↦ (
        fresh_of_any none ns e,
        distinct_of_length ns (ground (arith, ==→≡ (length (distinct ns)) (length ns))),
      )
    ]

    from : All (λ n. n ≢ none) ns × IsDistinct ns → names_unique ns ≡ ok tt
    from (named, d) =
        rw (any_of_fresh none ns named, length_of_distinct ns d, ==_self (length ns)) refl

nonempty-ne-none : (ns : List (Option Text)) → All (λ n. n ≢ none) (nonempty_names ns)
unfolding nonempty_names
nonempty-ne-none ns =
    Memᴰ-All (nonempty_names ns)
      λ n m same. cc (ap is_nameless same, (Memᴰ-filter_by (λ k. not (is_nameless k)) ns m).1)

-- No name of the list that is neither None nor empty occurs again behind its place.
abbrev pub IsDistinctWhereNamed : List (Option Text) → Type 0
IsDistinctWhereNamed [] = Unit
IsDistinctWhereNamed (n ∷ ns) =
    ((n ≡ none) ⊎ ((n ≡ some []) ⊎ All (λ m. m ≢ n) ns)) × IsDistinctWhereNamed ns

nameless-cases : (n : Option Text) → is_nameless n ≡ true → (n ≡ none) ⊎ (n ≡ some [])
nameless-cases none h = inl refl
nameless-cases (some []) h = inr refl
nameless-cases (some (c ∷ cs)) h = cc

-- Before a name that is not empty the empty ones do not matter.
fresh_iff :
    (n : Option Text) (ns : List (Option Text))
    → is_nameless n ≡ false
    → All (λ m. m ≢ n) (nonempty_names ns) ↔ All (λ m. m ≢ n) ns
unfolding nonempty_names
fresh_iff n ns h = (
  λ all. Memᴰ-All ns λ m i same.
      All-Memᴰ (λ k. k ≢ n) (filter_by-Memᴰ (λ k. not (is_nameless k)) i (rw (same, h) refl)) all
        same,
  λ all.
      Memᴰ-All (nonempty_names ns) λ m i same.
        All-Memᴰ (λ k. k ≢ n) (Memᴰ-filter_by (λ k. not (is_nameless k)) ns i).0 all same,
)

IsDistinct-nonempty_names :
    (ns : List (Option Text)) → IsDistinct (nonempty_names ns) ↔ IsDistinctWhereNamed ns
unfolding nonempty_names
IsDistinct-nonempty_names [] = (λ d. tt, λ d. tt)
IsDistinct-nonempty_names (n ∷ ns) = elim (Bool-cases (is_nameless n)) [
  | inl empty ↦ rw empty (
    λ d. (
      elim (nameless-cases n empty) [ inl e ↦ inl e | inr e ↦ inr (inl e) ],
      (IsDistinct-nonempty_names ns).0 d,
    ),
    λ d. (IsDistinct-nonempty_names ns).1 d.1,
  )
  | inr named ↦ rw named (
    λ d. (inr (inr ((fresh_iff n ns named).0 d.0)), (IsDistinct-nonempty_names ns).0 d.1),
    λ (d, rest). (
      elim d [
        | inl e ↦ cc (ap is_nameless e, named)
        | inr other ↦ elim other [
          | inl e ↦ cc (ap is_nameless e, named)
          | inr fresh ↦ (fresh_iff n ns named).1 fresh
        ]
      ],
      (IsDistinct-nonempty_names ns).1 rest,
    ),
  )
]

-- The names of inputs, or of outputs, are accepted exactly if no name that is neither None nor empty
-- occurs twice among them; names that are None or empty may occur as often as they like.
pub io_names_unique_iff :
    (ns : List (Option Text)) → (io_names_unique ns ≡ ok tt) ↔ IsDistinctWhereNamed ns
unfolding io_names_unique
io_names_unique_iff ns = (
  λ h. (IsDistinct-nonempty_names ns).0 ((names_unique_iff (nonempty_names ns)).0 h).1,
  λ d.
      (names_unique_iff (nonempty_names ns)).1
        (nonempty-ne-none ns, (IsDistinct-nonempty_names ns).1 d),
)
