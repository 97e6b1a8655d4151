-- ===== src/Content/Adjust/Filter.antt =====
-- The loop with a test that does not see positions.
use hetida_designer.Prelude.{
  ◌≡◌, refl, subst, sym, ◌∙◌, Bool, false, not, Eq, List, [], ◌∷◌, All, filter_by, remove_all,
  remove_all-filter_by, Result, ok, err, ◌>>=◌, >>=-eq-ok, arith,
}
use hetida_designer.Link.{Link}
use hetida_designer.Content.Links.{or_not_in_list}
use hetida_designer.Content.Moved.{AreMoved}
use hetida_designer.Content.Moved.Lookup.{AreMoved-refl, AreMoved-trans}
use hetida_designer.Content.Adjust.{collect_adjusting, verdict}

abbrev pub says_true : Result Bool → Bool
says_true (ok b) = b
says_true (err e) = false

module _ {ℓ} {A : Type ℓ} (test : A → List Link → Result (Bool × List Link))
    (stable : (x : A) (ls ms : List Link)
      → AreMoved ls ms
      → verdict (test x ms) ≡ verdict (test x ls))
    (moves : (x : A) (ls : List Link) (b : Bool) (ms : List Link)
      → test x ls ≡ ok (b, ms)
      → AreMoved ls ms) where
  abbrev pub passes : List Link → A → Bool
  passes base x = says_true (verdict (test x base))

  -- The verdict on every element is given, not an error.
  abbrev pub AllDecided : List Link → List A → Type 0
  AllDecided base xs = All (λ x. verdict (test x base) ≡ ok (passes base x)) xs

  inspect :
      (r : Result (Bool × List Link)) (b : Bool)
      → verdict r ≡ ok b
      → (ms : List Link) × (r ≡ ok (b, ms))
  inspect (ok p) b h = (p.1, ground arith)
  inspect (err e) b h = cc

  pub collect_adjusting_of :
      (xs : List A) (base ls : List Link)
      → AreMoved base ls
      → AllDecided base xs
      → (ms : List Link) × (collect_adjusting test xs ls ≡ ok (filter_by (passes base) xs, ms))
        × AreMoved base ms
  unfolding collect_adjusting
  collect_adjusting_of [] base ls h k = (ls, refl, h)
  collect_adjusting_of (x ∷ xs) base ls h k =
      let (ls', run) = inspect (test x ls) (passes base x) (stable x base ls h ∙ k.0) in
      let (ms, rest, moved) =
        collect_adjusting_of xs base ls'
          (AreMoved-trans base ls ls' h (moves x ls (passes base x) ls' run)) k.1 in
      (ms, rw (run, rest) refl, moved)

  verdict_of :
      (r : Result (Bool × List Link)) (p : Bool × List Link)
      → r ≡ ok p
      → verdict r ≡ ok (says_true (verdict r))
  verdict_of r p h = rw h refl

  decided_of_collect :
      (xs : List A) (base ls : List Link) {p : List A × List Link}
      → AreMoved base ls
      → collect_adjusting test xs ls ≡ ok p
      → AllDecided base xs
  unfolding collect_adjusting
  decided_of_collect [] base ls h e = tt
  decided_of_collect (x ∷ xs) base ls h e =
      let (found, run, rest) = >>=-eq-ok (test x ls) _ e in
      let (others, run', last) = >>=-eq-ok (collect_adjusting test xs found.1) _ rest in
      (
        decided_at base ls h found run,
        decided_of_collect xs base found.1
            (AreMoved-trans base ls found.1 h (moves x ls found.0 found.1 run)) run',
      )
    where
      decided_at :
          (base ls : List Link)
          → AreMoved base ls
          → (p : Bool × List Link) → test x ls ≡ ok p
          → verdict (test x base) ≡ ok (passes base x)
      decided_at base ls h p run = rw (sym (stable x base ls h)) (verdict_of (test x ls) p run)

  -- If the loop returns, it returns the elements that pass at the links as given, and links that
  -- are equal but for positions.
  pub collect_adjusting-ok :
      (xs : List A) (ls : List Link) {ys : List A} {ms : List Link}
      → collect_adjusting test xs ls ≡ ok (ys, ms)
      → (ys ≡ filter_by (passes ls) xs) × AreMoved ls ms × AllDecided ls xs
  collect_adjusting-ok xs ls {ys} {ms} h =
      let decided = decided_of_collect xs ls ls (AreMoved-refl ls) h in
      let (ms', run, moved) = collect_adjusting_of xs ls ls (AreMoved-refl ls) decided in
      (ground arith, subst (AreMoved ls) (ground arith) moved, decided)

-- Removing what was collected leaves what did not pass.
pub remove_collected {ℓ} :
    {A : Type ℓ} ⦃e : Eq A⦄ (p : A → Bool) (xs ys : List A) (ms : List Link) {kept : List A}
    {links : List Link}
    → ys ≡ filter_by p xs
    → ◌>>=◌ {Next = List A × List Link} (or_not_in_list (remove_all ys xs)) (λ k. ok (k, ms))
      ≡ ok (kept, links)
    → (kept ≡ filter_by (λ x. not (p x)) xs) × (ms ≡ links)
remove_collected p xs ys ms same h =
    let h' = rw (same, remove_all-filter_by p xs) at h in (ground arith, ground arith)
