-- ===== src/Content/Adjust.antt =====
-- The loops over inputs and over outputs that collect what to remove while they adjust positions.
pub mod Filter
use hetida_designer.Prelude.{Bool, List, [], ◌∷◌, if◌then◌else◌, Result, ok, err, ◌>>=◌}
use hetida_designer.Link.{Link}

-- A loop that collects what to remove while its test adjusts the links.
unfoldable pub collect_adjusting {ℓ} :
    {A : Type ℓ}
    → (A → List Link → Result (Bool × List Link))
    → List A
    → List Link
    → Result (List A × List Link)
collect_adjusting test [] links = ok ([], links)
collect_adjusting test (x ∷ xs) links = do
  found ← test x links
  rest ← collect_adjusting test xs found.1
  ok (if found.0 then x ∷ rest.0 else rest.0, rest.1)

-- the verdict of a loop's body, without the links
abbrev pub verdict : Result (Bool × List Link) → Result Bool
verdict (ok p) = ok p.0
verdict (err e) = err e
