-- ===== src/Content/Acyclic/Walk.antt =====
-- Walks along edges: the description of a loop that does not mention indegrees.
use hetida_designer.Prelude.{ℕ, List, Memᴰ}
use hetida_designer.Content.Acyclic.{Edge}

-- One edge or more, each starting where the one before it ends.
pub data Walk (es : List Edge) : ℕ → ℕ → Type 0 where
  one : {a b : ℕ} → Memᴰ (a, b) es → Walk es a b
  more : {a b c : ℕ} → Memᴰ (a, b) es → Walk es b c → Walk es a c

-- No walk ends where it starts.
abbrev pub IsAcyclic : List Edge → Type 0
IsAcyclic es = (v : ℕ) → ¬ Walk es v v

pub Walk-last : {es : List Edge} {a b : ℕ} → Walk es a b → (c : ℕ) × Memᴰ (c, b) es
Walk-last {a} (one m) = (a, m)
Walk-last (more m w) = Walk-last w

pub Walk-subset :
    {es fs : List Edge} {a b : ℕ}
    → ((x y : ℕ) → Memᴰ (x, y) es → Memᴰ (x, y) fs)
    → Walk es a b
    → Walk fs a b
Walk-subset sub (one {a} {b} m) = one (sub a b m)
Walk-subset sub (more {a} {b} m w) = more (sub a b m) (Walk-subset sub w)

-- A walk from a vertex that has an incoming edge stays on the edges that leave such vertices.
pub Walk-avoids :
    {es fs : List Edge} {a b : ℕ}
    → ((z x y : ℕ) → Memᴰ (z, x) es → Memᴰ (x, y) es → Memᴰ (x, y) fs)
    → (z : ℕ) → Memᴰ (z, a) es
    → Walk es a b
    → Walk fs a b
Walk-avoids sub z into (one {a} {b} m) = one (sub z a b into m)
Walk-avoids sub z into (more {a} {b} m w) = more (sub z a b into m) (Walk-avoids sub a m w)

pub cycle_avoids :
    {es fs : List Edge}
    → ((z x y : ℕ) → Memᴰ (z, x) es → Memᴰ (x, y) es → Memᴰ (x, y) fs)
    → (v : ℕ) → Walk es v v
    → Walk fs v v
cycle_avoids sub v w = let (z, into) = Walk-last w in Walk-avoids sub z into w
