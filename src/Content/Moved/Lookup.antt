-- ===== src/Content/Moved/Lookup.antt =====
-- The dictionaries of links, for lists of links that are equal but for positions.
use hetida_designer.Prelude.{
  ℕ, refl, Option, none, some, List, [], ◌∷◌, ◌==◌, key_eq, arith, if◌then◌else◌,
}
use hetida_designer.Io.{Position}
use hetida_designer.Link.{Link}
use hetida_designer.Content.Dicts.{end_key}
use hetida_designer.Content.Dicts.Keys.{starting_at, last_ending_at}
use hetida_designer.Content.Moved.{IsMoved, AreMoved, move_start, move_end}

pub IsMoved-refl : (l : Link) → IsMoved l l
IsMoved-refl l = record {
  id = refl;
  start_operator = refl;
  start_id = refl;
  start_name = refl;
  start_type = refl;
  start_class = refl;
  end_operator = refl;
  end_id = refl;
  end_name = refl;
  end_type = refl;
  end_class = refl;
  path = refl;
}

pub AreMoved-refl : (ls : List Link) → AreMoved ls ls
AreMoved-refl [] = tt
AreMoved-refl (l ∷ ls) = (IsMoved-refl l, AreMoved-refl ls)

IsMoved-trans : {a b c : Link} → IsMoved a b → IsMoved b c → IsMoved a c
IsMoved-trans h k = ground arith

pub AreMoved-trans : (ls ms ns : List Link) → AreMoved ls ms → AreMoved ms ns → AreMoved ls ns
AreMoved-trans [] [] ns h k = k
AreMoved-trans [] (m ∷ ms) ns h k = elim h [ ]
AreMoved-trans (l ∷ ls) [] ns h k = elim h [ ]
AreMoved-trans (l ∷ ls) (m ∷ ms) [] h k = elim k [ ]
AreMoved-trans (l ∷ ls) (m ∷ ms) (n ∷ ns) h k =
    (IsMoved-trans h.0 k.0, AreMoved-trans ls ms ns h.1 k.1)

pub AreMoved-move_start :
    (key : Option ℕ × ℕ) (p : Position) (ls : List Link) → AreMoved ls (move_start key p ls)
unfolding move_start
AreMoved-move_start key p [] = tt
AreMoved-move_start key p (l ∷ ls) = (ground arith, AreMoved-move_start key p ls)

pub AreMoved-move_end :
    (key : Option ℕ × ℕ) (p : Position) (ls : List Link) → AreMoved ls (move_end key p ls)
unfolding move_end
AreMoved-move_end key p [] = tt
AreMoved-move_end key p (l ∷ ls) = (ground arith, AreMoved-move_end key p ls)

pub AreMoved-starting_at :
    (key : Option ℕ × ℕ) (ls ms : List Link)
    → AreMoved ls ms
    → AreMoved (starting_at key ls) (starting_at key ms)
AreMoved-starting_at key [] [] h = tt
AreMoved-starting_at key [] (m ∷ ms) h = elim h [ ]
AreMoved-starting_at key (l ∷ ls) [] h = elim h [ ]
AreMoved-starting_at key (l ∷ ls) (m ∷ ms) h = ground (arith, AreMoved-starting_at key ls ms h.1)

-- Both absent, or both there and equal but for positions.
abbrev pub OptionMoved : Option Link → Option Link → Type 0
OptionMoved none none = Unit
OptionMoved (some l) (some m) = IsMoved l m
OptionMoved _ _ = ⊥

pub OptionMoved-last_ending_at :
    (key : Option ℕ × ℕ) (o p : Option Link) (ls ms : List Link)
    → OptionMoved o p
    → AreMoved ls ms
    → OptionMoved (last_ending_at key o ls) (last_ending_at key p ms)
OptionMoved-last_ending_at key o p [] [] h k = h
OptionMoved-last_ending_at key o p [] (m ∷ ms) h k = elim k [ ]
OptionMoved-last_ending_at key o p (l ∷ ls) [] h k = elim k [ ]
OptionMoved-last_ending_at key o p (l ∷ ls) (m ∷ ms) h k =
    OptionMoved-last_ending_at key (if end_key l == key then some l else o)
      (if end_key m == key then some m else p) ls ms (ground arith) k.1
