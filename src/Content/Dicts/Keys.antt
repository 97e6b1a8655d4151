-- ===== src/Content/Dicts/Keys.antt =====
-- What the dictionaries of links hold under a key.
use mathlib.Core.List.{append_assoc, append-nil}
use hetida_designer.Prelude.{
  ℕ, ◌≡◌, refl, ap, ◌∙◌, Option, none, some, List, [], ◌∷◌, ◌++◌, map, ◌==◌, key_eq, Dict, get, put,
  get-put, filter_by, if◌then◌else◌, Bool-cases, ==→≡, inl, inr, from_pairs, update,
}
use hetida_designer.Link.{Link}
use hetida_designer.Content.Dicts.{
  start_key, end_key, append_to, listed, group_links, initialize_links_by_start_id_tuple_dict,
  initialize_link_by_end_id_tuple_dict,
}

-- No entry stands for an empty list.
abbrev pub nonempty : List Link → Option (List Link)
nonempty [] = none
nonempty (l ∷ ls) = some (l ∷ ls)

abbrev pub starting_at : Option ℕ × ℕ → List Link → List Link
starting_at key = filter_by (λ link. start_key link == key)

abbrev HasNoEmpty : Option (List Link) → Type 0
HasNoEmpty o = o ≡ nonempty (listed o)

get-append_to :
    (key : Option ℕ × ℕ) (link : Link) (d : Dict (Option ℕ × ℕ) (List Link))
    → get key (append_to (start_key link) link d)
      ≡ (if start_key link == key then some (listed (get key d) ++ link ∷ []) else get key d)
get-append_to key link d = elim (Bool-cases (start_key link == key)) [
  | inl e ↦
      rw
        (
          get-put (start_key link) key (listed (get (start_key link) d) ++ link ∷ []) d,
          e,
          ==→≡ (start_key link) key e,
        )
        refl
  | inr e ↦
      rw (get-put (start_key link) key (listed (get (start_key link) d) ++ link ∷ []) d, e) refl
]

nonempty_snoc : (ls : List Link) (link : Link) → some (ls ++ link ∷ []) ≡ nonempty (ls ++ link ∷ [])
nonempty_snoc [] link = refl
nonempty_snoc (l ∷ ls) link = refl

get-group_links :
    (key : Option ℕ × ℕ) (links : List Link) (d : Dict (Option ℕ × ℕ) (List Link))
    → HasNoEmpty (get key d)
    → get key (group_links d links) ≡ nonempty (listed (get key d) ++ starting_at key links)
unfolding group_links
get-group_links key [] d h = rw append-nil h
get-group_links key (link ∷ links) d h = elim (Bool-cases (start_key link == key)) [
  | inl e ↦
      let g : get key (append_to (start_key link) link d) ≡ some (listed (get key d) ++ link ∷ []) =
        rw (get-append_to key link d, e) refl in
      let ih =
        get-group_links key links (append_to (start_key link) link d)
          (rw g (nonempty_snoc (listed (get key d)) link)) in
      rw (ih, g, e, append_assoc) refl
  | inr e ↦
      let g : get key (append_to (start_key link) link d) ≡ get key d =
        rw (get-append_to key link d, e) refl in
      let ih = get-group_links key links (append_to (start_key link) link d) (rw g h) in
      rw (ih, g, e) refl
]

-- `links_by_start_id_tuple_dict` holds under a key the links that start there, in their order, and
-- has no entry for a key where no link starts.
pub get-links_by_start :
    (key : Option ℕ × ℕ) (links : List Link)
    → get key (initialize_links_by_start_id_tuple_dict links) ≡ nonempty (starting_at key links)
unfolding initialize_links_by_start_id_tuple_dict get
get-links_by_start key links = get-group_links key links [] refl

abbrev pub last_ending_at : Option ℕ × ℕ → Option Link → List Link → Option Link
last_ending_at key last [] = last
last_ending_at key last (link ∷ links) =
    last_ending_at key (if end_key link == key then some link else last) links

get-update_links :
    (key : Option ℕ × ℕ) (links : List Link) (d : Dict (Option ℕ × ℕ) Link)
    → get key (update d (map (λ link. (end_key link, link)) links))
      ≡ last_ending_at key (get key d) links
unfolding update
get-update_links key [] d = refl
get-update_links key (link ∷ links) d =
    get-update_links key links (put (end_key link) link d)
    ∙ ap (λ o. last_ending_at key o links) (get-put (end_key link) key link d)

-- `link_by_end_id_tuple_dict` holds under a key the last of the links that end there.
pub get-link_by_end :
    (key : Option ℕ × ℕ) (links : List Link)
    → get key (initialize_link_by_end_id_tuple_dict links) ≡ last_ending_at key none links
unfolding initialize_link_by_end_id_tuple_dict get from_pairs
get-link_by_end key links = get-update_links key links []
