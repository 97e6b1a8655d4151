-- ===== src/Content/Moved.antt =====
-- Writing the position of a connector of a link. The dictionaries hold references to the links of
-- the list, so the write is made in the list, at the link that the dictionary holds.
pub mod Lookup
use hetida_designer.Prelude.{
  ℕ, ◌≡◌, Bool, Option, none, some, List, [], ◌∷◌, map, any, not, ◌&&◌, ◌==◌, key_eq, if◌then◌else◌,
}
use hetida_designer.Io.{Connector, Position}
use hetida_designer.Link.{Link, Vertex}
use hetida_designer.Content.Dicts.{start_key, end_key}

abbrev pub move_connector : Position → Vertex → Vertex
move_connector position vertex = record vertex {
  connector = record vertex.connector { position = position };
}

-- `links_by_start[key][0].start.connector.position = position`, where one link starts at the key
unfoldable pub move_start : Option ℕ × ℕ → Position → List Link → List Link
move_start key position [] = []
move_start key position (link ∷ links) =
    (if start_key link == key
      then record link { start = move_connector position link.start }
      else link)
    ∷ move_start key position links

-- `link_by_end[key].end.connector.position = position`: the dictionary holds the last such link
unfoldable pub move_end : Option ℕ × ℕ → Position → List Link → List Link
move_end key position [] = []
move_end key position (link ∷ links) =
    (if end_key link == key && not (any (λ l. end_key l == key) links)
      then record link { end = move_connector position link.end }
      else link)
    ∷ move_end key position links

-- Equal but for the positions.
pub record IsMoved (a b : Link) : Type 0 where
  pub id : b.id ≡ a.id
  pub start_operator : b.start.operator ≡ a.start.operator
  pub start_id : b.start.connector.id ≡ a.start.connector.id
  pub start_name : b.start.connector.name ≡ a.start.connector.name
  pub start_type : b.start.connector.data_type ≡ a.start.connector.data_type
  pub start_class : b.start.class ≡ a.start.class
  pub end_operator : b.end.operator ≡ a.end.operator
  pub end_id : b.end.connector.id ≡ a.end.connector.id
  pub end_name : b.end.connector.name ≡ a.end.connector.name
  pub end_type : b.end.connector.data_type ≡ a.end.connector.data_type
  pub end_class : b.end.class ≡ a.end.class
  pub path : b.path ≡ a.path

-- Link by link equal but for the positions.
abbrev pub AreMoved : List Link → List Link → Type 0
AreMoved [] [] = Unit
AreMoved (l ∷ ls) (m ∷ ms) = IsMoved l m × AreMoved ls ms
AreMoved _ _ = ⊥
