-- ===== src/Structure/Filters.antt =====
-- `Filter`, and the validators of the filters of sources and sinks. Python's tables of characters are
-- a parameter: the classes `\w` and `\s` of `re`, the white space of `str` methods, and `str.lower`.
use hetida_designer.Prelude.{
  ℕ, Bool, true, false, not, ◌&&◌, ◌||◌, Option, none, some, List, [], ◌∷◌, ◌++◌, map, any, Text,
  codes, ◌==◌, nat_eq, text_eq, if◌then◌else◌, Result, ok, ◌>>=◌, ◌>>◌, require,
  invalid_filter_name, check_unseen, invalid_internal_name, duplicate_filter_name,
  timestamp_filter_name,
}

pub record Characters : Type 0 where
  pub is_word : ℕ → Bool
  pub is_re_space : ℕ → Bool
  pub is_space : ℕ → Bool
  pub lower : Text → Text

pub data FilterType : Type 0 where
  free_text : FilterType

pub record Filter : Type 0 where
  pub name : Text
  pub internal_name : Text
  pub type : FilterType
  pub required : Bool

-- What a filter is built from; `internal_name` may be missing.
pub record FilterValues : Type 0 where
  pub name : Text
  pub internal_name : Option Text
  pub type : FilterType
  pub required : Bool

-- `re.match` of a class of characters, repeated, between `^` and `$`: one character or more, and
-- `$` also stands before a line feed at the end.
unfoldable pub all_of : (ℕ → Bool) → Text → Bool
all_of p [] = false
all_of p (c ∷ []) = p c
all_of p (c ∷ b ∷ []) = p c && (p b || b == 10)
all_of p (c ∷ b ∷ a ∷ cs) = p c && all_of p (b ∷ a ∷ cs)

-- `value.strip()` is not empty
abbrev pub has_content : Characters → Text → Bool
has_content ch value = any (λ c. not (ch.is_space c)) value

unfoldable pub name_not_empty_only_alphanum_underscores_spaces : Characters → Text → Result Text
unfolding all_of
name_not_empty_only_alphanum_underscores_spaces ch value = do
  require (all_of (λ c. ch.is_word c || ch.is_re_space c) value && has_content ch value)
      invalid_filter_name
  ok value

unfoldable pub internal_name_only_alphanum_and_underscores : Characters → Text → Result Text
unfolding all_of
internal_name_only_alphanum_and_underscores ch value = do
  require (all_of ch.is_word value) invalid_internal_name
  ok value

abbrev pub add_word : Text → List Text → List Text
add_word [] words = words
add_word (c ∷ cs) words = (c ∷ cs) ∷ words

-- `str.split()`: the pieces between white space that are not empty
unfoldable pub split_words : Characters → Text → Text → List Text
split_words ch word [] = add_word word []
split_words ch word (c ∷ cs) =
    let next = split_words ch (if ch.is_space c then [] else word ++ c ∷ []) cs in
    if ch.is_space c then add_word word next else next

-- `"_".join(words)`; the underscore is character 95
unfoldable pub join_words : List Text → Text
join_words [] = []
join_words (w ∷ []) = w
join_words (w ∷ v ∷ ws) = w ++ 95 ∷ join_words (v ∷ ws)

unfoldable pub strip_left : Characters → Text → Text
strip_left ch [] = []
strip_left ch (c ∷ cs) = if ch.is_space c then strip_left ch cs else c ∷ cs

abbrev pub unless_blank : Characters → ℕ → Text → Text
unless_blank ch c [] = if ch.is_space c then [] else c ∷ []
unless_blank ch c (d ∷ ds) = c ∷ d ∷ ds

unfoldable pub strip_right : Characters → Text → Text
strip_right ch [] = []
strip_right ch (c ∷ cs) = unless_blank ch c (strip_right ch cs)

abbrev pub generated_name : Characters → Text → Text
generated_name ch name =
    join_words (split_words ch [] (ch.lower (strip_right ch (strip_left ch name))))

unfoldable pub generate_internal_name_if_not_provided : Characters → FilterValues → Text
unfolding split_words join_words strip_left strip_right
generate_internal_name_if_not_provided ch values = elim values.internal_name [
  | none ↦ generated_name ch values.name
  | some given ↦ elim given [ [] ↦ generated_name ch values.name | c ∷ cs ↦ c ∷ cs ]
]

-- `Filter(**values)`
unfoldable pub make_filter : Characters → FilterValues → Result Filter
unfolding generate_internal_name_if_not_provided name_not_empty_only_alphanum_underscores_spaces
    internal_name_only_alphanum_and_underscores
make_filter ch values = do
  name ← name_not_empty_only_alphanum_underscores_spaces ch values.name
  internal_name ←
      internal_name_only_alphanum_and_underscores ch
        (generate_internal_name_if_not_provided ch values)
  ok (record {
    name = name;
    internal_name = internal_name;
    type = values.type;
    required = values.required;
  })

unfoldable pub passthrough_filters_no_duplicate_keys : Option (List Filter) → Result (Unit {0})
passthrough_filters_no_duplicate_keys none = ok tt
passthrough_filters_no_duplicate_keys (some fs) =
    check_unseen duplicate_filter_name [] (map (λ f. f.internal_name) fs)

unfoldable pub starts_with : Text → Text → Bool
starts_with [] cs = true
starts_with (k ∷ ks) [] = false
starts_with (k ∷ ks) (c ∷ cs) = k == c && starts_with ks cs

-- `keyword in text`
unfoldable pub contains_text : Text → Text → Bool
unfolding starts_with
contains_text keyword [] = starts_with keyword []
contains_text keyword (c ∷ cs) = starts_with keyword (c ∷ cs) || contains_text keyword cs

abbrev pub or_empty {ℓ} : {A : Type ℓ} → Option (List A) → List A
or_empty none = []
or_empty (some xs) = xs

unfoldable pub is_timestamp_name : Characters → Text → Bool
is_timestamp_name ch key =
    ch.lower key == codes "timestampfrom" || ch.lower key == codes "timestampto"

-- An external type is given by its value, a preset filter by its key.
unfoldable pub check_for_filter_name_conflicts_with_timestamp_filters :
    Characters → Text → List Text → Option (List Filter) → Result (Unit {0})
unfolding contains_text is_timestamp_name
check_for_filter_name_conflicts_with_timestamp_filters ch type keys filters =
    if contains_text (codes "series") (ch.lower type)
      || contains_text (codes "multitsframe") (ch.lower type)
    then (do
      require (not (any (is_timestamp_name ch) keys)) timestamp_filter_name
      require
          (not (
            any (λ f. is_timestamp_name ch f.name || is_timestamp_name ch f.internal_name)
              (or_empty filters)))
          timestamp_filter_name)
    else ok tt
