-- ===== src/Authentication/Expansion.antt =====
-- `expand_syntax` of ansible_base/authentication/utils/authenticator_map.py with the functions
-- that it calls. The two patterns of that file match in one way only, so they are matched here
-- by recursion: `{%.*%}`, and `{%\s*for_attr_value\(([^(%})]+)\)\s*%}`.
use Prim.Native.Char.{code}
use django_ansible_base.Base.{
  ℕ, zero, suc, ◌-◌, String, Bool, true, false, not, ◌&&◌, ◌||◌, Option, none, some, List, [], ◌∷◌,
  ◌++◌, Outcome, ok, err, ◌>>=◌, regex_error, nat_beq, ◌==◌, string_eq, subset, if◌then◌else◌,
}
use django_ansible_base.Base.Dict.{Dict, get_or, set, keys}
use django_ansible_base.Base.Text.{starts_with, is_space}
use django_ansible_base.Authentication.Value.{Value, str, arr, no_elements, items}
use django_ansible_base.Authentication.Product.{dict_cartesian_product}

abbrev text_drop : ℕ → String → String
text_drop zero s = s
text_drop (suc n) String.[] = String.[]
text_drop (suc n) (String.◌∷◌ c s) = text_drop n s

-- what is left after a literal text, and how many characters that is
abbrev literal : String → String → Option String
literal String.[] s = some s
literal (String.◌∷◌ d t) String.[] = none
literal (String.◌∷◌ d t) (String.◌∷◌ c s) = if nat_beq (code d) (code c) then literal t s else none

abbrev skip_spaces : String → String
skip_spaces String.[] = String.[]
skip_spaces (String.◌∷◌ c s) = if is_space c then skip_spaces s else String.◌∷◌ c s

-- `[^(%})]`
abbrev is_attr_char : ℕ → Bool
is_attr_char n = not (nat_beq n b'(' || nat_beq n b'%' || nat_beq n b'}' || nat_beq n b')')

-- `([^(%})]+)` without the test that it is not empty: the group, and what follows it
abbrev attr_name : String → String × String
attr_name String.[] = (String.[], String.[])
attr_name (String.◌∷◌ c s) =
    let (name, rest) = attr_name s in
    if is_attr_char (code c) then (String.◌∷◌ c name, rest) else (String.[], String.◌∷◌ c s)

abbrev bind_option {ℓ κ} : {A : Type ℓ} {B : Type κ} → Option A → (A → Option B) → Option B
bind_option none f = none
bind_option (some a) f = f a

-- A match of the expansion pattern at the start of a text: its group, and what follows the match.
match_expansion : String → Option (String × String)
match_expansion s = bind_option (literal "{%" s) λ after_open.
    bind_option (literal "for_attr_value(" (skip_spaces after_open)) λ inside.
      let (name, after_name) = attr_name inside in
      bind_option (if name == "" then none else literal ")" after_name) λ after_paren.
        bind_option (literal "%}" (skip_spaces after_paren)) λ rest. some (name, rest)

abbrev text_length : String → ℕ
text_length String.[] = 0
text_length (String.◌∷◌ c s) = suc (text_length s)

-- `findall`: the matches from left to right, none inside another; `passed` counts the characters
-- of a match that are still to be passed over
find_all : ℕ → String → List String
find_all passed String.[] = []
find_all (suc n) (String.◌∷◌ c s) = find_all n s
find_all zero (String.◌∷◌ c s) = elim (match_expansion (String.◌∷◌ c s)) [
  | none ↦ find_all zero s
  | some (name, rest) ↦ name ∷ find_all (text_length s - text_length rest) s
]

-- whether `%}` follows on the same line
abbrev closes : String → Bool
closes String.[] = false
closes (String.◌∷◌ c s) =
    starts_with (String.◌∷◌ c s) "%}" || (not (nat_beq (code c) 10) && closes s)

abbrev has_tag : String → Bool
has_tag String.[] = false
has_tag (String.◌∷◌ c s) = elim (literal "{%" (String.◌∷◌ c s)) [
  | none ↦ has_tag s
  | some rest ↦ closes rest || has_tag s
]

unfoldable pub has_expansion : Option String → Bool
has_expansion none = false
has_expansion (some value) = has_tag value

abbrev has_backslash : String → Bool
has_backslash String.[] = false
has_backslash (String.◌∷◌ c s) = nat_beq (code c) 92 || has_backslash s

-- What `re` does with a replacement text that holds a backslash: the text for a match and its
-- group, or `none` where `re` raises an error; and whether it takes such a text at all.
pub record Templates : Type 0 where
  pub fill : String → String → String → Option String
  pub compiles : String → Bool

module _ (re : Templates) where
  replacement : String → String → String → Outcome String
  replacement value matched name =
      if has_backslash value
      then elim (re.fill value matched name) [ none ↦ err regex_error | some t ↦ ok t ]
      else ok value

  abbrev text_take : ℕ → String → String
  text_take zero s = String.[]
  text_take (suc n) String.[] = String.[]
  text_take (suc n) (String.◌∷◌ c s) = String.◌∷◌ c (text_take n s)

  abbrev append : String → String → String
  append String.[] t = t
  append (String.◌∷◌ c s) t = String.◌∷◌ c (append s t)

  abbrev prefix_with : String → Outcome String → Outcome String
  prefix_with before m = m >>= λ t. ok (append before t)

  -- `_EXPANSION_RE.sub(value, string, 1)`
  sub_first : String → String → Outcome String
  sub_first value String.[] =
      if has_backslash value && not (re.compiles value) then err regex_error else ok String.[]
  sub_first value (String.◌∷◌ c s) = elim (match_expansion (String.◌∷◌ c s)) [
    | none ↦ prefix_with (String.◌∷◌ c String.[]) (sub_first value s)
    | some (name, rest) ↦
        replacement value (text_take (suc (text_length s) - text_length rest) (String.◌∷◌ c s)) name
        >>= λ t. ok (append t rest)
  ]

  abbrev sub_each : String → List String → Outcome (List String)
  sub_each value [] = ok []
  sub_each value (s ∷ strings) =
      sub_first value s >>= λ t. sub_each value strings >>= λ ts. ok (t ∷ ts)

  abbrev sub_all : List String → List String → Outcome (List String)
  sub_all [] strings = ok []
  sub_all (value ∷ values) strings =
      sub_each value strings >>= λ new. sub_all values strings >>= λ more. ok (new ++ more)

  expand_strings : List String → Dict String (List String) → List String → Outcome (List String)
  expand_strings [] normalized strings = ok strings
  expand_strings (attr ∷ rest) normalized strings =
      sub_all (get_or attr [] normalized) strings >>= λ new. expand_strings rest normalized new

abbrev make_list : Value → List Value
make_list (arr vs) = items vs
make_list v = v ∷ []

-- the texts of a list that holds nothing else
abbrev all_texts : List Value → Option (List String)
all_texts [] = some []
all_texts (str s ∷ vs) = bind_option (all_texts vs) (λ ts. some (s ∷ ts))
all_texts (_ ∷ vs) = none

abbrev some_texts : List String → Option (List String)
some_texts [] = none
some_texts (t ∷ ts) = some (t ∷ ts)

-- `none` is the ValueError
normalize_attributes : List String → Dict String Value → Option (Dict String (List String))
normalize_attributes [] attributes = some []
normalize_attributes (attr ∷ rest) attributes =
    bind_option
      (bind_option (all_texts (make_list (get_or attr (arr no_elements) attributes))) some_texts)
      λ ts.
        bind_option (normalize_attributes rest attributes)
          λ normalized. some (set attr ts normalized)

abbrev is_empty_list {ℓ} : {A : Type ℓ} → List A → Bool
is_empty_list [] = true
is_empty_list (x ∷ xs) = false

module _ (re : Templates) where
  -- the body of the loop over the fields: `none` is `continue`
  abbrev expand_field : Dict String Value → String → Outcome (Option (List String))
  expand_field attributes value =
      let attrs_used = find_all zero value in
      if has_expansion (some value) && is_empty_list attrs_used
      then ok none
      else if not (subset attrs_used (keys attributes))
      then ok none
      else elim (normalize_attributes attrs_used attributes) [
        | none ↦ ok none
        | some normalized ↦
            expand_strings re attrs_used normalized (value ∷ []) >>= λ ts. ok (some ts)
      ]

  abbrev put_field :
      String → Option (List String) → Dict String (List String) → Dict String (List String)
  put_field field none expanded = expanded
  put_field field (some ts) expanded = set field ts expanded

  abbrev expand_fields :
      Dict String Value
      → Dict String (Option String)
      → Dict String (List String)
      → Outcome (Dict String (List String))
  expand_fields attributes [] expanded = ok expanded
  expand_fields attributes ((field, none) ∷ rest) expanded = expand_fields attributes rest expanded
  expand_fields attributes ((field, some value) ∷ rest) expanded =
      expand_field attributes value >>= λ found.
      expand_fields attributes rest (put_field field found expanded)

  -- The fields of an authenticator map that can be expanded.
  unfoldable pub expand_syntax :
      Dict String Value
      → Option String
      → Option String
      → Option String
      → Outcome (List (Dict String String))
  unfolding has_expansion find_all match_expansion normalize_attributes expand_strings sub_first
      replacement dict_cartesian_product
  expand_syntax attributes organization role team =
      expand_fields attributes
        (("organization", organization) ∷ ("role", role) ∷ ("team", team) ∷ []) []
      >>= λ expanded. ok (dict_cartesian_product expanded)
