-- ===== src/Authentication/Value.antt =====
-- The values that JSON columns hold and that claim evaluation walks through: triggers and the
-- attributes of a user. Python's text operations that depend on Unicode tables or on the `re`
-- module are the fields of `Python`.
use django_ansible_base.Base.{
  String, Bool, true, false, Option, List, [], ◌∷◌, Outcome, ok, err, attribute_error, type_error,
}
use django_ansible_base.Base.Dict.{Dict, keys}

-- `number` carries the text that `str` gives for it.
mutual
  pub data Members : Type 0 where
    no_members : Members
    member : String → Value → Members → Members

  pub data Elements : Type 0 where
    no_elements : Elements
    element : Value → Elements → Elements

  pub data Value : Type 0 where
    str number : String → Value
    bool : Bool → Value
    null : Value
    obj : Members → Value
    arr : Elements → Value

abbrev pub items : Elements → List Value
items no_elements = []
items (element v vs) = v ∷ items vs

abbrev pub entries : Members → Dict String Value
entries no_members = []
entries (member k v fs) = (k, v) ∷ entries fs

abbrev pub of_items : List Value → Elements
of_items [] = no_elements
of_items (v ∷ vs) = element v (of_items vs)

abbrev pub of_entries : Dict String Value → Members
of_entries [] = no_members
of_entries ((k, v) ∷ d) = member k v (of_entries d)

-- `str.casefold`, `re.match(pattern, text, re.IGNORECASE) is not None`, where `none` is a pattern
-- that `re` refuses, and `str` of a list or a dict.
pub record Python : Type 0 where
  pub casefold : String → String
  pub re_match : String → String → Option Bool
  pub repr : Value → String

-- `f"{v}"`, which is `str(v)`
abbrev pub text_of : Python → Value → String
text_of py null = "None"
text_of py (bool true) = "True"
text_of py (bool false) = "False"
text_of py (number s) = s
text_of py (str s) = s
text_of py (arr vs) = py.repr (arr vs)
text_of py (obj fs) = py.repr (obj fs)

-- `v.items()` and `v.keys()`: only a dict has them
abbrev pub as_dict : Value → Outcome (Dict String Value)
as_dict (obj fs) = ok (entries fs)
as_dict _ = err attribute_error

abbrev pub characters : String → List Value
characters String.[] = []
characters (String.◌∷◌ c s) = str (String.◌∷◌ c String.[]) ∷ characters s

abbrev pub key_values : List String → List Value
key_values [] = []
key_values (k ∷ ks) = str k ∷ key_values ks

-- `for x in v`: a list gives its items, a text its characters, a dict its keys
abbrev pub iterate : Value → Outcome (List Value)
iterate (arr vs) = ok (items vs)
iterate (str s) = ok (characters s)
iterate (obj fs) = ok (key_values (keys (entries fs)))
iterate _ = err type_error
