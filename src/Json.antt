-- ===== src/Json.antt =====
-- The values of encoding/json as the agent handles them: interface{}, with maps as association lists
-- and with arrays as lists. A number is a float64, of which only the integer part and what fmt
-- prints of it are used.
use mmw_agent.Base.{
  ◌≡◌, refl, ap, ◌∙◌, Bool, true, false, Option, none, some, List, [], ◌∷◌, ◌++◌, arith, Text, text,
  text_eq, nat_eq, ◌==◌, if◌then◌else◌,
}
use mmw_agent.Base.Int.{ℤ}
use mmw_agent.Base.Strings.{join, text_le}
use mmw_agent.Base.Dict.{Dict, lookup, insert, insert-same, lookup-insert}

mutual
  pub data Json : Type 0 where
    null : Json
    bool : Bool → Json
    num : ℤ → Text → Json
    str : Text → Json
    arr : Items → Json
    obj : Fields → Json

  pub data Items : Type 0 where
    nil : Items
    cons : Json → Items → Items

  pub data Fields : Type 0 where
    end : Fields
    field : Text → Json → Fields → Fields

-- map[string]interface{}
abbrev pub Object : Type 0
Object = Dict Text Json

abbrev pub list_of : Items → List Json
list_of nil = []
list_of (cons x xs) = x ∷ list_of xs

abbrev pub items_of : List Json → Items
items_of [] = nil
items_of (x ∷ xs) = cons x (items_of xs)

abbrev pub dict_of : Fields → Object
dict_of end = []
dict_of (field k v fs) = (k, v) ∷ dict_of fs

abbrev pub fields_of : Object → Fields
fields_of [] = end
fields_of ((k, v) ∷ d) = field k v (fields_of d)

abbrev pub array : List Json → Json
array xs = arr (items_of xs)

abbrev pub object : Object → Json
object d = obj (fields_of d)

-- v.([]interface{}) and the like: none where the assertion fails.
abbrev pub as_array : Json → Option (List Json)
as_array (arr xs) = some (list_of xs)
as_array _ = none

abbrev pub as_object : Json → Option Object
as_object (obj fs) = some (dict_of fs)
as_object _ = none

abbrev pub as_string : Json → Option Text
as_string (str t) = some t
as_string _ = none

abbrev pub as_bool : Json → Option Bool
as_bool (bool b) = some b
as_bool _ = none

abbrev pub then_as {ℓ} : {A : Type ℓ} → (Json → Option A) → Option Json → Option A
then_as f none = none
then_as f (some v) = f v

-- m[k].([]interface{}) and the like.
unfoldable pub array_at : Text → Object → Option (List Json)
array_at k d = then_as as_array (lookup k d)

unfoldable pub object_at : Text → Object → Option Object
object_at k d = then_as as_object (lookup k d)

abbrev pub or_none : Option Text → Text
or_none none = []
or_none (some t) = t

-- v, _ := m[k].(string), which is empty where the assertion fails.
unfoldable pub string_at : Text → Object → Text
string_at k d = or_none (then_as as_string (lookup k d))

abbrev pub or_nil : Option (List Json) → List Json
or_nil none = []
or_nil (some xs) = xs

-- v, _ := m[k].([]interface{}), nil where the assertion fails.
unfoldable pub items_at : Text → Object → List Json
unfolding array_at
items_at k d = or_nil (array_at k d)

pub list_of-items_of : (xs : List Json) → list_of (items_of xs) ≡ xs
list_of-items_of [] = refl
list_of-items_of (x ∷ xs) = ap (λ ys. x ∷ ys) (list_of-items_of xs)

pub dict_of-fields_of : (d : Object) → dict_of (fields_of d) ≡ d
dict_of-fields_of [] = refl
dict_of-fields_of ((k, v) ∷ d) = ap (λ e. (k, v) ∷ e) (dict_of-fields_of d)

pub as_array-array : (xs : List Json) → as_array (array xs) ≡ some xs
as_array-array xs = ap some (list_of-items_of xs)

pub as_object-object : (d : Object) → as_object (object d) ≡ some d
as_object-object d = ap some (dict_of-fields_of d)

items_of-list_of : (xs : Items) → items_of (list_of xs) ≡ xs
items_of-list_of nil = refl
items_of-list_of (cons x xs) = ap (cons x) (items_of-list_of xs)

fields_of-dict_of : (fs : Fields) → fields_of (dict_of fs) ≡ fs
fields_of-dict_of end = refl
fields_of-dict_of (field k v fs) = ap (field k v) (fields_of-dict_of fs)

pub object-as_object : (v : Json) (d : Object) → as_object v ≡ some d → object d ≡ v
object-as_object (obj fs) d h = ground (arith, fields_of-dict_of fs)
object-as_object null d h = ground arith
object-as_object (bool _) d h = ground arith
object-as_object (num _ _) d h = ground arith
object-as_object (str _) d h = ground arith
object-as_object (arr _) d h = ground arith

pub array-as_array : (v : Json) (xs : List Json) → as_array v ≡ some xs → array xs ≡ v
array-as_array (arr is) xs h = ground (arith, items_of-list_of is)
array-as_array null xs h = ground arith
array-as_array (bool _) xs h = ground arith
array-as_array (num _ _) xs h = ground arith
array-as_array (str _) xs h = ground arith
array-as_array (obj _) xs h = ground arith

module _ (k j : Text) (d : Object) where
  pub items_at-insert :
      (xs : List Json) → items_at k (insert j (array xs) d) ≡ (if k == j then xs else items_at k d)
  unfolding items_at array_at
  items_at-insert xs =
      ap (λ o. or_nil (then_as as_array o)) (lookup-insert k j (array xs) d)
      ∙ ground (arith, list_of-items_of xs)

  pub object_at-insert :
      (e : Object)
      → object_at k (insert j (object e) d) ≡ (if k == j then some e else object_at k d)
  unfolding object_at
  object_at-insert e =
      ap (then_as as_object) (lookup-insert k j (object e) d) ∙ ground (arith, dict_of-fields_of e)

  pub array_at-insert :
      (xs : List Json)
      → array_at k (insert j (array xs) d) ≡ (if k == j then some xs else array_at k d)
  unfolding array_at
  array_at-insert xs =
      ap (then_as as_array) (lookup-insert k j (array xs) d) ∙ ground (arith, list_of-items_of xs)

  pub string_at-insert :
      (v : Json)
      → string_at k (insert j v d) ≡ (if k == j then or_none (as_string v) else string_at k d)
  unfolding string_at
  string_at-insert v =
      ap (λ o. or_none (then_as as_string o)) (lookup-insert k j v d) ∙ ground arith

-- Storing a value that is there changes nothing.
module _ (k : Text) (d : Object) where
  as_array-some :
      (xs : List Json) (o : Option Json)
      → lookup k d ≡ o
      → then_as as_array o ≡ some xs
      → insert k (array xs) d ≡ d
  as_array-some xs none e h = ground arith
  as_array-some xs (some v) e h =
      insert-same k (array xs) d (ground (arith, e, array-as_array v xs h))

  pub insert-array_at : (xs : List Json) → array_at k d ≡ some xs → insert k (array xs) d ≡ d
  unfolding array_at
  insert-array_at xs h = as_array-some xs (lookup k d) refl h

  as_object-some :
      (m : Object) (o : Option Json)
      → lookup k d ≡ o
      → then_as as_object o ≡ some m
      → insert k (object m) d ≡ d
  as_object-some m none e h = ground arith
  as_object-some m (some v) e h =
      insert-same k (object m) d (ground (arith, e, object-as_object v m h))

  pub insert-object_at : (m : Object) → object_at k d ≡ some m → insert k (object m) d ≡ d
  unfolding object_at
  insert-object_at m h = as_object-some m (lookup k d) refl h

-- fmt.Sprint of arrays and maps: elements by spaces, the entries of a map by the order of the keys.
unfoldable pub insert_entry : Text → Text → Dict Text Text → Dict Text Text
unfolding text_le
insert_entry k v [] = (k, v) ∷ []
insert_entry k v ((j, w) ∷ d) =
    let rest = insert_entry k v d in if text_le k j then (k, v) ∷ (j, w) ∷ d else (j, w) ∷ rest

unfoldable pub entry_texts : Dict Text Text → List Text
entry_texts [] = []
entry_texts ((k, v) ∷ d) = (k ++ (b':' ∷ v)) ∷ entry_texts d

unfoldable mutual
  unfolding join insert_entry entry_texts

  -- fmt.Sprint
  pub sprint : Json → Text
  sprint null = text "<nil>"
  sprint (bool true) = text "true"
  sprint (bool false) = text "false"
  sprint (num i t) = t
  sprint (str t) = t
  sprint (arr xs) = b'[' ∷ (join (text " ") (sprint_items xs) ++ text "]")
  sprint (obj fs) = text "map[" ++ (join (text " ") (entry_texts (sprint_fields fs)) ++ text "]")

  sprint_items : Items → List Text
  sprint_items nil = []
  sprint_items (cons x xs) = sprint x ∷ sprint_items xs

  sprint_fields : Fields → Dict Text Text
  sprint_fields end = []
  sprint_fields (field k v fs) = insert_entry k (sprint v) (sprint_fields fs)

-- fmt.Sprint(m[k]), which is "<nil>" for a missing key.
unfoldable pub sprint_at : Text → Object → Text
unfolding sprint
sprint_at k d = elim (lookup k d) [ none ↦ text "<nil>" | some v ↦ sprint v ]
