-- ===== src/Xrayconf.antt =====
-- internal/xrayconf/merge.go: the configurations of a directory as one.
use mmw_agent.Base.{
  Bool, not, ◌&&◌, Option, none, some, List, [], ◌∷◌, ◌++◌, Text, text, text_eq, nat_eq, ◌==◌,
  if◌then◌else◌, contains,
}
use mmw_agent.Json.{Json, null, Object, array, object, as_array, as_object, then_as, items_at}
use mmw_agent.Base.Strings.{text_le}
use mmw_agent.Base.Dict.{lookup, insert}

abbrev pub is_array_field : Text → Bool
is_array_field k = contains k (text "inbounds" ∷ text "outbounds" ∷ [])

-- for k, v := range incomMap, without the rules.
unfoldable pub override_fields : Object → Object → Object
unfolding text_eq
override_fields exist [] = exist
override_fields exist ((k, v) ∷ incoming) =
    override_fields (if k == text "rules" then exist else insert k v exist) incoming

unfoldable pub append_rules : Object → List Json → List Json → Object
append_rules exist rules [] = exist
append_rules exist rules (r ∷ rs) = insert (text "rules") (array (rules ++ (r ∷ rs))) exist

unfoldable pub merge_routing : Option Json → Json → Option Json
unfolding override_fields append_rules
merge_routing existing incoming = elim (as_object incoming) [
  | none ↦ existing
  | some incom ↦ elim (then_as as_object existing) [
    | none ↦ some incoming
    | some exist ↦ some (
        object (
          append_rules (override_fields exist incom) (items_at (text "rules") exist)
            (items_at (text "rules") incom)))
  ]
]

-- result[k] = mergeRouting(...), which is null if neither is an object.
unfoldable pub or_null : Option Json → Json
or_null none = null
or_null (some v) = v

unfoldable pub append_field : Text → Option (List Json) → Object → Object
append_field k none result = result
append_field k (some items) result = insert k (array (items_at k result ++ items)) result

-- The body of the loop over the fields of a configuration.
unfoldable pub merge_field : Text → Json → Object → Object
unfolding append_field merge_routing or_null text_eq contains
merge_field k v result =
    if is_array_field k
    then append_field k (as_array v) result
    else (if k == text "routing"
        then insert k (or_null (merge_routing (lookup k result) v)) result
        else insert k v result)

unfoldable pub merge_fields : Object → Object → Object
unfolding merge_field
merge_fields result [] = result
merge_fields result ((k, v) ∷ cfg) = merge_fields (merge_field k v result) cfg

unfoldable pub merge_all : Object → List Object → Object
unfolding merge_fields
merge_all result [] = result
merge_all result (cfg ∷ configs) = merge_all (merge_fields result cfg) configs

-- Merge
unfoldable pub merge : List Object → Object
unfolding merge_all
merge [] = []
merge (cfg ∷ []) = cfg
merge (c1 ∷ c2 ∷ configs) = merge_all [] (c1 ∷ c2 ∷ configs)

-- The files of confDir that end in .json and parse, by name; os.ReadDir gives none on an error.
module _ (read_json : Text → Option Object) (ext_json : Text → Bool) where
  unfoldable pub insert_name : Text → List Text → List Text
  unfolding text_le
  insert_name n [] = n ∷ []
  insert_name n (m ∷ ms) =
      let rest = insert_name n ms in if text_le n m then n ∷ m ∷ ms else m ∷ rest

  unfoldable pub json_files : List (Text × Bool) → List Text
  unfolding insert_name
  json_files [] = []
  json_files ((name, is_dir) ∷ entries) =
      let rest = json_files entries in
      if not is_dir && ext_json name then insert_name name rest else rest

  unfoldable pub read_all : List Text → List Object
  read_all [] = []
  read_all (f ∷ fs) =
      let rest = read_all fs in elim (read_json f) [ none ↦ rest | some m ↦ m ∷ rest ]

  unfoldable pub conf_dir_configs : Option (List (Text × Bool)) → List Object
  unfolding json_files read_all
  conf_dir_configs none = []
  conf_dir_configs (some entries) = read_all (json_files entries)

  unfoldable pub some_merge : List Object → Option Object
  unfolding merge
  some_merge [] = none
  some_merge (c ∷ cs) = some (merge (c ∷ cs))

  -- ReadConfig: an empty path is no file, no directory is none, an unreadable one is `some none`.
  unfoldable pub read_config : Text → Option (Option (List (Text × Bool))) → Option Object
  unfolding conf_dir_configs some_merge text_eq
  read_config path none =
      if path == []
      then none
      else elim (read_json path) [ none ↦ none | some m ↦ some_merge (m ∷ []) ]
  read_config path (some entries) =
      if path == [] then some_merge (conf_dir_configs entries) else elim (read_json path) [
        | none ↦ none
        | some m ↦ some_merge (m ∷ conf_dir_configs entries)
      ]
