-- ===== src/Handler/Config/Inbounds/Narrowed.antt =====
-- removeInboundRoutingReferences: exactly what is left of the rules.
use mmw_agent.Base.{
  ◌≤◌, ◌<◌, ◌≡◌, refl, ap, ◌∙◌, inl, inr, true, false, Option, none, some, List, [], ◌∷◌, ◌++◌,
  arith, Text, text, text_eq, nat_eq, ◌==◌, if◌then◌else◌, length, Bool-cases, All,
}
use mmw_agent.Json.{Json, null, bool, num, str, arr, obj, Object, list_of, array, object, as_object}
use mmw_agent.Base.Dict.{lookup, insert}
use mmw_agent.Handler.Config.Inbounds.{
  is_text, drop_tags, narrow_list, narrow_tags, narrow_rule, cons_some, narrow_rules,
}
use mmw_agent.Handler.Config.Inbounds.Removal.{mentions, refers}

-- A list of tags without one of them.
abbrev pub other_tags : Text → List Json → List Json
other_tags tag [] = []
other_tags tag (t ∷ ts) = if is_text tag t then other_tags tag ts else t ∷ other_tags tag ts

-- A rule that names other inbounds too keeps those.
abbrev pub narrowed : Object → List Json → List Json
narrowed rule [] = []
narrowed rule (t ∷ ts) = object (insert (text "inboundTag") (array (t ∷ ts)) rule) ∷ []

-- What is to be left of a rule, by its field inboundTag: all of it where it does not name the tag.
abbrev pub left_of_field : Text → Json → Object → Option Json → List Json
left_of_field tag raw rule (some (arr tags)) =
    if mentions tag (list_of tags) then narrowed rule (other_tags tag (list_of tags)) else raw ∷ []
left_of_field tag raw rule (some (str t)) = if t == tag then [] else raw ∷ []
left_of_field tag raw rule _ = raw ∷ []

abbrev pub left_of_rule : Text → Json → Option Object → List Json
left_of_rule tag raw none = raw ∷ []
left_of_rule tag raw (some rule) = left_of_field tag raw rule (lookup (text "inboundTag") rule)

abbrev pub rules_without : Text → List Json → List Json
rules_without tag [] = []
rules_without tag (r ∷ rs) = left_of_rule tag r (as_object r) ++ rules_without tag rs

abbrev listed : Option Json → List Json
listed none = []
listed (some r) = r ∷ []

module _ (tag : Text) where
  drop_tags-other_tags : (ts : List Json) → (drop_tags tag ts).0 ≡ other_tags tag ts
  unfolding drop_tags
  drop_tags-other_tags [] = refl
  drop_tags-other_tags (t ∷ ts) = ground (arith, drop_tags-other_tags ts)

  unmentioned : (ts : List Json) → mentions tag ts ≡ false → other_tags tag ts ≡ ts
  unfolding mentions
  unmentioned [] h = refl
  unmentioned (t ∷ ts) h = ground (arith, h, unmentioned ts)

  other_tags-le : (ts : List Json) → length (other_tags tag ts) ≤ length ts
  other_tags-le [] = omega arith
  other_tags-le (t ∷ ts) = ground (arith, other_tags-le ts)

  mentioned : (ts : List Json) → mentions tag ts ≡ true → length (other_tags tag ts) < length ts
  unfolding mentions
  mentioned [] h = ground (arith, h)
  mentioned (t ∷ ts) h = ground (arith, h, mentioned ts, other_tags-le ts)

  narrow_list-left :
      (raw : Json) (rule : Object) (tags : List Json)
      → listed (narrow_list tag raw rule tags).0
        ≡ (if mentions tag tags then narrowed rule (other_tags tag tags) else raw ∷ [])
  unfolding narrow_list
  narrow_list-left raw rule tags = elim (Bool-cases (mentions tag tags)) [
    | inl named ↦
        named_left (other_tags tag tags) (drop_tags-other_tags tags) (mentioned tags named) named
    | inr free ↦
        let same = drop_tags-other_tags tags ∙ unmentioned tags free in
        ground (arith, free, ap length same)
  ]
    where
      named_left :
          (others : List Json)
          → (drop_tags tag tags).0 ≡ others
          → length others < length tags
          → mentions tag tags ≡ true
          → listed (narrow_list tag raw rule tags).0
            ≡ (if mentions tag tags then narrowed rule others else raw ∷ [])
      named_left [] e fewer named = ground (arith, e, fewer, named)
      named_left (t ∷ ts) e fewer named = ground (arith, e, fewer, named)

  narrow_tags-left :
      (raw : Json) (rule : Object) (v : Option Json)
      → listed (narrow_tags tag raw rule v).0 ≡ left_of_field tag raw rule v
  unfolding narrow_tags
  narrow_tags-left raw rule none = refl
  narrow_tags-left raw rule (some (arr tags)) = narrow_list-left raw rule (list_of tags)
  narrow_tags-left raw rule (some (str t)) = ground arith
  narrow_tags-left raw rule (some null) = refl
  narrow_tags-left raw rule (some (bool b)) = refl
  narrow_tags-left raw rule (some (num i t)) = refl
  narrow_tags-left raw rule (some (obj fs)) = refl

  narrow_rule-left :
      (raw : Json) (o : Option Object) → listed (narrow_rule tag raw o).0 ≡ left_of_rule tag raw o
  unfolding narrow_rule
  narrow_rule-left raw none = refl
  narrow_rule-left raw (some rule) = narrow_tags-left raw rule (lookup (text "inboundTag") rule)

  cons_some-listed : (r : Option Json) (rs : List Json) → cons_some r rs ≡ listed r ++ rs
  unfolding cons_some
  cons_some-listed none rs = refl
  cons_some-listed (some r) rs = refl

  pub narrow_rules-left : (rs : List Json) → (narrow_rules tag rs).0 ≡ rules_without tag rs
  unfolding narrow_rules
  narrow_rules-left [] = refl
  narrow_rules-left (r ∷ rs) =
      cons_some-listed (narrow_rule tag r (as_object r)).0 (narrow_rules tag rs).0
      ∙ ap (λ xs. xs ++ (narrow_rules tag rs).0) (narrow_rule-left r (as_object r))
      ∙ ap (λ ys. left_of_rule tag r (as_object r) ++ ys) (narrow_rules-left rs)

  unreferred_field :
      (raw : Json) (rule : Object) (v : Option Json)
      → lookup (text "inboundTag") rule ≡ v
      → refers tag (some rule) ≡ false
      → left_of_field tag raw rule v ≡ raw ∷ []
  unreferred_field raw rule none e h = refl
  unreferred_field raw rule (some (arr tags)) e h = ground (arith, e, h)
  unreferred_field raw rule (some (str t)) e h = ground (arith, e, h)
  unreferred_field raw rule (some null) e h = refl
  unreferred_field raw rule (some (bool b)) e h = refl
  unreferred_field raw rule (some (num i t)) e h = refl
  unreferred_field raw rule (some (obj fs)) e h = refl

  unreferred_rule :
      (raw : Json) (o : Option Object) → refers tag o ≡ false → left_of_rule tag raw o ≡ raw ∷ []
  unreferred_rule raw none h = refl
  unreferred_rule raw (some rule) h =
      unreferred_field raw rule (lookup (text "inboundTag") rule) refl h

  pub rules_without-same :
      (rs : List Json) → All (λ x. refers tag (as_object x) ≡ false) rs → rules_without tag rs ≡ rs
  rules_without-same [] h = refl
  rules_without-same (r ∷ rs) (hr, h) =
      ap (λ xs. xs ++ rules_without tag rs) (unreferred_rule r (as_object r) hr)
      ∙ ap (λ ys. r ∷ ys) (rules_without-same rs h)
