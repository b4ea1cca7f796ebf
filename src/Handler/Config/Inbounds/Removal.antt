-- ===== src/Handler/Config/Inbounds/Removal.antt =====
-- removeInboundFromConfig: the loops over the inbounds and over the rules.
use mmw_agent.Base.{
  ℕ, ◌+◌, ◌≡◌, refl, ap, ◌∙◌, Bool, false, not, ◌&&◌, ◌||◌, Option, none, some, List, [], ◌∷◌,
  arith, Text, text, text_eq, nat_eq, ◌==◌, length, All, if-elim,
}
use mmw_agent.Json.{
  Json, null, bool, num, str, arr, obj, Items, Object, list_of, array, object, as_object, object_at,
  items_at, list_of-items_of, as_object-object,
}
use mmw_agent.Base.Dict.{lookup, insert, lookup-insert}
use mmw_agent.Handler.Config.Clients.{object_or_empty}
use mmw_agent.Handler.Config.Inbounds.{
  is_removed, drop_inbounds, is_text, drop_tags, narrow_list, narrow_tags, narrow_rule, cons_some,
  narrow_rules,
}

unfoldable pub mentions : Text → List Json → Bool
unfolding is_text
mentions tag [] = false
mentions tag (t ∷ ts) = is_text tag t || mentions tag ts

-- Whether the field inboundTag has the tag.
abbrev pub names_tag : Text → Option Json → Bool
names_tag tag (some (arr tags)) = mentions tag (list_of tags)
names_tag tag (some (str t)) = t == tag
names_tag tag _ = false

abbrev pub refers : Text → Option Object → Bool
refers tag none = false
refers tag (some rule) = names_tag tag (lookup (text "inboundTag") rule)

abbrev pub rules_of : Object → List Json
rules_of config = items_at (text "rules") (object_or_empty (object_at (text "routing") config))

module _ (tag : Text) where
  pub drop_inbounds-All :
      (xs : List Json) → All (λ x. is_removed tag (as_object x) ≡ false) (drop_inbounds tag xs)
  unfolding drop_inbounds
  drop_inbounds-All [] = tt
  drop_inbounds-All (x ∷ xs) =
      if-elim (All (λ y. is_removed tag (as_object y) ≡ false)) (is_removed tag (as_object x)) _ _
        (λ _. drop_inbounds-All xs) (λ e. (e, drop_inbounds-All xs))

  drop_tags-mentions : (ts : List Json) → mentions tag (drop_tags tag ts).0 ≡ false
  unfolding drop_tags mentions
  drop_tags-mentions [] = refl
  drop_tags-mentions (t ∷ ts) = ground (arith, drop_tags-mentions ts)

  drop_tags-length :
      (ts : List Json) → length (drop_tags tag ts).0 + (drop_tags tag ts).1 ≡ length ts
  unfolding drop_tags
  drop_tags-length [] = omega arith
  drop_tags-length (t ∷ ts) = ground (arith, drop_tags-length ts)

  drop_tags-zero : (ts : List Json) → (drop_tags tag ts).1 ≡ 0 → mentions tag ts ≡ false
  unfolding drop_tags mentions
  drop_tags-zero [] h = refl
  drop_tags-zero (t ∷ ts) h = ground (arith, drop_tags-zero ts)

  -- What becomes of a rule: one that stays does not refer to the tag, nor did it if nothing went.
  abbrev Clean : Option Json → Type 0
  Clean none = Unit
  Clean (some r) = refers tag (as_object r) ≡ false

  record Narrowed (o : Option Object) (r : Option Json × ℕ) : Type 0 where
    clean : Clean r.0
    untouched : r.1 ≡ 0 → refers tag o ≡ false

  refers-tags :
      (raw : Json) (rule : Object) (v : Json)
      → as_object raw ≡ some rule
      → lookup (text "inboundTag") rule ≡ some v
      → refers tag (as_object raw) ≡ names_tag tag (some v)
  refers-tags raw rule v e k = ap (refers tag) e ∙ ap (names_tag tag) k

  refers-insert :
      (rule : Object) (tags : List Json)
      → refers tag (as_object (object (insert (text "inboundTag") (array tags) rule)))
        ≡ mentions tag tags
  refers-insert rule tags =
      let key = text "inboundTag" in
      let found : lookup key (insert key (array tags) rule) ≡ some (array tags) =
        ground (arith, lookup-insert key key (array tags) rule) in
      ap (refers tag) (as_object-object (insert key (array tags) rule))
      ∙ ap (names_tag tag) found
      ∙ ap (mentions tag) (list_of-items_of tags)

  narrow_list-Narrowed :
      (raw : Json) (rule : Object) (tags : Items)
      → as_object raw ≡ some rule
      → lookup (text "inboundTag") rule ≡ some (arr tags)
      → Narrowed (some rule) (narrow_list tag raw rule (list_of tags))
  unfolding narrow_list
  narrow_list-Narrowed raw rule tags e k =
      let rest = (drop_tags tag (list_of tags)).0 in
      let n = (drop_tags tag (list_of tags)).1 in
      let zero_clean : n ≡ 0 → refers tag (some rule) ≡ false =
        λ h. ap (names_tag tag) k ∙ drop_tags-zero (list_of tags) h in
      if-elim (Narrowed (some rule)) (length rest == 0 && not (length (list_of tags) == 0)) _ _
        (λ _. record { clean = tt; untouched = zero_clean })
        (λ _. record {
          clean =
              if-elim (λ r. Clean (some r)) (length rest == length (list_of tags)) _ _
                (λ same.
                  ap (refers tag) e
                  ∙ zero_clean (ground (arith, same, drop_tags-length (list_of tags))))
                (λ _. refers-insert rule rest ∙ drop_tags-mentions (list_of tags));
          untouched = zero_clean;
        })

  -- A rule that is left as it is did not refer to the tag.
  left_alone :
      (raw : Json) (rule : Object)
      → as_object raw ≡ some rule
      → refers tag (some rule) ≡ false
      → Narrowed (some rule) (some raw, 0)
  left_alone raw rule e h = record { clean = ap (refers tag) e ∙ h; untouched = λ _. h }

  narrow_tags-Narrowed :
      (raw : Json) (rule : Object) (v : Option Json)
      → as_object raw ≡ some rule
      → lookup (text "inboundTag") rule ≡ v
      → Narrowed (some rule) (narrow_tags tag raw rule v)
  unfolding narrow_tags
  narrow_tags-Narrowed raw rule none e k = left_alone raw rule e (ap (names_tag tag) k)
  narrow_tags-Narrowed raw rule (some (arr tags)) e k = narrow_list-Narrowed raw rule tags e k
  narrow_tags-Narrowed raw rule (some (str t)) e k =
      if-elim (Narrowed (some rule)) (t == tag) _ _
        (λ h. record { clean = tt; untouched = λ z. ground (arith, z) })
        (λ h. left_alone raw rule e (ap (names_tag tag) k ∙ h))
  narrow_tags-Narrowed raw rule (some null) e k = left_alone raw rule e (ap (names_tag tag) k)
  narrow_tags-Narrowed raw rule (some (bool b)) e k = left_alone raw rule e (ap (names_tag tag) k)
  narrow_tags-Narrowed raw rule (some (num i t)) e k = left_alone raw rule e (ap (names_tag tag) k)
  narrow_tags-Narrowed raw rule (some (obj fs)) e k = left_alone raw rule e (ap (names_tag tag) k)

  narrow_rule-Narrowed :
      (raw : Json) (o : Option Object) → as_object raw ≡ o → Narrowed o (narrow_rule tag raw o)
  unfolding narrow_rule
  narrow_rule-Narrowed raw none e = record { clean = ap (refers tag) e; untouched = λ _. refl }
  narrow_rule-Narrowed raw (some rule) e =
      narrow_tags-Narrowed raw rule (lookup (text "inboundTag") rule) e refl

  cons_some-All :
      (r : Option Json) (rs : List Json)
      → Clean r
      → All (λ x. refers tag (as_object x) ≡ false) rs
      → All (λ x. refers tag (as_object x) ≡ false) (cons_some r rs)
  unfolding cons_some
  cons_some-All none rs c h = h
  cons_some-All (some r) rs c h = (c, h)

  pub narrow_rules-All :
      (rs : List Json) → All (λ x. refers tag (as_object x) ≡ false) (narrow_rules tag rs).0
  unfolding narrow_rules
  narrow_rules-All [] = tt
  narrow_rules-All (r ∷ rs) =
      cons_some-All (narrow_rule tag r (as_object r)).0 (narrow_rules tag rs).0
        (narrow_rule-Narrowed r (as_object r) refl).clean (narrow_rules-All rs)

  pub narrow_rules-zero :
      (rs : List Json)
      → (narrow_rules tag rs).1 ≡ 0
      → All (λ x. refers tag (as_object x) ≡ false) rs
  unfolding narrow_rules
  narrow_rules-zero [] h = tt
  narrow_rules-zero (r ∷ rs) h = (
    (narrow_rule-Narrowed r (as_object r) refl).untouched (omega (arith, h)),
    narrow_rules-zero rs (omega (arith, h)),
  )
