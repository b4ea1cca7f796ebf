-- ===== src/Handler/Config/Inbounds/Removed.antt =====
-- removeInboundFromConfig: what it leaves of the main file.
use mmw_agent.Base.{
  ◌≡◌, refl, sym, ap, ◌∙◌, ◌≢◌, ◌⊎◌, inl, inr, true, false, Option, none, some, List, [], ◌∷◌, ◌++◌,
  arith, Text, text, text_eq, nat_eq, ◌==◌, All, if-elim,
}
use mmw_agent.Json.{
  Json, Object, array, object, as_array, as_object, then_as, or_nil, array_at, object_at, items_at,
  list_of-items_of, items_at-insert, object_at-insert,
}
use mmw_agent.Base.Dict.{lookup, insert, lookup-insert}
use mmw_agent.Handler.Config.Clients.{object_or_empty}
use mmw_agent.Handler.Config.Inbounds.{
  is_removed, drop_inbounds, narrow_rules, narrow_routing, narrow_object,
  remove_inbound_routing_references, nil_array, remove_inbound,
}
use mmw_agent.Handler.Config.Inbounds.Narrowed.{
  rules_without, narrow_rules-left, rules_without-same,
}
use mmw_agent.Handler.Config.Inbounds.Removal.{
  refers, rules_of, drop_inbounds-All, narrow_rules-All, narrow_rules-zero,
}

abbrev pub routing_of : Object → Object
routing_of config = object_or_empty (object_at (text "routing") config)

abbrev pub Among : Json → List Json → Type 0
Among x xs = (before after : List Json) × (xs ≡ before ++ (x ∷ after))

-- The rules that were stored are there.
pub rules_of-insert :
    (config routing : Object) (rules : List Json)
    → rules_of
        (insert (text "routing") (object (insert (text "rules") (array rules) routing)) config)
      ≡ rules
unfolding object_or_empty
rules_of-insert config routing rules =
    let routing' = insert (text "rules") (array rules) routing in
    let found : object_at (text "routing") (insert (text "routing") (object routing') config)
        ≡ some routing' =
      ground (arith, object_at-insert (text "routing") (text "routing") config routing') in
    let listed : items_at (text "rules") routing' ≡ rules =
      ground (arith, items_at-insert (text "rules") (text "rules") routing rules) in
    ap (λ o. items_at (text "rules") (object_or_empty o)) found ∙ listed

module _ (tag : Text) where
  -- No rule refers to the tag, the rules are left that are to be left, and the other fields are those
  -- before.
  pub record Unreferred (config config' : Object) : Type 0 where
    pub rules : All (λ x. refers tag (as_object x) ≡ false) (rules_of config')
    pub left : rules_of config' ≡ rules_without tag (rules_of config)
    pub routing :
        (k : Text) → k ≢ text "rules" → lookup k (routing_of config') ≡ lookup k (routing_of config)
    pub others : (k : Text) → (lookup k config' ≡ lookup k config) ⊎ (k ≡ text "routing")

  others-insert :
      (config : Object) (v : Json) (k j : Text)
      → (lookup k (insert j v config) ≡ lookup k config) ⊎ (k ≡ j)
  others-insert config v k j = elim (text_eq.dec k j) [
    | yes e ↦ inr e
    | no n ↦ inl (ground (arith, lookup-insert k j v config, n))
  ]

  routing_of-insert :
      (config routing : Object) (rules : List Json)
      → routing_of
          (insert (text "routing") (object (insert (text "rules") (array rules) routing)) config)
        ≡ insert (text "rules") (array rules) routing
  unfolding object_or_empty
  routing_of-insert config routing rules =
      let routing' = insert (text "rules") (array rules) routing in
      let found : object_at (text "routing") (insert (text "routing") (object routing') config)
          ≡ some routing' =
        ground (arith, object_at-insert (text "routing") (text "routing") config routing') in
      ap object_or_empty found

  other_field :
      (routing : Object) (rules : List Json) (k : Text)
      → k ≢ text "rules"
      → lookup k (insert (text "rules") (array rules) routing) ≡ lookup k routing
  other_field routing rules k n =
      ground (arith, lookup-insert k (text "rules") (array rules) routing, n)

  same_rules :
      (config routing : Object) (o : Option (List Json))
      → object_at (text "routing") config ≡ some routing
      → array_at (text "rules") routing ≡ o
      → or_nil o ≡ rules_of config
  unfolding items_at object_or_empty
  same_rules config routing o e a =
      sym (ap (λ m. items_at (text "rules") (object_or_empty m)) e ∙ ap or_nil a)

  narrow_routing-Unreferred :
      (config routing : Object) (o : Option (List Json))
      → object_at (text "routing") config ≡ some routing
      → array_at (text "rules") routing ≡ o
      → Unreferred config (narrow_routing config tag routing o).0
  unfolding narrow_routing object_or_empty
  narrow_routing-Unreferred config routing none e a = record {
    rules =
        coe 0 1
          (i. All (λ x. refers tag (as_object x) ≡ false) (same_rules config routing none e a i))
          tt;
    left =
        let empty = sym (same_rules config routing none e a) in
        empty ∙ ap (rules_without tag) (sym empty);
    routing = λ k n. refl;
    others = λ k. inl refl;
  }
  narrow_routing-Unreferred config routing (some rules) e a =
      let (kept, changed) = narrow_rules tag rules in
      if-elim (Unreferred config) (changed == 0) _ _
        (λ h. record {
          rules =
              coe 0 1
                (i.
                  All (λ x. refers tag (as_object x) ≡ false)
                    (same_rules config routing (some rules) e a i))
                (narrow_rules-zero tag rules (ground (arith, h)));
          left =
              let same = same_rules config routing (some rules) e a in
              sym same
              ∙ sym (rules_without-same tag rules (narrow_rules-zero tag rules (ground (arith, h))))
              ∙ ap (rules_without tag) same;
          routing = λ k n. refl;
          others = λ k. inl refl;
        })
        (λ _. record {
          rules =
              coe 0 1
                (i.
                  All (λ x. refers tag (as_object x) ≡ false)
                    (sym (rules_of-insert config routing kept) i))
                (narrow_rules-All tag rules);
          left =
              rules_of-insert config routing kept
              ∙ narrow_rules-left tag rules
              ∙ ap (rules_without tag) (same_rules config routing (some rules) e a);
          routing = λ k n.
              ap (lookup k) (routing_of-insert config routing kept)
              ∙ other_field routing kept k n
              ∙ ap (λ o. lookup k (object_or_empty o)) (sym e);
          others = λ k. others-insert config _ k (text "routing");
        })

  narrow_object-Unreferred :
      (config : Object) (o : Option Object)
      → object_at (text "routing") config ≡ o
      → Unreferred config (narrow_object config tag o).0
  unfolding narrow_object object_or_empty items_at array_at lookup
  narrow_object-Unreferred config none e = record {
    rules =
        coe 0 1
          (i.
            All (λ x. refers tag (as_object x) ≡ false)
              (items_at (text "rules") (object_or_empty (sym e i))))
          tt;
    left =
        let empty : rules_of config ≡ [] =
          ap (λ o. items_at (text "rules") (object_or_empty o)) e in
        empty ∙ ap (rules_without tag) (sym empty);
    routing = λ k n. refl;
    others = λ k. inl refl;
  }
  narrow_object-Unreferred config (some routing) e =
      narrow_routing-Unreferred config routing (array_at (text "rules") routing) e refl

  nil_array-items : (xs : List Json) → or_nil (as_array (nil_array xs)) ≡ xs
  unfolding nil_array
  nil_array-items [] = refl
  nil_array-items (x ∷ xs) = list_of-items_of (x ∷ xs)

  Among-cons :
      (y : Json) (ys zs : List Json)
      → All (λ x. (is_removed tag (as_object x) ≡ true) ⊎ Among x ys) zs
      → All (λ x. (is_removed tag (as_object x) ≡ true) ⊎ Among x (y ∷ ys)) zs
  Among-cons y ys [] h = tt
  Among-cons y ys (z ∷ zs) (inl r, h) = (inl r, Among-cons y ys zs h)
  Among-cons y ys (z ∷ zs) (inr (before, after, e), h) =
      (inr (y ∷ before, after, ap (λ xs. y ∷ xs) e), Among-cons y ys zs h)

  drop_inbounds-Among :
      (xs : List Json)
      → All (λ x. (is_removed tag (as_object x) ≡ true) ⊎ Among x (drop_inbounds tag xs)) xs
  unfolding drop_inbounds
  drop_inbounds-Among [] = tt
  drop_inbounds-Among (x ∷ xs) =
      let rest = drop_inbounds tag xs in
      if-elim (λ ys. All (λ z. (is_removed tag (as_object z) ≡ true) ⊎ Among z ys) (x ∷ xs))
        (is_removed tag (as_object x)) _ _ (λ r. (inl r, drop_inbounds-Among xs))
        (λ _. (inr ([], rest, refl), Among-cons x rest xs (drop_inbounds-Among xs)))

  -- No inbound with the tag is left and no other one is gone, no rule refers to the tag, a rule that
  -- did not is as it was and one that names other inbounds keeps those, in the order before, and all
  -- fields but inbounds and the rules of routing are those before.
  pub record Removed (config config' : Object) : Type 0 where
    pub gone : All (λ x. is_removed tag (as_object x) ≡ false) (items_at (text "inbounds") config')
    pub kept :
        All
          (λ x.
            (is_removed tag (as_object x) ≡ true) ⊎ Among x (items_at (text "inbounds") config'))
          (items_at (text "inbounds") config)
    pub rules : All (λ x. refers tag (as_object x) ≡ false) (rules_of config')
    pub left : rules_of config' ≡ rules_without tag (rules_of config)
    pub routing :
        (k : Text) → k ≢ text "rules" → lookup k (routing_of config') ≡ lookup k (routing_of config)
    pub others :
        (k : Text)
        → (lookup k config' ≡ lookup k config) ⊎ ((k ≡ text "inbounds") ⊎ (k ≡ text "routing"))

  routing_of-inbounds :
      (config : Object) (v : Json)
      → routing_of (insert (text "inbounds") v config) ≡ routing_of config
  unfolding object_at
  routing_of-inbounds config v =
      ap (λ o. object_or_empty (then_as as_object o))
        (lookup-insert (text "routing") (text "inbounds") v config ∙ ground arith)

  inbounds_left :
      (config config' : Object)
      → Unreferred
          (insert
            (text "inbounds")
            (nil_array (drop_inbounds tag (items_at (text "inbounds") config)))
            config)
          config'
      → items_at (text "inbounds") config' ≡ drop_inbounds tag (items_at (text "inbounds") config)
  unfolding items_at array_at text_eq nat_eq
  inbounds_left config config' h =
      let dropped = drop_inbounds tag (items_at (text "inbounds") config) in
      let stored = lookup-insert (text "inbounds") (text "inbounds") (nil_array dropped) config in
      let kept : lookup (text "inbounds") config'
          ≡ lookup (text "inbounds") (insert (text "inbounds") (nil_array dropped) config) =
        elim (h.others (text "inbounds")) [ inl e ↦ e | inr e ↦ ground (arith, e) ] in
      ap (λ v. or_nil (then_as as_array v)) (kept ∙ stored) ∙ nil_array-items dropped

-- Removing a tag from the configuration of the main file leaves no inbound that has the tag or would
-- get it and every other one, and no rule that refers to it. A rule is gone only if it named no other
-- inbound; one that did is left with those, and one that did not refer to the tag as it was. All
-- fields but inbounds and the rules of routing are those before.
pub remove_inbound-Removed :
    (config : Object) (tag : Text) → Removed tag config (remove_inbound config tag).0
unfolding remove_inbound remove_inbound_routing_references
remove_inbound-Removed config tag =
    let dropped = drop_inbounds tag (items_at (text "inbounds") config) in
    let c1 = insert (text "inbounds") (nil_array dropped) config in
    let h = narrow_object-Unreferred tag c1 (object_at (text "routing") c1) refl in
    let left = inbounds_left tag config (remove_inbound_routing_references c1 tag).0 h in
    record {
      gone =
          coe 0 1 (i. All (λ x. is_removed tag (as_object x) ≡ false) (sym left i))
            (drop_inbounds-All tag (items_at (text "inbounds") config));
      kept =
          coe 0 1
            (i.
              All (λ x. (is_removed tag (as_object x) ≡ true) ⊎ Among x (sym left i))
                (items_at (text "inbounds") config))
            (drop_inbounds-Among tag (items_at (text "inbounds") config));
      rules = h.rules;
      left =
          h.left
          ∙ ap (λ m. rules_without tag (items_at (text "rules") m))
              (routing_of-inbounds tag config (nil_array dropped));
      routing =
          λ k n. h.routing k n ∙ ap (lookup k) (routing_of-inbounds tag config (nil_array dropped));
      others = λ k. elim (h.others k) [
        | inl e ↦ elim (others-insert tag config (nil_array dropped) k (text "inbounds")) [
          | inl f ↦ inl (e ∙ f)
          | inr f ↦ inr (inl f)
        ]
        | inr e ↦ inr (inr e)
      ];
    }
