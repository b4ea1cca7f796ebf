-- ===== src/Startup/Restart.antt =====
-- mergeRouting of main.go: the rules after another start of the agent.
use mmw_agent.Base.{
  ◌≡◌, refl, ap, ◌∙◌, inl, inr, true, false, List, [], ◌∷◌, ◌++◌, arith, text_eq, nat_eq,
  if◌then◌else◌, Bool-cases, All, if-elim, contains,
}
use mmw_agent.Json.{Json, as_object}
use mmw_agent.Base.Int.{ℤ, ltb_ℤ}
use mmw_agent.Base.Dict.{is_some}
use mmw_agent.Handler.Config.Rules.Order.{ltb_ℤ-trans, ltb_ℤ-asym}
use mmw_agent.Startup.{
  is_replaced, keep_rules, priority, insert_stable, sort_stable, merge_rules, signatures,
}
use mmw_agent.Startup.Signature.{rule_signature}

-- The priority numbers ascend.
abbrev pub Sorted : List Json → Type 0
Sorted [] = Unit
Sorted (x ∷ xs) = All (λ y. ltb_ℤ (priority y) (priority x) ≡ false) xs × Sorted xs

insert_stable-All :
    (p : ℤ) (r : Json) (xs : List Json)
    → ltb_ℤ (priority r) p ≡ false
    → All (λ y. ltb_ℤ (priority y) p ≡ false) xs
    → All (λ y. ltb_ℤ (priority y) p ≡ false) (insert_stable r xs)
unfolding insert_stable
insert_stable-All p r [] h k = (h, tt)
insert_stable-All p r (x ∷ xs) h (hx, k) =
    if-elim (All (λ y. ltb_ℤ (priority y) p ≡ false)) (ltb_ℤ (priority x) (priority r)) _ _
      (λ _. (hx, insert_stable-All p r xs h k)) (λ _. (h, (hx, k)))

All-after :
    (r x : Json) (xs : List Json)
    → ltb_ℤ (priority x) (priority r) ≡ false
    → All (λ y. ltb_ℤ (priority y) (priority x) ≡ false) xs
    → All (λ y. ltb_ℤ (priority y) (priority r) ≡ false) xs
All-after r x [] h k = tt
All-after r x (y ∷ ys) h (hy, k) =
    (ltb_ℤ-trans (priority r) (priority x) (priority y) h hy, All-after r x ys h k)

insert_stable-Sorted : (r : Json) (xs : List Json) → Sorted xs → Sorted (insert_stable r xs)
unfolding insert_stable
insert_stable-Sorted r [] h = (tt, tt)
insert_stable-Sorted r (x ∷ xs) (hx, h) =
    if-elim Sorted (ltb_ℤ (priority x) (priority r)) _ _
      (λ e. (
        insert_stable-All (priority x) r xs (ltb_ℤ-asym (priority x) (priority r) e) hx,
        insert_stable-Sorted r xs h,
      ))
      (λ e. ((e, All-after r x xs e hx), (hx, h)))

sort_stable-Sorted : (xs : List Json) → Sorted (sort_stable xs)
unfolding sort_stable
sort_stable-Sorted [] = tt
sort_stable-Sorted (x ∷ xs) = insert_stable-Sorted x (sort_stable xs) (sort_stable-Sorted xs)

insert-first :
    (r : Json) (xs : List Json)
    → All (λ y. ltb_ℤ (priority y) (priority r) ≡ false) xs
    → insert_stable r xs ≡ r ∷ xs
unfolding insert_stable
insert-first r [] h = refl
insert-first r (x ∷ xs) (hx, h) = rw hx refl

sort-Sorted : (xs : List Json) → Sorted xs → sort_stable xs ≡ xs
unfolding sort_stable
sort-Sorted [] h = refl
sort-Sorted (x ∷ xs) (hx, h) = ap (insert_stable x) (sort-Sorted xs h) ∙ insert-first x xs hx

sort-append : (xs ys : List Json) → sort_stable (xs ++ sort_stable ys) ≡ sort_stable (xs ++ ys)
unfolding sort_stable
sort-append [] ys = sort-Sorted (sort_stable ys) (sort_stable-Sorted ys)
sort-append (x ∷ xs) ys = ap (insert_stable x) (sort-append xs ys)

module _ (template : List Json) where
  keep-All :
      (p : ℤ) (xs : List Json)
      → All (λ y. ltb_ℤ (priority y) p ≡ false) xs
      → All (λ y. ltb_ℤ (priority y) p ≡ false) (keep_rules template xs)
  unfolding keep_rules
  keep-All p [] h = tt
  keep-All p (x ∷ xs) (hx, h) =
      if-elim (All (λ y. ltb_ℤ (priority y) p ≡ false)) (is_replaced template x) _ _
        (λ _. keep-All p xs h) (λ _. (hx, keep-All p xs h))

  keep-insert :
      (r : Json) (xs : List Json)
      → Sorted xs
      → keep_rules template (insert_stable r xs) ≡ (
          if is_replaced template r
          then keep_rules template xs
          else insert_stable r (keep_rules template xs))
  unfolding keep_rules insert_stable
  keep-insert r [] h = refl
  keep-insert r (x ∷ xs) (hx, h) = elim (Bool-cases (ltb_ℤ (priority x) (priority r))) [
    | inl e ↦ ground (arith, e, keep-insert r xs h)
    | inr e ↦
        let first =
          insert-first r (keep_rules template xs)
            (keep-All (priority r) xs (All-after r x xs e hx)) in
        ground (arith, e, first)
  ]

  keep-sort :
      (xs : List Json) → keep_rules template (sort_stable xs) ≡ sort_stable (keep_rules template xs)
  unfolding keep_rules sort_stable
  keep-sort [] = refl
  keep-sort (x ∷ xs) =
      keep-insert x (sort_stable xs) (sort_stable-Sorted xs) ∙ ground (arith, keep-sort xs)

  keep-append :
      (xs ys : List Json)
      → keep_rules template (xs ++ ys) ≡ keep_rules template xs ++ keep_rules template ys
  unfolding keep_rules
  keep-append [] ys = refl
  keep-append (x ∷ xs) ys = ground (arith, keep-append xs ys)

  keep-keep :
      (xs : List Json) → keep_rules template (keep_rules template xs) ≡ keep_rules template xs
  unfolding keep_rules
  keep-keep [] = refl
  keep-keep (x ∷ xs) = ground (arith, keep-keep xs)

  keep-replaced :
      (xs : List Json) → All (λ x. is_replaced template x ≡ true) xs → keep_rules template xs ≡ []
  unfolding keep_rules
  keep-replaced [] h = refl
  keep-replaced (x ∷ xs) (hx, h) = rw hx (keep-replaced xs h)

listed_cons :
    (y : Json) (ys zs : List Json)
    → All (λ x. contains (rule_signature x) (signatures ys) ≡ true) zs
    → All (λ x. contains (rule_signature x) (signatures (y ∷ ys)) ≡ true) zs
unfolding signatures contains
listed_cons y ys [] h = tt
listed_cons y ys (z ∷ zs) (hz, h) = (ground (arith, hz), listed_cons y ys zs h)

listed : (xs : List Json) → All (λ x. contains (rule_signature x) (signatures xs) ≡ true) xs
unfolding signatures contains
listed [] = tt
listed (x ∷ xs) = (ground arith, listed_cons x xs xs (listed xs))

template_replaced :
    (template xs : List Json)
    → All (λ x. is_some (as_object x) ≡ true) xs
    → All (λ x. contains (rule_signature x) (signatures template) ≡ true) xs
    → All (λ x. is_replaced template x ≡ true) xs
unfolding is_replaced
template_replaced template [] o h = tt
template_replaced template (x ∷ xs) (ox, o) (hx, h) =
    (ground (arith, ox, hx), template_replaced template xs o h)

-- The rules that mergeRouting makes of those of the file and of a template of objects stand in the
-- order of their priorities, and another start with the same template changes nothing of them.
pub merge_rules-settled :
    (existing template : List Json)
    → All (λ x. is_some (as_object x) ≡ true) template
    → Sorted (merge_rules existing template)
      × (merge_rules (merge_rules existing template) template ≡ merge_rules existing template)
unfolding merge_rules
merge_rules-settled existing template o =
    let kept = keep_rules template existing in
    let again : keep_rules template (sort_stable (template ++ kept)) ≡ sort_stable kept =
      keep-sort template (template ++ kept)
      ∙ ap sort_stable (
          keep-append template template kept
          ∙ ap (λ xs. xs ++ keep_rules template kept)
              (keep-replaced template template
                (template_replaced template template o (listed template)))
          ∙ keep-keep template existing) in
    (
      sort_stable-Sorted (template ++ kept),
      ap (λ xs. sort_stable (template ++ xs)) again ∙ sort-append template kept,
    )
