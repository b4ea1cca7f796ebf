-- ===== src/Handler/Config/Rules/Order.antt =====
-- add_rule: the rules stay in the order of their priorities.
use mmw_agent.Base.{
  ℕ, suc, ◌≡◌, refl, sym, inl, inr, Bool, true, false, not, Option, none, some, List, [], ◌∷◌, ◌++◌,
  arith, text_eq, nat_eq, Bool-cases, take, drop, All, if-elim,
}
use mmw_agent.Json.{Json, Object, object, as_object, as_object-object}
use mmw_agent.Base.Int.{ℤ, pos, negsuc, ltb_ℤ}
use mmw_agent.Handler.Config.Rules.{classify_rule_priority, goes_before, insert_rule}

pub ltb_ℤ-trans : (a b c : ℤ) → ltb_ℤ b a ≡ false → ltb_ℤ c b ≡ false → ltb_ℤ c a ≡ false
ltb_ℤ-trans (pos a) (pos b) (pos c) h k = ground arith
ltb_ℤ-trans (pos a) (pos b) (negsuc c) h k = ground arith
ltb_ℤ-trans (pos a) (negsuc b) c h k = ground arith
ltb_ℤ-trans (negsuc a) (pos b) (pos c) h k = refl
ltb_ℤ-trans (negsuc a) (pos b) (negsuc c) h k = ground arith
ltb_ℤ-trans (negsuc a) (negsuc b) (pos c) h k = refl
ltb_ℤ-trans (negsuc a) (negsuc b) (negsuc c) h k = ground arith

pub ltb_ℤ-asym : (a b : ℤ) → ltb_ℤ a b ≡ true → ltb_ℤ b a ≡ false
ltb_ℤ-asym (pos a) (pos b) h = ground arith
ltb_ℤ-asym (pos a) (negsuc b) h = ground arith
ltb_ℤ-asym (negsuc a) (pos b) h = refl
ltb_ℤ-asym (negsuc a) (negsuc b) h = ground arith

-- The second is not to come before the first; items that are no objects may stand anywhere.
abbrev pub Follows : Option Object → Option Object → Type 0
Follows none s = Unit
Follows (some r) none = Unit
Follows (some r) (some s) =
    ltb_ℤ (classify_rule_priority (some s)) (classify_rule_priority (some r)) ≡ false

abbrev pub Ordered : List Json → Type 0
Ordered [] = Unit
Ordered (r ∷ rs) = All (λ s. Follows (as_object r) (as_object s)) rs × Ordered rs

All-follow :
    (r s : Object) (rs : List Json)
    → Follows (some r) (some s)
    → All (λ t. Follows (some s) (as_object t)) rs
    → All (λ t. Follows (some r) (as_object t)) rs
All-follow r s [] f h = tt
All-follow r s (t ∷ rs) f (ft, h) = (follow_all (as_object t) ft, All-follow r s rs f h)
  where
    follow_all : (o : Option Object) → Follows (some s) o → Follows (some r) o
    follow_all none g = tt
    follow_all (some t) g =
        ltb_ℤ-trans (classify_rule_priority (some r)) (classify_rule_priority (some s))
          (classify_rule_priority (some t)) f g

not-true : (b : Bool) → not b ≡ true → b ≡ false
not-true true h = sym h
not-true false h = refl

not-false : (b : Bool) → not b ≡ false → b ≡ true
not-false true h = refl
not-false false h = sym h

module _ (rule : Object) where
  given : some rule ≡ as_object (object rule)
  given = sym (as_object-object rule)

  -- A rule that the new one goes before follows it, with all that follows that rule.
  follow_new :
      (r : Option Object) (rs : List Json)
      → goes_before (classify_rule_priority (some rule)) r ≡ true
      → All (λ s. Follows r (as_object s)) rs
      → Follows (some rule) r × All (λ s. Follows (some rule) (as_object s)) rs
  unfolding goes_before
  follow_new none rs g h = ground arith
  follow_new (some r) rs g h =
      let f : Follows (some rule) (some r) = not-true _ g in (f, All-follow rule r rs f h)

  follow_old :
      (r : Option Object)
      → goes_before (classify_rule_priority (some rule)) r ≡ false
      → Follows r (some rule)
  unfolding goes_before
  follow_old none g = tt
  follow_old (some r) g =
      ltb_ℤ-asym (classify_rule_priority (some r)) (classify_rule_priority (some rule))
        (not-false _ g)

  All-insert_rule :
      (r : Option Object) (p : ℤ) (rs : List Json)
      → Follows r (some rule)
      → All (λ s. Follows r (as_object s)) rs
      → All (λ s. Follows r (as_object s)) (insert_rule p (object rule) rs)
  unfolding insert_rule
  All-insert_rule r p [] f h = (coe 0 1 (i. Follows r (given i)) f, tt)
  All-insert_rule r p (s ∷ rs) f (hs, h) =
      if-elim (All (λ s. Follows r (as_object s))) (goes_before p (as_object s)) _ _
        (λ _. (coe 0 1 (i. Follows r (given i)) f, (hs, h))) (λ _. (hs, All-insert_rule r p rs f h))

  insert_rule-Ordered_from :
      (rs : List Json)
      → Ordered rs
      → Ordered (insert_rule (classify_rule_priority (some rule)) (object rule) rs)
  unfolding insert_rule
  insert_rule-Ordered_from [] h = (tt, tt)
  insert_rule-Ordered_from (r ∷ rs) (hr, h) =
      let p = classify_rule_priority (some rule) in
      if-elim Ordered (goes_before p (as_object r)) _ _
        (λ g. (
          coe 0 1
              (i. Follows (given i) (as_object r) × All (λ s. Follows (given i) (as_object s)) rs)
              (follow_new (as_object r) rs g hr),
          (hr, h),
        ))
        (λ g. (
          All-insert_rule (as_object r) p rs (follow_old (as_object r) g) hr,
          insert_rule-Ordered_from rs h,
        ))

  insert_rule-at_place :
      (p : ℤ) (rs : List Json)
      → (n : ℕ) × (insert_rule p (object rule) rs ≡ take n rs ++ (object rule ∷ drop n rs))
  unfolding insert_rule
  insert_rule-at_place p [] = (0, refl)
  insert_rule-at_place p (r ∷ rs) =
      let (n, e) = insert_rule-at_place p rs in
      elim (Bool-cases (goes_before p (as_object r))) [
        | inl first ↦ (0, ground (arith, first))
        | inr passed ↦ (suc n, ground (arith, passed, e))
      ]

-- Rules whose priorities ascend have a place for a new rule, with all rules before and after it left
-- as they are, such that the priorities ascend with the rule there: add_rule puts it in this place.
pub insert_rule-Ordered :
    (rule : Object) (rs : List Json)
    → Ordered rs
    → Ordered (insert_rule (classify_rule_priority (some rule)) (object rule) rs)
      × ((n : ℕ) × (insert_rule (classify_rule_priority (some rule)) (object rule) rs
            ≡ take n rs ++ (object rule ∷ drop n rs)))
insert_rule-Ordered rule rs h = (
  insert_rule-Ordered_from rule rs h,
  insert_rule-at_place rule (classify_rule_priority (some rule)) rs,
)
