-- ===== src/Handler/Config/Dedupe/Distinct.antt =====
-- dedupeTaggedArrayInPlace: what it leaves of an array.
use mmw_agent.Base.{
  ℕ, ◌+◌, ◌≡◌, refl, sym, ap, ◌∙◌, ◌≢◌, ◌⊎◌, inl, inr, Bool, false, some, List, [], ◌∷◌, ◌++◌,
  arith, Text, text, text_eq, nat_eq, ◌==◌, if◌then◌else◌, length, if-elim, append_assoc,
}
use mmw_agent.Json.{Json, Object, array, or_nil, array_at, items_at, array_at-insert}
use mmw_agent.Base.Dict.{insert}
use mmw_agent.Handler.Config.Dedupe.{
  tag_of, has_tag, dedupe_loop, dedupe_array, dedupe_tagged_array,
}
use mmw_agent.Handler.Config.Dedupe.Loop.{Distinct, dedupe_loop-Deduped}

has_tag-before :
    (t : Text) (xs ys : List Json) (y : Json) → has_tag t (xs ++ (y ∷ ys)) ≡ false → tag_of y ≢ t
unfolding has_tag
has_tag-before t [] ys y h = λ e. ground (arith, e)
has_tag-before t (x ∷ xs) ys y h = has_tag-before t xs ys y (ground (arith, h))

fresh_tag :
    (xs ys : List Json) (y : Json)
    → Distinct (xs ++ (y ∷ ys))
    → (tag_of y ≡ []) ⊎ (has_tag (tag_of y) xs ≡ false)
unfolding has_tag
fresh_tag [] ys y h = inr refl
fresh_tag (x ∷ xs) ys y (hx, h) = elim (text_eq.dec (tag_of y) []) [
  | yes e ↦ inl e
  | no n ↦
      let clear : has_tag (tag_of y) xs ≡ false = ground (arith, fresh_tag xs ys y h, n) in
      elim hx [
        | inl e ↦ inr (ground (arith, e, n, clear))
        | inr f ↦ inr (ground (arith, has_tag-before (tag_of x) xs ys y f, clear))
      ]
]

-- Items that are distinct are all kept.
dedupe_loop-Distinct :
    (merging : Bool) (kept items : List Json) (removed : ℕ)
    → Distinct (kept ++ items)
    → (dedupe_loop merging kept removed items).1 ≡ removed
unfolding dedupe_loop
dedupe_loop-Distinct merging kept [] removed h = refl
dedupe_loop-Distinct merging kept (item ∷ items) removed h =
    let later =
      dedupe_loop-Distinct merging (kept ++ (item ∷ [])) items removed
        (coe 0 1 (i. Distinct (sym (append_assoc kept (item ∷ []) items) i)) h) in
    ground (arith, later, fresh_tag kept items item h)

dedupe-unchanged :
    (config : Object) (key : Text) (items : List Json)
    → array_at key config ≡ some items
    → Distinct items
    → dedupe_tagged_array config key ≡ (config, 0)
unfolding dedupe_tagged_array dedupe_array
dedupe-unchanged config key items a h =
    ap (dedupe_array config key) a
    ∙ ground (arith, dedupe_loop-Distinct (key == text "inbounds") [] items 0 h)

-- The array of the key in the result, of which the loop's result is stored if an item was removed.
stored_array :
    (config : Object) (key : Text) (items : List Json) (r : List Json × ℕ)
    → array_at key config ≡ some items
    → (r.1 ≡ 0 → r.0 ≡ items)
    → array_at key (if r.1 == 0 then config else insert key (array r.0) config) ≡ some r.0
stored_array config key items r a same =
    if-elim (λ c. array_at key c ≡ some r.0) (r.1 == 0) _ _ (λ e. ground (arith, a, same, e))
      (λ e. ground (arith, array_at-insert key key config r.0))

-- What a call leaves of the array of the key: items without a tag in common that is not empty, a tag
-- for each one before, and as many items fewer as the number returned; and nothing for another call.
pub record Cleaned (key : Text) (items : List Json) (r : Object × ℕ) : Type 0 where
  pub distinct : Distinct (items_at key r.0)
  pub counted : length (items_at key r.0) + r.1 ≡ length items
  pub tagged : (t : Text) → has_tag t (items_at key r.0) ≡ has_tag t items
  pub again : dedupe_tagged_array r.0 key ≡ (r.0, 0)

dedupe_array-Cleaned :
    (config : Object) (key : Text) (items : List Json)
    → array_at key config ≡ some items
    → Cleaned key items (dedupe_array config key (some items))
unfolding dedupe_array has_tag items_at
dedupe_array-Cleaned config key items a =
    let r = dedupe_loop (key == text "inbounds") [] 0 items in
    let h = dedupe_loop-Deduped (key == text "inbounds") [] items 0 tt in
    let stored = stored_array config key items r a h.unchanged in
    let same : items_at key (dedupe_array config key (some items)).0 ≡ r.0 = ap or_nil stored in
    record {
      distinct = coe 0 1 (i. Distinct (sym same i)) h.distinct;
      counted = ap (λ xs. length xs + r.1) same ∙ omega (arith, h.counted);
      tagged = λ t. ap (has_tag t) same ∙ h.tagged t;
      again = dedupe-unchanged _ key r.0 stored h.distinct;
    }

-- For an array under the key, the result has no two items with a tag in common that is not empty, a
-- tag for each of the array, and as many items fewer as the number that is returned; a second call
-- changes nothing and returns 0.
pub dedupe_tagged_array-Cleaned :
    (config : Object) (key : Text) (items : List Json)
    → array_at key config ≡ some items
    → Cleaned key items (dedupe_tagged_array config key)
unfolding dedupe_tagged_array
dedupe_tagged_array-Cleaned config key items a =
    coe 0 1 (i. Cleaned key items (dedupe_array config key (sym a i)))
      (dedupe_array-Cleaned config key items a)
