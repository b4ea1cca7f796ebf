-- ===== src/Handler/Config/Dedupe/Loop.antt =====
-- dedupeTaggedArrayInPlace: the loop, by what is kept and what is to come.
use mmw_agent.Base.{
  ℕ, suc, ◌+◌, ◌≤◌, ◌≡◌, refl, sym, ap, ◌∙◌, ◌⊎◌, inr, Bool, true, false, ◌||◌, Option, none, some,
  List, [], ◌∷◌, ◌++◌, arith, Text, text, text_eq, nat_eq, ◌==◌, if◌then◌else◌, length,
  length-append, if-elim, append-nil, append_assoc,
}
use mmw_agent.Json.{
  Json, obj, Object, dict_of, object, string_at, items_at, dict_of-fields_of, string_at-insert,
}
use mmw_agent.Base.Dict.{insert}
use mmw_agent.Handler.Config.Clients.{
  merge_inbound_clients, merge_settings, merge_listed, merged_protocol, clients_key, is_nil,
}
use mmw_agent.Handler.Config.Dedupe.{tag_of, has_tag, merge_item, merge_into_first, dedupe_loop}

-- No two items have a tag in common that is not empty.
abbrev pub Distinct : List Json → Type 0
Distinct [] = Unit
Distinct (x ∷ xs) = ((tag_of x ≡ []) ⊎ (has_tag (tag_of x) xs ≡ false)) × Distinct xs

tag-insert_settings :
    (v : Json) (m : Object)
    → string_at (text "tag") (insert (text "settings") v m) ≡ string_at (text "tag") m
unfolding text_eq nat_eq
tag-insert_settings v m = string_at-insert (text "tag") (text "settings") m v

tag-merge_listed :
    (protocol : Text) (key : Option Text) (dst ds ss : Object)
    → string_at (text "tag") (merge_listed protocol key dst ds ss) ≡ string_at (text "tag") dst
unfolding merge_listed
tag-merge_listed protocol none dst ds ss = refl
tag-merge_listed protocol (some key) dst ds ss =
    if-elim (λ m. string_at (text "tag") m ≡ string_at (text "tag") dst) (is_nil (items_at key ss))
      _ _ (λ _. refl) (λ _. tag-insert_settings _ dst)

tag-merge_settings :
    (dst src : Object) (ds ss : Option Object)
    → string_at (text "tag") (merge_settings dst src ds ss) ≡ string_at (text "tag") dst
unfolding merge_settings
tag-merge_settings dst src none ss = refl
tag-merge_settings dst src (some d) none = refl
tag-merge_settings dst src (some d) (some s) =
    tag-merge_listed (merged_protocol dst src) (clients_key (merged_protocol dst src)) dst d s

tag_of-object : (m : Object) → tag_of (object m) ≡ string_at (text "tag") m
unfolding tag_of
tag_of-object m = ap (string_at (text "tag")) (dict_of-fields_of m)

tag_of-merge_item : (x copy : Json) → tag_of (merge_item x copy) ≡ tag_of x
unfolding merge_item tag_of merge_inbound_clients
tag_of-merge_item (obj x) (obj copy) =
    tag_of-object (merge_inbound_clients (dict_of x) (dict_of copy))
    ∙ tag-merge_settings (dict_of x) (dict_of copy) _ _
tag_of-merge_item x copy = refl

has_tag-append :
    (t : Text) (xs : List Json) (y : Json)
    → has_tag t (xs ++ (y ∷ [])) ≡ (has_tag t xs || (tag_of y == t))
unfolding has_tag
has_tag-append t [] y = ground arith
has_tag-append t (x ∷ xs) y = ground (arith, has_tag-append t xs y)

has_tag-merge_into_first :
    (t tag : Text) (copy : Json) (xs : List Json)
    → has_tag t (merge_into_first tag copy xs) ≡ has_tag t xs
unfolding has_tag merge_into_first
has_tag-merge_into_first t tag copy [] = refl
has_tag-merge_into_first t tag copy (x ∷ xs) =
    ground (arith, tag_of-merge_item x copy, has_tag-merge_into_first t tag copy xs)

length-merge_into_first :
    (tag : Text) (copy : Json) (xs : List Json) → length (merge_into_first tag copy xs) ≡ length xs
unfolding merge_into_first
length-merge_into_first tag copy [] = refl
length-merge_into_first tag copy (x ∷ xs) = ground (arith, length-merge_into_first tag copy xs)

merge_into_first-Distinct :
    (tag : Text) (copy : Json) (xs : List Json)
    → Distinct xs
    → Distinct (merge_into_first tag copy xs)
unfolding merge_into_first
merge_into_first-Distinct tag copy [] h = tt
merge_into_first-Distinct tag copy (x ∷ xs) (hx, h) =
    if-elim Distinct (tag_of x == tag) _ _ (λ _. (ground (arith, hx, tag_of-merge_item x copy), h))
      (λ _. (
        ground (arith, hx, has_tag-merge_into_first (tag_of x) tag copy xs),
        merge_into_first-Distinct tag copy xs h,
      ))

append-Distinct :
    (xs : List Json) (y : Json)
    → Distinct xs
    → (tag_of y ≡ []) ⊎ (has_tag (tag_of y) xs ≡ false)
    → Distinct (xs ++ (y ∷ []))
unfolding has_tag
append-Distinct [] y h n = (inr refl, tt)
append-Distinct (x ∷ xs) y (hx, h) n = (
  ground (arith, hx, n, has_tag-append (tag_of x) xs y),
  append-Distinct xs y h (ground (arith, n)),
)

-- What the loop has at its end, from what is kept and the items to come.
pub record Deduped (kept items : List Json) (removed : ℕ) (r : List Json × ℕ) : Type 0 where
  pub distinct : Distinct r.0
  pub counted : length r.0 + r.1 ≡ length kept + removed + length items
  pub tagged : (t : Text) → has_tag t r.0 ≡ (has_tag t kept || has_tag t items)
  pub unchanged : r.1 ≡ removed → r.0 ≡ kept ++ items
  pub not_fewer : removed ≤ r.1

Deduped-next :
    (kept items : List Json) (item : Json) (removed : ℕ) (r : List Json × ℕ)
    → Deduped (kept ++ (item ∷ [])) items removed r
    → Deduped kept (item ∷ items) removed r
unfolding has_tag
Deduped-next kept items item removed r h = record {
  distinct = h.distinct;
  counted = omega (arith, h.counted, length-append kept (item ∷ []));
  tagged = λ t. ground (arith, h.tagged t, has_tag-append t kept item);
  unchanged = λ e. h.unchanged e ∙ append_assoc kept (item ∷ []) items;
  not_fewer = h.not_fewer;
}

Deduped-merged :
    (merging : Bool) (kept items : List Json) (item : Json) (removed : ℕ) (r : List Json × ℕ)
    → has_tag (tag_of item) kept ≡ true
    → Deduped
        (if merging then merge_into_first (tag_of item) item kept else kept)
        items
        (suc removed)
        r
    → Deduped kept (item ∷ items) removed r
unfolding has_tag
Deduped-merged merging kept items item removed r seen h =
    let m = if merging then merge_into_first (tag_of item) item kept else kept in
    let same_tags : (t : Text) → has_tag t m ≡ has_tag t kept =
      λ t. ground (arith, has_tag-merge_into_first t (tag_of item) item kept) in
    let same_length : length m ≡ length kept =
      ground (arith, length-merge_into_first (tag_of item) item kept) in
    record {
      distinct = h.distinct;
      counted = omega (arith, h.counted, same_length);
      tagged = λ t. elim (text_eq.dec (tag_of item) t) [
        | yes e ↦ ground (arith, h.tagged t, same_tags t, ap (λ u. has_tag u kept) e, seen)
        | no e ↦ ground (arith, h.tagged t, same_tags t, e)
      ];
      unchanged = λ e. ground (arith, e, h.not_fewer);
      not_fewer = omega (arith, h.not_fewer);
    }

pub dedupe_loop-Deduped :
    (merging : Bool) (kept items : List Json) (removed : ℕ)
    → Distinct kept
    → Deduped kept items removed (dedupe_loop merging kept removed items)
unfolding dedupe_loop
dedupe_loop-Deduped merging kept [] removed h = record {
  distinct = h;
  counted = omega arith;
  tagged = λ t. ground arith;
  unchanged = λ e. sym (append-nil kept);
  not_fewer = omega arith;
}
dedupe_loop-Deduped merging kept (item ∷ items) removed h =
    if-elim (Deduped kept (item ∷ items) removed) (tag_of item == []) _ _
      (λ e. Deduped-next kept items item removed _ (
        dedupe_loop-Deduped merging (kept ++ (item ∷ [])) items removed
          (append-Distinct kept item h (ground (arith, e)))))
      (λ e.
        if-elim (Deduped kept (item ∷ items) removed) (has_tag (tag_of item) kept) _ _
          (λ seen. Deduped-merged merging kept items item removed _ seen (
            dedupe_loop-Deduped merging _ items (suc removed) (
              if-elim Distinct merging _ _
                (λ _. merge_into_first-Distinct (tag_of item) item kept h) (λ _. h))))
          (λ fresh. Deduped-next kept items item removed _ (
            dedupe_loop-Deduped merging (kept ++ (item ∷ [])) items removed
              (append-Distinct kept item h (inr fresh)))))
