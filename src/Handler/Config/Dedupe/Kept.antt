-- ===== src/Handler/Config/Dedupe/Kept.antt =====
-- mergeInboundClients: what becomes of the clients of both copies.
use mmw_agent.Base.{
  ◌≡◌, refl, sym, ap, ◌∙◌, ◌≢◌, ◌⊎◌, inl, inr, true, false, not, ◌&&◌, Option, none, some, List, [],
  ◌∷◌, ◌++◌, arith, Text, text, text_eq, nat_eq, ◌==◌, Bool-cases, Option-cases, All, if-elim,
  append-nil, append_assoc,
}
use mmw_agent.Json.{
  Json, Object, array, as_object, sprint_at, object_at, items_at, items_at-insert, object_at-insert,
}
use mmw_agent.Base.Dict.{insert}
use mmw_agent.Handler.Config.Clients.{
  is_unset, both_non_empty_eq, has_non_empty, primary_key, match_client_credential, same_client,
  is_nil, has_client, add_client, merge_clients, merge_listed, merge_settings, merged_protocol,
  merge_inbound_clients, clients_key,
}

-- The first list is a prefix of the second.
abbrev pub Prefix : List Json → List Json → Type 0
Prefix xs ys = (rest : List Json) × (ys ≡ xs ++ rest)

-- The field is set in both clients, to one value.
abbrev pub Agree : Text → Object → Object → Type 0
Agree key a b =
    (is_unset (sprint_at key a) ≡ false)
    × (is_unset (sprint_at key b) ≡ false)
    × (sprint_at key a ≡ sprint_at key b)

-- The protocol has a credential that is set in both clients.
abbrev pub BothSet : Text → Object → Object → Type 0
BothSet protocol a b =
    (primary_key protocol ≢ [])
    × (is_unset (sprint_at (primary_key protocol) a) ≡ false)
    × (is_unset (sprint_at (primary_key protocol) b) ≡ false)

-- Two clients are one: the credentials of the protocol agree, or, if they are not both set, the
-- emails do.
abbrev pub SameClient : Text → Object → Object → Type 0
SameClient protocol a b =
    Agree (primary_key protocol) a b ⊎ ((¬ BothSet protocol a b) × Agree (text "email") a b)

-- The client is in the list, or an object of the list is the same client.
pub data Kept (protocol : Text) (client : Json) (xs : List Json) : Type 0 where
  itself : (before after : List Json) → xs ≡ before ++ (client ∷ after) → Kept protocol client xs
  the_same :
      (c d : Object) (x : Json) (before after : List Json)
      → as_object client ≡ some c
      → as_object x ≡ some d
      → xs ≡ before ++ (x ∷ after)
      → SameClient protocol d c
      → Kept protocol client xs

both_non_empty_eq-Agree :
    (key : Text) (a b : Object) → both_non_empty_eq key a b ≡ true → Agree key a b
unfolding both_non_empty_eq
both_non_empty_eq-Agree key a b h = ground (arith, h)

match_client_credential-SameClient :
    (protocol : Text) (a b : Object)
    → match_client_credential a b protocol ≡ true
    → SameClient protocol a b
unfolding match_client_credential has_non_empty
match_client_credential-SameClient protocol a b =
    let key = primary_key protocol in
    if-elim (λ m. m ≡ true → SameClient protocol a b)
      (not (key == []) && (has_non_empty a key && has_non_empty b key)) _ _
      (λ set h. inl (both_non_empty_eq-Agree key a b h))
      (λ unset h. inr (
        λ (named, in_a, in_b). ground (arith, unset, named, in_a, in_b),
        both_non_empty_eq-Agree (text "email") a b h,
      ))

module _ (protocol : Text) where
  -- A client that is found is the same as an object of the list.
  has_client-found :
      (c : Object) (xs : List Json)
      → has_client protocol c xs ≡ true
      → (d : Object) × (x : Json) × (before : List Json) × (after : List Json) × (as_object x
          ≡ some d)
        × (xs ≡ before ++ (x ∷ after))
        × SameClient protocol d c
  unfolding has_client same_client
  has_client-found c [] h = ground (arith, h)
  has_client-found c (x ∷ xs) h = elim (Bool-cases (same_client protocol c (as_object x))) [
    | inl here ↦ elim (Option-cases (as_object x)) [
      | inl e ↦ ground (arith, e, here)
      | inr (d, e) ↦ (
        d,
        x,
        [],
        xs,
        e,
        refl,
        match_client_credential-SameClient protocol d c
            (sym (ap (same_client protocol c) e) ∙ here),
      )
    ]
    | inr passed ↦
        let (d, y, before, after, e, k, same) = has_client-found c xs (ground (arith, passed, h)) in
        (d, y, x ∷ before, after, e, ap (λ ys. x ∷ ys) k, same)
  ]

  Kept-Prefix :
      (client : Json) (xs ys : List Json)
      → Prefix xs ys
      → Kept protocol client xs
      → Kept protocol client ys
  Kept-Prefix client xs ys (rest, e) (itself before after k) =
      itself before (after ++ rest)
        (e ∙ ap (λ zs. zs ++ rest) k ∙ append_assoc before (client ∷ after) rest)
  Kept-Prefix client xs ys (rest, e) (the_same c d x before after k o j same) =
      the_same c d x before (after ++ rest) k o
        (e ∙ ap (λ zs. zs ++ rest) j ∙ append_assoc before (x ∷ after) rest) same

  add_client-Prefix :
      (dst : List Json) (sc : Json) (o : Option Object) → Prefix dst (add_client protocol dst sc o)
  unfolding add_client
  add_client-Prefix dst sc none = (sc ∷ [], refl)
  add_client-Prefix dst sc (some sm) =
      if-elim (Prefix dst) (has_client protocol sm dst) _ _ (λ _. ([], sym (append-nil dst)))
        (λ _. (sc ∷ [], refl))

  add_client-Kept :
      (dst : List Json) (sc : Json) (o : Option Object)
      → as_object sc ≡ o
      → Kept protocol sc (add_client protocol dst sc o)
  unfolding add_client
  add_client-Kept dst sc none e = itself dst [] refl
  add_client-Kept dst sc (some sm) e =
      if-elim (Kept protocol sc) (has_client protocol sm dst) _ _
        (λ h.
          let (d, x, before, after, o, j, same) = has_client-found sm dst h in
          the_same sm d x before after e o j same)
        (λ _. itself dst [] refl)

  merge_clients-Prefix : (dst src : List Json) → Prefix dst (merge_clients protocol dst src)
  unfolding merge_clients
  merge_clients-Prefix dst [] = ([], sym (append-nil dst))
  merge_clients-Prefix dst (sc ∷ src) =
      let (new, e) = add_client-Prefix dst sc (as_object sc) in
      let (rest, k) = merge_clients-Prefix (add_client protocol dst sc (as_object sc)) src in
      (new ++ rest, k ∙ ap (λ xs. xs ++ rest) e ∙ append_assoc dst new rest)

  merge_clients-Kept :
      (dst src : List Json) → All (λ sc. Kept protocol sc (merge_clients protocol dst src)) src
  unfolding merge_clients
  merge_clients-Kept dst [] = tt
  merge_clients-Kept dst (sc ∷ src) =
      let dst' = add_client protocol dst sc (as_object sc) in
      (
        Kept-Prefix sc dst' _ (merge_clients-Prefix dst' src)
            (add_client-Kept dst sc (as_object sc) refl),
        merge_clients-Kept dst' src,
      )

-- The listed clients after a merge, by the settings before.
pub record Merged (protocol key : Text) (dst_settings src_settings : Object) (merged : Object)
    : Type 0 where
  pub settings : Object
  pub stored : object_at (text "settings") merged ≡ some settings
  pub first : Prefix (items_at key dst_settings) (items_at key settings)
  pub copied : All (λ sc. Kept protocol sc (items_at key settings)) (items_at key src_settings)

module _ (dst : Object) (protocol key : Text) (ds ss : Object) where
  nothing_listed :
      (src : List Json) → is_nil src ≡ true → All (λ sc. Kept protocol sc (items_at key ds)) src
  unfolding is_nil
  nothing_listed [] h = tt
  nothing_listed (x ∷ xs) h = ground arith

  merge_listed-Merged :
      object_at (text "settings") dst ≡ some ds
      → Merged protocol key ds ss (merge_listed protocol (some key) dst ds ss)
  unfolding merge_listed
  merge_listed-Merged e =
      let clients = merge_clients protocol (items_at key ds) (items_at key ss) in
      let settings = insert key (array clients) ds in
      let listed : items_at key settings ≡ clients =
        ground (arith, items_at-insert key key ds clients) in
      if-elim (Merged protocol key ds ss) (is_nil (items_at key ss)) _ _
        (λ h. record {
          settings = ds;
          stored = e;
          first = ([], sym (append-nil (items_at key ds)));
          copied = nothing_listed (items_at key ss) h;
        })
        (λ _. record {
          settings = settings;
          stored =
              ground (arith, object_at-insert (text "settings") (text "settings") dst settings);
          first =
              coe 0 1 (i. Prefix (items_at key ds) (sym listed i))
                (merge_clients-Prefix protocol (items_at key ds) (items_at key ss));
          copied =
              coe 0 1 (i. All (λ sc. Kept protocol sc (sym listed i)) (items_at key ss))
                (merge_clients-Kept protocol (items_at key ds) (items_at key ss));
        })

-- Where both copies have settings and the protocol has a field for its clients, the clients of the
-- first copy are a prefix of those of the result, and each client of the other copy is in the result
-- or has the credential of one there, or the email of one there if not both have a credential.
pub merge_inbound_clients-Merged :
    (dst src ds ss : Object) (key : Text)
    → object_at (text "settings") dst ≡ some ds
    → object_at (text "settings") src ≡ some ss
    → clients_key (merged_protocol dst src) ≡ some key
    → Merged (merged_protocol dst src) key ds ss (merge_inbound_clients dst src)
unfolding merge_inbound_clients merge_settings
merge_inbound_clients-Merged dst src ds ss key d s k =
    let protocol = merged_protocol dst src in
    coe 0 1 (i. Merged protocol key ds ss (merge_settings dst src (sym d i) (sym s i))) (
      coe 0 1 (i. Merged protocol key ds ss (merge_listed protocol (sym k i) dst ds ss))
        (merge_listed-Merged dst protocol key ds ss d))
