-- ===== src/Limiter/Buckets/Calls.antt =====
-- Every call of the limiter keeps the buckets apart.
use mmw_agent.Base.{
  ℕ, suc, ◌≡◌, refl, sym, ap, ◌∙◌, inl, inr, none, some, List, [], ◌∷◌, arith, Text, text_eq,
  nat_eq, ◌==◌, if◌then◌else◌, Bool-cases, Option-cases,
}
use mmw_agent.Base.Dict.{Dict, lookup, insert, lookup-insert, lookup-erase}
use mmw_agent.Base.{contains}
use mmw_agent.Limiter.Types.{UserInfo, IpEntry, InboundInfo, Limiter, Bucket}
use mmw_agent.Limiter.Buckets.{
  new_inbound, add_inbound_limiter, sync_inbound_limiter, update_inbound_limiter,
  delete_inbound_limiter, load_or_store_bucket, get_user_bucket, sweep, get_online_users, throttle,
  restore, set_user_speed,
}
use mmw_agent.Limiter.Buckets.Apart.{
  bucket_of, Apart, bucket_of-insert, bucket_of-found, Shrinks-Apart, Grows-Apart,
}

-- The calls that the master's messages, the speed monitor, the reports and new connections make.
pub data Call : Type 0 where
  add_inbound sync_inbound : Text → ℕ → List UserInfo → Call
  update_inbound : Text → List UserInfo → Call
  delete_inbound : Text → Call
  user_bucket : Text → Text → Text → ℕ → Call
  online_users : Text → Call
  user_speed : Text → Text → ℕ → Call

unfoldable pub call : Limiter → Call → Limiter
call l (add_inbound tag node users) = add_inbound_limiter l tag node users
call l (sync_inbound tag node users) = (sync_inbound_limiter l tag node users).0
call l (update_inbound tag users) = update_inbound_limiter l tag users
call l (delete_inbound tag) = delete_inbound_limiter l tag
call l (user_bucket tag email ip now) = (get_user_bucket l tag email ip now).0
call l (online_users tag) = (get_online_users l tag).0
call l (user_speed tag email speed) = set_user_speed l tag email speed

unfoldable pub calls : Limiter → List Call → Limiter
calls l [] = l
calls l (c ∷ cs) = calls (call l c) cs

pub lookup_nil : (e : Text) → lookup {V = ℕ} e [] ≡ none
unfolding lookup
lookup_nil e = refl

add-Apart :
    (l : Limiter) (tag : Text) (node : ℕ) (users : List UserInfo)
    → Apart l
    → Apart (add_inbound_limiter l tag node users)
unfolding add_inbound_limiter
add-Apart l tag node users = Shrinks-Apart l _ (
  omega arith,
  λ t e b h.
      ground
        (arith, bucket_of-insert l.inbounds tag (new_inbound tag node users) t e, lookup_nil e),
)

-- Replacing an inbound by one with the same buckets.
pub bucket_of-keep :
    (l : Limiter) (tag : Text) (info next : InboundInfo)
    → lookup tag l.inbounds ≡ some info
    → next.bucket_hub ≡ info.bucket_hub
    → (t e : Text) → bucket_of (insert tag next l.inbounds) t e ≡ bucket_of l.inbounds t e
bucket_of-keep l tag info next found same t e =
    ground (arith, bucket_of-insert l.inbounds tag next t e, bucket_of-found l.inbounds tag e found)

sync-Apart :
    (l : Limiter) (tag : Text) (node : ℕ) (users : List UserInfo)
    → Apart l
    → Apart (sync_inbound_limiter l tag node users).0
unfolding sync_inbound_limiter
sync-Apart l tag node users v = elim (Option-cases (lookup tag l.inbounds)) [
  | inl e ↦ rw (e, sync_inbound_limiter) (add-Apart l tag node users v)
  | inr (info, found) ↦
      rw (found, sync_inbound_limiter)
        (Shrinks-Apart l _
          (omega arith, λ t e b h. sym (bucket_of-keep l tag info _ found refl t e) ∙ h) v)
]

update-Apart :
    (l : Limiter) (tag : Text) (users : List UserInfo)
    → Apart l
    → Apart (update_inbound_limiter l tag users)
unfolding update_inbound_limiter
update-Apart l tag users v = elim (Option-cases (lookup tag l.inbounds)) [
  | inl e ↦ rw (e, update_inbound_limiter) (add-Apart l tag 0 users v)
  | inr (info, found) ↦
      rw (found, update_inbound_limiter)
        (Shrinks-Apart l _
          (omega arith, λ t e b h. sym (bucket_of-keep l tag info _ found refl t e) ∙ h) v)
]

delete-Apart : (l : Limiter) (tag : Text) → Apart l → Apart (delete_inbound_limiter l tag)
unfolding delete_inbound_limiter bucket_of
delete-Apart l tag =
    Shrinks-Apart l _ (omega arith, λ t e b h. ground (arith, lookup-erase t tag l.inbounds))

pub lookup-sweep :
    (online : Dict Text (Dict Text IpEntry)) (auto : List Text) (hub : Dict Text ℕ) (e : Text)
    → lookup e (sweep online auto hub) ≡ elim (lookup e online) [
      | some _ ↦ lookup e hub
      | none ↦ if contains e auto then lookup e hub else none
    ]
unfolding sweep lookup
lookup-sweep online auto [] e = ground arith
lookup-sweep online auto ((k, b) ∷ hub) e = ground (arith, lookup-sweep online auto hub e)

online-Apart : (l : Limiter) (tag : Text) → Apart l → Apart (get_online_users l tag).0
unfolding get_online_users
online-Apart l tag v = elim (Option-cases (lookup tag l.inbounds)) [
  | inl e ↦ rw (e, get_online_users) v
  | inr (info, found) ↦
      let next = record info {
        bucket_hub = sweep info.user_online_ip l.auto_limited info.bucket_hub;
        user_online_ip = [];
      } in
      rw (found, get_online_users)
        (Shrinks-Apart l _
          (
            omega arith,
            λ t e b h. ground (
              arith,
              bucket_of-insert l.inbounds tag next t e,
              bucket_of-found l.inbounds tag e found,
              lookup-sweep info.user_online_ip l.auto_limited info.bucket_hub e,
            ),
          )
          v)
]

-- A bucket made for an email that had none.
new-Apart :
    (l l' : Limiter) (tag email : Text) (info next : InboundInfo)
    → lookup tag l.inbounds ≡ some info
    → next.bucket_hub ≡ insert email l.next_bucket info.bucket_hub
    → l'.inbounds ≡ insert tag next l.inbounds
    → l'.next_bucket ≡ suc l.next_bucket
    → Apart l
    → Apart l'
new-Apart l l' tag email info next found hub placed more =
    Grows-Apart l l' tag email more λ t e b h. ground (
      arith,
      found,
      hub,
      placed,
      bucket_of-insert l.inbounds tag next t e,
      bucket_of-found l.inbounds tag e found,
      lookup-insert e email l.next_bucket info.bucket_hub,
    )

load_or_store_bucket-Apart :
    (l : Limiter) (tag email : Text) (info next : InboundInfo) (bucket : Bucket)
    → lookup tag l.inbounds ≡ some info
    → next.bucket_hub ≡ info.bucket_hub
    → Apart l
    → Apart (load_or_store_bucket l tag next email bucket).0
unfolding load_or_store_bucket
load_or_store_bucket-Apart l tag email info next bucket found same v =
    elim (Option-cases (lookup email next.bucket_hub)) [
      | inl e ↦
          rw (e, load_or_store_bucket)
            (new-Apart l _ tag email info
              (record next { bucket_hub = insert email l.next_bucket next.bucket_hub }) found
              (ap (insert email l.next_bucket) same) refl refl v)
      | inr (b, e) ↦
          rw (e, load_or_store_bucket)
            (Shrinks-Apart l _
              (omega arith, λ t e b h. sym (bucket_of-keep l tag info next found same t e) ∙ h) v)
    ]

user_bucket-Apart :
    (l : Limiter) (tag email ip : Text) (now : ℕ)
    → Apart l
    → Apart (get_user_bucket l tag email ip now).0
unfolding get_user_bucket
user_bucket-Apart l tag email ip now v = elim (Option-cases (lookup tag l.inbounds)) [
  | inl e ↦ rw (e, get_user_bucket) v
  | inr (info, found) ↦
      rw (found, get_user_bucket) (load_or_store_bucket-Apart l tag email info _ _ found refl v)
]

throttle-Apart :
    (l : Limiter) (tag email : Text) (info : InboundInfo) (speed : ℕ)
    → lookup tag l.inbounds ≡ some info
    → Apart l
    → Apart (throttle l tag info email speed)
unfolding throttle
throttle-Apart l tag email info speed found v = elim (Option-cases (lookup email info.bucket_hub)) [
  | inl e ↦ rw (e, throttle) (new-Apart l _ tag email info _ found refl refl refl v)
  | inr (b, e) ↦ rw (e, throttle) (Shrinks-Apart l _ (omega arith, λ t e b h. h) v)
]

speed-Apart :
    (l : Limiter) (tag email : Text) (speed : ℕ)
    → Apart l
    → Apart (set_user_speed l tag email speed)
unfolding set_user_speed restore
speed-Apart l tag email speed v = elim (Option-cases (lookup tag l.inbounds)) [
  | inl e ↦ rw (e, set_user_speed) v
  | inr (info, found) ↦ elim (Bool-cases (speed == 0)) [
    | inl off ↦ rw (found, set_user_speed, off) (Shrinks-Apart l _ (omega arith, λ t e b h. h) v)
    | inr positive ↦
        rw (found, set_user_speed, positive) (throttle-Apart l tag email info speed found v)
  ]
]

pub call-Apart : (l : Limiter) (c : Call) → Apart l → Apart (call l c)
unfolding call
call-Apart l (add_inbound tag node users) v = add-Apart l tag node users v
call-Apart l (sync_inbound tag node users) v = sync-Apart l tag node users v
call-Apart l (update_inbound tag users) v = update-Apart l tag users v
call-Apart l (delete_inbound tag) v = delete-Apart l tag v
call-Apart l (user_bucket tag email ip now) v = user_bucket-Apart l tag email ip now v
call-Apart l (online_users tag) v = online-Apart l tag v
call-Apart l (user_speed tag email speed) v = speed-Apart l tag email speed v

calls-keep : (l : Limiter) (cs : List Call) → Apart l → Apart (calls l cs)
unfolding calls
calls-keep l [] v = v
calls-keep l (c ∷ cs) v = calls-keep (call l c) cs (call-Apart l c v)

-- The bucket that a connection gets is that of its email at its inbound.
user_bucket-own :
    (l : Limiter) (tag email ip : Text) (now b : ℕ)
    → (get_user_bucket l tag email ip now).1 ≡ some b
    → bucket_of (get_user_bucket l tag email ip now).0.inbounds tag email ≡ some b
unfolding get_user_bucket load_or_store_bucket
user_bucket-own l tag email ip now b = elim (Option-cases (lookup tag l.inbounds)) [
  | inl e ↦ rw (e, get_user_bucket) (λ h. ground (arith, h))
  | inr (info, found) ↦
      rw (found, get_user_bucket)
        (elim (Option-cases (lookup email info.bucket_hub)) [
          | inl new ↦
              rw (new, load_or_store_bucket)
                (λ h.
                  bucket_of-insert _ tag _ tag email
                  ∙ ground (arith, h, lookup-insert email email l.next_bucket info.bucket_hub))
          | inr (c, old) ↦
              rw (old, load_or_store_bucket)
                (λ h. bucket_of-insert _ tag _ tag email ∙ ground (arith, h, old))
        ])
]

-- A new connection takes no bucket away.
user_bucket-keeps :
    (l : Limiter) (tag email ip : Text) (now : ℕ) (t e : Text) (b : ℕ)
    → bucket_of l.inbounds t e ≡ some b
    → bucket_of (get_user_bucket l tag email ip now).0.inbounds t e ≡ some b
unfolding get_user_bucket load_or_store_bucket
user_bucket-keeps l tag email ip now t e b h = elim (Option-cases (lookup tag l.inbounds)) [
  | inl missing ↦ rw (missing, get_user_bucket) h
  | inr (info, found) ↦
      let hub = bucket_of-found l.inbounds tag e found in
      rw (found, get_user_bucket)
        (elim (Option-cases (lookup email info.bucket_hub)) [
          | inl new ↦
              rw (new, load_or_store_bucket)
                (bucket_of-insert _ tag _ t e
                  ∙ ground
                      (arith, h, hub, new, lookup-insert e email l.next_bucket info.bucket_hub))
          | inr (c, old) ↦
              rw (old, load_or_store_bucket) (bucket_of-insert _ tag _ t e ∙ ground (arith, h, hub))
        ])
]

-- After any calls, two connections that get one bucket are of one email at one inbound, and no two
-- emails share a bucket, nor does one email at two inbounds.
pub calls-Apart :
    (l : Limiter) (cs : List Call)
    → Apart l
    → Apart (calls l cs)
      × ((t e ip : Text) (now : ℕ) (t' e' ip' : Text) (now' b : ℕ)
          → let first = get_user_bucket (calls l cs) t e ip now in
            first.1 ≡ some b
            → (get_user_bucket first.0 t' e' ip' now').1 ≡ some b
            → (t ≡ t') × (e ≡ e'))
calls-Apart l cs v =
    let l' = calls l cs in
    let v' = calls-keep l cs v in
    (
      v',
      λ t e ip now t' e' ip' now' b one two.
          let l1 = (get_user_bucket l' t e ip now).0 in
          let v1 = user_bucket-Apart l' t e ip now v' in
          (user_bucket-Apart l1 t' e' ip' now' v1).apart t e t' e' b
            (user_bucket-keeps l1 t' e' ip' now' t e b (user_bucket-own l' t e ip now b one))
            (user_bucket-own l1 t' e' ip' now' b two),
    )
