-- ===== src/Limiter/Buckets/Apart.antt =====
-- No two users share a bucket, at any inbound, whatever the calls.
use mmw_agent.Base.{
  ℕ, suc, ◌≤◌, ◌<◌, ◌≡◌, refl, ◌⊎◌, Option, none, some, arith, Text, text_eq, nat_eq, ◌==◌,
  if◌then◌else◌,
}
use mmw_agent.Base.Dict.{Dict, lookup, insert, lookup-insert}
use mmw_agent.Limiter.Types.{InboundInfo, Limiter}

-- The bucket of an email at an inbound.
unfoldable pub bucket_of : Dict Text InboundInfo → Text → Text → Option ℕ
bucket_of inbounds tag email = elim (lookup tag inbounds) [
  | none ↦ none
  | some info ↦ lookup email info.bucket_hub
]

-- Buckets are numbered below `next_bucket`, and each belongs to one email at one inbound.
pub record Apart (l : Limiter) : Type 0 where
  pub made : (t e : Text) (b : ℕ) → bucket_of l.inbounds t e ≡ some b → b < l.next_bucket
  pub apart :
      (t e t' e' : Text) (b : ℕ)
      → bucket_of l.inbounds t e ≡ some b
      → bucket_of l.inbounds t' e' ≡ some b
      → (t ≡ t') × (e ≡ e')

pub bucket_of-insert :
    (inbounds : Dict Text InboundInfo) (tag : Text) (info : InboundInfo) (t e : Text)
    → bucket_of (insert tag info inbounds) t e
      ≡ (if t == tag then lookup e info.bucket_hub else bucket_of inbounds t e)
unfolding bucket_of
bucket_of-insert inbounds tag info t e = ground (arith, lookup-insert t tag info inbounds)

pub bucket_of-found :
    (inbounds : Dict Text InboundInfo) (tag : Text) {info : InboundInfo} (e : Text)
    → lookup tag inbounds ≡ some info
    → bucket_of inbounds tag e ≡ lookup e info.bucket_hub
unfolding bucket_of
bucket_of-found inbounds tag e h = rw (h, bucket_of) refl

-- A change that only takes buckets away keeps the rest apart.
abbrev pub Shrinks : Limiter → Limiter → Type 0
Shrinks l l' =
    (l.next_bucket ≤ l'.next_bucket)
    × ((t e : Text) (b : ℕ)
        → bucket_of l'.inbounds t e ≡ some b
        → bucket_of l.inbounds t e ≡ some b)

pub Shrinks-Apart : (l l' : Limiter) → Shrinks l l' → Apart l → Apart l'
Shrinks-Apart l l' (more, keeps) v = record {
  made = λ t e b h. (let k = v.made t e b (keeps t e b h) in omega arith);
  apart = λ t e t' e' b h h'. v.apart t e t' e' b (keeps t e b h) (keeps t' e' b h');
}

-- So does a change that gives one email a bucket with a new number.
pub Grows-Apart :
    (l l' : Limiter) (tag email : Text)
    → l'.next_bucket ≡ suc l.next_bucket
    → ((t e : Text) (b : ℕ)
        → bucket_of l'.inbounds t e ≡ some b
        → (bucket_of l.inbounds t e ≡ some b) ⊎ ((t ≡ tag) × (e ≡ email) × (b ≡ l.next_bucket)))
    → Apart l
    → Apart l'
Grows-Apart l l' tag email more cases v = record {
  made = λ t e b h. ground (arith, cases t e b h, v.made t e b);
  apart = λ t e t' e' b h h'.
      ground
        (arith, cases t e b h, cases t' e' b h', v.apart t e t' e' b, v.made t e b, v.made t' e' b);
}
