-- ===== src/Limiter/Writes/Tests.antt =====
-- Runs of the write loops and of LookupBucketByEmail, and the laws at them.
use mmw_agent.Base.{
  ℕ, ◌≤◌, ◌<◌, ◌≡◌, refl, Bool, false, none, some, List, [], ◌∷◌, ◌++◌, arith, text, text_eq,
  nat_eq, length, All,
}
use mmw_agent.Base.Dict.{lookup}
use mmw_agent.Limiter.Rate.{determine_rate}
use mmw_agent.Limiter.Buckets.{rated, set_user_speed}
use mmw_agent.Limiter.Sample.{inbound, limiter}
use mmw_agent.Limiter.Buckets.Apart.{bucket_of}
use mmw_agent.Limiter.Writes.{
  wait_chunks, sum, wait_chunks_bounds, Written, write_pieces, concat, write_pieces_whole,
}
use mmw_agent.Limiter.Lookup.{
  limit_by_email, lookup_bucket_by_email, lookup_bucket_found, lookup_bucket-Unlisted,
}

wait_run : wait_chunks 10 10 4 ≡ some (4 ∷ 4 ∷ 2 ∷ [])
unfolding wait_chunks
wait_run = refl

wait_chunks_bounds_example :
    (parts : List ℕ) × (wait_chunks 10 10 4 ≡ some parts)
    × (sum parts ≡ 10)
    × All (λ m. (0 < m) × (m ≤ 4)) parts
wait_chunks_bounds_example = wait_chunks_bounds 10 4 (omega arith)

-- A connection that logs the bytes.
abbrev log_write : List ℕ → List ℕ → List ℕ × ℕ × Bool
log_write w p = (w ++ p, length p, false)

log_write_within : (w p : List ℕ) → (log_write w p).1 ≤ length p
log_write_within w p = omega arith

write_pieces_whole_example :
    (r : Written (List ℕ)) × (write_pieces log_write 3 2 [] (7 ∷ 8 ∷ 9 ∷ []) ≡ some r)
    × (r.written ≤ 3)
    × (r.failed ≡ false → (r.written ≡ 3) × (concat r.pieces ≡ 7 ∷ 8 ∷ 9 ∷ []))
    × All (λ piece. length piece ≤ 2) r.pieces
write_pieces_whole_example =
    write_pieces_whole log_write log_write_within (λ w p fine. refl) 2 [] (7 ∷ 8 ∷ 9 ∷ [])
      (omega arith)

lookup_bucket_found_example :
    let r = lookup_bucket_by_email limiter (text "a") in
    (b : ℕ) × (r.1 ≡ some b)
    × (bucket_of r.0.inbounds (text "t") (text "a") ≡ some b)
    × (bucket_of limiter.inbounds (text "t") (text "a") ≡ none
        → lookup b r.0.buckets ≡ some (rated (determine_rate 0 1000000)))
lookup_bucket_found_example =
    lookup_bucket_found limiter (text "a") (text "t") _ _ inbound [] [] [] _ (λ e. ground arith)
      refl tt tt refl tt refl (omega arith)

lookup_bucket-Unlisted_example :
    let l' = set_user_speed limiter (text "t") (text "b") 5000 in
    lookup_bucket_by_email l' (text "b") ≡ (l', none)
unfolding limit_by_email text_eq
lookup_bucket-Unlisted_example =
    lookup_bucket-Unlisted limiter (text "t") (text "b") 5000 (refl, tt)
