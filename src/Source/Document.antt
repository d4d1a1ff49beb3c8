-- ===== src/Source/Document.antt =====
-- `fetch_all`: what it returns for a document of any size, in seven rounds.
use duckdb_cog.Base.{
  ℕ, zero, suc, ◌-◌, ◌*◌, ◌^◌, ◌≤◌, ◌<◌, ◌≡◌, refl, sym, ap, ◌∙◌, inl, inr, min, arith,
  if◌then◌else◌, some, List, ok, err, ltb, length, take, take-all, Bool-cases, lt→ltb, ge→ltb,
}
use duckdb_cog.Source.{
  Bytes, ByteSource, SourceError, document_too_large, first_cap, soft_limit, fetch_loop, fetch_all,
}
use duckdb_cog.Source.Contract.{Serves}
use native.Mathlib.Nat.{pow-suc, one-le-pow}

length-take : (n : ℕ) (d : Bytes) → n ≤ length d → length (take n d) ≡ n
length-take zero d h = refl
length-take (suc n) List.[] h = absurd (omega arith)
length-take (suc n) (List.◌∷◌ x d) h = omega (arith, length-take n d (omega arith))

module _ (d : Bytes) (source : ByteSource) (s : Serves d source) where
  round_ends :
      (fuel size : ℕ)
      → 0 < length d
      → length d < size
      → fetch_loop (suc fuel) source size ≡ some (ok d)
  unfolding fetch_loop
  round_ends fuel size some_bytes h = ground (
    arith,
    s.answers 0 size some_bytes (omega arith),
    take-all d (min size (length d) - 0) (omega arith),
  )

  round_refused :
      (fuel size : ℕ)
      → (e : SourceError) × (source 0 size ≡ err e)
      → (e : SourceError) × (fetch_loop (suc fuel) source size ≡ some (err e))
  unfolding fetch_loop
  round_refused fuel size (e, refused) = (e, rw (refused, fetch_loop))

  round_full :
      (fuel size : ℕ)
      → 0 < size
      → size ≤ length d
      → fetch_loop (suc fuel) source size ≡ (
          if ltb soft_limit size
          then some (err document_too_large)
          else fetch_loop fuel source (size * 4))
  unfolding fetch_loop
  round_full fuel size pos h = ground (
    arith,
    s.answers 0 size (omega arith) (omega arith),
    length-take (min size (length d) - 0) d (omega arith),
  )

  next_cap : (size f : ℕ) → size * 4 ^ suc f ≡ size * 4 * 4 ^ f
  next_cap size f = omega (arith, ap (λ (t : ℕ). size * t) (pow-suc 4 f))

  cap_small : (size f : ℕ) → size * 4 * 4 ^ f ≤ 4 * soft_limit → size ≤ soft_limit
  cap_small size f h = grind (arith, one-le-pow f 4)

  -- While the size is within four times the soft limit, a document below the last size is returned.
  small_document :
      (f size : ℕ)
      → 0 < size
      → 0 < length d
      → size * 4 ^ f ≤ 4 * soft_limit
      → length d < size * 4 ^ f
      → fetch_loop (suc f) source size ≡ some (ok d)
  small_document zero size pos some_bytes top h = round_ends zero size some_bytes (omega arith)
  small_document (suc f) size pos some_bytes top h = elim (Bool-cases (ltb (length d) size)) [
    | inl ends ↦ round_ends (suc f) size some_bytes (ground arith)
    | inr full ↦
        let top' : size * 4 * 4 ^ f ≤ 4 * soft_limit = rw (← next_cap size f) top in
        let below : length d < size * 4 * 4 ^ f = rw (← next_cap size f) h in
        let low : size ≤ soft_limit = cap_small size f top' in
        round_full (suc f) size pos (ground arith)
        ∙ (rw (ge→ltb soft_limit size low)
            (small_document f (size * 4) (omega arith) some_bytes top' below))
  ]

  large_document :
      (f size : ℕ)
      → 0 < size
      → size * 4 ^ f ≡ 4 * soft_limit
      → 4 * soft_limit ≤ length d
      → fetch_loop (suc f) source size ≡ some (err document_too_large)
  large_document zero size pos top h =
      round_full zero size pos (omega arith) ∙ (rw (lt→ltb soft_limit size (omega arith)))
  large_document (suc f) size pos top h =
      let top' : size * 4 * 4 ^ f ≡ 4 * soft_limit = sym (next_cap size f) ∙ top in
      let low : size ≤ soft_limit = cap_small size f (omega arith) in
      round_full (suc f) size pos (omega arith)
      ∙ (rw (ge→ltb soft_limit size low) (large_document f (size * 4) (omega arith) top' h))

  -- `fetch_all` ends within its seven rounds on every source that keeps the contract: an empty
  -- document is an error, one below 256 MiB (four times the 64 MiB of the limit) is returned
  -- whole, and one of 256 MiB or more is the error for a document that is too large.
  pub fetch_all_lem :
      (length d ≡ 0 → (e : SourceError) × (fetch_all source ≡ some (err e)))
      × (0 < length d → length d < 256 * 1024 * 1024 → fetch_all source ≡ some (ok d))
      × (256 * 1024 * 1024 ≤ length d → fetch_all source ≡ some (err document_too_large))
  unfolding fetch_all fetch_loop
  fetch_all_lem = (
    λ empty. round_refused 6 first_cap (s.refuses 0 first_cap (inl (omega arith))),
    λ some_bytes h. small_document 6 first_cap (omega arith) some_bytes (omega arith) (omega arith),
    λ h. large_document 6 first_cap (omega arith) (omega arith) h,
  )
