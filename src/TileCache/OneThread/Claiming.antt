-- ===== src/TileCache/OneThread/Claiming.antt =====
-- Which tiles the claims of a row make its own.
use duckdb_cog.Base.{
  ◌+◌, ◌≡◌, refl, sym, ap, ◌∙◌, arith, false, Option, none, some, List, [], ◌∷◌, ◌++◌, append-nil,
  All,
}
use duckdb_cog.TileCache.Assoc.{Key, key_eq, key_eq→eq, key_eq-true_of_eq, lookup, lookup-insert}
use duckdb_cog.TileCache.{Slot, Cache, claim_found, claim_one}
use duckdb_cog.TileCache.OneThread.{claiming, claimed}
use duckdb_cog.TileCache.OneThread.Settling.{is_pending, member, Free}

-- No tile twice.
abbrev pub Apart : List Key → Type 0
Apart [] = Unit
Apart (k ∷ ks) = (member k ks ≡ false) × Apart ks

apart_head : (k j : Key) (ks : List Key) → member k (j ∷ ks) ≡ false → key_eq k j ≡ false
apart_head k j ks e = ground (arith, key_eq→eq k j, key_eq-true_of_eq j k)

module _ {ℓ} {V : Type ℓ} where
  unfoldable pub if_absent : Option (Slot V) → Key → List Key → List Key
  if_absent none k ks = k ∷ ks
  if_absent (some s) k ks = ks

  -- The tiles that the cache knows nothing of, in their order.
  unfoldable pub absent : Cache V → List Key → List Key
  unfolding if_absent
  absent c [] = []
  absent c (k ∷ ks) = if_absent (lookup k c.slots) k (absent c ks)

  unfoldable pub claim_all : List Key → Cache V → Cache V
  claim_all [] c = c
  claim_all (k ∷ ks) c = claim_all ks (claim_one false k c).0

  lookup-claim :
      (k q : Key) (c : Cache V) (s : Option (Slot V))
      → key_eq k q ≡ false
      → lookup q (claim_found false k c s).0.slots ≡ lookup q c.slots
  unfolding claim_found
  lookup-claim k q c (some (Slot.ready arr bytes last_used)) e =
      rw (lookup-insert k q (Slot.ready arr bytes c.tick) c.slots, e) refl
  lookup-claim k q c (some (Slot.pending sig)) e = refl
  lookup-claim k q c none e = rw (lookup-insert k q (Slot.pending c.next_signal) c.slots, e) refl

  lookup-claim_one :
      (k q : Key) (c : Cache V)
      → key_eq k q ≡ false
      → lookup q (claim_one false k c).0.slots ≡ lookup q c.slots
  unfolding claim_one
  lookup-claim_one k q c e = lookup-claim k q (record c { tick = c.tick + 1 }) (lookup k c.slots) e

  pub claim_one-Free :
      (k : Key) (c : Cache V) (ks : List Key)
      → member k ks ≡ false
      → All (Free c) ks
      → All (Free (claim_one false k c).0) ks
  claim_one-Free k c [] apart free = tt
  claim_one-Free k c (j ∷ ks) apart free = (
    rw (lookup-claim_one k j c (apart_head k j ks apart)) free.0,
    claim_one-Free k c ks (ground arith) free.1,
  )

  pub absent-claim_one :
      (k : Key) (c : Cache V) (ks : List Key)
      → member k ks ≡ false
      → absent (claim_one false k c).0 ks ≡ absent c ks
  unfolding absent
  absent-claim_one k c [] apart = refl
  absent-claim_one k c (j ∷ ks) apart =
      ap (λ o. if_absent o j (absent (claim_one false k c).0 ks))
        (lookup-claim_one k j c (apart_head k j ks apart))
      ∙ ap (if_absent (lookup j c.slots) j) (absent-claim_one k c ks (ground arith))

  -- The claim of a tile that is not pending makes it the row's own if the cache knows nothing of it.
  claim_found-claiming :
      (k : Key) (ks own : List Key) (c : Cache V) (s : Option (Slot V))
      → is_pending s ≡ false
      → claimed (claim_found false k c s).1 k ks own ≡ claiming ks (own ++ if_absent s k [])
  unfolding claimed claim_found if_absent
  claim_found-claiming k ks own c none e = refl
  claim_found-claiming k ks own c (some (Slot.ready arr bytes last_used)) e =
      ap (claiming ks) (sym (append-nil own))
  claim_found-claiming k ks own c (some (Slot.pending sig)) e = absurd (ground arith)

  pub claim_one-claiming :
      (k : Key) (ks own : List Key) (c : Cache V)
      → is_pending (lookup k c.slots) ≡ false
      → claimed (claim_one false k c).1 k ks own ≡ claiming ks (own ++ absent c (k ∷ []))
  unfolding claim_one absent
  claim_one-claiming k ks own c free =
      claim_found-claiming k ks own (record c { tick = c.tick + 1 }) (lookup k c.slots) free

  if_absent-append :
      (s : Option (Slot V)) (k : Key) (ks : List Key) → if_absent s k [] ++ ks ≡ if_absent s k ks
  unfolding if_absent
  if_absent-append none k ks = refl
  if_absent-append (some t) k ks = refl

  pub absent-cons :
      (k : Key) (ks : List Key) (c : Cache V) → absent c (k ∷ []) ++ absent c ks ≡ absent c (k ∷ ks)
  unfolding absent
  absent-cons k ks c = if_absent-append (lookup k c.slots) k (absent c ks)
