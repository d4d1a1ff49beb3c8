-- ===== src/TileCache/OneThread/Through.antt =====
-- A row that the thread takes through its claims without a wait, and what it leaves in the cache.
use duckdb_cog.Base.{
  ℕ, ◌≡◌, ◌⊎◌, inl, inr, refl, ap, ◌∙◌, arith, Bool, true, false, Option, none, some, List, [], ◌∷◌,
  ◌++◌, append-nil, append_assoc, subst, All,
}
use duckdb_cog.TileCache.Assoc.{Key, key_eq_refl, lookup}
use duckdb_cog.TileCache.{Slot, Cache, claim_one}
use duckdb_cog.TileCache.Invariant.{IsValid}
use duckdb_cog.TileCache.Preservation.{claim_one-IsValid}
use duckdb_cog.TileCache.OneThread.{
  Row, queued, finished, claiming, waiting, Thread, idle, inside, suspended, publish_all, Step,
  polls, claims, awaits, fetched,
}
use duckdb_cog.TileCache.OneThread.Settling.{
  is_pending, member, Free, Held, claim_one-Held, publish_all-Free,
}
use duckdb_cog.TileCache.OneThread.Claiming.{
  Apart, if_absent, absent, claim_all, claim_one-Free, absent-claim_one, claim_one-claiming,
  absent-cons,
}

module _ {ℓ} {V : Type ℓ} where
  abbrev pub is_waiting : Thread V → Bool
  is_waiting (idle c rows) = false
  is_waiting (inside c before (claiming ks own) after) = false
  is_waiting (inside c before (waiting sig ks own) after) = true

  -- Steps that never come to a wait.
  pub data Unwaited (s : Thread V) : Thread V → Type ℓ where
    here : Unwaited s s
    next : {t u : Thread V} → Unwaited s t → Step t u → is_waiting u ≡ false → Unwaited s u

  through :
      (s : Thread V) (before after : List Row) (ks own : List Key) (c : Cache V)
      → Apart ks
      → All (Free c) ks
      → Unwaited s (inside c before (claiming ks own) after)
      → Unwaited s (idle (claim_all ks c) (before ++ suspended (own ++ absent c ks) ∷ after))
  unfolding claim_all absent
  through s before after [] own c apart free steps = rw (append-nil own) (next steps awaits refl)
  through s before after (k ∷ ks) own c apart free steps =
      let own' : List Key = own ++ absent c (k ∷ []) in
      let c' : Cache V = (claim_one false k c).0 in
      let step : Step (inside c before (claiming (k ∷ ks) own) after)
          (inside c' before (claiming ks own') after) =
        subst
          (λ p.
            Step (inside c before (claiming (k ∷ ks) own) after)
              (inside (claim_one false k c).0 before p after))
          (claim_one-claiming k ks own c free.0) claims in
      let lists : own' ++ absent c' ks ≡ own ++ absent c (k ∷ ks) =
        ap (λ l. own' ++ l) (absent-claim_one k c ks apart.0)
        ∙ append_assoc own (absent c (k ∷ [])) (absent c ks)
        ∙ ap (λ l. own ++ l) (absent-cons k ks c) in
      subst (λ l. Unwaited s (idle (claim_all ks c') (before ++ suspended l ∷ after))) lists
        (through s before after ks own' c' apart.1 (claim_one-Free k c ks apart.0 free.1)
          (next steps step refl))

  fetch_ends :
      (s : Thread V) (before after : List Row) (own : List Key) (c : Cache V) (tiles : List (V × ℕ))
      → Unwaited s (idle c (before ++ suspended own ∷ after))
      → Unwaited s (idle (publish_all own tiles c) (before ++ finished ∷ after))
  unfolding suspended publish_all
  fetch_ends s before after [] c tiles steps = steps
  fetch_ends s before after (k ∷ own) c tiles steps =
      next steps (fetched before (k ∷ own) after tiles) refl

  claim_all-IsValid : (ks : List Key) (c : Cache V) → IsValid c → IsValid (claim_all ks c)
  unfolding claim_all
  claim_all-IsValid [] c v = v
  claim_all-IsValid (k ∷ ks) c v =
      claim_all-IsValid ks (claim_one false k c).0 (claim_one-IsValid false k c v)

  claim_all-Held : (ks : List Key) (c : Cache V) (q : Key) → Held c q → Held (claim_all ks c) q
  unfolding claim_all
  claim_all-Held [] c q h = h
  claim_all-Held (k ∷ ks) c q h =
      claim_all-Held ks (claim_one false k c).0 q (claim_one-Held k q c h)

  -- A tile of the row becomes its own, or is one that the cache holds.
  abbrev OwnOrHeld : Cache V → List Key → Key → Type ℓ
  OwnOrHeld c own q = (member q own ≡ true) ⊎ Held c q

  grow :
      (c : Cache V) (s : Option (Slot V)) (k : Key) (own ks : List Key)
      → All (OwnOrHeld c own) ks
      → All (OwnOrHeld c (if_absent s k own)) ks
  unfolding if_absent
  grow c (some t) k own ks h = h
  grow c none k own [] h = tt
  grow c none k own (j ∷ ks) (inl m, h) = (inl (ground arith), grow c none k own ks h)
  grow c none k own (j ∷ ks) (inr held, h) = (inr held, grow c none k own ks h)

  own_first :
      (c : Cache V) (k : Key) (own : List Key) (s : Option (Slot V))
      → lookup k c.slots ≡ s
      → is_pending s ≡ false
      → OwnOrHeld c (if_absent s k own) k
  unfolding if_absent
  own_first c k own none e free = inl (ground (arith, key_eq_refl k))
  own_first c k own (some (Slot.ready arr bytes u)) e free = inr (arr, bytes, u, e)
  own_first c k own (some (Slot.pending sig)) e free = absurd (ground arith)

  own_or_held : (ks : List Key) (c : Cache V) → All (Free c) ks → All (OwnOrHeld c (absent c ks)) ks
  unfolding absent
  own_or_held [] c free = tt
  own_or_held (k ∷ ks) c free = (
    own_first c k (absent c ks) (lookup k c.slots) refl free.0,
    grow c (lookup k c.slots) k (absent c ks) ks (own_or_held ks c free.1),
  )

  none_pending :
      (c c' : Cache V) (own : List Key) (tiles : List (V × ℕ)) (ks : List Key)
      → IsValid c'
      → ((q : Key) → Held c q → Held c' q)
      → All (OwnOrHeld c own) ks
      → All (Free (publish_all own tiles c')) ks
  none_pending c c' own tiles [] v kept h = tt
  none_pending c c' own tiles (k ∷ ks) v kept (inl m, h) =
      (publish_all-Free own tiles c' k v (inl m), none_pending c c' own tiles ks v kept h)
  none_pending c c' own tiles (k ∷ ks) v kept (inr held, h) = (
    publish_all-Free own tiles c' k v (inr (free (kept k held))),
    none_pending c c' own tiles ks v kept h,
  )
    where
      free : Held c' k → Free c' k
      free (a, b, u, e) = rw (e) refl

  -- A row over a valid cache that names no tile twice, and none that is pending in the cache: the
  -- thread can take it, among whatever other rows, through its claims and to its end in steps that
  -- never come to a wait. The tiles that its fetch is for are exactly those that the cache knows
  -- nothing of. Whichever of them the fetch yields, none of the row's tiles is pending at its
  -- end: a claim of one would not wait then.
  pub Step-through :
      (c : Cache V) (before : List Row) (ks : List Key) (after : List Row) (tiles : List (V × ℕ))
      → IsValid c
      → Apart ks
      → All (Free c) ks
      → Unwaited
          (idle c (before ++ queued ks ∷ after))
          (idle (claim_all ks c) (before ++ suspended (absent c ks) ∷ after))
        × Unwaited
            (idle c (before ++ queued ks ∷ after))
            (idle (publish_all (absent c ks) tiles (claim_all ks c)) (before ++ finished ∷ after))
        × All (Free (publish_all (absent c ks) tiles (claim_all ks c))) ks
  Step-through c before ks after tiles v apart free =
      let start : Thread V = idle c (before ++ queued ks ∷ after) in
      let claimed =
        through start before after ks [] c apart free (next here (polls before ks after) refl) in
      (
        claimed,
        fetch_ends start before after (absent c ks) (claim_all ks c) tiles claimed,
        none_pending c (claim_all ks c) (absent c ks) tiles ks (claim_all-IsValid ks c v)
            (λ q h. claim_all-Held ks c q h) (own_or_held ks c free),
      )
