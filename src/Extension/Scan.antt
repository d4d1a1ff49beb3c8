-- ===== src/Extension/Scan.antt =====
-- A scan: calls of a cursor until a chunk is empty.
use duckdb_cog.Base.{
  ℕ, zero, suc, ◌+◌, ◌-◌, ◌*◌, ◌%◌, ◌^◌, ◌≤◌, ◌<◌, ◌≡◌, refl, sym, ap, ◌∙◌, arith, min, true, false,
  List, [], ◌∷◌, ◌++◌, ◌⊎◌, inl, inr, leb, leb→le, if◌then◌else◌, length, take, drop, length-drop,
  length-take-le, take-all, Bool-cases,
}
use duckdb_cog.Extension.{chunk_size, next_chunk}

module _ {R : Type 0} where
  take-nil : (n : ℕ) → take {A = R} n [] ≡ []
  take-nil zero = refl
  take-nil (suc n) = refl

  drop-nil : (n : ℕ) → drop {A = R} n [] ≡ []
  drop-nil zero = refl
  drop-nil (suc n) = refl

  take-append : (a b : ℕ) (l : List R) → take a l ++ take b (drop a l) ≡ take (a + b) l
  take-append zero b l = ap (λ n. take n l) (omega arith)
  take-append (suc a) b [] = take-nil b ∙ sym (take-nil (suc a + b))
  take-append (suc a) b (x ∷ l) =
      let next : suc a + b ≡ suc (a + b) = omega arith in
      rw next (ap (λ r. x ∷ r) (take-append a b l))

  drop-drop : (a c : ℕ) (l : List R) → drop a (drop c l) ≡ drop (c + a) l
  drop-drop a zero l = ap (λ n. drop n l) (omega arith)
  drop-drop a (suc c) [] = drop-nil a ∙ sym (drop-nil (suc c + a))
  drop-drop a (suc c) (x ∷ l) =
      let next : suc c + a ≡ suc (c + a) = omega arith in rw next (drop-drop a c l)

  drop-all : (n : ℕ) (l : List R) → length l ≤ n → drop n l ≡ []
  drop-all n [] h = drop-nil n
  drop-all zero (x ∷ l) h = absurd (omega arith)
  drop-all (suc n) (x ∷ l) h = drop-all n l (omega arith)

  -- A call at a position that does not wrap.
  chunk_lem :
      (rows : List R) (c : ℕ)
      → c + chunk_size < 2 ^ 64
      → next_chunk rows c ≡ (c + chunk_size, take chunk_size (drop c rows))
  unfolding next_chunk
  chunk_lem rows c h =
      let wrap : (c + chunk_size) % 2 ^ 64 ≡ c + chunk_size = omega arith in
      rw (wrap) (ap (λ l. (c + chunk_size, l)) (rows_at (Bool-cases (leb (length rows) c))))
    where
      rows_at :
          (leb (length rows) c ≡ true) ⊎ (leb (length rows) c ≡ false)
          → (if leb (length rows) c
              then []
              else take (min (c + chunk_size) (length rows) - c) (drop c rows))
            ≡ take chunk_size (drop c rows)
      rows_at (inl e) =
          rw (e) (rw (drop-all c rows (leb→le (length rows) c e)) (sym (take-nil chunk_size)))
      rows_at (inr e) = rw (e) (short (Bool-cases (leb (length rows) (c + chunk_size))))
        where
          short :
              (leb (length rows) (c + chunk_size) ≡ true)
                ⊎ (leb (length rows) (c + chunk_size) ≡ false)
              → take (min (c + chunk_size) (length rows) - c) (drop c rows)
                ≡ take chunk_size (drop c rows)
          short (inl fits) =
              take-all (drop c rows) (min (c + chunk_size) (length rows) - c)
                (ground (arith, length-drop c rows, leb→le (length rows) (c + chunk_size) fits))
              ∙ sym (
                  take-all (drop c rows) chunk_size (
                    ground (arith, length-drop c rows, leb→le (length rows) (c + chunk_size) fits)))
          short (inr long) =
              let cap : min (c + chunk_size) (length rows) - c ≡ chunk_size = ground arith in
              ap (λ n. take n (drop c rows)) cap

  -- The rows of the first calls, by whatever threads they are made: the position is advanced
  -- atomically, so the calls stand in one order.
  unfoldable pub chunks : List R → ℕ → ℕ → List R
  chunks rows zero cursor = []
  chunks rows (suc k) cursor =
      (next_chunk rows cursor).1 ++ chunks rows k (next_chunk rows cursor).0

  chunks-take :
      (rows : List R) (k c : ℕ)
      → c + k * chunk_size < 2 ^ 64
      → chunks rows k c ≡ take (k * chunk_size) (drop c rows)
  unfolding chunks
  chunks-take rows zero c h = refl
  chunks-take rows (suc k) c h =
      let step : next_chunk rows c ≡ (c + chunk_size, take chunk_size (drop c rows)) =
        chunk_lem rows c (omega arith) in
      let rest : chunks rows k (c + chunk_size)
          ≡ take (k * chunk_size) (drop (c + chunk_size) rows) =
        chunks-take rows k (c + chunk_size) (omega arith) in
      let more : drop chunk_size (drop c rows) ≡ drop (c + chunk_size) rows =
        drop-drop chunk_size c rows in
      rw (step) (
        rw (rest, ← more)
          (take-append chunk_size (k * chunk_size) (drop c rows)
            ∙ ap (λ n. take n (drop c rows)) (omega arith)))

  -- Calls as long as the position does not wrap: the first k calls from the start return the first
  -- k chunks of rows in order, no chunk is larger than a vector holds, and once k chunks hold all
  -- of the rows the calls have returned exactly the rows, each once, and the next call returns none.
  pub scan_drains :
      (rows : List R) (k : ℕ)
      → (k + 1) * chunk_size < 2 ^ 64
      → (chunks rows k 0 ≡ take (k * chunk_size) rows)
        × (length (next_chunk rows (k * chunk_size)).1 ≤ chunk_size)
        × (length rows ≤ k * chunk_size
            → (chunks rows k 0 ≡ rows) × ((next_chunk rows (k * chunk_size)).1 ≡ []))
  scan_drains rows k h =
      let first : chunks rows k 0 ≡ take (k * chunk_size) rows =
        chunks-take rows k 0 (omega arith) in
      let at : next_chunk rows (k * chunk_size)
          ≡ (k * chunk_size + chunk_size, take chunk_size (drop (k * chunk_size) rows)) =
        chunk_lem rows (k * chunk_size) (omega arith) in
      (
        first,
        rw (at) (length-take-le chunk_size (drop (k * chunk_size) rows)),
        (λ all. (
          first ∙ take-all rows (k * chunk_size) all,
          rw (at) (ap (take chunk_size) (drop-all (k * chunk_size) rows all) ∙ take-nil chunk_size),
        )),
      )
