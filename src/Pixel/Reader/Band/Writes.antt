-- ===== src/Pixel/Reader/Band/Writes.antt =====
-- Loops that write into a vector: what a position holds once it is written.
use duckdb_cog.Base.{
  ℕ, zero, suc, ◌+◌, ◌*◌, ◌/◌, ◌%◌, ◌≤◌, ◌<◌, ◌≡◌, ◌⊎◌, inl, inr, refl, sym, ap, ◌∙◌, subst, arith,
  ◌||◌, true, some, List, [], ◌∷◌, ◌++◌, map, flat_map, range, ok, err, ◌>>=◌, bind-eq_ok, fold_m,
  length, get_elem?, set, ltb, All, Bool-cases,
}
use duckdb_cog.Pixel.Reader.{M, panic}
use duckdb_cog.Pixel.Reader.Band.{store}
use native.Mathlib.Nat.{div-eq_of_lt-le, mod-eq-sub-div-mul}

pub row_major : (q m b : ℕ) → b < m → ((q * m + b) / m ≡ q) × ((q * m + b) % m ≡ b)
row_major q m b h =
    let quotient : (q * m + b) / m ≡ q = div-eq_of_lt-le m (omega arith) (omega arith) in
    (quotient, mod-eq-sub-div-mul (q * m + b) m ∙ rw (quotient) (omega arith))

-- A member with a property.
abbrev pub Any {ℓ} : {X : Type ℓ} → (X → Type 0) → List X → Type 0
Any P [] = ⊥
Any P (x ∷ xs) = P x ⊎ Any P xs

pub Any-range : (P : ℕ → Type 0) (lo n i : ℕ) → lo ≤ i → i < lo + n → P i → Any P (range lo n)
Any-range P lo zero i low high p = absurd (omega arith)
Any-range P lo (suc n) i low high p = elim (Bool-cases (ltb lo i)) [
  | inl above ↦ inr (Any-range P (lo + 1) n i (ground arith) (omega arith) p)
  | inr here ↦ let same : i ≡ lo = ground arith in inl (subst P same p)
]

pub Any-map {ℓ κ} :
    {X : Type ℓ} {Y : Type κ} (P : Y → Type 0) (f : X → Y) (xs : List X)
    → Any (λ x. P (f x)) xs
    → Any P (map f xs)
Any-map P f [] a = absurd a
Any-map P f (x ∷ xs) (inl p) = inl p
Any-map P f (x ∷ xs) (inr a) = inr (Any-map P f xs a)

Any-append_left {ℓ} : {X : Type ℓ} (P : X → Type 0) (xs ys : List X) → Any P xs → Any P (xs ++ ys)
Any-append_left P [] ys a = absurd a
Any-append_left P (x ∷ xs) ys (inl p) = inl p
Any-append_left P (x ∷ xs) ys (inr a) = inr (Any-append_left P xs ys a)

Any-append_right {ℓ} : {X : Type ℓ} (P : X → Type 0) (xs ys : List X) → Any P ys → Any P (xs ++ ys)
Any-append_right P [] ys a = a
Any-append_right P (x ∷ xs) ys a = inr (Any-append_right P xs ys a)

pub Any-flat_map {ℓ κ} :
    {X : Type ℓ} {Y : Type κ} (P : Y → Type 0) (f : X → List Y) (xs : List X)
    → Any (λ x. Any P (f x)) xs
    → Any P (flat_map f xs)
Any-flat_map P f [] a = absurd a
Any-flat_map P f (x ∷ xs) (inl a) = Any-append_left P (f x) (flat_map f xs) a
Any-flat_map P f (x ∷ xs) (inr a) = Any-append_right P (f x) (flat_map f xs) (Any-flat_map P f xs a)

module _ {A : Type 0} where
  pub length-set : (out : List A) (i : ℕ) (v : A) → length (set out i v) ≡ length out
  length-set [] i v = refl
  length-set (x ∷ xs) zero v = refl
  length-set (x ∷ xs) (suc i) v = ap suc (length-set xs i v)

  get_elem?-set :
      (out : List A) (i : ℕ) (v : A) → i < length out → get_elem? (set out i v) i ≡ some v
  get_elem?-set [] i v h = absurd (omega arith)
  get_elem?-set (x ∷ xs) zero v h = refl
  get_elem?-set (x ∷ xs) (suc i) v h = get_elem?-set xs i v (omega arith)

  get_elem?-set_other :
      (out : List A) (i k : ℕ) (v : A) → (k ≡ i → ⊥) → get_elem? (set out i v) k ≡ get_elem? out k
  get_elem?-set_other [] i k v h = refl
  get_elem?-set_other (x ∷ xs) zero zero v h = absurd (h refl)
  get_elem?-set_other (x ∷ xs) zero (suc k) v h = refl
  get_elem?-set_other (x ∷ xs) (suc i) zero v h = refl
  get_elem?-set_other (x ∷ xs) (suc i) (suc k) v h =
      get_elem?-set_other xs i k v (λ e. h (ap suc e))

module _ {A : Type 0} (R : ℕ → A → Type 0) where
  -- The position holds a value that is right for it.
  abbrev pub HoldsAt : List A → ℕ → Type 0
  HoldsAt out k = (s : A) × (get_elem? out k ≡ some s) × R k s

  -- A step that keeps the length, keeps what is right, and makes the positions of `K` right.
  abbrev pub Writes : (List A → M (List A)) → (ℕ → Type 0) → Type 0
  Writes body K =
      (out out' : List A)
      → body out ≡ ok out'
      → (length out' ≡ length out) × ((k : ℕ) → HoldsAt out k ⊎ K k → HoldsAt out' k)

  pub store-Writes : (i : ℕ) (v : A) → R i v → Writes (λ out. store out i v) (λ k. k ≡ i)
  unfolding store
  store-Writes i v right out out' e = elim (Bool-cases (ltb i (length out))) [
    | inr outside ↦ absurd (no_panic (rw (outside, store) at e))
    | inl inside ↦
        let same : set out i v ≡ out' = ok_inj (rw (inside, store) at e) in
        subst
          (λ (o : List A).
            (length o ≡ length out) × ((k : ℕ) → HoldsAt out k ⊎ (k ≡ i) → HoldsAt o k))
          same (length-set out i v, λ k held. at_position inside k held)
  ]
    where
      no_panic : ◌≡◌ {A = M (List A)} (err panic) (ok out') → ⊥
      no_panic h = cc

      ok_inj : {xs ys : List A} → ◌≡◌ {A = M (List A)} (ok xs) (ok ys) → xs ≡ ys
      ok_inj h = cc

      written : ltb i (length out) ≡ true → HoldsAt (set out i v) i
      written inside = (v, get_elem?-set out i v (ground arith), right)

      at_position :
          ltb i (length out) ≡ true → (k : ℕ) → HoldsAt out k ⊎ (k ≡ i) → HoldsAt (set out i v) k
      at_position inside k (inr here) = subst (HoldsAt (set out i v)) (sym here) (written inside)
      at_position inside k (inl (s, found, p)) = elim (Bool-cases (ltb k i || ltb i k)) [
        | inl other ↦ (s, get_elem?-set_other out i k v (λ e'. absurd (ground arith)) ∙ found, p)
        | inr here ↦
            let e' : i ≡ k = ground arith in subst (HoldsAt (set out i v)) e' (written inside)
      ]

  -- To change nothing, and to do one step after the other.
  pub ok-Writes : Writes (λ out. ok out) (λ k. ⊥)
  ok-Writes out out' e =
      let same = ok_inj e in
      (ap length (sym same), λ k held. subst (λ (o : List A). HoldsAt o k) same (only held))
    where
      ok_inj : {xs ys : List A} → ◌≡◌ {A = M (List A)} (ok xs) (ok ys) → xs ≡ ys
      ok_inj h = cc

      only : {P : Type 0} → P ⊎ ⊥ → P
      only (inl p) = p
      only (inr n) = absurd n

  pub seq-Writes :
      (f g : List A → M (List A)) (K L : ℕ → Type 0)
      → Writes f K
      → Writes g L
      → Writes (λ out. f out >>= g) (λ k. K k ⊎ L k)
  seq-Writes f g K L first second out out' e =
      let (mid, e1, e2) = bind-eq_ok (f out) _ e in
      let (len1, held1) = first out mid e1 in
      let (len2, held2) = second mid out' e2 in
      (len2 ∙ len1, λ k held. held2 k (step mid held1 k held))
    where
      step :
          (mid : List A)
          → ((k : ℕ) → HoldsAt out k ⊎ K k → HoldsAt mid k)
          → (k : ℕ) → HoldsAt out k ⊎ (K k ⊎ L k)
          → HoldsAt mid k ⊎ L k
      step mid held1 k (inl h) = inl (held1 k (inl h))
      step mid held1 k (inr (inl h)) = inl (held1 k (inr h))
      step mid held1 k (inr (inr h)) = inr h

  pub fold-Writes {ℓ} :
      {X : Type ℓ} (f : List A → X → M (List A)) (K : X → ℕ → Type 0) (xs : List X)
      → All (λ x. Writes (λ out. f out x) (K x)) xs
      → Writes (λ out. fold_m f out xs) (λ k. Any (λ x. K x k) xs)
  fold-Writes f K [] a = ok-Writes
  fold-Writes f K (x ∷ xs) (first, a) =
      seq-Writes (λ out. f out x) (λ out. fold_m f out xs) (K x) (λ k. Any (λ y. K y k) xs) first
        (fold-Writes f K xs a)
