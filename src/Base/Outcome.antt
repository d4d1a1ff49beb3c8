-- ===== src/Base/Outcome.antt =====
-- `Result<A, E>` of the source, its `?` operator as a bind, and `collect` into a result.
use duckdb_cog.Base.Lists.{length}
use Prim.Native.Nat.{suc}
use native.Mathlib.Omega.{arith}
use mathlib.Core.Path.{◌≡◌, refl, sym, ap, ◌∙◌}
use mathlib.Core.List.{List, [], ◌∷◌}
use mathlib.Core.Option.{Option, none, some}

pub data Result {ℓ κ} (E : Type κ) (A : Type ℓ) : Type (ℓ ⊔ κ) where
  ok : A → Result E A
  err : E → Result E A

infixl 5 ◌>>=◌
abbrev pub ◌>>=◌ {ℓ κ μ} :
    {E : Type μ} {A : Type ℓ} {B : Type κ} → Result E A → (A → Result E B) → Result E B
ok a >>= f = f a
err e >>= f = err e

abbrev pub map_err {ℓ κ μ} :
    {E : Type μ} {E' : Type κ} {A : Type ℓ} → (E → E') → Result E A → Result E' A
map_err f (ok a) = ok a
map_err f (err e) = err (f e)

abbrev pub ok_or {ℓ κ} : {E : Type κ} {A : Type ℓ} → Option A → E → Result E A
ok_or none e = err e
ok_or (some a) e = ok a

-- `iter.map(f).collect::<Result<Vec<_>, _>>()`: the first error, or all values in order.
abbrev pub try_map {ℓ κ μ} :
    {E : Type μ} {A : Type ℓ} {B : Type κ} → (A → Result E B) → List A → Result E (List B)
try_map f [] = ok []
try_map f (x ∷ xs) = do y ← f x; ys ← try_map f xs; ok (y ∷ ys)

-- A loop that stops at the first error.
abbrev pub fold_m {ℓ κ μ} :
    {E : Type μ} {A : Type ℓ} {X : Type κ} → (A → X → Result E A) → A → List X → Result E A
fold_m f a [] = ok a
fold_m f a (x ∷ xs) = f a x >>= λ a'. fold_m f a' xs

-- A chain that succeeds has steps that succeed.
pub bind-eq_ok {ℓ κ μ} :
    {E : Type μ} {A : Type ℓ} {B : Type κ} (m : Result E A) (f : A → Result E B) {b : B}
    → (m >>= f) ≡ ok b
    → (a : A) × (m ≡ ok a) × (f a ≡ ok b)
bind-eq_ok (ok a) f h = (a, refl, h)
bind-eq_ok (err e) f h = cc

pub map_err-eq_ok {ℓ κ μ} :
    {E : Type μ} {E' : Type κ} {A : Type ℓ} (f : E → E') (m : Result E A) {a : A}
    → map_err f m ≡ ok a
    → m ≡ ok a
map_err-eq_ok f (ok a) h = cc
map_err-eq_ok f (err e) h = cc

pub length-try_map {ℓ κ μ} :
    {E : Type μ} {A : Type ℓ} {B : Type κ} (f : A → Result E B) (l : List A) {vs : List B}
    → try_map f l ≡ ok vs
    → length vs ≡ length l
length-try_map f [] e = ground arith
length-try_map f (a ∷ l) {vs} e =
    let (v, p, e1) = bind-eq_ok (f a) _ e in
    let (rest, q, e2) = bind-eq_ok (try_map f l) _ e1 in
    let tail : length rest ≡ length l = length-try_map f l q in
    let same : v ∷ rest ≡ vs = cc in ap length (sym same) ∙ ap suc tail

pub map_err-ok {ℓ κ μ} :
    {E : Type μ} {E' : Type κ} {A : Type ℓ} (h : E → E') (m : Result E A) {a : A}
    → m ≡ ok a
    → map_err h m ≡ ok a
map_err-ok h m e = rw (e) refl
