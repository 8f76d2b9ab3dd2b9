-- ===== src/Prelude/Dict.antt =====
-- A JavaScript `Map`: its entries in the order of insertion. A write to a key that is there keeps
-- the key's place.
pub mod Sole
use mathlib.Core.Path.{◌≡◌, refl}
use mathlib.Core.Bool.{Bool, true, false, ◌||◌}
use mathlib.Core.Option.{Option, none, some}
use mathlib.Core.List.{List, [], ◌∷◌}
use mathlib.Core.Logic.{inl, inr}
use native.Mathlib.Omega.{arith}
use dsh_assistant.Prelude.Keys.{Equality, ◌==◌}
use dsh_assistant.Prelude.Lists.{all}
use dsh_assistant.Prelude.Tests.{if◌then◌else◌, Bool-cases}
use dsh_assistant.Prelude.{count_if, ℕ, ◌+◌}

abbrev pub Dict {ℓ κ} : Type ℓ → Type κ → Type (ℓ ⊔ κ)
Dict K V = List (K × V)

module _ {ℓ κ} {K : Type ℓ} {V : Type κ} ⦃e : Equality K⦄ where
  unfoldable pub get : K → Dict K V → Option V
  get k [] = none
  get k ((j, v) ∷ m) = if j == k then some v else get k m

  unfoldable pub put : K → V → Dict K V → Dict K V
  put k v [] = (k, v) ∷ []
  put k v ((j, w) ∷ m) = let rest = put k v m in if j == k then (j, v) ∷ m else (j, w) ∷ rest

  -- `m.has(k)`
  unfoldable pub has : K → Dict K V → Bool
  has k [] = false
  has k ((j, v) ∷ m) = if j == k then true else has k m

  -- `m.delete(k)`
  unfoldable pub delete : K → Dict K V → Dict K V
  delete k [] = []
  delete k ((j, v) ∷ m) = let rest = delete k m in if j == k then rest else (j, v) ∷ rest

  pub get-put :
      (k j : K) (v : V) (m : Dict K V) → get j (put k v m) ≡ (if k == j then some v else get j m)
  unfolding get put
  get-put k j v [] = refl
  get-put k j v ((i, w) ∷ m) =
      ground (arith, e.agrees k j, e.agrees i k, e.agrees i j, get-put k j v m)

  pub get-put_twice :
      (k j : K) (v w : V) (m : Dict K V)
      → get j (put k v (put k w m)) ≡ (if k == j then some v else get j m)
  get-put_twice k j v w m = ground (arith, get-put k j v (put k w m), get-put k j w m)

  pub get-delete :
      (k j : K) (m : Dict K V) → get j (delete k m) ≡ (if k == j then none else get j m)
  unfolding get delete
  get-delete k j [] = ground arith
  get-delete k j ((i, w) ∷ m) =
      ground (arith, e.agrees k j, e.agrees i k, e.agrees i j, get-delete k j m)

-- `[...m.values()]`
abbrev pub values {ℓ κ} : {K : Type ℓ} {V : Type κ} → Dict K V → List V
values [] = []
values ((k, v) ∷ m) = v ∷ values m

pub all-get {ℓ κ} :
    {K : Type ℓ} {V : Type κ} ⦃e : Equality K⦄ (p : V → Bool) (k : K) (m : Dict K V) (v : V)
    → all p (values m) ≡ true
    → get k m ≡ some v
    → p v ≡ true
unfolding get
all-get p k [] v h q = absurd (ground (arith, q))
all-get p k ((j, w) ∷ m) v h q = ground (arith, h, q, all-get p k m v)

-- no key twice
abbrev pub IsDistinct {ℓ κ} : {K : Type ℓ} {V : Type κ} ⦃e : Equality K⦄ → Dict K V → Type 0
IsDistinct [] = Unit
IsDistinct ((k, v) ∷ m) = (has k m ≡ false) × IsDistinct m

pub has-put {ℓ κ} :
    {K : Type ℓ} {V : Type κ} ⦃e : Equality K⦄ (k j : K) (v : V) (m : Dict K V)
    → has j (put k v m) ≡ (k == j || has j m)
unfolding has put
has-put ⦃e⦄ k j v [] = ground arith
has-put ⦃e⦄ k j v ((i, w) ∷ m) =
    ground (arith, e.agrees k j, e.agrees i k, e.agrees i j, has-put k j v m)

pub put-IsDistinct {ℓ κ} :
    {K : Type ℓ} {V : Type κ} ⦃e : Equality K⦄ (k : K) (v : V) (m : Dict K V)
    → IsDistinct m
    → IsDistinct (put k v m)
unfolding has put
put-IsDistinct ⦃e⦄ k v [] h = (refl, tt)
put-IsDistinct ⦃e⦄ k v ((i, w) ∷ m) h = elim (Bool-cases (i == k)) [
  | inl same ↦ rw same h
  | inr other ↦
      rw other
        (ground (arith, has-put k i v m, e.agrees k i, e.agrees i k, h.0), put-IsDistinct k v m h.1)
]

pub get-has {ℓ κ} :
    {K : Type ℓ} {V : Type κ} ⦃e : Equality K⦄ (k : K) (v : V) (m : Dict K V)
    → get k m ≡ some v
    → has k m ≡ true
unfolding has get
get-has k v [] h = absurd (ground (arith, h))
get-has k v ((i, w) ∷ m) h = ground (arith, h, get-has k v m)

abbrev pub counted {ℓ} : {V : Type ℓ} → (V → Bool) → Option V → ℕ
counted p none = 0
counted p (some v) = if p v then 1 else 0

-- what a write does to the number of values that pass a test
pub count_if-put {ℓ κ} :
    {K : Type ℓ} {V : Type κ} ⦃e : Equality K⦄ (p : V → Bool) (k : K) (v : V) (m : Dict K V)
    → count_if p (values (put k v m)) + counted p (get k m)
      ≡ count_if p (values m) + counted p (some v)
unfolding get put
count_if-put ⦃e⦄ p k v [] = ground arith
count_if-put ⦃e⦄ p k v ((j, w) ∷ m) = ground (arith, count_if-put p k v m)

pub all-put {ℓ κ} :
    {K : Type ℓ} {V : Type κ} ⦃e : Equality K⦄ (p : V → Bool) (k : K) (v : V) (m : Dict K V)
    → all p (values m) ≡ true
    → p v ≡ true
    → all p (values (put k v m)) ≡ true
unfolding put
all-put ⦃e⦄ p k v [] h q = ground (arith, q)
all-put ⦃e⦄ p k v ((j, w) ∷ m) h q = ground (arith, h, q, all-put p k v m)
