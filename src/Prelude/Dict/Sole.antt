-- ===== src/Prelude/Dict/Sole.antt =====
-- A map where at most one key has a value that passes a test.
use Prim.Native.Nat.{◌≤◌}
use mathlib.Core.Path.{◌≡◌, refl, sym, ap, ◌∙◌, subst}
use mathlib.Core.Bool.{Bool, true, false, not, ◌&&◌}
use mathlib.Core.Option.{some}
use mathlib.Core.List.{List, [], ◌∷◌}
use mathlib.Core.Logic.{◌⊎◌, inl, inr}
use native.Mathlib.Omega.{arith}
use dsh_assistant.Prelude.Keys.{Equality}
use dsh_assistant.Prelude.Lists.{select, all, length}
use dsh_assistant.Prelude.Tests.{Bool-cases}
use dsh_assistant.Prelude.Dict.{Dict, get, has, values, IsDistinct, get-has, all-get}

List-cases {ℓ} :
    {A : Type ℓ} (xs : List A) → (xs ≡ []) ⊎ ((x : A) × (rest : List A) × (xs ≡ x ∷ rest))
List-cases [] = inl refl
List-cases (x ∷ xs) = inr (x, xs, refl)

pub select-select {ℓ} :
    {A : Type ℓ} (p q : A → Bool) (xs : List A)
    → select q (select p xs) ≡ select (λ x. p x && q x) xs
select-select p q [] = refl
select-select p q (x ∷ xs) = ground (arith, select-select p q xs)

pub select_none {ℓ} :
    {A : Type ℓ} (p : A → Bool) (xs : List A) → select p xs ≡ [] → all (λ x. not (p x)) xs ≡ true
select_none p [] h = refl
select_none p (x ∷ xs) h = ground (arith, h, select_none p xs)

module _ {ℓ κ} {K : Type ℓ} {V : Type κ} ⦃e : Equality K⦄ (p : V → Bool) where
  -- two keys whose values pass are one
  abbrev pub IsSole : Dict K V → Type (ℓ ⊔ κ)
  IsSole m =
      (i j : K) (a b : V) → get i m ≡ some a → get j m ≡ some b → p a ≡ true → p b ≡ true → i ≡ j

  pub get_later :
      (k i : K) (v a : V) (m : Dict K V)
      → has k m ≡ false
      → get i m ≡ some a
      → get i ((k, v) ∷ m) ≡ some a
  unfolding get
  get_later k i v a m h g = ground (arith, h, g, get-has i a m, e.agrees k i)

  pub get_first : (k : K) (v : V) (m : Dict K V) → get k ((k, v) ∷ m) ≡ some v
  unfolding get
  get_first k v m = ground (arith, e.agrees k k)

  selected_get :
      (m : Dict K V) (w : V) (rest : List V)
      → IsDistinct m
      → select p (values m) ≡ w ∷ rest
      → (j : K) × (get j m ≡ some w) × (p w ≡ true)
  selected_get [] w rest d h = absurd (ground (arith, h))
  selected_get ((k, v) ∷ m) w rest d h = elim (Bool-cases (p v)) [
    | inl pass ↦
        let q : v ≡ w = ground (arith, pass, h) in
        (k, subst (λ x. get k ((k, v) ∷ m) ≡ some x) q (get_first k v m), sym (ap p q) ∙ pass)
    | inr skip ↦
        let (j, g, pw) = selected_get m w rest d.1 (ground (arith, skip, h)) in
        (j, get_later k j v w m d.0 g, pw)
  ]

  select-IsSole : (m : Dict K V) → IsDistinct m → IsSole m → length (select p (values m)) ≤ 1
  select-IsSole [] d s = omega arith
  select-IsSole ((k, v) ∷ m) d s = elim (Bool-cases (p v)) [
    | inl pass ↦ elim (List-cases (select p (values m))) [
      | inl nothing ↦ ground (arith, pass, nothing)
      | inr more ↦
          let (w, rest, q) = more in
          let (j, g, pw) = selected_get m w rest d.1 q in
          absurd (
            ground (
              arith,
              d.0,
              get-has j w m g,
              s k j v w (get_first k v m) (get_later k j v w m d.0 g) pass pw,
            ))
    ]
    | inr skip ↦
        let below =
          select-IsSole m d.1 (λ i j a b gi gj.
            s i j a b (get_later k i v a m d.0 gi) (get_later k j v b m d.0 gj)) in
        ground (arith, skip, below)
  ]

  -- the value under such a key is all that the test selects
  pub select_sole :
      (m : Dict K V) (k : K) (v : V)
      → IsDistinct m
      → IsSole m
      → get k m ≡ some v
      → p v ≡ true
      → select p (values m) ≡ v ∷ []
  select_sole m k v d s g pass = elim (List-cases (select p (values m))) [
    | inl nothing ↦
        absurd (
          ground (arith, pass, all-get (λ x. not (p x)) k m v (select_none p (values m) nothing) g))
    | inr more ↦
        let (w, rest, q) = more in
        let (j, gj, pw) = selected_get m w rest d q in
        let same : v ≡ w =
          ground (arith, g, subst (λ x. get x m ≡ some w) (s j k w v gj g pw pass) gj) in
        elim (List-cases rest) [
          | inl alone ↦ ground (arith, q, alone, same)
          | inr others ↦ absurd (ground (arith, q, others.2, select-IsSole m d s))
        ]
  ]
