-- ===== src/Base/Traverse.antt =====
-- What a block or a `traverse` that returns has established of its result.
use mathlib.Core.Path.{subst}
use valuemaxx.Base.{suc, ◌≡◌, refl, ap, List, [], ◌∷◌, length, All}
use valuemaxx.Base.Result.{Result, ok, ◌>>=◌, traverse, bind_returns}

module _ {ℓ κ} {A : Type ℓ} {B : Type κ} (P : B → Type κ) (f : A → Result B) where
  pub All-traverse :
      ((a : A) (b : B) → f a ≡ ok b → P b)
      → (xs : List A) {ys : List B} → traverse f xs ≡ ok ys
      → All P ys × (length xs ≡ length ys)
  All-traverse each [] {ys} h =
      subst (λ zs. All P zs × (0 ≡ length zs)) {x = []} {y = ys} (cc h) (tt, refl)
  All-traverse each (x ∷ xs) {ys} h =
      let a = bind_returns (f x) (λ y. traverse f xs >>= λ ys. ok (y ∷ ys)) h in
      let b = bind_returns (traverse f xs) (λ ys. ok (a.0 ∷ ys)) a.2 in
      let rest = All-traverse each xs b.1 in
      subst (λ zs. All P zs × (suc (length xs) ≡ length zs)) {x = a.0 ∷ b.0} {y = ys} (cc b.2)
        ((each x a.0 a.1, rest.0), ap suc rest.1)

-- What every result of a two-step block satisfies.
pub two_steps {ℓ κ} :
    {A : Type ℓ} {B : Type κ} {C : Type 0} (P : C → Type 0) (m : Result A) (n : Result B)
    (f : A → B → C) {c : C}
    → ((a : A) (b : B) → P (f a b))
    → (m >>= λ a. n >>= λ b. ok (f a b)) ≡ ok c
    → P c
two_steps P m n f each h =
    let a = bind_returns m (λ a. n >>= λ b. ok (f a b)) h in
    let b = bind_returns n (λ b. ok (f a.0 b)) a.2 in subst P (cc b.2) (each a.0 b.0)
