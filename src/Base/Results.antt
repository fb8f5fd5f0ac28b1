-- ===== src/Base/Results.antt =====
-- A Go result pair `(value, error)`: a value, or an error of any type.
use mathlib.Core.Path.{◌≡◌, refl, ap, ap₂, ◌∙◌, subst}
use mathlib.Core.List.{List, [], ◌∷◌, map}
use native.Mathlib.Omega.{arith}
use Prim.Native.Nat.{suc}
use mathlib.Core.Logic.{◌⊎◌, inl, inr}
use factory_demo.Base.Lists.{All, length}

pub data Result {ℓ κ} (E : Type κ) (A : Type ℓ) : Type (ℓ ⊔ κ) where
  err : E → Result E A
  ok : A → Result E A

infixl 5 ◌>>=◌
-- `if err != nil { return …, err }`
abbrev pub ◌>>=◌ {ℓ κ μ} :
    {E : Type μ} {A : Type ℓ} {B : Type κ} → Result E A → (A → Result E B) → Result E B
err failure >>= next = err failure
ok value >>= next = next value

-- A failure is returned under another one.
abbrev pub map_err {ℓ κ μ} :
    {E : Type κ} {F : Type μ} {A : Type ℓ} → (E → F) → Result E A → Result F A
map_err f (ok a) = ok a
map_err f (err e) = err (f e)

pub Result-cases {ℓ κ} :
    {E : Type κ} {A : Type ℓ} (r : Result E A) → ((a : A) × (r ≡ ok a)) ⊎ ((e : E) × (r ≡ err e))
Result-cases (ok a) = inl (a, refl)
Result-cases (err e) = inr (e, refl)

-- A loop that appends the result of each round and stops at the first error.
abbrev pub collect {ℓ κ μ} :
    {E : Type μ} {A : Type ℓ} {B : Type κ} → (A → Result E B) → List A → Result E (List B)
collect f [] = ok []
collect f (x ∷ xs) = f x >>= λ y. collect f xs >>= λ ys. ok (y ∷ ys)

-- A chain succeeds where its first call does, and its second on the value of the first.
pub >>=-eq-ok {ℓ κ μ} :
    {E : Type μ} {A : Type ℓ} {B : Type κ} (first : Result E A) (next : A → Result E B) {last : B}
    → (first >>= next) ≡ ok last
    → (value : A) × (first ≡ ok value) × (next value ≡ ok last)
>>=-eq-ok (err failure) next e = absurd (ground arith)
>>=-eq-ok (ok value) next e = (value, refl, e)

-- A loop that succeeds still does where its rounds are replaced by others with the same results.
pub collect-map {ℓ κ μ ν} :
    {E : Type μ} {A : Type ℓ} {B : Type κ} {C : Type ν} (f : A → Result E B) (g : C → Result E B)
    (h : A → C)
    → ((x : A) (y : B) → f x ≡ ok y → g (h x) ≡ ok y)
    → (xs : List A) (ys : List B) → collect f xs ≡ ok ys
    → collect g (map h xs) ≡ ok ys
collect-map f g h k [] ys e = e
collect-map f g h k (x ∷ xs) ys e =
    let (y, one, rest) = >>=-eq-ok (f x) _ e in
    let (zs, all, last) = >>=-eq-ok (collect f xs) _ rest in
    ap₂ (λ r s. r >>= λ y. s >>= λ ys. ok (y ∷ ys)) (k x y one) (collect-map f g h k xs zs all)
    ∙ last

-- Each result of a loop is the result of its round, in order.
pub collect-All {ℓ κ μ ν} :
    {E : Type μ} {A : Type ℓ} {B : Type κ} (P : B → Type ν) (f : A → Result E B)
    → ((x : A) (y : B) → f x ≡ ok y → P y)
    → (xs : List A) (ys : List B) → collect f xs ≡ ok ys
    → All P ys × (length ys ≡ length xs)
collect-All P f k [] [] e = (tt, refl)
collect-All P f k [] (y ∷ ys) e = cc
collect-All P f k (x ∷ xs) ys e =
    let (y, one, rest) = >>=-eq-ok (f x) _ e in
    let (zs, all, last) = >>=-eq-ok (collect f xs) _ rest in
    let (every, same) = collect-All P f k xs zs all in
    let result : y ∷ zs ≡ ys = cc (last) in
    subst (λ ws. All P ws × (length ws ≡ suc (length xs))) result ((k x y one, every), ap suc same)
