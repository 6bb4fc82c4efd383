-- ===== src/Base/Results.antt =====
-- Results with any error type, and their chains.
use mathlib.Core.Path.{◌≡◌, refl}
use mathlib.Core.Logic.{◌⊎◌, inl, inr}
use mathlib.Core.Bool.{Bool, true, false, not}
use mathlib.Core.Option.{Option, none, some}
use native.Mathlib.Omega.{arith}

pub data Result {ℓ κ} (E : Type ℓ) (A : Type κ) : Type (ℓ ⊔ κ) where
  ok : A → Result E A
  err : E → Result E A

-- `if test { return Err(e); }`
abbrev pub refuse_if {ℓ} : {E : Type ℓ} → Bool → E → Result E (Unit {0})
refuse_if false why = ok tt
refuse_if true why = err why

-- The `?` operator.
infixl 5 ◌>>=◌ ◌>>◌
abbrev pub ◌>>=◌ {ℓ κ μ} :
    {E : Type ℓ} {A : Type κ} {B : Type μ} → Result E A → (A → Result E B) → Result E B
err why >>= rest = err why
ok value >>= rest = rest value

abbrev pub ◌>>◌ {ℓ κ} :
    {E : Type ℓ} {B : Type κ} (check : Result E (Unit {0})) (rest : Result E B) → Result E B
check >> rest = check >>= λ done. rest

-- `Option::ok_or`
abbrev pub ok_or {ℓ κ} : {E : Type ℓ} {A : Type κ} → Option A → E → Result E A
ok_or (some a) e = ok a
ok_or none e = err e

-- `Result::map_err`
abbrev pub map_err {ℓ κ μ} :
    {E : Type ℓ} {F : Type κ} {A : Type μ} → (E → F) → Result E A → Result F A
map_err f (ok a) = ok a
map_err f (err e) = err (f e)

-- A chain that succeeds has a first step that succeeds, and a rest that does.
pub >>=-eq-ok {ℓ κ μ} :
    {E : Type ℓ} {A : Type κ} {B : Type μ} (first : Result E A) (rest : A → Result E B) {end : B}
    → (first >>= rest) ≡ ok end
    → (value : A) × (first ≡ ok value) × (rest value ≡ ok end)
>>=-eq-ok (err why) rest h = cc
>>=-eq-ok (ok value) rest h = (value, refl, h)

pub Result-cases {ℓ κ} :
    {E : Type ℓ} {A : Type κ} (r : Result E A) → ((a : A) × (r ≡ ok a)) ⊎ ((e : E) × (r ≡ err e))
Result-cases (ok a) = inl (a, refl)
Result-cases (err e) = inr (e, refl)

pub ok_or-eq-ok {ℓ κ} :
    {E : Type ℓ} {A : Type κ} (o : Option A) (e : E) {a : A} → ok_or o e ≡ ok a → o ≡ some a
ok_or-eq-ok none e h = cc
ok_or-eq-ok (some x) e h = ground arith

pub ok-injective {ℓ κ} :
    {E : Type ℓ} {A : Type κ} {x y : A} → ◌≡◌ {A = Result E A} (ok x) (ok y) → x ≡ y
ok-injective h = ground arith

pub map_err-eq-ok {ℓ κ μ} :
    {E : Type ℓ} {F : Type κ} {A : Type μ} (f : E → F) (r : Result E A) {a : A}
    → map_err f r ≡ ok a
    → r ≡ ok a
map_err-eq-ok f (ok x) h = ground arith
map_err-eq-ok f (err x) h = cc

-- The test of a guard that lets the code pass.
pub refuse_if-eq-ok {ℓ} :
    {E : Type ℓ} (b : Bool) (why : E) {u : Unit {0}} → refuse_if b why ≡ ok u → b ≡ false
refuse_if-eq-ok false why h = refl
refuse_if-eq-ok true why h = cc

pub refuse_if-not-eq-ok {ℓ} :
    {E : Type ℓ} (b : Bool) (why : E) {u : Unit {0}} → refuse_if (not b) why ≡ ok u → b ≡ true
refuse_if-not-eq-ok true why h = refl
refuse_if-not-eq-ok false why h = cc
