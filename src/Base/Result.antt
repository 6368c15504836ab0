-- ===== src/Base/Result.antt =====
-- Results that may be an error, for errors of any type.
use mathlib.Core.Path.{◌≡◌, refl, ap}
use mathlib.Core.Option.{Option, none, some}
use mathlib.Core.Bool.{Bool, true, false}

pub data Result {ℓ} (E : Type 0) (A : Type ℓ) : Type ℓ where
  ok : A → Result E A
  err : E → Result E A

infixl 5 ◌>>=◌ ◌>>◌
unfoldable pub ◌>>=◌ {ℓ κ} :
    {E : Type 0} {A : Type ℓ} {B : Type κ} → Result E A → (A → Result E B) → Result E B
ok a >>= f = f a
err e >>= f = err e

abbrev pub ◌>>◌ {ℓ} : {E : Type 0} {B : Type ℓ} → Result E (Unit {0}) → Result E B → Result E B
m >> k = m >>= λ _. k

abbrev pub err_if : {E : Type 0} → Bool → E → Result E (Unit {0})
err_if true e = err e
err_if false e = ok tt

abbrev pub ok_or {ℓ} : {E : Type 0} {A : Type ℓ} → E → Option A → Result E A
ok_or e none = err e
ok_or e (some a) = ok a

-- The error of a call that another package makes, as one of its own.
abbrev pub map_err {ℓ} : {E F : Type 0} {A : Type ℓ} → (E → F) → Result E A → Result F A
map_err f (ok a) = ok a
map_err f (err e) = err (f e)

-- A sequence ends well only if each part does.
pub >>=-eq-ok {ℓ κ} :
    {E : Type 0} {A : Type ℓ} {B : Type κ} (m : Result E A) (f : A → Result E B) {b : B}
    → (m >>= f) ≡ ok b
    → (a : A) × (m ≡ ok a) × (f a ≡ ok b)
unfolding ◌>>=◌
>>=-eq-ok (ok a) f h = (a, refl, h)
>>=-eq-ok (err e) f h = cc

pub err_if-eq-ok : {E : Type 0} (b : Bool) (e : E) {u : Unit {0}} → err_if b e ≡ ok u → b ≡ false
err_if-eq-ok true e h = cc
err_if-eq-ok false e h = refl

pub ok_or-eq-ok {ℓ} :
    {E : Type 0} {A : Type ℓ} (e : E) (o : Option A) {a : A} → ok_or e o ≡ ok a → o ≡ some a
ok_or-eq-ok e none h = cc
ok_or-eq-ok e (some x) h = cc

pub map_err-eq-ok {ℓ} :
    {E F : Type 0} {A : Type ℓ} (f : E → F) (m : Result E A) {a : A} → map_err f m ≡ ok a → m ≡ ok a
map_err-eq-ok f (ok x) h = cc
map_err-eq-ok f (err e) h = cc

pub ok_injective {ℓ} :
    {E : Type 0} {A : Type ℓ} {a b : A} → (let r : Result E A = ok a in r) ≡ ok b → a ≡ b
ok_injective {a} h = ap (λ r. elim r [ ok x ↦ x | err e ↦ a ]) h
