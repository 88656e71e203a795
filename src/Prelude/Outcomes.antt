-- ===== src/Prelude/Outcomes.antt =====
-- What code that throws gives: the error, or the value that it returns.
use mathlib.Core.Path.{◌≡◌, refl}
use mathlib.Core.Bool.{Bool, true, false}

pub data Fallible {ℓ} (E : Type 0) (A : Type ℓ) : Type ℓ where
  err : E → Fallible E A
  ok : A → Fallible E A

-- The statements of a function, one after the other, up to the first that throws.
infixl 5 ◌>>=◌ ◌>>◌
abbrev pub ◌>>=◌ {ℓ κ} :
    {E : Type 0} {A : Type ℓ} {B : Type κ} → Fallible E A → (A → Fallible E B) → Fallible E B
err thrown >>= next = err thrown
ok value >>= next = next value

abbrev pub ◌>>◌ {κ} :
    {E : Type 0} {B : Type κ} → Fallible E (Unit {0}) → Fallible E B → Fallible E B
first >> second = first >>= (λ done. second)

-- `if (test) throw e;`
abbrev pub refuse : {E : Type 0} → Bool → E → Fallible E (Unit {0})
refuse false e = ok tt
refuse true e = err e

pub ok_inj {ℓ} : {E : Type 0} {A : Type ℓ} {x y : A} → Path (Fallible E A) (ok x) (ok y) → x ≡ y
ok_inj same = cc

-- Where both statements were passed.
pub >>=-ok {ℓ κ} :
    {E : Type 0} {A : Type ℓ} {B : Type κ} {last : B} (first : Fallible E A)
    (next : A → Fallible E B)
    → (first >>= next) ≡ ok last
    → (mid : A) × (first ≡ ok mid) × (next mid ≡ ok last)
>>=-ok (err thrown) next h = cc
>>=-ok (ok mid) next h = (mid, refl, h)
