-- ===== src/Prelude/Outcome.antt =====
-- Python functions that may raise: a value, or the exception that ended the call.
use mathlib.Core.Path.{◌≡◌, refl}

pub data Result {ℓ κ} (E : Type κ) (A : Type ℓ) : Type (ℓ ⊔ κ) where
  ok : (value : A) → Result E A
  err : (raised : E) → Result E A

-- A statement whose value is not used.
infixl 5 ◌>>◌
abbrev pub ◌>>◌ {κ ι} : {E : Type κ} {B : Type ι} → Result E (Unit {0}) → Result E B → Result E B
check >> rest = elim check [ ok _ ↦ rest | err raised ↦ err raised ]

infixl 5 ◌>>=◌
abbrev pub ◌>>=◌ {κ ℓ ι} :
    {E : Type κ} {A : Type ℓ} {B : Type ι} (call : Result E A) (after : A → Result E B) → Result E B
call >>= after = elim call [ ok value ↦ after value | err raised ↦ err raised ]

-- A call that went through, and so did what comes after it.
pub >>=-eq-ok {κ ℓ ι} :
    {E : Type κ} {A : Type ℓ} {B : Type ι} (call : Result E A) (after : A → Result E B) {b : B}
    (returned : (call >>= after) ≡ ok b)
    → (value : A) × (call ≡ ok value) × (after value ≡ ok b)
>>=-eq-ok (err raised) after returned = cc
>>=-eq-ok (ok value) after returned = (value, refl, returned)

-- How an `await` ends: `except Exception` catches what is raised, and no cancellation.
pub data Await {ℓ} (A : Type ℓ) : Type ℓ where
  returned : A → Await A
  raised : Await A
  cancelled : Await A
