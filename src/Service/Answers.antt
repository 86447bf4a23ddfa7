-- ===== src/Service/Answers.antt =====
-- The answers of a handler: what an answer says of the parts of a chain.
use ionskale.Prelude.{Bool, true, false, Option, none, some, ◌≡◌, refl, ap}
use ionskale.Service.{
  Answer, answer, refused, internal, crash, Code, ◌>>=◌, or_refused, or_internal, demand,
}

pub answer_inj {ℓ} : {A : Type ℓ} {a b : A} → answer a ≡ answer b → a ≡ b
answer_inj h = cc

pub >>=-answer :
    {A B : Type 0} (r : Answer A) (f : A → Answer B) (b : B)
    → (r >>= f) ≡ answer b
    → (a : A) × (r ≡ answer a) × (f a ≡ answer b)
>>=-answer (answer a) f b h = (a, refl, h)
>>=-answer (refused code) f b h = absurd (let z : refused code ≡ answer b = h in cc)
>>=-answer internal f b h = absurd (let z : internal ≡ answer b = h in cc)
>>=-answer crash f b h = absurd (let z : crash ≡ answer b = h in cc)

pub or_refused-answer :
    {A : Type 0} (o : Option A) (code : Code) (a : A) → or_refused o code ≡ answer a → o ≡ some a
or_refused-answer none code a h = absurd (let z : refused code ≡ answer a = h in cc)
or_refused-answer (some b) code a h = ap some (answer_inj h)

pub or_internal-answer : {A : Type 0} (o : Option A) (a : A) → or_internal o ≡ answer a → o ≡ some a
or_internal-answer none a h = absurd (let z : internal ≡ answer a = h in cc)
or_internal-answer (some b) a h = ap some (answer_inj h)

pub demand-true : (b : Bool) (code : Code) (u : Unit {0}) → demand b code ≡ answer u → b ≡ true
demand-true true code u h = refl
demand-true false code u h = cc
