-- ===== src/Lock/Ensures.antt =====
-- internal/handlers/tka.go: how to say what a handler's answer satisfies, where it gives one.
use ionskale.Prelude.{
  ==_iff, arith, ◌==◌, Bool-cases, inl, inr, ℕ, Bool, true, false, ◌≡◌, refl, subst,
}
use ionskale.Lock.Db.{LockState, Db, get_lock, save_lock}
use ionskale.Lock.Tka.{Reply, ok, http, failure, ◌>>=◌, require}

-- What holds of the value that a handler returns, where it returns one.
pub record Ensures {ℓ} {A : Type ℓ} (P : A → Type 0) (r : Reply A) : Type ℓ where
  pub holds : (a : A) → r ≡ ok a → P a

pub >>=-Ensures {ℓ κ} :
    {A : Type ℓ} {B : Type κ} (P : B → Type 0) (m : Reply A) (f : A → Reply B)
    → ((a : A) → m ≡ ok a → Ensures P (f a))
    → Ensures P (m >>= f)
unfolding ◌>>=◌
>>=-Ensures P (ok a) f h = h a refl
>>=-Ensures P (http code) f h = record { holds = λ b e. cc }
>>=-Ensures P failure f h = record { holds = λ b e. cc }

pub ok-Ensures {ℓ} : {A : Type ℓ} (P : A → Type 0) (a : A) → P a → Ensures P (ok a)
ok-Ensures P a p = record { holds = λ b e. subst P (cc) p }

pub require-true : (b : Bool) (code : ℕ) (u : Unit) → require b code ≡ ok u → b ≡ true
require-true true code u e = refl
require-true false code u e = cc

-- The row that was saved is the row that is read.
pub get_lock-save_lock : (db : Db) (t : ℕ) (s : LockState) → get_lock (save_lock db t s) t ≡ s
unfolding get_lock save_lock
get_lock-save_lock db t s = elim (Bool-cases (t == t)) [
  | inl e ↦ rw e refl
  | inr e ↦ ground (arith, ==_iff t t)
]
