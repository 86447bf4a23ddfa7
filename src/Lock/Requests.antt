-- ===== src/Lock/Requests.antt =====
-- internal/handlers/tka.go: the requests that change a tailnet's lock, and a sequence of them.
use ionskale.Prelude.{ℕ, String, List, [], ◌∷◌}
use ionskale.Machine.{Bytes}
use ionskale.Lock.Db.{Db}
use ionskale.Lock.Tka.{TkaLib, Reply, ok, http, failure}
use ionskale.Lock.Handlers.{init_begin, init_finish, sync_send, disable, submit_signature}

-- A request that changes the database, as its handler is called.
pub data Request : Type 0 where
  begins : (node_key : String) (genesis : Bytes) → Request
  finishes : (node_key : String) (signatures : List (ℕ × Bytes)) (support : Bytes) → Request
  sends : (node_key : String) (missing : List Bytes) → Request
  disables : (node_key : String) (secret : Bytes) → Request
  submits : (node_key : String) (signature : Bytes) → Request

-- The database after a reply: an error leaves it as it was.
abbrev pub after {ℓ} : {A : Type ℓ} → Db → (A → Db) → Reply A → Db
after db f (ok a) = f a
after db f (http code) = db
after db f failure = db

unfoldable pub serve : TkaLib → Db → String × Request → Db
unfolding init_begin init_finish sync_send disable submit_signature
serve tka db (key, begins node_key genesis) =
    after db (λ r. r.1) (init_begin tka key db node_key genesis)
serve tka db (key, finishes node_key signatures support) =
    after db (λ r. r) (init_finish tka key db node_key signatures support)
serve tka db (key, sends node_key missing) =
    after db (λ r. r.1) (sync_send tka key db node_key missing)
serve tka db (key, disables node_key secret) =
    after db (λ r. r) (disable tka key db node_key secret)
serve tka db (key, submits node_key signature) =
    after db (λ r. r) (submit_signature tka key db node_key signature)

unfoldable pub run : TkaLib → Db → List (String × Request) → Db
unfolding serve
run tka db [] = db
run tka db (r ∷ rs) = run tka (serve tka db r) rs
