-- ===== src/Registration/Addresses.antt =====
-- internal/handlers/registration.go: the addresses of the machines, and the address that `checkIP` lets
-- through.
use ionskale.Prelude.{
  List, [], ◌∷◌, true, false, some, ◌≡◌, ◌≢◌, ◌⊎◌, inl, inr, ap, sym, ◌∙◌, subst, arith, Bool-cases,
  ◌==◌, length, keep, Any, eq_refl, some_inj,
}
use ionskale.Netip.{Addr, same_addr}
use ionskale.Machine.{Machine}
use ionskale.Lock.Db.{Db, save_machine}
use ionskale.Store.{count_machines_with_ipv4}
use ionskale.Store.Rows.{Row}
use ionskale.Store.Saves.{Row-save_machine}
use ionskale.Registration.Handlers.{check_ip}

-- No two machines have one IPv4 address.
abbrev pub HasUniqueAddresses : Db → Type 0
HasUniqueAddresses db = (n k : Machine) → Row n db → Row k db → n.ipv4 ≡ k.ipv4 → n.id ≡ k.id

same_addr_refl : (a : Addr) → same_addr a a ≡ true
unfolding same_addr
same_addr_refl a = ground (arith, eq_refl a.zone)

counted :
    (ip : Addr) (ms : List Machine) (k : Machine)
    → Any (λ n. n ≡ k) ms
    → k.ipv4 ≡ ip
    → (length (keep (λ m. same_addr m.ipv4 ip) ms) == 0) ≡ false
counted ip [] k at e = absurd at
counted ip (m ∷ ms) k (inl f) e =
    let same : same_addr m.ipv4 ip ≡ true =
      subst (λ a. same_addr a ip ≡ true) (sym (ap (λ j. j.ipv4) f ∙ e)) (same_addr_refl ip) in
    rw same (ground arith)
counted ip (m ∷ ms) k (inr at) e = elim (Bool-cases (same_addr m.ipv4 ip)) [
  | inl same ↦ rw same (ground arith)
  | inr other ↦ rw other (counted ip ms k at e)
]

-- An address that passed `checkIP` is no row's.
pub unused_address :
    (db : Db) (ip : Addr) (k : Machine) → check_ip db ip ≡ some true → Row k db → k.ipv4 ≢ ip
unfolding check_ip count_machines_with_ipv4
unused_address db ip k h at e =
    let none_there = some_inj h in let some_there = counted ip db.machines k at e in cc

-- A saved machine whose address is its row's, or no row's.
pub save-HasUniqueAddresses :
    (db : Db) (m : Machine)
    → HasUniqueAddresses db
    → ((k : Machine) → Row k db → k.ipv4 ≡ m.ipv4 → k.id ≡ m.id)
    → HasUniqueAddresses (save_machine db m)
save-HasUniqueAddresses db m h own n k at_n at_k same =
    unique (Row-save_machine db m n at_n) (Row-save_machine db m k at_k)
  where
    unique :
        (m ≡ n) ⊎ (Row n db × (n.id ≢ m.id)) → (m ≡ k) ⊎ (Row k db × (k.id ≢ m.id)) → n.id ≡ k.id
    unique (inl e) (inl f) = ap (λ j. j.id) (sym e ∙ f)
    unique (inl e) (inr (at, other)) =
        absurd (other (own k at (sym same ∙ ap (λ j. j.ipv4) (sym e))))
    unique (inr (at, other)) (inl f) = absurd (other (own n at (same ∙ ap (λ j. j.ipv4) (sym f))))
    unique (inr (at, _)) (inr (there, _)) = h n k at there same
