-- ===== src/Examples/Addresses.antt =====
-- A range of four addresses, one of which is no Tailscale address and one of which is taken.
use ionskale.Prelude.{ℕ, ◌<◌, ◌≡◌, refl, true, false, not, some, ◌==◌, arith, Bool-cases, inl, inr}
use ionskale.Netip.{Addr}
use ionskale.Address.{Range, Predicate, selected, validate_ip, select_ip}
use ionskale.Address.Search.{
  IsFree, IsFirstFree, NeverFails, select_ip-IsFirstFree, select_ip-IsFree,
}
use ionskale.Examples.Data.{v4, v6}

abbrev pub small_range : Range
small_range = record {
  ipv4_count = 4;
  host_big = λ n. some (v4 n);
  is_tailscale_ip = λ a. not (a.value == 3);
  tailscale4_to6 = λ a. v6 a.value;
}

abbrev not_taken : Predicate
not_taken ip = some (not (ip.value == 0))

never_fails : NeverFails small_range (some not_taken)
unfolding validate_ip
never_fails = (
  λ n h. (v4 n, refl),
  λ ip. elim (Bool-cases (ip.value == 3)) [
    | inl e ↦ (false, rw e refl)
    | inr e ↦ (not (ip.value == 0), rw e refl)
  ],
)

-- From 3 on: 3 is none of ours and 0 is taken.
select_ip_runs : select_ip small_range (some not_taken) 3 ≡ selected (v4 1, v6 1)
unfolding select_ip
select_ip_runs = refl

two_works : IsFree small_range (some not_taken) 2
unfolding validate_ip
two_works = (v4 2, refl, refl)

select_ip-IsFirstFree_example :
    (d : ℕ) × (ip : Addr) × (select_ip small_range (some not_taken) 3 ≡ selected (ip, v6 ip.value))
    × IsFirstFree small_range (some not_taken) 3 d ip
select_ip-IsFirstFree_example =
    select_ip-IsFirstFree small_range (some not_taken) 3 2 never_fails (omega arith) (omega arith)
      two_works

select_ip-IsFree_example :
    ((k : ℕ) × (k < 4) × (some (v4 k) ≡ some (v4 1)))
    × (not (1 == 3) ≡ true)
    × (some (not (1 == 0)) ≡ some true)
    × (v6 1 ≡ v6 1)
select_ip-IsFree_example =
    select_ip-IsFree small_range not_taken 3 (v4 1) (v6 1) (omega arith) select_ip_runs
