-- ===== src/Netip/Laws.antt =====
-- Containment of addresses in prefixes.
use native.Mathlib.Nat.{div-div-eq-div-mul, mul-div_cancel, one-le-pow, pow-suc, add-suc, add-zero}
use ionskale.Prelude.{
  ℕ, zero, suc, ◌+◌, ◌-◌, ◌*◌, ◌/◌, ◌^◌, ◌≤◌, Bool, true, ◌↔◌, ◌≡◌, refl, ap, ◌∙◌, arith, eq_iff,
  ==_iff,
}
use ionskale.Netip.{Addr, Prefix, bit_len, same_bool, leading, contains_addr, masked}

pow-add : (m n : ℕ) → 2 ^ (m + n) ≡ 2 ^ m * 2 ^ n
pow-add m zero = rw add-zero (omega arith)
pow-add m (suc n) =
    rw (add-suc, pow-suc, pow-suc) (omega (arith, ap (λ (t : ℕ). t * 2) (pow-add m n)))

shift_more : (u v i j : ℕ) → u / 2 ^ i ≡ v / 2 ^ i → u / 2 ^ (i + j) ≡ v / 2 ^ (i + j)
shift_more u v i j e =
    rw (pow-add i j, ← div-div-eq-div-mul u (2 ^ i) (2 ^ j), ← div-div-eq-div-mul v (2 ^ i) (2 ^ j))
      (ap (λ (t : ℕ). t / 2 ^ j) e)

shift_to : (u v i k : ℕ) → i ≤ k → u / 2 ^ i ≡ v / 2 ^ i → u / 2 ^ k ≡ v / 2 ^ k
shift_to u v i k h e =
    let split : k ≡ i + (k - i) = omega arith in rw split (shift_more u v i (k - i) e)

-- Two addresses of one family that agree on `n` leading bits agree on fewer.
pub leading_mono :
    (a b : Addr) (m n : ℕ)
    → a.is4 ≡ b.is4
    → m ≤ n
    → leading a n ≡ leading b n
    → leading a m ≡ leading b m
leading_mono a b m n w h e =
    rw w (shift_to a.value b.value (bit_len b - n) (bit_len b - m) (omega arith) (rw w at e))

masked-is4 : (p : Prefix) → (masked p).addr.is4 ≡ p.addr.is4
unfolding masked
masked-is4 p = refl

-- Masking keeps the bits that the prefix fixes.
pub leading-masked : (p : Prefix) → leading (masked p).addr p.bits ≡ leading p.addr p.bits
unfolding masked
leading-masked p =
    mul-div_cancel (leading p.addr p.bits) (one-le-pow (bit_len p.addr - p.bits) 2 (omega arith))

same_bool_eq : (x y : Bool) → same_bool x y ≡ true → x ≡ y
same_bool_eq x y h = ground arith

same_bool_refl : (x : Bool) → same_bool x x ≡ true
same_bool_refl x = ground arith

abbrev Covers : Prefix → Addr → Type 0
Covers p a = (a.zone ≡ "") × (p.addr.is4 ≡ a.is4) × (leading p.addr p.bits ≡ leading a p.bits)

-- An address lies in a prefix exactly when it has no zone, is of its family, and has its bits.
pub contains_addr_iff : (p : Prefix) (a : Addr) → (contains_addr p a ≡ true) ↔ Covers p a
unfolding contains_addr
contains_addr_iff p a = (
  λ h. (
    (eq_iff a.zone "").0 (ground arith),
    same_bool_eq p.addr.is4 a.is4 (ground arith),
    (==_iff (leading p.addr p.bits) (leading a p.bits)).0 (ground arith),
  ),
  λ c. rw (
    (eq_iff a.zone "").1 c.0,
    (==_iff (leading p.addr p.bits) (leading a p.bits)).1 c.2,
    c.1,
    same_bool_refl a.is4,
  ),
)

-- A prefix that is at least as long, and whose first address another contains, lies inside it.
pub contains_addr_trans :
    (p c : Prefix) (a : Addr)
    → p.bits ≤ c.bits
    → contains_addr p (masked c).addr ≡ true
    → contains_addr c a ≡ true
    → contains_addr p a ≡ true
contains_addr_trans p c a h k e =
    let (_, family, bits) = (contains_addr_iff p (masked c).addr).0 k in
    let (zone, family', bits') = (contains_addr_iff c a).0 e in
    (contains_addr_iff p a).1 (
      zone,
      family ∙ masked-is4 c ∙ family',
      bits
          ∙ leading_mono (masked c).addr c.addr p.bits c.bits (masked-is4 c) h (leading-masked c)
          ∙ leading_mono c.addr a p.bits c.bits family' h bits',
    )
