-- ===== src/Pollers/Targets.antt =====
-- internal/core/session_manager.go: the map of targets, with one removed.
use ionskale.Prelude.{
  ℕ, List, [], ◌∷◌, Bool, true, false, not, ◌&&◌, ◌≡◌, refl, arith, ◌==◌, ==_iff, some, any, all,
}
use ionskale.Pollers.{is_in, find_target, without}

-- The channels of the targets are open.
abbrev pub are_open : List ℕ → List (ℕ × ℕ) → Bool
are_open closed ts = all (λ t. not (is_in closed t.1)) ts

-- No channel belongs to two targets.
abbrev pub are_distinct : List (ℕ × ℕ) → Bool
are_distinct [] = true
are_distinct (t ∷ ts) = not (any (λ u. u.1 == t.1) ts) && are_distinct ts

abbrev pub has_target : List (ℕ × ℕ) → ℕ → Bool
has_target ts m = any (λ t. t.0 == m) ts

pub without-are_open :
    (closed : List ℕ) (m : ℕ) (ts : List (ℕ × ℕ))
    → are_open closed ts ≡ true
    → are_open closed (without m ts) ≡ true
without-are_open closed m [] h = refl
without-are_open closed m (t ∷ ts) h = ground (arith, without-are_open closed m ts)

pub without-any :
    (m c : ℕ) (ts : List (ℕ × ℕ))
    → any (λ u. u.1 == c) ts ≡ false
    → any (λ u. u.1 == c) (without m ts) ≡ false
without-any m c [] h = refl
without-any m c (t ∷ ts) h = ground (arith, without-any m c ts)

pub without-are_distinct :
    (m : ℕ) (ts : List (ℕ × ℕ)) → are_distinct ts ≡ true → are_distinct (without m ts) ≡ true
without-are_distinct m [] h = refl
without-are_distinct m (t ∷ ts) h = ground (arith, without-any m t.1 ts, without-are_distinct m ts)

pub without-has_target :
    (m j : ℕ) (ts : List (ℕ × ℕ)) → has_target (without m ts) j ≡ (not (m == j) && has_target ts j)
without-has_target m j [] = ground arith
without-has_target m j (t ∷ ts) =
    ground (arith, without-has_target m j ts, ==_iff t.0 m, ==_iff m j, ==_iff t.0 j)

pub find_target-any :
    (m c : ℕ) (ts : List (ℕ × ℕ)) → find_target ts m ≡ some c → any (λ u. u.1 == c) ts ≡ true
find_target-any m c [] h = cc
find_target-any m c (t ∷ ts) h = ground (arith, find_target-any m c ts, ==_iff t.1 c)

-- The channel that is closed is open before, and no other target has it.
pub find_target-open :
    (closed : List ℕ) (m c : ℕ) (ts : List (ℕ × ℕ))
    → find_target ts m ≡ some c
    → are_open closed ts ≡ true
    → is_in closed c ≡ false
find_target-open closed m c [] h o = cc
find_target-open closed m c (t ∷ ts) h o =
    ground (arith, find_target-open closed m c ts, ==_iff t.1 c)

pub shut-are_open :
    (closed : List ℕ) (c : ℕ) (ts : List (ℕ × ℕ))
    → any (λ u. u.1 == c) ts ≡ false
    → are_open closed ts ≡ true
    → are_open (c ∷ closed) ts ≡ true
shut-are_open closed c [] h o = refl
shut-are_open closed c (t ∷ ts) h o =
    ground (arith, shut-are_open closed c ts, ==_iff c t.1, ==_iff t.1 c)

pub without-elsewhere :
    (m c : ℕ) (ts : List (ℕ × ℕ))
    → find_target ts m ≡ some c
    → are_distinct ts ≡ true
    → any (λ u. u.1 == c) (without m ts) ≡ false
without-elsewhere m c [] h d = cc
without-elsewhere m c (t ∷ ts) h d =
    ground
      (arith, without-elsewhere m c ts, without-any m c ts, find_target-any m c ts, ==_iff t.1 c)
