-- ===== src/Examples/Polling.antt =====
-- Machine 1 polls twice, and its first poll ends late.
use ionskale.Prelude.{ℕ, [], false, true, not, ◌≡◌, refl, all}
use ionskale.Pollers.{
  Manager, new_manager, register, deregister, notify_all, fire, has_session, is_in, Reachable,
  starts, continues, registers, deregisters, notifies, fires,
}
use ionskale.Pollers.Safety.{Reachable-has_session}
use ionskale.Pollers.Targets.{has_target}

abbrev first : Manager
first = register 1 7 new_manager

abbrev second : Manager
second = register 1 8 (fire 20 1 first)

abbrev late : Manager
late = notify_all 20 [] (deregister 1 7 second)

late-Reachable : Reachable 20 late
unfolding register fire
late-Reachable =
    continues _ _
      (continues _ _
        (continues _ _
          (continues _ _ (continues _ _ starts (registers new_manager 1 7 refl)) (fires first 1))
          (registers (fire 20 1 first) 1 8 refl))
        (deregisters second 1 7))
      (notifies (deregister 1 7 second) [])

Reachable-has_session_example :
    (late.panicked ≡ false)
    × (all (λ t. not (is_in late.closed t.1)) late.targets ≡ true)
    × ((m : ℕ) → has_session late m ≡ has_target late.targets m)
Reachable-has_session_example = Reachable-has_session 20 late late-Reachable
