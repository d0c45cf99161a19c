-- ===== src/Tests/Execution.antt =====
-- The theorems on limiters and on requests with fallback at concrete inputs.
use unigateway.Prelude.{ℕ, ◌+◌, ◌/◌, ◌≡◌, refl, min, max, false, none, some, List, [], ◌∷◌, arith}
use unigateway.Prelude.Text.{Text}
use unigateway.Prelude.Dict.{lookup}
use unigateway.Core.Retry.{fallback}
use unigateway.Core.Aimd.{AdaptiveConcurrency, default_config, new, on_success, on_saturation}
use unigateway.Core.Aimd.Machine.{Event, begin_acquire, go, run, held}
use unigateway.Core.Aimd.Safety.{InRange, IsValid, all_idle, run-InRange}
use unigateway.Core.Aimd.Control.{
  saturation_cools_down, successes, successes_recover, Undisturbed, alone-Undisturbed,
}
use unigateway.Core.Fallback.{execute_with_fallback, driver_for_endpoint}
use unigateway.Core.Fallback.Accounting.{Accounted, execute_with_fallback-Accounted}
use unigateway.Core.Fallback.Failover.{Exhaustive, IsServed, fallback_exhausts}
use unigateway.Core.Fallback.Limiters.{Healthy, slots}
use unigateway.Core.Fallback.Slots.{IsAlone, owned, execute_with_fallback-slots}
use unigateway.Tests.Data.{east, west, both, snapshot, world, reply}

default_config-IsValid : IsValid default_config
default_config-IsValid = record {
  initial_ge = omega arith;
  initial_le = omega arith;
  word = omega arith;
}

-- Two threads race for a slot: one fails its first exchange, then both hold a guard.
abbrev race : List (ℕ × Event)
race =
    (0, begin_acquire (some 1))
    ∷ (1, begin_acquire none)
    ∷ (0, go false)
    ∷ (1, go false)
    ∷ (0, go false)
    ∷ (1, go false)
    ∷ (1, go false)
    ∷ (1, go false)
    ∷ []

run-InRange_example :
    InRange 2 100
      (held (run race (new default_config) (all_idle 2)).1)
      (run race (new default_config) (all_idle 2)).0
run-InRange_example = run-InRange default_config 2 race default_config-IsValid

abbrev loaded : AdaptiveConcurrency
loaded = record {
  config = default_config;
  current_limit = 40;
  ssthresh = 60;
  active_connections = 3;
  cooldown_until = 0;
}

saturation_cools_down_example :
    ((on_saturation 10 loaded).current_limit ≡ max (40 / 2) 2)
    × ((on_saturation 10 loaded).ssthresh ≡ (on_saturation 10 loaded).current_limit)
    × (on_saturation 500 (on_saturation 10 loaded) ≡ on_saturation 10 loaded)
    × (on_success 500 (on_saturation 10 loaded) ≡ on_saturation 10 loaded)
saturation_cools_down_example =
    saturation_cools_down loaded 10 500 (omega arith) (omega arith) (omega arith)

successes_recover_example : (successes (5 ∷ 6 ∷ []) loaded).current_limit ≡ min (40 + 2) 100
successes_recover_example =
    successes_recover (5 ∷ 6 ∷ []) loaded (omega arith) (omega arith) (omega arith)
      (omega arith, (omega arith, tt))

alone-Undisturbed_example : Undisturbed loaded (some 8) 20
alone-Undisturbed_example =
    alone-Undisturbed loaded (some 8) 20
      (record {
        word = omega arith;
        threshold = omega arith;
        limit = omega arith;
        slots = omega arith;
      })
      (omega arith)

world-IsAlone : IsAlone world
world-IsAlone = record { before = λ i m. refl; meanwhile = λ i m. refl; afterwards = λ i m. refl }

none-Healthy : Healthy default_config []
unfolding lookup
none-Healthy id a e = cc

execute_with_fallback-slots_example :
    Healthy default_config (execute_with_fallback world (snapshot fallback) both []).1.aimd_states
    × ((j : Text)
        → slots j (execute_with_fallback world (snapshot fallback) both []).1.aimd_states
          ≡ slots j [] + owned (execute_with_fallback world (snapshot fallback) both []).0 j)
execute_with_fallback-slots_example =
    execute_with_fallback-slots world (snapshot fallback) both [] world-IsAlone
      default_config-IsValid none-Healthy

execute_with_fallback-Accounted_example :
    Accounted
      (snapshot fallback)
      2
      (execute_with_fallback world (snapshot fallback) both []).0
      (execute_with_fallback world (snapshot fallback) both []).1
execute_with_fallback-Accounted_example =
    execute_with_fallback-Accounted world (snapshot fallback) both [] (λ e. cc)

east-IsServed : IsServed world east
unfolding driver_for_endpoint
east-IsServed = record { driver = reply; registered = refl; answers = λ i context. ground arith }

west-IsServed : IsServed world west
unfolding driver_for_endpoint
west-IsServed = record { driver = reply; registered = refl; answers = λ i context. ground arith }

fallback_exhausts_example :
    Exhaustive 2
      (execute_with_fallback world (snapshot fallback) both []).0
      (execute_with_fallback world (snapshot fallback) both []).1
fallback_exhausts_example =
    fallback_exhausts world (snapshot fallback) both [] refl (east-IsServed, (west-IsServed, tt))
