-- ===== src/Tests/Waits.antt =====
-- The loops that wait, at the small cluster.
use gc_runtime_nomad.Base.{◌+◌, some, ◌≡◌, refl, arith}
use gc_runtime_nomad.Lifecycle.World.Fuel.{IsClock}
use gc_runtime_nomad.Lifecycle.Stop.{await_flush, flush_rounds}
use gc_runtime_nomad.Lifecycle.Stop.Fuel.{await_flush-rounds}
use gc_runtime_nomad.Lifecycle.Launch.{verify_loop}
use gc_runtime_nomad.Lifecycle.Launch.Fuel.{verify_loop-looks}
use gc_runtime_nomad.Lifecycle.Alloc.{retry_alloc_exec_ready}
use gc_runtime_nomad.Lifecycle.Alloc.Retry.{IsLastRun, retry_alloc_exec_ready-IsLastRun}
use gc_runtime_nomad.Lifecycle.Placing.{placed_from}
use gc_runtime_nomad.Lifecycle.Placing.Fuel.{placed_from-looks}
use gc_runtime_nomad.Lifecycle.World.{raise}
use gc_runtime_nomad.Lifecycle.Error.{sentinel, alloc_not_ready}
use gc_runtime_nomad.Tests.Cluster.{small, bound, empty_world}

small-IsClock : IsClock small (λ n. n)
small-IsClock = record {
  reads = λ n. refl;
  ticks = λ n. omega arith;
  sleeps = λ d n. omega arith;
  runs = λ alloc task command n. omega arith;
  lists = λ job since wait n. omega arith;
}

await_flush-rounds_example :
    await_flush small flush_rounds 15_000_000_000 "a1" empty_world
    ≡ await_flush small (flush_rounds + 5) 15_000_000_000 "a1" empty_world
await_flush-rounds_example =
    await_flush-rounds small (λ n. n) small-IsClock 15_000_000_000 5 "a1" empty_world (omega arith)

verify_loop-looks_example :
    verify_loop small 7 3_000_000_000 "a1" "" empty_world
    ≡ verify_loop small (7 + 4) 3_000_000_000 "a1" "" empty_world
verify_loop-looks_example =
    verify_loop-looks small (λ n. n) small-IsClock 3_000_000_000 4 "a1" "" empty_world (omega arith)

retry_alloc_exec_ready-IsLastRun_example :
    IsLastRun {A = Unit {0}} small
      (raise (sentinel alloc_not_ready))
      19
      empty_world
      (retry_alloc_exec_ready small (raise (sentinel alloc_not_ready)) empty_world)
retry_alloc_exec_ready-IsLastRun_example =
    retry_alloc_exec_ready-IsLastRun small (raise (sentinel alloc_not_ready)) empty_world

placed_from-looks_example :
    placed_from small 32 (some bound) empty_world ≡ placed_from small 41 (some bound) empty_world
placed_from-looks_example =
    placed_from-looks small (λ n. n) small-IsClock 41 (some bound) empty_world (omega arith)
