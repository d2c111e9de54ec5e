-- ===== src/Lifecycle/Stop/Fuel.antt =====
-- The rounds that flushLogShipper takes (runtime/ops.go, flushLogShipper).
use Prim.Native.Nat.{min}
use gc_runtime_nomad.Base.{
  ℕ, zero, suc, ◌+◌, ◌-◌, ◌*◌, ◌≤◌, false, [], ◌∷◌, String, ◌≡◌, refl, ap, ◌∙◌, subst, leb, ◌==◌,
  arith,
}
use gc_runtime_nomad.Lifecycle.World.{Lifecycle, World, M, annotate, call}
use gc_runtime_nomad.Lifecycle.World.Outcomes.{Returns, call-Returns, annotate-Returns}
use gc_runtime_nomad.Lifecycle.World.Fuel.{IsClock, read_time, slept, bind_agree, if_agree}
use gc_runtime_nomad.Lifecycle.Alloc.{exec_task_name}
use gc_runtime_nomad.Lifecycle.Stop.{
  flush_poll, flush_timeout, flush_rounds, flush_again, await_flush,
}

module _ {N : Type 0} (l : Lifecycle N) (time : N → ℕ) (clock : IsClock l time) (deadline : ℕ) where
  -- `f` more rounds reach the deadline.
  abbrev Reaches : ℕ → World N → Type 0
  Reaches f w = deadline ≤ time w.outside + f * flush_poll

  -- After the sleep one round less reaches the deadline, and there was a round left.
  resumes :
      (f now : ℕ) (w v x : World N)
      → Reaches f w
      → (now ≡ time w.outside) × (time w.outside ≤ time v.outside)
      → leb deadline now ≡ false
      → time v.outside + min flush_poll (deadline - now) ≤ time x.outside
      → (g : ℕ) × (f ≡ suc g) × Reaches g x
  resumes zero now w v x h read early sleep = absurd (ground (arith, h, read.0, read.1, early))
  resumes (suc g) now w v x h read early sleep = (g, refl, omega (arith, h, read.0, read.1, sleep))

  again_agree :
      (f exit_code : ℕ) (next next' : M N (Unit {0})) (w : World N)
      → Reaches f w
      → ((g : ℕ) (v : World N) → f ≡ suc g → Reaches g v → next v ≡ next' v)
      → flush_again l deadline next exit_code w ≡ flush_again l deadline next' exit_code w
  unfolding flush_again
  again_agree f exit_code next next' w h same =
      if_agree (exit_code == 0) _ _ _ _ w (λ _. refl)
        λ _. bind_agree _ _ _ w λ now v read.
          if_agree (leb deadline now) _ _ _ _ v (λ _. refl)
            λ early. bind_agree _ _ _ v λ u x sleeping.
              let (g, left, reach) =
                resumes f now w v x h (read_time l time clock now w v read) early
                  (slept l time clock _ u v x sleeping) in
              same g x left reach

  -- The probe takes no time back.
  probed :
      (alloc : String) (answer : ℕ × String) (w v : World N)
      → Returns
          (annotate "flushing log shipper: waiting for completion" (
            call (
              l.client.exec_alloc alloc exec_task_name
                ("/bin/sh" ∷ "-c" ∷ l.log_shipper_flush_probe ∷ []))))
          w
          answer
          v
      → time w.outside ≤ time v.outside
  probed alloc answer w v p =
      subst (λ x. time w.outside ≤ time x.1)
        ((call-Returns _ answer w v (annotate-Returns _ _ answer w v p)).0)
        (clock.runs alloc exec_task_name _ w.outside)

  round_agree :
      (f m m' : ℕ) (alloc : String) (w : World N)
      → Reaches f w
      → ((g : ℕ) (v : World N)
          → f ≡ suc g
          → Reaches g v
          → await_flush l m deadline alloc v ≡ await_flush l m' deadline alloc v)
      → await_flush l (suc m) deadline alloc w ≡ await_flush l (suc m') deadline alloc w
  unfolding await_flush
  round_agree f m m' alloc w h same = bind_agree _ _ _ w λ answer v probe.
      again_agree f answer.0 _ _ v (omega (arith, h, probed alloc answer w v probe)) same

  await_agree :
      (f m : ℕ) (alloc : String) (w : World N)
      → Reaches f w
      → f ≤ m
      → await_flush l (suc f) deadline alloc w ≡ await_flush l (suc m) deadline alloc w
  await_agree zero m alloc w h le =
      round_agree zero zero m alloc w h λ g v left reach. absurd (omega (arith, left))
  await_agree (suc f) zero alloc w h le = absurd (omega (arith, le))
  await_agree (suc f) (suc m) alloc w h le =
      round_agree (suc f) (suc f) (suc m) alloc w h
        λ g v left reach. await_agree f m alloc v (omega (arith, left, reach)) (omega (arith, le))

-- If time does not run backwards, the wait for the log shipper gets enough rounds: from the start of
-- the wait, 601 rounds and any greater number end with the same result in the same world, so the
-- loop ends for one of its own reasons.
pub await_flush-rounds :
    {N : Type 0} (l : Lifecycle N) (time : N → ℕ) (clock : IsClock l time) (deadline more : ℕ)
    (alloc : String) (w : World N)
    → deadline ≤ time w.outside + flush_timeout
    → await_flush l flush_rounds deadline alloc w
      ≡ await_flush l (flush_rounds + more) deadline alloc w
await_flush-rounds l time clock deadline more alloc w h =
    await_agree l time clock deadline 600 (600 + more) alloc w (omega (arith, h)) (omega arith)
    ∙ ap (λ m. await_flush l m deadline alloc w) (omega arith)
