-- ===== src/Lifecycle/Launch/Fuel.antt =====
-- The looks that verifyPaneRunsAgent takes (runtime/ops.go, verifyPaneRunsAgent).
use gc_runtime_nomad.Base.{
  ℕ, zero, suc, ◌+◌, ◌*◌, ◌≤◌, true, not, List, String, ◌≡◌, refl, ap, ◌∙◌, subst, leb, ◌==◌, arith,
}
use gc_runtime_nomad.Lifecycle.Error.{Result, ok, err}
use gc_runtime_nomad.Lifecycle.World.{Lifecycle, World, M, call, ◌>>=◌}
use gc_runtime_nomad.Lifecycle.World.Keeping.{
  Keeps, Keeps-bind, Keeps-attempt, Keeps-pure, Keeps-raise, Keeps-if,
}
use gc_runtime_nomad.Lifecycle.World.Outcomes.{Returns}
use gc_runtime_nomad.Lifecycle.World.Fuel.{IsClock, read_time, slept, bind_agree, if_agree}
use gc_runtime_nomad.Lifecycle.Alloc.{exec_task_name}
use gc_runtime_nomad.Lifecycle.Launch.{
  pane_launch_settle, pane_launch_poll, pane_runs_agent, pane_current_command, box_runs_an_agent,
  settle_again, pane_answer, verify_loop,
}

module _ {N : Type 0} (l : Lifecycle N) (time : N → ℕ) (clock : IsClock l time) (deadline : ℕ) where
  -- `f` more looks reach the deadline.
  abbrev Reaches : ℕ → World N → Type 0
  Reaches f w = deadline ≤ time w.outside + f * pane_launch_poll

  exec-Keeps :
      (f : ℕ) (alloc : String) (command : List String)
      → Keeps (Reaches f) (call (l.client.exec_alloc alloc exec_task_name command))
  unfolding ◌>>=◌
  exec-Keeps f alloc command = record {
    at = λ w h. omega (arith, h, clock.runs alloc exec_task_name command w.outside);
  }

  box-Keeps : (f : ℕ) (alloc : String) → Keeps (Reaches f) (box_runs_an_agent l alloc)
  unfolding box_runs_an_agent
  box-Keeps f alloc = Keeps-bind _ _ (Keeps-attempt _ (exec-Keeps f alloc _)) λ r. Keeps-pure _

  pane-Keeps : (f : ℕ) (alloc : String) → Keeps (Reaches f) (pane_current_command l alloc)
  unfolding pane_current_command
  pane-Keeps f alloc =
      Keeps-bind _ _ (exec-Keeps f alloc _)
        λ answer. Keeps-if (not (answer.0 == 0)) _ _ (λ _. Keeps-raise _) (λ _. Keeps-pure _)

  still-Reaches :
      {A : Type 0} (f : ℕ) (m : M N A) (a : A) (w v : World N)
      → Keeps (Reaches f) m
      → Reaches f w
      → Returns m w a v
      → Reaches f v
  still-Reaches f m a w v keeps h p = subst (λ r. Reaches f r.1) p (keeps.at w h)

  -- Two ways to go on that agree whenever one look less reaches the deadline.
  abbrev Agree : ℕ → (next next' : String → M N (Unit {0})) → Type 0
  Agree f next next' =
      (g : ℕ) (v : World N) (last : String) → f ≡ suc g → Reaches g v → next last v ≡ next' last v

  resumes :
      (f now : ℕ) (w v x : World N)
      → Reaches f w
      → (now ≡ time w.outside) × (time w.outside ≤ time v.outside)
      → not (leb deadline now) ≡ true
      → time v.outside + pane_launch_poll ≤ time x.outside
      → (g : ℕ) × (f ≡ suc g) × Reaches g x
  resumes zero now w v x h read early sleep = absurd (ground (arith, h, read.0, read.1, early))
  resumes (suc g) now w v x h read early sleep = (g, refl, omega (arith, h, read.0, read.1, sleep))

  settle-Agree :
      (f : ℕ) (next next' : String → M N (Unit {0})) (last : String) (w : World N)
      → Reaches f w
      → Agree f next next'
      → settle_again l deadline next last w ≡ settle_again l deadline next' last w
  unfolding settle_again
  settle-Agree f next next' last w h same = bind_agree _ _ _ w λ now v read.
      if_agree (not (leb deadline now)) _ _ _ _ v
        (λ early. bind_agree _ _ _ v λ u x sleeping.
          let (g, left, reach) =
            resumes f now w v x h (read_time l time clock now w v read) early
              (slept l time clock _ u v x sleeping) in
          same g x last left reach)
        (λ _. refl)

  pane-Agree :
      (f : ℕ) (next next' : String → M N (Unit {0})) (last : String) (r : Result String)
      (w : World N)
      → Reaches f w
      → Agree f next next'
      → pane_answer l deadline next last r w ≡ pane_answer l deadline next' last r w
  unfolding pane_answer
  pane-Agree f next next' last (err e) w h same = settle-Agree f next next' last w h same
  pane-Agree f next next' last (ok command) w h same =
      if_agree (pane_runs_agent command) _ _ _ _ w (λ _. refl)
        λ _. settle-Agree f next next' command w h same

  look-Agree :
      (f m m' : ℕ) (alloc last : String) (w : World N)
      → Reaches f w
      → Agree f (verify_loop l m deadline alloc) (verify_loop l m' deadline alloc)
      → verify_loop l (suc m) deadline alloc last w ≡ verify_loop l (suc m') deadline alloc last w
  unfolding verify_loop
  look-Agree f m m' alloc last w h same = bind_agree _ _ _ w λ answer v probe.
      if_agree (answer.1) _ _ _ _ v (λ _. refl)
        λ _.
          if_agree (answer.0) _ _ _ _ v (λ _. refl)
            λ _. bind_agree _ _ _ v λ r u pane.
              pane-Agree f _ _ last r u
                (still-Reaches f _ r v u (Keeps-attempt _ (pane-Keeps f alloc))
                  (still-Reaches f _ answer w v (box-Keeps f alloc) h probe) pane)
                same

  verify_agree :
      (f m : ℕ) (alloc last : String) (w : World N)
      → Reaches f w
      → f ≤ m
      → verify_loop l (suc f) deadline alloc last w ≡ verify_loop l (suc m) deadline alloc last w
  verify_agree zero m alloc last w h le =
      look-Agree zero zero m alloc last w h λ g v s left reach. absurd (omega (arith, left))
  verify_agree (suc f) zero alloc last w h le = absurd (omega (arith, le))
  verify_agree (suc f) (suc m) alloc last w h le =
      look-Agree (suc f) (suc f) (suc m) alloc last w h λ g v s left reach.
        verify_agree f m alloc s v (omega (arith, left, reach)) (omega (arith, le))

-- If time does not run backwards, the look for an agent in the pane gets enough looks: from the start
-- of the wait, 7 looks and any greater number end with the same result in the same world, so the
-- loop ends for one of its own reasons.
pub verify_loop-looks :
    {N : Type 0} (l : Lifecycle N) (time : N → ℕ) (clock : IsClock l time) (deadline more : ℕ)
    (alloc last : String) (w : World N)
    → deadline ≤ time w.outside + pane_launch_settle
    → verify_loop l 7 deadline alloc last w ≡ verify_loop l (7 + more) deadline alloc last w
verify_loop-looks l time clock deadline more alloc last w h =
    verify_agree l time clock deadline 6 (6 + more) alloc last w (omega (arith, h)) (omega arith)
    ∙ ap (λ m. verify_loop l m deadline alloc last w) (omega arith)
