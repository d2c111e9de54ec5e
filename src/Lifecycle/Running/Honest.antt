-- ===== src/Lifecycle/Running/Honest.antt =====
-- When a session is reported as not running (runtime/ops.go, opIsRunning).
use gc_runtime_nomad.Base.{
  ℕ, Bool, true, false, not, ◌&&◌, ◌||◌, Option, none, some, List, [], ◌∷◌, String, ◌≡◌, refl,
  subst, ◌⊎◌, inl, inr, str_eq, arith,
}
use gc_runtime_nomad.Lifecycle.Error.{Result, ok, err}
use gc_runtime_nomad.Lifecycle.Types.{Binding, AllocRecord}
use gc_runtime_nomad.Lifecycle.World.{Lifecycle, World}
use gc_runtime_nomad.Lifecycle.World.Outcomes.{
  Returns, pure-Returns, call-Returns, asked-Returns, attempt-Returns, bind-Returns, if-Returns,
  same-Returns,
}
use gc_runtime_nomad.Lifecycle.Sidecar.{load}
use gc_runtime_nomad.Lifecycle.Recover.{first_live}
use gc_runtime_nomad.Lifecycle.Alloc.{exec_task_name}
use gc_runtime_nomad.Lifecycle.Adopt.{probe_command, probe_agent_alive}
use gc_runtime_nomad.Lifecycle.Running.{
  running_probed, running_in, running_listed, running_from, op_is_running,
}

-- The binding names a child and says that its agent was launched.
abbrev pub is_running_bound : Option Binding → Bool
is_running_bound none = false
is_running_bound (some b) = not (str_eq b.child_job_id "") && b.launched

module _ {N : Type 0} (l : Lifecycle N) where
  -- The probe in the allocation was answered.
  abbrev pub IsProbed : Binding → AllocRecord → N → Type 0
  IsProbed b a n =
      (exit_code : ℕ) × (output : String) × (n' : N) × (l.client.exec_alloc a.id exec_task_name
          ("/bin/sh" ∷ "-c" ∷ probe_command b.agent_pid ∷ []) n
        ≡ (ok (exit_code, output), n'))

  -- From `n` the child's allocations were listed: none lives, or the probe in the first that does
  -- was answered.
  abbrev pub IsAnswered : Binding → N → Type 0
  IsAnswered b n =
      (allocs : List AllocRecord) × (index : ℕ) × (n' : N) × (l.client.list_allocs_for_job
          b.child_job_id 0 0 n
        ≡ (ok (allocs, index), n'))
      × ((first_live allocs ≡ none)
          ⊎ ((a : AllocRecord) × (first_live allocs ≡ some a) × IsProbed b a n'))

  probe-IsProbed :
      (b : Binding) (a : AllocRecord) (alive : Bool) (w w' : World N)
      → Returns (probe_agent_alive l a.id b.agent_pid) w alive w'
      → IsProbed b a w.outside
  unfolding probe_agent_alive
  probe-IsProbed b a alive w w' p = bind-Returns _ _ _ _ _ p λ (exit_code, output) v asked _.
      (exit_code, output, v.outside, (call-Returns _ _ _ _ asked).0)

  in-IsAnswered :
      (session : String) (b : Binding) (o : Option AllocRecord) (w w' : World N)
      → Returns (running_in l session b o) w false w'
      → (o ≡ none) ⊎ ((a : AllocRecord) × (o ≡ some a) × IsProbed b a w.outside)
  unfolding running_in running_probed
  in-IsAnswered session b none w w' p = inl refl
  in-IsAnswered session b (some a) w w' p =
      bind-Returns _ _ _ _ _ p
        λ answer v tried rest. inr (a, refl, probed answer v (attempt-Returns _ _ _ _ tried) rest)
    where
      probed :
          (answer : Result Bool) (v : World N)
          → probe_agent_alive l a.id b.agent_pid w ≡ (answer, v)
          → Returns (running_probed l session a.id answer) v false w'
          → IsProbed b a w.outside
      probed (ok alive) v q rest = probe-IsProbed b a alive w v q
      probed (err e) v q rest = absurd (cc ((pure-Returns _ _ _ _ rest).0))

  listed-IsAnswered :
      (session : String) (b : Binding) (r : Result (List AllocRecord × ℕ)) (w v w' : World N)
      → l.client.list_allocs_for_job b.child_job_id 0 0 w.outside ≡ (r, v.outside)
      → Returns (running_listed l session b r) v false w'
      → IsAnswered b w.outside
  unfolding running_listed
  listed-IsAnswered session b (err e) w v w' asked p = absurd (cc ((pure-Returns _ _ _ _ p).0))
  listed-IsAnswered session b (ok (allocs, index)) w v w' asked p =
      (allocs, index, v.outside, asked, in-IsAnswered session b (first_live allocs) v w' p)

  from-IsAnswered :
      (session : String) (b : Binding) (w w' : World N)
      → is_running_bound (some b) ≡ true
      → Returns (running_from l session (some b)) w false w'
      → IsAnswered b w.outside
  unfolding running_from
  from-IsAnswered session b w w' bound p =
      if-Returns (str_eq b.child_job_id "" || not b.launched) _ _ _ _ _ p
        (λ unbound _. absurd (clash unbound))
        λ _ q. bind-Returns _ _ _ _ _ q λ r v tried rest.
          listed-IsAnswered session b r w v w' (asked-Returns _ _ _ _ tried).0 rest
    where
      clash : (str_eq b.child_job_id "" || not b.launched) ≡ true → ⊥
      clash unbound = ground (arith, unbound, bound)

-- When `opIsRunning` answers no for a session whose binding names a child and says launched, the
-- child's allocations were listed successfully and either none of them is live, or the liveness
-- probe in the first live one was executed: a request that fails is never reported as a death.
pub op_is_running-IsAnswered :
    {N : Type 0} (l : Lifecycle N) (session : String) (b : Binding) (w v w' : World N)
    → load l session w ≡ (ok (some b), v)
    → is_running_bound (some b) ≡ true
    → op_is_running l session w ≡ (ok false, w')
    → IsAnswered l b v.outside
unfolding op_is_running
op_is_running-IsAnswered l session b w v w' loaded bound p =
    bind-Returns _ _ _ _ _ p λ o u found rest.
      let (same, at) = same-Returns (load l session) o (some b) w u v found loaded in
      subst (λ x. IsAnswered l b x.outside) at
        (from-IsAnswered l session b u w' bound
          (subst (λ x. Returns (running_from l session x) u false w') same rest))
