-- ===== src/Lifecycle/Adopt/Reuse.antt =====
-- When a box is reused (runtime/ops.go, classifyAdoption and adoptExisting).
use gc_runtime_nomad.Base.{
  ℕ, ◌-◌, ◌≤◌, Bool, true, false, some, List, [], ◌∷◌, String, ◌≡◌, refl, ap, ◌∙◌, subst, ◌≢◌, ◌==◌,
  ==_refl, ltb, str_eq, eq_refl, arith, Option-cases, inl, inr,
}
use gc_runtime_nomad.Lifecycle.Error.{Result, ok, err}
use gc_runtime_nomad.Lifecycle.Types.{Binding, AllocRecord}
use gc_runtime_nomad.Lifecycle.World.{Lifecycle, World, pure}
use gc_runtime_nomad.Lifecycle.World.Outcomes.{
  Returns, pure-Returns, raise-Returns, call-Returns, observe-Returns, attempt-Returns,
  bind-Returns, if-Returns, Still, Still-trans, asked-Returns,
}
use gc_runtime_nomad.Lifecycle.Recover.{first_live}
use gc_runtime_nomad.Lifecycle.Alloc.{exec_task_name}
use gc_runtime_nomad.Lifecycle.Adopt.{
  AdoptPath, adopt_reuse, adopt_reject, adopt_self_heal_launched, adopt_reap, adoption_switch,
  probe_command, probe_agent_alive, id_or_empty, live_id, live_alloc_id, as_status,
  binding_agent_status, adopt_age_limit, classify_adoption, adopt_path, adopt_existing,
}

module _ {N : Type 0} (l : Lifecycle N) where
  -- From `n` the probe of the binding's box answers, with an exit code that is not 0, and leaves `n'`.
  abbrev pub IsAbsent : Binding → N → N → Type 0
  IsAbsent b n n' =
      (allocs : List AllocRecord) × (index : ℕ) × (n₁ : N) × (a : AllocRecord) × (exit_code : ℕ)
      × (output : String) × (l.client.list_allocs_for_job b.child_job_id 0 0 n
          ≡ (ok (allocs, index), n₁))
      × (first_live allocs ≡ some a)
      × (l.client.exec_alloc a.id exec_task_name ("/bin/sh" ∷ "-c" ∷ probe_command b.agent_pid ∷ [])
            n₁
          ≡ (ok (exit_code, output), n'))
      × (exit_code ≢ 0)

  probe-Returns :
      (alloc : String) (pid : ℕ) (w w' : World N)
      → Returns (probe_agent_alive l alloc pid) w false w'
      → (exit_code : ℕ) × (output : String) × (l.client.exec_alloc alloc exec_task_name
            ("/bin/sh" ∷ "-c" ∷ probe_command pid ∷ [])
            w.outside
          ≡ (ok (exit_code, output), w'.outside))
        × (exit_code ≢ 0)
        × Still w w'
  unfolding probe_agent_alive
  probe-Returns alloc pid w w' p = bind-Returns _ _ _ _ _ p λ (exit_code, output) w₁ asked answered.
      let (dead, same) = pure-Returns _ _ _ _ answered in
      let (answer, still) = call-Returns _ _ _ _ asked in
      (
        exit_code,
        output,
        answer ∙ ap (λ v. (ok (exit_code, output), v.outside)) same,
        (λ zero. ground (arith, dead, zero)),
        subst (Still w) same still,
      )

  unknown-≢ : (r : Result Bool) (alive : Bool) → as_status l r ≡ (alive, true) → r ≡ ok alive
  unfolding as_status
  unknown-≢ (ok b) alive p = λ i. ok (p i).0
  unknown-≢ (err e) alive p = absurd (cc p)

  -- A live allocation that was looked up, and the answer it came from.
  alloc-Returns :
      (b : Binding) (alloc : String) (w w' : World N)
      → str_eq alloc "" ≡ false
      → Returns (live_alloc_id l b) w alloc w'
      → ((allocs : List AllocRecord) × (index : ℕ) × (a : AllocRecord)
          × (l.client.list_allocs_for_job b.child_job_id 0 0 w.outside
              ≡ (ok (allocs, index), w'.outside))
          × (first_live allocs ≡ some a)
          × (a.id ≡ alloc))
        × Still w w'
  unfolding live_alloc_id live_id id_or_empty
  alloc-Returns b alloc w w' named p = bind-Returns _ _ _ _ _ p λ r w₁ asked answered.
      let (id, same) = pure-Returns _ _ _ _ answered in
      let (answer, still) = asked-Returns _ _ _ _ asked in
      (from r id (answer ∙ ap (λ v. (r, v.outside)) same), subst (Still w) same still)
    where
      from :
          (r : Result (List AllocRecord × ℕ))
          → live_id l r ≡ alloc
          → l.client.list_allocs_for_job b.child_job_id 0 0 w.outside ≡ (r, w'.outside)
          → (allocs : List AllocRecord) × (index : ℕ) × (a : AllocRecord)
            × (l.client.list_allocs_for_job b.child_job_id 0 0 w.outside
                ≡ (ok (allocs, index), w'.outside))
            × (first_live allocs ≡ some a)
            × (a.id ≡ alloc)
      from (err e) id answer = absurd (cc (id, named, eq_refl ""))
      from (ok (allocs, index)) id answer = elim (Option-cases (first_live allocs)) [
        | inl none_live ↦ absurd (cc (id, named, none_live, eq_refl ""))
        | inr (a, live) ↦ (allocs, index, a, answer, live, cc (id, live))
      ]

  status-Returns :
      (b : Binding) (w w' : World N)
      → Returns (binding_agent_status l b) w (false, true) w'
      → IsAbsent b w.outside w'.outside × Still w w'
  unfolding binding_agent_status
  status-Returns b w w' p = bind-Returns _ _ _ _ _ p λ alloc w₁ found rest.
      if-Returns (str_eq alloc "") (pure (false, false)) _ _ _ _ rest
        (λ _ q. absurd (cc ((pure-Returns _ _ _ _ q).0)))
        λ named q. bind-Returns _ _ _ _ _ q λ r w₂ tried known.
          let ((allocs, index, a, answer, live, id), still) =
            alloc-Returns b alloc w w₁ named found in
          let (status, same) = pure-Returns _ _ _ _ known in
          let (exit_code, output, probe, nonzero, still₂) =
            probe-Returns alloc b.agent_pid w₁ w₂
              (attempt-Returns _ _ _ _ tried ∙ ap (λ x. (x, w₂)) (unknown-≢ r false status)) in
          (
            (
              allocs,
              index,
              w₁.outside,
              a,
              exit_code,
              output,
              answer,
              live,
              ap
                    (λ x.
                      l.client.exec_alloc x exec_task_name
                        ("/bin/sh" ∷ "-c" ∷ probe_command b.agent_pid ∷ []) w₁.outside)
                    id
                  ∙ probe
                  ∙ ap (λ v. (ok (exit_code, output), v.outside)) same,
              nonzero,
            ),
            subst (Still w) same (Still-trans w w₁ w₂ still still₂),
          )

  reuse_switch :
      (launched known alive : Bool) (why : String)
      → adoption_switch launched known alive ≡ (adopt_reuse, why)
      → (launched ≡ false) × (known ≡ true) × (alive ≡ false)
  unfolding adoption_switch
  reuse_switch launched known alive why p = ground (arith, p)

  path-Returns :
      (session : String) (b : Binding) (path : AdoptPath) (why : String) (w w' : World N)
      → Returns (adopt_path l session b (path, why)) w true w'
      → (path ≡ adopt_reuse) × (w ≡ w')
  unfolding adopt_path
  path-Returns session b adopt_reuse why w w' p = (refl, (pure-Returns _ _ _ _ p).1)
  path-Returns session b adopt_reject why w w' p = absurd (raise-Returns _ _ _ _ p)
  path-Returns session b adopt_self_heal_launched why w w' p =
      bind-Returns _ _ _ _ _ p λ _ v _ q. absurd (raise-Returns _ _ _ _ q)
  path-Returns session b adopt_reap why w w' p =
      bind-Returns _ _ _ _ _ p λ _ v _ q. absurd (cc ((pure-Returns _ _ _ _ q).0))

  -- What was seen of a box that is reused.
  abbrev pub IsReusable : Binding → World N → World N → Type 0
  IsReusable b w w' =
      (b.launched ≡ false)
      × (b.created_at ≢ 0)
      × ((now : ℕ) × (n : N) × (l.clock (l.clock w.outside).1 ≡ (now, n))
          × (now - b.created_at ≤ adopt_age_limit l)
          × IsAbsent b n w'.outside)
      × Still w w'

  classify-Returns :
      (b : Binding) (why : String) (w w' : World N)
      → Returns (classify_adoption l b) w (adopt_reuse, why) w'
      → IsReusable b w w'
  unfolding classify_adoption
  classify-Returns b why w w' p = bind-Returns _ _ _ _ _ p λ _ w₁ read rest.
      if-Returns (b.created_at == 0) _ _ _ _ _ rest
        (λ _ q. absurd (cc ((pure-Returns _ _ _ _ q).0)))
        λ known_age q. bind-Returns _ _ _ _ _ q λ now w₂ read₂ young.
          if-Returns (ltb (adopt_age_limit l) (now - b.created_at)) _ _ _ _ _ young
            (λ _ q. absurd (cc ((pure-Returns _ _ _ _ q).0)))
            λ within q. bind-Returns _ _ _ _ _ q λ (alive, known) w₃ probed answered.
              let (path, same) = pure-Returns _ _ _ _ answered in
              let (cold, sure, dead) = reuse_switch b.launched known alive why path in
              let (absent, still₃) =
                status-Returns b w₂ w₃ (probed ∙ ap (λ x. (ok x, w₃)) (λ i. (dead i, sure i))) in
              let (clock, still) = observe-Returns _ _ _ _ read in
              let (clock₂, still₂) = observe-Returns _ _ _ _ read₂ in
              (
                cold,
                (λ zero. cc (known_age, zero, ==_refl 0)),
                (
                  now,
                  w₂.outside,
                  ap (λ x. l.clock x.1) clock ∙ clock₂,
                  ground (arith, within),
                  subst (λ v. IsAbsent b w₂.outside v.outside) same absent,
                ),
                subst (Still w) same
                    (Still-trans w w₁ w₃ still (Still-trans w₁ w₂ w₃ still₂ still₃)),
              )

-- A call of `adoptExisting` that tells its caller to reuse the box (instead of an error or a fresh
-- dispatch) was made for a binding that is not launched and whose creation time is known; at the
-- second reading of the clock the binding was within the age limit; from there the box's live
-- allocation was listed and the probe in it was answered with a failure, so the agent was seen to
-- be absent and not merely out of reach; and the call changed no sidecar file and sent no request
-- that is recorded.
pub adopt_existing-IsReusable :
    {N : Type 0} (l : Lifecycle N) (session : String) (b : Binding) (w w' : World N)
    → Returns (adopt_existing l session b) w true w'
    → IsReusable l b w w'
unfolding adopt_existing
adopt_existing-IsReusable l session b w w' p =
    bind-Returns _ _ _ _ _ p λ (path, why) v classified rest.
      let (reuse, same) = path-Returns l session b path why v w' rest in
      subst (IsReusable l b w) same
        (classify-Returns l b why w v (classified ∙ ap (λ x. (ok (x, why), v)) reuse))
