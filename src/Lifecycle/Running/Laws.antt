-- ===== src/Lifecycle/Running/Laws.antt =====
-- What a poll keeps (runtime/ops.go, opIsRunning).
use gc_runtime_nomad.Base.{
  ℕ, Bool, true, false, not, ◌&&◌, ◌||◌, Option, none, some, List, String, ◌==◌, str_eq,
}
use gc_runtime_nomad.Lifecycle.Error.{Result, ok, err}
use gc_runtime_nomad.Lifecycle.Types.{Binding, AllocRecord}
use gc_runtime_nomad.Lifecycle.World.{Lifecycle, World, M, pure, observe, ◌>>=◌}
use gc_runtime_nomad.Lifecycle.World.Keeping.{
  Keeps, Closed, Keeps-bind, Keeps-call, Keeps-attempt, Keeps-observe, Keeps-if, Keeps-pure,
}
use gc_runtime_nomad.Lifecycle.Sidecar.Laws.{load-Keeps, save-Keeps}
use gc_runtime_nomad.Lifecycle.Recover.{first_live}
use gc_runtime_nomad.Lifecycle.Alloc.Laws.{current_alloc-Keeps}
use gc_runtime_nomad.Lifecycle.Stop.{op_stop}
use gc_runtime_nomad.Lifecycle.Adopt.Laws.{probe_agent_alive-Keeps}
use gc_runtime_nomad.Lifecycle.Running.{
  in_box, delivered_at, is_owed, sync_prompted_parts, sync_prompted_answer, sync_prompted_in,
  sync_prompted_from, sync_prompted_marker, sync_city_parts, sync_city_answer, sync_city_in,
  sync_city_from, sync_city_checkout_marker, reap_acknowledged, reap_marked, reap_drained_one_shot,
  is_not_ready, retire, running_probed, running_in, running_listed, running_from, op_is_running,
}

module _ {N : Type 0} {P : World N → Type 0} (closed : Closed P) (l : Lifecycle N) where
  in_box-Keeps : (alloc command : String) → Keeps P (in_box l alloc command)
  unfolding in_box
  in_box-Keeps alloc command = Keeps-call _ closed

  delivered_at-Keeps : (marker : String) → Keeps P (delivered_at l marker)
  unfolding delivered_at
  delivered_at-Keeps marker =
      Keeps-if (str_eq marker "") _ _ (λ _. Keeps-pure _) (λ _. parsed (l.parse_time marker))
    where
      parsed :
          (o : Option ℕ)
          → Keeps P (elim o as (λ _. M N (Option ℕ)) [
            | some t ↦ pure (some t)
            | none ↦ observe l.clock >>= λ now. pure (some now)
          ])
      parsed (some t) = Keeps-pure _
      parsed none = Keeps-bind _ _ (Keeps-observe _ closed) λ now. Keeps-pure _

  prompted_parts-Keeps :
      (b : Binding) (alloc : String) (parts : String × String)
      → Keeps P (sync_prompted_parts l b alloc parts)
  unfolding sync_prompted_parts
  prompted_parts-Keeps b alloc parts =
      Keeps-bind _ _ (Keeps-attempt _ (in_box-Keeps alloc _)) λ tail.
        Keeps-if (str_eq parts.0 "" && str_eq parts.1 "") _ _ (λ _. Keeps-pure tt)
          λ _.
            Keeps-bind _ _ (delivered_at-Keeps parts.0)
              λ at. Keeps-bind _ _ (Keeps-attempt _ (save-Keeps closed l _)) λ _. Keeps-pure tt

  prompted_answer-Keeps :
      (b : Binding) (alloc : String) (r : Result (ℕ × String))
      → Keeps P (sync_prompted_answer l b alloc r)
  unfolding sync_prompted_answer
  prompted_answer-Keeps b alloc (err e) = Keeps-pure tt
  prompted_answer-Keeps b alloc (ok answer) =
      Keeps-if (not (answer.0 == 0)) _ _ (λ _. Keeps-pure tt) (λ _. prompted_parts-Keeps b alloc _)

  prompted_in-Keeps : (b : Binding) (r : Result String) → Keeps P (sync_prompted_in l b r)
  unfolding sync_prompted_in
  prompted_in-Keeps b (err e) = Keeps-pure tt
  prompted_in-Keeps b (ok alloc) =
      Keeps-bind _ _ (Keeps-attempt _ (in_box-Keeps alloc _))
        λ answer. prompted_answer-Keeps b alloc answer

  prompted_from-Keeps :
      (session : String) (r : Result (Option Binding)) → Keeps P (sync_prompted_from l session r)
  unfolding sync_prompted_from
  prompted_from-Keeps session (err e) = Keeps-pure tt
  prompted_from-Keeps session (ok none) = Keeps-pure tt
  prompted_from-Keeps session (ok (some b)) =
      Keeps-if (not (is_owed l b)) _ _ (λ _. Keeps-pure tt)
        λ _.
          Keeps-bind _ _ (Keeps-attempt _ (current_alloc-Keeps closed l session))
            λ r. prompted_in-Keeps b r

  sync_prompted_marker-Keeps : (session : String) → Keeps P (sync_prompted_marker l session)
  unfolding sync_prompted_marker
  sync_prompted_marker-Keeps session =
      Keeps-bind _ _ (Keeps-attempt _ (load-Keeps closed l session)) (prompted_from-Keeps session)

  city_parts-Keeps : (b : Binding) (parts : String × String) → Keeps P (sync_city_parts l b parts)
  unfolding sync_city_parts
  city_parts-Keeps b parts =
      Keeps-if (str_eq parts.0 "" && str_eq parts.1 "") _ _ (λ _. Keeps-pure tt)
        λ _.
          Keeps-if (str_eq parts.0 b.city_checkout_sha && str_eq parts.1 b.city_checkout_status) _ _
            (λ _. Keeps-pure tt)
            λ _. Keeps-bind _ _ (Keeps-attempt _ (save-Keeps closed l _)) λ _. Keeps-pure tt

  city_answer-Keeps : (b : Binding) (r : Result (ℕ × String)) → Keeps P (sync_city_answer l b r)
  unfolding sync_city_answer
  city_answer-Keeps b (err e) = Keeps-pure tt
  city_answer-Keeps b (ok answer) =
      Keeps-if (not (answer.0 == 0)) _ _ (λ _. Keeps-pure tt) (λ _. city_parts-Keeps b _)

  city_in-Keeps : (b : Binding) (r : Result String) → Keeps P (sync_city_in l b r)
  unfolding sync_city_in
  city_in-Keeps b (err e) = Keeps-pure tt
  city_in-Keeps b (ok alloc) =
      Keeps-bind _ _ (Keeps-attempt _ (in_box-Keeps alloc _)) λ answer. city_answer-Keeps b answer

  city_from-Keeps :
      (session : String) (r : Result (Option Binding)) → Keeps P (sync_city_from l session r)
  unfolding sync_city_from
  city_from-Keeps session (err e) = Keeps-pure tt
  city_from-Keeps session (ok none) = Keeps-pure tt
  city_from-Keeps session (ok (some b)) =
      Keeps-bind _ _ (Keeps-attempt _ (current_alloc-Keeps closed l session)) λ r. city_in-Keeps b r

  sync_city_checkout_marker-Keeps :
      (session : String) → Keeps P (sync_city_checkout_marker l session)
  unfolding sync_city_checkout_marker
  sync_city_checkout_marker-Keeps session =
      Keeps-if (not l.city_mirror) _ _ (λ _. Keeps-pure tt)
        λ _.
          Keeps-bind _ _ (Keeps-attempt _ (load-Keeps closed l session)) (city_from-Keeps session)

  module _ (stopping : (session : String) → Keeps P (op_stop l session)) where
    reap_acknowledged-Keeps :
        (session : String) (b : Binding) (drained : Bool)
        → Keeps P (reap_acknowledged l session b drained)
    unfolding reap_acknowledged
    reap_acknowledged-Keeps session b drained =
        Keeps-if (not drained) _ _ (λ _. Keeps-pure false)
          λ _.
            Keeps-bind _ _ (Keeps-attempt _ (save-Keeps closed l _))
              λ _. Keeps-bind _ _ (Keeps-attempt _ (stopping session)) λ stopped. Keeps-pure _

    reap_marked-Keeps :
        (session alloc : String) (b : Binding) (o : Option String)
        → Keeps P (reap_marked l session alloc b o)
    unfolding reap_marked
    reap_marked-Keeps session alloc b none = Keeps-pure false
    reap_marked-Keeps session alloc b (some check) =
        Keeps-bind _ _ (Keeps-attempt _ (in_box-Keeps alloc check))
          λ answer. reap_acknowledged-Keeps session b _

    reap_drained_one_shot-Keeps :
        (session alloc : String) (b : Binding) → Keeps P (reap_drained_one_shot l session alloc b)
    unfolding reap_drained_one_shot
    reap_drained_one_shot-Keeps session alloc b =
        Keeps-if (not (str_eq b.lifecycle "one_shot") || not (str_eq b.exit_reason "")) _ _
          (λ _. Keeps-pure false) (λ _. reap_marked-Keeps session alloc b l.drain_ack_command)

    retire-Keeps :
        (session alloc : String) (r : Result (Option Binding)) → Keeps P (retire l session alloc r)
    unfolding retire
    retire-Keeps session alloc (ok (some b)) =
        Keeps-bind _ _ (reap_drained_one_shot-Keeps session alloc b) λ reaped. Keeps-pure _
    retire-Keeps session alloc (ok none) = Keeps-pure true
    retire-Keeps session alloc (err e) = Keeps-pure true

    running_probed-Keeps :
        (session alloc : String) (r : Result Bool) → Keeps P (running_probed l session alloc r)
    unfolding running_probed
    running_probed-Keeps session alloc (err e) = Keeps-pure true
    running_probed-Keeps session alloc (ok alive) =
        Keeps-bind _ _ (sync_prompted_marker-Keeps session) λ _.
          Keeps-bind _ _ (sync_city_checkout_marker-Keeps session) λ _.
            Keeps-bind _ _ (Keeps-attempt _ (load-Keeps closed l session)) λ latest.
              Keeps-if (is_not_ready l latest) _ _ (λ _. Keeps-pure false)
                λ _.
                  Keeps-if (not alive) _ _ (λ _. Keeps-pure false)
                    λ _.
                      Keeps-bind _ _ (Keeps-attempt _ (load-Keeps closed l session))
                        (retire-Keeps session alloc)

    running_in-Keeps :
        (session : String) (b : Binding) (o : Option AllocRecord)
        → Keeps P (running_in l session b o)
    unfolding running_in
    running_in-Keeps session b none = Keeps-pure false
    running_in-Keeps session b (some a) =
        Keeps-bind _ _ (Keeps-attempt _ (probe_agent_alive-Keeps closed l a.id b.agent_pid))
          λ answer. running_probed-Keeps session a.id answer

    running_listed-Keeps :
        (session : String) (b : Binding) (r : Result (List AllocRecord × ℕ))
        → Keeps P (running_listed l session b r)
    unfolding running_listed
    running_listed-Keeps session b (err e) = Keeps-pure true
    running_listed-Keeps session b (ok answer) = running_in-Keeps session b (first_live answer.0)

    running_from-Keeps :
        (session : String) (o : Option Binding) → Keeps P (running_from l session o)
    unfolding running_from
    running_from-Keeps session none = Keeps-pure false
    running_from-Keeps session (some b) =
        Keeps-if (str_eq b.child_job_id "" || not b.launched) _ _ (λ _. Keeps-pure false)
          λ _.
            Keeps-bind _ _ (Keeps-attempt _ (Keeps-call _ closed))
              λ r. running_listed-Keeps session b r

    pub op_is_running-Keeps : (session : String) → Keeps P (op_is_running l session)
    unfolding op_is_running
    op_is_running-Keeps session =
        Keeps-bind _ _ (load-Keeps closed l session) (running_from-Keeps session)
