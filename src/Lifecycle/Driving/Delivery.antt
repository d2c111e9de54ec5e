-- ===== src/Lifecycle/Driving/Delivery.antt =====
-- What the success of a driving verb says of the box (runtime/ops.go, opNudge, opSendKeys,
-- runDrivingVerb).
use gc_runtime_nomad.Base.{true, ◌∷◌, List, String, ◌≡◌, ap, ◌∙◌, ◌==◌, ==_iff}
use gc_runtime_nomad.Lifecycle.Error.{Err, is, session_not_found, ok, err}
use gc_runtime_nomad.Lifecycle.World.{Lifecycle, World}
use gc_runtime_nomad.Lifecycle.World.Outcomes.{
  Returns, pure-Returns, raise-Returns, call-Returns, annotate-Returns, if-Returns, bind-Returns,
}
use gc_runtime_nomad.Lifecycle.Alloc.{
  exec_task_name, tmux_session_name, current_alloc, run_driving_verb,
}
use gc_runtime_nomad.Lifecycle.Driving.{op_send_keys}

module _ {N : Type 0} (l : Lifecycle N) where
  -- The session's allocation was found, and the command ran in its task and exited with 0.
  abbrev pub IsDelivered : String → List String → World N → World N → Type 0
  IsDelivered session command w w' =
      (alloc : String) × (v : World N) × (out : String) × (current_alloc l session w
        ≡ (ok alloc, v))
      × (l.client.exec_alloc alloc exec_task_name command v.outside ≡ (ok (0, out), w'.outside))

  -- The verb failed with an error that says that the session was not found.
  abbrev pub IsGone : String → String → List String → World N → World N → Type 0
  IsGone session verb command w w' =
      (e : Err) × (run_driving_verb l session verb command w ≡ (err e, w'))
      × (is session_not_found e ≡ true)

  verb-IsDelivered :
      (session verb : String) (command : List String) (w w' : World N)
      → Returns (run_driving_verb l session verb command) w tt w'
      → IsDelivered session command w w'
  unfolding run_driving_verb
  verb-IsDelivered session verb command w w' p = bind-Returns _ _ _ _ _ p λ alloc v found rest.
      bind-Returns _ _ _ _ _ rest λ (exit_code, out) u ran rest₂.
        if-Returns (exit_code == 0) _ _ _ _ _ rest₂
          (λ zero q. (
            alloc,
            v,
            out,
            annotate-Returns _ _ _ _ _ found,
            (call-Returns _ _ _ _ (annotate-Returns _ _ _ _ _ ran)).0
                ∙ ap (λ n. (ok (n, out), u.outside)) ((==_iff exit_code 0).0 zero)
                ∙ ap (λ x. (ok (0, out), x.outside)) ((pure-Returns _ _ _ _ q).1),
          ))
          λ _ q. absurd (raise-Returns _ _ _ _ q)

-- Sent keys that succeed were delivered: the session's allocation was found, and tmux ran in its
-- task with all the keys, in order and as they are, and exited with 0.
pub op_send_keys-IsDelivered :
    {N : Type 0} (l : Lifecycle N) (session : String) (keys : List String) (w w' : World N)
    → op_send_keys l session keys w ≡ (ok tt, w')
    → IsDelivered l session ("tmux" ∷ "send-keys" ∷ "-t" ∷ tmux_session_name ∷ keys) w w'
unfolding op_send_keys
op_send_keys-IsDelivered l session keys w w' p = verb-IsDelivered l session "send-keys" _ w w' p
