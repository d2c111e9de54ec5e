-- ===== src/Lifecycle/Dispatch/Single.antt =====
-- How many requests one dispatch sends, and what it leaves in the sidecar (runtime/ops.go,
-- dispatch).
use gc_runtime_nomad.Base.{
  ℕ, suc, ◌≤◌, not, ◌&&◌, Option, none, some, List, ◌∷◌, String, ◌≡◌, refl, ◌∙◌, ap, subst, ◌⊎◌,
  inl, inr, str_eq, lookup, arith,
}
use gc_runtime_nomad.Lifecycle.Error.{Result, ok, err}
use gc_runtime_nomad.Lifecycle.Types.{Binding, ChildJob}
use gc_runtime_nomad.Lifecycle.World.{
  Lifecycle, World, Event, saved, dispatch_sent, emit, attempt, ◌>>=◌, json,
}
use gc_runtime_nomad.Lifecycle.World.Keeping.{Keeps-call, Keeps-observe}
use gc_runtime_nomad.Lifecycle.World.Triples.{
  Post, Triple, Triple-bind, Triple-weaken, Triple-answer, Triple-attempt, Triple-pure, Triple-if,
  Triple-raise,
}
use gc_runtime_nomad.Lifecycle.Sidecar.Laws.{load-Keeps, save-Pushed}
use gc_runtime_nomad.Lifecycle.Recover.{find_by_nonce, find_orphan_by_nonce}
use gc_runtime_nomad.Lifecycle.Recover.Laws.{live_child-Keeps}
use gc_runtime_nomad.Lifecycle.Dispatch.{
  intent_for, dispatch_fresh, dispatch_adopting, dispatch_from, dispatch_unless_live, dispatch,
}
use gc_runtime_nomad.Lifecycle.Dispatch.Sent.{requests, Before, AtMost, closed, kept, ensure-Keeps}

-- The newest events are an intent's save, its request and the save of the intent with the child
-- that the request was answered with.
abbrev pub IsFresh : {N : Type 0} → Lifecycle N → String → String → ℕ → World N → Type 0
IsFresh {N = N} l session image n w =
    (b : Binding) × (older : List Event) × (requests older ≡ n)
    × (w.trace
        ≡ saved b ∷ dispatch_sent session b.nonce ∷ saved (record b { child_job_id = "" }) ∷ older)
    × (b.session_name ≡ session)
    × (lookup session w.bindings ≡ some (json b))
    × ((asked : N) × (after : N) × (l.client.dispatch_child_at l.parent_job_id session b.nonce
            b.created_at image asked
          ≡ (ok b.child_job_id, after)))

-- No request, and the newest event saves a binding with the child that the cluster listed under the
-- session and the binding's nonce.
abbrev pub IsAdopted : {N : Type 0} → Lifecycle N → String → ℕ → World N → Type 0
IsAdopted {N = N} l session n w =
    (b : Binding) × (older : List Event) × (requests older ≡ n)
    × (w.trace ≡ saved b ∷ older)
    × (lookup b.session_name w.bindings ≡ some (json b))
    × ((children : List ChildJob) × (asked : N) × (after : N) × (l.client.list_child_jobs
            l.parent_job_id asked
          ≡ (ok children, after))
        × (find_by_nonce l session b.nonce children ≡ some b.child_job_id))

module _ {N : Type 0} (l : Lifecycle N) (n : ℕ) where
  -- The intent is on disk, and then its request is sent.
  abbrev Intent : Binding → World N → Type 0
  Intent b w = (older : List Event) × (requests older ≡ n) × (w.trace ≡ saved b ∷ older)

  abbrev Requested : Binding → World N → Type 0
  Requested b w =
      (older : List Event) × (requests older ≡ n)
      × (w.trace ≡ dispatch_sent b.session_name b.nonce ∷ saved b ∷ older)

  request-Requested :
      (b : Binding)
      → Triple
          (Intent b)
          (emit (dispatch_sent b.session_name b.nonce))
          (λ _. Requested b)
          (AtMost n)
  unfolding ◌>>=◌
  request-Requested b = record {
    at = λ w (older, count, newest).
        (older, count, ap (λ t. dispatch_sent b.session_name b.nonce ∷ t) newest);
  }

  Requested-AtMost : (b : Binding) (w : World N) → Requested b w → (AtMost n) w
  Requested-AtMost b w (older, count, newest) = rw newest (omega (arith, count))

  abbrev Outcome : String → String → World N → Type 0
  Outcome session image w = IsFresh l session image n w ⊎ IsAdopted l session n w

  -- The request was answered with the child.
  abbrev Answered : String → Binding → String → World N → Type 0
  Answered image b child w =
      Requested b w
      × ((asked : N) × (after : N) × (l.client.dispatch_child_at l.parent_job_id b.session_name
              b.nonce b.created_at image asked
            ≡ (ok child, after)))

  -- What the cluster listed, if the orphan was found.
  abbrev Found : String → String → Result (Option String) → World N → Type 0
  Found session nonce r w =
      (Before n) w
      × ((child : String)
          → r ≡ ok (some child)
          → (children : List ChildJob) × (asked : N) × (after : N) × (l.client.list_child_jobs
                l.parent_job_id asked
              ≡ (ok children, after))
            × (find_by_nonce l session nonce children ≡ some child))

  listed-Found :
      (session nonce : String)
      → Triple
          (Before n)
          (find_orphan_by_nonce l session nonce)
          (λ o. Found session nonce (ok o))
          (Before n)
  unfolding find_orphan_by_nonce
  listed-Found session nonce =
      Triple-bind
        {Q = λ children w.
          (Before n) w
          × ((asked : N) × (after : N) × (l.client.list_child_jobs l.parent_job_id asked
                ≡ (ok children, after)))}
        _ _ (Triple-answer _ _ (λ w m h. h) (λ children w m same h. (h, (w.outside, m, same))))
        λ children. Triple-pure _ _ λ w (h, (asked, after, same)).
          (h, λ child found. (children, asked, after, same, unwrap found))
    where
      open_ok : Result (Option String) → Option String
      open_ok (ok o) = o
      open_ok (err e) = none

      unwrap : {o : Option String} {child : String} → ok o ≡ ok (some child) → o ≡ some child
      unwrap found = ap open_ok found

  orphan-Found :
      (session nonce : String)
      → Triple
          (Before n)
          (attempt (find_orphan_by_nonce l session nonce))
          (Found session nonce)
          (AtMost n)
  orphan-Found session nonce =
      Triple-weaken _
        (Triple-attempt _ (Found session nonce) (listed-Found session nonce) (λ o w h. h)
          (λ e w h. (h, λ child found. absurd (cc found))))
        (λ r w h. h) (λ w h. omega (arith, h))

  fresh-Outcome :
      (session image : String)
      → Triple (Before n) (dispatch_fresh l session image) (λ _. Outcome session image) (AtMost n)
  unfolding dispatch_fresh intent_for
  fresh-Outcome session image = Triple-bind _ _ (kept n _ (Keeps-call _ (closed n))) λ nonce.
      Triple-bind _ _ (kept n _ (Keeps-observe _ (closed n))) λ now.
        let b = intent_for l session nonce now in
        Triple-bind {Q = λ _. Intent b} _ _
          (Triple-weaken _ (save-Pushed (λ w m h. h) l b)
            (λ _ w (old, count, newest, _). (old.trace, count, newest)) (λ w h. omega (arith, h)))
          λ _. Triple-bind {Q = λ _. Requested b} _ _ (request-Requested b) λ _.
            Triple-bind {Q = Answered image b} _ _
              (Triple-answer _ _ (λ w m h. Requested-AtMost b w h)
                (λ child w m same h. (h, (w.outside, m, same))))
              λ child.
                Triple-weaken _
                  (save-Pushed {P = Answered image b child} (λ w m h. h) l
                    (record b { child_job_id = child }))
                  (λ _ w (old, ((older, count, before), answer), newest, stored). inl (
                    record b { child_job_id = child },
                    older,
                    count,
                    newest ∙ ap (λ t. saved (record b { child_job_id = child }) ∷ t) before,
                    refl,
                    stored,
                    answer,
                  ))
                  (λ w h. Requested-AtMost b w h.0)

  dispatch_fresh-Outcome :
      (session image nonce : String) (r : Result (Option String))
      → Triple
          (Found session nonce r)
          (dispatch_fresh l session image)
          (λ _. Outcome session image)
          (AtMost n)
  dispatch_fresh-Outcome session image nonce r = record {
    at = λ w h. (fresh-Outcome session image).at w h.0;
  }

  adopting-Outcome :
      (session image : String) (b : Binding) (r : Result (Option String))
      → Triple
          (Found session b.nonce r)
          (dispatch_adopting l session image b r)
          (λ _. Outcome session image)
          (AtMost n)
  unfolding dispatch_adopting
  adopting-Outcome session image b (ok none) =
      dispatch_fresh-Outcome session image b.nonce (ok none)
  adopting-Outcome session image b (err e) = dispatch_fresh-Outcome session image b.nonce (err e)
  adopting-Outcome session image b (ok (some child)) =
      Triple-weaken _
        (save-Pushed {P = Found session b.nonce (ok (some child))} (λ w m h. h) l
          (record b { child_job_id = child }))
        (λ _ w (old, (count, found), newest, stored).
          inr
            (record b { child_job_id = child }, old.trace, count, newest, stored, found child refl))
        (λ w h. omega (arith, h.0))

  from-Outcome :
      (session image : String) (o : Option Binding)
      → Triple (Before n) (dispatch_from l session image o) (λ _. Outcome session image) (AtMost n)
  unfolding dispatch_from
  from-Outcome session image none = fresh-Outcome session image
  from-Outcome session image (some b) =
      Triple-if (not (not (str_eq b.nonce "") && str_eq b.child_job_id "")) _ _
        (λ _. fresh-Outcome session image)
        λ _. Triple-bind _ _ (orphan-Found session b.nonce) λ r. adopting-Outcome session image b r

  unless_live-Outcome :
      (session image : String) (o live : Option Binding)
      → Triple
          (Before n)
          (dispatch_unless_live l session image o live)
          (λ _. Outcome session image)
          (AtMost n)
  unfolding dispatch_unless_live
  unless_live-Outcome session image o (some live) = Triple-raise _ _ λ w h. omega (arith, h)
  unless_live-Outcome session image o none =
      Triple-bind _ _ (kept n _ (ensure-Keeps n l)) λ _. from-Outcome session image o

  dispatch-Outcome :
      (session image : String)
      → Triple (Before n) (dispatch l session image) (λ _. Outcome session image) (AtMost n)
  unfolding dispatch
  dispatch-Outcome session image = Triple-bind _ _ (kept n _ (load-Keeps (closed n) l session)) λ o.
      Triple-bind _ _ (kept n _ (live_child-Keeps (closed n) l session))
        λ live. unless_live-Outcome session image o live

Outcome-AtMost :
    {N : Type 0} (l : Lifecycle N) (session image : String) (n : ℕ) (w : World N)
    → IsFresh l session image n w ⊎ IsAdopted l session n w
    → requests w.trace ≤ suc n
Outcome-AtMost l session image n w (inl (b, older, count, newest, _, _, _)) =
    rw newest (omega (arith, count))
Outcome-AtMost l session image n w (inr (b, older, count, newest, _, _)) =
    rw newest (omega (arith, count))

-- One call of `dispatch` sends at most one dispatch request, on success and on error.
pub dispatch-requests :
    {N : Type 0} (l : Lifecycle N) (session image : String) (w : World N)
    → requests (dispatch l session image w).1.trace ≤ suc (requests w.trace)
dispatch-requests {N = N} l session image w =
    bounded (dispatch l session image w)
      ((dispatch-Outcome l (requests w.trace) session image).at w refl)
  where
    bounded :
        (r : Result (Unit {0}) × World N)
        → Post
            (λ _ v.
              IsFresh l session image (requests w.trace) v
              ⊎ IsAdopted l session (requests w.trace) v)
            (λ v. requests v.trace ≤ suc (requests w.trace))
            r
        → requests r.1.trace ≤ suc (requests w.trace)
    bounded (ok _, v) h = Outcome-AtMost l session image _ v h
    bounded (err e, v) h = h

-- When `dispatch` succeeds, either it sent one request, right after it saved an intent of the
-- session with the request's nonce and no child, and right before it saved that intent with the
-- child that the request was answered with, which the session's sidecar file now holds; or it sent
-- none, and the newest event is the save of a binding, which its sidecar file now holds, with a child
-- that the cluster listed as a live one of the session under the binding's nonce.
pub dispatch-IsFresh_or_IsAdopted :
    {N : Type 0} (l : Lifecycle N) (session image : String) (w w' : World N)
    → dispatch l session image w ≡ (ok tt, w')
    → IsFresh l session image (requests w.trace) w' ⊎ IsAdopted l session (requests w.trace) w'
dispatch-IsFresh_or_IsAdopted l session image w w' p =
    subst
      (Post
        (λ _ v.
          IsFresh l session image (requests w.trace) v ⊎ IsAdopted l session (requests w.trace) v)
        (λ v. requests v.trace ≤ suc (requests w.trace)))
      p ((dispatch-Outcome l (requests w.trace) session image).at w refl)
