-- ===== src/Lifecycle/World/Keeping.antt =====
-- Invariants of the lifecycle's functions, one rule for each way to build a function. `Closed`
-- collects what an invariant must survive: the outside moving on, and the writes of a sidecar file
-- and of an evidence file.
use gc_runtime_nomad.Base.{Bool, true, false, ◌≡◌, refl, ◌∷◌, String, Dict, if◌then◌else◌, arith}
use gc_runtime_nomad.Lifecycle.Error.{Err, Result, ok, err}
use gc_runtime_nomad.Lifecycle.Types.{Binding}
use gc_runtime_nomad.Lifecycle.World.{
  World, FileBody, saved, copied, M, pure, raise, attempt, annotate, lift, call, observe, gets,
  continue, ◌>>=◌,
}

-- `m` keeps `P`, whether it returns or fails.
pub record Keeps {N A : Type 0} (P : World N → Type 0) (m : M N A) : Type 0 where
  pub at : (w : World N) → P w → P (m w).1

pub record Closed {N : Type 0} (P : World N → Type 0) : Type 0 where
  pub moving : (w : World N) (n : N) → P w → P (record w { outside = n })
  pub saving :
      (w : World N) (b : Binding) (files : Dict FileBody)
      → P w
      → P (record w { bindings = files; trace = saved b ∷ w.trace })
  pub copying :
      (w : World N) (session alloc name body : String)
      → P w
      → P (record w { trace = copied session alloc name body ∷ w.trace })

module _ {N A : Type 0} where
  annotated : (text : String) (m : M N A) (w : World N) → (annotate text m w).1 ≡ (m w).1
  unfolding ◌>>=◌
  annotated text m w = ground arith

module _ {N A : Type 0} {P : World N → Type 0} where
  pub Keeps-pure : (a : A) → Keeps P (pure a)
  unfolding ◌>>=◌
  Keeps-pure a = record { at = λ w h. h }

  pub Keeps-raise : (e : Err) → Keeps P (raise {A = A} e)
  unfolding ◌>>=◌
  Keeps-raise e = record { at = λ w h. h }

  pub Keeps-lift : (r : Result A) → Keeps P (lift r)
  unfolding ◌>>=◌
  Keeps-lift r = record { at = λ w h. h }

  pub Keeps-gets : (f : World N → A) → Keeps P (gets f)
  unfolding ◌>>=◌
  Keeps-gets f = record { at = λ w h. h }

  pub Keeps-call : (f : N → Result A × N) → Closed P → Keeps P (call f)
  unfolding ◌>>=◌
  Keeps-call f c = record { at = λ w h. c.moving w (f w.outside).1 h }

  pub Keeps-observe : (f : N → A × N) → Closed P → Keeps P (observe f)
  unfolding ◌>>=◌
  Keeps-observe f c = record { at = λ w h. c.moving w (f w.outside).1 h }

  pub Keeps-attempt : (m : M N A) → Keeps P m → Keeps P (attempt m)
  unfolding ◌>>=◌
  Keeps-attempt m k = record { at = λ w h. k.at w h }

  pub Keeps-annotate : (text : String) (m : M N A) → Keeps P m → Keeps P (annotate text m)
  Keeps-annotate text m k = record { at = λ w h. rw (annotated text m w) (k.at w h) }

  pub Keeps-if :
      (b : Bool) (m k : M N A)
      → (b ≡ true → Keeps P m)
      → (b ≡ false → Keeps P k)
      → Keeps P (if b then m else k)
  Keeps-if true m k hm hk = hm refl
  Keeps-if false m k hm hk = hk refl

module _ {N A B : Type 0} {P : World N → Type 0} where
  keeps_on :
      (k : A → M N B)
      → ((a : A) → Keeps P (k a))
      → (r : Result A × World N) → P r.1
      → P (continue k r).1
  keeps_on k hk (ok a, w) h = (hk a).at w h
  keeps_on k hk (err e, w) h = h

  pub Keeps-bind :
      (m : M N A) (k : A → M N B) → Keeps P m → ((a : A) → Keeps P (k a)) → Keeps P (m >>= k)
  unfolding ◌>>=◌
  Keeps-bind m k hm hk = record { at = λ w h. keeps_on k hk (m w) (hm.at w h) }

pub ruleset keeps_rules = (
  Keeps-pure, Keeps-raise, Keeps-lift, Keeps-gets, Keeps-call, Keeps-observe, Keeps-attempt,
  Keeps-annotate, Keeps-if, Keeps-bind,
)
