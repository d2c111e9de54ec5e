-- ===== src/Lifecycle/World/Triples.antt =====
-- Statements about a function of the lifecycle: from `P`, a result satisfies `Q` and an error `E`.
use gc_runtime_nomad.Base.{Bool, true, false, String, ◌≡◌, refl, if◌then◌else◌}
use gc_runtime_nomad.Lifecycle.Error.{Err, wrap, Result, ok, err}
use gc_runtime_nomad.Lifecycle.World.Keeping.{Keeps}
use gc_runtime_nomad.Lifecycle.World.{
  World, M, pure, raise, attempt, annotate, call, observe, gets, continue, ◌>>=◌,
}

module _ {N A : Type 0} where
  abbrev pub Post : (A → World N → Type 0) → (World N → Type 0) → Result A × World N → Type 0
  Post Q E (ok a, w) = Q a w
  Post Q E (err e, w) = E w

  pub record Triple (P : World N → Type 0) (m : M N A) (Q : A → World N → Type 0)
      (E : World N → Type 0) : Type 0 where
    pub at : (w : World N) → P w → Post Q E (m w)

module _ {N A : Type 0} {P : World N → Type 0} {E : World N → Type 0} where
  pub Triple-pure :
      (a : A) (Q : A → World N → Type 0) → ((w : World N) → P w → Q a w) → Triple P (pure a) Q E
  unfolding ◌>>=◌
  Triple-pure a Q h = record { at = h }

  pub Triple-raise :
      (e : Err) (Q : A → World N → Type 0) → ((w : World N) → P w → E w) → Triple P (raise e) Q E
  unfolding ◌>>=◌
  Triple-raise e Q h = record { at = h }

  pub Triple-call :
      (f : N → Result A × N) (Q : A → World N → Type 0)
      → ((w : World N) (n : N) → P w → E (record w { outside = n }))
      → ((a : A) (w : World N) (n : N) → P w → Q a (record w { outside = n }))
      → Triple P (call f) Q E
  unfolding ◌>>=◌
  Triple-call f Q he hq = record { at = λ w p. answer w (f w.outside) p }
    where
      answer : (w : World N) (r : Result A × N) → P w → Post Q E (r.0, record w { outside = r.1 })
      answer w (ok a, n) p = hq a w n p
      answer w (err e, n) p = he w n p

  pub Triple-observe :
      (f : N → A × N) (Q : A → World N → Type 0)
      → ((a : A) (w : World N) (n : N) → P w → Q a (record w { outside = n }))
      → Triple P (observe f) Q E
  unfolding ◌>>=◌
  Triple-observe f Q h = record { at = λ w p. h (f w.outside).0 w (f w.outside).1 p }

  pub Triple-gets :
      (f : World N → A) (Q : A → World N → Type 0)
      → ((w : World N) → P w → Q (f w) w)
      → Triple P (gets f) Q E
  unfolding ◌>>=◌
  Triple-gets f Q h = record { at = h }

module _ {N A B : Type 0} {E : World N → Type 0} {Q : A → World N → Type 0}
    {R : B → World N → Type 0} where
  continue-Post :
      (k : A → M N B)
      → ((a : A) → Triple (Q a) (k a) R E)
      → (r : Result A × World N) → Post Q E r
      → Post R E (continue k r)
  continue-Post k hk (ok a, w) h = (hk a).at w h
  continue-Post k hk (err e, w) h = h

  pub Triple-bind :
      {P : World N → Type 0} (m : M N A) (k : A → M N B)
      → Triple P m Q E
      → ((a : A) → Triple (Q a) (k a) R E)
      → Triple P (m >>= k) R E
  unfolding ◌>>=◌
  Triple-bind m k hm hk = record { at = λ w p. continue-Post k hk (m w) (hm.at w p) }

-- The error is a value: both outcomes go on.
module _ {N A : Type 0} {P E : World N → Type 0} {Q : A → World N → Type 0} where
  pub Triple-attempt :
      (m : M N A) (R : Result A → World N → Type 0)
      → Triple P m Q E
      → ((a : A) (w : World N) → Q a w → R (ok a) w)
      → ((e : Err) (w : World N) → E w → R (err e) w)
      → Triple P (attempt m) R E
  unfolding ◌>>=◌
  Triple-attempt m R hm hq he = record { at = λ w p. settle (m w) (hm.at w p) }
    where
      settle : (r : Result A × World N) → Post Q E r → R r.0 r.1
      settle (ok a, w) h = hq a w h
      settle (err e, w) h = he e w h

  pub Triple-if :
      (b : Bool) (m k : M N A)
      → (b ≡ true → Triple P m Q E)
      → (b ≡ false → Triple P k Q E)
      → Triple P (if b then m else k) Q E
  Triple-if true m k hm hk = hm refl
  Triple-if false m k hm hk = hk refl

  pub Triple-consequence :
      {P' : World N → Type 0} {Q' : A → World N → Type 0} (m : M N A)
      → ((w : World N) → P' w → P w)
      → Triple P m Q E
      → ((a : A) (w : World N) → Q a w → Q' a w)
      → Triple P' m Q' E
  Triple-consequence {Q' = Q'} m weaker t stronger = record {
    at = λ w p. out (m w) (t.at w (weaker w p));
  }
    where
      out : (r : Result A × World N) → Post Q E r → Post Q' E r
      out (ok a, w) q = stronger a w q
      out (err e, w) q = q

module _ {N A : Type 0} {P E : World N → Type 0} where
  pub Triple-keeps : (m : M N A) → Keeps P m → ((w : World N) → P w → E w) → Triple P m (λ _. P) E
  Triple-keeps m k h = record { at = λ w p. both (m w) (k.at w p) }
    where
      both : (r : Result A × World N) → P r.1 → Post (λ _. P) E r
      both (ok a, w) p = p
      both (err e, w) p = h w p

module _ {N A : Type 0} {P : World N → Type 0} where
  pub Triple-Keeps : (m : M N A) → Triple P m (λ _. P) P → Keeps P m
  Triple-Keeps m t = record { at = λ w p. either (m w) (t.at w p) }
    where
      either : (r : Result A × World N) → Post (λ _. P) P r → P r.1
      either (ok a, w) p = p
      either (err e, w) p = p

module _ {N A : Type 0} {P E : World N → Type 0} {Q : A → World N → Type 0} where
  pub Triple-annotate :
      (text : String) (m : M N A) → Triple P m Q E → Triple P (annotate text m) Q E
  unfolding ◌>>=◌
  Triple-annotate text m t = record { at = λ w p. wrapped (m w) (t.at w p) }
    where
      wrapped :
          (r : Result A × World N)
          → Post Q E r
          → Post Q E (elim r.0 [ ok a ↦ r | err e ↦ (err (wrap text e), r.1) ])
      wrapped (ok a, v) h = h
      wrapped (err e, v) h = h

module _ {N A : Type 0} {P E E' : World N → Type 0} {Q Q' : A → World N → Type 0} where
  pub Triple-weaken :
      (m : M N A)
      → Triple P m Q E
      → ((a : A) (w : World N) → Q a w → Q' a w)
      → ((w : World N) → E w → E' w)
      → Triple P m Q' E'
  Triple-weaken m t stronger worse = record { at = λ w p. out (m w) (t.at w p) }
    where
      out : (r : Result A × World N) → Post Q E r → Post Q' E' r
      out (ok a, w) q = stronger a w q
      out (err e, w) h = worse w h

-- A request, with the equation that its answer satisfies.
module _ {N A : Type 0} {P E : World N → Type 0} where
  pub Triple-answer :
      (f : N → Result A × N) (Q : A → World N → Type 0)
      → ((w : World N) (n : N) → P w → E (record w { outside = n }))
      → ((a : A) (w : World N) (n : N)
          → f w.outside ≡ (ok a, n)
          → P w
          → Q a (record w { outside = n }))
      → Triple P (call f) Q E
  unfolding ◌>>=◌
  Triple-answer f Q he hq = record { at = λ w p. answer w (f w.outside) refl p }
    where
      answer :
          (w : World N) (r : Result A × N)
          → f w.outside ≡ r
          → P w
          → Post Q E (r.0, record w { outside = r.1 })
      answer w (ok a, n) same p = hq a w n same p
      answer w (err e, n) same p = he w n p
