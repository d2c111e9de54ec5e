-- ===== src/Lifecycle/World/Outcomes.antt =====
-- From the success of a composed function back to the success of its parts.
use gc_runtime_nomad.Base.{String, Bool, true, false, ◌≡◌, refl, sym, ◌∙◌, ap, if◌then◌else◌}
use gc_runtime_nomad.Lifecycle.Error.{Err, wrap, Result, ok, err}
use gc_runtime_nomad.Lifecycle.World.{
  World, M, pure, raise, attempt, annotate, lift, call, observe, continue, ◌>>=◌,
}

abbrev or_else : {A : Type 0} → A → Result A → A
or_else a (ok b) = b
or_else a (err e) = a

module _ {A : Type 0} where
  ok_injective : (a b : A) → ok a ≡ ok b → a ≡ b
  ok_injective a b p = ap (or_else a) p

  ok-≢-err : (a : A) (e : Err) → err e ≡ ok a → ⊥
  ok-≢-err a e p = cc p

module _ {N : Type 0} where
  -- The process did nothing from `w` to `w'`; the outside may have moved.
  abbrev pub Still : World N → World N → Type 0
  Still w w' = (w'.trace ≡ w.trace) × (w'.bindings ≡ w.bindings)

  pub Still-trans : (w v u : World N) → Still w v → Still v u → Still w u
  Still-trans w v u p q = (q.0 ∙ p.0, q.1 ∙ p.1)

module _ {N A : Type 0} where
  -- `m` returns `a` from `w`, and leaves `w'`.
  abbrev pub Returns : M N A → World N → A → World N → Type 0
  Returns m w a w' = m w ≡ (ok a, w')

  pub pure-Returns : (a b : A) (w w' : World N) → Returns (pure a) w b w' → (a ≡ b) × (w ≡ w')
  unfolding ◌>>=◌
  pure-Returns a b w w' p = (ok_injective a b (ap (λ r. r.0) p), ap (λ r. r.1) p)

  pub raise-Returns : (e : Err) (b : A) (w w' : World N) → Returns (raise e) w b w' → ⊥
  unfolding ◌>>=◌
  raise-Returns e b w w' p = ok-≢-err b e (ap (λ r. r.0) p)

  pair_of : (x : Result A × N) (a : A) (n : N) → x.0 ≡ ok a → x.1 ≡ n → x ≡ (ok a, n)
  pair_of (r, m) a n p q i = (p i, q i)

  -- A request that returns was answered.
  pub call-Returns :
      (f : N → Result A × N) (a : A) (w w' : World N)
      → Returns (call f) w a w'
      → (f w.outside ≡ (ok a, w'.outside)) × Still w w'
  unfolding ◌>>=◌
  call-Returns f a w w' p = (
    pair_of (f w.outside) a w'.outside (ap (λ r. r.0) p) (ap (λ r. r.1.outside) p),
    (sym (ap (λ r. r.1.trace) p), sym (ap (λ r. r.1.bindings) p)),
  )

  pub observe-Returns :
      (f : N → A × N) (a : A) (w w' : World N)
      → Returns (observe f) w a w'
      → (f w.outside ≡ (a, w'.outside)) × Still w w'
  unfolding ◌>>=◌
  observe-Returns f a w w' p =
      (read (f w.outside) p, (sym (ap (λ r. r.1.trace) p), sym (ap (λ r. r.1.bindings) p)))
    where
      read :
          (x : A × N)
          → ◌≡◌ {A = Result A × World N} (ok x.0, record w { outside = x.1 }) (ok a, w')
          → x ≡ (a, w'.outside)
      read (b, n) q i = (ok_injective b a (ap (λ r. r.0) q) i, (q i).1.outside)

  pub lift-Returns :
      (r : Result A) (a : A) (w w' : World N) → Returns (lift r) w a w' → (r ≡ ok a) × (w ≡ w')
  unfolding ◌>>=◌
  lift-Returns r a w w' p = (ap (λ x. x.0) p, ap (λ x. x.1) p)

  pub annotate-Returns :
      (text : String) (m : M N A) (a : A) (w w' : World N)
      → Returns (annotate text m) w a w'
      → Returns m w a w'
  unfolding ◌>>=◌
  annotate-Returns text m a w w' p = bare (m w) p
    where
      bare :
          (r : Result A × World N)
          → elim r.0 [ ok b ↦ r | err e ↦ (err (wrap text e), r.1) ] ≡ (ok a, w')
          → r ≡ (ok a, w')
      bare (ok b, v) q = q
      bare (err e, v) q = absurd (cc q)

  pub attempt-Returns :
      (m : M N A) (r : Result A) (w w' : World N) → attempt m w ≡ (ok r, w') → m w ≡ (r, w')
  unfolding ◌>>=◌
  attempt-Returns m r w w' p = attempted (m w) p
    where
      or_first : Result A → Result (Result A) → Result A
      or_first s (ok t) = t
      or_first s (err e) = s

      attempted :
          (x : Result A × World N)
          → ◌≡◌ {A = Result (Result A) × World N} (ok x.0, x.1) (ok r, w')
          → x ≡ (r, w')
      attempted (s, v) q i = (ap (λ y. or_first s y.0) q i, ap (λ y. y.1) q i)

  pub if-Returns :
      {C : Type 0} (t : Bool) (m k : M N A) (b : A) (w w' : World N)
      → Returns (if t then m else k) w b w'
      → (t ≡ true → Returns m w b w' → C)
      → (t ≡ false → Returns k w b w' → C)
      → C
  if-Returns true m k b w w' p hm hk = hm refl p
  if-Returns false m k b w w' p hm hk = hk refl p

module _ {N A B : Type 0} where
  pub bind-Returns :
      {C : Type 0} (m : M N A) (k : A → M N B) (b : B) (w w' : World N)
      → Returns (m >>= k) w b w'
      → ((a : A) (v : World N) → Returns m w a v → Returns (k a) v b w' → C)
      → C
  unfolding ◌>>=◌
  bind-Returns {C = C} m k b w w' p then_on = parts (m w) refl p
    where
      parts : (r : Result A × World N) → m w ≡ r → continue k r ≡ (ok b, w') → C
      parts (ok a, v) q p = then_on a v q p
      parts (err e, v) q p = absurd (cc p)

module _ {N A : Type 0} where
  -- The answer of a request whose failure is a value.
  pub asked-Returns :
      (f : N → Result A × N) (r : Result A) (w w' : World N)
      → attempt (call f) w ≡ (ok r, w')
      → (f w.outside ≡ (r, w'.outside)) × Still w w'
  unfolding ◌>>=◌
  asked-Returns f r w w' p =
      let q = attempt-Returns (call f) r w w' p in
      (
        λ i. ((q i).0, (q i).1.outside),
        (sym (ap (λ x. x.1.trace) q), sym (ap (λ x. x.1.bindings) q)),
      )

  -- A function returns one thing from one world.
  pub same-Returns :
      (m : M N A) (a b : A) (w v u : World N)
      → Returns m w a v
      → Returns m w b u
      → (a ≡ b) × (v ≡ u)
  same-Returns m a b w v u p q =
      (ok_injective a b (ap (λ r. r.0) (sym p ∙ q)), ap (λ r. r.1) (sym p ∙ q))
