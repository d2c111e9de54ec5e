-- ===== src/Lifecycle/World/Fuel.antt =====
-- Loops that wait until a deadline: what they take from the clock, and when two functions agree.
use gc_runtime_nomad.Base.{
  ℕ, ◌+◌, ◌≤◌, Bool, true, false, List, String, ◌≡◌, refl, sym, ap, ◌∙◌, subst, if◌then◌else◌,
}
use gc_runtime_nomad.Lifecycle.Error.{Result, ok, err}
use gc_runtime_nomad.Lifecycle.World.{Lifecycle, World, M, observe, continue, ◌>>=◌}
use gc_runtime_nomad.Lifecycle.World.Outcomes.{Returns, observe-Returns}

-- Time does not run backwards: the clock tells the time of the outside, a sleep lasts at least as
-- long as it was asked to, and a command in a box or a list of allocations takes some time or none.
pub record IsClock {N : Type 0} (l : Lifecycle N) (time : N → ℕ) : Type 0 where
  pub reads : (n : N) → (l.clock n).0 ≡ time n
  pub ticks : (n : N) → time n ≤ time (l.clock n).1
  pub sleeps : (d : ℕ) (n : N) → time n + d ≤ time (l.sleep d n)
  pub runs :
      (alloc task : String) (command : List String) (n : N)
      → time n ≤ time (l.client.exec_alloc alloc task command n).1
  pub lists :
      (job : String) (since wait : ℕ) (n : N)
      → time n ≤ time (l.client.list_allocs_for_job job since wait n).1

module _ {N : Type 0} (l : Lifecycle N) (time : N → ℕ) (clock : IsClock l time) where
  pub read_time :
      (now : ℕ) (w v : World N)
      → Returns (observe l.clock) w now v
      → (now ≡ time w.outside) × (time w.outside ≤ time v.outside)
  read_time now w v p =
      let (read, _) = observe-Returns l.clock now w v p in
      (
        ap (λ x. x.0) (sym read) ∙ clock.reads w.outside,
        subst (λ x. time w.outside ≤ time x.1) read (clock.ticks w.outside),
      )

  pub slept :
      (d : ℕ) (u : Unit {0}) (w v : World N)
      → Returns (observe (λ n. (tt, l.sleep d n))) w u v
      → time w.outside + d ≤ time v.outside
  slept d u w v p =
      subst (λ x. time w.outside + d ≤ time x.1) ((observe-Returns _ u w v p).0)
        (clock.sleeps d w.outside)

module _ {N A B : Type 0} where
  pub bind_agree :
      (m : M N A) (k k' : A → M N B) (w : World N)
      → ((a : A) (v : World N) → Returns m w a v → k a v ≡ k' a v)
      → (m >>= k) w ≡ (m >>= k') w
  unfolding ◌>>=◌
  bind_agree m k k' w same = agree (m w) refl
    where
      agree : (r : Result A × World N) → m w ≡ r → continue k r ≡ continue k' r
      agree (ok a, v) p = same a v p
      agree (err e, v) p = refl

module _ {N A : Type 0} where
  pub if_agree :
      (t : Bool) (m k m' k' : M N A) (w : World N)
      → (t ≡ true → m w ≡ m' w)
      → (t ≡ false → k w ≡ k' w)
      → (if t then m else k) w ≡ (if t then m' else k') w
  if_agree true m k m' k' w hm hk = hm refl
  if_agree false m k m' k' w hm hk = hk refl
