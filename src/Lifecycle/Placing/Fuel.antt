-- ===== src/Lifecycle/Placing/Fuel.antt =====
-- The looks that confirmDispatchPlaced takes (runtime/ops.go, confirmDispatchPlaced).
use gc_runtime_nomad.Base.{
  ℕ, zero, suc, ◌+◌, ◌*◌, ◌≤◌, false, Option, none, some, List, String, ◌≡◌, refl, subst, ltb,
  str_eq, arith,
}
use gc_runtime_nomad.Lifecycle.Types.{Binding, AllocRecord}
use gc_runtime_nomad.Lifecycle.World.{Lifecycle, World, call}
use gc_runtime_nomad.Lifecycle.World.Outcomes.{Returns, call-Returns, annotate-Returns}
use gc_runtime_nomad.Lifecycle.World.Fuel.{IsClock, read_time, slept, bind_agree, if_agree}
use gc_runtime_nomad.Lifecycle.Roster.{any_live}
use gc_runtime_nomad.Lifecycle.Placing.{
  alloc_placement_timeout, alloc_placement_poll, placed_loop, placed_from,
}

module _ {N : Type 0} (l : Lifecycle N) (time : N → ℕ) (clock : IsClock l time) (deadline : ℕ) where
  -- `f` more looks pass the deadline.
  abbrev Passes : ℕ → World N → Type 0
  Passes f w = suc deadline ≤ time w.outside + f * alloc_placement_poll

  listing_time :
      (child : String) (answer : List AllocRecord × ℕ) (w v : World N)
      → Returns (call (l.client.list_allocs_for_job child 0 0)) w answer v
      → time w.outside ≤ time v.outside
  listing_time child answer w v p =
      subst (λ x. time w.outside ≤ time x.1) ((call-Returns _ answer w v p).0)
        (clock.lists child 0 0 w.outside)

  resumes :
      (f now : ℕ) (w v u x : World N)
      → Passes f w
      → time w.outside ≤ time v.outside
      → (now ≡ time v.outside) × (time v.outside ≤ time u.outside)
      → ltb deadline now ≡ false
      → time u.outside + alloc_placement_poll ≤ time x.outside
      → (g : ℕ) × (f ≡ suc g) × Passes g x
  resumes zero now w v u x h listed read early waited =
      absurd (ground (arith, h, listed, read.0, read.1, early))
  resumes (suc g) now w v u x h listed read early waited =
      (g, refl, omega (arith, h, listed, read.0, read.1, waited))

  -- One look, given that the looks behind it agree where one look less passes the deadline.
  look_agree :
      (f m m' : ℕ) (b : Binding) (status : String) (w : World N)
      → Passes f w
      → ((g : ℕ) (s : String) (x : World N)
          → f ≡ suc g
          → Passes g x
          → placed_loop l m deadline b s x ≡ placed_loop l m' deadline b s x)
      → placed_loop l (suc m) deadline b status w ≡ placed_loop l (suc m') deadline b status w
  unfolding placed_loop
  look_agree f m m' b status w h same = bind_agree _ _ _ w λ answer v listing.
      if_agree (any_live answer.0) _ _ _ _ v (λ _. refl)
        λ _. bind_agree _ _ _ v λ now u read.
          if_agree (ltb deadline now) _ _ _ _ u (λ _. refl)
            λ early. bind_agree _ _ _ u λ rested x sleeping.
              let (at, later) = read_time l time clock now v u read in
              let listed = listing_time _ answer w v (annotate-Returns _ _ _ _ _ listing) in
              let waited = slept l time clock _ rested u x sleeping in
              let (g, left, passes) = resumes f now w v u x h listed (at, later) early waited in
              same g _ x left passes

  placed_agree :
      (f m : ℕ) (b : Binding) (status : String) (w : World N)
      → Passes f w
      → f ≤ m
      → placed_loop l (suc f) deadline b status w ≡ placed_loop l (suc m) deadline b status w
  placed_agree zero m b status w h le =
      look_agree zero zero m b status w h λ g s x left pass. absurd (omega (arith, left))
  placed_agree (suc f) zero b status w h le = absurd (omega (arith, le))
  placed_agree (suc f) (suc m) b status w h le =
      look_agree (suc f) (suc f) (suc m) b status w h
        λ g s x left pass. placed_agree f m b s x (omega (arith, left, pass)) (omega (arith, le))

-- If time does not run backwards, the look for a placement gets enough looks: 32 looks and any
-- greater number end with the same result in the same world, so the loop ends for one of its own
-- reasons.
pub placed_from-looks :
    {N : Type 0} (l : Lifecycle N) (time : N → ℕ) (clock : IsClock l time) (more : ℕ)
    (o : Option Binding) (w : World N)
    → 32 ≤ more
    → placed_from l 32 o w ≡ placed_from l more o w
unfolding placed_from
placed_from-looks l time clock zero o w le = absurd (omega (arith, le))
placed_from-looks l time clock (suc more) none w le = refl
placed_from-looks l time clock (suc more) (some b) w le =
    if_agree (str_eq b.child_job_id "") _ _ _ _ w (λ _. refl)
      λ _. bind_agree _ _ _ w λ now v read.
        let (at, later) = read_time l time clock now w v read in
        placed_agree l time clock (now + alloc_placement_timeout) 31 more b "" v
          (omega (arith, at, later)) (omega (arith, le))
