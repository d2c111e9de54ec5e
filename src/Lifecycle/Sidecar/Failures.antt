-- ===== src/Lifecycle/Sidecar/Failures.antt =====
-- What a failed operation of the sidecar leaves (runtime/sidecar.go: load, save, remove).
use gc_runtime_nomad.Base.{
  Bool, true, false, Option, none, some, String, Dict, ◌≡◌, refl, sym, ap, ◌∙◌, if◌then◌else◌,
}
use gc_runtime_nomad.Lifecycle.Error.{Err, wrap, message, Result, ok, err}
use gc_runtime_nomad.Lifecycle.Types.{Binding}
use gc_runtime_nomad.Lifecycle.World.{
  DiskOp, Lifecycle, FileBody, json, garbage, Event, World, M, pure, raise, gets, emit,
  put_bindings, continue, ◌>>=◌,
}
use gc_runtime_nomad.Lifecycle.Sidecar.{decode, disk, load, save, remove}

module _ {N : Type 0} (l : Lifecycle N) where
  -- A function that fails only before it writes.
  abbrev pub FailsClean : {A : Type 0} → M N A → Type 0
  FailsClean {A = A} m = (w v : World N) (e : Err) → m w ≡ (err e, v) → v.bindings ≡ w.bindings

  -- A function that only reads.
  abbrev pub Reads : {A : Type 0} → M N A → Type 0
  Reads m = (w : World N) → (m w).1.bindings ≡ w.bindings

  bind-FailsClean :
      {A B : Type 0} (m : M N A) (k : A → M N B)
      → Reads m
      → ((a : A) → FailsClean (k a))
      → FailsClean (m >>= k)
  unfolding ◌>>=◌
  bind-FailsClean m k reads clean w v e p = parts (m w) (reads w) p
    where
      parts :
          (r : Result _ × World N)
          → r.1.bindings ≡ w.bindings
          → continue k r ≡ (err e, v)
          → v.bindings ≡ w.bindings
      parts (ok a, x) same q = clean a x v e q ∙ same
      parts (err f, x) same q = ap (λ y. y.1.bindings) (sym q) ∙ same

  disk-Reads : (op : DiskOp) (what : String) → Reads (disk l op what)
  unfolding disk ◌>>=◌
  disk-Reads op what w = branch (l.disk_fails op w.outside).0
    where
      branch :
          (failed : Bool)
          → ((if failed then raise (wrap what (message "input/output error")) else pure tt)
              (record w { outside = (l.disk_fails op w.outside).1 })).1.bindings
            ≡ w.bindings
      branch true = refl
      branch false = refl

  gets-Reads : Reads (gets (λ w. w.bindings))
  unfolding ◌>>=◌
  gets-Reads w = refl

  decode-FailsClean : (o : Option FileBody) → FailsClean (decode o)
  unfolding decode ◌>>=◌
  decode-FailsClean none w v e p = absurd (cc (ap (λ r. r.0) p))
  decode-FailsClean (some (json b)) w v e p = absurd (cc (ap (λ r. r.0) p))
  decode-FailsClean (some garbage) w v e p = ap (λ r. r.1.bindings) (sym p)

  bind-Reads :
      {A B : Type 0} (m : M N A) (k : A → M N B)
      → Reads m
      → ((a : A) → Reads (k a))
      → Reads (m >>= k)
  unfolding ◌>>=◌
  bind-Reads m k reads then_reads w = parts (m w) (reads w)
    where
      parts :
          (r : Result _ × World N)
          → r.1.bindings ≡ w.bindings
          → (continue k r).1.bindings ≡ w.bindings
      parts (ok a, x) same = then_reads a x ∙ same
      parts (err f, x) same = same

  decode-Reads : (o : Option FileBody) → Reads (decode o)
  unfolding decode ◌>>=◌
  decode-Reads none w = refl
  decode-Reads (some (json b)) w = refl
  decode-Reads (some garbage) w = refl

  pub load-Reads : (session : String) → Reads (load l session)
  unfolding load
  load-Reads session =
      bind-Reads _ _ (disk-Reads _ _) λ _. bind-Reads _ _ gets-Reads λ files. decode-Reads _

  pub load-FailsClean : (session : String) → FailsClean (load l session)
  unfolding load
  load-FailsClean session =
      bind-FailsClean _ _ (disk-Reads _ _)
        λ _. bind-FailsClean _ _ gets-Reads λ files. decode-FailsClean _

  commit-FailsClean :
      (files : Dict FileBody) (m : M N (Unit {0}))
      → ((w : World N) → (m w).0 ≡ ok tt)
      → FailsClean (put_bindings files >>= λ _. m)
  unfolding ◌>>=◌
  commit-FailsClean files m total w v e p = absurd (cc (sym (total _) ∙ ap (λ r. r.0) p))

  emit_total : (event : Event) (w : World N) → (emit {N = N} event w).0 ≡ ok tt
  unfolding ◌>>=◌
  emit_total event w = refl

  pub save-FailsClean : (b : Binding) → FailsClean (save l b)
  unfolding save
  save-FailsClean b = bind-FailsClean _ _ (disk-Reads _ _) λ _.
      bind-FailsClean _ _ (disk-Reads _ _)
        λ _. bind-FailsClean _ _ gets-Reads λ files. commit-FailsClean _ _ (emit_total _)

  pub remove-FailsClean : (session : String) → FailsClean (remove l session)
  unfolding remove
  remove-FailsClean session =
      bind-FailsClean _ _ (disk-Reads _ _)
        λ _. bind-FailsClean _ _ gets-Reads λ files. commit-FailsClean _ _ (emit_total _)
