-- ===== src/Lifecycle/Sidecar/RoundTrip.antt =====
-- The sidecar directory as a map from sessions to bindings (runtime/sidecar.go).
use gc_runtime_nomad.Base.{
  Option, none, some, List, [], ◌∷◌, String, Dict, lookup, insert, erase, ◌≡◌, sym, ap, ◌∙◌,
}
use gc_runtime_nomad.Lifecycle.Error.{ok}
use gc_runtime_nomad.Lifecycle.Types.{Binding}
use gc_runtime_nomad.Lifecycle.World.{
  DiskOp, Lifecycle, FileBody, json, garbage, saved, removed, World, gets, emit, put_bindings,
  ◌>>=◌,
}
use gc_runtime_nomad.Lifecycle.World.Outcomes.{
  Returns, pure-Returns, raise-Returns, observe-Returns, if-Returns, bind-Returns,
}
use gc_runtime_nomad.Lifecycle.Sidecar.{decode, disk, load, save, remove, read_all, list}

-- The file that decodes to what a load answers.
abbrev pub held : Option Binding → Option FileBody
held none = none
held (some b) = some (json b)

-- The files of bindings, in the directory's order.
abbrev pub bodies : List Binding → List FileBody
bodies [] = []
bodies (b ∷ rest) = json b ∷ bodies rest

abbrev pub contents : Dict FileBody → List FileBody
contents [] = []
contents ((_, body) ∷ files) = body ∷ contents files

module _ {N : Type 0} where
  decode-Returns :
      (f : Option FileBody) (o : Option Binding) (w v : World N)
      → Returns (decode f) w o v
      → f ≡ held o
  unfolding decode
  decode-Returns none o w v p = ap held ((pure-Returns none o w v p).0)
  decode-Returns (some (json b)) o w v p = ap held ((pure-Returns (some b) o w v p).0)
  decode-Returns (some garbage) o w v p = absurd (raise-Returns _ o w v p)

  gets_files :
      (files : Dict FileBody) (w v : World N)
      → Returns (gets (λ x. x.bindings)) w files v
      → (files ≡ w.bindings) × (v ≡ w)
  unfolding ◌>>=◌
  gets_files files w v p = (picked, ap (λ r. r.1) (sym p))
    where
      picked : files ≡ w.bindings
      picked = sym ((pure-Returns w.bindings files w v p).0)

module _ {N : Type 0} (l : Lifecycle N) where
  disk-Returns :
      (op : DiskOp) (what : String) (u : Unit {0}) (w v : World N)
      → Returns (disk l op what) w u v
      → v.bindings ≡ w.bindings
  unfolding disk
  disk-Returns op what u w v p = bind-Returns _ _ _ _ _ p λ failed x read rest.
      if-Returns failed _ _ _ _ _ rest (λ _ q. absurd (raise-Returns _ _ _ _ q))
        λ _ q.
          ap (λ z. z.bindings) (sym ((pure-Returns _ _ _ _ q).1))
          ∙ (observe-Returns _ _ _ _ read).1.1

  pub load-Returns :
      (session : String) (o : Option Binding) (w v : World N)
      → Returns (load l session) w o v
      → lookup session w.bindings ≡ held o
  unfolding load
  load-Returns session o w v p = bind-Returns _ _ _ _ _ p λ u x opened rest.
      bind-Returns _ _ _ _ _ rest λ files y got decoded.
        ap (lookup session) (sym ((gets_files files x y got).0 ∙ disk-Returns _ _ u w x opened))
        ∙ decode-Returns _ o y v decoded

  commit-Returns :
      (b : Binding) (files : Dict FileBody) (u : Unit {0}) (w v : World N)
      → Returns (put_bindings files >>= λ _. emit (saved b)) w u v
      → v.bindings ≡ files
  unfolding ◌>>=◌
  commit-Returns b files u w v p = ap (λ r. r.1.bindings) (sym p)

  erase-Returns :
      (session : String) (files : Dict FileBody) (u : Unit {0}) (w v : World N)
      → Returns (put_bindings files >>= λ _. emit (removed session)) w u v
      → v.bindings ≡ files
  unfolding ◌>>=◌
  erase-Returns session files u w v p = ap (λ r. r.1.bindings) (sym p)

  pub save-Returns :
      (b : Binding) (u : Unit {0}) (w v : World N)
      → Returns (save l b) w u v
      → v.bindings ≡ insert b.session_name (json b) w.bindings
  unfolding save
  save-Returns b u w v p = bind-Returns _ _ _ _ _ p λ _ x written rest.
      bind-Returns _ _ _ _ _ rest λ _ y renamed rest₂.
        bind-Returns _ _ _ _ _ rest₂ λ files z got done.
          commit-Returns b _ u z v done
          ∙ ap (insert b.session_name (json b)) (
              (gets_files files y z got).0
              ∙ disk-Returns _ _ _ x y renamed
              ∙ disk-Returns _ _ _ w x written)

  pub remove-Returns :
      (session : String) (u : Unit {0}) (w v : World N)
      → Returns (remove l session) w u v
      → v.bindings ≡ erase session w.bindings
  unfolding remove
  remove-Returns session u w v p = bind-Returns _ _ _ _ _ p λ _ x unlinked rest.
      bind-Returns _ _ _ _ _ rest λ files z got done.
        erase-Returns session _ u z v done
        ∙ ap (erase session) ((gets_files files x z got).0 ∙ disk-Returns _ _ _ w x unlinked)

  read_all-Returns :
      (files : Dict FileBody) (found : List Binding) (w v : World N)
      → Returns (read_all l files) w found v
      → contents files ≡ bodies found
  unfolding read_all
  read_all-Returns [] found w v p = ap bodies ((pure-Returns _ _ _ _ p).0)
  read_all-Returns ((session, json b) ∷ files) found w v p = bind-Returns _ _ _ _ _ p λ _ x _ rest.
      bind-Returns _ _ _ _ _ rest λ others y read done.
        ap (λ t. json b ∷ t) (read_all-Returns files others x y read)
        ∙ ap bodies ((pure-Returns _ _ _ _ done).0)
  read_all-Returns ((session, garbage) ∷ files) found w v p =
      bind-Returns _ _ _ _ _ p λ _ x _ rest. absurd (raise-Returns _ _ _ _ rest)

-- A listing that succeeds has the binding of every file of the directory, in its order, and nothing
-- else: a file that does not decode fails the listing.
pub list-contents :
    {N : Type 0} (l : Lifecycle N) (found : List Binding) (w v : World N)
    → list l w ≡ (ok found, v)
    → contents w.bindings ≡ bodies found
unfolding list
list-contents l found w v p = bind-Returns _ _ _ _ _ p λ u x opened rest.
    bind-Returns _ _ _ _ _ rest λ files y got read.
      ap contents (sym ((gets_files files x y got).0 ∙ disk-Returns l _ _ u w x opened))
      ∙ read_all-Returns l files found y v read
