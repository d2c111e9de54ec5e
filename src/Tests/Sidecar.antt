-- ===== src/Tests/Sidecar.antt =====
-- The sidecar directory at small worlds.
use gc_runtime_nomad.Base.{ℕ, [], ◌∷◌, ◌≡◌, refl}
use gc_runtime_nomad.Lifecycle.Sidecar.RoundTrip.{bodies, contents, list-contents}
use gc_runtime_nomad.Lifecycle.Sidecar.{list, read_all}
use gc_runtime_nomad.Lifecycle.Error.{ok}
use gc_runtime_nomad.Lifecycle.World.{World, ◌>>=◌}
use gc_runtime_nomad.Lifecycle.Sidecar.{disk, save, remove}
use gc_runtime_nomad.Tests.Cluster.{small, bound, launched, bound_world}

-- The directory after a save and after a removal.
abbrev saved_world : World ℕ
saved_world = (save small launched bound_world).1

abbrev removed_world : World ℕ
removed_world = (remove small "s" bound_world).1

list_runs : list small bound_world ≡ (ok (bound ∷ []), bound_world)
unfolding ◌>>=◌ list disk read_all
list_runs = refl

list-contents_example : contents bound_world.bindings ≡ bodies (bound ∷ [])
list-contents_example = list-contents small (bound ∷ []) bound_world bound_world list_runs
