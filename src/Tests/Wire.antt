-- ===== src/Tests/Wire.antt =====
-- The wire formats at small inputs.
use gc_runtime_nomad.Base.{ℕ, List, [], ◌∷◌, String, ◌≡◌, ◌↔◌, ◌⊎◌, some, Bool}
use gc_runtime_nomad.Wire.Quote.{parse_exec_wire_argv}
use gc_runtime_nomad.Wire.Texts.{separable_transport_launch}
use gc_runtime_nomad.Wire.Texts.Laws.{IsLaunch, IsWired, separable_transport_launch-IsLaunch_iff}
use gc_runtime_nomad.Wire.Quote.Form.{wire}
use gc_runtime_nomad.Wire.Quote.RoundTrip.{parse_exec_wire_argv-wire_iff}

-- 'a' 'b'
abbrev two_words : List ℕ
two_words = 39 ∷ 97 ∷ 39 ∷ 32 ∷ 39 ∷ 98 ∷ 39 ∷ []

parse_exec_wire_argv-wire_iff_example :
    (parse_exec_wire_argv two_words ≡ some ((97 ∷ []) ∷ (98 ∷ []) ∷ []))
    ↔ ((trailing : Bool) × (two_words ≡ wire ((97 ∷ []) ∷ (98 ∷ []) ∷ []) trailing))
parse_exec_wire_argv-wire_iff_example =
    parse_exec_wire_argv-wire_iff two_words ((97 ∷ []) ∷ (98 ∷ []) ∷ [])

abbrev launch_argv : List String
launch_argv = "tmux" ∷ "new-session" ∷ "-d" ∷ "-s" ∷ "main" ∷ "it's" ∷ []

separable_transport_launch-IsLaunch_iff_example :
    (separable_transport_launch launch_argv ≡ some launch_argv)
    ↔ (IsLaunch launch_argv × ((launch_argv ≡ launch_argv) ⊎ IsWired launch_argv launch_argv))
separable_transport_launch-IsLaunch_iff_example =
    separable_transport_launch-IsLaunch_iff launch_argv launch_argv
