-- ===== src/Nodes/Labels/Tests.antt =====
-- Labels of a concrete node.
use code_server_spawner.Common.{String, true, false, [], ◌∷◌, ◌≡◌, refl}
use code_server_spawner.Common.Dict.{Dict}
use code_server_spawner.Nodes.Labels.{ensure_node_labels, ensure_label_on_node}

abbrev labels : Dict String
labels = ("cs.tier", "large") ∷ ("cs.capacity", "12") ∷ []

abbrev existing : Dict String
existing = ("zone", "b") ∷ ("cs.capacity", "6") ∷ []

ensure_node_labels-existing :
    ensure_node_labels true false labels existing
    ≡ (true, ("zone", "b") ∷ ("cs.capacity", "12") ∷ ("cs.tier", "large") ∷ [])
unfolding ensure_node_labels
ensure_node_labels-existing = refl

ensure_label_on_node-again :
    (ensure_label_on_node true false "x" [] ≡ (true, ("x", "true") ∷ []))
    × (ensure_label_on_node true false "x" (("x", "true") ∷ []) ≡ (false, ("x", "true") ∷ []))
unfolding ensure_label_on_node
ensure_label_on_node-again = (refl, refl)
