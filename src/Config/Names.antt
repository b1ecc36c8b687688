-- ===== src/Config/Names.antt =====
-- config.py: the sets of names that validation has seen, as the lists of their members.
use llm_endpoint.Prelude.{String, List, [], ◌∷◌, contains, if◌then◌else◌}
use llm_endpoint.Prelude.Text.{truthy}

-- A name is added unless it is empty or there already.
unfoldable pub add_name : String → List String → List String
add_name name seen =
    if truthy name then (if contains name seen then seen else name ∷ seen) else seen

-- the set after a loop over items with these names
unfoldable pub add_names : List String → List String → List String
unfolding add_name
add_names [] seen = seen
add_names (name ∷ names) seen = add_names names (add_name name seen)
