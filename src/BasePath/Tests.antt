-- ===== src/BasePath/Tests.antt =====
-- app/base_path.py: runs at the path /docs/v1.
use docsight.Prelude.{ℕ, ◌≡◌, refl, true, some, none, List, [], ◌∷◌, arith}
use docsight.Values.{codes}
use docsight.BasePath.{
  Middleware, bad_request, passed, normalize_base_path, parse_trusted_prefix_hops,
  trusted_header_value, call, check_path, has_double_slash, split, valid_segment, drop_one,
}
use docsight.BasePath.Segments.{render}
use docsight.BasePath.Paths.{IsPath, normalize_base_path-IsPath, normalize-render}
use docsight.BasePath.Sources.{Sources, call-Sources}

abbrev path : List ℕ
path = codes "/docs/v1"

path_test : normalize_base_path (some path) ≡ some path
unfolding normalize_base_path check_path has_double_slash split valid_segment
path_test = refl

dots_test : normalize_base_path (some (codes "/docs/../etc")) ≡ none
unfolding normalize_base_path check_path has_double_slash split valid_segment
dots_test = refl

hops_test : parse_trusted_prefix_hops (some (codes "32")) ≡ some 32
unfolding parse_trusted_prefix_hops
hops_test = refl

too_many_test : parse_trusted_prefix_hops (some (codes "33")) ≡ none
unfolding parse_trusted_prefix_hops
too_many_test = refl

normalize_base_path-IsPath_example : IsPath path × (normalize_base_path (some path) ≡ some path)
normalize_base_path-IsPath_example = normalize_base_path-IsPath (some path) path path_test

segments_test : valid_segment (codes "docs") ≡ true
unfolding valid_segment
segments_test = refl

normalize-render_example :
    (normalize_base_path (some (render (codes "docs" ∷ []))) ≡ some (render (codes "docs" ∷ [])))
    × (split (drop_one (render (codes "docs" ∷ []))) ≡ codes "docs" ∷ [])
normalize-render_example = normalize-render (codes "docs") [] (rw segments_test refl) (omega arith)

abbrev proxy : Middleware
proxy = record { fixed_prefix = none; trusted_hops = 1 }

passed_test : call proxy [] (path ∷ []) ≡ passed path
unfolding call trusted_header_value
passed_test = rw path_test refl

refused_test : call proxy [] [] ≡ bad_request
unfolding call trusted_header_value
refused_test = refl

call-Sources_example : Sources proxy [] (path ∷ []) path
call-Sources_example = call-Sources proxy [] (path ∷ []) path tt passed_test
