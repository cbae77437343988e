-- ===== src/NotebookMetadata/Tests.antt =====
-- A snapshot that is saved over a file with uv dependencies and a signature.
use runt.Prelude.{String, none, some, [], ◌∷◌, true, ◌≡◌, refl, string_eq}
use runt.Prelude.Options.{and_then}
use runt.Prelude.Map.{Map, get}
use runt.Json.Tree.{Tree, text, trees, tree_object}
use runt.NotebookMetadata.{
  NotebookMetadataSnapshot, new_conda, merge_into_metadata_value, from_metadata_value,
  runt_of_object,
}
use runt.NotebookMetadata.Merge.{
  is_readable, merged_with, namespace_of, merge_into_metadata_value-runt,
}
use runt.NotebookMetadata.Trees.{serdes_test}

abbrev uv_namespace : Map String Tree
uv_namespace =
    ("schema_version", text "1")
    ∷ ("env_id", text "a")
    ∷ ("trust_signature", text "s")
    ∷ (
      "uv",
      serdes_test.uvs.to_value (record { dependencies = "numpy" ∷ []; requires_python = none }),
    )
    ∷ []

abbrev file_metadata : Map String Tree
file_metadata = ("runt", tree_object uv_namespace) ∷ ("authors", text "me") ∷ []

-- The user has switched to conda.
abbrev snapshot_test : NotebookMetadataSnapshot
unfolding new_conda
snapshot_test = record { kernelspec = none; language_info = none; runt = new_conda "a" }

readable_test : is_readable trees serdes_test (get "runt" file_metadata) ≡ true
unfolding get runt_of_object
readable_test = refl

merge_into_metadata_value-runt_example :
    (from_metadata_value trees serdes_test
      (merge_into_metadata_value trees serdes_test snapshot_test (tree_object file_metadata))).runt
    ≡ merged_with trees serdes_test
        (and_then
          (namespace_of trees serdes_test (get "runt" file_metadata))
          (runt_of_object trees serdes_test))
        snapshot_test.runt
merge_into_metadata_value-runt_example =
    merge_into_metadata_value-runt trees serdes_test snapshot_test (tree_object file_metadata)
      file_metadata refl readable_test

-- The uv dependencies, which the snapshot has no more, are still there.
kept_uv :
    (merged_with trees serdes_test
      (and_then
        (namespace_of trees serdes_test (get "runt" file_metadata))
        (runt_of_object trees serdes_test))
      snapshot_test.runt).uv
    ≡ some (record { dependencies = "numpy" ∷ []; requires_python = none })
unfolding get runt_of_object snapshot_test new_conda
kept_uv = refl
