-- ===== src/NotebookState/Tests.antt =====
-- A notebook with a code cell and a text cell, and old metadata.
use runt.Prelude.{
  String, true, false, none, some, [], ◌∷◌, ◌≡◌, refl, string_eq, map_some, unwrap_or, ap, ◌↔◌,
  contains,
}
use runt.Prelude.Options.{and_then}
use runt.Prelude.Map.{Map, get}
use runt.Json.Tree.{Tree, text, trees}
use runt.Runtime.{Lowercase, Runtime}
use runt.EnvSync.{detect_notebook_kernel_type}
use runt.NotebookMetadata.{Serde, DenoMetadata, NotebookMetadataSnapshot, runt_of_object}
use runt.NotebookMetadata.Merge.{merged_with, namespace_of}
use runt.NotebookMetadata.Trees.{serdes_test}
use runt.NotebookState.{
  Nbformat, code_cell, markdown_cell, NotebookState, Metadata, join, source_to_lines,
  update_cell_source, get_cell_source, add_cell, delete_cell,
}
use runt.NotebookState.Migration.{migrate_legacy_metadata}
use runt.NotebookState.Namespaced.{lookup, migrate-lookup}
use runt.NotebookState.Lines.{source_to_lines_iff, are_lines}
use runt.NotebookState.Editing.{update-get_cell_source, delete-get_cell_source, IsWellFormed}
use runt.NotebookState.Session.{Session, start, edit, add, delete, Session-IsWellFormed}
use runt.NotebookState.Create.{get_runtime}
use runt.NotebookState.Snapshot.{
  DenoDependencies, snapshot_from_nbformat, merge_snapshot_into_nbformat, with_legacy_deno,
}
use runt.NotebookState.Kinds.{get_runtime-detect}
use runt.NotebookState.RoundTrip.{snapshot-merge_snapshot}

-- Lower case, for names that have no upper case.
abbrev lower_test : Lowercase
lower_test = record { to_lowercase = λ s. s; to_lowercase_lower = λ s h. refl }

abbrev legacy_of : DenoMetadata → DenoDependencies
legacy_of m = record {
  permissions = m.permissions;
  import_map = m.import_map;
  config = m.config;
  flexible_npm_imports = unwrap_or m.flexible_npm_imports true;
}

-- Outputs that are text.
abbrev nb_test : Nbformat trees
nb_test = record {
  Output = String;
  CellMetadata = Unit {0};
  empty_cell_metadata = tt;
  to_value = λ o. some (text o);
}

lines_test : source_to_lines "a\n\nb" ≡ "a\n" ∷ "\n" ∷ "b" ∷ []
unfolding source_to_lines
lines_test = refl

source_to_lines_iff_example :
    (source_to_lines "a\n\nb" ≡ "a\n" ∷ "\n" ∷ "b" ∷ [])
    ↔ ((join ("a\n" ∷ "\n" ∷ "b" ∷ []) ≡ "a\n\nb") × (are_lines ("a\n" ∷ "\n" ∷ "b" ∷ []) ≡ true))
source_to_lines_iff_example = source_to_lines_iff "a\n\nb" ("a\n" ∷ "\n" ∷ "b" ∷ [])

abbrev old_metadata : Map String Tree
old_metadata = ("uv", text "u") ∷ ("conda", text "c") ∷ ("authors", text "me") ∷ []

abbrev metadata_test : Metadata Tree
metadata_test = record {
  kernelspec =
      some (record { name = "ir"; display_name = "R"; language = some "R"; additional = [] });
  language_info =
      some (record { name = "python"; version = none; codemirror_mode = none; additional = [] });
  authors = none;
  additional = old_metadata;
}

abbrev state_test : NotebookState trees nb_test
state_test = record {
  notebook = record {
    metadata = metadata_test;
    nbformat = 4;
    nbformat_minor = 5;
    cells =
        code_cell "a" tt none ("x = 1\n" ∷ "x" ∷ []) ("1" ∷ [])
        ∷ markdown_cell "b" tt ("# T" ∷ []) none
        ∷ [];
  };
  path = none;
  dirty = false;
}

update-get_cell_source_example :
    get_cell_source trees nb_test "b" (update_cell_source trees nb_test "b" "y\nz" state_test)
    ≡ map_some (λ _. "y\nz") (get_cell_source trees nb_test "b" state_test)
update-get_cell_source_example = update-get_cell_source trees nb_test "b" "b" "y\nz" state_test

state-IsWellFormed : IsWellFormed trees nb_test state_test
unfolding contains
state-IsWellFormed = ((refl, (refl, tt)), refl)

delete-get_cell_source_example :
    get_cell_source trees nb_test "a" (delete_cell trees nb_test "a" state_test).1 ≡ none
delete-get_cell_source_example =
    delete-get_cell_source trees nb_test "a" "a" state_test state-IsWellFormed

-- A cell is added behind the first, and the first is deleted.
abbrev added_test : NotebookState trees nb_test
added_test = (add_cell trees nb_test "c" "raw" (some "a") state_test).1

fresh_test : contains {A = String} ("a" ∷ "b" ∷ []) "c" ≡ false
unfolding contains
fresh_test = refl

session_test : Session trees nb_test state_test (delete_cell trees nb_test "a" added_test).1
session_test =
    edit state_test added_test (delete_cell trees nb_test "a" added_test).1
      (edit state_test state_test added_test (start state_test)
        (add "c" "raw" (some "a") state_test fresh_test))
      (delete "a" added_test)

Session-IsWellFormed_example :
    IsWellFormed trees nb_test (delete_cell trees nb_test "a" added_test).1
Session-IsWellFormed_example =
    Session-IsWellFormed trees nb_test state_test (delete_cell trees nb_test "a" added_test).1
      session_test state-IsWellFormed

migrate-lookup_example :
    lookup trees "uv" (migrate_legacy_metadata trees old_metadata).1
    ≡ lookup trees "uv" old_metadata
migrate-lookup_example = migrate-lookup trees "uv" old_metadata refl

abbrev legacy_denos_test : Serde trees DenoDependencies
legacy_denos_test = record {
  to_value = λ d. serdes_test.denos.to_value (record {
    permissions = d.permissions;
    import_map = d.import_map;
    config = d.config;
    flexible_npm_imports = some d.flexible_npm_imports;
  });
  from_value = λ v. map_some legacy_of (serdes_test.denos.from_value v);
  from_value-to_value = λ d. ap (map_some legacy_of) (
      serdes_test.denos.from_value-to_value (record {
        permissions = d.permissions;
        import_map = d.import_map;
        config = d.config;
        flexible_npm_imports = some d.flexible_npm_imports;
      }));
  is_null-to_value = λ d. refl;
}

get_runtime-detect_example : get_runtime lower_test metadata_test ≡ Runtime.other "ir"
get_runtime-detect_example =
    get_runtime-detect lower_test trees serdes_test legacy_denos_test metadata_test

-- The daemon takes the same notebook for a Python one.
daemon_runtime :
    detect_notebook_kernel_type lower_test
      (snapshot_from_nbformat trees serdes_test legacy_denos_test metadata_test)
    ≡ some "python"
unfolding detect_notebook_kernel_type snapshot_from_nbformat
daemon_runtime = refl

abbrev snapshot_test : NotebookMetadataSnapshot
snapshot_test = record {
  kernelspec = none;
  language_info = none;
  runt = record { schema_version = "1"; env_id = none; uv = none; conda = none; deno = none };
}

snapshot-merge_snapshot_example :
    snapshot_from_nbformat trees serdes_test legacy_denos_test
      (merge_snapshot_into_nbformat trees serdes_test legacy_denos_test snapshot_test metadata_test)
    ≡ record snapshot_test {
      runt = with_legacy_deno trees serdes_test legacy_denos_test old_metadata (
          merged_with trees serdes_test
            (and_then
              (namespace_of trees serdes_test (get "runt" old_metadata))
              (runt_of_object trees serdes_test))
            snapshot_test.runt);
    }
unfolding get
snapshot-merge_snapshot_example =
    snapshot-merge_snapshot trees serdes_test legacy_denos_test snapshot_test metadata_test refl
