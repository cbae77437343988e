-- ===== src/NotebookDoc/Tests.antt =====
-- Notebooks with a stream whose output is updated until another output comes between, and with an
-- output that has a display id.
use runt.Prelude.{
  String, Option, if◌then◌else◌, ◌==◌, false, none, some, List, [], ◌∷◌, ◌≡◌, refl, string_eq,
}
use runt.Automerge.Memory.{memory}
use runt.Json.Tree.{trees}
use runt.NotebookDoc.{new, get_cells, add_cell, append_output, upsert_stream_output}
use runt.NotebookDoc.View.{snapshots}
use runt.NotebookDoc.Located.{Changes}
use runt.NotebookDoc.Edits.{found_it, with_appended, append_output-Changes}
use runt.NotebookDoc.Display.{updated_output, update_output, Displays, update_output-Displays}
use runt.NotebookDoc.Added.{add_cell-Inserts, Inserts}
use runt.NotebookDoc.Streams.{upserted, upsert_result, upsert_stream_output-Changes}
use runt.NotebookDoc.Refinement.{
  Operation, add, delete, source, count, append, upsert, run_on_doc, new-Holds, run-get_cells,
}

abbrev operations_test : List Operation
operations_test =
    add 0 "a" "code"
    ∷ add 9 "b" "markdown"
    ∷ add 1 "c" "raw"
    ∷ source "a" "print(1)"
    ∷ count "a" "5"
    ∷ upsert "a" "out1" none
    ∷ upsert "a" "out2" (some (record { index = 0; manifest_hash = "out1" }))
    ∷ append "a" "err"
    ∷ upsert "a" "out3" (some (record { index = 0; manifest_hash = "out2" }))
    ∷ delete "c"
    ∷ []

run-get_cells_example :
    get_cells memory (run_on_doc memory operations_test (new memory "n"))
    ≡ record {
      id = "a";
      cell_type = "code";
      source = "print(1)";
      execution_count = "5";
      outputs = "out2" ∷ "err" ∷ "out3" ∷ [];
    }
      ∷ record {
        id = "b";
        cell_type = "markdown";
        source = "";
        execution_count = "null";
        outputs = [];
      }
      ∷ []
run-get_cells_example = run-get_cells memory "n" operations_test

-- A notebook with one cell.
abbrev one_cell :
    Inserts memory
      (add_cell memory 0 "a" "code" (new memory "n"))
      0
      (record { id = "a"; cell_type = "code"; source = ""; execution_count = "null"; outputs = [] })
      []
one_cell = add_cell-Inserts memory (new memory "n") [] 0 "a" "code" (new-Holds memory "n")

upsert_stream_output-Changes_example :
    Changes memory
      (upsert_stream_output memory "a" "out" none (add_cell memory 0 "a" "code" (new memory "n")).1)
      (false, 0)
      (upsert_result none)
      (upserted none "out")
      "a"
      (snapshots memory one_cell.held)
upsert_stream_output-Changes_example =
    upsert_stream_output-Changes memory (add_cell memory 0 "a" "code" (new memory "n")).1
      one_cell.held "a" "out" none one_cell.holds

-- The same notebook with an output that has a display id.
abbrev shown_doc : memory.Doc
shown_doc = (append_output memory "a" "old" (add_cell memory 0 "a" "code" (new memory "n")).1).1

abbrev shown_one :
    Changes memory
      (append_output memory "a" "old" (add_cell memory 0 "a" "code" (new memory "n")).1)
      false
      found_it
      (with_appended memory "old")
      "a"
      (snapshots memory one_cell.held)
shown_one =
    append_output-Changes memory (add_cell memory 0 "a" "code" (new memory "n")).1 one_cell.held "a"
      "old" one_cell.holds

abbrev update_test : String → Option String
update_test =
    updated_output trees
      (λ s.
        if s == "old"
        then some (
            trees.object
              (("transient", trees.object (("display_id", trees.string "bar") ∷ [])) ∷ []))
        else none)
      (λ _. "new") "bar" (trees.string "50%") []

update_shown : update_test "old" ≡ some "new"
unfolding updated_output runt.Prelude.Map.get
update_shown = refl

update_output-Displays_example :
    Displays memory update_test
      (update_output memory update_test shown_doc)
      (snapshots memory shown_one.held)
update_output-Displays_example =
    update_output-Displays memory update_test shown_doc shown_one.held shown_one.holds
