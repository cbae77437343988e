-- ===== src/NotebookMetadata/Trees.antt =====
-- The structs of the metadata as trees: a value of the interface to serde, for concrete runs.
use runt.Prelude.{String, Bool, true, false, Option, none, some, List, [], ◌∷◌, ◌≡◌, refl, ap}
use runt.Json.Tree.{Tree, Trees, text, node, items, nothing, end, field, last, item, trees}
use runt.NotebookMetadata.{
  UvInlineMetadata, CondaInlineMetadata, DenoMetadata, KernelspecSnapshot, Serdes,
}

abbrev of_texts : List String → Trees
of_texts [] = last
of_texts (s ∷ ss) = item (text s) (of_texts ss)

abbrev texts_from : Trees → List String
texts_from (item (text s) ts) = s ∷ texts_from ts
texts_from _ = []

pub texts_from-of_texts : (ss : List String) → texts_from (of_texts ss) ≡ ss
texts_from-of_texts [] = refl
texts_from-of_texts (s ∷ ss) = ap (◌∷◌ s) (texts_from-of_texts ss)

abbrev strings_to : List String → Tree
strings_to ss = items (of_texts ss)

abbrev strings_from : Tree → List String
strings_from (items ts) = texts_from ts
strings_from _ = []

abbrev optional_to : Option String → Tree
optional_to none = nothing
optional_to (some s) = text s

abbrev optional_from : Tree → Option String
optional_from (text s) = some s
optional_from _ = none

pub optional_from-optional_to : (o : Option String) → optional_from (optional_to o) ≡ o
optional_from-optional_to none = refl
optional_from-optional_to (some s) = refl

abbrev flag_to : Option Bool → Tree
flag_to none = nothing
flag_to (some true) = node end
flag_to (some false) = text ""

abbrev flag_from : Tree → Option Bool
flag_from (node fs) = some true
flag_from (text s) = some false
flag_from _ = none

pub flag_from-flag_to : (o : Option Bool) → flag_from (flag_to o) ≡ o
flag_from-flag_to none = refl
flag_from-flag_to (some true) = refl
flag_from-flag_to (some false) = refl

abbrev kernelspec_from : Tree → Option KernelspecSnapshot
kernelspec_from (node (field _ (text n) (field _ (text d) (field _ l _)))) =
    some (record { name = n; display_name = d; language = optional_from l })
kernelspec_from _ = none

abbrev uv_from : Tree → Option UvInlineMetadata
uv_from (node (field _ d (field _ r _))) =
    some (record { dependencies = strings_from d; requires_python = optional_from r })
uv_from _ = none

abbrev conda_from : Tree → Option CondaInlineMetadata
conda_from (node (field _ d (field _ c (field _ p _)))) =
    some (record {
      dependencies = strings_from d;
      channels = strings_from c;
      python = optional_from p;
    })
conda_from _ = none

abbrev deno_from : Tree → Option DenoMetadata
deno_from (node (field _ p (field _ i (field _ c (field _ f _))))) = some (record {
  permissions = strings_from p;
  import_map = optional_from i;
  config = optional_from c;
  flexible_npm_imports = flag_from f;
})
deno_from _ = none

abbrev pub serdes_test : Serdes trees
serdes_test = record {
  kernelspecs = record {
    to_value = λ ks. node (
        field "name" (text ks.name) (
          field "display_name" (text ks.display_name)
            (field "language" (optional_to ks.language) end)));
    from_value = kernelspec_from;
    from_value-to_value = λ ks.
        ap (λ l. some (record { name = ks.name; display_name = ks.display_name; language = l }))
          (optional_from-optional_to ks.language);
    is_null-to_value = λ ks. refl;
  };
  uvs = record {
    to_value = λ u. node (
        field "dependencies" (strings_to u.dependencies)
          (field "requires-python" (optional_to u.requires_python) end));
    from_value = uv_from;
    from_value-to_value = λ u.
        rw (texts_from-of_texts u.dependencies, optional_from-optional_to u.requires_python) refl;
    is_null-to_value = λ u. refl;
  };
  condas = record {
    to_value = λ c. node (
        field "dependencies" (strings_to c.dependencies)
          (field "channels" (strings_to c.channels) (field "python" (optional_to c.python) end)));
    from_value = conda_from;
    from_value-to_value = λ c.
        rw
          (
            texts_from-of_texts c.dependencies,
            texts_from-of_texts c.channels,
            optional_from-optional_to c.python,
          )
          refl;
    is_null-to_value = λ c. refl;
  };
  denos = record {
    to_value = λ d. node (
        field "permissions" (strings_to d.permissions) (
          field "import_map" (optional_to d.import_map) (
            field "config" (optional_to d.config)
              (field "flexible_npm_imports" (flag_to d.flexible_npm_imports) end))));
    from_value = deno_from;
    from_value-to_value = λ d.
        rw
          (
            texts_from-of_texts d.permissions,
            optional_from-optional_to d.import_map,
            optional_from-optional_to d.config,
            flag_from-flag_to d.flexible_npm_imports,
          )
          refl;
    is_null-to_value = λ d. refl;
  };
}
