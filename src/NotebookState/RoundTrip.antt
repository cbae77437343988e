-- ===== src/NotebookState/RoundTrip.antt =====
-- A snapshot that is merged into the metadata of the application and taken again.
use runt.Prelude.{
  String, true, Option, none, some, string_eq, map_some, unwrap_or, ◌≡◌, refl, ap, ◌∙◌,
}
use runt.Prelude.Options.{and_then, or_else}
use runt.Prelude.Map.{Map, get-insert}
use runt.Prelude.Map
use runt.Json.{Json}
use runt.NotebookMetadata.{
  RuntMetadata, KernelspecSnapshot, LanguageInfoSnapshot, NotebookMetadataSnapshot, Serde, Serdes,
  runt_of_object, merged_runt,
}
use runt.NotebookMetadata.Merge.{merged_with, namespace_of, is_readable, merged_runt-read}
use runt.NotebookState.{KernelSpec, LanguageInfo, Metadata}
use runt.NotebookState.Snapshot.{
  DenoDependencies, empty_runt, convert_legacy_deno, with_legacy_deno, runt_or_legacy,
  runt_from_additional, kernelspec_snapshot, language_info_snapshot, merged_kernelspec,
  merged_language_info, snapshot_from_nbformat, merge_snapshot_into_nbformat,
}

module _ (json : Json) (serdes : Serdes json) (legacy_denos : Serde json DenoDependencies) where
  open json use {Value}

  kernelspec_kept :
      (existing : Option (KernelSpec Value)) (o : Option KernelspecSnapshot)
      → map_some
          (kernelspec_snapshot json serdes legacy_denos)
          (map_some (merged_kernelspec json serdes legacy_denos existing) o)
        ≡ o
  kernelspec_kept existing none = refl
  kernelspec_kept existing (some ks) = refl

  language_info_kept :
      (existing : Option (LanguageInfo Value)) (o : Option LanguageInfoSnapshot)
      → map_some
          (language_info_snapshot json serdes legacy_denos)
          (map_some (merged_language_info json serdes legacy_denos existing) o)
        ≡ o
  language_info_kept existing none = refl
  language_info_kept existing (some li) = refl

  -- The namespace that is read from a dictionary with it.
  runt_read :
      (m additional : Map String Value) (r : RuntMetadata)
      → runt_of_object json serdes m ≡ some r
      → runt_from_additional json serdes legacy_denos (Map.insert "runt" (json.object m) additional)
        ≡ with_legacy_deno json serdes legacy_denos additional r
  runt_read m additional r h =
      let after = Map.insert "runt" (json.object m) additional in
      ap (λ o. runt_or_legacy json serdes legacy_denos o after)
        (get-insert "runt" "runt" (json.object m) additional)
      ∙ ap
          (λ o.
            with_legacy_deno json serdes legacy_denos after
              (unwrap_or (and_then o (runt_of_object json serdes)) empty_runt))
          (json.as_object-object m)
      ∙ ap (λ o. with_legacy_deno json serdes legacy_denos after (unwrap_or o empty_runt)) h
      ∙ ap
          (λ o. record r {
            deno =
                or_else r.deno (map_some convert_legacy_deno (and_then o legacy_denos.from_value));
          })
          (get-insert "deno" "runt" (json.object m) additional)

  -- A snapshot that is merged and taken again has its kernel specification and language, and its
  -- namespace with the parts it lacks taken from the notebook: from its namespace, and the Deno settings
  -- at last from the legacy key.
  pub snapshot-merge_snapshot :
      (snapshot : NotebookMetadataSnapshot) (metadata : Metadata Value)
      → is_readable json serdes (Map.get "runt" metadata.additional) ≡ true
      → snapshot_from_nbformat json serdes legacy_denos
          (merge_snapshot_into_nbformat json serdes legacy_denos snapshot metadata)
        ≡ record snapshot {
          runt = with_legacy_deno json serdes legacy_denos metadata.additional (
              merged_with json serdes
                (and_then
                  (namespace_of json serdes (Map.get "runt" metadata.additional))
                  (runt_of_object json serdes))
                snapshot.runt);
        }
  unfolding snapshot_from_nbformat merge_snapshot_into_nbformat
  snapshot-merge_snapshot snapshot metadata readable =
      let runt =
        runt_read (merged_runt json serdes snapshot.runt (Map.get "runt" metadata.additional))
          metadata.additional _
          (merged_runt-read json serdes snapshot.runt (Map.get "runt" metadata.additional)
            readable) in
      rw
        (
          runt,
          kernelspec_kept metadata.kernelspec snapshot.kernelspec,
          language_info_kept metadata.language_info snapshot.language_info,
        )
        refl
