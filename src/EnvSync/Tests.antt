-- ===== src/EnvSync/Tests.antt =====
-- A kernel that was launched with conda dependencies and no channels.
use runt.Prelude.{true, false, none, some, [], ◌∷◌, ◌≡◌, ◌↔◌, refl, string_eq, contains, retain}
use runt.NotebookMetadata.{NotebookMetadataSnapshot}
use runt.EnvSync.{
  LaunchedEnvConfig, compute_env_sync_diff, build_launched_config, check_and_broadcast_sync_state,
  diff_unless_empty, get_inline_conda_deps, get_inline_conda_channels,
}
use runt.EnvSync.Drift.{compute_env_sync_diff-none, IsInSync, inline_of, launch-diff}

abbrev conda_test : NotebookMetadataSnapshot
conda_test = record {
  kernelspec = none;
  language_info = none;
  runt = record {
    schema_version = "1";
    env_id = none;
    uv = none;
    conda = some (record { dependencies = "numpy" ∷ []; channels = []; python = none });
    deno = none;
  };
}

abbrev launched_test : LaunchedEnvConfig
unfolding build_launched_config
launched_test =
    build_launched_config "l" "python" "conda:inline" (some ("numpy" ∷ [])) (some conda_test) none
      none

launch-diff_example :
    compute_env_sync_diff
      (build_launched_config "l" "python" "conda:inline"
        (inline_of "conda:inline" conda_test)
        (some conda_test)
        none
        none)
      conda_test
    ≡ diff_unless_empty [] [] true false
unfolding get_inline_conda_deps
launch-diff_example = launch-diff "l" "python" "conda:inline" conda_test none none

compute_env_sync_diff-none_example :
    (compute_env_sync_diff launched_test conda_test ≡ none) ↔ IsInSync launched_test conda_test
compute_env_sync_diff-none_example = compute_env_sync_diff-none launched_test conda_test

-- The clients are told of a change that nobody made.
broadcast_test :
    check_and_broadcast_sync_state (some conda_test) (some (true, launched_test))
    ≡ some (record {
      in_sync = false;
      diff =
          some (record { added = []; removed = []; channels_changed = true; deno_changed = false });
    })
unfolding check_and_broadcast_sync_state compute_env_sync_diff launched_test build_launched_config
    get_inline_conda_channels contains retain
broadcast_test = refl
