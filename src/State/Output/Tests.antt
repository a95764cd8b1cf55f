-- ===== src/State/Output/Tests.antt =====
-- Outputs: the theorem at a message with an output that has no path, and one that is there twice.
use hydra_queue_runner.Base.Map
use hydra_queue_runner.Base.Map.{Map}
use hydra_queue_runner.Base.{◌%◌, ◌≡◌, refl, none, some, [], ◌∷◌}
use hydra_queue_runner.State.Output.{BuildResultInfo, name_only, output_of_result, with_path}
use hydra_queue_runner.Base.Text.{codes, text_Eq}
use hydra_queue_runner.State.Output.Collect.{last_path, total_nar, output_of_result-outputs}
use hydra_queue_runner.Base.Words.{two_64}

abbrev message : BuildResultInfo
message = record {
  outputs =
      some (name_only (codes "doc"))
      ∷ some (with_path (codes "out") (codes "/nix/store/a") 10 5)
      ∷ some (with_path (codes "out") (codes "/nix/store/b") 20 7)
      ∷ [];
  nix_support = none;
  import_time_ms = 1;
  build_time_ms = 2;
  upload_time_ms = 3;
}

output_of_result-outputs_example :
    (Map.get (codes "out") (output_of_result (codes "/nix/store") message).outputs
      ≡ last_path (codes "/nix/store") (codes "out") message.outputs)
    × ((output_of_result (codes "/nix/store") message).size ≡ total_nar message.outputs % two_64)
output_of_result-outputs_example =
    output_of_result-outputs (codes "/nix/store") (codes "out") message

last_path_of_out :
    last_path (codes "/nix/store") (codes "out") message.outputs
    ≡ some (record { base_name = codes "b" })
unfolding last_path hydra_queue_runner.Base.Text.text_eq
    hydra_queue_runner.NixUtils.StorePath.new_store_path
last_path_of_out = refl
