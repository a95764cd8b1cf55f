-- ===== src/NixUtils/Derivation/Tests.antt =====
-- Derivations: tests on a fixed-output derivation.
use hydra_queue_runner.Base.{◌≡◌, refl, true, some, [], ◌∷◌}
use hydra_queue_runner.Base.Text.{codes}
use hydra_queue_runner.NixUtils.StorePath.{StorePath}
use hydra_queue_runner.NixUtils.Derivation.{Derivation, is_ca, get_required_system_features}

abbrev source_path : StorePath
source_path = record { base_name = codes "abc123def45678901234567890123456-source" }

abbrev fetched : Derivation
fetched = record {
  env = record { inner = (codes "requiredSystemFeatures", codes "kvm  big-parallel") ∷ [] };
  input_drvs = [];
  outputs =
      record {
        name = codes "out";
        path = some source_path;
        hash = some (codes "abc");
        hash_algo = some (codes "sha256");
      }
      ∷ [];
  name = source_path;
  system = codes "x86_64-linux";
}

features_test : get_required_system_features fetched.env ≡ codes "kvm" ∷ codes "big-parallel" ∷ []
unfolding get_required_system_features hydra_queue_runner.Base.Map.get
features_test = refl

is_ca_test : is_ca fetched ≡ true
unfolding is_ca
is_ca_test = refl
