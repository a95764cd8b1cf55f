-- ===== src/NixUtils/Derivation.antt =====
-- crates/nix-utils/src/drv.rs: derivations as the queue runner reads them. Parsing is the work of
-- an external crate and is not modelled.
mod Tests
use hydra_queue_runner.Base.{
  ◌≡◌, Bool, true, not, ◌&&◌, Option, none, some, List, [], ◌∷◌, arith, if◌then◌else◌, is_some,
  unwrap_or, retain, any,
}
use hydra_queue_runner.Base.Text.{Text, codes, text_eq, text_Eq}
use hydra_queue_runner.Base.Map.{Eq, Map}
use hydra_queue_runner.Base.Map
use hydra_queue_runner.NixUtils.StorePath.{StorePath, split_on}

pub record Output : Type 0 where
  pub name : Text
  pub path : Option StorePath
  pub hash : Option Text
  pub hash_algo : Option Text

pub record CaOutput : Type 0 where
  pub name : Text
  pub path : StorePath
  pub hash : Text
  pub hash_algo : Text

pub record DerivationEnv : Type 0 where
  pub inner : Map Text Text

pub record Derivation : Type 0 where
  pub env : DerivationEnv
  pub input_drvs : List Text
  pub outputs : List Output
  pub name : StorePath
  pub system : Text

-- `DerivationEnv::get`: an empty value counts as missing.
unfoldable pub env_get : DerivationEnv → Text → Option Text
env_get e k = elim (Map.get k e.inner) [
  | none ↦ none
  | some v ↦ if text_eq v [] then none else some v
]

unfoldable pub get_name : DerivationEnv → Option Text
unfolding env_get
get_name e = env_get e (codes "name")

unfoldable pub get_output_hash : DerivationEnv → Option Text
unfolding env_get
get_output_hash e = env_get e (codes "outputHash")

unfoldable pub get_output_hash_algo : DerivationEnv → Option Text
unfolding env_get
get_output_hash_algo e = env_get e (codes "outputHashAlgo")

unfoldable pub get_output_hash_mode : DerivationEnv → Option Text
unfolding env_get
get_output_hash_mode e = env_get e (codes "outputHashMode")

unfoldable pub get_required_system_features : DerivationEnv → List Text
unfolding env_get split_on text_eq
get_required_system_features e =
    retain (λ v. not (text_eq v []))
      (split_on b' ' [] (unwrap_or (env_get e (codes "requiredSystemFeatures")) []))

unfoldable pub is_ca : Derivation → Bool
is_ca d = any (λ o. is_some o.hash && is_some o.hash_algo) d.outputs

-- One step of the `find_map` of `get_ca_output`: the fields are asked for in turn.
unfoldable pub ca_of : Output → Option CaOutput
ca_of o = elim o.path [
  | none ↦ none
  | some p ↦ elim o.hash [
    | none ↦ none
    | some h ↦ elim o.hash_algo [
      | none ↦ none
      | some a ↦ some (record { name = o.name; path = p; hash = h; hash_algo = a })
    ]
  ]
]

unfoldable pub first_ca : List Output → Option CaOutput
unfolding ca_of
first_ca [] = none
first_ca (o ∷ os) = let rest = first_ca os in elim (ca_of o) [ none ↦ rest | some c ↦ some c ]

unfoldable pub get_ca_output : Derivation → Option CaOutput
unfolding first_ca
get_ca_output d = first_ca d.outputs

first_ca-is_ca :
    (os : List Output) (c : CaOutput)
    → first_ca os ≡ some c
    → any (λ (o : Output). is_some o.hash && is_some o.hash_algo) os ≡ true
unfolding first_ca
first_ca-is_ca [] c h = ground arith
first_ca-is_ca (o ∷ os) c h = ground (arith, first_ca-is_ca os c)

-- Only a derivation that counts as content-addressed has a content-addressed output.
pub get_ca_output-is_ca :
    (d : Derivation) (c : CaOutput) → get_ca_output d ≡ some c → is_ca d ≡ true
unfolding get_ca_output is_ca
get_ca_output-is_ca d c h = first_ca-is_ca d.outputs c h
