-- ===== src/State/Output.antt =====
-- `BuildOutput` of queue-runner/src/state/build.rs: what a build made. The store, the messages of the
-- builders and the rows of the database are arguments. Sizes are `u64`, rows hold `i64` patterns.
pub mod Collect
mod Tests
use hydra_queue_runner.Base.{
  ℕ, ◌/◌, Bool, false, not, Option, none, some, List, [], ◌∷◌, map, ltb, if◌then◌else◌, is_some,
  unwrap_or,
}
use hydra_queue_runner.Base.Map
use hydra_queue_runner.Base.Map.{Map}
use hydra_queue_runner.NixUtils.StorePath.{StorePath, new_store_path, print_store_path}
use hydra_queue_runner.Base.Text.{Text, text_Eq}
use hydra_queue_runner.State.Machine.Counters.{BuildTimings}
use hydra_queue_runner.Db.Models.{from_i32, status_eq, BuildStatus}
use hydra_queue_runner.Base.Words.{add64, two_63}
use hydra_queue_runner.NixUtils.Derivation.{Output}
use hydra_queue_runner.State.Heap.{Build}

pub record BuildProduct : Type 0 where
  pub path : Option StorePath
  pub default_path : Option Text
  pub type : Text
  pub subtype : Text
  pub name : Text
  pub is_regular : Bool
  pub sha256hash : Option Text
  pub file_size : Option ℕ

-- The row `OwnedBuildProduct` of crates/db/src/models.rs.
pub record OwnedBuildProduct : Type 0 where
  pub type : Text
  pub subtype : Text
  pub filesize : Option ℕ
  pub sha256hash : Option Text
  pub path : Option Text
  pub name : Text
  pub defaultpath : Option Text

unfoldable pub product_of_row : Text → OwnedBuildProduct → BuildProduct
product_of_row store_dir v = record {
  path = elim v.path [ none ↦ none | some p ↦ some (new_store_path store_dir p) ];
  default_path = v.defaultpath;
  type = v.type;
  subtype = v.subtype;
  name = v.name;
  is_regular = is_some v.filesize;
  sha256hash = v.sha256hash;
  file_size = v.filesize;
}

-- The product that a builder reports, and that of the crate `shared`: both have these fields.
pub record SentProduct : Type 0 where
  pub path : Text
  pub default_path : Text
  pub type : Text
  pub subtype : Text
  pub name : Text
  pub is_regular : Bool
  pub sha256hash : Option Text
  pub file_size : Option ℕ

unfoldable pub product_of_sent : Text → SentProduct → BuildProduct
product_of_sent store_dir v = record {
  path = some (new_store_path store_dir v.path);
  default_path = some v.default_path;
  type = v.type;
  subtype = v.subtype;
  name = v.name;
  is_regular = v.is_regular;
  sha256hash = v.sha256hash;
  file_size = v.file_size;
}

pub record BuildMetric : Type 0 where
  pub name : Text
  pub unit : Option Text
  pub value : ℕ

pub record BuildOutput : Type 0 where
  pub failed : Bool
  pub timings : BuildTimings
  pub release_name : Option Text
  pub closure_size : ℕ
  pub size : ℕ
  pub products : List BuildProduct
  pub outputs : Map Text StorePath
  pub metrics : List BuildMetric

abbrev pub no_timings : BuildTimings
no_timings = record { import_elapsed = 0; build_elapsed = 0; upload_elapsed = 0 }

-- The row `BuildOutput` of crates/db/src/models.rs.
pub record OutputRow : Type 0 where
  pub id : ℕ
  pub buildstatus : Option ℕ
  pub releasename : Option Text
  pub closuresize : Option ℕ
  pub size : Option ℕ

-- `TryFrom<db::models::BuildOutput>`; `none` is an error: the status is missing or unknown.
unfoldable pub output_of_row : OutputRow → Option BuildOutput
unfolding from_i32 status_eq
output_of_row v = elim v.buildstatus [
  | none ↦ none
  | some i ↦ elim (from_i32 i) [
    | none ↦ none
    | some status ↦ some (record {
      failed = not (status_eq status BuildStatus.success);
      timings = no_timings;
      release_name = v.releasename;
      closure_size = unwrap_or v.closuresize 0;
      size = unwrap_or v.size 0;
      products = [];
      outputs = [];
      metrics = [];
    })
  ]
]

-- `Output` of the protocol.
pub data SentOutput : Type 0 where
  name_only : Text → SentOutput
  with_path : (name path : Text) → (closure_size nar_size : ℕ) → SentOutput

pub record NixSupport : Type 0 where
  pub failed : Bool
  pub hydra_release_name : Option Text
  pub products : List SentProduct
  pub metrics : List BuildMetric

pub record BuildResultInfo : Type 0 where
  pub outputs : List (Option SentOutput)
  pub nix_support : Option NixSupport
  pub import_time_ms : ℕ
  pub build_time_ms : ℕ
  pub upload_time_ms : ℕ

pub record Collected : Type 0 where
  pub outputs : Map Text StorePath
  pub closure_size : ℕ
  pub nar_size : ℕ

unfoldable pub add_output : Text → StorePath → ℕ → ℕ → Collected → Collected
unfolding add64
add_output name path closure nar c = record {
  outputs = Map.insert name path c.outputs;
  closure_size = add64 c.closure_size closure;
  nar_size = add64 c.nar_size nar;
}

abbrev pub nothing_collected : Collected
nothing_collected = record { outputs = []; closure_size = 0; nar_size = 0 }

-- The loop over the outputs of a message: outputs without a path are passed over.
unfoldable pub collect_sent : Text → List (Option SentOutput) → Collected → Collected
unfolding add_output new_store_path
collect_sent store_dir [] c = c
collect_sent store_dir (none ∷ os) c = collect_sent store_dir os c
collect_sent store_dir (some (name_only _) ∷ os) c = collect_sent store_dir os c
collect_sent store_dir (some (with_path name path closure nar) ∷ os) c =
    collect_sent store_dir os (add_output name (new_store_path store_dir path) closure nar c)

-- `From<BuildResultInfo>`
unfoldable pub output_of_result : Text → BuildResultInfo → BuildOutput
unfolding collect_sent product_of_sent
output_of_result store_dir v =
    let c = collect_sent store_dir v.outputs nothing_collected in
    let support : NixSupport = elim v.nix_support [
      | none ↦ record { failed = false; hydra_release_name = none; products = []; metrics = [] }
      | some s ↦ s
    ] in
    record {
      failed = support.failed;
      timings = record {
        import_elapsed = v.import_time_ms;
        build_elapsed = v.build_time_ms;
        upload_elapsed = v.upload_time_ms;
      };
      release_name = support.hydra_release_name;
      closure_size = c.closure_size;
      size = c.nar_size;
      products = map (product_of_sent store_dir) support.products;
      outputs = c.outputs;
      metrics = support.metrics;
    }

-- What the local store says: the size of an archive, if the path is known, and that of a closure.
pub record StoreInfo : Type 0 where
  pub nar_size : StorePath → Option ℕ
  pub closure_size : StorePath → ℕ

-- The loop of `BuildOutput::new`.
unfoldable pub collect_local : StoreInfo → List Output → Collected → Collected
unfolding add_output
collect_local info [] c = c
collect_local info (o ∷ os) c = collect_local info os (elim o.path [
  | none ↦ c
  | some path ↦ elim (info.nar_size path) [
    | none ↦ c
    | some nar ↦ add_output o.name path (info.closure_size path) nar c
  ]
])

-- `BuildOutput::new`; `support` is what the files of the outputs say, `none` an error in reading.
unfoldable pub output_new :
    Text → StoreInfo → (List Output → Option NixSupport) → List Output → Option BuildOutput
unfolding collect_local product_of_sent
output_new store_dir info support outputs = elim (support outputs) [
  | none ↦ none
  | some s ↦
      let c = collect_local info outputs nothing_collected in
      some (record {
        failed = s.failed;
        timings = no_timings;
        release_name = s.hydra_release_name;
        closure_size = c.closure_size;
        size = c.nar_size;
        products = map (product_of_sent store_dir) s.products;
        outputs = c.outputs;
        metrics = s.metrics;
      })
]

pub record ProductRow : Type 0 where
  pub type : Text
  pub subtype : Text
  pub filesize : Option ℕ
  pub sha256hash : Option Text
  pub path : Option Text
  pub name : Text
  pub defaultpath : Option Text

pub record MarkBuildSuccessData : Type 0 where
  pub id : ℕ
  pub name : Text
  pub project_name : Text
  pub jobset_name : Text
  pub finished_in_db : Bool
  pub timestamp : ℕ
  pub failed : Bool
  pub closure_size : ℕ
  pub size : ℕ
  pub release_name : Option Text
  pub outputs : Map Text Text
  pub products : List ProductRow
  pub metrics : List BuildMetric

-- `i64::try_from(v).ok()`
unfoldable pub try_i64 : ℕ → Option ℕ
try_i64 v = if ltb v two_63 then some v else none

unfoldable pub row_of_product : Text → BuildProduct → ProductRow
unfolding try_i64 print_store_path
row_of_product prefix v = record {
  type = v.type;
  subtype = v.subtype;
  filesize = elim v.file_size [ none ↦ none | some n ↦ try_i64 n ];
  sha256hash = v.sha256hash;
  path = elim v.path [ none ↦ none | some p ↦ some (print_store_path prefix p) ];
  name = v.name;
  defaultpath = v.default_path;
}

unfoldable pub get_mark_build_success_data : Text → Build → BuildOutput → MarkBuildSuccessData
unfolding row_of_product print_store_path
get_mark_build_success_data prefix b res = record {
  id = b.id;
  name = b.name;
  project_name = b.jobset.project_name;
  jobset_name = b.jobset.name;
  finished_in_db = b.finished_in_db;
  timestamp = b.timestamp / 1000000000;
  failed = res.failed;
  closure_size = res.closure_size;
  size = res.size;
  release_name = res.release_name;
  outputs = map (λ (e : Text × StorePath). (e.0, print_store_path prefix e.1)) res.outputs;
  products = map (row_of_product prefix) res.products;
  metrics = res.metrics;
}
