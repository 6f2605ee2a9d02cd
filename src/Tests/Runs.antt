-- ===== src/Tests/Runs.antt =====
-- A run of the tool for both backends.
use ooverlap.Prelude.{◌≤◌, refl, Bool, true, false, List, [], ◌∷◌}
use ooverlap.Prelude.Result.{ok}
use ooverlap.Search.Latency.{all_reduce}
use ooverlap.Search.Backends.{
  nccl, ooverlap_backend, both, Args, CurvePath, given, curve, legacy_curve, Run, fast,
  bandwidth_curve_paths, first_existing, curve_candidates, load_comm_array, specific_path, is_both,
  requested_bandwidth_path, use_predictive, run_for_backend, backends, run_backends, main,
}
use ooverlap.Search.Backends.Started.{AreRequested, main-AreSearches}

abbrev args : Args
args = record {
  m = 8192;
  n = 8192;
  comm_op = all_reduce;
  comm_backend = both;
  bandwidth_path = "";
  nccl_bandwidth_path = "";
  ooverlap_bandwidth_path = "curve.pt";
  predictive_search = false;
}

-- For NCCL only the file with the old name is there.
abbrev exists_file : CurvePath → Bool
exists_file (given name) = true
exists_file (curve backend op world_size) = false
exists_file (legacy_curve op world_size) = true

abbrev searches : List Run
searches = fast nccl (legacy_curve all_reduce 2) ∷ fast ooverlap_backend (given "curve.pt") ∷ []

main-AreSearches_example : (2 ≤ 2) × AreRequested exists_file (λ run. ok tt) 2 args searches
unfolding main run_backends run_for_backend backends use_predictive requested_bandwidth_path is_both
    specific_path load_comm_array curve_candidates first_existing bandwidth_curve_paths
main-AreSearches_example = main-AreSearches exists_file (λ run. ok tt) 2 args {runs = searches} refl
