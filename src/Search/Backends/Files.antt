-- ===== src/Search/Backends/Files.antt =====
-- The candidates for the bandwidth file of a predictive search, and the first of them that exists.
use Prim.Native.String.{String}
use text.Mathlib.Text.{◌==◌ as str_eq}
use text.Mathlib.TextEquality.{eq_iff}
use ooverlap.Prelude.{
  ℕ, ◌≡◌, ◌≢◌, ap, ◌∙◌, inl, inr, Bool, true, false, some, List, [], ◌∷◌, Bool-cases, arith,
}
use ooverlap.Prelude.Result.{ok, Option-cases}
use ooverlap.Search.Latency.{CommOp}
use ooverlap.Search.Backends.{
  Backend, nccl, ooverlap_backend, Requested, both, only, given, curve, legacy_curve,
  bandwidth_curve_paths, specific_path, is_both, Args, CurvePath, first_existing, curve_candidates,
  load_comm_array, requested_bandwidth_path,
}

-- The files among which a predictive search takes the first that exists: the one given for its backend; or the one
-- given for all, where one backend is asked for; or else those of `configs/`.
pub data IsCandidates (world_size : ℕ) (args : Args) : Backend → List CurvePath → Type 0 where
  own_nccl :
      args.nccl_bandwidth_path ≢ ""
      → IsCandidates world_size args nccl (given args.nccl_bandwidth_path ∷ [])
  own_ooverlap :
      args.ooverlap_bandwidth_path ≢ ""
      → IsCandidates world_size args ooverlap_backend (given args.ooverlap_bandwidth_path ∷ [])
  shared_nccl :
      args.nccl_bandwidth_path ≡ ""
      → args.bandwidth_path ≢ ""
      → args.comm_backend ≢ both
      → IsCandidates world_size args nccl (given args.bandwidth_path ∷ [])
  shared_ooverlap :
      args.ooverlap_bandwidth_path ≡ ""
      → args.bandwidth_path ≢ ""
      → args.comm_backend ≢ both
      → IsCandidates world_size args ooverlap_backend (given args.bandwidth_path ∷ [])
  configs_nccl :
      args.nccl_bandwidth_path ≡ ""
      → args.bandwidth_path ≡ ""
      → IsCandidates world_size args nccl
          (curve nccl args.comm_op world_size ∷ legacy_curve args.comm_op world_size ∷ [])
  configs_ooverlap :
      args.ooverlap_bandwidth_path ≡ ""
      → args.bandwidth_path ≡ ""
      → IsCandidates world_size args ooverlap_backend
          (curve ooverlap_backend args.comm_op world_size ∷ [])

is_empty : (x : String) → str_eq x "" ≡ true → x ≡ ""
is_empty x h = (eq_iff x "").0 h

not_empty : (x : String) → str_eq x "" ≡ false → x ≢ ""
not_empty x h e = let t = (eq_iff x "").1 e in cc

is_both-false : (r : Requested) → is_both r ≡ false → r ≢ both
unfolding is_both
is_both-false both h e = cc
is_both-false (only backend) h e = cc

pub curve_candidates-IsCandidates :
    (world_size : ℕ) (args : Args) (backend : Backend) {path : String}
    → requested_bandwidth_path args backend ≡ ok path
    → IsCandidates world_size args backend (curve_candidates backend args.comm_op world_size path)
unfolding requested_bandwidth_path specific_path curve_candidates bandwidth_curve_paths
curve_candidates-IsCandidates world_size args nccl {path} h =
    let own = args.nccl_bandwidth_path in
    elim (Bool-cases (str_eq own "")) [
      | inr some_own ↦
          let e : own ≡ path = ground (arith, h, some_own) in
          rw (← e, some_own) (own_nccl (not_empty own some_own))
      | inl no_own ↦ elim (Bool-cases (str_eq args.bandwidth_path "")) [
        | inl no_shared ↦
            let e : "" ≡ path = ground (arith, h, no_own, no_shared) in
            rw (← e) (configs_nccl (is_empty own no_own) (is_empty args.bandwidth_path no_shared))
        | inr some_shared ↦ elim (Bool-cases (is_both args.comm_backend)) [
          | inl two_asked ↦ absurd (ground (arith, h, no_own, some_shared, two_asked))
          | inr one_asked ↦
              let e : args.bandwidth_path ≡ path =
                ground (arith, h, no_own, some_shared, one_asked) in
              rw (← e, some_shared)
                (shared_nccl (is_empty own no_own) (not_empty args.bandwidth_path some_shared)
                  (is_both-false args.comm_backend one_asked))
        ]
      ]
    ]
curve_candidates-IsCandidates world_size args ooverlap_backend {path} h =
    let own = args.ooverlap_bandwidth_path in
    elim (Bool-cases (str_eq own "")) [
      | inr some_own ↦
          let e : own ≡ path = ground (arith, h, some_own) in
          rw (← e, some_own) (own_ooverlap (not_empty own some_own))
      | inl no_own ↦ elim (Bool-cases (str_eq args.bandwidth_path "")) [
        | inl no_shared ↦
            let e : "" ≡ path = ground (arith, h, no_own, no_shared) in
            rw (← e)
              (configs_ooverlap (is_empty own no_own) (is_empty args.bandwidth_path no_shared))
        | inr some_shared ↦ elim (Bool-cases (is_both args.comm_backend)) [
          | inl two_asked ↦ absurd (ground (arith, h, no_own, some_shared, two_asked))
          | inr one_asked ↦
              let e : args.bandwidth_path ≡ path =
                ground (arith, h, no_own, some_shared, one_asked) in
              rw (← e, some_shared)
                (shared_ooverlap (is_empty own no_own) (not_empty args.bandwidth_path some_shared)
                  (is_both-false args.comm_backend one_asked))
        ]
      ]
    ]

module _ (exists_file : CurvePath → Bool) where
  -- The file is the first of the candidates that exists.
  pub data IsFirst (p : CurvePath) : List CurvePath → Type 0 where
    at_head : {ps : List CurvePath} → exists_file p ≡ true → IsFirst p (p ∷ ps)
    after :
        {q : CurvePath} {ps : List CurvePath}
        → exists_file q ≡ false
        → IsFirst p ps
        → IsFirst p (q ∷ ps)

  first_existing-IsFirst :
      (ps : List CurvePath) {p : CurvePath} → first_existing exists_file ps ≡ some p → IsFirst p ps
  unfolding first_existing
  first_existing-IsFirst [] h = cc
  first_existing-IsFirst (q ∷ ps) {p} h = elim (Bool-cases (exists_file q)) [
    | inl found ↦ let same : q ≡ p = ground (arith, found, h) in rw (← same) (at_head found)
    | inr missing ↦ after missing (first_existing-IsFirst ps (ground (arith, missing, h)))
  ]

  pub load_comm_array-IsFirst :
      (backend : Backend) (op : CommOp) (world_size : ℕ) (bandwidth_path : String) {p : CurvePath}
      → load_comm_array exists_file backend op world_size bandwidth_path ≡ ok p
      → IsFirst p (curve_candidates backend op world_size bandwidth_path)
  unfolding load_comm_array
  load_comm_array-IsFirst backend op world_size bandwidth_path {p} h =
      let candidates = curve_candidates backend op world_size bandwidth_path in
      elim (Option-cases (first_existing exists_file candidates)) [
        | inl missing ↦ absurd (ground (arith, missing, h))
        | inr (q, found) ↦
            let same : q ≡ p = ground (arith, found, h) in
            first_existing-IsFirst candidates (found ∙ ap some same)
      ]
