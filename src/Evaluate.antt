-- ===== src/Evaluate.antt =====
-- tool/evaluate_sm90.py: the driver that runs the profile, the search and the test of each shape and
-- communication configuration, keeps a file for each such scenario, and resumes from these files.
pub mod Settings
pub mod World
pub mod Stages
pub mod Resume
pub mod Run
pub mod Tried
pub mod Retries
pub mod Keeps
pub mod Interrupted
pub mod Loop
pub mod Resumed
pub mod Keyed
pub mod Complete
pub mod Reported
use Prim.Native.String.{String}
use ooverlap.Prelude.{ℕ, Option}
use ooverlap.Prelude.Int.{ℤ}

pub record Shape : Type 0 where
  pub m : ℕ
  pub n : ℕ
  pub k : ℕ
  pub csv : String

pub record MinGroupTrial : Type 0 where
  pub min_group_size : ℕ
  pub min_effective_group_size : ℕ
  pub max_mn : Option ℕ

pub record CommRunConfig : Type 0 where
  pub comm_sm_slack : ℤ
  pub max_ctas_per_reduce_task : ℤ

-- The backends whose results are compared.
pub data Backend : Type 0 where
  nccl ooverlap_backend : Backend
