-- ===== src/Adapter/Startup.antt =====
-- `OoverlapAllReduce.__init__`.
use Prim.Native.String.{String}
use ooverlap.Prelude.{
  ℕ, zero, suc, ◌*◌, ◌%◌, Bool, true, false, ◌&&◌, Option, none, some, List, [], ◌∷◌, ◌==◌,
  if◌then◌else◌,
}
use ooverlap.Prelude.Int.{ℤ}
use ooverlap.Prelude.Result.{Result, ok, err, value_error, runtime_error, zero_division, ◌>>=◌}
use ooverlap.Adapter.{Dtype, bf16, fp16, fp32, other_dtype, element_size, Pool, Adapter}
use ooverlap.Adapter.Settings.{positive_env_int, normalize_rr_dtype, gather_visible_devices}

-- What a start finds outside: the process group, the extension with its methods, the environment.
pub record Surroundings : Type 0 where
  pub device_is_cuda : Bool
  pub device_index : ℕ
  pub dist_initialized : Bool
  pub cuda_available : Bool
  pub rank : ℕ
  pub world_size : ℕ
  pub ext_loads : Bool
  pub has_communicator : Bool
  pub devices : Result (List (Option ℕ))
  pub broker_key : Result String
  pub communicator : List ℕ → ℕ → String → Result ℕ
  pub has_init_round_robin_slots : Bool
  pub has_all_reduce_round_robin : Bool
  pub has_init_all_gather_round_robin_slots : Bool
  pub has_all_gather_round_robin : Bool
  pub has_acquire_all_reduce_slot : Bool
  pub has_all_reduce_preloaded_slot : Bool
  pub has_destroy : Bool
  pub init_round_robin_slots : ℕ → Pool → Result (Unit {0})
  pub init_all_gather_round_robin_slots : ℕ → Pool → Result (Unit {0})
  pub parse : String → Option ℤ
  pub normalize : String → String
  pub rr_dtype : Option String
  pub ag_dtype : Option String
  pub rr_slots : Option String
  pub rr_capacity : Option String
  pub ag_slots : Option String
  pub ag_capacity : Option String

-- What a start does to communicators, in order. `destroyed` is the call, whatever comes of it.
pub data Event : Type 0 where
  created rr_initialized ag_initialized destroyed : ℕ → Event

unfoldable pub require : Bool → Result (Unit {0})
require true = ok tt
require false = err runtime_error

-- `capacity % element_size != 0`
unfoldable pub check_divisible : (capacity size : ℕ) → Result (Unit {0})
check_divisible capacity zero = err zero_division
check_divisible capacity (suc size) = if (capacity % suc size) == 0 then ok tt else err value_error

-- `os.getenv(name, default)`
unfoldable pub getenv : Option String → String → String
getenv none default = default
getenv (some value) default = value

-- The first part of the pair that `_normalize_rr_dtype` returns.
unfoldable pub dtype_name : Dtype → String
dtype_name bf16 = "bf16"
dtype_name fp16 = "fp16"
dtype_name fp32 = "fp32"
dtype_name (other_dtype size) = ""

-- The settings of one pool, with the defaults for its slots and its capacity.
unfoldable pub read_pool :
    Surroundings
    → (name : String) → Option String
    → (slots : ℕ) → Option String
    → (capacity : ℕ) → Result Pool
read_pool w name slots d capacity c = do
  dtype ← normalize_rr_dtype w.normalize name
  slot_count ← positive_env_int w.parse slots d
  capacity_bytes ← positive_env_int w.parse capacity c
  ok (record { dtype = dtype; slot_count = slot_count; capacity_bytes = capacity_bytes })

-- The extension's methods are checked, both pools are read, then both capacities are checked.
unfoldable pub read_pools : Surroundings → Result (Pool × Pool)
read_pools w = do
  a ← require w.has_init_round_robin_slots
  b ← require w.has_all_reduce_round_robin
  c ← require w.has_init_all_gather_round_robin_slots
  d ← require w.has_all_gather_round_robin
  rr ← read_pool w (getenv w.rr_dtype "bf16") w.rr_slots 32 w.rr_capacity (8 * 1024 * 1024)
  ag ←
      read_pool w (getenv w.ag_dtype (dtype_name rr.dtype)) w.ag_slots 4 w.ag_capacity
        (64 * 1024 * 1024)
  e ← check_divisible rr.capacity_bytes (element_size rr.dtype)
  g ← check_divisible ag.capacity_bytes (element_size ag.dtype)
  ok (rr, ag)

unfoldable pub open_communicator : Surroundings → Result ℕ
open_communicator w = do
  filled ← w.devices
  devices ← gather_visible_devices filled
  key ← w.broker_key
  w.communicator devices w.rank key

-- The attributes as they are set before the first check.
unfoldable pub blank : Surroundings → Adapter
blank w = record {
  device_index = w.device_index;
  world_size = w.world_size;
  disabled = true;
  comm = none;
  rr_pool = none;
  ag_pool = none;
  qwen_direct_slot_enabled = false;
}

-- The `except` clause, where a communicator had been made.
unfoldable pub abandon : Surroundings → ℕ → List Event
abandon w comm = if w.has_destroy then destroyed comm ∷ [] else []

-- From a communicator on: the rest of the `try` block and what follows it. `self.rr_*` keeps its
-- values where only the second pool fails.
unfoldable pub init_pools : Surroundings → ℕ → Pool → Pool → Adapter × List Event
init_pools w comm rr ag = elim (w.init_round_robin_slots comm rr) [
  | err e ↦ (blank w, created comm ∷ abandon w comm)
  | ok u ↦ elim (w.init_all_gather_round_robin_slots comm ag) [
    | err e ↦ (
      record (blank w) { rr_pool = some rr },
      created comm ∷ rr_initialized comm ∷ abandon w comm,
    )
    | ok u' ↦ (
      record (blank w) {
        disabled = false;
        comm = some comm;
        rr_pool = some rr;
        ag_pool = some ag;
        qwen_direct_slot_enabled = w.has_acquire_all_reduce_slot && w.has_all_reduce_preloaded_slot;
      },
      created comm ∷ rr_initialized comm ∷ ag_initialized comm ∷ [],
    )
  ]
]

unfoldable pub after_communicator : Surroundings → ℕ → Adapter × List Event
after_communicator w comm = elim (read_pools w) [
  | err e ↦ (blank w, created comm ∷ abandon w comm)
  | ok (rr, ag) ↦ init_pools w comm rr ag
]

-- The checks before the `try` block.
unfoldable pub may_start : Surroundings → Bool
may_start w = w.dist_initialized && w.cuda_available && w.ext_loads && w.has_communicator

unfoldable pub start : Surroundings → Result (Adapter × List Event)
start w =
    if w.device_is_cuda
    then ok (
        if may_start w
        then elim (open_communicator w) [
          | err e ↦ (blank w, [])
          | ok comm ↦ after_communicator w comm
        ]
        else (blank w, []))
    else err runtime_error
