-- ===== src/Tests/Samples.antt =====
-- The inputs that the tests share.
use ooverlap.Prelude.{
  ℕ, suc, ◌+◌, ◌-◌, ◌*◌, ◌/◌, max, true, false, none, some, List, [], ◌∷◌, ◌++◌, map, take, range,
  ltb, arith, length,
}
use ooverlap.Prelude.Int.{ℤ, pos}
use ooverlap.Prelude.Floats.{Floats, IsOrdered}
use ooverlap.Prelude.Result.{Result, ok}
use ooverlap.Search.Latency.{all_reduce}
use ooverlap.Search.Sampling.{Gpu}
use ooverlap.Search.Candidates.{AlgoDict, Candidate}
use ooverlap.Search.Choose.{Options, Machine, Selected}

-- Whole milliseconds in place of floats.
abbrev pub whole : Floats
whole = record {
  F = ℕ;
  of_int = λ n. n;
  add = λ a b. a + b;
  mul = λ a b. a * b;
  div = λ a b. a / b;
  fmax = λ a b. max a b;
  lt = ltb;
}

pub whole-IsOrdered : IsOrdered whole
whole-IsOrdered = record { irrefl = λ x. ground arith; trans = λ x y z p q. ground arith }

-- A grid of 2 x 3 tiles on two SMs; the device finishes the tiles in order.
abbrev in_order : ℕ → List ℤ → ℕ × List ℤ
in_order runs mm = (runs + 1, take (length mm - 6) mm ++ map pos (range 6))

abbrev pub device : Gpu
device = record {
  Device = ℕ;
  gemm_allreduce_overlap = in_order;
  gemm_reducescatter_overlap = in_order;
}

abbrev pub machine : Machine
machine = record { gpu = device; device = λ t. 0; sm_count = 2; world_size = 2 }

abbrev pub plain : Options
plain = record {
  m = 4;
  n = 6;
  comm_op = all_reduce;
  comm_sm_slack = 0;
  predictive = false;
  min_group_size_override = none;
  min_effective_group_size_override = none;
  effective_hint_confirm = false;
  algo_id = none;
}

abbrev pub predicted : Options
predicted = record plain { predictive = true; effective_hint_confirm = true; algo_id = some 4 }

abbrev pub loaded : List (Candidate whole)
loaded = record { bm = 2; bn = 2; dur = 6; algo = 4 } ∷ []

abbrev pub dict : AlgoDict
dict = (4, record { tile_m = 2; tile_n = 2 }) ∷ []

-- A measured run takes as long as its longest segment, and one more for each segment.
abbrev pub longest : List ℕ → ℕ
longest [] = 0
longest (x ∷ xs) = suc (max x (longest xs))

abbrev pub measure : ℕ → Selected whole → List ℕ → Result ℕ
measure k s cseg = ok (longest cseg)

abbrev pub latency : ℕ → Result ℕ
latency x = ok (x / 2)

-- Two samples of four tiles in windows of two; tile 3 moves between windows.
abbrev pub rounds : List (List (List ℤ))
rounds =
    ((pos 0 ∷ pos 1 ∷ pos 2 ∷ pos 3 ∷ []) ∷ (pos 1 ∷ pos 0 ∷ pos 3 ∷ pos 2 ∷ []) ∷ [])
    ∷ ((pos 0 ∷ pos 1 ∷ pos 2 ∷ pos 3 ∷ []) ∷ [])
    ∷ []
