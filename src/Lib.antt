-- ===== src/Lib.antt =====
-- ooverlap overlaps a GEMM, cut into tiles, with the collective communication of its output. This
-- library models the Python tools that choose how: which algorithm, in which order tiles are stored,
-- and which tiles are communicated together; and the adapter that lets vLLM use the communicator.
--
-- Search (tool/search.py). A search loads the candidates of a shape (Candidates), tries them in order
-- and takes the first whose order hint is accepted (Choose). For a candidate every rank runs the
-- overlapped GEMM with a monitor matrix (Geometry, Sampling); from the samples come the tiles that
-- always finish in the same window (Hint). Then partitions of the waves (Partitions) are expanded to
-- segments of tiles (Segments) and timed, by prediction (Latency) or by runs, and the best is saved
-- with the order of the tiles (Solve, Reorder). What `main` starts for which backend, and on which
-- bandwidth file, is in Backends. Function names are those of the source; a loop is a
-- function of its own, and a local variable of the source that outlives it is a record's field.
--
-- Adapter (patches/vllm/v0.25.0/vllm/distributed/device_communicators/ooverlap_all_reduce.py). The
-- object through which vLLM calls ooverlap: its start, which may end disabled (Startup, with the
-- settings of the environment in Settings), its three collectives and its destruction (Collectives).
-- What the start finds outside is the record `Surroundings`; a call of the extension is a value. The
-- life of the communicator is in Lifecycle, the guards in Guards, the gathered shape in Shapes.
--
-- Config (tool/gen_config_sm90.py). The rows of a CUTLASS profile that are kept as candidates of a
-- configuration, with the counts of those that are not (Rows), and the order and the segments of the
-- tiles in a measured run (Grid). A row is taken after `to_float`, `to_int`, `norm_dtype` and the like have
-- converted its cells; a cell of the stages may raise, as `stage` does. Accepted and Described say without
-- the code's functions which rows are asked for.
--
-- Evaluate (tool/evaluate_sm90.py). An evaluation runs the config generator, the search and the test for
-- each shape and each communication configuration of its devices, keeps one file per scenario, and
-- takes up where an earlier one stopped. Settings has the tables of settings and their checks, World the
-- files, the reports and the commands, Stages the three stages of a scenario and their retries
-- (`run_profile`, `run_search_with_retries`, `run_test`, `run_scenario`), Resume what an earlier run left and
-- `summarize`, Run the loops of `main`. A function that writes is a program over `World` that may raise
-- (Prelude/Outcome); what a command does, the JSON that it leaves and the text of a number are the
-- record `Outside`. The other files prove: Tried, Retries, Interrupted (a scenario), Keeps and Resumed (what
-- is kept), Keyed, Complete, Loop and Reported (the report). Left out: command lines, log text, the clock,
-- the environment of a command, `parse_test_stdout`; a file of a scenario has the fields that are read.
--
-- Instances (tool/generate_instances_sm90.py). The GEMM algorithms: the built-in ones (Builtin), those of
-- the rows of a report (Rows), their normal form and key (Combos), `dedupe`, and the files in which their
-- places are their numbers (Tables), all of it in `main` (Generate). Keys, Rounds, Distinct, Total, Limit,
-- Numbers, Written and Numbered, below these, are the proofs. The functions of Python on texts are
-- the record `Texts`, and `IsPython` says that the names the script writes are in lower case and stripped.
-- A row carries the two texts that the source searches in, and has no `null` but as a missing key; a
-- number is below 2^53, where `int(float(str(n)))` is `n`. The fixed C++ text around the rows is left out.
--
-- Patcher (patch_gcc_typename.py). The workaround for GCC in two headers: what it changes in a text
-- (Text), the patch and the reversal of a file with its backup (Files), where the headers are looked for
-- (Paths), and `main` (Run), whose part after the search is `run`. Safe and
-- Restored are the proofs. Lines end with a newline only; the root of the repository, the
-- directories and the Python installation are given (`Args`, `Installation`). A search in a text runs on as
-- much fuel as the text is long, each round taking one byte or more.
--
-- Conventions. Python integers that a caller keeps from being negative are natural numbers; where a
-- difference is taken they are ℤ (Prelude/Int). Exceptions are the class that is raised
-- (Prelude/Result); `unmodelled` marks an input outside the model: a negative number of compute SMs.
-- Floats are an interface (Prelude/Floats). The extension, the device, timed runs (`perf_running`)
-- and `np.interp` are parameters. Two loops run on fuel besides, the recursion of `integer_partitions` and the
-- `while` of `make_segments`; `integer_partitions_iff` and `sum-make_segments` show that it is enough.
-- All other loops are structural.
--
-- Not modelled: printing, the tensors that hold matrix data, the formats of files, the spawning of ranks
-- (all run the same function, and rank 0's result is used), the timing of tool/bandwidth.py, the reports of
-- tool/nsys_sm_usage.py, tool/verify_signal_tile_counts.py, the copies of vLLM's own files under patches,
-- and the repository's CUDA, C++, tests and plots.
pub mod Prelude
pub mod Search
pub mod Adapter
pub mod Config
pub mod Evaluate
pub mod Instances
pub mod Patcher
mod Tests
