-- ===== src/Adapter/Lifecycle.antt =====
-- The life of the adapter's communicator: what a start leaves, and what a destruction leaves.
use ooverlap.Prelude.{
  ℕ, zero, suc, ◌<◌, ◌*◌, ◌%◌, ◌≡◌, refl, ap, ◌∙◌, ◌⊎◌, inl, inr, Bool, true, false, Option, none,
  some, List, [], ◌∷◌, Bool-cases, arith,
}
use mathlib.Core.Path.{subst}
use Prim.Native.String.{String}
use ooverlap.Prelude.Int.{ℤ, pos, negsuc}
use ooverlap.Prelude.Result.{
  Result, ok, value_error, err, >>=-eq-ok, ok-injective, Result-cases, Option-cases,
}
use text.Mathlib.Text.{◌==◌ as str_eq}
use ooverlap.Adapter.{Dtype, bf16, fp16, fp32, other_dtype, element_size, Pool, Adapter}
use ooverlap.Adapter.Settings.{positive_env_int, find_alias, normalize_rr_dtype}
use ooverlap.Adapter.Startup.{
  Surroundings, Event, created, rr_initialized, ag_initialized, destroyed, check_divisible,
  read_pool, read_pools, open_communicator, blank, abandon, require, getenv, dtype_name, init_pools,
  after_communicator, may_start, start,
}
use ooverlap.Adapter.Collectives.{release_held, destroy}

-- Slots of whole elements, and at least one of them.
pub record IsWhole (p : Pool) : Type 0 where
  pub slots : 0 < p.slot_count
  pub capacity : 0 < p.capacity_bytes
  pub size : 0 < element_size p.dtype
  pub whole : (p.capacity_bytes % element_size p.dtype) ≡ 0

-- Nothing is held, and no path is enabled.
pub record IsOff (a : Adapter) : Type 0 where
  pub disabled : a.disabled ≡ true
  pub comm : a.comm ≡ none
  pub qwen : a.qwen_direct_slot_enabled ≡ false

-- A communicator is held, with both pools.
pub record IsReady (a : Adapter) : Type 0 where
  pub enabled : a.disabled ≡ false
  pub handle : ℕ
  pub comm : a.comm ≡ some handle
  pub rr : Pool
  pub rr_pool : a.rr_pool ≡ some rr
  pub rr_whole : IsWhole rr
  pub ag : Pool
  pub ag_pool : a.ag_pool ≡ some ag
  pub ag_whole : IsWhole ag

-- The communicator that is alive after some events, from the one that was.
unfoldable pub alive_after : Option ℕ → List Event → Option ℕ
alive_after held [] = held
alive_after held (created comm ∷ events) = alive_after (some comm) events
alive_after held (rr_initialized comm ∷ events) = alive_after held events
alive_after held (ag_initialized comm ∷ events) = alive_after held events
alive_after held (destroyed comm ∷ events) = alive_after none events

read_positive :
    (r : Option ℤ) {n : ℕ}
    → elim r [
      | none ↦ err value_error
      | some (negsuc k) ↦ err value_error
      | some (pos zero) ↦ err value_error
      | some (pos (suc k)) ↦ ok (suc k)
    ]
      ≡ ok n
    → 0 < n
read_positive none h = cc
read_positive (some (negsuc k)) h = cc
read_positive (some (pos zero)) h = cc
read_positive (some (pos (suc k))) h = omega (arith, ok-injective h)

positive_env_int-positive :
    (parse : String → Option ℤ) (raw : Option String) (default : ℕ) {n : ℕ}
    → 0 < default
    → positive_env_int parse raw default ≡ ok n
    → 0 < n
unfolding positive_env_int
positive_env_int-positive parse none default p h = omega (arith, ok-injective h)
positive_env_int-positive parse (some raw) default p h = elim (Bool-cases (str_eq raw "")) [
  | inl empty ↦ let h' = rw empty at h in omega (arith, ok-injective h')
  | inr filled ↦ read_positive (parse raw) (rw filled at h)
]

find_alias-size : (name : String) {d : Dtype} → find_alias name ≡ some d → 0 < element_size d
unfolding find_alias element_size
find_alias-size name {d = bf16} h = omega arith
find_alias-size name {d = fp16} h = omega arith
find_alias-size name {d = fp32} h = omega arith
find_alias-size name {d = other_dtype n} h = absurd (ground (arith, h))

normalize_rr_dtype-size :
    (normalize : String → String) (name : String) {d : Dtype}
    → normalize_rr_dtype normalize name ≡ ok d
    → 0 < element_size d
unfolding normalize_rr_dtype
normalize_rr_dtype-size normalize name {d} h = elim (Option-cases (find_alias (normalize name))) [
  | inl missing ↦ absurd (ground (arith, missing, h))
  | inr (d', found) ↦
      let same : d' ≡ d = ground (arith, found, h) in
      find_alias-size (normalize name) (found ∙ ap some same)
]

check_divisible-ok :
    (capacity size : ℕ) {u : Unit {0}}
    → check_divisible capacity size ≡ ok u
    → (capacity % size) ≡ 0
unfolding check_divisible
check_divisible-ok capacity zero h = cc
check_divisible-ok capacity (suc size) h = ground (arith, h)

read_pool-IsWhole :
    (w : Surroundings) (name : String) (raw_slots : Option String) (slots : ℕ)
    (raw_capacity : Option String) (capacity : ℕ) {p : Pool} {u : Unit {0}}
    → 0 < slots
    → 0 < capacity
    → read_pool w name raw_slots slots raw_capacity capacity ≡ ok p
    → check_divisible p.capacity_bytes (element_size p.dtype) ≡ ok u
    → IsWhole p
unfolding read_pool
read_pool-IsWhole w name raw_slots slots raw_capacity capacity {p} some_slots some_bytes h
      divisible =
    let (d, named, h₁) = >>=-eq-ok (normalize_rr_dtype w.normalize name) _ h in
    let (n, counted, h₂) = >>=-eq-ok (positive_env_int w.parse raw_slots slots) _ h₁ in
    let (c, sized, h₃) = >>=-eq-ok (positive_env_int w.parse raw_capacity capacity) _ h₂ in
    let same = ok-injective h₃ in
    record {
      slots = rw (← same) (positive_env_int-positive w.parse raw_slots slots some_slots counted);
      capacity =
          rw (← same) (positive_env_int-positive w.parse raw_capacity capacity some_bytes sized);
      size = rw (← same) (normalize_rr_dtype-size w.normalize name named);
      whole = check_divisible-ok p.capacity_bytes (element_size p.dtype) divisible;
    }

read_pools-IsWhole :
    (w : Surroundings) {rr ag : Pool} → read_pools w ≡ ok (rr, ag) → IsWhole rr × IsWhole ag
unfolding read_pools
read_pools-IsWhole w {rr} {ag} h =
    let (a, ha, h₁) = >>=-eq-ok (require w.has_init_round_robin_slots) _ h in
    let (b, hb, h₂) = >>=-eq-ok (require w.has_all_reduce_round_robin) _ h₁ in
    let (c, hc, h₃) = >>=-eq-ok (require w.has_init_all_gather_round_robin_slots) _ h₂ in
    let (d, hd, h₄) = >>=-eq-ok (require w.has_all_gather_round_robin) _ h₃ in
    let (rr', first, h₅) =
      >>=-eq-ok
        (read_pool w (getenv w.rr_dtype "bf16") w.rr_slots 32 w.rr_capacity (8 * 1024 * 1024)) _
        h₄ in
    let (ag', second, h₆) =
      >>=-eq-ok
        (read_pool w (getenv w.ag_dtype (dtype_name rr'.dtype)) w.ag_slots 4 w.ag_capacity
          (64 * 1024 * 1024))
        _ h₅ in
    let (e, he, h₇) =
      >>=-eq-ok (check_divisible rr'.capacity_bytes (element_size rr'.dtype)) _ h₆ in
    let (g, hg, h₈) =
      >>=-eq-ok (check_divisible ag'.capacity_bytes (element_size ag'.dtype)) _ h₇ in
    let same = ok-injective h₈ in
    let one : rr' ≡ rr = ap (λ p. p.0) same in
    let two : ag' ≡ ag = ap (λ p. p.1) same in
    (
      rw (← one) (
          read_pool-IsWhole w (getenv w.rr_dtype "bf16") w.rr_slots 32 w.rr_capacity
            (8 * 1024 * 1024) (omega arith) (omega arith) first he),
      rw (← two) (
          read_pool-IsWhole w (getenv w.ag_dtype (dtype_name rr'.dtype)) w.ag_slots 4 w.ag_capacity
            (64 * 1024 * 1024) (omega arith) (omega arith) second hg),
    )

-- What a start returns: everything, or nothing; and the communicator that is alive is the one held.
pub record IsStarted (has_destroy : Bool) (a : Adapter) (events : List Event) : Type 0 where
  pub state : IsOff a ⊎ IsReady a
  pub alive : has_destroy ≡ true → alive_after none events ≡ a.comm

blank-IsOff : (w : Surroundings) → IsOff (blank w)
unfolding blank
blank-IsOff w = record { disabled = refl; comm = refl; qwen = refl }

init_pools-IsStarted :
    (w : Surroundings) (comm : ℕ) (rr ag : Pool)
    → IsWhole rr
    → IsWhole ag
    → IsStarted w.has_destroy (init_pools w comm rr ag).0 (init_pools w comm rr ag).1
unfolding init_pools blank abandon alive_after
init_pools-IsStarted w comm rr ag v v' = elim (Result-cases (w.init_round_robin_slots comm rr)) [
  | inr (e, refused) ↦
      rw (init_pools, refused)
        (record {
          state = inl (record { disabled = refl; comm = refl; qwen = refl });
          alive = λ can. rw can refl;
        })
  | inl (u, done) ↦
      rw (init_pools, done)
        (elim (Result-cases (w.init_all_gather_round_robin_slots comm ag)) [
          | inr (e, refused) ↦ rw refused (record {
            state = inl (record { disabled = refl; comm = refl; qwen = refl });
            alive = λ can. rw can refl;
          })
          | inl (u', done') ↦ rw done' (record {
            state = inr (record {
              enabled = refl;
              handle = comm;
              comm = refl;
              rr = rr;
              rr_pool = refl;
              rr_whole = v;
              ag = ag;
              ag_pool = refl;
              ag_whole = v';
            });
            alive = λ can. refl;
          })
        ])
]

after_communicator-IsStarted :
    (w : Surroundings) (comm : ℕ)
    → IsStarted w.has_destroy (after_communicator w comm).0 (after_communicator w comm).1
unfolding after_communicator blank abandon alive_after
after_communicator-IsStarted w comm = elim (Result-cases (read_pools w)) [
  | inr (e, refused) ↦
      rw (after_communicator, refused)
        (record {
          state = inl (record { disabled = refl; comm = refl; qwen = refl });
          alive = λ can. rw can refl;
        })
  | inl ((rr, ag), done) ↦
      let (v, v') = read_pools-IsWhole w done in
      rw (after_communicator, done) (init_pools-IsStarted w comm rr ag v v')
]

nothing-IsStarted : (w : Surroundings) → IsStarted w.has_destroy (blank w) []
unfolding blank alive_after
nothing-IsStarted w = record { state = inl (blank-IsOff w); alive = λ can. refl }

returned :
    (has_destroy : Bool) {p q : Adapter × List Event}
    → ok p ≡ ok q
    → IsStarted has_destroy p.0 p.1
    → IsStarted has_destroy q.0 q.1
returned has_destroy h = subst (λ p. IsStarted has_destroy p.0 p.1) (ok-injective h)

-- A start that does not raise leaves either a disabled adapter that holds nothing, or an enabled one
-- with a communicator and both pools, each with a positive number of slots and of bytes, a whole
-- number of elements. Where the extension's communicator can be destroyed, the one that is alive
-- afterwards is the one that the adapter holds: none is left behind.
pub start-IsStarted :
    (w : Surroundings) {a : Adapter} {events : List Event}
    → start w ≡ ok (a, events)
    → IsStarted w.has_destroy a events
unfolding start
start-IsStarted w {a} {events} h = elim (Bool-cases w.device_is_cuda) [
  | inr other ↦ absurd (ground (arith, other, h))
  | inl cuda ↦ elim (Bool-cases (may_start w)) [
    | inr refused ↦
        returned w.has_destroy {p = (blank w, [])} (ground (arith, refused, cuda, h))
          (nothing-IsStarted w)
    | inl allowed ↦ elim (Result-cases (open_communicator w)) [
      | inr (e, failed) ↦
          returned w.has_destroy {p = (blank w, [])} (ground (arith, failed, allowed, cuda, h))
            (nothing-IsStarted w)
      | inl (comm, made) ↦
          returned w.has_destroy {p = after_communicator w comm}
            (ground (arith, made, allowed, cuda, h)) (after_communicator-IsStarted w comm)
    ]
  ]
]

release_held-alive :
    (release : ℕ → Result (Unit {0})) (held : Option ℕ) {events : List Event}
    → release_held true release held ≡ ok events
    → alive_after held events ≡ none
unfolding release_held alive_after
release_held-alive release none h = rw (← ok-injective h) refl
release_held-alive release (some comm) h =
    let (u, done, h') = >>=-eq-ok (release comm) _ h in rw (← ok-injective h') refl

-- A destruction that does not raise leaves an adapter that is off, keeps its pools' descriptions,
-- leaves no communicator alive where it can be destroyed, and a second one does nothing, whatever
-- the extension would do.
pub destroy-IsOff :
    (has_destroy : Bool) (release release' : ℕ → Result (Unit {0})) (a : Adapter) {b : Adapter}
    {events : List Event}
    → destroy has_destroy release a ≡ ok (b, events)
    → IsOff b
      × (b.rr_pool ≡ a.rr_pool)
      × (b.ag_pool ≡ a.ag_pool)
      × (has_destroy ≡ true → alive_after a.comm events ≡ none)
      × (destroy has_destroy release' b ≡ ok (b, []))
unfolding destroy release_held
destroy-IsOff has_destroy release release' a {b} {events} h =
    let (es, released, h') = >>=-eq-ok (release_held has_destroy release a.comm) _ h in
    let same = ok-injective h' in
    let one : es ≡ events = ap (λ p. p.1) same in
    let off : record a { comm = none; disabled = true; qwen_direct_slot_enabled = false } ≡ b =
      ap (λ p. p.0) same in
    rw (← off) (
      record { disabled = refl; comm = refl; qwen = refl },
      refl,
      refl,
      λ can. release_held-alive release a.comm (rw (can, one) at released),
      refl,
    )
