-- ===== src/Evaluate/Keyed.antt =====
-- The scenarios in memory by their ids, and the two parts of a report.
use Prim.Native.String.{String}
use text.Mathlib.Text.{◌==◌ as str_eq}
use text.Mathlib.TextEquality.{eq_iff}
use ooverlap.Prelude.{
  ◌+◌, ◌<◌, ◌≡◌, refl, ◌∙◌, ◌⊎◌, inl, inr, Bool, true, false, not, Option, none, some, List, [],
  ◌∷◌, length, filter, All, Bool-cases, arith,
}
use ooverlap.Prelude.Membership.{In, here, there, In-cons}
use ooverlap.Prelude.Dict.{lookup, insert}
use ooverlap.Evaluate.Settings.{Tables}
use ooverlap.Evaluate.World.{Scenario}
use ooverlap.Evaluate.Resume.{
  Scenarios, with_id, load_files, uses_configured_comm_run_config, keep_configured,
}

-- Every scenario stands under its own id.
abbrev pub IsKeyed : Scenarios → Type 0
IsKeyed d = All (λ ((k, s) : String × Scenario). s.scenario_id ≡ k) d

pub insert-IsKeyed :
    (k : String) (s : Scenario) (d : Scenarios)
    → s.scenario_id ≡ k
    → IsKeyed d
    → IsKeyed (insert k s d)
unfolding insert
insert-IsKeyed k s [] e v = (e, tt)
insert-IsKeyed k s ((j, x) ∷ d) e (v, vs) = elim (Bool-cases (str_eq j k)) [
  | inl same ↦ rw same (e, vs)
  | inr other ↦ rw other (v, insert-IsKeyed k s d e vs)
]

pub lookup-IsKeyed :
    (k : String) (d : Scenarios) {s : Scenario}
    → IsKeyed d
    → lookup k d ≡ some s
    → s.scenario_id ≡ k
unfolding lookup
lookup-IsKeyed k [] v h = cc
lookup-IsKeyed k ((j, x) ∷ d) {s} (v, vs) h = elim (Bool-cases (str_eq j k)) [
  | inl same ↦ let e : x ≡ s = ground (arith, same, h) in rw (← e) (v ∙ (eq_iff j k).0 same)
  | inr other ↦
      let h' : lookup k d ≡ some s = ground (arith, other, h) in lookup-IsKeyed k d {s = s} vs h'
]

pub load_files-IsKeyed :
    (d : Scenarios) (files : List (String × Option Scenario))
    → IsKeyed d
    → IsKeyed (load_files d files)
unfolding load_files
load_files-IsKeyed d [] v = v
load_files-IsKeyed d ((name, none) ∷ files) v = load_files-IsKeyed d files v
load_files-IsKeyed d ((name, some x) ∷ files) v =
    let s = with_id name x in
    load_files-IsKeyed (insert s.scenario_id s d) files (insert-IsKeyed s.scenario_id s d refl v)

pub keep_configured-IsKeyed :
    (t : Tables) (d : Scenarios) → IsKeyed d → IsKeyed (keep_configured t d)
unfolding keep_configured
keep_configured-IsKeyed t [] v = tt
keep_configured-IsKeyed t ((k, s) ∷ d) (v, vs) =
    elim (Bool-cases (uses_configured_comm_run_config t s)) [
      | inl used ↦ rw used (v, keep_configured-IsKeyed t d vs)
      | inr unused ↦ rw unused (keep_configured-IsKeyed t d vs)
    ]

pub filter_parts :
    (p : Scenario → Bool) (xs : List Scenario)
    → length (filter p xs) + length (filter (λ x. not (p x)) xs) ≡ length xs
filter_parts p [] = refl
filter_parts p (x ∷ xs) = elim (Bool-cases (p x)) [
  | inl good ↦ rw good (omega (arith, filter_parts p xs))
  | inr bad ↦ rw bad (omega (arith, filter_parts p xs))
]

-- The failures are none, or there is one.
pub filter_cases :
    (p : Scenario → Bool) (xs : List Scenario)
    → ((length (filter (λ x. not (p x)) xs) ≡ 0) × ((x : Scenario) → In x xs → p x ≡ true))
      ⊎ ((x : Scenario) × (0 < length (filter (λ x. not (p x)) xs)) × In x xs × (p x ≡ false))
filter_cases p [] = inl (refl, λ x m. elim m [ ])
filter_cases p (y ∷ xs) = elim (Bool-cases (p y)) [
  | inr bad ↦ inr (y, rw bad (omega arith), here, bad)
  | inl good ↦ elim (filter_cases p xs) [
    | inl (e, all) ↦
        inl
          (rw good e, λ x m. elim (In-cons m) [ inl same ↦ rw same good | inr later ↦ all x later ])
    | inr (x, lt, m, bad) ↦ inr (x, rw good lt, there m, bad)
  ]
]
