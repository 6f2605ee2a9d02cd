-- ===== src/Instances/Rows/Limit.antt =====
-- How many combinations `load_rows_json` takes.
use Prim.Native.String.{String}
use ooverlap.Prelude.{
  Bool-cases, List, [], ap, arith, false, if◌then◌else◌, inl, inr, length, max, refl, suc, take,
  true, ℕ, ◌++◌, ◌-◌, ◌∙◌, ◌∷◌, ◌≡◌, ◌≤◌, ◌⊎◌,
}
use ooverlap.Prelude.Int.{ℤ, pos, negsuc, to_ℕ}
use ooverlap.Prelude.Result.{Result, ok, ◌>>=◌, >>=-eq-ok, ok-injective}
use ooverlap.Instances.{Combo, Texts}
use ooverlap.Instances.Rows.{
  Row, JsonRows, rows_from_json_obj, is_taken, combo_of_row, is_full, with_row, load_from,
  load_rows_json,
}

-- The combinations of all rows that are taken, with no limit.
unfoldable pub all_taken : Texts → List Row → Result (List Combo)
all_taken p [] = ok []
all_taken p (row ∷ rows) =
    let rest = all_taken p rows in
    if is_taken p row then with_row false (combo_of_row p row) rest else rest

-- How many are left to take; at least one is.
abbrev room : ℕ → ℤ → ℕ
room n top_n = max 1 (to_ℕ top_n - n)

room-full : (n : ℕ) (top_n : ℤ) → is_full (suc n) top_n ≡ true → room n top_n ≡ 1
unfolding is_full
room-full n (pos t) h = ground (arith, h)
room-full n (negsuc k) h = omega arith

room-suc :
    (n : ℕ) (top_n : ℤ) → is_full (suc n) top_n ≡ false → room n top_n ≡ suc (room (suc n) top_n)
unfolding is_full
room-suc n (pos t) h = ground (arith, h)
room-suc n (negsuc k) h = cc

-- The rows after `rows` do not matter, where these fill the limit.
load_from-take :
    (p : Texts) (rows after : List Row) (n : ℕ) (top_n : ℤ) {every : List Combo}
    → all_taken p rows ≡ ok every
    → (after ≡ []) ⊎ (room n top_n ≤ length every)
    → load_from p (rows ++ after) n top_n ≡ ok (take (room n top_n) every)
unfolding load_from all_taken with_row
load_from-take p [] after n top_n h (inl none_left) =
    let m : room n top_n ≡ suc (room n top_n - 1) = omega arith in
    rw (none_left, ← ok-injective h) (rw m refl)
load_from-take p [] after n top_n {every} h (inr filled) =
    absurd (let none_taken = ap length (ok-injective h) in omega (arith, none_taken, filled))
load_from-take p (row ∷ rows) after n top_n {every} h ends = elim (Bool-cases (is_taken p row)) [
  | inr other ↦ rw other (load_from-take p rows after n top_n (rw other at h) ends)
  | inl taken ↦
      let h' : with_row false (combo_of_row p row) (all_taken p rows) ≡ ok every = rw taken at h in
      let (c, made, rest) =
        >>=-eq-ok (combo_of_row p row) (λ c. all_taken p rows >>= λ more. ok (c ∷ more)) h' in
      let (more, later, whole) = >>=-eq-ok (all_taken p rows) (λ more. ok (c ∷ more)) rest in
      let size = ap length (ok-injective whole) in
      rw (taken, ← ok-injective whole)
        (elim (Bool-cases (is_full (suc n) top_n)) [
          | inl last ↦ rw (last, made, room-full n top_n last) refl
          | inr open_end ↦
              let next = room-suc n top_n open_end in
              let ends' : (after ≡ []) ⊎ (room (suc n) top_n ≤ length more) = elim ends [
                | inl none_left ↦ inl none_left
                | inr filled ↦ inr (omega (arith, filled, size, next))
              ] in
              let ih = load_from-take p rows after (suc n) top_n later ends' in
              rw (open_end, made, ih, next) refl
        ])
]

-- Where the rows begin with some, each of which gives a combination if it passes the tests, and which are all rows or
-- give as many combinations as the limit says, `load_rows_json` returns the first combinations of these rows, as many
-- as the limit says, but one where the limit is 0 or negative.
pub load_rows_json-take :
    (p : Texts) (contents : JsonRows) (top_n : ℤ) (key : String) (rows after : List Row)
    {every : List Combo}
    → rows_from_json_obj contents key ≡ rows ++ after
    → all_taken p rows ≡ ok every
    → (after ≡ []) ⊎ (max 1 (to_ℕ top_n) ≤ length every)
    → load_rows_json p contents top_n key ≡ ok (take (max 1 (to_ℕ top_n)) every)
unfolding load_rows_json
load_rows_json-take p contents top_n key rows after {every} parts h ends =
    let e : to_ℕ top_n - 0 ≡ to_ℕ top_n = omega arith in
    let ends' : (after ≡ []) ⊎ (room 0 top_n ≤ length every) = rw e ends in
    rw parts (load_from-take p rows after 0 top_n h ends' ∙ rw e refl)
