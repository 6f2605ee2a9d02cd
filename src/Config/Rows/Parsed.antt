-- ===== src/Config/Rows/Parsed.antt =====
-- How `parse_csv_rows` ends.
use mathlib.Core.Path.{subst}
use ooverlap.Prelude.{
  ℕ, suc, ◌≡◌, refl, sym, Option, some, List, [], ◌∷◌, ◌++◌, length, get_elem?, arith,
  length-append, append_assoc,
}
use ooverlap.Prelude.Floats.{Floats}
use ooverlap.Prelude.Result.{Result, ok, err, Error, ◌>>=◌}
use ooverlap.Config.Rows.{Args, written, Row, State, read_rows, no_rows, parse_csv_rows}
use ooverlap.Config.Rows.Counted.{IsCounted, IsStep, stepped, stopped, read_row-IsStep}

get_elem?-middle {ℓ} :
    {A : Type ℓ} (xs : List A) (y : A) (ys : List A) → get_elem? (xs ++ y ∷ ys) (length xs) ≡ some y
get_elem?-middle [] y ys = refl
get_elem?-middle (x ∷ xs) y ys = get_elem?-middle xs y ys

module _ (f : Floats) (args : Args) (shape0 : Option (ℕ × ℕ × ℕ)) where
  -- The end of the loop: the counts of all rows, or the exception of one of them.
  pub data IsParsed (rows : List (Row f)) : Result (State f) → Type 0 where
    counted : {s : State f} → IsCounted f args shape0 rows (length rows) s → IsParsed rows (ok s)
    stopped_at :
        {e : Error} (i : ℕ) (row : Row f)
        → get_elem? rows i ≡ some row
        → row.st ≡ written (err e)
        → IsParsed rows (err e)

  IsStep-then :
      (all : List (Row f)) (i : ℕ) (row : Row f) (rest : State f → Result (State f))
      {r : Result (State f)}
      → get_elem? all i ≡ some row
      → IsStep f args shape0 all i row r
      → ((s : State f) → r ≡ ok s → IsCounted f args shape0 all (suc i) s → IsParsed all (rest s))
      → IsParsed all (r >>= rest)
  IsStep-then all i row rest place (stepped {s} v) next = next s refl v
  IsStep-then all i row rest place (stopped raised) next = stopped_at i row place raised

  read_rows-IsParsed :
      (seen rows : List (Row f)) (i : ℕ) (s : State f)
      → length seen ≡ i
      → IsCounted f args shape0 (seen ++ rows) i s
      → IsParsed (seen ++ rows) (read_rows f args shape0 i rows s)
  unfolding read_rows
  read_rows-IsParsed seen [] i s at_end v =
      let total : i ≡ length (seen ++ []) = omega (arith, length-append seen [], at_end) in
      counted (subst (λ n. IsCounted f args shape0 (seen ++ []) n s) total v)
  read_rows-IsParsed seen (row ∷ rows) i s here_now v =
      let place : get_elem? (seen ++ row ∷ rows) i ≡ some row =
        rw (← here_now) (get_elem?-middle seen row rows) in
      let split = append_assoc seen (row ∷ []) rows in
      let size : length (seen ++ row ∷ []) ≡ suc i =
        omega (arith, length-append seen (row ∷ []), here_now) in
      IsStep-then (seen ++ row ∷ rows) i row (λ next. read_rows f args shape0 (suc i) rows next)
        place (read_row-IsStep f args shape0 (seen ++ row ∷ rows) i row s v place)
        (λ next e step.
          subst (λ all. IsParsed all (read_rows f args shape0 (suc i) rows next)) split
            (read_rows-IsParsed (seen ++ row ∷ []) rows (suc i) next size
              (subst (λ all. IsCounted f args shape0 all (suc i) next) (sym split) step)))

  -- The loop ends with an exception only where the cell of the stages of a row raises it. Where it returns, the counts
  -- of the five places where a row can end add up to the number of rows, and the kept ones are as many as the records;
  -- each counter of schedulers, with the rows that lack a runtime or the shape, is at most the number of rows; each
  -- record holds the values of the row that it names, which has a runtime, the shape of the command line if the file's
  -- name tells one, all four sizes, and the types and layouts that are asked for; and each such row has a record.
  pub parse_csv_rows-IsParsed :
      (rows : List (Row f)) → IsParsed rows (parse_csv_rows f args shape0 rows)
  unfolding parse_csv_rows no_rows
  parse_csv_rows-IsParsed rows = read_rows-IsParsed [] rows 0 (no_rows f) refl (record {
    all_rows = refl;
    places = refl;
    records = refl;
    stream_k = omega arith;
    split_k = omega arith;
    sources = tt;
    complete = λ j row below there_is eligible. absurd (omega (arith, below));
  })
