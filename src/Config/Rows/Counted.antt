-- ===== src/Config/Rows/Counted.antt =====
-- What a row adds to the counts and the records.
use ooverlap.Prelude.{
  ℕ, suc, ◌+◌, ◌≤◌, ◌≡◌, refl, ap, inl, inr, Bool, true, false, Option, none, some, List, [], ◌∷◌,
  ◌++◌, length, get_elem?, All, Bool-cases, arith, length-append,
}
use ooverlap.Prelude.Int.{ℤ}
use ooverlap.Prelude.Floats.{Floats}
use ooverlap.Prelude.Result.{Result, ok, err, Error, Option-cases, Result-cases}
use ooverlap.Config.Rows.Accepted.{csv_row_ok-IsAccepted, IsSameShape, is_other_shape-IsSameShape}
use ooverlap.Config.Rows.{
  Args, written, stage, csv_row_ok, Row, State, is_other_shape, add_bool, see, keep, parse_tile,
  read_row,
}
use ooverlap.Config.Rows.Described.{
  IsStages, stage-IsStages, stage-none, stage-raises, IsFrom, IsEligible, AreKept, AreKept-passed,
  AreKept-added,
}

All-append {ℓ κ} :
    {A : Type ℓ} (P : A → Type κ) (xs ys : List A) → All P xs → All P ys → All P (xs ++ ys)
All-append P [] ys p q = q
All-append P (x ∷ xs) ys (p, ps) q = (p, All-append P xs ys ps q)

add_bool_bound : (n : ℕ) (b : Bool) → add_bool n b ≤ suc n
unfolding add_bool
add_bool_bound n true = omega arith
add_bool_bound n false = omega arith

module _ (f : Floats) (args : Args) (shape0 : Option (ℕ × ℕ × ℕ)) where
  -- Every row is counted in one place.
  pub record IsCounted (rows : List (Row f)) (raw : ℕ) (s : State f) : Type 0 where
    pub all_rows : s.raw_rows ≡ raw
    pub places : s.bad_runtime + s.shape + s.tile_parse + s.layout_or_dtype + s.kept ≡ raw
    pub records : s.kept ≡ length s.records
    pub stream_k : s.stream_k_rows_seen + s.bad_runtime + s.shape ≤ raw
    pub split_k : s.split_k_rows_seen + s.bad_runtime + s.shape ≤ raw
    pub sources : All (IsFrom f args shape0 rows) s.records
    pub complete : AreKept f args shape0 rows raw s.records

  -- The counts after the step that sees the schedulers, before the row is placed.
  record IsSeen (rows : List (Row f)) (i : ℕ) (s : State f) : Type 0 where
    all_rows : s.raw_rows ≡ suc i
    places : s.bad_runtime + s.shape + s.tile_parse + s.layout_or_dtype + s.kept ≡ i
    records : s.kept ≡ length s.records
    stream_k : s.stream_k_rows_seen + s.bad_runtime + s.shape ≤ suc i
    split_k : s.split_k_rows_seen + s.bad_runtime + s.shape ≤ suc i
    sources : All (IsFrom f args shape0 rows) s.records
    complete : AreKept f args shape0 rows i s.records

  see-IsSeen :
      (rows : List (Row f)) (i : ℕ) (row : Row f) (s : State f)
      → IsCounted rows i s
      → IsSeen rows i (see f row (record s { raw_rows = suc s.raw_rows }))
  unfolding see
  see-IsSeen rows i row s v = record {
    all_rows = omega (arith, v.all_rows);
    places = v.places;
    records = v.records;
    stream_k = omega (arith, v.stream_k, add_bool_bound s.stream_k_rows_seen _);
    split_k = omega (arith, v.split_k, add_bool_bound s.split_k_rows_seen _);
    sources = v.sources;
    complete = v.complete;
  }

  -- The step of the loop: the counts, or the exception that the cell of the stages raises.
  pub data IsStep (rows : List (Row f)) (i : ℕ) (row : Row f) : Result (State f) → Type 0 where
    stepped : {s : State f} → IsCounted rows (suc i) s → IsStep rows i row (ok s)
    stopped : {e : Error} → row.st ≡ written (err e) → IsStep rows i row (err e)

  keep-IsCounted :
      (rows : List (Row f)) (i : ℕ) (row : Row f) (rt : f.F) (tm tn tk st : ℤ) (s : State f)
      → IsSeen rows i s
      → get_elem? rows i ≡ some row
      → row.rt ≡ some rt
      → IsSameShape shape0 args
      → row.tm ≡ some tm
      → row.tn ≡ some tn
      → row.tk ≡ some tk
      → IsStages row.st st
      → IsCounted rows (suc i) (keep f args i row rt tm tn tk st s)
  unfolding keep
  keep-IsCounted rows i row rt tm tn tk st s v place runtime same m n k stages =
      elim (Bool-cases (csv_row_ok args row.types)) [
        | inr refused ↦
            rw (keep, refused)
              (record {
                all_rows = v.all_rows;
                places = omega (arith, v.places);
                records = v.records;
                stream_k = v.stream_k;
                split_k = v.split_k;
                sources = v.sources;
                complete =
                    AreKept-passed f args shape0 rows i row s.records v.complete place (λ eligible.
                      let t = (csv_row_ok-IsAccepted args row.types).1 eligible.accepted in cc);
              })
        | inl passes ↦
            rw (keep, passes)
              (record {
                all_rows = v.all_rows;
                places = omega (arith, v.places);
                records = omega (arith, v.records, length-append s.records _);
                stream_k = v.stream_k;
                split_k = v.split_k;
                sources = All-append (IsFrom f args shape0 rows) s.records _ v.sources (
                  record {
                    row = row;
                    place = place;
                    runtime = runtime;
                    same_shape = same;
                    tile_m = m;
                    tile_n = n;
                    tile_k = k;
                    stages = stages;
                    cluster = refl;
                    mainloop = refl;
                    scheduler = refl;
                    split_k = refl;
                    operation = refl;
                    accepted = (csv_row_ok-IsAccepted args row.types).0 passes;
                  },
                  tt,
                );
                complete = AreKept-added f args shape0 rows i s.records _ v.complete refl;
              })
      ]

  unparsed :
      (rows : List (Row f)) (i : ℕ) (row : Row f) (s : State f)
      → IsSeen rows i s
      → get_elem? rows i ≡ some row
      → (IsEligible f args shape0 row → ⊥)
      → IsCounted rows (suc i) (record s { tile_parse = suc s.tile_parse })
  unparsed rows i row s v place refused = record {
    all_rows = v.all_rows;
    places = omega (arith, v.places);
    records = v.records;
    stream_k = v.stream_k;
    split_k = v.split_k;
    sources = v.sources;
    complete = AreKept-passed f args shape0 rows i row s.records v.complete place refused;
  }

  parse_tile-IsCounted :
      (rows : List (Row f)) (i : ℕ) (row : Row f) (rt : f.F) (tm tn tk st : Option ℤ) (s : State f)
      → IsSeen rows i s
      → get_elem? rows i ≡ some row
      → row.rt ≡ some rt
      → IsSameShape shape0 args
      → row.tm ≡ tm
      → row.tn ≡ tn
      → row.tk ≡ tk
      → stage row.st ≡ ok st
      → IsCounted rows (suc i) (parse_tile f args i row rt tm tn tk st s)
  unfolding parse_tile
  parse_tile-IsCounted rows i row rt none tn tk st s v place runtime same m n k stages =
      unparsed rows i row s v place (λ e. let t = e.tile_m.1 in cc)
  parse_tile-IsCounted rows i row rt (some a) none tk st s v place runtime same m n k stages =
      unparsed rows i row s v place (λ e. let t = e.tile_n.1 in cc)
  parse_tile-IsCounted rows i row rt (some a) (some b) none st s v place runtime same m n k stages =
      unparsed rows i row s v place (λ e. let t = e.tile_k.1 in cc)
  parse_tile-IsCounted rows i row rt (some a) (some b) (some c) none s v place runtime same m n k
        stages =
      unparsed rows i row s v place (λ e. stage-none row.st stages e.stages.1)
  parse_tile-IsCounted rows i row rt (some a) (some b) (some c) (some d) s v place runtime same m n
        k stages =
      keep-IsCounted rows i row rt a b c d s v place runtime same m n k
        (stage-IsStages row.st stages)

  pub read_row-IsStep :
      (rows : List (Row f)) (i : ℕ) (row : Row f) (s : State f)
      → IsCounted rows i s
      → get_elem? rows i ≡ some row
      → IsStep rows i row (read_row f args shape0 i row s)
  unfolding read_row
  read_row-IsStep rows i row s v place = elim (Option-cases row.rt) [
    | inl bad ↦
        rw (read_row, bad)
          (stepped (record {
            all_rows = ap suc v.all_rows;
            places = omega (arith, v.places);
            records = v.records;
            stream_k = omega (arith, v.stream_k);
            split_k = omega (arith, v.split_k);
            sources = v.sources;
            complete =
                AreKept-passed f args shape0 rows i row s.records v.complete place
                  (λ e. let t = e.runtime.1 in cc);
          }))
    | inr (rt, runtime) ↦
        rw (read_row, runtime)
          (elim (Bool-cases (is_other_shape shape0 args)) [
            | inl other ↦ rw other (
                stepped (record {
                  all_rows = ap suc v.all_rows;
                  places = omega (arith, v.places);
                  records = v.records;
                  stream_k = omega (arith, v.stream_k);
                  split_k = omega (arith, v.split_k);
                  sources = v.sources;
                  complete =
                      AreKept-passed f args shape0 rows i row s.records v.complete place (λ e.
                        let t = (is_other_shape-IsSameShape shape0 args).1 e.same_shape in cc);
                }))
            | inr same ↦ rw same (elim (Result-cases (stage row.st)) [
              | inr (e, raised) ↦ rw raised (stopped (stage-raises row.st raised))
              | inl (st, converted) ↦ rw converted (
                  stepped (
                    parse_tile-IsCounted rows i row rt row.tm row.tn row.tk st _
                      (see-IsSeen rows i row s v) place runtime
                      ((is_other_shape-IsSameShape shape0 args).0 same) refl refl refl converted))
            ])
          ])
  ]
