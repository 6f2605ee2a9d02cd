-- ===== src/Config/Rows/Accepted.antt =====
-- What the tests of a row ask for, without the code's own functions.
use Prim.Native.String.{String}
use text.Mathlib.Text.{◌==◌ as str_eq}
use text.Mathlib.TextEquality.{eq_iff}
use ooverlap.Prelude.{
  ℕ, ◌≡◌, refl, ap, inl, inr, ◌⊎◌, ◌↔◌, Bool, true, false, ◌&&◌, ◌||◌, Option, none, some,
  Bool-cases, arith,
}
use ooverlap.Config.Rows.{Args, Types, absent_or, present_and, csv_row_ok, is_other_shape}

-- A type or a layout that the operation does not tell, or the one that is wanted.
abbrev pub IsAbsentOr : Option String → String → Type 0
IsAbsentOr x wanted = (x ≡ none) ⊎ (x ≡ some wanted)

-- The nine tests: `any` stands for every type of C and D and every layout.
pub record IsAccepted (args : Args) (t : Types) : Type 0 where
  pub a_dt : IsAbsentOr t.a_dt args.csv_a_dtype
  pub b_dt : IsAbsentOr t.b_dt args.csv_b_dtype
  pub acc : IsAbsentOr t.acc args.csv_accum_dtype
  pub c_dt : (args.csv_c_dtype ≡ "any") ⊎ (t.c_dt ≡ some args.csv_c_dtype)
  pub d_dt : (args.csv_d_dtype ≡ "any") ⊎ (t.d_dt ≡ some args.csv_d_dtype)
  pub a_l : (args.csv_a_layout ≡ "any") ⊎ IsAbsentOr t.a_l args.csv_a_layout
  pub b_l : (args.csv_b_layout ≡ "any") ⊎ IsAbsentOr t.b_l args.csv_b_layout
  pub c_l : (args.csv_c_layout ≡ "any") ⊎ IsAbsentOr t.c_l args.csv_c_layout
  pub d_l : (args.csv_d_layout ≡ "any") ⊎ IsAbsentOr t.d_l args.csv_d_layout

absent_or_iff :
    (x : Option String) (wanted : String) → (absent_or x wanted ≡ true) ↔ IsAbsentOr x wanted
unfolding absent_or
absent_or_iff none wanted = (λ h. inl refl, λ h. refl)
absent_or_iff (some x) wanted = (
  λ h. inr (ap some ((eq_iff x wanted).0 h)),
  λ h. elim h [ inl e ↦ cc | inr e ↦ (eq_iff x wanted).1 (cc) ],
)

present_and_iff :
    (x : Option String) (wanted : String) → (present_and x wanted ≡ true) ↔ (x ≡ some wanted)
unfolding present_and
present_and_iff none wanted = (λ h. cc, λ h. cc)
present_and_iff (some x) wanted =
    (λ h. ap some ((eq_iff x wanted).0 h), λ h. (eq_iff x wanted).1 (cc))

or_iff :
    {A : Type 0} (s wanted : String) (b : Bool)
    → (b ≡ true) ↔ A
    → (str_eq s wanted || b ≡ true) ↔ ((s ≡ wanted) ⊎ A)
or_iff s wanted b e = (
  λ h. elim (Bool-cases (str_eq s wanted)) [
    | inl same ↦ inl ((eq_iff s wanted).0 same)
    | inr other ↦ inr (e.0 (ground (arith, h, other)))
  ],
  λ h. elim h [
    | inl same ↦ let t = (eq_iff s wanted).1 same in ground (arith, t)
    | inr a ↦ let t = e.1 a in ground (arith, t)
  ],
)

and_parts : {a b : Bool} → a && b ≡ true → (a ≡ true) × (b ≡ true)
and_parts {a} {b} h = (ground (arith, h), ground (arith, h))

pub csv_row_ok-IsAccepted :
    (args : Args) (t : Types) → (csv_row_ok args t ≡ true) ↔ IsAccepted args t
unfolding csv_row_ok
csv_row_ok-IsAccepted args t =
    let a_dt = absent_or_iff t.a_dt args.csv_a_dtype in
    let b_dt = absent_or_iff t.b_dt args.csv_b_dtype in
    let acc = absent_or_iff t.acc args.csv_accum_dtype in
    let c_dt = or_iff args.csv_c_dtype "any" _ (present_and_iff t.c_dt args.csv_c_dtype) in
    let d_dt = or_iff args.csv_d_dtype "any" _ (present_and_iff t.d_dt args.csv_d_dtype) in
    let a_l = or_iff args.csv_a_layout "any" _ (absent_or_iff t.a_l args.csv_a_layout) in
    let b_l = or_iff args.csv_b_layout "any" _ (absent_or_iff t.b_l args.csv_b_layout) in
    let c_l = or_iff args.csv_c_layout "any" _ (absent_or_iff t.c_l args.csv_c_layout) in
    let d_l = or_iff args.csv_d_layout "any" _ (absent_or_iff t.d_l args.csv_d_layout) in
    (
      λ h.
          let s8 = and_parts h in
          let s7 = and_parts s8.0 in
          let s6 = and_parts s7.0 in
          let s5 = and_parts s6.0 in
          let s4 = and_parts s5.0 in
          let s3 = and_parts s4.0 in
          let s2 = and_parts s3.0 in
          let s1 = and_parts s2.0 in
          record {
            a_dt = a_dt.0 s1.0;
            b_dt = b_dt.0 s1.1;
            acc = acc.0 s2.1;
            c_dt = c_dt.0 s3.1;
            d_dt = d_dt.0 s4.1;
            a_l = a_l.0 s5.1;
            b_l = b_l.0 s6.1;
            c_l = c_l.0 s7.1;
            d_l = d_l.0 s8.1;
          },
      λ v.
          rw
            (
              a_dt.1 v.a_dt,
              b_dt.1 v.b_dt,
              acc.1 v.acc,
              c_dt.1 v.c_dt,
              d_dt.1 v.d_dt,
              a_l.1 v.a_l,
              b_l.1 v.b_l,
              c_l.1 v.c_l,
              d_l.1 v.d_l,
            )
            refl,
    )

-- The shape that the file's name tells, if it tells one.
abbrev pub IsSameShape : Option (ℕ × ℕ × ℕ) → Args → Type 0
IsSameShape shape0 args = (shape0 ≡ none) ⊎ (shape0 ≡ some (args.m, args.n, args.k))

pub is_other_shape-IsSameShape :
    (shape0 : Option (ℕ × ℕ × ℕ)) (args : Args)
    → (is_other_shape shape0 args ≡ false) ↔ IsSameShape shape0 args
unfolding is_other_shape
is_other_shape-IsSameShape none args = (λ h. inl refl, λ h. refl)
is_other_shape-IsSameShape (some (m, n, k)) args = (
  λ h.
      let a : m ≡ args.m = ground (arith, h) in
      let b : n ≡ args.n = ground (arith, h) in
      let c : k ≡ args.k = ground (arith, h) in inr (rw (a, b, c) refl),
  λ h. elim h [
    | inl e ↦ cc
    | inr e ↦
        let all : ◌≡◌ {A = ℕ × ℕ × ℕ} (m, n, k) (args.m, args.n, args.k) = cc in
        let a : m ≡ args.m = ap (λ (x : ℕ × ℕ × ℕ). x.0) all in
        let b : n ≡ args.n = ap (λ (x : ℕ × ℕ × ℕ). x.1) all in
        let c : k ≡ args.k = ap (λ (x : ℕ × ℕ × ℕ). x.2) all in ground (arith, a, b, c)
  ],
)
