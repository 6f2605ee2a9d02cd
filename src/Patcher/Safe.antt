-- ===== src/Patcher/Safe.antt =====
-- `patch_file` and `patch_all`: where the text of a path is.
use Prim.Native.String.{String}
use text.Mathlib.Text.{◌==◌ as str_eq}
use text.Mathlib.TextEquality.{eq_iff}
use text.Mathlib.TextLemmas.{append_cancel_right}
use ooverlap.Prelude.{
  ◌≡◌, ◌≢◌, refl, sym, ap, ◌∙◌, inl, inr, Bool, false, none, some, List, [], ◌∷◌, Bool-cases,
}
use ooverlap.Prelude.Membership.{In, here, there}
use ooverlap.Prelude.Result.{Option-cases}
use ooverlap.Prelude.Dict.{lookup, insert, lookup-insert, lookup-insert_self}
use ooverlap.Prelude.Substring.{includes}
use ooverlap.Patcher.Text.{ensure_cstddef_for_std_ptrdiff_t}
use ooverlap.Patcher.Files.{
  Store, marker, backup_suffix, backup_path, replace_each, save_backup, patch_text, patch_file,
}
use ooverlap.Patcher.Run.{patch_all}

pub lookup-insert_other :
    {V : Type 0} (k j : String) (v : V) (d : List (String × V))
    → k ≢ j
    → lookup j (insert k v d) ≡ lookup j d
lookup-insert_other k j v d apart = elim (Bool-cases (str_eq k j)) [
  | inl same ↦ absurd (apart ((eq_iff k j).0 same))
  | inr other ↦ rw (lookup-insert, other) refl
]

-- What a patch of one file does to the store.
pub data Patch (path : String) (s next : Store) : Type 0 where
  untouched : next ≡ s → Patch path s next
  patched :
      (text new : String)
      → lookup path s ≡ some text
      → next ≡ insert path new (save_backup path text s)
      → Patch path s next

pub patch_text-Patch :
    (path : String) (r : List (String × String)) (dry : Bool) (text : String) (s : Store)
    → lookup path s ≡ some text
    → Patch path s (patch_text path r dry text s).1
unfolding patch_text
patch_text-Patch path r dry text s found =
    let new = ensure_cstddef_for_std_ptrdiff_t (replace_each r false text).1 in
    elim (Bool-cases (includes text marker)) [
      | inl marked ↦ rw marked (untouched refl)
      | inr plain ↦ elim (Bool-cases (replace_each r false text).0) [
        | inr unchanged ↦ rw (plain, unchanged) (untouched refl)
        | inl changed ↦ elim (Bool-cases dry) [
          | inl d ↦ rw (plain, changed, d) (untouched refl)
          | inr d ↦ rw (plain, changed, d) (patched text new found refl)
        ]
      ]
    ]

pub patch_file-Patch :
    (path : String) (r : List (String × String)) (dry : Bool) (s : Store)
    → Patch path s (patch_file path r dry s).1
unfolding patch_file
patch_file-Patch path r dry s = elim (Option-cases (lookup path s)) [
  | inl missing ↦ rw (missing, patch_file) (untouched refl)
  | inr (text, found) ↦ rw (found, patch_file) (patch_text-Patch path r dry text s found)
]

pub backup_path-injective : (p q : String) → backup_path p ≡ backup_path q → p ≡ q
unfolding backup_path
backup_path-injective p q h = append_cancel_right p q backup_suffix h

-- The files of a run: the paths that are patched, none of which is the backup of another.
module _ (paths : List String)
    (apart : (p q : String) → In p paths → In q paths → backup_path p ≢ q) (o : Store) where
  -- The text that a path had is still there: in the file, or in its backup.
  pub data IsSafe (p : String) (s : Store) : Type 0 where
    in_file : lookup (backup_path p) s ≡ none → lookup p s ≡ lookup p o → IsSafe p s
    in_backup :
        (text : String) → lookup p o ≡ some text → lookup (backup_path p) s ≡ some text → IsSafe p s

  pub IsSafe-insert :
      (p k : String) (v : String) (s : Store)
      → k ≢ p
      → k ≢ backup_path p
      → IsSafe p s
      → IsSafe p (insert k v s)
  IsSafe-insert p k v s other no_backup (in_file b f) =
      in_file (lookup-insert_other k (backup_path p) v s no_backup ∙ b)
        (lookup-insert_other k p v s other ∙ f)
  IsSafe-insert p k v s other no_backup (in_backup t e b) =
      in_backup t e (lookup-insert_other k (backup_path p) v s no_backup ∙ b)

  pub IsSafe-save_backup :
      (p q : String) (v : String) (s : Store)
      → In p paths
      → In q paths
      → q ≢ p
      → IsSafe p s
      → IsSafe p (save_backup q v s)
  unfolding save_backup
  IsSafe-save_backup p q v s ip iq other safe = elim (Option-cases (lookup (backup_path q) s)) [
    | inr (kept, there_is) ↦ rw (there_is, save_backup) safe
    | inl missing ↦
        rw (missing, save_backup)
          (IsSafe-insert p (backup_path q) v s (apart q p iq ip)
            (λ e. other (backup_path-injective q p e)) safe)
  ]

  -- The patch of the path itself: its text goes to the backup, if there is none.
  pub IsSafe-patched :
      (p : String) (text new : String) (s : Store)
      → In p paths
      → lookup p s ≡ some text
      → IsSafe p s
      → IsSafe p (insert p new (save_backup p text s))
  unfolding save_backup
  IsSafe-patched p text new s ip found (in_file b f) =
      let k = backup_path p in
      let saved = lookup-insert_self k text s in
      rw (b, save_backup)
        (in_backup text (sym f ∙ found)
          (lookup-insert_other p k new (insert k text s) (λ e. apart p p ip ip (sym e)) ∙ saved))
  IsSafe-patched p text new s ip found (in_backup t e b) =
      rw (b, save_backup)
        (in_backup t e
          (lookup-insert_other p (backup_path p) new s (λ e. apart p p ip ip (sym e)) ∙ b))

  pub IsSafe-Patch :
      (p q : String) {s next : Store}
      → In p paths
      → In q paths
      → Patch q s next
      → IsSafe p s
      → IsSafe p next
  IsSafe-Patch p q ip iq (untouched e) safe = rw e safe
  IsSafe-Patch p q {s} ip iq (patched text new found e) safe =
      rw e (elim (Bool-cases (str_eq q p)) [
        | inl same ↦
            let q_p = (eq_iff q p).0 same in
            rw q_p (IsSafe-patched p text new s ip (ap (λ k. lookup k s) (sym q_p) ∙ found) safe)
        | inr differs ↦
            let q_p : q ≢ p = λ h. let t = (eq_iff q p).1 h in cc in
            IsSafe-insert p q new (save_backup q text s) q_p (λ h. apart p q ip iq (sym h))
              (IsSafe-save_backup p q text s ip iq q_p safe)
      ])

  pub IsSafe-patch_all :
      (p : String) (r : List (String × String)) (dry : Bool) (qs : List String) (s : Store)
      → In p paths
      → ((q : String) → In q qs → In q paths)
      → IsSafe p s
      → IsSafe p (patch_all r dry qs s).1
  unfolding patch_all
  IsSafe-patch_all p r dry [] s ip part safe = safe
  IsSafe-patch_all p r dry (q ∷ qs) s ip part safe =
      IsSafe-patch_all p r dry qs (patch_file q r dry s).1 ip (λ k m. part k (there m))
        (IsSafe-Patch p q ip (part q here) (patch_file-Patch q r dry s) safe)
