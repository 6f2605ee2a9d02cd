-- ===== src/Patcher/Restored.antt =====
-- `revert_file`, `revert_all` and `run`: the text of a path after a patch and a reversal.
use Prim.Native.String.{String}
use text.Mathlib.Text.{◌==◌ as str_eq}
use text.Mathlib.TextEquality.{eq_iff}
use ooverlap.Prelude.{
  ◌≡◌, ◌≢◌, refl, sym, ◌∙◌, inl, inr, true, false, none, List, [], ◌∷◌, ◌++◌, Bool-cases,
}
use ooverlap.Prelude.Membership.{In, here, there, In-append_left, In-append_right}
use ooverlap.Prelude.Result.{Option-cases}
use ooverlap.Prelude.Dict.{lookup, lookup-insert_self}
use ooverlap.Patcher.Files.{Store, backup_path, revert_file}
use ooverlap.Patcher.Run.{Args, revert_all, run, nlohmann_replacements, torch_replacements}
use ooverlap.Patcher.Safe.{
  IsSafe, in_file, in_backup, lookup-insert_other, IsSafe-insert, IsSafe-patch_all,
}

-- The files of a run: the paths that are patched, none of which is the backup of another.
module _ (paths : List String)
    (apart : (p q : String) → In p paths → In q paths → backup_path p ≢ q) (o : Store) where
  -- After the reversal the text is in the file.
  abbrev IsRestored : String → Store → Type 0
  IsRestored p s = (lookup p s ≡ lookup p o) × IsSafe paths apart o p s

  revert_file-IsRestored :
      (p : String) (s : Store)
      → In p paths
      → IsSafe paths apart o p s
      → IsRestored p (revert_file p s).1
  unfolding revert_file
  revert_file-IsRestored p s ip (in_file b f) = rw (b, revert_file) (f, in_file b f)
  revert_file-IsRestored p s ip (in_backup t e b) =
      rw (b, revert_file)
        (
          lookup-insert_self p t s ∙ sym e,
          in_backup t e
              (lookup-insert_other p (backup_path p) t s (λ h. apart p p ip ip (sym h)) ∙ b),
        )

  revert_file-other :
      (p q : String) (s : Store)
      → In p paths
      → In q paths
      → q ≢ p
      → IsSafe paths apart o p s
      → (lookup p (revert_file q s).1 ≡ lookup p s) × IsSafe paths apart o p (revert_file q s).1
  unfolding revert_file
  revert_file-other p q s ip iq other safe = elim (Option-cases (lookup (backup_path q) s)) [
    | inl missing ↦ rw (missing, revert_file) (refl, safe)
    | inr (kept, there_is) ↦
        rw (there_is, revert_file)
          (
            lookup-insert_other q p kept s other,
            IsSafe-insert paths apart o p q kept s other (λ h. apart p q ip iq (sym h)) safe,
          )
  ]

  IsSafe-revert_file :
      (p q : String) (s : Store)
      → In p paths
      → In q paths
      → IsSafe paths apart o p s
      → IsSafe paths apart o p (revert_file q s).1
  IsSafe-revert_file p q s ip iq safe = elim (Bool-cases (str_eq q p)) [
    | inl same ↦ rw ((eq_iff q p).0 same) ((revert_file-IsRestored p s ip safe).1)
    | inr differs ↦
        let q_p : q ≢ p = λ h. let t = (eq_iff q p).1 h in cc in
        (revert_file-other p q s ip iq q_p safe).1
  ]

  IsRestored-revert_file :
      (p q : String) (s : Store)
      → In p paths
      → In q paths
      → IsRestored p s
      → IsRestored p (revert_file q s).1
  IsRestored-revert_file p q s ip iq (same_text, safe) = elim (Bool-cases (str_eq q p)) [
    | inl same ↦ rw ((eq_iff q p).0 same) (revert_file-IsRestored p s ip safe)
    | inr differs ↦
        let q_p : q ≢ p = λ h. let t = (eq_iff q p).1 h in cc in
        let (kept, still) = revert_file-other p q s ip iq q_p safe in (kept ∙ same_text, still)
  ]

  IsRestored-revert_all :
      (p : String) (qs : List String) (s : Store)
      → In p paths
      → ((q : String) → In q qs → In q paths)
      → IsRestored p s
      → IsRestored p (revert_all qs s).1
  unfolding revert_all
  IsRestored-revert_all p [] s ip part r = r
  IsRestored-revert_all p (q ∷ qs) s ip part r =
      IsRestored-revert_all p qs (revert_file q s).1 ip (λ k m. part k (there m))
        (IsRestored-revert_file p q s ip (part q here) r)

  revert_all-IsRestored :
      (p : String) (qs : List String) (s : Store)
      → In p paths
      → In p qs
      → ((q : String) → In q qs → In q paths)
      → IsSafe paths apart o p s
      → IsRestored p (revert_all qs s).1
  unfolding revert_all
  revert_all-IsRestored p [] s ip m part safe = elim m [ ]
  revert_all-IsRestored p (q ∷ qs) s ip here part safe =
      IsRestored-revert_all p qs (revert_file q s).1 ip (λ k m. part k (there m))
        (revert_file-IsRestored p s ip safe)
  revert_all-IsRestored p (q ∷ qs) s ip (there m) part safe =
      revert_all-IsRestored p qs (revert_file q s).1 ip m (λ k i. part k (there i))
        (IsSafe-revert_file p q s ip (part q here) safe)

-- A run that patches, dry or not and whatever its exit code, and then one that reverts, over the same paths, leave each
-- of the paths with the text that it had, where no path had a backup and none is the backup of one of them.
pub run-run_revert :
    (patch revert : Args) (nlohmann torch : List String) (s : Store) (p : String)
    → patch.revert ≡ false
    → revert.revert ≡ true
    → ((p q : String) → In p (nlohmann ++ torch) → In q (nlohmann ++ torch) → backup_path p ≢ q)
    → ((p : String) → In p (nlohmann ++ torch) → lookup (backup_path p) s ≡ none)
    → In p (nlohmann ++ torch)
    → lookup p (run revert nlohmann torch (run patch nlohmann torch s).1).1 ≡ lookup p s
unfolding run
run-run_revert patch revert nlohmann torch s p forward back apart no_backup ip =
    let paths = nlohmann ++ torch in
    let start : IsSafe paths apart s p s = in_file (no_backup p ip) refl in
    let first =
      IsSafe-patch_all paths apart s p nlohmann_replacements patch.dry_run nlohmann s ip
        (λ q m. In-append_left nlohmann torch m) start in
    let second =
      IsSafe-patch_all paths apart s p torch_replacements patch.dry_run torch _ ip
        (λ q m. In-append_right nlohmann torch m) first in
    rw (forward, back) ((revert_all-IsRestored paths apart s p paths _ ip ip (λ q m. m) second).0)
