-- ===== src/Ingest/Printing.antt =====
-- `Format` of cmd/cli/pkg/ingest/summary.go.
use loyalty_points_app.Prelude.{
  ℕ, String, Bool, List, [], ◌∷◌, ltb, concat, length, ◌==◌, if◌then◌else◌,
}
use loyalty_points_app.Prelude.Int.{ℤ, pos}
use loyalty_points_app.Ingest.Summary.{Rejection, Summary}

-- The texts of a list, one after another.
abbrev pub concat_all : List String → String
concat_all [] = ""
concat_all (s ∷ ss) = concat s (concat_all ss)

-- `decimal` is fmt's `%d`.
module _ (decimal : ℤ → String) where
  abbrev pub counted_line : String → ℕ → String
  counted_line label n = concat label (concat (decimal (pos n)) "\n")

  abbrev pub rejection_lines : List Rejection → String
  rejection_lines [] = ""
  rejection_lines (r ∷ rs) =
      concat
        (concat_all (
          "  row "
          ∷ decimal (pos r.line)
          ∷ " (ref "
          ∷ (if r.ref == "" then "-" else r.ref)
          ∷ "): "
          ∷ r.reason
          ∷ "\n"
          ∷ []))
        (rejection_lines rs)

  abbrev pub outcome_lines : Summary → Bool → String
  outcome_lines s dry_run =
      if dry_run
      then counted_line "rows to send: " s.sent
      else concat_all (
          counted_line "processed:    " s.sent
          ∷ counted_line "accepted:     " s.accepted
          ∷ counted_line "duplicates:   " s.duplicates
          ∷ counted_line "rejected:     " s.rejected
          ∷ [])

  unfoldable pub format : Summary → Bool → String
  format s dry_run = concat_all (
      (if dry_run then "DRY RUN — no changes written\n" else "")
      ∷ concat "file:         " (concat s.file "\n")
      ∷ outcome_lines s dry_run
      ∷ (if ltb 0 s.local_errors then counted_line "local errors: " s.local_errors else "")
      ∷ (if ltb 0 (length s.rejections)
          then concat "\nrejections:\n" (rejection_lines s.rejections)
          else "")
      ∷ [])
