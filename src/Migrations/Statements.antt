-- ===== src/Migrations/Statements.antt =====
-- `splitStatements` of pkg/postgres/migrate.go.
use loyalty_points_app.Prelude.{String, List, [], ◌∷◌, concat, ◌==◌, if◌then◌else◌, is_some}
use loyalty_points_app.Prelude.Texts.{cut_prefix, split}

-- A line up to its first `--`.
abbrev pub strip_comment : String → String
strip_comment String.[] = ""
strip_comment (String.◌∷◌ c s) =
    let rest = strip_comment s in
    if is_some (cut_prefix (String.◌∷◌ c s) "--") then "" else String.◌∷◌ c rest

abbrev pub strip_lines : List String → String
strip_lines [] = ""
strip_lines (line ∷ lines) = concat (strip_comment line) (concat "\n" (strip_lines lines))

-- `trim_space` is `strings.TrimSpace`.
abbrev pub trimmed_parts : (String → String) → List String → List String
trimmed_parts trim_space [] = []
trimmed_parts trim_space (part ∷ parts) =
    let rest = trimmed_parts trim_space parts in
    if trim_space part == "" then rest else trim_space part ∷ rest

-- A newline is character 10, a semicolon 59.
unfoldable pub split_statements : (String → String) → String → List String
unfolding split cut_prefix
split_statements trim_space sql_text =
    trimmed_parts trim_space (split 59 (strip_lines (split 10 sql_text)))
