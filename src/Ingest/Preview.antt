-- ===== src/Ingest/Preview.antt =====
-- cmd/cli/pkg/ingest/preview.go.
use Prim.Native.Nat.{Ordering}
use Prim.Native.String.{compare}
use loyalty_points_app.Prelude.{
  ℕ, suc, ◌^◌, String, Bool, true, false, List, [], ◌∷◌, any, ltb, concat, length, ◌==◌,
  if◌then◌else◌,
}
use loyalty_points_app.Prelude.Int.{ℤ, pos, neg, ◌+ℤ◌, ltb_ℤ, in_int64}
use loyalty_points_app.Sql.{is_zero}
use loyalty_points_app.Ingest.Rows.{TextLibrary, Row}
use loyalty_points_app.Ingest.Printing.{concat_all}

-- `+` of two `int64`.
abbrev pub wrap_int64 : ℤ → ℤ
wrap_int64 a =
    if in_int64 a then a else if ltb_ℤ a (pos 0) then a +ℤ pos (2 ^ 64) else a +ℤ neg (pos (2 ^ 64))

-- The variables of the loop: the sets and counts are lists without repeated keys.
pub record Breakdown : Type 0 where
  pub accounts : List String
  pub ref_counts : List (String × ℕ)
  pub earn_count : ℕ
  pub spend_count : ℕ
  pub stamped : ℕ
  pub earn_pts : ℤ
  pub spend_pts : ℤ

abbrev pub empty_breakdown : Breakdown
empty_breakdown = record {
  accounts = [];
  ref_counts = [];
  earn_count = 0;
  spend_count = 0;
  stamped = 0;
  earn_pts = pos 0;
  spend_pts = pos 0;
}

abbrev pub add_key : String → List String → List String
add_key k ks = if any (λ j. j == k) ks then ks else k ∷ ks

unfoldable pub bump_count : String → List (String × ℕ) → List (String × ℕ)
bump_count ref [] = (ref, 1) ∷ []
bump_count ref ((k, n) ∷ m) =
    let rest = bump_count ref m in if k == ref then (k, suc n) ∷ m else (k, n) ∷ rest

abbrev pub count_kind : Row → Breakdown → Breakdown
count_kind row b =
    if row.kind == "spend"
    then record b {
      spend_count = suc b.spend_count;
      spend_pts = wrap_int64 (b.spend_pts +ℤ row.points);
    }
    else record b {
      earn_count = suc b.earn_count;
      earn_pts = wrap_int64 (b.earn_pts +ℤ row.points);
    }

abbrev pub count_row : Row → Breakdown → Breakdown
count_row row b = count_kind row (record b {
  accounts = add_key row.account_id b.accounts;
  ref_counts = bump_count row.ref b.ref_counts;
  stamped = (if is_zero row.occurred_at then suc b.stamped else b.stamped);
})

unfoldable pub count_rows : List Row → Breakdown → Breakdown
count_rows [] b = b
count_rows (row ∷ rows) b = count_rows rows (count_row row b)

abbrev pub repeated : List (String × ℕ) → List String
repeated [] = []
repeated ((ref, n) ∷ m) = let rest = repeated m in if ltb 1 n then ref ∷ rest else rest

-- `sort.Strings`. The order of the code points is that of the bytes of their encoding.
abbrev pub string_less : String → String → Bool
string_less s t = elim (compare s t) [ Ordering.lt ↦ true | _ ↦ false ]

abbrev pub insert_string : String → List String → List String
insert_string s [] = s ∷ []
insert_string s (t ∷ ts) =
    let rest = insert_string s ts in if string_less t s then t ∷ rest else s ∷ t ∷ ts

unfoldable pub sort_strings : List String → List String
sort_strings [] = []
sort_strings (s ∷ ss) = insert_string s (sort_strings ss)

-- The refs that stand more than once.
abbrev pub dup_refs : List Row → List String
dup_refs rows = sort_strings (repeated (count_rows rows empty_breakdown).ref_counts)

abbrev pub join : List String → String
join [] = ""
join (s ∷ []) = s
join (s ∷ t ∷ ts) = concat s (concat ", " (join (t ∷ ts)))

-- `decimal` is fmt's `%d`, and `align` text/tabwriter.
module _ (texts : TextLibrary) (decimal : ℤ → String) (align : String → String) where
  abbrev pub signed_points : Row → String
  signed_points row = concat (if row.kind == "spend" then "-" else "+") (decimal row.points)

  abbrev pub table_lines : ℕ → List Row → String
  table_lines i [] = ""
  table_lines i (row ∷ rows) =
      concat
        (concat_all (
          "  "
          ∷ decimal (pos (suc i))
          ∷ "\t"
          ∷ row.ref
          ∷ "\t"
          ∷ row.account_id
          ∷ "\t"
          ∷ row.kind
          ∷ "\t"
          ∷ signed_points row
          ∷ "\t"
          ∷ (if is_zero row.occurred_at
              then "(server-stamped)"
              else texts.format_rfc3339 row.occurred_at)
          ∷ "\n"
          ∷ []))
        (table_lines (suc i) rows)

  abbrev pub breakdown_lines : Breakdown → List String → String
  breakdown_lines b refs = concat_all (
      "\nbatch breakdown:\n"
      ∷ concat_all ("  accounts:       " ∷ decimal (pos (length b.accounts)) ∷ "\n" ∷ [])
      ∷ concat_all (
          "  earns:          "
          ∷ decimal (pos b.earn_count)
          ∷ "  (+"
          ∷ decimal b.earn_pts
          ∷ " pts)\n"
          ∷ [])
      ∷ concat_all (
          "  spends:         "
          ∷ decimal (pos b.spend_count)
          ∷ "  (-"
          ∷ decimal b.spend_pts
          ∷ " pts)\n"
          ∷ [])
      ∷ (if ltb 0 b.stamped
          then concat_all
              ("  server-stamped: " ∷ decimal (pos b.stamped) ∷ "  (blank occurred_at)\n" ∷ [])
          else "")
      ∷ (if ltb 0 (length refs)
          then concat_all
              ("  duplicate refs: " ∷ decimal (pos (length refs)) ∷ "  (" ∷ join refs ∷ ")\n" ∷ [])
          else "")
      ∷ [])

  unfoldable pub preview : List Row → String
  unfolding count_rows sort_strings bump_count in_int64 ◌+ℤ◌ neg
  preview rows = concat_all (
      "\napply order (server processes top to bottom):\n"
      ∷ align (concat "  #\tref\taccount_id\tkind\tpoints\toccurred_at\n" (table_lines 0 rows))
      ∷ breakdown_lines (count_rows rows empty_breakdown) (dup_refs rows)
      ∷ [])
