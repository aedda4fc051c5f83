-- ===== src/Wallets/Listing/Order.antt =====
-- The order of `List` and the rows after a position.
use loyalty_points_app.Prelude.{
  String, ◌≡◌, refl, sym, ◌∙◌, Bool, Bool-cases, true, false, true≢false, if◌then◌else◌, some, List,
  [], ◌∷◌, All, All-imp, select, inl, inr, arith, eq_iff, eq_refl, ◌==◌,
}
use loyalty_points_app.Sql.Schema.{TransactionRow}
use loyalty_points_app.Wallets.Listing.{precedes, insert_row, order_rows, is_after}

-- Each row comes before all the later ones.
abbrev pub IsOrdered : (String → String → Bool) → List TransactionRow → Type 0
IsOrdered collates [] = Unit
IsOrdered collates (r ∷ rows) =
    All (λ s. precedes collates r s ≡ true) rows × IsOrdered collates rows

-- No two rows have one ref.
abbrev pub HasDistinctRefs : List TransactionRow → Type 0
HasDistinctRefs [] = Unit
HasDistinctRefs (r ∷ rows) = All (λ s. (r.ref == s.ref) ≡ false) rows × HasDistinctRefs rows

pub All-select :
    (P : TransactionRow → Type 0) (p : TransactionRow → Bool) (rows : List TransactionRow)
    → All P rows
    → All P (select p rows)
All-select P p [] h = tt
All-select P p (r ∷ rows) h = elim (Bool-cases (p r)) [
  | inl kept ↦ rw kept (h.0, All-select P p rows h.1)
  | inr dropped ↦ rw dropped (All-select P p rows h.1)
]

-- The server's order of texts is a strict total order.
module _ (collates : String → String → Bool) (irreflexive : (s : String) → collates s s ≡ false)
    (transitive : (s t u : String)
      → collates s t ≡ true
      → collates t u ≡ true
      → collates s u ≡ true)
    (total : (s t : String) → (s == t) ≡ false → collates s t ≡ false → collates t s ≡ true) where
  precedes_trans :
      (r s t : TransactionRow)
      → precedes collates r s ≡ true
      → precedes collates s t ≡ true
      → precedes collates r t ≡ true
  precedes_trans r s t h k = ground (
    arith,
    eq_iff r.recorded_at s.recorded_at,
    eq_iff s.recorded_at t.recorded_at,
    eq_iff r.recorded_at t.recorded_at,
    transitive r.ref s.ref t.ref,
    transitive t.recorded_at s.recorded_at r.recorded_at,
    irreflexive r.recorded_at,
  )

  precedes_total :
      (r s : TransactionRow)
      → (r.ref == s.ref) ≡ false
      → precedes collates s r ≡ false
      → precedes collates r s ≡ true
  precedes_total r s h k = ground (
    arith,
    eq_iff r.recorded_at s.recorded_at,
    eq_iff s.recorded_at r.recorded_at,
    eq_iff r.ref s.ref,
    eq_iff s.ref r.ref,
    total s.ref r.ref,
    total r.recorded_at s.recorded_at,
  )

  pub precedes_irrefl : (r : TransactionRow) → precedes collates r r ≡ false
  precedes_irrefl r = ground (arith, eq_refl r.recorded_at, irreflexive r.ref)

  pub precedes_asym :
      (r s : TransactionRow) → precedes collates r s ≡ true → precedes collates s r ≡ false
  precedes_asym r s h = elim (Bool-cases (precedes collates s r)) [
    | inl back ↦ ground (arith, precedes_trans r s r h back, precedes_irrefl r)
    | inr forth ↦ forth
  ]

  -- The rows after the position of a row are those that the row precedes.
  pub is_after-precedes :
      (s r : TransactionRow)
      → is_after collates (some (s.recorded_at, s.ref)) r ≡ precedes collates s r
  unfolding is_after
  is_after-precedes s r = ground (
    arith,
    eq_iff r.recorded_at s.recorded_at,
    eq_iff s.recorded_at r.recorded_at,
    irreflexive r.recorded_at,
  )

  insert_row_first :
      (r : TransactionRow) (rows : List TransactionRow)
      → All (λ x. precedes collates x r ≡ false) rows
      → insert_row collates r rows ≡ r ∷ rows
  insert_row_first r [] h = refl
  insert_row_first r (s ∷ rows) h = rw (h.0) refl

  All-insert_row :
      (P : TransactionRow → Type 0) (r : TransactionRow) (rows : List TransactionRow)
      → P r
      → All P rows
      → All P (insert_row collates r rows)
  All-insert_row P r [] p h = (p, tt)
  All-insert_row P r (s ∷ rows) p h = elim (Bool-cases (precedes collates s r)) [
    | inl before ↦ rw before (h.0, All-insert_row P r rows p h.1)
    | inr after ↦ rw after (p, h)
  ]

  IsOrdered-insert_row :
      (r : TransactionRow) (rows : List TransactionRow)
      → All (λ s. (r.ref == s.ref) ≡ false) rows
      → IsOrdered collates rows
      → IsOrdered collates (insert_row collates r rows)
  IsOrdered-insert_row r [] new h = (tt, tt)
  IsOrdered-insert_row r (s ∷ rows) new h = elim (Bool-cases (precedes collates s r)) [
    | inl before ↦ rw before (
      All-insert_row (λ x. precedes collates s x ≡ true) r rows before h.0,
      IsOrdered-insert_row r rows new.1 h.1,
    )
    | inr after ↦
        let first = precedes_total r s new.0 after in
        rw after (
          (
            first,
            All-imp (λ x. precedes collates s x ≡ true) (λ x. precedes collates r x ≡ true)
                (λ x k. precedes_trans r s x first k) rows h.0,
          ),
          h,
        )
  ]

  pub IsOrdered-order_rows :
      (rows : List TransactionRow)
      → HasDistinctRefs rows
      → IsOrdered collates (order_rows collates rows)
  unfolding order_rows
  IsOrdered-order_rows [] h = tt
  IsOrdered-order_rows (r ∷ rows) h =
      IsOrdered-insert_row r (order_rows collates rows)
        (All-order_rows (λ s. (r.ref == s.ref) ≡ false) rows h.0) (IsOrdered-order_rows rows h.1)
    where
      All-order_rows :
          (P : TransactionRow → Type 0) (rows : List TransactionRow)
          → All P rows
          → All P (order_rows collates rows)
      All-order_rows P [] h = tt
      All-order_rows P (r ∷ rows) h =
          All-insert_row P r (order_rows collates rows) h.0 (All-order_rows P rows h.1)

  -- A row of an ordered list, taken in, stands where it would stand before a selection.
  pub select-insert_row :
      (p : TransactionRow → Bool) (r : TransactionRow) (rows : List TransactionRow)
      → IsOrdered collates rows
      → select p (insert_row collates r rows)
        ≡ (if p r then insert_row collates r (select p rows) else select p rows)
  select-insert_row p r [] h = refl
  select-insert_row p r (s ∷ rows) h = elim (Bool-cases (precedes collates s r)) [
    | inl before ↦ let rest = select-insert_row p r rows h.1 in rw before (ground arith)
    | inr after ↦
        let later : All (λ x. precedes collates x r ≡ false) (s ∷ rows) = (
          after,
          All-imp (λ x. precedes collates s x ≡ true) (λ x. precedes collates x r ≡ false)
              (λ x k. not_before s x r k after) rows h.0,
        ) in
        let first =
          insert_row_first r (select p (s ∷ rows))
            (All-select (λ x. precedes collates x r ≡ false) p (s ∷ rows) later) in
        rw after (ground arith)
  ]
    where
      not_before :
          (s x r : TransactionRow)
          → precedes collates s x ≡ true
          → precedes collates s r ≡ false
          → precedes collates x r ≡ false
      not_before s x r h k = elim (Bool-cases (precedes collates x r)) [
        | inl before ↦ absurd (true≢false (sym (precedes_trans s x r h before) ∙ k))
        | inr after ↦ after
      ]
