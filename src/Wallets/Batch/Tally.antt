-- ===== src/Wallets/Batch/Tally.antt =====
-- The answer to a batch: one result for each element, in the applied order, and the three counts.
use loyalty_points_app.Prelude.{
  String, ◌+◌, ◌≡◌, refl, sym, ap, ◌∙◌, Bool, inl, inr, Bool-cases, none, List, [], ◌∷◌, ◌++◌, map,
  length, length-append, count_where, arith, ◌==◌,
}
use mathlib.Core.List.{append_assoc, append-nil, map-append}
use loyalty_points_app.Authentication.Context.{Context}
use loyalty_points_app.Sql.{Env, World, Result, ok, err}
use loyalty_points_app.Wallets.Types.{
  ProcessTransactionRequest, ProcessTransactionResponse, ProcessTransactionBatchRequest,
  ProcessTransactionBatchResponse, BatchElementResult, batch_outcome_accepted,
  batch_outcome_duplicate, batch_outcome_rejected,
}
use loyalty_points_app.Wallets.Validations.{validate_batch}
use loyalty_points_app.Wallets.Service.{process_transaction}
use loyalty_points_app.Wallets.Ingestion.{
  tally, process_all, process_transaction_batch, sort_by_time,
}

abbrev pub has_outcome : String → BatchElementResult → Bool
has_outcome o r = r.outcome == o

-- The counts are those of the results.
pub record IsTallied (resp : ProcessTransactionBatchResponse) : Type 0 where
  pub accepted : resp.accepted ≡ count_where (has_outcome batch_outcome_accepted) resp.results
  pub duplicate : resp.duplicate ≡ count_where (has_outcome batch_outcome_duplicate) resp.results
  pub rejected : resp.rejected ≡ count_where (has_outcome batch_outcome_rejected) resp.results
  pub total : resp.accepted + resp.duplicate + resp.rejected ≡ length resp.results

count_where-append :
    (p : BatchElementResult → Bool) (xs ys : List BatchElementResult)
    → count_where p (xs ++ ys) ≡ count_where p xs + count_where p ys
count_where-append p [] ys = omega arith
count_where-append p (x ∷ xs) ys = omega (arith, count_where-append p xs ys)

tally-IsTallied :
    (tx : ProcessTransactionRequest) (r : Result ProcessTransactionResponse)
    (resp : ProcessTransactionBatchResponse)
    → IsTallied resp
    → IsTallied (tally tx r resp)
tally-IsTallied tx (err x) resp h = grind (arith, count_where-append, length-append)
tally-IsTallied tx (ok r) resp h = elim (Bool-cases r.duplicate) [
  | inl again ↦ rw again (grind (arith, count_where-append, length-append))
  | inr fresh ↦ rw fresh (grind (arith, count_where-append, length-append))
]

abbrev pub refs : List BatchElementResult → List String
refs = map (λ r. r.ref)

refs-tally :
    (tx : ProcessTransactionRequest) (r : Result ProcessTransactionResponse)
    (resp : ProcessTransactionBatchResponse)
    → refs (tally tx r resp).results ≡ refs resp.results ++ tx.ref ∷ []
refs-tally tx (err x) resp = simp map-append
refs-tally tx (ok r) resp = elim (Bool-cases r.duplicate) [
  | inl again ↦ rw again (simp map-append)
  | inr fresh ↦ rw fresh (simp map-append)
]

-- What a batch answers to these elements.
abbrev pub Answers :
    List ProcessTransactionRequest
    → ProcessTransactionBatchResponse
    → Result ProcessTransactionBatchResponse × World
    → Type 0
Answers txs start (ok resp, w) =
    IsTallied resp × (refs resp.results ≡ refs start.results ++ map (λ t. t.ref) txs)
Answers txs start (err x, w) = ⊥

Answers-cons :
    (tx : ProcessTransactionRequest) (r : Result ProcessTransactionResponse)
    (txs : List ProcessTransactionRequest) (resp : ProcessTransactionBatchResponse)
    (z : Result ProcessTransactionBatchResponse × World)
    → Answers txs (tally tx r resp) z
    → Answers (tx ∷ txs) resp z
Answers-cons tx r txs resp (ok done, w) h =
    let later = map (λ (t : ProcessTransactionRequest). t.ref) txs in
    (
      h.0,
      h.1
          ∙ ap (λ l. l ++ later) (refs-tally tx r resp)
          ∙ append_assoc (refs resp.results) (tx.ref ∷ []) later,
    )
Answers-cons tx r txs resp (err x, w) h = h

process_all-Answers :
    (ctx : Context) (e : Env) (txs : List ProcessTransactionRequest)
    (resp : ProcessTransactionBatchResponse) (w : World)
    → IsTallied resp
    → Answers txs resp (process_all ctx txs resp e w)
unfolding process_all
process_all-Answers ctx e [] resp w h = (h, sym (append-nil _))
process_all-Answers ctx e (tx ∷ txs) resp w h =
    let (r, w') = process_transaction ctx tx e w in
    Answers-cons tx r txs resp _
      (process_all-Answers ctx e txs (tally tx r resp) w' (tally-IsTallied tx r resp h))

abbrev pub start : ProcessTransactionBatchResponse
start = record { results = []; accepted = 0; duplicate = 0; rejected = 0 }

-- A batch that passes validation is always answered, whatever fails on the way: one result for each
-- element, by its ref, in the applied order, and counts that are those of the results and add up to
-- their number.
pub process_transaction_batch-Answers :
    (e : Env) (ctx : Context) (request : ProcessTransactionBatchRequest) (w : World)
    → validate_batch request ≡ none
    → Answers (sort_by_time request.transactions) start (process_transaction_batch ctx request e w)
unfolding process_transaction_batch
process_transaction_batch-Answers e ctx request w valid = rw valid (
    process_all-Answers ctx e (sort_by_time request.transactions) start w
      (record { accepted = refl; duplicate = refl; rejected = refl; total = omega arith }))
