-- ===== src/Server/Calls.antt =====
-- `newJSONRPCServer` of cmd/app/setupRPCServer.go. The codec is gorilla's `json2`, with the mapper of
-- pkg/jsonrpc/mapper.go.
use loyalty_points_app.Prelude.{
  String, Option, none, some, List, [], ◌∷◌, ◌++◌, ◌⊎◌, inl, inr, concat, ◌==◌, if◌then◌else◌,
}
use loyalty_points_app.Prelude.Int.{ℤ}
use loyalty_points_app.Authentication.Context.{Context}
use loyalty_points_app.Sql.{Result, ok, err, Action, pure, try, ◌>>=◌}
use loyalty_points_app.Jsonrpc.{RpcError, map_error}
use loyalty_points_app.Accounts.Adaptor.{AccountResult, BalanceResult}
use loyalty_points_app.Wallets.Adaptor.{
  TransactionParams, PointsParams, TransactionResult, BatchResult,
}
use loyalty_points_app.Audits.{ListByTransactionRefResult}
use loyalty_points_app.Sessions.{EmailPasswordAuthenticatorResponse}
use loyalty_points_app.Registration.{RegisterRequest, RegisterResponse}
use loyalty_points_app.Gateway.{Request, Reply, reply}

-- What the codec reads of a body: the method that it calls, and the params of a method, each as the
-- codec's own error where it cannot be read.
pub record RpcCodec (Body : Type 0) : Type 0 where
  pub method : Body → RpcError ⊎ String
  -- the answer to a method that no service has
  pub no_method : Body → RpcError
  pub nothing : Body → RpcError ⊎ Unit {0}
  pub credentials : Body → RpcError ⊎ (String × String)
  pub registration : Body → RpcError ⊎ RegisterRequest
  pub transaction : Body → RpcError ⊎ TransactionParams
  pub points : Body → RpcError ⊎ PointsParams
  pub transactions : Body → RpcError ⊎ List TransactionParams
  pub account_id : Body → RpcError ⊎ String
  pub account_name : Body → RpcError ⊎ (String × String)
  pub account_delta : Body → RpcError ⊎ (String × ℤ)
  pub name : Body → RpcError ⊎ String
  pub transaction_ref : Body → RpcError ⊎ String

-- A handler's result, as it is encoded.
pub data Answer : Type 0 where
  session : EmailPasswordAuthenticatorResponse → Answer
  registered : RegisterResponse → Answer
  logged_out : Answer
  transaction : TransactionResult → Answer
  batch : BatchResult → Answer
  accounts : List AccountResult → Answer
  account : AccountResult → Answer
  balance : BalanceResult → Answer
  trail : ListByTransactionRefResult → Answer

pub data RpcReply : Type 0 where
  answered : Answer → RpcReply
  rpc_failed : RpcError → RpcReply

abbrev pub Handler : Type 0 → Type 0
Handler Body = Request Body → Action (Reply RpcReply)

-- A service under its name, and its exported methods.
pub record Service (Body : Type 0) : Type 0 where
  pub name : String
  pub methods : List (String × Handler Body)

abbrev pub map_result : {A : Type 0} → (A → Answer) → Result A → RpcReply
map_result f (ok a) = answered (f a)
map_result f (err x) = rpc_failed (map_error x)

abbrev pub answer_with :
    {T A : Type 0} → (A → Answer) → (T → Action A) → RpcError ⊎ T → Action (Reply RpcReply)
answer_with f h (inl x) = pure (reply (rpc_failed x))
answer_with f h (inr t) = do result ← try (h t); pure (reply (map_result f result))

-- A handler behind the codec: its params, its call with the request's context, its answer.
abbrev pub handler :
    {Body T A : Type 0}
    → (A → Answer)
    → (Body → RpcError ⊎ T)
    → (Context → T → Action A)
    → Handler Body
handler f read h r = answer_with f (h r.context) (read r.body)

module _ {Body : Type 0} where
  abbrev pub named_methods : String → List (String × Handler Body) → List (String × Handler Body)
  named_methods service [] = []
  named_methods service ((m, h) ∷ ms) =
      (concat service (concat "." m), h) ∷ named_methods service ms

  -- `RegisterService`, for each service in turn: its methods, as "Service.Method".
  abbrev pub register_services : List (Service Body) → List (String × Handler Body)
  register_services [] = []
  register_services (s ∷ ss) = named_methods s.name s.methods ++ register_services ss

  abbrev pub find_method : String → List (String × Handler Body) → Option (Handler Body)
  find_method m [] = none
  find_method m ((n, h) ∷ ms) = if n == m then some h else find_method m ms

  abbrev pub run_method : RpcCodec Body → Option (Handler Body) → Handler Body
  run_method codec none r = pure (reply (rpc_failed (codec.no_method r.body)))
  run_method codec (some h) r = h r

  abbrev pub call_method :
      RpcCodec Body → List (String × Handler Body) → RpcError ⊎ String → Handler Body
  call_method codec ms (inl x) r = pure (reply (rpc_failed x))
  call_method codec ms (inr m) r = run_method codec (find_method m ms) r

  unfoldable pub json_rpc_server : RpcCodec Body → List (Service Body) → Handler Body
  json_rpc_server codec services r =
      call_method codec (register_services services) (codec.method r.body) r
