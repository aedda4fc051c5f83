-- ===== src/Server/Methods.antt =====
-- The methods of the server and those of the policy.
use loyalty_points_app.Prelude.{
  All, some, true, String, ◌≡◌, refl, sym, ap, ◌∙◌, Bool, Bool-cases, false, inl, inr, ◌||◌,
  is_some, List, [], ◌∷◌, ◌++◌, any, arith, ◌==◌,
}
use loyalty_points_app.Authorization.{
  default_policy, is_public, lookup, grants, authorize, permissions_for_role, role_member,
  role_admin,
}
use loyalty_points_app.Sessions.{TokenLibrary, PasswordLibrary}
use loyalty_points_app.Server.Calls.{RpcCodec, Handler, register_services, find_method}
use loyalty_points_app.Server.Services.{services}

abbrev names : {A : Type 0} → List (String × A) → List String
names [] = []
names ((n, a) ∷ xs) = n ∷ names xs

any-append :
    {A : Type 0} (p : A → Bool) (xs ys : List A) → any p (xs ++ ys) ≡ (any p xs || any p ys)
any-append p [] ys = refl
any-append p (x ∷ xs) ys = ground (arith, any-append p xs ys)

find_method-any :
    {Body : Type 0} (method : String) (ms : List (String × Handler Body))
    → is_some (find_method method ms) ≡ any (λ n. n == method) (names ms)
find_method-any method [] = refl
find_method-any method ((n, h) ∷ ms) = elim (Bool-cases (n == method)) [
  | inl found ↦ rw found refl
  | inr other ↦ rw other (find_method-any method ms)
]

lookup-any :
    (method : String) (ms : List (String × List String))
    → is_some (lookup method ms) ≡ any (λ n. n == method) (names ms)
lookup-any method [] = refl
lookup-any method ((n, h) ∷ ms) = elim (Bool-cases (n == method)) [
  | inl found ↦ rw found refl
  | inr other ↦ rw other (lookup-any method ms)
]

-- The methods between registration and the audit trail, in both lists.
abbrev shared_names : List String
shared_names =
    "Wallet.ProcessTransaction" ∷ "Wallet.EarnPoints" ∷ "Wallet.SpendPoints"
    ∷ "Wallet.ProcessTransactionBatch" ∷ "AccountService.FetchMyAccounts"
    ∷ "AccountService.GetAccountByID" ∷ "AccountService.GetAccountBalance"
    ∷ "AccountService.UpdateAccountName" ∷ "AccountService.UpdateAccountBalance"
    ∷ "AccountOpener.OpenAccount" ∷ []

regroup :
    (login logout register shared audit : Bool)
    → (login || (logout || (register || (shared || audit))))
      ≡ ((login || (register || false)) || (shared || (logout || audit)))
regroup login logout register shared audit = ground arith

-- A method has a handler exactly if the policy has an entry for it.
find_method-lookup :
    {Body Jws : Type 0} (codec : RpcCodec Body) (jose : TokenLibrary Jws) (bcrypt : PasswordLibrary)
    (method : String)
    → is_some (find_method method (register_services (services codec jose bcrypt)))
      ≡ (is_public default_policy method || is_some (lookup method default_policy.by_method))
unfolding services is_public default_policy
find_method-lookup codec jose bcrypt method =
    let p : String → Bool = λ n. n == method in
    let audit = "AuditService.FetchTransactionAuditTrail" ∷ [] in
    find_method-any method (register_services (services codec jose bcrypt))
    ∙ ap
        (λ b.
          p "EmailPasswordAuthenticator.Login"
          || (p "Session.Logout" || (p "UserRegistrationService.Register" || b)))
        (any-append p shared_names audit)
    ∙ regroup (p "EmailPasswordAuthenticator.Login") (p "Session.Logout")
        (p "UserRegistrationService.Register") (any p shared_names) (any p audit)
    ∙ ap (λ b. is_public default_policy method || b)
        (sym (any-append p shared_names ("Session.Logout" ∷ audit))
          ∙ sym (lookup-any method default_policy.by_method))

-- One of the two callers may call the method of the entry.
abbrev IsReachable : List String → List String → String × List String → Type 0
IsReachable these those (method, required) =
    (grants these (some required) || grants those (some required)) ≡ true

lookup-grants :
    (these those : List String) (method : String) (ms : List (String × List String))
    → All (IsReachable these those) ms
    → is_some (lookup method ms)
      ≡ (grants these (lookup method ms) || grants those (lookup method ms))
lookup-grants these those method [] h = refl
lookup-grants these those method ((n, required) ∷ ms) (reachable, h) =
    elim (Bool-cases (n == method)) [
      | inl found ↦ rw found (sym reachable)
      | inr other ↦ rw other (lookup-grants these those method ms h)
    ]

-- Every entry of the default policy is for the members or for the administrators.
default_policy-IsReachable :
    All
      (IsReachable (permissions_for_role role_member) (permissions_for_role role_admin))
      default_policy.by_method
unfolding default_policy permissions_for_role
default_policy-IsReachable = (
  refl,
  (refl, (refl, (refl, (refl, (refl, (refl, (refl, (refl, (refl, (refl, (refl, tt))))))))))),
)

-- A method has a handler exactly if the default policy has it among the public ones or lets the
-- members or the administrators call it with the permissions of their role: no handler is out of every
-- caller's reach, and no role is let to a method that nobody serves.
pub find_method-services :
    {Body Jws : Type 0} (codec : RpcCodec Body) (jose : TokenLibrary Jws) (bcrypt : PasswordLibrary)
    (method : String)
    → is_some (find_method method (register_services (services codec jose bcrypt))) ≡ (
        is_public default_policy method
        || (authorize default_policy (permissions_for_role role_member) method
            || authorize default_policy (permissions_for_role role_admin) method))
unfolding authorize
find_method-services codec jose bcrypt method =
    find_method-lookup codec jose bcrypt method
    ∙ ap (λ b. is_public default_policy method || b)
        (lookup-grants (permissions_for_role role_member) (permissions_for_role role_admin) method
          default_policy.by_method default_policy-IsReachable)
