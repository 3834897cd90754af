-- ===== src/Retry/Classify.antt =====
-- packages/core/src/core/retry.ts: which errors may be retried. The texts of the reasons are left
-- out. The engine of regular expressions is a parameter: `matches p s` is `/p/i.test(s)`.
use Prim.Native.String.{String}
use zk_payroll_sdk.Prelude.{
  ℕ, Bool, true, false, ◌||◌, Option, none, some, List, [], ◌∷◌, leb, ◌==◌, if◌then◌else◌,
}
use zk_payroll_sdk.Prelude.Text.{str_eq}

pub data RetryCategory : Type 0 where
  retryable non_retryable unknown : RetryCategory

pub data ContractErrorCode : Type 0 where
  simulation_failed transaction_submission_failed transaction_timeout rpc_timeout :
      ContractErrorCode
  insufficient_fee contract_revert invalid_response unknown_rpc_error : ContractErrorCode

-- What the `instanceof` tests of `classifyError` tell apart; `sdk_error` is any other
-- `ZkPayrollError`.
pub data ErrorKind : Type 0 where
  network_error : Option ℕ → ErrorKind
  contract_error : ContractErrorCode → ErrorKind
  proof_generation_error validation_error batch_validation_error sdk_error : ErrorKind
  generic_error not_an_error : ErrorKind

pub record Thrown : Type 0 where
  pub kind : ErrorKind
  pub name : String
  pub message : String

abbrev pub classify_network_error : Option ℕ → RetryCategory
classify_network_error none = retryable
classify_network_error (some code) =
    if leb 500 code
    then retryable
    else if code == 429
    then retryable
    else if leb 400 code
    then non_retryable
    else unknown

abbrev pub classify_contract_error : ContractErrorCode → RetryCategory
classify_contract_error simulation_failed = retryable
classify_contract_error transaction_submission_failed = retryable
classify_contract_error transaction_timeout = retryable
classify_contract_error insufficient_fee = non_retryable
classify_contract_error contract_revert = non_retryable
classify_contract_error rpc_timeout = unknown
classify_contract_error invalid_response = unknown
classify_contract_error unknown_rpc_error = unknown

abbrev network_error_patterns : List String
network_error_patterns =
    "ECONNREFUSED" ∷ "ECONNRESET" ∷ "ETIMEDOUT" ∷ "ENOTFOUND" ∷ "EAI_AGAIN" ∷ "network" ∷ "timeout"
    ∷ "timed\\s*out" ∷ "connection" ∷ "socket" ∷ "econnrefused" ∷ "econnreset" ∷ "etimedout"
    ∷ "request\\s*failed" ∷ []

module _ (matches : String → String → Bool) where
  abbrev pub matches_any : List String → String → Bool
  matches_any [] msg = false
  matches_any (p ∷ ps) msg = matches p msg || matches_any ps msg

  abbrev pub classify_generic_error : Thrown → RetryCategory
  classify_generic_error e =
      if matches_any network_error_patterns e.message
      then retryable
      else if str_eq e.name "AbortError" || str_eq e.name "TimeoutError"
      then retryable
      else unknown

  unfoldable pub classify_error : Thrown → RetryCategory
  classify_error e = elim e.kind [
    | network_error status ↦ classify_network_error status
    | contract_error code ↦ classify_contract_error code
    | proof_generation_error ↦ non_retryable
    | validation_error ↦ non_retryable
    | batch_validation_error ↦ non_retryable
    | sdk_error ↦ unknown
    | generic_error ↦ classify_generic_error e
    | not_an_error ↦ unknown
  ]

-- `category === RetryCategory.NON_RETRYABLE`
abbrev pub is_non_retryable : RetryCategory → Bool
is_non_retryable retryable = false
is_non_retryable non_retryable = true
is_non_retryable unknown = false
