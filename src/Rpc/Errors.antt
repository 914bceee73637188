-- ===== src/Rpc/Errors.antt =====
-- `RPCErrorCode` of src/rpcprotocol.h, and the exit codes that `CommandLineRPC` makes of them.
use fidinventor.Base.{
  ℕ, ◌+◌, ◌<◌, ◌^◌, ◌%◌, ◌≡◌, ◌≢◌, refl, ap, ◌∙◌, false, some, ◌++◌, arith, ℤ, pos, negsuc,
}
use fidinventor.Base.Text.{Bytes, codes}
use fidinventor.Base.Boost.{StringAlgo}
use fidinventor.Base.Result.{ok}
use fidinventor.Json.Value.{Value, obj, JsonText}
use fidinventor.Rpc.Message.{jsonrpc_reply_obj, jsonrpc_error}
use fidinventor.Rpc.Call.{report}
use fidinventor.Rpc.CommandLine.{report-reply}

pub data RpcErrorCode : Type 0 where
  -- Of JSON-RPC 2.0.
  invalid_request method_not_found invalid_params internal_error parse_error : RpcErrorCode
  -- Of the application.
  misc_error forbidden_by_safe_mode type_error invalid_address_or_key out_of_memory : RpcErrorCode
  invalid_parameter database_error deserialization_error server_not_started : RpcErrorCode
  -- Of the client's peers.
  client_not_connected client_in_initial_download client_node_already_added : RpcErrorCode
  client_node_not_added : RpcErrorCode
  -- Of the wallet.
  wallet_error wallet_insufficient_funds wallet_invalid_account_name : RpcErrorCode
  wallet_keypool_ran_out wallet_unlock_needed wallet_passphrase_incorrect : RpcErrorCode
  wallet_wrong_enc_state wallet_encryption_failed wallet_already_unlocked : RpcErrorCode

-- The numbers below zero, less one: the value of `code` is `negsuc (below_zero code)`.
unfoldable pub below_zero : RpcErrorCode → ℕ
below_zero invalid_request = 32599
below_zero method_not_found = 32600
below_zero invalid_params = 32601
below_zero internal_error = 32602
below_zero parse_error = 32699
below_zero misc_error = 0
below_zero forbidden_by_safe_mode = 1
below_zero type_error = 2
below_zero invalid_address_or_key = 4
below_zero out_of_memory = 6
below_zero invalid_parameter = 7
below_zero database_error = 19
below_zero deserialization_error = 21
below_zero server_not_started = 17
below_zero client_not_connected = 8
below_zero client_in_initial_download = 9
below_zero client_node_already_added = 22
below_zero client_node_not_added = 23
below_zero wallet_error = 3
below_zero wallet_insufficient_funds = 5
below_zero wallet_invalid_account_name = 10
below_zero wallet_keypool_ran_out = 11
below_zero wallet_unlock_needed = 12
below_zero wallet_passphrase_incorrect = 13
below_zero wallet_wrong_enc_state = 14
below_zero wallet_encryption_failed = 15
below_zero wallet_already_unlocked = 16

-- The value of a code.
abbrev pub error_number : RpcErrorCode → ℤ
error_number code = negsuc (below_zero code)

-- The exit code at an error: neither success nor that of a local failure, also where only eight bits of
-- it are kept.
exit_code :
    (code : RpcErrorCode)
    → (n : ℕ) × (below_zero code + 1 < 2 ^ 31)
      × (below_zero code + 1 ≡ n)
      × (n % 256 ≢ 0)
      × (n % 256 ≢ 87)
unfolding below_zero
exit_code invalid_request = (32600, omega arith, refl, omega arith, omega arith)
exit_code code = (below_zero code + 1, omega arith, refl, omega arith, omega arith)

module _ {F : Type 0} (algo : StringAlgo) (text : JsonText F) (result id : Value F) where
  -- At a reply with an error of the protocol, the client's exit code is neither 0, which stands for a
  -- result, nor 87, which stands for a failure of its own, and neither are the eight bits of it that a
  -- shell sees; and the text shows the error.
  pub report-error :
      (code : RpcErrorCode) (message : Bytes)
      → (n : ℕ) × (report algo text
            (jsonrpc_reply_obj result (obj (jsonrpc_error (error_number code) message)) id)
          ≡ ok (
            pos n,
            codes "error: "
                ++ text.write_string (obj (jsonrpc_error (error_number code) message)) false,
          ))
        × (n % 256 ≢ 0)
        × (n % 256 ≢ 87)
  report-error code message =
      let (n, fits, exits, not_0, not_87) = exit_code code in
      (
        n,
        report-reply algo text result id (some (error_number code, message)) fits
            ∙ ap
                (λ m. ok (
                  pos m,
                  codes "error: "
                      ++ text.write_string (obj (jsonrpc_error (error_number code) message)) false,
                ))
                exits,
        not_0,
        not_87,
      )
