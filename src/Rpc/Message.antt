-- ===== src/Rpc/Message.antt =====
-- The JSON objects of requests, replies and errors.
use fidinventor.Base.{Bool, true, false, List, [], ◌∷◌, ◌++◌, ℤ, if◌then◌else◌}
use fidinventor.Base.Text.{Bytes, codes}
use fidinventor.Json.Value.{Value, null, str, int, arr, obj, Fields, end, field, JsonText}
use fidinventor.Json.Object.{of_elements}

module _ {F : Type 0} where
  -- The object that `JSONRPCRequest` writes.
  unfoldable pub request_object : Bytes → List (Value F) → Value F → Fields F
  request_object method params id =
      field (codes "method") (str method)
        (field (codes "params") (arr (of_elements params)) (field (codes "id") id end))

  abbrev pub is_null : Value F → Bool
  is_null null = true
  is_null v = false

  -- `JSONRPCReplyObj(result, error, id)`: an error leaves no result.
  unfoldable pub jsonrpc_reply_obj : Value F → Value F → Value F → Fields F
  jsonrpc_reply_obj result error id =
      field (codes "result") (if is_null error then result else null)
        (field (codes "error") error (field (codes "id") id end))

  -- `JSONRPCError(code, message)`
  unfoldable pub jsonrpc_error : ℤ → Bytes → Fields F
  jsonrpc_error code message =
      field (codes "code") (int code) (field (codes "message") (str message) end)

module _ {F : Type 0} (text : JsonText F) where
  open text use {write_string}

  -- `JSONRPCRequest(strMethod, params, id)`
  unfoldable pub jsonrpc_request : Bytes → List (Value F) → Value F → Bytes
  unfolding request_object
  jsonrpc_request method params id =
      write_string (obj (request_object method params id)) false ++ 10 ∷ []

  -- `JSONRPCReply(result, error, id)`
  unfoldable pub jsonrpc_reply : Value F → Value F → Value F → Bytes
  unfolding jsonrpc_reply_obj
  jsonrpc_reply result error id =
      write_string (obj (jsonrpc_reply_obj result error id)) false ++ 10 ∷ []
