-- ===== src/Tests/Messages.antt =====
-- HTTP messages and the calls over them at concrete inputs.
use fidinventor.Rpc.Device.{Role, server, client, new_device, to_read, to_write, use_all}
use fidinventor.Rpc.Handshake.{expected_events, use_all-new}
use fidinventor.Rpc.Errors.{misc_error, error_number, report-error}
use fidinventor.Rpc.Call.{report}
use fidinventor.Base.{
  ℕ, ◌%◌, ◌≡◌, ◌≢◌, refl, Bool, true, false, some, List, [], ◌∷◌, ◌++◌, All, arith, pos, length,
}
use fidinventor.Base.Text.{Bytes, codes, eq_bytes}
use fidinventor.Base.Dict.{Dict}
use fidinventor.Base.Result.{ok}
use fidinventor.Http.Write.{http_post, http_reply, post_headers, unauthorized_page}
use fidinventor.Http.Read.{Message, read_request_line, read_status, read_message, settle_connection}
use fidinventor.Http.Lines.{IsHeader, note_headers}
use fidinventor.Http.Literal.{literal-IsHeader}
use fidinventor.Http.Framing.{read_message_total}
use fidinventor.Http.Exchange.{post_rest, read-http_post}
use fidinventor.Http.Reply.{
  IsDate, sent_minor, sent_body, sent_headers, reply_rest, read-http_reply,
}
use fidinventor.Json.Value.{Value, null, int, obj, JsonText}
use fidinventor.Rpc.Message.{jsonrpc_reply, jsonrpc_reply_obj, jsonrpc_error}
use fidinventor.Rpc.Call.{posted, read_response}
use fidinventor.Rpc.Laws.{by_status, read-posted, request_text, login_headers, response_by_status}
use fidinventor.Tests.Plain.{plain_algo, number_text, text_of}

abbrev host : Dict Bytes
host = (codes "X-Agent", codes "fid inventor") ∷ []

host-IsHeader : All IsHeader host
host-IsHeader = (literal-IsHeader _ _ refl refl, tt)

read-http_post_example :
    (read_request_line plain_algo (http_post (codes "{}") host ++ codes "next")
      ≡ (some (pos 1, codes "POST", codes "/"), post_rest (codes "{}") host (codes "next")))
    × (read_message plain_algo (post_rest (codes "{}") host (codes "next")) (pos 1)
        ≡ some (record {
          status = pos 200;
          headers =
              settle_connection plain_algo
                (note_headers plain_algo (post_headers (codes "{}") ++ host) ([], pos 0)).0
                (pos 1);
          message = codes "{}";
          rest = codes "next";
        }))
unfolding eq_bytes
read-http_post_example =
    read-http_post plain_algo (codes "{}") host (codes "next") host-IsHeader (refl, tt)
      (omega arith)

abbrev pub some_date : Bytes
some_date = codes "Mon, 03 Jul 2017 10:00:00 +0000"

pub some_date-IsDate : IsDate some_date
some_date-IsDate = record { line = omega arith; starts = refl; ends = refl }

read-http_reply_example :
    (read_status plain_algo (http_reply some_date 500 (codes "{}") true ++ codes "next") (pos 0)
      ≡ (pos 500, sent_minor 500, reply_rest some_date 500 (codes "{}") true (codes "next")))
    × (read_message plain_algo
          (reply_rest some_date 500 (codes "{}") true (codes "next"))
          (sent_minor 500)
        ≡ some (record {
          status = pos 200;
          headers =
              settle_connection plain_algo
                (note_headers plain_algo
                  (sent_headers some_date 500 (codes "{}") true)
                  ([], pos 0)).0
                (sent_minor 500);
          message = sent_body 500 (codes "{}");
          rest = codes "next";
        }))
read-http_reply_example =
    read-http_reply plain_algo some_date 500 (codes "{}") true (codes "next") (pos 0)
      some_date-IsDate (omega arith) (omega arith)

read_message_total_example :
    (m : Message) × (read_message plain_algo (codes "Content-Length: 5") (pos 0) ≡ some m)
read_message_total_example = read_message_total plain_algo (codes "Content-Length: 5") (pos 0)

abbrev height_params : List (Value ℕ)
height_params = int (pos 7) ∷ []

read-posted_example :
    (read_request_line plain_algo (
        posted plain_algo number_text
          (codes "u")
          (codes "p")
          (codes "getblockbynumber")
          height_params
        ++ [])
      ≡ (
        some (pos 1, codes "POST", codes "/"),
        post_rest
            (request_text plain_algo number_text (codes "getblockbynumber") height_params)
            (login_headers plain_algo number_text (codes "u") (codes "p"))
            [],
      ))
    × (read_message plain_algo
          (post_rest
            (request_text plain_algo number_text (codes "getblockbynumber") height_params)
            (login_headers plain_algo number_text (codes "u") (codes "p"))
            [])
          (pos 1)
        ≡ some (record {
          status = pos 200;
          headers =
              settle_connection plain_algo
                (note_headers plain_algo
                  (post_headers
                      (request_text plain_algo number_text (codes "getblockbynumber") height_params)
                    ++ login_headers plain_algo number_text (codes "u") (codes "p"))
                  ([], pos 0)).0
                (pos 1);
          message = request_text plain_algo number_text (codes "getblockbynumber") height_params;
          rest = [];
        }))
read-posted_example =
    read-posted plain_algo number_text (codes "u") (codes "p") (codes "getblockbynumber")
      height_params (omega arith) (omega arith) (omega arith)

abbrev pub reply_text : JsonText ℕ
unfolding jsonrpc_reply_obj
reply_text = text_of (jsonrpc_reply_obj (int (pos 7)) null (int (pos 1)))

response_by_status_example :
    read_response plain_algo reply_text (
      http_reply some_date 404 (jsonrpc_reply reply_text (int (pos 7)) null (int (pos 1))) false
      ++ codes "next")
    ≡ some (by_status 404 (jsonrpc_reply_obj (int (pos 7)) null (int (pos 1))))
unfolding jsonrpc_reply
response_by_status_example =
    response_by_status plain_algo reply_text (int (pos 7)) null (int (pos 1)) some_date 404 false
      (codes "next") some_date-IsDate (omega arith) (omega arith) refl

-- The length that the 401 reply announces is that of its page.
unauthorized_page-length : length unauthorized_page ≡ 296
unauthorized_page-length = refl

-- A handshake that succeeds for the server only.
abbrev only_server : Role → Bool
only_server server = true
only_server client = false

use_all-new_example :
    use_all only_server (to_write (codes "a") ∷ to_read 3 ∷ []) (new_device true)
    ≡ expected_events only_server true (to_write (codes "a") ∷ to_read 3 ∷ [])
use_all-new_example = use_all-new only_server true (to_write (codes "a") ∷ to_read 3 ∷ [])

report-error_example :
    (n : ℕ) × (report plain_algo reply_text (
        jsonrpc_reply_obj null
          (obj (jsonrpc_error (error_number misc_error) (codes "m")))
          (int (pos 1)))
      ≡ ok (
        pos n,
        codes "error: "
            ++ reply_text.write_string
                (obj (jsonrpc_error (error_number misc_error) (codes "m")))
                false,
      ))
    × (n % 256 ≢ 0)
    × (n % 256 ≢ 87)
report-error_example = report-error plain_algo reply_text null (int (pos 1)) misc_error (codes "m")
