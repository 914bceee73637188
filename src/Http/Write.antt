-- ===== src/Http/Write.antt =====
-- `HTTPPost` and `HTTPReply`.
use fidinventor.Base.{ℕ, Bool, [], ◌∷◌, ◌++◌, ◌==◌, if◌then◌else◌, length}
use fidinventor.Base.Text.{Bytes, codes}
use fidinventor.Base.Dict.{Dict}
use fidinventor.Base.Decimal.{decimal}

-- "\r\n"
abbrev pub crlf : Bytes
crlf = 13 ∷ 10 ∷ []

-- `FormatFullVersion()`
abbrev pub full_version : Bytes
full_version = codes "v1.0.1.0-g32a928e"

-- `s << item.first << ": " << item.second << "\r\n"`, and what follows.
unfoldable pub header_lines : Dict Bytes → Bytes → Bytes
header_lines [] rest = rest
header_lines ((k, v) ∷ m) rest = k ++ (codes ": " ++ (v ++ (crlf ++ header_lines m rest)))

-- The header lines that every request has.
unfoldable pub post_headers : Bytes → Dict Bytes
post_headers msg =
    (codes "User-Agent", codes "FidChain-json-rpc/" ++ full_version)
    ∷ (codes "Host", codes "127.0.0.1")
    ∷ (codes "Content-Type", codes "application/json")
    ∷ (codes "Content-Length", decimal (length msg))
    ∷ (codes "Connection", codes "keep-alive")
    ∷ (codes "Accept", codes "application/json")
    ∷ []

-- `HTTPPost(strMsg, mapRequestHeaders)`
unfoldable pub http_post : Bytes → Dict Bytes → Bytes
unfolding header_lines post_headers
http_post msg headers =
    codes "POST / HTTP/1.1"
    ++ (crlf ++ header_lines (post_headers msg) (header_lines headers (crlf ++ msg)))

-- The body of a 401 reply.
abbrev pub unauthorized_page : Bytes
unauthorized_page =
    codes "<!DOCTYPE HTML PUBLIC \"-//W3C//DTD HTML 4.01 Transitional//EN\""
    ++ (crlf
        ++ (codes "\"http://www.w3.org/TR/1999/REC-html401-19991224/loose.dtd\">"
            ++ (crlf
                ++ (codes "<HTML>"
                    ++ (crlf
                        ++ (codes "<HEAD>"
                            ++ (crlf
                                ++ (codes "<TITLE>Error</TITLE>"
                                    ++ (crlf
                                        ++ (codes
                                              "<META HTTP-EQUIV='Content-Type' CONTENT='text/html; charset=ISO-8859-1'>"
                                            ++ (crlf
                                                ++ (codes "</HEAD>"
                                                    ++ (crlf
                                                        ++ (codes
                                                            "<BODY><H1>401 Unauthorized.</H1></BODY>"
                                                            ++ (crlf
                                                            ++ (codes "</HTML>"
                                                            ++ crlf))))))))))))))))

-- The phrase of a status, `cStatus`.
unfoldable pub status_phrase : ℕ → Bytes
status_phrase status =
    if status == 200
    then codes "OK"
    else if status == 400
    then codes "Bad Request"
    else if status == 403
    then codes "Forbidden"
    else if status == 404
    then codes "Not Found"
    else if status == 500
    then codes "Internal Server Error"
    else []

unfoldable pub reply_headers : Bytes → Bytes → Bool → Dict Bytes
reply_headers date msg keepalive =
    (codes "Date", date)
    ∷ (codes "Connection", (if keepalive then codes "keep-alive" else codes "close"))
    ∷ (codes "Content-Length", decimal (length msg))
    ∷ (codes "Content-Type", codes "application/json")
    ∷ (codes "Server", codes "FidChain-json-rpc/" ++ full_version)
    ∷ []

unfoldable pub unauthorized_headers : Bytes → Dict Bytes
unauthorized_headers date =
    (codes "Date", date)
    ∷ (codes "Server", codes "FidChain-json-rpc/" ++ full_version)
    ∷ (codes "WWW-Authenticate", codes "Basic realm=\"jsonrpc\"")
    ∷ (codes "Content-Type", codes "text/html")
    ∷ (codes "Content-Length", codes "296")
    ∷ []

-- `HTTPReply(nStatus, strMsg, keepalive)`, with the text of `rfc1123Time()` as an argument.
unfoldable pub http_reply : Bytes → ℕ → Bytes → Bool → Bytes
unfolding header_lines status_phrase reply_headers unauthorized_headers
http_reply date status msg keepalive =
    if status == 401
    then codes "HTTP/1.0 401 Authorization Required"
      ++ (crlf ++ header_lines (unauthorized_headers date) (crlf ++ unauthorized_page))
    else (codes "HTTP/1.1 " ++ (decimal status ++ (codes " " ++ status_phrase status)))
      ++ (crlf ++ header_lines (reply_headers date msg keepalive) (crlf ++ msg))
