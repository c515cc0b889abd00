-- ===== src/Httpd/Reply.antt =====
-- The fixed replies of tinyhttpd/httpd.c: each `sprintf` into `buf` is followed by one `send`.
use Prim.Native.String.{String}
use linux_study_notes.Httpd.Conn.{Conn, send}
use linux_study_notes.Libc.{codes}
use linux_study_notes.Prelude.{ℕ, ◌+◌, List, ◌∷◌, ◌++◌, length, drop}

-- `sprintf(buf, text); send(client, buf, strlen(buf), 0);`
abbrev pub say : String → Conn → Conn
say text = send (codes text)

abbrev pub server_string : String
server_string = "Server:myhttpd/0.1.0\r\n"

unfoldable pub headers : Conn → Conn
headers k =
    let k = say "HTTP/1.0 200 OK\r\n" k in
    let k = say server_string k in let k = say "Content-Type: text/html\r\n" k in say "\r\n" k

unfoldable pub not_found : Conn → Conn
not_found k =
    let k = say "HTTP/1.0 404 NOT FOUND\r\n" k in
    let k = say server_string k in
    let k = say "Content-Type: text/html\r\n" k in
    let k = say "\r\n" k in
    let k = say "<HTML><TITLE>Not Found</TITLE>\r\n" k in
    let k = say "<BODY><P>The server could not fulfill\r\n" k in
    let k = say "your request because the resource specified\r\n" k in
    let k = say "is unavailable or nonexistent.\r\n" k in say "</BODY></HTML>\r\n" k

unfoldable pub unimplemented : Conn → Conn
unimplemented k =
    let k = say "HTTP/1.0 501 Method Not Implemented\r\n" k in
    let k = say server_string k in
    let k = say "Content-Type: text/html\r\n" k in
    let k = say "\r\n" k in
    let k = say "<HTML><HEAD><TITLE>Method Not Implemented\r\n" k in
    let k = say "</TITLE></HEAD>\r\n" k in
    let k = say "<BODY><P>HTTP request method not supported.\r\n" k in say "</BODY></HTML>\r\n" k

unfoldable pub cannot_execute : Conn → Conn
cannot_execute k =
    let k = say "HTTP/1.0 500 Internal Server Error\r\n" k in
    let k = say "Content-type: text/html\r\n" k in
    let k = say "\r\n" k in say "<P>Error prohibited CGI execution.\r\n" k

-- `sprintf(buf, text)`: the text and a NUL over the start of the array.
abbrev pub print : String → List ℕ → List ℕ
print text buf = codes text ++ 0 ∷ drop (length (codes text) + 1) buf

-- `bad_request` sends `sizeof(buf)` bytes of its own `buf` each time, which starts as `junk`.
unfoldable pub bad_request : List ℕ → Conn → Conn
bad_request junk k =
    let buf = print "HTTP/1.0 400 BAD REQUEST\r\n" junk in
    let k = send buf k in
    let buf = print "Content-type: text/html\r\n" buf in
    let k = send buf k in
    let buf = print "\r\n" buf in
    let k = send buf k in
    let buf = print "<P>Your browser sent a bad request, " buf in
    let k = send buf k in
    let buf = print "such as a POST without a Content-Length.\r\n" buf in send buf k
