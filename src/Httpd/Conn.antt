-- ===== src/Httpd/Conn.antt =====
-- One connection of tinyhttpd/httpd.c, and what the server takes from the host: file modes and
-- contents, and the pipes, `fork` and the scripts that it runs.
use linux_study_notes.Httpd.Fault.{Result}
use linux_study_notes.Prelude.{ℕ, Bool, true, false, List, [], ◌++◌, Option}

-- A CGI child: its program, its environment, and the bytes of its standard input. Where the child
-- writes behind one of its arrays, the environment is that fault: what the child does then is not
-- defined, and the server goes on with whatever comes out of it.
pub record Script : Type 0 where
  pub program : List ℕ
  pub environment : Result (List (List ℕ))
  pub stdin : List ℕ

pub record Host : Type 0 where
  -- `st_mode`, or `none` where `stat` fails
  pub stat : List ℕ → Option ℕ
  -- what `fopen` for reading gives
  pub open_file : List ℕ → Option (List ℕ)
  -- whether the two calls of `pipe` and `fork` succeed
  pub pipe_output : Bool
  pub pipe_input : Bool
  pub can_fork : Bool
  -- what comes out of a child, until it has closed its standard output
  pub output : Script → List ℕ

-- What uninitialised variables hold: `buf` of `accept_request`, `buf` of the function that it
-- calls, `buf` of `bad_request`, and `c` of `execute_cgi`.
pub record Junk : Type 0 where
  pub line_buf : List ℕ
  pub header_buf : List ℕ
  pub reply_buf : List ℕ
  pub byte : ℕ

-- The bytes that the client has sent and that are not received; what has been sent to it; whether
-- the server still has the socket open; the scripts that were started.
pub record Conn : Type 0 where
  pub sock : List ℕ
  pub sent : List ℕ
  pub is_open : Bool
  pub started : List Script

-- `send(client, bytes, ...)`
abbrev pub send : List ℕ → Conn → Conn
send bytes k = record k { sent = k.sent ++ bytes }

abbrev pub close : Conn → Conn
close k = record k { is_open = false }

abbrev pub incoming : List ℕ → Conn
incoming bytes = record { sock = bytes; sent = []; is_open = true; started = [] }
