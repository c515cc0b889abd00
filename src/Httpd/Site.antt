-- ===== src/Httpd/Site.antt =====
-- A small tree of files, for the runs and examples of tinyhttpd/httpd.c.
use linux_study_notes.Httpd.Conn.{Host, Junk}
use linux_study_notes.Libc.{codes, equal}
use linux_study_notes.Prelude.{ℕ, true, List, ◌++◌, Option, none, some, if◌then◌else◌, replicate}

abbrev pub stack : Junk
stack = record {
  line_buf = replicate 1024 0xcc;
  header_buf = replicate 1024 0xcc;
  reply_buf = replicate 1024 0xcc;
  byte = 0;
}

unfoldable pub modes : List ℕ → Option ℕ
modes p =
    if equal p (codes "htdocs/a.html")
    then some 0o100644
    else if equal p (codes "htdocs/index.html")
    then some 0o100644
    else if equal p (codes "htdocs/env.cgi")
    then some 0o100755
    else if equal p (codes "htdocs/sub")
    then some 0o040755
    else none

unfoldable pub files : List ℕ → Option (List ℕ)
files p = if equal p (codes "htdocs/a.html") then some (codes "one\ntwo") else none

abbrev pub site : Host
site = record {
  stat = modes;
  open_file = files;
  pipe_output = true;
  pipe_input = true;
  can_fork = true;
  output = λ s. s.stdin ++ codes "!";
}
