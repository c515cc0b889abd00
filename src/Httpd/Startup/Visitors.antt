-- ===== src/Httpd/Startup/Visitors.antt =====
-- The loop of `main` of tinyhttpd/httpd.c over clients that ask for files.
use linux_study_notes.Httpd.Conn.{Host, Junk, Conn}
use linux_study_notes.Httpd.Fault.{Result, fault, ok, null_close}
use linux_study_notes.Httpd.Headers.{Headers, header_bytes, IsHeaders}
use linux_study_notes.Httpd.Line.Ends.{Ending}
use linux_study_notes.Httpd.Request.{make_path}
use linux_study_notes.Httpd.Server.Accept.{Ask, ask_bytes, IsAsk}
use linux_study_notes.Httpd.Server.Get.{
  ok_head, not_found_text, answered, IsPlainGet, IsJunk, get_file, get_unreadable,
}
use linux_study_notes.Httpd.Server.{is_dir, is_executable}
use linux_study_notes.Httpd.Startup.{Visitor, serve_visitors}
use linux_study_notes.Libc.{NoNul}
use linux_study_notes.Prelude.{
  ℕ, ◌≡◌, refl, ap, ◌∙◌, false, List, [], ◌∷◌, ◌++◌, Option, none, some, map,
}

-- A GET, what the stack of the server holds, and the mode of the file and its contents before the
-- last line feed.
pub record Visit : Type 0 where
  pub ask : Ask
  pub headers : Headers
  pub last : Ending
  pub body : List ℕ
  pub junk : Junk
  pub mode : ℕ
  pub file : List ℕ

abbrev pub path_of : Visit → List ℕ
path_of p = make_path (p.ask.first ∷ p.ask.url)

abbrev pub visitor : Visit → Visitor
visitor p = record { sends = ask_bytes p.ask (header_bytes p.headers p.last p.body); junk = p.junk }

-- A well-formed GET for a plain file that no one may execute.
pub record IsVisit (h : Host) (p : Visit) : Type 0 where
  pub stack : IsJunk p.junk
  pub ask_ok : IsAsk p.ask (header_bytes p.headers p.last p.body)
  pub headers_ok : IsHeaders p.headers p.last p.body
  pub get : IsPlainGet p.ask
  pub found : h.stat (path_of p) ≡ some p.mode
  pub no_dir : is_dir p.mode ≡ false
  pub no_script : is_executable p.mode ≡ false

-- Visits to files that can be read and have no NUL.
abbrev pub AllReadable : Host → List Visit → Type 0
AllReadable h [] = Unit
AllReadable h (p ∷ ps) =
    IsVisit h p
    × (h.open_file (path_of p) ≡ some (p.file ++ b'\n' ∷ []))
    × NoNul (p.file ++ b'\n' ∷ [])
    × AllReadable h ps

abbrev pub reply : Visit → Result Conn
reply p = ok (answered p.body (ok_head ++ (p.file ++ b'\n' ∷ [])))

-- Every client that asks for a readable file gets it, in the order in which they come, and the
-- server goes on with the next.
pub serve_visitors-files :
    (h : Host) (ps : List Visit) (more : List (Option Visitor))
    → AllReadable h ps
    → serve_visitors h (map (λ p. some (visitor p)) ps ++ more)
      ≡ map reply ps ++ serve_visitors h more
unfolding serve_visitors
serve_visitors-files h [] more r = refl
serve_visitors-files h (p ∷ ps) more (v, opened, plain, rest) =
    let served =
      get_file h p.junk p.ask p.headers p.last p.body v.stack v.ask_ok v.headers_ok v.get p.mode
        p.file v.found v.no_dir v.no_script opened plain in
    rw (serve_visitors, served) (ap (◌∷◌ (reply p)) (serve_visitors-files h ps more rest))

-- A client that asks for a file that `fopen` refuses ends the server: who comes before is served,
-- who comes later is not.
pub serve_visitors-ended :
    (h : Host) (ps : List Visit) (u : Visit) (more : List (Option Visitor))
    → AllReadable h ps
    → IsVisit h u
    → h.open_file (path_of u) ≡ none
    → serve_visitors h (map (λ p. some (visitor p)) ps ++ some (visitor u) ∷ more)
      ≡ map reply ps ++ fault (null_close not_found_text) ∷ []
unfolding serve_visitors
serve_visitors-ended h ps u more r v refused =
    let ended =
      get_unreadable h u.junk u.ask u.headers u.last u.body v.stack v.ask_ok v.headers_ok v.get
        u.mode v.found v.no_dir v.no_script refused in
    serve_visitors-files h ps (some (visitor u) ∷ more) r
    ∙ ap (λ l. map reply ps ++ l) (rw (serve_visitors, ended) refl)
