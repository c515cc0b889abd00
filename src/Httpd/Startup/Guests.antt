-- ===== src/Httpd/Startup/Guests.antt =====
-- The loop of `main` of tinyhttpd/httpd.c over clients of all kinds, as the reference answers them.
use linux_study_notes.Httpd.Cgi.Length.{declared}
use linux_study_notes.Httpd.Conn.{Host, Junk, Conn, incoming}
use linux_study_notes.Httpd.Fault.{Result, fault, ok}
use linux_study_notes.Httpd.Headers.{Headers, header_bytes, IsHeaders}
use linux_study_notes.Httpd.Line.Ends.{Ending}
use linux_study_notes.Httpd.Reply.{unimplemented}
use linux_study_notes.Httpd.Request.{is_post}
use linux_study_notes.Httpd.Server.Accept.{Ask, ask_bytes, IsAskOf, accept_request-unimplemented}
use linux_study_notes.Httpd.Server.Answer.{
  accept_request-answer_get, accept_request-answer_post, accept_request-answer_unmeasured,
}
use linux_study_notes.Httpd.Server.Branches.{IsGet}
use linux_study_notes.Httpd.Server.Get.{IsJunk}
use linux_study_notes.Httpd.Server.Reference.{
  answer_get, answer_post, answer_unmeasured, answer_unserved, unimplemented_text,
}
use linux_study_notes.Httpd.Server.{accept_request}
use linux_study_notes.Httpd.Startup.{Visitor, serve_visitors}
use linux_study_notes.Libc.Int.{pos, negsuc}
use linux_study_notes.Libc.{NoNul}
use linux_study_notes.Prelude.{
  ℕ, ◌<◌, ◌^◌, ◌≡◌, refl, ap, ◌∙◌, Bool, true, false, List, [], ◌∷◌, Option, some, map,
}

-- A URL with or without a query; a body of a declared length; a body with none; another method.
pub data Wants : Type 0 where
  page_of : List ℕ → Option (List ℕ) → Wants
  post_of : ℕ → Wants
  unmeasured unserved : Wants

-- A request, and what the stack of the server holds when it comes.
pub record Guest : Type 0 where
  pub ask : Ask
  pub headers : Headers
  pub last : Ending
  pub body : List ℕ
  pub junk : Junk
  pub wants : Wants

abbrev pub guest : Guest → Option Visitor
guest g =
    some (record { sends = ask_bytes g.ask (header_bytes g.headers g.last g.body); junk = g.junk })

abbrev pub is_served : Wants → Bool
is_served (page_of u query) = true
is_served (post_of n) = true
is_served unmeasured = true
is_served unserved = false

-- That a request is the one that is wanted.
abbrev pub Fits : Wants → Ask → Headers → Type 0
Fits (page_of u query) a hs = IsGet a u query
Fits (post_of n) a hs =
    (is_post a.method ≡ true)
    × NoNul (a.first ∷ a.url)
    × (declared hs (negsuc 0) ≡ pos n)
    × (n < 2 ^ 31)
Fits unmeasured a hs =
    (is_post a.method ≡ true) × NoNul (a.first ∷ a.url) × (declared hs (negsuc 0) ≡ negsuc 0)
Fits unserved a hs = Unit

pub record IsGuest (g : Guest) : Type 0 where
  pub stack : IsJunk g.junk
  pub ask_ok : IsAskOf (is_served g.wants) g.ask (header_bytes g.headers g.last g.body)
  pub headers_ok : IsHeaders g.headers g.last g.body
  pub fits : Fits g.wants g.ask g.headers

abbrev pub AllGuests : List Guest → Type 0
AllGuests [] = Unit
AllGuests (g ∷ gs) = IsGuest g × AllGuests gs

abbrev pub wanted : Host → Wants → Guest → Result Conn
wanted h (page_of u query) g = answer_get h g.ask.method u query g.body
wanted h (post_of n) g = answer_post h g.junk.byte g.ask.method (g.ask.first ∷ g.ask.url) n g.body
wanted h unmeasured g = answer_unmeasured h g.junk.reply_buf (g.ask.first ∷ g.ask.url) g.body
wanted h unserved g = answer_unserved (header_bytes g.headers g.last g.body)

-- The answers up to the first fault, which ends the server.
unfoldable pub up_to_fault : List (Result Conn) → List (Result Conn)
up_to_fault [] = []
up_to_fault (fault why ∷ rs) = fault why ∷ []
up_to_fault (ok k ∷ rs) = ok k ∷ up_to_fault rs

unimplemented-sent :
    (rest : List ℕ)
    → unimplemented (incoming rest) ≡ record (incoming rest) { sent = unimplemented_text }
unfolding unimplemented
unimplemented-sent rest = refl

answered_as_wanted :
    (h : Host) (w : Wants) (g : Guest)
    → IsJunk g.junk
    → IsAskOf (is_served w) g.ask (header_bytes g.headers g.last g.body)
    → IsHeaders g.headers g.last g.body
    → Fits w g.ask g.headers
    → accept_request h g.junk (incoming (ask_bytes g.ask (header_bytes g.headers g.last g.body)))
      ≡ wanted h w g
answered_as_wanted h (page_of u query) g j v vh f =
    accept_request-answer_get h g.junk g.ask g.headers g.last g.body j v vh u query f
answered_as_wanted h (post_of n) g j v vh (p, plain, d, small) =
    accept_request-answer_post h g.junk g.ask g.headers g.last g.body j v vh n p plain d small
answered_as_wanted h unmeasured g j v vh (p, plain, d) =
    accept_request-answer_unmeasured h g.junk g.ask g.headers g.last g.body j v vh p plain d
answered_as_wanted h unserved g j v vh f =
    accept_request-unimplemented h g.junk g.ask (header_bytes g.headers g.last g.body) v j.line
    ∙ ap ok (unimplemented-sent (header_bytes g.headers g.last g.body))

cut_at_fault :
    (r : Result Conn) (rest rs : List (Result Conn))
    → rest ≡ up_to_fault rs
    → (elim r [ fault why ↦ fault why ∷ [] | ok k ↦ ok k ∷ rest ]) ≡ up_to_fault (r ∷ rs)
unfolding up_to_fault
cut_at_fault (fault why) rest rs e = refl
cut_at_fault (ok k) rest rs e = ap (◌∷◌ (ok k)) e

-- Any number of clients, each with a well-formed GET, with a query or not, a POST whose declared
-- length is below 2^31, -1 or missing, or another method, are served in the order in which they
-- come, and each is answered as the reference says, whatever the host has, up to the first file
-- that `fopen` refuses, where `fclose` of a null pointer ends the server; a query that is too long
-- for the child's array does not end it.
pub serve_visitors-wanted :
    (h : Host) (gs : List Guest)
    → AllGuests gs
    → serve_visitors h (map guest gs) ≡ up_to_fault (map (λ g. wanted h g.wants g) gs)
unfolding serve_visitors up_to_fault
serve_visitors-wanted h [] all = refl
serve_visitors-wanted h (g ∷ gs) (v, all) =
    rw (serve_visitors, answered_as_wanted h g.wants g v.stack v.ask_ok v.headers_ok v.fits)
      (cut_at_fault (wanted h g.wants g) _ _ (serve_visitors-wanted h gs all))
