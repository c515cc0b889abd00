-- ===== src/Auth/World/Sound.antt =====
-- What protobufTest/AuthServer.cpp may hold and have sent, over lists of messages and threads.
use linux_study_notes.Auth.World.{Event, accepted, received, World}
use linux_study_notes.Auth.Database.{Row}
use linux_study_notes.Auth.Packet.{Protobuf, code_header}
use linux_study_notes.Auth.Round.{closed, failed, got, Service, send_reply, max_line}
use linux_study_notes.Auth.Server.{unique_code, failure}
use linux_study_notes.Auth.Table.{Kept}
use linux_study_notes.Prelude.{
  ℕ, ◌-◌, ◌<◌, zero, suc, ◌≡◌, ◌⊎◌, inl, inr, false, List, [], ◌∷◌, ◌++◌, some, get_elem?, set,
  length, ◌==◌, subst, arith,
}

-- A message that the server may send, and what a thread may hold and have sent.
abbrev pub IsReply : Protobuf → List ℕ → Type 0
IsReply p m = (m ≡ failure) ⊎ (m ≡ p.serialize (code_header unique_code))

abbrev pub AllReplies : Protobuf → List (List ℕ) → Type 0
AllReplies p [] = Unit
AllReplies p (m ∷ ms) = IsReply p m × AllReplies p ms

-- The last byte of `buf` is a NUL, so that a string ends inside.
abbrev pub EndsInNul : List ℕ → Type 0
EndsInNul buf = get_elem? buf (max_line - 1) ≡ some 0

abbrev pub Answers : {Db : Type 0} → Protobuf → Service Db → Type 0
Answers p t = ((t.resp ≡ []) ⊎ IsReply p t.resp) × AllReplies p t.sent × EndsInNul t.buf

abbrev pub AllAnswer : {Db : Type 0} → Protobuf → List (Service Db) → Type 0
AllAnswer p [] = Unit
AllAnswer p (t ∷ ts) = Answers p t × AllAnswer p ts

-- The users of `olds` with their codes or the code, and no other message than the two on any
-- connection.
abbrev pub IsSound : {Db : Type 0} → Protobuf → (Db → List Row) → List Row → World Db → Type 0
IsSound p rows olds w = Kept unique_code olds (rows w.db) × AllAnswer p w.threads

-- No message fills the array, and no array lacks its last NUL.
abbrev pub Fits : Event → Type 0
Fits (accepted buf) = EndsInNul buf
Fits (received i closed) = Unit
Fits (received i failed) = Unit
Fits (received i (got bytes)) = length bytes < max_line

abbrev pub AllFit : List Event → Type 0
AllFit [] = Unit
AllFit (e ∷ es) = Fits e × AllFit es

pub AllReplies-append :
    (p : Protobuf) (ms : List (List ℕ)) (m : List ℕ)
    → AllReplies p ms
    → IsReply p m
    → AllReplies p (ms ++ m ∷ [])
AllReplies-append p [] m hs h = (h, tt)
AllReplies-append p (x ∷ ms) m hs h = (hs.0, AllReplies-append p ms m hs.1 h)

pub AllReplies-send :
    (p : Protobuf) (m : List ℕ) (ms : List (List ℕ))
    → AllReplies p ms
    → (m ≡ []) ⊎ IsReply p m
    → AllReplies p (send_reply m ms)
AllReplies-send p [] ms hs h = hs
AllReplies-send p (c ∷ m) ms hs (inl e) = cc
AllReplies-send p (c ∷ m) ms hs (inr h) =
    let some_byte : (suc (length m) == 0) ≡ false = ground arith in
    rw some_byte (AllReplies-append p ms (c ∷ m) hs h)

pub AllAnswer-append :
    {Db : Type 0} (p : Protobuf) (ts : List (Service Db)) (t : Service Db)
    → AllAnswer p ts
    → Answers p t
    → AllAnswer p (ts ++ t ∷ [])
AllAnswer-append p [] t hs h = (h, tt)
AllAnswer-append p (x ∷ ts) t hs h = (hs.0, AllAnswer-append p ts t hs.1 h)

pub AllAnswer-set :
    {Db : Type 0} (p : Protobuf) (ts : List (Service Db)) (i : ℕ) (t : Service Db)
    → AllAnswer p ts
    → Answers p t
    → AllAnswer p (set ts i t)
AllAnswer-set p [] i t hs h = tt
AllAnswer-set p (x ∷ ts) zero t hs h = (h, hs.1)
AllAnswer-set p (x ∷ ts) (suc i) t hs h = (hs.0, AllAnswer-set p ts i t hs.1 h)

pub AllAnswer-get :
    {Db : Type 0} (p : Protobuf) (ts : List (Service Db)) (i : ℕ) (t : Service Db)
    → AllAnswer p ts
    → get_elem? ts i ≡ some t
    → Answers p t
AllAnswer-get p [] i t hs e = cc
AllAnswer-get p (x ∷ ts) zero t hs e = let same : x ≡ t = cc in subst (Answers p) same hs.0
AllAnswer-get p (x ∷ ts) (suc i) t hs e = AllAnswer-get p ts i t hs.1 e
