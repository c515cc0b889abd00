-- ===== src/Echo/Evbuffer.antt =====
-- What libevent/originEchoServer.cpp uses of the buffers of libevent (event2/buffer.h), and what is
-- documented of them.
use linux_study_notes.Libc.Stdio.{NoNewline}
use linux_study_notes.Prelude.{ℕ, ◌≡◌, List, [], ◌∷◌, ◌++◌, Option, none, some, length, take, drop}

-- A new buffer, `evbuffer_readln` with EVBUFFER_EOL_LF, `evbuffer_add`, `evbuffer_remove` and
-- `evbuffer_get_length`.
pub record Evbuffers (Buf : Type 0) : Type 0 where
  -- the buffer that `bufferevent_socket_new` makes
  pub fresh : Buf
  pub readln : Buf → Option (List ℕ × Buf)
  pub add : List ℕ → Buf → Buf
  pub remove : ℕ → Buf → List ℕ × Buf
  pub get_length : Buf → ℕ

-- A buffer is a queue of bytes: `readln` takes the bytes in front of the first line feed, and that,
-- off it, or gives none if there is no line feed.
pub record IsQueue {Buf : Type 0} (e : Evbuffers Buf) (bytes : Buf → List ℕ) : Type 0 where
  pub fresh_empty : bytes e.fresh ≡ []
  pub readln_none : (b : Buf) → e.readln b ≡ none → NoNewline (bytes b)
  pub readln_some :
      (b rest : Buf) (line : List ℕ)
      → e.readln b ≡ some (line, rest)
      → NoNewline line × (bytes b ≡ line ++ b'\n' ∷ bytes rest)
  pub add_behind : (more : List ℕ) (b : Buf) → bytes (e.add more b) ≡ bytes b ++ more
  pub remove_taken : (n : ℕ) (b : Buf) → (e.remove n b).0 ≡ take n (bytes b)
  pub remove_left : (n : ℕ) (b : Buf) → bytes (e.remove n b).1 ≡ drop n (bytes b)
  pub length_is : (b : Buf) → e.get_length b ≡ length (bytes b)
