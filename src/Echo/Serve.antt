-- ===== src/Echo/Serve.antt =====
-- What `readcb` of libevent/originEchoServer.cpp does with its two buffers, by the reference.
use linux_study_notes.Echo.Evbuffer.{Evbuffers, IsQueue}
use linux_study_notes.Echo.Lines.{
  echo_call, echo, echo_rest, echo_line, short_lines, echo-append, echo-held, echo_held-NoNewline,
  short_lines-cut,
}
use linux_study_notes.Echo.Server.{
  Bufferevent, max_line, chunk_size, echo_lines, drain, cut_long, readcb, arrive,
}
use linux_study_notes.Libc.{codes}
use linux_study_notes.Libc.Stdio.{NoNewline}
use linux_study_notes.Prelude.{
  ℕ, zero, suc, ◌+◌, ◌<◌, ◌≤◌, ◌≡◌, refl, ap, ap₂, sym, subst, ◌∙◌, true, false, List, [], ◌∷◌,
  ◌++◌, append-nil, append_assoc, leb, ◌==◌, le→leb, lt→not_leb, leb→le, not_leb→lt, length,
  length-append, length-drop, take, drop, take-append-drop, flatten, ==_iff, drop_all, Bool-cases,
  Option-cases, inl, inr, arith,
}

nonzero : (l : List ℕ) → (length l == 0) ≡ false → 0 < length l
nonzero l h = ground arith

module _ {Buf : Type 0} {e : Evbuffers Buf} {bytes : Buf → List ℕ} (queue : IsQueue e bytes) where
  -- All finished lines of the input, and the rest of it.
  echo_lines_lem :
      (fuel : ℕ) (bev : Bufferevent Buf)
      → length (bytes bev.input) < fuel
      → (bytes (echo_lines e fuel bev).output ≡ bytes bev.output ++ (echo [] (bytes bev.input)).out)
        × (bytes (echo_lines e fuel bev).input ≡ (echo [] (bytes bev.input)).held)
  unfolding echo_lines
  echo_lines_lem zero bev h = absurd (omega arith)
  echo_lines_lem (suc fuel) bev h = elim (Option-cases (e.readln bev.input)) [
    | inl nothing ↦
        rw (echo_lines, nothing, echo_rest (bytes bev.input) (queue.readln_none bev.input nothing))
          (sym (append-nil (bytes bev.output)), refl)
    | inr got ↦
        let (found, read) = got in
        let (line, rest) = found in
        let (plain, split) = queue.readln_some bev.input rest line read in
        let next : Bufferevent Buf = record {
          input = rest;
          output = e.add (codes "\n") (e.add line bev.output);
        } in
        let (sent, left) =
          echo_lines_lem fuel next
            (omega (arith, ap length split, length-append line (b'\n' ∷ bytes rest))) in
        let added : bytes next.output ≡ (bytes bev.output ++ line) ++ b'\n' ∷ [] =
          queue.add_behind (codes "\n") (e.add line bev.output)
          ∙ ap (λ l. l ++ b'\n' ∷ []) (queue.add_behind line bev.output) in
        rw (echo_lines, read, split, echo_line line (bytes rest) plain)
          (
            sent
                ∙ ap (λ l. l ++ (echo [] (bytes rest)).out) added
                ∙ append_assoc (bytes bev.output ++ line) (b'\n' ∷ []) (echo [] (bytes rest)).out
                ∙ append_assoc (bytes bev.output) line (b'\n' ∷ (echo [] (bytes rest)).out),
            left,
          )
  ]

  drain_lem :
      (fuel : ℕ) (bev : Bufferevent Buf)
      → length (bytes bev.input) ≤ fuel
      → (bytes (drain e fuel bev).output ≡ bytes bev.output ++ bytes bev.input)
        × (bytes (drain e fuel bev).input ≡ [])
  unfolding drain
  drain_lem zero bev h =
      let empty : bytes bev.input ≡ [] = drop_all 0 (bytes bev.input) h in
      rw empty (sym (append-nil (bytes bev.output)), refl)
  drain_lem (suc fuel) bev h = elim (Bool-cases (e.get_length bev.input == 0)) [
    | inl done ↦
        let no_byte : length (bytes bev.input) ≡ 0 =
          sym (queue.length_is bev.input) ∙ (==_iff (e.get_length bev.input) 0).0 done in
        let empty : bytes bev.input ≡ [] = drop_all 0 (bytes bev.input) (omega (arith, no_byte)) in
        rw (done, empty) (sym (append-nil (bytes bev.output)), refl)
    | inr some_byte ↦
        let taken = e.remove chunk_size bev.input in
        let next : Bufferevent Buf = record {
          input = taken.1;
          output = e.add taken.0 bev.output;
        } in
        let left_is = queue.remove_left chunk_size bev.input in
        let there : (length (bytes bev.input) == 0) ≡ false =
          ap (λ n. n == 0) (sym (queue.length_is bev.input)) ∙ some_byte in
        let (sent, left) = drain_lem fuel next (
          omega (
            arith,
            ap length left_is,
            length-drop chunk_size (bytes bev.input),
            nonzero (bytes bev.input) there,
          )) in
        rw some_byte (
          sent
              ∙ ap₂ ◌++◌
                  (queue.add_behind taken.0 bev.output
                    ∙ ap (λ l. bytes bev.output ++ l) (queue.remove_taken chunk_size bev.input))
                  left_is
              ∙ append_assoc (bytes bev.output) (take chunk_size (bytes bev.input))
                  (drop chunk_size (bytes bev.input))
              ∙ ap (λ l. bytes bev.output ++ l) (take-append-drop chunk_size (bytes bev.input)),
          left,
        )
  ]

  cut_long-kept :
      (bev : Bufferevent Buf) → length (bytes bev.input) < max_line → cut_long e bev ≡ bev
  unfolding cut_long
  cut_long-kept bev h =
      rw (queue.length_is bev.input, lt→not_leb max_line (length (bytes bev.input)) h) refl

  cut_long-drained :
      (bev : Bufferevent Buf)
      → max_line ≤ length (bytes bev.input)
      → (bytes (cut_long e bev).output ≡ bytes bev.output ++ (bytes bev.input ++ b'\n' ∷ []))
        × (bytes (cut_long e bev).input ≡ [])
  unfolding cut_long
  cut_long-drained bev h =
      let n = queue.length_is bev.input in
      let (sent, left) = drain_lem (e.get_length bev.input) bev (omega (arith, n)) in
      let long : leb max_line (e.get_length bev.input) ≡ true =
        le→leb max_line (e.get_length bev.input) (omega (arith, n)) in
      rw long (
        queue.add_behind (codes "\n") (drain e (e.get_length bev.input) bev).output
            ∙ ap (λ l. l ++ b'\n' ∷ []) sent
            ∙ append_assoc (bytes bev.output) (bytes bev.input) (b'\n' ∷ []),
        left,
      )

  -- `readcb` sends the finished lines back and keeps the rest; but if the rest has `max_line` bytes
  -- or more, it goes too, with a line feed that was not there.
  pub readcb-echo_call :
      (bev : Bufferevent Buf)
      → (bytes (readcb e bev).output ≡ bytes bev.output ++ (echo_call (bytes bev.input)).out)
        × (bytes (readcb e bev).input ≡ (echo_call (bytes bev.input)).held)
  unfolding readcb echo_call
  readcb-echo_call bev =
      let lines = echo_lines e (e.get_length bev.input + 1) bev in
      let (sent, left) =
        echo_lines_lem (e.get_length bev.input + 1) bev
          (omega (arith, queue.length_is bev.input)) in
      elim (Bool-cases (leb max_line (length (echo [] (bytes bev.input)).held))) [
        | inl long ↦
            let (all, none_left) =
              cut_long-drained lines
                (subst (λ l. max_line ≤ length l) (sym left) (leb→le _ _ long)) in
            rw long (
              all
                  ∙ ap₂ (λ l k. l ++ (k ++ b'\n' ∷ [])) sent left
                  ∙ append_assoc (bytes bev.output) (echo [] (bytes bev.input)).out
                      ((echo [] (bytes bev.input)).held ++ b'\n' ∷ []),
              none_left,
            )
        | inr short ↦
            let kept =
              cut_long-kept lines
                (subst (λ l. length l < max_line) (sym left) (not_leb→lt _ _ short)) in
            rw (short, kept) (sent, left)
      ]

  readcb-short :
      (bev : Bufferevent Buf)
      → length (echo [] (bytes bev.input)).held < max_line
      → (bytes (readcb e bev).output ≡ bytes bev.output ++ (echo [] (bytes bev.input)).out)
        × (bytes (readcb e bev).input ≡ (echo [] (bytes bev.input)).held)
  unfolding echo_call
  readcb-short bev h =
      let (sent, left) = readcb-echo_call bev in
      let short = lt→not_leb max_line (length (echo [] (bytes bev.input)).held) h in
      (rw short at sent, rw short at left)

  -- However a stream of short lines is cut into chunks, the calls of `readcb` send what the
  -- reference sends for the whole stream and keep what it keeps.
  pub arrive-echo :
      (chunks : List (List ℕ)) (bev : Bufferevent Buf)
      → NoNewline (bytes bev.input)
      → short_lines (bytes bev.input) (flatten chunks) ≡ true
      → (bytes (arrive e chunks bev).output
          ≡ bytes bev.output ++ (echo (bytes bev.input) (flatten chunks)).out)
        × (bytes (arrive e chunks bev).input ≡ (echo (bytes bev.input) (flatten chunks)).held)
  unfolding arrive echo
  arrive-echo [] bev n short = (sym (append-nil (bytes bev.output)), refl)
  arrive-echo (chunk ∷ chunks) bev n short =
      let held = bytes bev.input in
      let filled : Bufferevent Buf = record bev { input = e.add chunk bev.input } in
      let same : echo [] (bytes filled.input) ≡ echo held chunk =
        ap (echo []) (queue.add_behind chunk bev.input) ∙ echo-held held chunk n in
      let (short_now, short_later) = short_lines-cut held chunk (flatten chunks) short in
      let (sent, left) =
        readcb-short filled (subst (λ r. length r.held < max_line) (sym same) short_now) in
      let kept = left ∙ ap (λ r. r.held) same in
      let (sent_later, left_later) =
        arrive-echo chunks (readcb e filled)
          (subst NoNewline (sym kept) (echo_held-NoNewline held chunk n))
          (subst (λ l. short_lines l (flatten chunks) ≡ true) (sym kept) short_later) in
      rw (echo-append held chunk (flatten chunks)) (
        sent_later
            ∙ ap₂ (λ l k. l ++ (echo k (flatten chunks)).out)
                (sent ∙ ap (λ r. bytes bev.output ++ r.out) same) kept
            ∙ append_assoc (bytes bev.output) (echo held chunk).out
                (echo (echo held chunk).held (flatten chunks)).out,
        left_later ∙ ap (λ k. (echo k (flatten chunks)).held) kept,
      )
