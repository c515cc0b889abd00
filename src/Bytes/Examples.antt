-- ===== src/Bytes/Examples.antt =====
-- The theorems on bytebuffer/mangosByteBuffer, at short buffers.
use linux_study_notes.Bytes.Buffer.Fifo.{IsValid, Adds, append_enqueues, Reads, read_dequeues}
use linux_study_notes.Bytes.Buffer.{ByteBuffer, append, read, empty_buffer, ◌>>=◌}
use linux_study_notes.Bytes.Message.{Message}
use linux_study_notes.Bytes.Packet.Stream.{AllReady, Delivers, fresh, send_parcels, messages_arrive}
use linux_study_notes.Bytes.Packet.{serialized, run}
use linux_study_notes.Bytes.Value.Map.{encode_pairs, FitPairs, Increasing, map-IsStreamed}
use linux_study_notes.Bytes.Value.More.{write_map, read_map}
use linux_study_notes.Bytes.Value.Stored.{IsStreamed, word-IsStreamed}
use linux_study_notes.Bytes.Value.Text.{string-IsStreamed}
use linux_study_notes.Bytes.Value.{
  read_word, write_word, byte_range, to_bytes, write_string, read_string,
}
use linux_study_notes.Libc.Int.{negsuc}
use linux_study_notes.Bytes.Parcel.{Parcel, plain, message, pod_bytes, strncpy}
use linux_study_notes.Bytes.Packet.{pod}
use linux_study_notes.Libc.{c_str, NoNul, codes}
use linux_study_notes.Prelude.{
  ltb, ℕ, List, zero, suc, replicate, ◌<◌, refl, [], ◌∷◌, ◌++◌, arith, length,
}

-- Six bytes, two of them read.
abbrev six : ByteBuffer
six = record { storage = 1 ∷ 2 ∷ 3 ∷ 4 ∷ 5 ∷ 6 ∷ []; read_pos = 2; write_pos = 6 }

six-IsValid : IsValid six
six-IsValid = record { at_end = refl; read_in = omega arith; small = omega arith }

empty-IsValid : IsValid empty_buffer
empty-IsValid = record { at_end = refl; read_in = omega arith; small = omega arith }

append_enqueues_example : Adds (7 ∷ 8 ∷ []) six (append (7 ∷ 8 ∷ []) six)
append_enqueues_example = append_enqueues (7 ∷ 8 ∷ []) six six-IsValid (omega arith) (omega arith)

read_dequeues_example : Reads 3 six (read 3 six)
read_dequeues_example = read_dequeues 3 six six-IsValid (omega arith)

abbrev hello : Message
hello = record { index = negsuc 4; message = codes "hello" }

replicate-AllReady : (n k : ℕ) → 0 < k → AllReady (replicate n k)
replicate-AllReady zero k h = tt
replicate-AllReady (suc n) k h = (h, replicate-AllReady n k h)

-- A plain packet and a message.
abbrev two_parcels : List Parcel
two_parcels = plain (negsuc 1) (codes "hi") ∷ message hello ∷ []

messages_arrive_example :
    Delivers (pod (negsuc 1) (codes "hi") ∷ serialized hello ∷ []) (
      send_parcels two_parcels empty_buffer [] >>= λ stream.
      run (replicate 600 3) stream (fresh []))
unfolding byte_range to_bytes pod_bytes strncpy c_str
messages_arrive_example =
    messages_arrive two_parcels (replicate 600 3) [] [] empty_buffer
      ((omega arith, ground arith, omega arith), ((omega arith, ground arith), tt)) (omega arith)
      (omega arith) (replicate-AllReady 600 3 (omega arith)) (omega arith)

map-IsStreamed_example :
    IsStreamed
      (record {
        write =
            write_map
              (record { write = write_word 2; read = read_word 2 })
              (record { write = write_string; read = read_string });
        read =
            read_map ltb
              (record { write = write_word 2; read = read_word 2 })
              (record { write = write_string; read = read_string });
      })
      (λ m. to_bytes 4 (length m) ++ encode_pairs (to_bytes 2) (λ s. s ++ 0 ∷ []) m)
      (λ m. (length m < byte_range 4) × FitPairs (λ x. x < byte_range 2) NoNul m × Increasing ltb m)
map-IsStreamed_example =
    map-IsStreamed ltb (record { write = write_word 2; read = read_word 2 })
      (record { write = write_string; read = read_string }) (to_bytes 2) (λ s. s ++ 0 ∷ [])
      (λ x. x < byte_range 2) NoNul (word-IsStreamed 2) string-IsStreamed
