-- ===== src/Bytes/Value/Map.antt =====
-- Maps of ByteBuffer.h in bytebuffer/mangosByteBuffer, written in the order of their keys.
use native.Mathlib.Nat.{mod-eq_of_lt}
use linux_study_notes.Bytes.Buffer.Fifo.{IsValid, Adds, pending}
use linux_study_notes.Bytes.Buffer.{limit, ByteBuffer, size}
use linux_study_notes.Bytes.Value.More.{insert, write_pairs, write_map, map_loop, read_map}
use linux_study_notes.Bytes.Value.Stored.{Takes, IsStreamed, Adds-bind, Takes-bind, word-IsStreamed}
use linux_study_notes.Bytes.Value.{byte_range, to_bytes, write_word, read_word, Streamed}
use linux_study_notes.Prelude.{
  ℕ, ◌+◌, ◌<◌, ◌≡◌, refl, sym, ap, ◌∙◌, Bool, true, false, List, [], ◌∷◌, ◌++◌, append-nil,
  append_assoc, arith, length, length-append,
}

abbrev pub Below : {K : Type 0} → (K → K → Bool) → K → K → Type 0
Below less k k' = (less k k' ≡ true) × (less k' k ≡ false)

module _ {K V : Type 0} (less : K → K → Bool) where
  -- `k` is below every key, and above every key.
  abbrev pub BelowAll : K → List (K × V) → Type 0
  BelowAll k [] = Unit
  BelowAll k ((k', v') ∷ m) = Below less k k' × BelowAll k m

  abbrev AboveAll : List (K × V) → K → Type 0
  AboveAll [] k = Unit
  AboveAll ((k', v') ∷ m) k = Below less k' k × AboveAll m k

  -- The keys of a map, in their order.
  abbrev pub Increasing : List (K × V) → Type 0
  Increasing [] = Unit
  Increasing ((k, v) ∷ m) = BelowAll k m × Increasing m

  -- Every key of the one is below every key of the other.
  abbrev AllOrdered : List (K × V) → List (K × V) → Type 0
  AllOrdered got [] = Unit
  AllOrdered got ((k, v) ∷ m) = AboveAll got k × AllOrdered got m

  insert-last :
      (got : List (K × V)) (k : K) (v : V)
      → AboveAll got k
      → insert less k v got ≡ got ++ (k, v) ∷ []
  unfolding insert
  insert-last [] k v h = refl
  insert-last ((k', v') ∷ got) k v h =
      rw (h.0.1) (rw (h.0.0) (ap (◌∷◌ (k', v')) (insert-last got k v h.1)))

  AboveAll-append :
      (got : List (K × V)) (k k' : K) (v : V)
      → AboveAll got k'
      → Below less k k'
      → AboveAll (got ++ (k, v) ∷ []) k'
  AboveAll-append [] k k' v h b = (b, tt)
  AboveAll-append ((l, w) ∷ got) k k' v h b = (h.0, AboveAll-append got k k' v h.1 b)

  AllOrdered-append :
      (got m : List (K × V)) (k : K) (v : V)
      → AllOrdered got m
      → BelowAll k m
      → AllOrdered (got ++ (k, v) ∷ []) m
  AllOrdered-append got [] k v h b = tt
  AllOrdered-append got ((k', v') ∷ m) k v h b =
      (AboveAll-append got k k' v h.0 b.0, AllOrdered-append got m k v h.1 b.1)

  AllOrdered-nil : (m : List (K × V)) → AllOrdered [] m
  AllOrdered-nil [] = tt
  AllOrdered-nil ((k, v) ∷ m) = (tt, AllOrdered-nil m)

abbrev pub encode_pairs : {K V : Type 0} → (K → List ℕ) → (V → List ℕ) → List (K × V) → List ℕ
encode_pairs key value [] = []
encode_pairs key value ((k, v) ∷ m) = key k ++ (value v ++ encode_pairs key value m)

abbrev pub FitPairs : {K V : Type 0} → (K → Type 0) → (V → Type 0) → List (K × V) → Type 0
FitPairs Key Value [] = Unit
FitPairs Key Value ((k, v) ∷ m) = Key k × Value v × FitPairs Key Value m

module _ {K V : Type 0} (less : K → K → Bool) (key : Streamed K) (value : Streamed V)
    (encode_key : K → List ℕ) (encode_value : V → List ℕ) (FitsKey : K → Type 0)
    (FitsValue : V → Type 0) (key_law : IsStreamed key encode_key FitsKey)
    (value_law : IsStreamed value encode_value FitsValue) where
  write_pairs-Adds :
      (m : List (K × V)) (b : ByteBuffer)
      → FitPairs FitsKey FitsValue m
      → IsValid b
      → size b + length (encode_pairs encode_key encode_value m) < limit
      → Adds (encode_pairs encode_key encode_value m) b (write_pairs key value m b)
  unfolding write_pairs
  write_pairs-Adds [] b fit v room = record {
    valid = v;
    queue = sym (append-nil (pending b));
    longer = omega arith;
  }
  write_pairs-Adds ((k, x) ∷ m) b fit v room =
      let rest = encode_pairs encode_key encode_value m in
      let len = length-append (encode_key k) (encode_value x ++ rest) in
      let len' = length-append (encode_value x) rest in
      Adds-bind (encode_key k) (encode_value x ++ rest) b (key.write k b) _
        (key_law.writes k b fit.0 v (omega arith))
        λ b' added.
          Adds-bind (encode_value x) rest b' (value.write x b') _
            (value_law.writes x b' fit.1 added.valid (omega (arith, added.longer)))
            λ b'' added'.
              write_pairs-Adds m b'' fit.2 added'.valid (omega (arith, added.longer, added'.longer))

  map_loop-Takes :
      (m got : List (K × V)) (rest : List ℕ) (b : ByteBuffer)
      → FitPairs FitsKey FitsValue m
      → Increasing less m
      → AllOrdered less got m
      → IsValid b
      → pending b ≡ encode_pairs encode_key encode_value m ++ rest
      → Takes (got ++ m) rest (map_loop less key value (length m) got b)
  unfolding map_loop
  map_loop-Takes [] got rest b fit inc bef v e = (sym (append-nil got), v, e)
  map_loop-Takes ((k, x) ∷ m) got rest b fit inc bef v e =
      let more = encode_pairs encode_key encode_value m ++ rest in
      let split : pending b ≡ encode_key k ++ (encode_value x ++ more) =
        e
        ∙ append_assoc (encode_key k) (encode_value x ++ encode_pairs encode_key encode_value m)
            rest
        ∙ ap (λ l. encode_key k ++ l)
            (append_assoc (encode_value x) (encode_pairs encode_key encode_value m) rest) in
      Takes-bind k (got ++ (k, x) ∷ m) (encode_value x ++ more) rest (key.read b) _
        (key_law.reads k (encode_value x ++ more) b fit.0 v split)
        λ b' v' e'.
          Takes-bind x (got ++ (k, x) ∷ m) more rest (value.read b') _
            (value_law.reads x more b' fit.1 v' e')
            λ b'' v'' e''. rw (insert-last less got k x bef.0) (
              rw (← append_assoc got ((k, x) ∷ []) m) (
                map_loop-Takes m (got ++ (k, x) ∷ []) rest b'' fit.2 inc.1
                  (AllOrdered-append less got m k x bef.1 inc.0) v'' e''))

  -- A map with its pairs in the order of their keys, whose keys and values have operators that
  -- agree, and whose size fits into a `uint32`, is added to every valid buffer that stays below
  -- 10,000,000 bytes with it, and read back as the same map from the front of every valid buffer:
  -- each pair is inserted behind those that are there.
  pub map-IsStreamed :
      IsStreamed
        (record { write = write_map key value; read = read_map less key value })
        (λ m. to_bytes 4 (length m) ++ encode_pairs encode_key encode_value m)
        (λ m. (length m < byte_range 4) × FitPairs FitsKey FitsValue m × Increasing less m)
  unfolding write_map read_map
  map-IsStreamed = record {
    writes = λ m b fits v room.
        let len = length-append (to_bytes 4 (length m)) (encode_pairs encode_key encode_value m) in
        rw (mod-eq_of_lt (fits.0)) (
          Adds-bind (to_bytes 4 (length m)) (encode_pairs encode_key encode_value m) b
            (write_word 4 (length m) b) _
            ((word-IsStreamed 4).writes (length m) b fits.0 v (omega arith))
            λ b' added. write_pairs-Adds m b' fits.1 added.valid (omega (arith, added.longer)));
    reads = λ m rest b fits v e.
        Takes-bind (length m) m (encode_pairs encode_key encode_value m ++ rest) rest
          (read_word 4 b) _
          ((word-IsStreamed 4).reads (length m) (encode_pairs encode_key encode_value m ++ rest) b
            fits.0 v
            (e
              ∙ append_assoc (to_bytes 4 (length m)) (encode_pairs encode_key encode_value m) rest))
          λ b' v' e'. map_loop-Takes m [] rest b' fits.1 fits.2 (AllOrdered-nil less m) v' e';
  }
