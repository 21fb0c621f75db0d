-- ===== src/Stream/Bodies.antt =====
-- The bodies that the writer gets one by one, and their lengths.
use Prim.Native.String.{◌++◌ as joined, len}
use Prim.Native.Nat.{◌+◌}
use text.Mathlib.TextPositions.{len-append}
use odeclient_server.Base.Lists.{
  ℕ, suc, ◌≡◌, ◌∙◌, ◌≤◌, ◌<◌, ap, inl, inr, refl, String, List, [], ◌∷◌, ◌++◌, All, All-append,
  Bool, true, false, Bool-cases, ltb, ◌==◌, if◌then◌else◌, arith,
}
use odeclient_server.Storage.{Storage, Row}
use odeclient_server.Stream.{
  Stream, chunk_size, append, begin, flush_buffer, write_row, write_rows, write_results,
  write_response,
}

-- A chunk is sent when it has reached 4096 characters, at the latest by a comma and a point.
abbrev pub IsChunk : ℕ → String → Type 0
IsChunk longest b = (chunk_size ≤ len b) × (len b ≤ chunk_size + longest)

-- The bodies: the first text on its own, chunks, and a last body with what is left.
pub record IsChunked (longest : ℕ) (bodies : List String) : Type 0 where
  pub chunks : List String
  pub last : String
  pub bodies_eq : bodies ≡ begin.buffer ∷ (chunks ++ (last ∷ []))
  pub full : All (IsChunk longest) chunks
  pub rest : len last ≤ suc chunk_size

-- Between two points: what is sent, and a buffer that is not yet a chunk.
record IsFilling (longest : ℕ) (s : Stream) : Type 0 where
  chunks : List String
  bodies_eq : s.bodies ≡ begin.buffer ∷ chunks
  full : All (IsChunk longest) chunks
  short : len s.buffer < chunk_size

module _ (connected : ℕ → Bool) (stays : (n : ℕ) → connected n ≡ true) where
  sends :
      (s : Stream)
      → 0 < len s.buffer
      → flush_buffer connected s
        ≡ record { buffer = ""; bodies = s.bodies ++ (s.buffer ∷ []); asked = suc s.asked }
  unfolding flush_buffer
  sends s h = let e : (len s.buffer == 0) ≡ false = ground (arith, h) in rw (e, stays s.asked) refl

  module _ {ℓ} {W : Type ℓ} (dump : W → List W → String) (longest : ℕ) where
    -- After a text of at most a comma and a point, the buffer is sent if it has become a chunk.
    filled :
        (s s' : Stream)
        → IsFilling longest s
        → s'.bodies ≡ s.bodies
        → len s'.buffer ≤ len s.buffer + suc longest
        → IsFilling longest
            (if ltb (len s'.buffer) chunk_size then s' else flush_buffer connected s')
    filled s s' h same fits = elim (Bool-cases (ltb (len s'.buffer) chunk_size)) [
      | inl small ↦ rw small (record {
        chunks = h.chunks;
        bodies_eq = same ∙ h.bodies_eq;
        full = h.full;
        short = ground (arith, small);
      })
      | inr large ↦
          let enough : chunk_size ≤ len s'.buffer = ground (arith, large) in
          rw (large, sends s' (omega (arith, enough)))
            (record {
              chunks = h.chunks ++ (s'.buffer ∷ []);
              bodies_eq = ap (λ bs. bs ++ (s'.buffer ∷ [])) (same ∙ h.bodies_eq);
              full =
                  All-append (IsChunk longest) h.chunks (s'.buffer ∷ []) h.full
                    ((enough, omega (arith, fits, h.short)), tt);
              short = omega arith;
            })
    ]

    -- No point is longer than `longest` characters.
    abbrev pub Fits : Storage W → Type 0
    Fits rows = All (λ (row : Row W). len (dump row.0 row.1) ≤ longest) rows

    write_row-IsFilling :
        (i : ℕ) (t : W) (values : List W) (s : Stream)
        → IsFilling longest s
        → len (dump t values) ≤ longest
        → IsFilling longest (write_row connected dump i t values s)
    write_row-IsFilling i t values s h fits =
        filled s (append (if ltb 0 i then append s "," else s) (dump t values)) h (same i) (added i)
      where
        same : (i : ℕ) → (if ltb 0 i then append s "," else s).bodies ≡ s.bodies
        same i = elim (Bool-cases (ltb 0 i)) [ inl e ↦ rw e refl | inr e ↦ rw e refl ]

        added :
            (i : ℕ)
            → len (joined (if ltb 0 i then append s "," else s).buffer (dump t values))
              ≤ len s.buffer + suc longest
        added i = elim (Bool-cases (ltb 0 i)) [
          | inl e ↦ rw e (
              omega (
                arith,
                len-append (joined s.buffer ",") (dump t values),
                len-append s.buffer ",",
                fits,
              ))
          | inr e ↦ rw e (omega (arith, len-append s.buffer (dump t values), fits))
        ]

    write_rows-IsFilling :
        (i : ℕ) (rows : Storage W) (s : Stream)
        → IsFilling longest s
        → Fits rows
        → IsFilling longest (write_rows connected dump i rows s)
    unfolding write_rows
    write_rows-IsFilling i [] s h fits = h
    write_rows-IsFilling i ((t, values) ∷ rows) s h (fits, rest) =
        let asks : IsFilling longest (record s { asked = suc s.asked }) = record {
          chunks = h.chunks;
          bodies_eq = h.bodies_eq;
          full = h.full;
          short = h.short;
        } in
        rw (stays s.asked)
          (write_rows-IsFilling (suc i) rows _ (write_row-IsFilling i t values _ asks fits) rest)

    -- What is in the buffer after the results.
    record IsLeft (s : Stream) : Type 0 where
      chunks : List String
      bodies_eq : s.bodies ≡ begin.buffer ∷ chunks
      full : All (IsChunk longest) chunks
      short : len s.buffer ≤ chunk_size

    write_results-IsLeft :
        (storage : Storage W) (s : Stream)
        → s.bodies ≡ begin.buffer ∷ []
        → s.buffer ≡ ""
        → Fits storage
        → IsLeft (write_results connected dump storage s)
    write_results-IsLeft [] s e empty fits = record {
      chunks = [];
      bodies_eq = e;
      full = tt;
      short = rw empty (omega arith);
    }
    write_results-IsLeft (row ∷ rows) s e empty fits =
        let h =
          write_rows-IsFilling 0 (row ∷ rows) (append s "[")
            (record { chunks = []; bodies_eq = e; full = tt; short = rw empty (omega arith) })
            fits in
        record {
          chunks = h.chunks;
          bodies_eq = h.bodies_eq;
          full = h.full;
          short = omega (
            arith,
            h.short,
            len-append (write_rows connected dump 0 (row ∷ rows) (append s "[")).buffer "]",
          );
        }

    -- Where the client stays connected and no point is longer than `longest` characters, /solve sends
    -- the first text on its own, then chunks, each of at least 4096 characters and of at most 4096 and
    -- `longest`, and at last a body of at most 4097 with what is left.
    pub write_response-IsChunked :
        (storage : Storage W)
        → Fits storage
        → IsChunked longest (write_response connected dump storage).bodies
    unfolding write_response
    write_response-IsChunked storage fits =
        let begun = sends begin (omega arith) in
        let r = write_results connected dump storage (flush_buffer connected begin) in
        let h =
          write_results-IsLeft storage (flush_buffer connected begin) (rw begun refl)
            (rw begun refl) fits in
        let e = len-append r.buffer "}" in
        rw (sends (append r "}") (omega (arith, e))) (record {
          chunks = h.chunks;
          last = joined r.buffer "}";
          bodies_eq = ap (λ bs. bs ++ (joined r.buffer "}" ∷ [])) h.bodies_eq;
          full = h.full;
          rest = omega (arith, e, h.short);
        })
