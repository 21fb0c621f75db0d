-- ===== src/Stream.antt =====
-- Server/src/Routers.cpp, /solve: the response that streams the points of the storage. `dump` stands
-- for `nlohmann::json::dump` of a point, and `connected n` for the answer to the n-th
-- `isConnected()`; both are libraries' code. `buffer.size()` counts bytes and `len` characters, which
-- is the same for the text of numbers.
pub mod Text
pub mod Bodies
use Prim.Native.String.{◌++◌ as joined, len}
use odeclient_server.Base.Lists.{
  ℕ, zero, suc, String, List, [], ◌∷◌, ◌++◌, Bool, true, false, ltb, ◌==◌, if◌then◌else◌,
}
use odeclient_server.Storage.{Storage}

-- The local `buffer`, the bodies that the writer got, and how often `isConnected()` was asked.
pub record Stream : Type 0 where
  pub buffer : String
  pub bodies : List String
  pub asked : ℕ

abbrev pub chunk_size : ℕ
chunk_size = 4096

-- `buffer += text`.
abbrev pub append : Stream → String → Stream
append s text = record s { buffer = joined s.buffer text }

-- `buffer` as it is before the first `flush_buffer()`.
abbrev pub begin : Stream
begin = record { buffer = "{\"status\":\"success\",\"results\":"; bodies = []; asked = 0 }

module _ (connected : ℕ → Bool) where
  abbrev pub write_body : Stream → Stream
  write_body s =
      if connected s.asked
      then record { buffer = ""; bodies = s.bodies ++ (s.buffer ∷ []); asked = suc s.asked }
      else record s { asked = suc s.asked }

  -- `flush_buffer`.
  unfoldable pub flush_buffer : Stream → Stream
  flush_buffer s = if len s.buffer == 0 then s else write_body s

  module _ {ℓ} {W : Type ℓ} (dump : W → List W → String) where
    -- One round of the loop over the storage, after its `isConnected()`.
    abbrev pub write_row : ℕ → W → List W → Stream → Stream
    write_row i t values s =
        let s1 = if ltb 0 i then append s "," else s in
        let s2 = append s1 (dump t values) in
        if ltb (len s2.buffer) chunk_size then s2 else flush_buffer s2

    -- The loop over the storage, from the index `i` on.
    unfoldable pub write_rows : ℕ → Storage W → Stream → Stream
    write_rows i [] s = s
    write_rows i ((t, values) ∷ rows) s =
        let s' = record s { asked = suc s.asked } in
        let rest = write_rows (suc i) rows (write_row i t values s') in
        if connected s.asked then rest else s'

    abbrev pub write_results : Storage W → Stream → Stream
    write_results [] s = append s "[]"
    write_results (row ∷ rows) s = append (write_rows 0 (row ∷ rows) (append s "[")) "]"

    -- From the first `buffer +=` to the last `flush_buffer()`.
    unfoldable pub write_response : Storage W → Stream
    write_response storage = flush_buffer (append (write_results storage (flush_buffer begin)) "}")
