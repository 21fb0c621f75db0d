-- ===== src/Tests/Responses.antt =====
-- The streamed response for two points, dumped by their number of values.
use odeclient_server.Base.Lists.{
  arith, ℕ, zero, suc, ◌≡◌, refl, String, List, [], ◌∷◌, Bool, true, false,
}
use odeclient_server.Storage.{Storage}
use odeclient_server.Stream
use Prim.Native.String.{◌++◌ as joined}

abbrev dump : ℕ → List ℕ → String
dump t values = "{}"

abbrev points : Storage ℕ
points = (0, 1 ∷ []) ∷ (5, 2 ∷ []) ∷ []

-- The client is lost after the first answer.
abbrev pub connected_once : ℕ → Bool
connected_once zero = true
connected_once (suc n) = false

pub connected_once-StaysLost : Stream.Text.StaysLost connected_once
connected_once-StaysLost zero e = refl
connected_once-StaysLost (suc n) e = refl

write_response-beginning_example :
    (rest : String) × (joined
        (Stream.Text.sent (Stream.write_response connected_once dump points).bodies)
        rest
      ≡ Stream.Text.response_text dump points)
write_response-beginning_example =
    Stream.Text.write_response-beginning connected_once dump connected_once-StaysLost points

write_response_whole_example :
    Stream.Text.sent (Stream.write_response (λ n. true) dump points).bodies
    ≡ Stream.Text.response_text dump points
write_response_whole_example = Stream.Text.write_response_whole (λ n. true) dump (λ n. refl) points

-- A text of 4096 characters, twice as long as one of 2048, and so on.
abbrev doubled : ℕ → String
doubled zero = "x"
doubled (suc n) = joined (doubled n) (doubled n)

abbrev dump_long : ℕ → List ℕ → String
dump_long t values = doubled 12

write_response-IsChunked_example :
    Stream.Bodies.IsChunked 5000 (Stream.write_response (λ n. true) dump_long points).bodies
write_response-IsChunked_example =
    Stream.Bodies.write_response-IsChunked (λ n. true) (λ n. refl) dump_long 5000 points
      (omega arith, (omega arith, tt))

-- Each point makes a chunk.
write_response_chunks :
    (Stream.write_response (λ n. true) dump_long points).bodies
    ≡ "{\"status\":\"success\",\"results\":"
      ∷ joined "[" (doubled 12)
      ∷ joined "," (doubled 12)
      ∷ "]}"
      ∷ []
unfolding Stream.write_response Stream.write_rows Stream.flush_buffer
write_response_chunks = refl

-- The text begins before the client is lost.
write_response_runs :
    (Stream.write_response connected_once dump points).bodies
    ≡ "{\"status\":\"success\",\"results\":" ∷ []
unfolding Stream.write_response Stream.write_rows Stream.flush_buffer
write_response_runs = refl

response_text_runs :
    Stream.Text.response_text dump points ≡ "{\"status\":\"success\",\"results\":[{},{}]}"
response_text_runs = refl
