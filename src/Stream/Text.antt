-- ===== src/Stream/Text.antt =====
-- The streamed response against the text that it stands for.
use Prim.Native.String.{◌++◌ as joined, len}
use text.Mathlib.TextPositions.{len-append}
use text.Mathlib.TextLemmas.{
  append_assoc as joined_assoc, append-nil as joined-nil, nil-append as nil-joined,
}
use odeclient_server.Base.Lists.{
  ℕ, zero, suc, ◌≡◌, ◌∙◌, sym, ap, inl, inr, String, List, [], ◌∷◌, ◌++◌, Bool, true, false,
  Bool-cases, ltb, ◌==◌, if◌then◌else◌, arith,
}
use odeclient_server.Storage.{Storage}
use odeclient_server.Stream.{
  write_response, Stream, chunk_size, append, begin, flush_buffer, write_row, write_rows,
  write_results,
}

-- What the client has got.
abbrev pub sent : List String → String
sent [] = ""
sent (b ∷ bs) = joined b (sent bs)

-- What it has got, and what is still in the buffer.
abbrev pub contents : Stream → String
contents s = joined (sent s.bodies) s.buffer

-- The client does not come back.
abbrev pub StaysLost : (ℕ → Bool) → Type 0
StaysLost connected = (n : ℕ) → connected n ≡ false → connected (suc n) ≡ false

abbrev pub comma : ℕ → String
comma zero = ""
comma (suc i) = ","

module _ {ℓ} {W : Type ℓ} (dump : W → List W → String) where
  -- The points from the index `i` on, with a comma before each but the first.
  abbrev pub rows_text : ℕ → Storage W → String
  rows_text i [] = ""
  rows_text i ((t, values) ∷ rows) =
      joined (comma i) (joined (dump t values) (rows_text (suc i) rows))

  -- The whole response.
  abbrev pub response_text : Storage W → String
  response_text storage =
      joined "{\"status\":\"success\",\"results\":"
        (joined (joined "[" (joined (rows_text 0 storage) "]")) "}")

sent-append : (bs : List String) (b : String) → sent (bs ++ (b ∷ [])) ≡ joined (sent bs) b
sent-append [] b = joined-nil b ∙ sym (nil-joined b)
sent-append (x ∷ bs) b = rw (sent-append bs b, joined_assoc x (sent bs) b)

not_empty : (b : String) → (len (joined b "}") == 0) ≡ false
not_empty b = rw (len-append b "}") (ground arith)

positive : (i : ℕ) → ltb 0 (suc i) ≡ true
positive i = ground arith

module _ (connected : ℕ → Bool) where
  -- A flush moves the buffer, and loses nothing.
  contents-flush : (s : Stream) → contents (flush_buffer connected s) ≡ contents s
  unfolding flush_buffer
  contents-flush s = elim (Bool-cases (len s.buffer == 0)) [
    | inl e ↦ rw e
    | inr e ↦ elim (Bool-cases (connected s.asked)) [
      | inl c ↦ rw (e, c, sent-append s.bodies s.buffer, joined-nil)
      | inr c ↦ rw (e, c)
    ]
  ]

  -- What has become of a text that was to follow the contents of `s`: it is all there, or the client
  -- is lost, and has got a beginning of it.
  pub data Written (s : Stream) (text : String) (r : Stream) : Type 0 where
    whole : contents r ≡ joined (contents s) text → Written s text r
    cut :
        connected r.asked ≡ false
        → (rest : String) → joined (sent r.bodies) rest ≡ joined (contents s) text
        → Written s text r

  Written-from :
      {s s' : Stream} {text text' : String} (r : Stream)
      → joined (contents s') text' ≡ joined (contents s) text
      → Written s' text' r
      → Written s text r
  Written-from r e (whole p) = whole (p ∙ e)
  Written-from r e (cut c rest p) = cut c rest (p ∙ e)

  Written-append :
      {s : Stream} {text : String} (r : Stream) (more : String)
      → Written s text r
      → Written s (joined text more) (append r more)
  Written-append {s} {text} r more (whole p) = whole (
      sym (joined_assoc (sent r.bodies) r.buffer more)
      ∙ ap (λ x. joined x more) p
      ∙ joined_assoc (contents s) text more)
  Written-append {s} {text} r more (cut c rest p) = cut c (joined rest more) (
      sym (joined_assoc (sent r.bodies) rest more)
      ∙ ap (λ x. joined x more) p
      ∙ joined_assoc (contents s) text more)

  Written-flush :
      StaysLost connected
      → {s : Stream} {text : String} (r : Stream) → Written s text r
      → Written s text (flush_buffer connected r)
  unfolding flush_buffer
  Written-flush lost r (whole p) = whole (contents-flush r ∙ p)
  Written-flush lost r (cut c rest p) = elim (Bool-cases (len r.buffer == 0)) [
    | inl e ↦ rw e (cut c rest p)
    | inr e ↦ rw (e, c) (cut (lost r.asked c) rest p)
  ]

  module _ {ℓ} {W : Type ℓ} (dump : W → List W → String) where
    contents-write_row :
        (i : ℕ) (t : W) (values : List W) (s : Stream)
        → contents (write_row connected dump i t values s)
          ≡ joined (contents s) (joined (comma i) (dump t values))
    contents-write_row i t values s =
        flushed (append (commaed i) (dump t values))
        ∙ sym (joined_assoc (sent (commaed i).bodies) (commaed i).buffer (dump t values))
        ∙ ap (λ x. joined x (dump t values)) (added i)
        ∙ joined_assoc (contents s) (comma i) (dump t values)
      where
        commaed : ℕ → Stream
        commaed i = if ltb 0 i then append s "," else s

        added : (i : ℕ) → contents (commaed i) ≡ joined (contents s) (comma i)
        added zero = sym (joined-nil (contents s))
        added (suc i) = rw (positive i) (sym (joined_assoc (sent s.bodies) s.buffer ","))

        flushed :
            (s : Stream)
            → contents (if ltb (len s.buffer) chunk_size then s else flush_buffer connected s)
              ≡ contents s
        flushed s = elim (Bool-cases (ltb (len s.buffer) chunk_size)) [
          | inl e ↦ rw e
          | inr e ↦ rw e (contents-flush s)
        ]

    module _ (lost : StaysLost connected) where
      write_rows-Written :
          (i : ℕ) (rows : Storage W) (s : Stream)
          → Written s (rows_text dump i rows) (write_rows connected dump i rows s)
      unfolding write_rows
      write_rows-Written i [] s = whole (sym (joined-nil (contents s)))
      write_rows-Written i ((t, values) ∷ rows) s = elim (Bool-cases (connected s.asked)) [
        | inl c ↦ rw c (Written-from _ ahead (write_rows-Written (suc i) rows _))
        | inr c ↦ rw c (
            cut (lost s.asked c) (joined s.buffer (rows_text dump i ((t, values) ∷ rows)))
              (sym (joined_assoc (sent s.bodies) s.buffer _)))
      ]
        where
          row : String
          row = dump t values

          ahead :
              joined
                (contents (write_row connected dump i t values (record s { asked = suc s.asked })))
                (rows_text dump (suc i) rows)
              ≡ joined (contents s) (joined (comma i) (joined row (rows_text dump (suc i) rows)))
          ahead =
              ap (λ x. joined x (rows_text dump (suc i) rows))
                (contents-write_row i t values (record s { asked = suc s.asked }))
              ∙ joined_assoc (contents s) (joined (comma i) row) (rows_text dump (suc i) rows)
              ∙ ap (joined (contents s)) (joined_assoc (comma i) row (rows_text dump (suc i) rows))

      write_results-Written :
          (storage : Storage W) (s : Stream)
          → Written s
              (joined "[" (joined (rows_text dump 0 storage) "]"))
              (write_results connected dump storage s)
      write_results-Written [] s = whole (sym (joined_assoc (sent s.bodies) s.buffer "[]"))
      write_results-Written (row ∷ rows) s =
          Written-from _ ahead
            (Written-append _ "]" (write_rows-Written 0 (row ∷ rows) (append s "[")))
        where
          text : String
          text = joined (rows_text dump 0 (row ∷ rows)) "]"

          ahead : joined (contents (append s "[")) text ≡ joined (contents s) (joined "[" text)
          ahead =
              ap (λ x. joined x text) (sym (joined_assoc (sent s.bodies) s.buffer "["))
              ∙ joined_assoc (contents s) "[" text

      write_all-Written :
          (storage : Storage W)
          → let text = joined (joined "[" (joined (rows_text dump 0 storage) "]")) "}" in
            Written begin text
              (append (write_results connected dump storage (flush_buffer connected begin)) "}")
      write_all-Written storage =
          let text = joined (joined "[" (joined (rows_text dump 0 storage) "]")) "}" in
          Written-from _ (ap (λ x. joined x text) (contents-flush begin))
            (Written-append _ "}" (write_results-Written storage (flush_buffer connected begin)))

      -- Where a client that is lost does not come back, the bodies that it gets are together a
      -- beginning of the response.
      pub write_response-beginning :
          (storage : Storage W)
          → (rest : String) × (joined (sent (write_response connected dump storage).bodies) rest
              ≡ response_text dump storage)
      unfolding write_response
      write_response-beginning storage = begins _ (Written-flush lost _ (write_all-Written storage))
        where
          begins :
              (r : Stream)
              → Written begin (joined (joined "[" (joined (rows_text dump 0 storage) "]")) "}") r
              → (rest : String) × (joined (sent r.bodies) rest ≡ response_text dump storage)
          begins r (whole p) = (r.buffer, p)
          begins r (cut c rest p) = (rest, p)

    -- Where the client stays connected, the bodies that it gets are together the response.
    pub write_response_whole :
        ((n : ℕ) → connected n ≡ true)
        → (storage : Storage W)
        → sent (write_response connected dump storage).bodies ≡ response_text dump storage
    unfolding write_response flush_buffer
    write_response_whole stays storage =
        all_sent (write_results connected dump storage (flush_buffer connected begin))
          (write_all-Written (λ n e. absurd (cc (e, stays n))) storage)
      where
        all_sent :
            (r : Stream)
            → Written begin
                (joined (joined "[" (joined (rows_text dump 0 storage) "]")) "}")
                (append r "}")
            → sent (flush_buffer connected (append r "}")).bodies ≡ response_text dump storage
        all_sent r (whole p) =
            rw (not_empty r.buffer, stays r.asked, sent-append r.bodies (joined r.buffer "}")) p
        all_sent r (cut c rest p) = absurd (cc (c, stays r.asked))
