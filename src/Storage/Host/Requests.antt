-- ===== src/Storage/Host/Requests.antt =====
-- The messages that reads make complete at each connection: what its client has sent.
use diginext.Base.{
  ℕ, ◌<◌, ◌^◌, ◌≡◌, refl, sym, ap, ◌∙◌, true, false, Bool-cases, inl, inr, List, [], ◌∷◌, ◌++◌,
  append_assoc, flatten, length, All, Outcome, ok, bind_step, if◌then◌else◌, ◌==◌, arith,
}
use diginext.Tcp.Message.{Splitter, read_bytes}
use diginext.Tcp.Message.Stream.{
  receive-read_bytes, receive, receive-frames, frames, frames-wire, wire, non_empty,
}
use diginext.Tcp.Channel.{IsText, frames_of, texts-IsSendable, non_empty-texts}
use diginext.Storage.Host.Arrival.{from}
use diginext.Storage.Host.Served.{Arrivals, nothing, reads}

-- The second components at the pairs of one connection.
unfoldable pub of_one : ℕ → List (ℕ × List ℕ) → List (List ℕ)
of_one p [] = []
of_one p ((q, x) ∷ more) = if q == p then x ∷ of_one p more else of_one p more

of_one-same :
    (p q : ℕ) (ms : List (List ℕ)) (log : List (ℕ × List ℕ))
    → (q == p) ≡ true
    → of_one p (from q ms ++ log) ≡ ms ++ of_one p log
unfolding of_one
of_one-same p q [] log e = refl
of_one-same p q (m ∷ ms) log e = rw e (ap (λ l. m ∷ l) (of_one-same p q ms log e))

of_one-other :
    (p q : ℕ) (ms : List (List ℕ)) (log : List (ℕ × List ℕ))
    → (q == p) ≡ false
    → of_one p (from q ms ++ log) ≡ of_one p log
unfolding of_one
of_one-other p q [] log e = refl
of_one-other p q (m ∷ ms) log e = rw e (of_one-other p q ms log e)

-- At each connection, the reads are those of one stream.
Arrivals-receive :
    (b : Splitter) (p : ℕ) {parts : ℕ → List ℕ} {rs log : List (ℕ × List ℕ)}
    → Arrivals b parts rs log
    → (last : List ℕ) × (receive b (parts p) (of_one p rs) ≡ ok (of_one p log, last))
unfolding of_one receive
Arrivals-receive b p {parts} nothing = (parts p, refl)
Arrivals-receive b p (reads {parts} {p = q} {chunk} {part} {ms} {more} {log} run rest) =
    let (last, e) = Arrivals-receive b p rest in
    elim (Bool-cases (q == p)) [
      | inl h ↦ (
        last,
        rw (h, of_one-same p q ms log h)
            (bind_step _ (ap (λ k. read_bytes b (parts k) chunk) (ground (arith, h)) ∙ run)
              (bind_step _ (ap (λ x. receive b x (of_one p more)) (ground (arith, h)) ∙ e) refl)),
      )
      | inr h ↦ (
        last,
        rw (h, of_one-other p q ms log h)
            (ap (λ x. receive b x (of_one p more)) (ground (arith, h)) ∙ e),
      )
    ]

pub frames_of-wire : (ms : List (List ℕ)) → flatten (frames_of ms) ≡ wire ms
frames_of-wire [] = refl
frames_of-wire (m ∷ ms) = rw (frames_of-wire ms, append_assoc)

-- Where the bytes that arrive at a connection, in whatever cuts and between whatever reads of
-- others, are together the frames of some texts of two bytes or more, fewer than 2 ^ 62 bytes, and
-- the connection had nothing unfinished, the messages that its reads make complete are those texts,
-- each once and in order.
pub Arrivals-texts :
    (b : Splitter) (p : ℕ) (texts : List (List ℕ)) {parts : ℕ → List ℕ} {rs log : List (ℕ × List ℕ)}
    → Arrivals b parts rs log
    → parts p ≡ []
    → flatten (of_one p rs) ≡ flatten (frames_of texts)
    → All IsText texts
    → length (flatten (of_one p rs)) < 2 ^ 62
    → of_one p log ≡ texts
Arrivals-texts b p texts {parts} {rs} {log} arrivals fresh stream h small =
    let (last, e) = Arrivals-receive b p arrivals in
    ground (arith, together last e) ∙ non_empty-texts texts h
  where
    sent : frames texts ≡ ok (flatten (of_one p rs))
    sent =
        frames-wire texts (texts-IsSendable texts h)
        ∙ ap ok (sym (frames_of-wire texts) ∙ sym stream)

    together :
        (last : List ℕ)
        → receive b (parts p) (of_one p rs) ≡ ok (of_one p log, last)
        → ◌≡◌ {A = Outcome (List (List ℕ) × List ℕ)}
            (ok (of_one p log, last))
            (ok (non_empty texts, []))
    together last e =
        sym e
        ∙ ap (λ x. receive b x (of_one p rs)) fresh
        ∙ receive-frames b texts (of_one p rs) (texts-IsSendable texts h) sent small

-- A read of whole frames.
pub read_bytes-texts :
    (b : Splitter) (texts : List (List ℕ))
    → All IsText texts
    → length (flatten (frames_of texts)) < 2 ^ 62
    → read_bytes b [] (flatten (frames_of texts)) ≡ ok (texts, [])
read_bytes-texts b texts h small =
    sym (receive-read_bytes b (frames_of texts) small)
    ∙ receive-frames b texts (frames_of texts) (texts-IsSendable texts h)
        (frames-wire texts (texts-IsSendable texts h) ∙ ap ok (sym (frames_of-wire texts))) small
    ∙ ap (λ l. ok (l, [])) (non_empty-texts texts h)
