-- ===== src/Client/Framing/Closing.antt =====
-- How an exchange ends, whatever the stream answers.
use llm_vs_zombies.Base.{
  ℕ, ◌≤◌, ◌≡◌, ◌⊎◌, refl, Bool, true, false, ◌||◌, List, [], ◌∷◌, ◌++◌, ◌==◌, ltb, length,
  length-append, Bool-cases, inl, inr, arith, ℤ, pos, Result, ok, err, ltb_ℤ,
}
use llm_vs_zombies.Client.Framing.{
  Bytes, max_frame_bytes, Answer, gives, raises, Stream, Transport, TransportError,
  transport_closed, bad_payload, bad_timeout, connected, pack, unpack, write_all, read_exact, close,
  exchange, settle, on_header, on_written, after_writes,
}

-- What `_read_exact` returns has exactly the size that was asked for.
read_exact-length :
    (size : ℕ) (answers : List (Answer Bytes)) (read body : Bytes)
    → length read ≤ size
    → (read_exact size answers read).result ≡ ok body
    → length body ≡ size
unfolding read_exact
read_exact-length size [] read body h e = ground arith
read_exact-length size (raises ∷ answers) read body h e = ground arith
read_exact-length size (gives c ∷ answers) read body h e =
    ground (arith, length-append read c, read_exact-length size answers (read ++ c) body)

-- The transport and its stream are closed, and every exchange is refused and changes nothing.
pub record IsClosed (t : Transport) : Type 0 where
  pub closed : t.closed ≡ true
  pub stream : t.stream.is_open ≡ false
  pub refused :
      (payload : Bytes) (timeout : ℤ) → exchange t payload timeout ≡ (t, err transport_closed)

abbrev pub is_refusal : TransportError → Bool
is_refusal bad_payload = true
is_refusal bad_timeout = true
is_refusal _ = false

abbrev pub Ends : Transport → Transport → Result TransportError Bytes → Type 0
Ends before after (ok response) =
    (after.closed ≡ false) × (1 ≤ length response) × (length response ≤ max_frame_bytes)
Ends before after (err e) = ((after ≡ before) × (is_refusal e ≡ true)) ⊎ IsClosed after

close-IsClosed : (t : Transport) → t.closed ≡ false → IsClosed (close t)
unfolding close exchange
close-IsClosed t h =
    rw h (record { closed = refl; stream = refl; refused = λ payload timeout. refl })

settle-Ends :
    (before t : Transport) (size : ℕ) (r : Result TransportError Bytes)
    → t.closed ≡ false
    → 1 ≤ size
    → size ≤ max_frame_bytes
    → ((body : Bytes) → r ≡ ok body → length body ≡ size)
    → Ends before (settle t r).0 (settle t r).1
settle-Ends before t size (ok body) h low high sized =
    let e = sized body refl in (h, omega arith, omega arith)
settle-Ends before t size (err e) h low high sized = inr (close-IsClosed t h)

on_header-Ends :
    (before t : Transport) (r : Result TransportError Bytes)
    → t.closed ≡ false
    → Ends before (on_header t r).0 (on_header t r).1
on_header-Ends before t (err e) h = inr (close-IsClosed t h)
on_header-Ends before t (ok header) h =
    elim (Bool-cases (unpack header == 0 || ltb max_frame_bytes (unpack header))) [
      | inl bad ↦ rw bad (inr (close-IsClosed t h))
      | inr good ↦ rw good (
          settle-Ends before _ (unpack header) (read_exact (unpack header) t.stream.reads []).result
            h (ground arith) (ground arith)
            (λ body e. read_exact-length (unpack header) t.stream.reads [] body (omega arith) e))
    ]

on_written-Ends :
    (before t : Transport) (r : Result TransportError (Unit {0}))
    → t.closed ≡ false
    → Ends before (on_written t r).0 (on_written t r).1
on_written-Ends before t (err e) h = inr (close-IsClosed t h)
on_written-Ends before t (ok _) h = on_header-Ends before _ _ h

-- Over an open transport, whatever the stream answers, an exchange returns a response of 1 to 4194304
-- bytes and leaves the transport open, or refuses the payload or the timeout and changes nothing, or
-- fails and leaves the stream closed and every later exchange refused.
pub exchange-Ends :
    (s : Stream) (payload : Bytes) (timeout : ℤ)
    → Ends
        (connected s)
        (exchange (connected s) payload timeout).0
        (exchange (connected s) payload timeout).1
unfolding exchange
exchange-Ends s payload timeout =
    elim (Bool-cases (length payload == 0 || ltb max_frame_bytes (length payload))) [
      | inl bad ↦ rw bad (inl (refl, refl))
      | inr good ↦ elim (Bool-cases (ltb_ℤ (pos 0) timeout)) [
        | inr late ↦ rw (good, late) (inl (refl, refl))
        | inl timely ↦
            rw (good, timely)
              (on_written-Ends (connected s)
                (after_writes (connected s)
                  (write_all (pack (length payload) ++ payload) s.writes s.sent))
                _ refl)
      ]
    ]
