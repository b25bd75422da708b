-- ===== src/Client/Framing/Whole.antt =====
-- An exchange with a stream that answers every write and read by at least one byte.
use mathlib.Core.List.{append_assoc, append-nil}
use llm_vs_zombies.Base.{
  ℕ, ◌+◌, ◌-◌, ◌^◌, ◌||◌, ◌≤◌, ◌<◌, ◌≡◌, refl, sym, ap, true, false, List, [], ◌∷◌, ◌++◌, ◌==◌, ltb,
  ge→ltb, lt→ltb, length, length-append, drop, take, take-append-drop, length-drop, All, arith, ℤ,
  pos, ok, ltb_ℤ,
}
use llm_vs_zombies.Client.Framing.{
  Bytes, max_frame_bytes, Answer, gives, raises, Stream, pack, unpack, write_all, read_exact,
  exchange, connected,
}

unpack-pack : (n : ℕ) → n < 2 ^ 32 → unpack (pack n) ≡ n
unfolding unpack pack
unpack-pack n h = omega arith

abbrev pub total : List ℕ → ℕ
total [] = 0
total (n ∷ ns) = n + total ns

abbrev pub joined : List Bytes → Bytes
joined [] = []
joined (c ∷ cs) = c ++ joined cs

abbrev pub counts : List ℕ → List (Answer ℤ)
counts [] = []
counts (n ∷ ns) = gives (pos n) ∷ counts ns

abbrev pub chunks : List Bytes → List (Answer Bytes)
chunks [] = []
chunks (c ∷ cs) = gives c ∷ chunks cs

write_all-whole :
    (ns : List ℕ) (frame : Bytes) (later : List (Answer ℤ)) (sent : Bytes)
    → All (λ n. 1 ≤ n) ns
    → total ns ≡ length frame
    → write_all frame (counts ns ++ later) sent
      ≡ record { answers = later; bytes = sent ++ frame; result = ok tt }
unfolding write_all
write_all-whole [] [] later sent positive e = rw append-nil refl
write_all-whole [] (b ∷ rest) later sent positive e = absurd (omega arith)
write_all-whole (n ∷ ns) [] later sent positive e = absurd (omega arith)
write_all-whole (n ∷ ns) (b ∷ rest) later sent positive e =
    let within : n ≤ length (b ∷ rest) = omega arith in
    let fits : (n == 0 || ltb (length (b ∷ rest)) n) ≡ false = ground arith in
    rw
      (
        fits,
        write_all-whole ns (drop n (b ∷ rest)) later (sent ++ take n (b ∷ rest)) positive.1
            (omega (arith, length-drop n (b ∷ rest) within)),
        append_assoc sent (take n (b ∷ rest)) (drop n (b ∷ rest)),
        take-append-drop n (b ∷ rest),
      )
      refl

read_exact-done :
    (size : ℕ) (later : List (Answer Bytes)) (read : Bytes)
    → length read ≡ size
    → read_exact size later read ≡ record { answers = later; bytes = read; result = ok read }
unfolding read_exact
read_exact-done size [] read e = rw (ge→ltb (length read) size (omega arith)) refl
read_exact-done size (raises ∷ later) read e = rw (ge→ltb (length read) size (omega arith)) refl
read_exact-done size (gives c ∷ later) read e = rw (ge→ltb (length read) size (omega arith)) refl

read_exact-whole :
    (cs : List Bytes) (size : ℕ) (later : List (Answer Bytes)) (read : Bytes)
    → All (λ c. 1 ≤ length c) cs
    → length read + length (joined cs) ≡ size
    → read_exact size (chunks cs ++ later) read
      ≡ record { answers = later; bytes = read ++ joined cs; result = ok (read ++ joined cs) }
unfolding read_exact
read_exact-whole [] size later read full e =
    rw append-nil (read_exact-done size later read (omega arith))
read_exact-whole (c ∷ cs) size later read full e =
    let split = length-append c (joined cs) in
    rw
      (
        lt→ltb (length read) size (omega arith),
        nonempty c full.0,
        ge→ltb (size - length read) (length c) (omega arith),
        read_exact-whole cs size later (read ++ c) full.1 (omega (arith, length-append read c)),
        append_assoc read c (joined cs),
      )
      refl
  where
    nonempty : (c : Bytes) → 1 ≤ length c → (length c == 0) ≡ false
    nonempty c h = ground arith

-- A stream whose coming answers take the whole frame of the payload and give the whole frame of the
-- response, in pieces of at least one byte.
pub record IsCooperative (s : Stream) (payload response : Bytes) (later : Stream) : Type 0 where
  pub sizes : List ℕ
  pub header : List Bytes
  pub body : List Bytes
  pub write_answers : s.writes ≡ counts sizes ++ later.writes
  pub read_answers : s.reads ≡ chunks header ++ (chunks body ++ later.reads)
  pub all_written : total sizes ≡ 4 + length payload
  pub sizes_positive : All (λ n. 1 ≤ n) sizes
  pub header_full : All (λ c. 1 ≤ length c) header
  pub body_full : All (λ c. 1 ≤ length c) body
  pub header_whole : joined header ≡ pack (length response)
  pub body_whole : joined body ≡ response
  pub later_sent : later.sent ≡ s.sent ++ (pack (length payload) ++ payload)
  pub later_open : later.is_open ≡ s.is_open

length-pack : (n : ℕ) → length (pack n) ≡ 4
unfolding pack
length-pack n = refl

-- Over an open transport, a payload of 1 to 4194304 bytes and a positive timeout, an exchange with a
-- cooperative stream returns the response, if that has 1 to 4194304 bytes too, and leaves the transport
-- open, with the frame of the payload sent and the answers of both frames used up.
pub exchange-whole :
    (s later : Stream) (payload response : Bytes) (timeout : ℤ)
    → IsCooperative s payload response later
    → 1 ≤ length payload
    → length payload ≤ max_frame_bytes
    → 1 ≤ length response
    → length response ≤ max_frame_bytes
    → ltb_ℤ (pos 0) timeout ≡ true
    → exchange (connected s) payload timeout ≡ (connected later, ok response)
unfolding exchange
exchange-whole s later payload response timeout c p1 p2 r1 r2 positive =
    let payload_fits : (length payload == 0 || ltb max_frame_bytes (length payload)) ≡ false =
      ground arith in
    let read_back = unpack-pack (length response) (omega arith) in
    let body_fits : (length response == 0 || ltb max_frame_bytes (length response)) ≡ false =
      ground arith in
    let header =
      read_exact-whole c.header 4 (chunks c.body ++ later.reads) [] c.header_full
        (omega (arith, ap length c.header_whole, length-pack (length response))) in
    let body =
      read_exact-whole c.body (length response) later.reads [] c.body_full
        (omega (arith, ap length c.body_whole)) in
    rw
      (
        payload_fits,
        positive,
        c.write_answers,
        write_all-whole c.sizes (pack (length payload) ++ payload) later.writes s.sent
            c.sizes_positive
            (omega (
              arith,
              c.all_written,
              length-append (pack (length payload)) payload,
              length-pack (length payload),
            )),
        c.read_answers,
        header,
        c.header_whole,
        read_back,
        body_fits,
        body,
        c.body_whole,
      )
      (λ i. (
        record {
          stream = record later { sent = sym c.later_sent i; is_open = sym c.later_open i };
          closed = false;
        },
        ok response,
      ))
