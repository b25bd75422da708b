-- ===== src/Client/Framing.antt =====
-- `FramedTransport`: a request and its response, each behind its length in four bytes. The stream is
-- outside: it answers each write with a count and each read with a chunk, or it raises, which is also
-- what the deadline does. An exchange that asks for more answers than there are runs into the deadline.
pub mod Whole
pub mod Closing
use llm_vs_zombies.Base.{
  ℕ, suc, ◌+◌, ◌-◌, ◌*◌, ◌/◌, ◌%◌, ◌^◌, Bool, true, false, ◌||◌, List, [], ◌∷◌, ◌++◌, if◌then◌else◌,
  ◌==◌, ltb, length, drop, take, not, ℤ, pos, negsuc, ltb_ℤ, Result, ok, err,
}

abbrev pub Bytes : Type 0
Bytes = List ℕ

-- `MAX_FRAME_BYTES`
abbrev pub max_frame_bytes : ℕ
max_frame_bytes = 4 * 1024 * 1024

pub data Answer (A : Type 0) : Type 0 where
  gives : A → Answer A
  raises : Answer A

-- The answers to come, and the bytes that the stream has accepted.
pub record Stream : Type 0 where
  pub writes : List (Answer ℤ)
  pub reads : List (Answer Bytes)
  pub sent : Bytes
  pub is_open : Bool

pub record Transport : Type 0 where
  pub stream : Stream
  pub closed : Bool

-- `__init__`
abbrev pub connected : Stream → Transport
connected s = record { stream = s; closed = false }

pub data TransportError : Type 0 where
  transport_closed : TransportError
  bad_payload : TransportError
  bad_timeout : TransportError
  invalid_write : TransportError
  disconnected : TransportError
  too_many_bytes : TransportError
  bad_length : ℕ → TransportError
  stream_error : TransportError

-- `struct.pack("<I", n)`, which is given a length that fits, and `struct.unpack`
unfoldable pub pack : ℕ → Bytes
pack n = n % 256 ∷ n / 256 % 256 ∷ n / 65536 % 256 ∷ n / 16777216 % 256 ∷ []

unfoldable pub unpack : Bytes → ℕ
unpack [] = 0
unpack (b ∷ bs) = b + 256 * unpack bs

-- What a loop over the stream leaves: the answers that are left, what was sent or read, and its error.
pub record Io (A B : Type 0) : Type 0 where
  pub answers : List (Answer A)
  pub bytes : Bytes
  pub result : Result TransportError B

-- The loop over `offset`; `rest` is `frame[offset:]` and `sent` what the stream has accepted.
unfoldable pub write_all : Bytes → List (Answer ℤ) → Bytes → Io ℤ (Unit {0})
write_all [] answers sent = record { answers = answers; bytes = sent; result = ok tt }
write_all (b ∷ rest) [] sent = record { answers = []; bytes = sent; result = err stream_error }
write_all (b ∷ rest) (raises ∷ answers) sent = record {
  answers = answers;
  bytes = sent;
  result = err stream_error;
}
write_all (b ∷ rest) (gives (negsuc n) ∷ answers) sent = record {
  answers = answers;
  bytes = sent;
  result = err invalid_write;
}
write_all (b ∷ rest) (gives (pos n) ∷ answers) sent =
    let on = write_all (drop n (b ∷ rest)) answers (sent ++ take n (b ∷ rest)) in
    if n == 0 || ltb (length (b ∷ rest)) n
    then record { answers = answers; bytes = sent; result = err invalid_write }
    else on

-- `_read_exact`; `read` is what has been read so far.
unfoldable pub read_exact : ℕ → List (Answer Bytes) → Bytes → Io Bytes Bytes
read_exact size [] read = record {
  answers = [];
  bytes = read;
  result = if ltb (length read) size then err stream_error else ok read;
}
read_exact size (raises ∷ answers) read =
    if ltb (length read) size
    then record { answers = answers; bytes = read; result = err stream_error }
    else record { answers = raises ∷ answers; bytes = read; result = ok read }
read_exact size (gives chunk ∷ answers) read =
    let on = read_exact size answers (read ++ chunk) in
    if not (ltb (length read) size)
    then record { answers = gives chunk ∷ answers; bytes = read; result = ok read }
    else if length chunk == 0
    then record { answers = answers; bytes = read; result = err disconnected }
    else if ltb (size - length read) (length chunk)
    then record { answers = answers; bytes = read; result = err too_many_bytes }
    else on

-- `close`
unfoldable pub close : Transport → Transport
close t =
    if t.closed then t else record { stream = record t.stream { is_open = false }; closed = true }

abbrev pub after_writes : Transport → Io ℤ (Unit {0}) → Transport
after_writes t io = record t { stream = record t.stream { writes = io.answers; sent = io.bytes } }

abbrev pub after_reads : Transport → Io Bytes Bytes → Transport
after_reads t io = record t { stream = record t.stream { reads = io.answers } }

-- An exception closes the transport and goes on.
abbrev pub settle :
    Transport → Result TransportError Bytes → Transport × Result TransportError Bytes
settle t (ok body) = (t, ok body)
settle t (err e) = (close t, err e)

abbrev pub read_body : Transport → ℕ → Transport × Result TransportError Bytes
read_body t size = let io = read_exact size t.stream.reads [] in settle (after_reads t io) io.result

abbrev pub on_header :
    Transport → Result TransportError Bytes → Transport × Result TransportError Bytes
on_header t (err e) = (close t, err e)
on_header t (ok header) =
    if unpack header == 0 || ltb max_frame_bytes (unpack header)
    then (close t, err (bad_length (unpack header)))
    else read_body t (unpack header)

abbrev pub on_written :
    Transport → Result TransportError (Unit {0}) → Transport × Result TransportError Bytes
on_written t (err e) = (close t, err e)
on_written t (ok _) =
    let io = read_exact 4 t.stream.reads [] in on_header (after_reads t io) io.result

-- `exchange`
unfoldable pub exchange : Transport → Bytes → ℤ → Transport × Result TransportError Bytes
unfolding pack unpack write_all read_exact close
exchange t payload timeout =
    let io = write_all (pack (length payload) ++ payload) t.stream.writes t.stream.sent in
    if t.closed
    then (t, err transport_closed)
    else if length payload == 0 || ltb max_frame_bytes (length payload)
    then (t, err bad_payload)
    else if not (ltb_ℤ (pos 0) timeout)
    then (t, err bad_timeout)
    else on_written (after_writes t io) io.result
