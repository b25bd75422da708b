-- ===== src/Trace.antt =====
-- `SessionTrace` of src/llm_vs_zombies/session.py: the append-only audit records of a client. The
-- file system, JSON and the clock are outside: a line of the file is a record or what Python
-- refuses, and `encodes` is whether `json.dumps` takes a value.
pub mod Reopening
mod Tests
use llm_vs_zombies.Base.{
  ℕ, suc, ◌+◌, ◌==◌, Bool, true, false, ◌&&◌, ◌||◌, not, Option, none, some, List, [], ◌∷◌, ◌++◌,
  Result, ok, err, ◌>>=◌, ◌>>◌, raise_if, if◌then◌else◌,
}

pub record Entry (B : Type 0) : Type 0 where
  pub schema : ℕ
  pub seq : ℕ
  pub body : B

-- a line of the file: a record and its newline, or an incomplete tail
pub data Line (B : Type 0) : Type 0 where
  whole : Entry B → Line B
  torn : Line B

pub data TraceError : Type 0 where
  lock_held incomplete_tail sequence_mismatch trace_closed unserializable : TraceError

-- the trace file and its `.lock`
pub record Disk (B : Type 0) : Type 0 where
  pub lines : List (Line B)
  pub locked : Bool

-- an object of the class, with the disk it writes to
pub record Trace (B : Type 0) : Type 0 where
  pub disk : Disk B
  pub seq : ℕ
  pub closed : Bool

module _ {B : Type 0} where
  -- the loop of `__init__` over the lines
  unfoldable pub count_lines : ℕ → List (Line B) → Result TraceError ℕ
  count_lines n [] = ok n
  count_lines n (torn ∷ lines) = err incomplete_tail
  count_lines n (whole e ∷ lines) =
      raise_if (not (e.schema == 1) || not (e.seq == n)) sequence_mismatch
      >> count_lines (n + 1) lines

  abbrev pub start : Disk B → Result TraceError ℕ → Disk B × Result TraceError (Trace B)
  start d (ok n) =
      let locked = record d { locked = true } in
      (locked, ok (record { disk = locked; seq = n; closed = false }))
  start d (err e) = (record d { locked = false }, err e)

  -- `__init__`: the disk it leaves, with the object or the exception; a refused file keeps no lock
  unfoldable pub open_trace : Disk B → Disk B × Result TraceError (Trace B)
  unfolding count_lines
  open_trace d = if d.locked then (d, err lock_held) else start d (count_lines 0 d.lines)

  -- `emit`
  unfoldable pub emit : (B → Bool) → B → Trace B → Trace B × Result TraceError (Entry B)
  emit encodes body t =
      let entry : Entry B = record { schema = 1; seq = t.seq; body = body } in
      if t.closed
      then (t, err trace_closed)
      else if not (encodes body)
      then (t, err unserializable)
      else (
        record t {
          disk = record t.disk { lines = t.disk.lines ++ whole entry ∷ [] };
          seq = t.seq + 1;
        },
        ok entry,
      )

  -- `close`
  unfoldable pub close : Trace B → Trace B
  close t =
      if t.closed then t else record t { disk = record t.disk { locked = false }; closed = true }

  abbrev pub emit_all : (B → Bool) → List B → Trace B → Trace B
  emit_all encodes [] t = t
  emit_all encodes (b ∷ bs) t = emit_all encodes bs (emit encodes b t).0
