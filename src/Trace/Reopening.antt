-- ===== src/Trace/Reopening.antt =====
-- A closed trace of session.py can be opened again, and the next record continues its sequence.
use llm_vs_zombies.Base.{
  ℕ, ◌+◌, ◌≡◌, refl, subst, ◌==◌, Bool, true, false, ◌||◌, not, List, [], ◌∷◌, ◌++◌, Result, ok,
  err, ◌>>=◌, ◌>>◌, raise_if, arith, length, ok-injective, Bool-cases, inl, inr, if◌then◌else◌,
}
use llm_vs_zombies.Trace
use llm_vs_zombies.Trace.{
  Entry, Line, whole, torn, Disk, count_lines, open_trace, emit, close, emit_all, start, lock_held,
  sequence_mismatch, TraceError,
}

module _ {B : Type 0} where
  -- the file is a sequence of whole records, which the trace has counted, and an open trace holds the lock
  pub record IsSequenced (t : Trace.Trace B) : Type 0 where
    pub counted : count_lines 0 t.disk.lines ≡ ok t.seq
    pub held : t.disk.locked ≡ not t.closed

  count_lines-snoc :
      (n m : ℕ) (lines : List (Line B)) (b : B)
      → count_lines n lines ≡ ok m
      → count_lines n (lines ++ whole (record { schema = 1; seq = m; body = b }) ∷ []) ≡ ok (m + 1)
  unfolding count_lines ◌>>=◌
  count_lines-snoc n m [] b h = ground (arith, h)
  count_lines-snoc n m (torn ∷ lines) b h = cc
  count_lines-snoc n m (whole e ∷ lines) b h =
      elim (Bool-cases (not (e.schema == 1) || not (e.seq == n))) [
        | inl x ↦ absurd (ground (arith, h, x))
        | inr x ↦ rw x (
            count_lines-snoc (n + 1) m lines b
              (subst (λ c. (raise_if c sequence_mismatch >> count_lines (n + 1) lines) ≡ ok m) x h))
      ]

  count_lines-length :
      (n m : ℕ) (lines : List (Line B)) → count_lines n lines ≡ ok m → m ≡ n + length lines
  unfolding count_lines ◌>>=◌
  count_lines-length n m [] h = ground (arith, h)
  count_lines-length n m (torn ∷ lines) h = cc
  count_lines-length n m (whole e ∷ lines) h =
      elim (Bool-cases (not (e.schema == 1) || not (e.seq == n))) [
        | inl x ↦ absurd (ground (arith, h, x))
        | inr x ↦ omega (
          arith,
          count_lines-length (n + 1) m lines
              (subst (λ c. (raise_if c sequence_mismatch >> count_lines (n + 1) lines) ≡ ok m) x h),
        )
      ]

  open_trace-IsSequenced :
      (d : Disk B) (t : Trace.Trace B) → (open_trace d).1 ≡ ok t → IsSequenced t
  unfolding open_trace
  open_trace-IsSequenced d t h = elim (Bool-cases d.locked) [
    | inl x ↦ absurd (ground (arith, h, x))
    | inr x ↦ counted_lines (count_lines 0 d.lines) refl (
        subst (λ c. (if c then (d, err lock_held) else start d (count_lines 0 d.lines)).1 ≡ ok t) x
          h)
  ]
    where
      counted_lines :
          (r : Result TraceError ℕ)
          → count_lines 0 d.lines ≡ r
          → (start d r).1 ≡ ok t
          → IsSequenced t
      counted_lines (ok n) e k =
          subst IsSequenced (ok-injective k) (record { counted = e; held = refl })
      counted_lines (err x) e k = cc

  abbrev trace : Disk B → ℕ → Bool → Trace.Trace B
  trace d n closed = record { disk = d; seq = n; closed = closed }

  emitted :
      (encodes : B → Bool) (b : B) (d : Disk B) (n : ℕ) (closed : Bool)
      → IsSequenced (trace d n closed)
      → IsSequenced (emit encodes b (trace d n closed)).0
  unfolding emit
  emitted encodes b d n true h = h
  emitted encodes b d n false h = elim (Bool-cases (encodes b)) [
    | inl x ↦ rw x (record { counted = count_lines-snoc 0 n d.lines b h.counted; held = h.held })
    | inr x ↦ rw x h
  ]

  emit-IsSequenced :
      (encodes : B → Bool) (b : B) (t : Trace.Trace B)
      → IsSequenced t
      → IsSequenced (emit encodes b t).0
  emit-IsSequenced encodes b t h = emitted encodes b t.disk t.seq t.closed h

  emit_all-IsSequenced :
      (encodes : B → Bool) (bs : List B) (t : Trace.Trace B)
      → IsSequenced t
      → IsSequenced (emit_all encodes bs t)
  emit_all-IsSequenced encodes [] t h = h
  emit_all-IsSequenced encodes (b ∷ bs) t h =
      emit_all-IsSequenced encodes bs _ (emit-IsSequenced encodes b t h)

  -- the trace that `__init__` makes of a file of whole records
  abbrev pub reopened : Disk B → Trace.Trace B
  reopened d = trace (record { lines = d.lines; locked = true }) (length d.lines) false

  reopen-closed :
      (lines : List (Line B)) (n : ℕ)
      → count_lines 0 lines ≡ ok n
      → (open_trace (record { lines = lines; locked = false })).1
        ≡ ok (reopened (record { lines = lines; locked = false }))
  unfolding open_trace
  reopen-closed lines n h =
      let total : n ≡ length lines = omega (arith, count_lines-length 0 n lines h) in
      rw (h, total) refl

  reopen :
      (lines : List (Line B)) (locked : Bool) (n : ℕ) (closed : Bool)
      → IsSequenced (trace (record { lines = lines; locked = locked }) n closed)
      → let w = close (trace (record { lines = lines; locked = locked }) n closed) in
        (open_trace w.disk).1 ≡ ok (reopened w.disk)
  unfolding close
  reopen lines true n true h = absurd (ground (arith, h.held))
  reopen lines false n true h = reopen-closed lines n h.counted
  reopen lines locked n false h = reopen-closed lines n h.counted

  -- Once `__init__` has opened a trace, any values may be emitted, refused ones among them: when the
  -- trace is closed, `__init__` opens the file again, with a record for each line, and the next
  -- sequence number is the number of lines.
  pub open_trace-emit_all :
      (d : Disk B) (t : Trace.Trace B) (encodes : B → Bool) (bs : List B)
      → (open_trace d).1 ≡ ok t
      → let w = close (emit_all encodes bs t) in (open_trace w.disk).1 ≡ ok (reopened w.disk)
  open_trace-emit_all d t encodes bs h =
      let w = emit_all encodes bs t in
      reopen w.disk.lines w.disk.locked w.seq w.closed
        (emit_all-IsSequenced encodes bs t (open_trace-IsSequenced d t h))
