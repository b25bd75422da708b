-- ===== src/Trace/Tests.antt =====
-- The trace theorem at a concrete file.
use llm_vs_zombies.Base.{ℕ, ◌≡◌, refl, Bool, true, false, not, [], ◌∷◌, ok, ◌==◌, ◌>>=◌}
use llm_vs_zombies.Trace
use llm_vs_zombies.Trace.{Entry, Line, whole, Disk, open_trace, close, emit_all}
use llm_vs_zombies.Trace.Reopening.{reopened, open_trace-emit_all}

abbrev first : Line ℕ
first = whole (record { schema = 1; seq = 0; body = 5 })

abbrev disk : Disk ℕ
disk = record { lines = first ∷ []; locked = false }

abbrev trace : Trace.Trace ℕ
trace = record { disk = record { lines = first ∷ []; locked = true }; seq = 1; closed = false }

-- a value that JSON refuses
abbrev encodes : ℕ → Bool
encodes n = not (n == 0)

open_trace-disk : (open_trace disk).1 ≡ ok trace
unfolding open_trace ◌>>=◌
open_trace-disk = refl

open_trace-emit_all_example :
    let w = close (emit_all encodes (4 ∷ 0 ∷ 6 ∷ []) trace) in
    (open_trace w.disk).1 ≡ ok (reopened w.disk)
open_trace-emit_all_example =
    open_trace-emit_all disk trace encodes (4 ∷ 0 ∷ 6 ∷ []) open_trace-disk
