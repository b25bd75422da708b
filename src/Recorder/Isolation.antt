-- ===== src/Recorder/Isolation.antt =====
-- `TickRecorder` of recording.py isolates the failures of its video from the experiment.
use llm_vs_zombies.Base.{
  ℕ, zero, suc, ltb, not, ◌&&◌, ◌∙◌, ◌≡◌, ◌≢◌, refl, sym, subst, ◌-◌, true, false, Option, none,
  some, List, String, str_eq, ok, Bool-cases, Option-cases, ==→eq, ◌==◌, and-eq_true, inl, inr,
}
use llm_vs_zombies.Video.Types.{
  Content, Reason, missing_grid_tick, given, TickStamp, eq_stamp, VideoFrame, Video, Encoder,
  value_error, video_error,
}
use llm_vs_zombies.Video.Frames.{
  Step, and_then, encode, drop_one, fill_gap, check_stamp, submit, drop, is_acceptable,
  submit_accepted, refused,
}
use llm_vs_zombies.Recorder.{
  Answer, frame, unavailable, broken, escapes, Status, Recorder, Outcome, video_failure, drop_frame,
  submit_frame, capture_frame, record_tick,
}

-- a return value, whatever it is
abbrev pub Returns : Outcome → Type 0
Returns o = (s : Status) × (o.1 ≡ ok s)

-- a step that raises raises a `VideoError`
record OnlyVideo (s : Step) : Type 0 where
  pub only : s.1 ≢ some value_error

fine : (v : Video) → OnlyVideo (v, none)
fine v = record { only = λ e. cc }

OnlyVideo-and_then :
    (s : Step) (next : Video → Step)
    → OnlyVideo s
    → ((v : Video) → OnlyVideo (next v))
    → OnlyVideo (and_then s next)
unfolding and_then
OnlyVideo-and_then (v, none) next h k = k v
OnlyVideo-and_then (v, some e) next h k = record { only = h.only }

module _ (enc : Encoder) where
  encode-OnlyVideo :
      (v : Video) (stamp : TickStamp) (pixels : List ℕ) (kind : Content) (reason : Option Reason)
      (source : Option TickStamp)
      → OnlyVideo (encode enc v stamp pixels kind reason source)
  unfolding encode
  encode-OnlyVideo v stamp pixels kind reason source =
      elim (Bool-cases (v.writer && not (enc.writes v.frame_count))) [
        | inl x ↦ rw x (record { only = λ e. cc })
        | inr x ↦ rw x (fine _)
      ]

  drop_one-OnlyVideo :
      (v : Video) (stamp : TickStamp) (reason : Reason) → OnlyVideo (drop_one enc v stamp reason)
  unfolding drop_one
  drop_one-OnlyVideo v stamp reason =
      OnlyVideo-and_then _ _ (encode-OnlyVideo v stamp _ _ _ _) (λ w. fine _)

  fill_gap-OnlyVideo :
      (fuel : ℕ) (stamp : TickStamp) (v : Video) → OnlyVideo (fill_gap enc fuel stamp v)
  unfolding fill_gap
  fill_gap-OnlyVideo zero stamp v = fine _
  fill_gap-OnlyVideo (suc fuel) stamp v = elim (Bool-cases (ltb v.next_tick stamp.tick)) [
    | inl x ↦ rw x (
        OnlyVideo-and_then _ _ (drop_one-OnlyVideo v _ missing_grid_tick)
          (fill_gap-OnlyVideo fuel stamp))
    | inr x ↦ rw x (fine _)
  ]

  submit_accepted-OnlyVideo : (v : Video) (f : VideoFrame) → OnlyVideo (submit_accepted enc v f)
  unfolding submit_accepted
  submit_accepted-OnlyVideo v f =
      OnlyVideo-and_then _ _ (fill_gap-OnlyVideo (f.stamp.tick - v.next_tick) f.stamp v)
        λ w. OnlyVideo-and_then _ _ (encode-OnlyVideo w f.stamp _ _ _ _) (λ x. fine _)

  -- `drop` raises no `ValueError` of its own, for a stamp that was checked and a reason
  drop-OnlyVideo :
      (v : Video) (stamp : TickStamp) (reason : String)
      → check_stamp v stamp ≡ none
      → str_eq reason "" ≡ false
      → OnlyVideo (drop enc v stamp reason)
  unfolding drop
  drop-OnlyVideo v stamp reason h n =
      rw (drop, h, n)
        (OnlyVideo-and_then _ _ (fill_gap-OnlyVideo (stamp.tick - v.next_tick) stamp v)
          (λ w. drop_one-OnlyVideo w stamp (given reason)))

  -- a frame that `submit` refuses leaves the check of stamps as it is
  check_stamp-refused :
      (v : Video) (f : VideoFrame) (stamp : TickStamp)
      → check_stamp (refused v f).0 stamp ≡ check_stamp v stamp
  unfolding check_stamp
  check_stamp-refused v f stamp = elim (Bool-cases v.closed) [
    | inl x ↦ simp x refl
    | inr x ↦ simp x refl
  ]

  check_stamp-submit :
      (v : Video) (f : VideoFrame)
      → check_stamp v f.stamp ≡ none
      → (submit enc v f).1 ≡ some value_error
      → check_stamp (submit enc v f).0 f.stamp ≡ none
  unfolding submit
  check_stamp-submit v f h = elim (Bool-cases (is_acceptable v f)) [
    | inl x ↦ rw (submit, h, x) (λ e. absurd ((submit_accepted-OnlyVideo v f).only e))
    | inr x ↦ rw (submit, h, x) (λ e. check_stamp-refused v f f.stamp ∙ h)
  ]

module _ (enc : Encoder) (stamp : TickStamp) where
  video_failure-Returns :
      (r : Recorder) → r.continue_on_video_error ≡ true → Returns (video_failure stamp r)
  unfolding video_failure
  video_failure-Returns r c = rw c (_, refl)

  drop_frame-Returns :
      (reason : String) (r : Recorder) (v : Video)
      → r.continue_on_video_error ≡ true
      → OnlyVideo (drop enc v stamp reason)
      → Returns (drop_frame enc stamp reason r v)
  unfolding drop_frame
  drop_frame-Returns reason r v c n = elim (Option-cases (drop enc v stamp reason).1) [
    | inl e ↦ rw (drop_frame, e) (_, refl)
    | inr (video_error, e) ↦
        rw (drop_frame, e)
          (video_failure-Returns (record r { video = some (drop enc v stamp reason).0 }) c)
    | inr (value_error, e) ↦ absurd (n.only e)
  ]

  submit_frame-Returns :
      (refusal : String) (f : VideoFrame) (r : Recorder) (v : Video)
      → r.continue_on_video_error ≡ true
      → str_eq refusal "" ≡ false
      → f.stamp ≡ stamp
      → check_stamp v stamp ≡ none
      → Returns (submit_frame enc stamp refusal f r v)
  unfolding submit_frame
  submit_frame-Returns refusal f r v c n q h =
      let at_frame : check_stamp v f.stamp ≡ none = subst (λ s. check_stamp v s ≡ none) (sym q) h in
      elim (Option-cases (submit enc v f).1) [
        | inl e ↦ rw (submit_frame, e) (_, refl)
        | inr (video_error, e) ↦
            rw (submit_frame, e)
              (video_failure-Returns (record r { video = some (submit enc v f).0 }) c)
        | inr (value_error, e) ↦
            rw (submit_frame, e)
              (drop_frame-Returns refusal (record r { video = some (submit enc v f).0 })
                (submit enc v f).0 c
                (drop-OnlyVideo enc _ stamp refusal
                  (subst (λ s. check_stamp (submit enc v f).0 s ≡ none) q
                    (check_stamp-submit enc v f at_frame e))
                  n))
      ]

  eq_stamp-eq : (a b : TickStamp) → eq_stamp a b ≡ true → a ≡ b
  eq_stamp-eq a b h =
      let first = and-eq_true _ _ h in
      let rest = and-eq_true (a.tick == b.tick) (a.revision == b.revision) first.1 in
      let e = ==→eq a.epoch b.epoch first.0 in
      let t = ==→eq a.tick b.tick rest.0 in
      let r = ==→eq a.revision b.revision rest.1 in
      λ i. record { epoch = e i; tick = t i; revision = r i }

  -- a frame, an exception of the video's kind, or a reason that is not empty
  abbrev pub HasReason : Answer → Type 0
  HasReason (frame f) = Unit
  HasReason (unavailable reason) = str_eq reason "" ≡ false
  HasReason broken = Unit
  HasReason escapes = ⊥

  capture_frame-Returns :
      (answer : Answer) (other_boundary refusal : String) (r : Recorder) (v : Video)
      → r.continue_on_video_error ≡ true
      → HasReason answer
      → str_eq other_boundary "" ≡ false
      → str_eq refusal "" ≡ false
      → check_stamp v stamp ≡ none
      → Returns (capture_frame enc stamp answer other_boundary refusal r v)
  unfolding capture_frame
  capture_frame-Returns (unavailable reason) other refusal r v c n o m h =
      drop_frame-Returns reason r v c (drop-OnlyVideo enc v stamp reason h n)
  capture_frame-Returns broken other refusal r v c n o m h = video_failure-Returns r c
  capture_frame-Returns escapes other refusal r v c n o m h = elim n [ ]
  capture_frame-Returns (frame f) other refusal r v c n o m h =
      elim (Bool-cases (eq_stamp f.stamp stamp)) [
        | inl e ↦ rw e (submit_frame-Returns refusal f r v c m (eq_stamp-eq _ _ e) h)
        | inr e ↦ rw e (drop_frame-Returns other r v c (drop-OnlyVideo enc v stamp other h o))
      ]

  -- An open recorder that continues on video errors returns from `record` and raises nothing, whatever
  -- the encoder does, if the stamp passes the video's check and the provider gives a frame of any
  -- boundary or shape, raises a `VideoError` or an `OSError`, or has no frame for a reason that is not
  -- an empty text. The texts of the code's own refusals are not empty either.
  pub record_tick-Returns :
      (answer : Answer) (other_boundary refusal : String) (r : Recorder)
      → r.closed ≡ false
      → r.continue_on_video_error ≡ true
      → ((v : Video) → r.video ≡ some v → check_stamp v stamp ≡ none)
      → HasReason answer
      → str_eq other_boundary "" ≡ false
      → str_eq refusal "" ≡ false
      → Returns (record_tick enc stamp answer other_boundary refusal r)
  unfolding record_tick
  record_tick-Returns answer other refusal r k c h n o m = elim (Option-cases r.video) [
    | inl e ↦ simp (record_tick, k, e) (_, refl)
    | inr (v, e) ↦ elim (Bool-cases r.failed) [
      | inl x ↦ simp (record_tick, k, e, x) (_, refl)
      | inr x ↦
          simp (record_tick, k, e, x, h v e)
            (capture_frame-Returns answer other refusal r v c n o m (h v e))
    ]
  ]
