-- ===== src/Video/Submitting.antt =====
-- What `submit`, `drop` and `close` of video.py leave of the timeline, on every branch.
use llm_vs_zombies.Base.{
  ℕ, zero, suc, ◌+◌, ◌*◌, ◌≤◌, ◌≡◌, refl, subst, sym, ◌∙◌, none, String, str_eq, arith, Bool-cases,
  Option-cases, inl, inr, ◌&&◌, not,
}
use llm_vs_zombies.Video.Types.{
  TickStamp, VideoFrame, frame_rejected, close_failure, Config, Video, Encoder, value_error,
  video_error, given,
}
use llm_vs_zombies.Video.Frames.{
  check_stamp, fill, submit, submit_accepted, drop, close, refused, is_acceptable,
}
use llm_vs_zombies.Video.Timeline.{
  IsTimeline, Leaves, Leaves-none, Leaves-some, Leaves-and_then, Leaves-weaken, noted, IsDropped,
  encode-IsNext, drop_one-IsTimeline, fill_gap-IsDropped, IsChecked, check_stamp-IsChecked,
}

-- what `submit` leaves where it raises nothing
pub record IsSubmitted (v : Video) (f : VideoFrame) (w : Video) : Type 0 where
  pub timeline : IsTimeline v.config 0 w
  pub content : w.content_count ≡ v.content_count + 1
  pub next : w.next_tick ≡ f.stamp.tick + v.config.tick_stride
  pub bounded : w.frame_count ≤ v.frame_count + v.config.max_gap_frames + 1

-- what `drop` leaves where it raises nothing
pub record IsSkipped (v : Video) (stamp : TickStamp) (w : Video) : Type 0 where
  pub timeline : IsTimeline v.config 0 w
  pub content : w.content_count ≡ v.content_count
  pub next : w.next_tick ≡ stamp.tick + v.config.tick_stride
  pub bounded : w.frame_count ≤ v.frame_count + v.config.max_gap_frames + 1

le-mul : (n d : ℕ) → 1 ≤ d → n ≤ n * d
le-mul n zero h = omega (arith, h)
le-mul n (suc d) h = omega arith

-- the counts of the timeline do not include refused frames, the status or the manifest
same-IsTimeline :
    (c : Config) (v w : Video)
    → IsTimeline c 0 v
    → w ≡ record v {
      status = w.status;
      closed = w.closed;
      rejected_count = w.rejected_count;
      manifest = w.manifest;
    }
    → IsTimeline c 0 w
same-IsTimeline c v w h q = subst (IsTimeline c 0) (sym q) (record {
  config_is = h.config_is;
  grid = h.grid;
  count = h.count;
  written = h.written;
  numbered = h.numbered;
})

module _ (enc : Encoder) (v : Video) (h : IsTimeline v.config 0 v)
    (s : 1 ≤ v.config.tick_stride) where
  fill-IsDropped :
      (stamp : TickStamp) (k : IsChecked v.config v stamp)
      → Leaves (IsTimeline v.config 0) (IsDropped v.config v k.gap) (fill enc stamp v)
  fill-IsDropped stamp k =
      fill_gap-IsDropped enc v.config _ k.gap v stamp h s k.tick
        (omega (arith, k.tick, le-mul k.gap v.config.tick_stride s))

  submit_accepted-IsSubmitted :
      (f : VideoFrame)
      → IsChecked v.config v f.stamp
      → Leaves (IsTimeline v.config 0) (IsSubmitted v f) (submit_accepted enc v f)
  unfolding submit_accepted
  submit_accepted-IsSubmitted f k = Leaves-and_then _ _ _ _ _ (fill-IsDropped f.stamp k) λ w d.
      Leaves-and_then _ _ _ _ _
        (encode-IsNext enc v.config w f.stamp _ _ _ _ d.timeline (omega (arith, k.tick, d.moved))
          k.epoch)
        λ x n. Leaves-none _ _ _ (record {
          timeline = record {
            config_is = n.timeline.config_is;
            grid = n.timeline.grid;
            count = omega (arith, n.timeline.count);
            written = n.timeline.written;
            numbered = n.timeline.numbered;
          };
          content = omega (arith, n.content, d.content);
          next = omega (arith, n.moved, d.moved, k.tick);
          bounded = omega (arith, n.one_more, d.more, k.bounded);
        })

  refused-IsTimeline :
      (f : VideoFrame) → Leaves (IsTimeline v.config 0) (IsSubmitted v f) (refused v f)
  refused-IsTimeline f = elim (Bool-cases v.closed) [
    | inl x ↦ Leaves-some _ _ _ _ (rw x (same-IsTimeline v.config v _ h refl))
    | inr x ↦ Leaves-some _ _ _ _ (rw x (noted v.config 0 v _ (frame_rejected f.stamp) h refl refl))
  ]

  pub submit-IsSubmitted :
      (f : VideoFrame) → Leaves (IsTimeline v.config 0) (IsSubmitted v f) (submit enc v f)
  unfolding submit
  submit-IsSubmitted f = elim (Option-cases (check_stamp v f.stamp)) [
    | inl e ↦ elim (Bool-cases (is_acceptable v f)) [
      | inl x ↦
          rw (submit, e, x) (submit_accepted-IsSubmitted f (check_stamp-IsChecked v f.stamp h s e))
      | inr x ↦ rw (submit, e, x) (refused-IsTimeline f)
    ]
    | inr (video_error, e) ↦ rw (submit, e) (Leaves-some _ _ _ _ h)
    | inr (value_error, e) ↦ rw (submit, e) (refused-IsTimeline f)
  ]

  pub drop-IsSkipped :
      (stamp : TickStamp) (reason : String)
      → Leaves (IsTimeline v.config 0) (IsSkipped v stamp) (drop enc v stamp reason)
  unfolding drop
  drop-IsSkipped stamp reason = elim (Option-cases (check_stamp v stamp)) [
    | inl e ↦
        rw (drop, e)
          (elim (Bool-cases (str_eq reason "")) [
            | inl x ↦ rw x (Leaves-some _ _ _ _ h)
            | inr x ↦
                let k = check_stamp-IsChecked v stamp h s e in
                rw x (
                  Leaves-and_then _ _ _ _ _ (fill-IsDropped stamp k) λ w d.
                    Leaves-weaken _ _ _ _
                      (drop_one-IsTimeline enc v.config w stamp (given reason) d.timeline
                        (omega (arith, k.tick, d.moved)) k.epoch)
                      λ x p. record {
                        timeline = p.timeline;
                        content = p.content ∙ d.content;
                        next = omega (arith, p.moved, d.moved, k.tick);
                        bounded = omega (arith, p.more, d.more, k.bounded);
                      })
          ])
    | inr (r, e) ↦ rw (drop, e) (Leaves-some _ _ _ _ h)
  ]

  pub close-IsTimeline : IsTimeline v.config 0 (close enc v).0
  unfolding close
  close-IsTimeline = elim (Bool-cases v.closed) [
    | inl x ↦ rw x (same-IsTimeline v.config v _ h refl)
    | inr x ↦ elim (Bool-cases (v.writer && not enc.finishes)) [
      | inl y ↦ rw (x, y) (noted v.config 0 v _ close_failure h refl refl)
      | inr y ↦ rw (x, y) (same-IsTimeline v.config v _ h refl)
    ]
  ]

  -- A `submit` that raises nothing, on a timeline with a positive stride, counts one content
  -- frame, moves the next tick one stride past the frame's, keeps the timeline and writes at most
  -- `max_gap_frames` frames besides its own.
  pub submit-timeline :
      (f : VideoFrame) → (submit enc v f).1 ≡ none → IsSubmitted v f (submit enc v f).0
  submit-timeline f e = (submit-IsSubmitted f).done e

  -- A `drop` that raises nothing, on a timeline with a positive stride, counts no content,
  -- moves the next tick one stride past the stamp's, keeps the timeline and writes at most
  -- `max_gap_frames` frames besides its own.
  pub drop-timeline :
      (stamp : TickStamp) (reason : String)
      → (drop enc v stamp reason).1 ≡ none
      → IsSkipped v stamp (drop enc v stamp reason).0
  drop-timeline stamp reason e = (drop-IsSkipped stamp reason).done e
