-- ===== src/Video/Closing.antt =====
-- What the end of a video of video.py says: the final status, and a closed video's refusals.
use llm_vs_zombies.Base.{
  ◌≤◌, ◌≡◌, refl, true, false, none, some, String, arith, Bool-cases, ◌&&◌, not, inl, inr, ◌↔◌,
}
use llm_vs_zombies.Video.Types.{
  TickStamp, VideoFrame, Video, Encoder, video_error, recording, complete,
}
use llm_vs_zombies.Video.Frames.{check_stamp, submit, drop, close}
use llm_vs_zombies.Video.Timeline.{IsTimeline}

module _ (enc : Encoder) where
  -- A recording video that is on its timeline closes as `complete` exactly when the encoder ends
  -- well and the video has frames, each of them a submitted one.
  pub close-complete :
      (v : Video)
      → IsTimeline v.config 0 v
      → v.closed ≡ false
      → v.writer ≡ true
      → v.status ≡ recording
      → (((close enc v).0).status ≡ complete)
        ↔ ((enc.finishes ≡ true) × (1 ≤ v.frame_count) × (v.content_count ≡ v.frame_count))
  unfolding close
  close-complete v h c w s =
      (λ e. ground (arith, e, h.count, c, w, s), λ p. ground (arith, p, h.count, c, w, s))

  -- Once `close` has returned or raised, every `submit` and `drop` raises a `VideoError` and leaves
  -- the object as it is, and a further `close` returns and changes nothing.
  pub close-final :
      (v : Video) (f : VideoFrame) (stamp : TickStamp) (reason : String)
      → let w = (close enc v).0 in
        (submit enc w f ≡ (w, some video_error))
        × (drop enc w stamp reason ≡ (w, some video_error))
        × (close enc w ≡ (w, none))
  unfolding close submit drop check_stamp
  close-final v f stamp reason = elim (Bool-cases v.closed) [
    | inl x ↦ simp x (refl, refl, refl)
    | inr x ↦ elim (Bool-cases (v.writer && not enc.finishes)) [
      | inl y ↦ simp (x, y) (refl, refl, refl)
      | inr y ↦ simp (x, y) (refl, refl, refl)
    ]
  ]
