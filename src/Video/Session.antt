-- ===== src/Video/Session.antt =====
-- A video from `__init__` of video.py through any sequence of calls, whose exceptions the caller
-- may catch.
use llm_vs_zombies.Base.{
  ◌≤◌, ◌≡◌, refl, subst, sym, Bool, true, false, none, some, List, [], ◌∷◌, String, arith, ok,
  ◌>>=◌, >>=-eq-ok, ok-injective,
}
use llm_vs_zombies.Video.Types.{
  TickStamp, VideoFrame, Config, Video, Encoder, Status, recording, disabled, save_manifest,
}
use llm_vs_zombies.Video.Frames.{Step, submit, drop, close}
use llm_vs_zombies.Video.Opening.{
  Surroundings, open_video, new_video, check_config, launch, Ffmpeg, missing, unstartable, started,
}
use llm_vs_zombies.Video.Timeline.{IsTimeline, Leaves}
use llm_vs_zombies.Video.Submitting.{submit-IsSubmitted, drop-IsSkipped, close-IsTimeline}

-- a call of a method of the video
pub data Call : Type 0 where
  submit_call : VideoFrame → Call
  drop_call : TickStamp → String → Call
  close_call : Call

fresh :
    (c : Config) (status : Status) (writer : Bool)
    → IsTimeline c 0 (save_manifest (new_video c status writer))
fresh c status writer = record {
  config_is = refl;
  grid = omega arith;
  count = refl;
  written = refl;
  numbered = tt;
}

launch-IsTimeline :
    (c : Config) (f : Ffmpeg) (optional : Bool) (v : Video)
    → launch c f optional ≡ ok v
    → IsTimeline c 0 v
unfolding launch
launch-IsTimeline c missing true v h =
    subst (IsTimeline c 0) (ok-injective h) (fresh c disabled false)
launch-IsTimeline c missing false v h = cc
launch-IsTimeline c unstartable optional v h = cc
launch-IsTimeline c started optional v h =
    subst (IsTimeline c 0) (ok-injective h) (fresh c recording true)

check_config-stride :
    (c : Config) (patient : Bool) → check_config c patient ≡ ok tt → 1 ≤ c.tick_stride
unfolding check_config ◌>>=◌
check_config-stride c patient h = ground (arith, h)

open_video-IsTimeline :
    (c : Config) (s : Surroundings) (v : Video)
    → open_video c s ≡ ok v
    → (1 ≤ c.tick_stride) × IsTimeline c 0 v
unfolding open_video
open_video-IsTimeline c s v h =
    let (_, _, h1) = >>=-eq-ok _ _ h in
    let (_, checked, h2) = >>=-eq-ok _ _ h1 in
    let (_, _, h3) = >>=-eq-ok _ _ h2 in
    (check_config-stride c s.patient checked, launch-IsTimeline c s.ffmpeg s.optional v h3)

module _ (enc : Encoder) where
  abbrev pub call : Call → Video → Video
  call (submit_call f) v = (submit enc v f).0
  call (drop_call stamp reason) v = (drop enc v stamp reason).0
  call close_call v = (close enc v).0

  abbrev pub calls : List Call → Video → Video
  calls [] v = v
  calls (k ∷ ks) v = calls ks (call k v)

  either :
      (c : Config) (Q : Video → Type 0) (s : Step)
      → Leaves (IsTimeline c 0) Q s
      → ((w : Video) → Q w → IsTimeline c 0 w)
      → IsTimeline c 0 s.0
  either c Q (w, none) h k = k w (h.done refl)
  either c Q (w, some e) h k = h.raised e refl

  call-IsTimeline :
      (k : Call) (v : Video)
      → IsTimeline v.config 0 v
      → 1 ≤ v.config.tick_stride
      → IsTimeline v.config 0 (call k v)
  call-IsTimeline (submit_call f) v h s =
      either _ _ _ (submit-IsSubmitted enc v h s f) λ w q. q.timeline
  call-IsTimeline (drop_call stamp reason) v h s =
      either _ _ _ (drop-IsSkipped enc v h s stamp reason) λ w q. q.timeline
  call-IsTimeline close_call v h s = close-IsTimeline enc v h s

  calls-IsTimeline :
      (ks : List Call) (v : Video)
      → IsTimeline v.config 0 v
      → 1 ≤ v.config.tick_stride
      → IsTimeline v.config 0 (calls ks v)
  calls-IsTimeline [] v h s = h
  calls-IsTimeline (k ∷ ks) v h s =
      let next = call-IsTimeline k v h s in
      subst (λ c. IsTimeline c 0 (calls ks (call k v))) next.config_is
        (calls-IsTimeline ks (call k v)
          (subst (λ c. IsTimeline c 0 (call k v)) (sym next.config_is) next)
          (subst (λ c. 1 ≤ c.tick_stride) (sym next.config_is) s))

  -- From `__init__` on, through any sequence of `submit`, `drop` and `close` and whatever the encoder
  -- answers, the sidecar's frame lines are numbered from 0 without a gap, line `i` stands at tick
  -- start_tick + i * tick_stride of the video's epoch with a presentation time that is its
  -- simulation time under the slowdown, and the counts and the next tick agree with the lines.
  pub video_calls-IsTimeline :
      (c : Config) (s : Surroundings) (v : Video) (ks : List Call)
      → open_video c s ≡ ok v
      → IsTimeline c 0 (calls ks v)
  video_calls-IsTimeline c s v ks h =
      let (stride, fresh) = open_video-IsTimeline c s v h in
      subst (λ d. IsTimeline d 0 (calls ks v)) fresh.config_is
        (calls-IsTimeline ks v (subst (λ d. IsTimeline d 0 v) (sym fresh.config_is) fresh)
          (subst (λ d. 1 ≤ d.tick_stride) (sym fresh.config_is) stride))
