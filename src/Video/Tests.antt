-- ===== src/Video/Tests.antt =====
-- The video theorems at concrete inputs.
use llm_vs_zombies.Base.{
  ℕ, ◌≤◌, ◌≡◌, refl, true, false, none, some, List, [], ◌∷◌, arith, ◌↔◌, ok, ◌>>=◌, replicate,
}
use llm_vs_zombies.Video.Types.{
  TickStamp, VideoFrame, rgb24, synthetic_fixture, Config, Video, Encoder, video_error, recording,
  complete, save_manifest,
}
use llm_vs_zombies.Video.Frames.{submit, drop, close}
use llm_vs_zombies.Video.Opening.{
  Surroundings, started, open_video, new_video, launch, check_config,
}
use llm_vs_zombies.Video.Timeline.{IsTimeline}
use llm_vs_zombies.Video.Submitting.{
  IsSubmitted, IsSkipped, submit-IsSubmitted, submit-timeline, drop-timeline,
}
use llm_vs_zombies.Video.Session.{
  Call, submit_call, drop_call, close_call, calls, video_calls-IsTimeline,
}
use llm_vs_zombies.Video.Closing.{close-complete, close-final}

abbrev small : Config
small = record {
  width = 2;
  height = 2;
  epoch = 1;
  start_tick = 100;
  tick_stride = 10;
  ticks_per_second = 100;
  slowdown = record { num = 1; den = 1 };
  pixel_format = rgb24;
  source = synthetic_fixture;
  max_gap_frames = 5;
  controlled = false;
}

abbrev here : Surroundings
here = record { mp4 = true; exists = false; patient = true; optional = false; ffmpeg = started }

abbrev willing : Encoder
willing = record { writes = λ i. true; finishes = true }

abbrev at_tick : ℕ → TickStamp
at_tick t = record { epoch = 1; tick = t; revision = 0 }

abbrev picture : ℕ → VideoFrame
picture t = record {
  stamp = at_tick t;
  width = 2;
  height = 2;
  pixel_format = rgb24;
  pixels = replicate 12 9;
  source = synthetic_fixture;
  metadata = record {
    controlled_mode = false;
    cached_method = false;
    unforced = false;
    frame_version = none;
    finite = true;
  };
}

abbrev begun : Video
begun = save_manifest (new_video small recording true)

open_video-small : open_video small here ≡ ok begun
unfolding open_video check_config launch ◌>>=◌
open_video-small = refl

begun-IsTimeline : IsTimeline small 0 begun
begun-IsTimeline = record {
  config_is = refl;
  grid = omega arith;
  count = refl;
  written = refl;
  numbered = tt;
}

abbrev three_calls : List Call
three_calls = submit_call (picture 120) ∷ drop_call (at_tick 130) "paused" ∷ close_call ∷ []

video_calls-IsTimeline_example : IsTimeline small 0 (calls willing three_calls begun)
video_calls-IsTimeline_example =
    video_calls-IsTimeline willing small here begun three_calls open_video-small

submit-timeline_example : IsSubmitted begun (picture 120) (submit willing begun (picture 120)).0
unfolding submit
submit-timeline_example =
    submit-timeline willing begun begun-IsTimeline (omega arith) (picture 120) refl

drop-timeline_example : IsSkipped begun (at_tick 130) (drop willing begun (at_tick 130) "paused").0
unfolding drop
drop-timeline_example =
    drop-timeline willing begun begun-IsTimeline (omega arith) (at_tick 130) "paused" refl

abbrev filmed : Video
unfolding submit
filmed = (submit willing begun (picture 100)).0

filmed-IsTimeline : IsTimeline small 0 filmed
unfolding submit
filmed-IsTimeline =
    ((submit-IsSubmitted willing begun begun-IsTimeline (omega arith) (picture 100)).done
      refl).timeline

close-complete_example : (((close willing filmed).0).status ≡ complete) ↔ (
    (willing.finishes ≡ true)
    × (1 ≤ filmed.frame_count)
    × (filmed.content_count ≡ filmed.frame_count))
unfolding filmed
close-complete_example = close-complete willing filmed filmed-IsTimeline refl refl refl

close-final_example :
    let w = (close willing begun).0 in
    (submit willing w (picture 120) ≡ (w, some video_error))
    × (drop willing w (at_tick 130) "paused" ≡ (w, some video_error))
    × (close willing w ≡ (w, none))
close-final_example = close-final willing begun (picture 120) (at_tick 130) "paused"
