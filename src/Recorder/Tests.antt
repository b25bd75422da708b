-- ===== src/Recorder/Tests.antt =====
-- The recorder theorem where the provider has no frame and the encoder fails.
use llm_vs_zombies.Base.{◌≡◌, refl, true, false, none, some, [], subst, some-injective}
use llm_vs_zombies.Video.Types.{
  TickStamp, rgb24, synthetic_fixture, Config, Video, Encoder, recording,
}
use llm_vs_zombies.Video.Frames.{check_stamp}
use llm_vs_zombies.Video.Opening.{new_video}
use llm_vs_zombies.Recorder.{Recorder, unavailable, record_tick}
use llm_vs_zombies.Recorder.Isolation.{Returns, record_tick-Returns}

abbrev small : Config
small = record {
  width = 2;
  height = 2;
  epoch = 0;
  start_tick = 0;
  tick_stride = 10;
  ticks_per_second = 100;
  slowdown = record { num = 1; den = 1 };
  pixel_format = rgb24;
  source = synthetic_fixture;
  max_gap_frames = 5;
  controlled = false;
}

abbrev video : Video
video = new_video small recording true

abbrev stamp : TickStamp
stamp = record { epoch = 0; tick = 20; revision = 0 }

abbrev failing : Encoder
failing = record { writes = λ i. false; finishes = false }

abbrev recorder : Recorder
recorder = record {
  video = some video;
  continue_on_video_error = true;
  failed = false;
  closed = false;
  events = [];
}

check_stamp-video : check_stamp video stamp ≡ none
unfolding check_stamp
check_stamp-video = refl

record_tick-Returns_example :
    Returns
      (record_tick failing stamp (unavailable "no frame") "another boundary" "refused" recorder)
record_tick-Returns_example =
    record_tick-Returns failing stamp (unavailable "no frame") "another boundary" "refused" recorder
      refl refl
      (λ v e. subst (λ w. check_stamp w stamp ≡ none) (some-injective _ _ e) check_stamp-video) refl
      refl refl
