-- ===== src/Video/Opening.antt =====
-- `StreamingVideo.__init__` of video.py. Negative integers, which `_integer` refuses, are outside
-- the model's range; `mp4` is the test of the suffix, `exists` that an artifact is there already
-- and `patient` that the timeout is positive.
use llm_vs_zombies.Base.{
  ◌*◌, ◌%◌, ◌==◌, Bool, true, false, ◌||◌, not, none, [], ltb, Result, ok, err, ◌>>◌, raise_if,
}
use llm_vs_zombies.Video.Types.{
  other_format, other_source, eq_format, eq_source, Config, Video, Status, disabled, recording, fps,
  save_manifest,
}

pub data OpenError : Type 0 where
  bad_suffix bad_integer bad_dimensions bad_labels bad_pace bad_rate exists_already : OpenError
  ffmpeg_unavailable ffmpeg_failed : OpenError

-- how the search for FFmpeg and its start end
pub data Ffmpeg : Type 0 where
  missing unstartable started : Ffmpeg

pub record Surroundings : Type 0 where
  pub mp4 : Bool
  pub exists : Bool
  pub patient : Bool
  pub optional : Bool
  pub ffmpeg : Ffmpeg

abbrev pub new_video : Config → Status → Bool → Video
new_video c status writer = record {
  config = c;
  next_tick = c.start_tick;
  frame_count = 0;
  dropped_count = 0;
  rejected_count = 0;
  content_count = 0;
  previous = none;
  status = status;
  closed = false;
  writer = writer;
  mapping = [];
  manifest = none;
}

-- the checks of the numbers and the labels
unfoldable pub check_config : Config → Bool → Result OpenError (Unit {0})
check_config c patient = do
  raise_if (ltb c.width 2 || (ltb c.height 2 || (ltb c.tick_stride 1 || ltb c.ticks_per_second 1)))
      bad_integer
  raise_if
      (not (c.width % 2 == 0)
        || (not (c.height % 2 == 0) || (ltb 8192 c.width || ltb 8192 c.height)))
      bad_dimensions
  raise_if (eq_format c.pixel_format other_format || eq_source c.source other_source) bad_labels
  raise_if (c.slowdown.num == 0 || not patient) bad_pace
  raise_if (ltb ((fps c).num * 1000) (fps c).den || ltb (1000 * (fps c).den) (fps c).num) bad_rate

-- the start of the encoder; a video without FFmpeg is disabled, unless it must have one
unfoldable pub launch : Config → Ffmpeg → Bool → Result OpenError Video
launch c missing true = ok (save_manifest (new_video c disabled false))
launch c missing false = err ffmpeg_unavailable
launch c unstartable optional = err ffmpeg_failed
launch c started optional = ok (save_manifest (new_video c recording true))

-- `__init__`
unfoldable pub open_video : Config → Surroundings → Result OpenError Video
unfolding check_config launch
open_video c s = do
  raise_if (not s.mp4) bad_suffix
  check_config c s.patient
  raise_if s.exists exists_already
  launch c s.ffmpeg s.optional
