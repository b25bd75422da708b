-- ===== src/Video/Types.antt =====
-- The data of video.py. The encoder (an FFmpeg process behind a pipe), SHA-256 and the files are
-- outside: `Encoder` says how the encoder answers, and the sidecar and the manifest are values.
use llm_vs_zombies.Base.{
  ℕ, ◌*◌, ◌==◌, Bool, true, false, ◌&&◌, not, Option, some, List, String, ltb, if◌then◌else◌,
}

pub record TickStamp : Type 0 where
  pub epoch : ℕ
  pub tick : ℕ
  pub revision : ℕ

abbrev pub eq_stamp : TickStamp → TickStamp → Bool
eq_stamp a b = a.epoch == b.epoch && (a.tick == b.tick && a.revision == b.revision)

-- What the code reads of a frame's metadata: `controlled_mode` is `mode == DRAW_MODE`,
-- `cached_method` the comparison of `method`, `unforced` is `forced_render is False`, and `finite`
-- that `json.dumps(metadata, allow_nan=False)` returns.
pub record Metadata : Type 0 where
  pub controlled_mode : Bool
  pub cached_method : Bool
  pub unforced : Bool
  pub frame_version : Option TickStamp
  pub finite : Bool

pub data PixelFormat : Type 0 where
  rgb24 bgr24 other_format : PixelFormat

pub data Source : Type 0 where
  original_game_frame state_visualization synthetic_fixture other_source : Source

abbrev pub eq_format : PixelFormat → PixelFormat → Bool
eq_format rgb24 rgb24 = true
eq_format bgr24 bgr24 = true
eq_format other_format other_format = true
eq_format _ _ = false

abbrev pub eq_source : Source → Source → Bool
eq_source original_game_frame original_game_frame = true
eq_source state_visualization state_visualization = true
eq_source synthetic_fixture synthetic_fixture = true
eq_source other_source other_source = true
eq_source _ _ = false

pub record VideoFrame : Type 0 where
  pub stamp : TickStamp
  pub width : ℕ
  pub height : ℕ
  pub pixel_format : PixelFormat
  pub pixels : List ℕ
  pub source : Source
  pub metadata : Metadata

pub data Content : Type 0 where
  captured generated held blank : Content

pub data Reason : Type 0 where
  missing_grid_tick : Reason
  given : String → Reason

-- A `Fraction` before it is reduced.
pub record Fraction : Type 0 where
  pub num : ℕ
  pub den : ℕ

-- the lines of the sidecar
pub record FrameLine : Type 0 where
  pub frame_index : ℕ
  pub stamp : TickStamp
  pub source_stamp : Option TickStamp
  pub content : Content
  pub reason : Option Reason
  pub encoded : Bool
  pub video_pts : Fraction
  pub simulation : Fraction
  pub pixels : List ℕ

pub data Line : Type 0 where
  frame : FrameLine → Line
  frame_rejected : TickStamp → Line
  encoder_failure : TickStamp → Line
  close_failure : Line

pub data Status : Type 0 where
  starting recording disabled failed empty no_content_frames partial complete : Status

abbrev pub is_disabled : Status → Bool
is_disabled disabled = true
is_disabled _ = false

abbrev pub is_failed : Status → Bool
is_failed failed = true
is_failed _ = false

abbrev pub is_recording : Status → Bool
is_recording recording = true
is_recording _ = false

-- the arguments that `__init__` keeps; `controlled` is `provider.get("mode") == DRAW_MODE`
pub record Config : Type 0 where
  pub width : ℕ
  pub height : ℕ
  pub epoch : ℕ
  pub start_tick : ℕ
  pub tick_stride : ℕ
  pub ticks_per_second : ℕ
  pub slowdown : Fraction
  pub pixel_format : PixelFormat
  pub source : Source
  pub max_gap_frames : ℕ
  pub controlled : Bool

pub record Manifest : Type 0 where
  pub original_game_pixels : Bool
  pub status : Status
  pub frame_count : ℕ
  pub dropped_frames : ℕ
  pub content_frames : ℕ
  pub encoded_frames : ℕ
  pub rejected_frames : ℕ
  pub next_tick : ℕ
  pub duration : Fraction

-- `StreamingVideo`: `writer` is whether there is a pipe writer, `mapping` the sidecar's lines and
-- `manifest` the manifest last written.
pub record Video : Type 0 where
  pub config : Config
  pub next_tick : ℕ
  pub frame_count : ℕ
  pub dropped_count : ℕ
  pub rejected_count : ℕ
  pub content_count : ℕ
  pub previous : Option VideoFrame
  pub status : Status
  pub closed : Bool
  pub writer : Bool
  pub mapping : List Line
  pub manifest : Option Manifest

-- How the encoder answers: whether the write of the frame with an index succeeds, and whether it
-- finishes with code 0 in time.
pub record Encoder : Type 0 where
  pub writes : ℕ → Bool
  pub finishes : Bool

pub data Raised : Type 0 where
  value_error video_error : Raised

-- the frames per second, ticks_per_second / tick_stride / slowdown
abbrev pub fps : Config → Fraction
fps c = record { num = c.ticks_per_second * c.slowdown.den; den = c.tick_stride * c.slowdown.num }

-- `Fraction(frames, 1) / self.fps`
abbrev pub video_seconds : Config → ℕ → Fraction
video_seconds c frames = record { num = frames * (fps c).den; den = (fps c).num }

-- `_save_manifest`
abbrev pub manifest_of : Video → Manifest
manifest_of v = record {
  original_game_pixels =
      eq_source v.config.source original_game_frame
      && (ltb 0 v.content_count && not (is_disabled v.status));
  status = v.status;
  frame_count = v.frame_count;
  dropped_frames = v.dropped_count;
  content_frames = v.content_count;
  encoded_frames = if is_disabled v.status then 0 else v.frame_count;
  rejected_frames = v.rejected_count;
  next_tick = v.next_tick;
  duration = video_seconds v.config v.frame_count;
}

abbrev pub save_manifest : Video → Video
save_manifest v = record v { manifest = some (manifest_of v) }
