-- ===== src/Recorder.antt =====
-- `TickRecorder` of src/llm_vs_zombies/recording.py. The frame provider is outside: its answer to
-- one `capture` is an argument, and the reasons it gives are texts.
pub mod Isolation
mod Tests
use llm_vs_zombies.Base.{
  Bool, true, false, ◌||◌, not, Option, none, some, List, [], ◌∷◌, ◌++◌, String, Result, ok, err,
  is_some, if◌then◌else◌,
}
use llm_vs_zombies.Video.Types.{
  TickStamp, eq_stamp, VideoFrame, Video, Encoder, Raised, value_error, video_error,
}
use llm_vs_zombies.Video.Frames.{Step, check_stamp, submit, drop}
use llm_vs_zombies.Video.Frames

-- What `capabilities` and `capture` of the provider come to: a frame; one of the exceptions that drop
-- the frame (`CaptureUnavailable`, `ValueError`, `TypeError`, `KeyError`), with its text; a `VideoError`
-- or an `OSError`; or any other exception.
pub data Answer : Type 0 where
  frame : VideoFrame → Answer
  unavailable : String → Answer
  broken : Answer
  escapes : Answer

-- an exception of the video or of the recorder itself, or one of the provider that nothing catches
pub data RecordError : Type 0 where
  of_video : Raised → RecordError
  provider_error : RecordError

pub data Status : Type 0 where
  video_disabled captured dropped video_failed : Status

pub data Event : Type 0 where
  capture : TickStamp → Status → Event
  video_close_failed : Event
  closed_event : Bool → Event

pub record Recorder : Type 0 where
  pub video : Option Video
  pub continue_on_video_error : Bool
  pub failed : Bool
  pub closed : Bool
  pub events : List Event

-- a return value or an exception, with the recorder that is left
abbrev pub Outcome : Type 0
Outcome = Recorder × Result RecordError Status

-- `self._event("capture", **report)` and the report
abbrev pub reported : TickStamp → Status → Recorder → Recorder
reported stamp status r = record r { events = r.events ++ capture stamp status ∷ [] }

-- `_video_failure`
unfoldable pub video_failure : TickStamp → Recorder → Outcome
video_failure stamp r =
    let noted = reported stamp video_failed (record r { failed = true }) in
    if r.continue_on_video_error
    then (noted, ok video_failed)
    else (noted, err (of_video video_error))

module _ (enc : Encoder) where
  -- the handler of a missing or refused frame; an empty reason makes `drop` raise a `ValueError`,
  -- which nothing catches
  unfoldable pub drop_frame : TickStamp → String → Recorder → Video → Outcome
  unfolding video_failure
  drop_frame stamp reason r v =
      let dropped_at = drop enc v stamp reason in
      let r' = record r { video = some dropped_at.0 } in
      elim dropped_at.1 [
        | none ↦ (reported stamp dropped r', ok dropped)
        | some video_error ↦ video_failure stamp r'
        | some value_error ↦ (r', err (of_video value_error))
      ]

  -- `self.video.submit(frame)` and what follows; `refusal` is the text of the `ValueError`
  unfoldable pub submit_frame : TickStamp → String → VideoFrame → Recorder → Video → Outcome
  unfolding drop_frame video_failure
  submit_frame stamp refusal f r v =
      let submitted = submit enc v f in
      let r' = record r { video = some submitted.0 } in
      elim submitted.1 [
        | none ↦ (reported stamp captured r', ok captured)
        | some value_error ↦ drop_frame stamp refusal r' submitted.0
        | some video_error ↦ video_failure stamp r'
      ]

  -- `record` on a video that is on, from the capture on; `other_boundary` and `refusal` are texts of
  -- the code's own exceptions
  unfoldable pub capture_frame : TickStamp → Answer → String → String → Recorder → Video → Outcome
  unfolding submit_frame drop_frame video_failure
  capture_frame stamp (unavailable reason) other_boundary refusal r v = drop_frame stamp reason r v
  capture_frame stamp broken other_boundary refusal r v = video_failure stamp r
  capture_frame stamp escapes other_boundary refusal r v = (r, err provider_error)
  capture_frame stamp (frame f) other_boundary refusal r v =
      if eq_stamp f.stamp stamp
      then submit_frame stamp refusal f r v
      else drop_frame stamp other_boundary r v

  -- `record`
  unfoldable pub record_tick : TickStamp → Answer → String → String → Recorder → Outcome
  unfolding capture_frame
  record_tick stamp answer other_boundary refusal r =
      if r.closed then (r, err (of_video video_error)) else elim r.video [
        | none ↦ (reported stamp video_disabled r, ok video_disabled)
        | some v ↦
            if r.failed
            then (reported stamp video_disabled r, ok video_disabled)
            else elim (check_stamp v stamp) [
              | some e ↦ (r, err (of_video e))
              | none ↦ capture_frame stamp answer other_boundary refusal r v
            ]
      ]

  abbrev pub finished : Recorder → Recorder
  finished r = record r { events = r.events ++ closed_event r.failed ∷ []; closed = true }

  -- `close`
  unfoldable pub close : Recorder → Recorder × Option Raised
  close r = if r.closed then (r, none) else elim r.video [
    | none ↦ (finished r, none)
    | some v ↦
        let ended = Frames.close enc v in
        let r' = record r { video = some ended.0 } in
        let noted = record r' { failed = true; events = r'.events ++ video_close_failed ∷ [] } in
        if not (is_some ended.1)
        then (finished r', none)
        else if r.continue_on_video_error
        then (finished noted, none)
        else (record noted { closed = true }, some video_error)
  ]
