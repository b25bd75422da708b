-- ===== src/Video/Frames.antt =====
-- `StreamingVideo._check_stamp`, `_encode`, `_drop_one`, `_fill_gap`, `submit`, `drop` and `close`
-- of video.py. A method returns the object it leaves and the exception it raises, if any.
use llm_vs_zombies.Base.{
  ℕ, zero, suc, ◌+◌, ◌-◌, ◌*◌, ◌/◌, ◌%◌, ◌==◌, Bool, true, false, ◌&&◌, ◌||◌, not, Option, none,
  some, List, [], ◌∷◌, ◌++◌, String, str_eq, length, replicate, ltb, if◌then◌else◌,
}
use llm_vs_zombies.Video.Types.{
  TickStamp, eq_stamp, eq_format, eq_source, VideoFrame, Content, captured, generated, held, blank,
  Reason, missing_grid_tick, given, FrameLine, frame, frame_rejected, encoder_failure,
  close_failure, Status, failed, empty, no_content_frames, partial, complete, is_disabled,
  is_failed, is_recording, Video, Encoder, Raised, value_error, video_error, video_seconds,
  save_manifest, original_game_frame,
}

abbrev pub Step : Type 0
Step = Video × Option Raised

-- the next statement, if the one before did not raise
unfoldable pub and_then : Step → (Video → Step) → Step
and_then (v, none) next = next v
and_then (v, some e) next = (v, some e)

-- `_check_stamp`
unfoldable pub check_stamp : Video → TickStamp → Option Raised
check_stamp v stamp =
    if v.closed || is_failed v.status
    then some video_error
    else if not (stamp.epoch == v.config.epoch)
    then some value_error
    else if ltb stamp.tick v.next_tick
        || not ((stamp.tick - v.config.start_tick) % v.config.tick_stride == 0)
    then some value_error
    else if ltb v.config.max_gap_frames ((stamp.tick - v.next_tick) / v.config.tick_stride)
    then some value_error
    else none

abbrev pub frame_line :
    Video → TickStamp → List ℕ → Content → Option Reason → Option TickStamp → FrameLine
frame_line v stamp pixels kind reason source_stamp = record {
  frame_index = v.frame_count;
  stamp = stamp;
  source_stamp = source_stamp;
  content = kind;
  reason = reason;
  encoded = not (is_disabled v.status);
  video_pts = video_seconds v.config v.frame_count;
  simulation = record { num = stamp.tick - v.config.start_tick; den = v.config.ticks_per_second };
  pixels = pixels;
}

-- what a frame must be before its bytes reach the encoder
unfoldable pub is_acceptable : Video → VideoFrame → Bool
is_acceptable v f =
    let geometry = f.width == v.config.width && f.height == v.config.height in
    let labels =
      eq_format f.pixel_format v.config.pixel_format && eq_source f.source v.config.source in
    let packed = length f.pixels == v.config.width * v.config.height * 3 in
    let version : Bool = elim f.metadata.frame_version [
      | none ↦ false
      | some s ↦ eq_stamp s f.stamp
    ] in
    let cached =
      f.metadata.controlled_mode
      && (f.metadata.cached_method && (f.metadata.unforced && version)) in
    geometry && (labels && (packed && ((not v.config.controlled || cached) && f.metadata.finite)))

-- the handler of `submit`: a refused frame is counted and named in the sidecar
abbrev pub refused : Video → VideoFrame → Step
refused v f =
    let counted = record v { rejected_count = v.rejected_count + 1 } in
    (
      (if v.closed
          then counted
          else record counted { mapping = v.mapping ++ frame_rejected f.stamp ∷ [] }),
      some value_error,
    )

-- the status that `close` gives to a video that was recording
abbrev pub final_status : Video → Status
final_status v =
    if v.frame_count == 0
    then empty
    else if v.content_count == 0
    then no_content_frames
    else if ltb 0 v.dropped_count
    then partial
    else complete

module _ (enc : Encoder) where
  -- `_encode`
  unfoldable pub encode :
      Video → TickStamp → List ℕ → Content → Option Reason → Option TickStamp → Step
  encode v stamp pixels kind reason source_stamp =
      if v.writer && not (enc.writes v.frame_count)
      then (
        save_manifest
            (record v { status = failed; mapping = v.mapping ++ encoder_failure stamp ∷ [] }),
        some video_error,
      )
      else (
        record v {
          mapping = v.mapping ++ frame (frame_line v stamp pixels kind reason source_stamp) ∷ [];
          frame_count = v.frame_count + 1;
          next_tick = stamp.tick + v.config.tick_stride;
        },
        none,
      )

  -- `_drop_one`
  unfoldable pub drop_one : Video → TickStamp → Reason → Step
  unfolding encode and_then
  drop_one v stamp reason =
      let held_frame : List ℕ × (Content × Option TickStamp) = elim v.previous [
        | none ↦ (replicate (v.config.width * v.config.height * 3) 0, (blank, none))
        | some f ↦ (f.pixels, (held, some f.stamp))
      ] in
      and_then (encode v stamp held_frame.0 (held_frame.1).0 (some reason) (held_frame.1).1)
        λ v'. (record v' { dropped_count = v'.dropped_count + 1 }, none)

  -- the loop of `_fill_gap`, on fuel
  unfoldable pub fill_gap : ℕ → TickStamp → Video → Step
  unfolding drop_one and_then
  fill_gap zero stamp v = (v, none)
  fill_gap (suc fuel) stamp v =
      let missing : TickStamp = record {
        epoch = v.config.epoch;
        tick = v.next_tick;
        revision = 0;
      } in
      let rest = and_then (drop_one v missing missing_grid_tick) (fill_gap fuel stamp) in
      if ltb v.next_tick stamp.tick then rest else (v, none)

  -- `_fill_gap`: each pass moves `next_tick` on, so the distance is enough
  abbrev pub fill : TickStamp → Video → Step
  fill stamp v = fill_gap (stamp.tick - v.next_tick) stamp v

  -- `submit`, once the frame has passed the checks
  unfoldable pub submit_accepted : Video → VideoFrame → Step
  unfolding fill_gap encode and_then
  submit_accepted v f = and_then (fill f.stamp v) λ v1.
      let kind = if eq_source v1.config.source original_game_frame then captured else generated in
      and_then (encode v1 f.stamp f.pixels kind none (some f.stamp))
        λ v2. (record v2 { previous = some f; content_count = v2.content_count + 1 }, none)

  -- `submit`
  unfoldable pub submit : Video → VideoFrame → Step
  unfolding check_stamp is_acceptable submit_accepted
  submit v f = elim (check_stamp v f.stamp) [
    | some video_error ↦ (v, some video_error)
    | some value_error ↦ refused v f
    | none ↦ if is_acceptable v f then submit_accepted v f else refused v f
  ]

  -- `drop`
  unfoldable pub drop : Video → TickStamp → String → Step
  unfolding check_stamp fill_gap drop_one and_then
  drop v stamp reason = elim (check_stamp v stamp) [
    | some e ↦ (v, some e)
    | none ↦
        if str_eq reason ""
        then (v, some value_error)
        else and_then (fill stamp v) (λ v'. drop_one v' stamp (given reason))
  ]

  -- `close`
  unfoldable pub close : Video → Step
  close v =
      if v.closed
      then (v, none)
      else if v.writer && not enc.finishes
      then (
        save_manifest (record v {
          status = failed;
          mapping = v.mapping ++ close_failure ∷ [];
          closed = true;
        }),
        some video_error,
      )
      else (
        save_manifest (record v {
          status = if is_recording v.status then final_status v else v.status;
          closed = true;
        }),
        none,
      )
