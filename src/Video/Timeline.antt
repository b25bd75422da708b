-- ===== src/Video/Timeline.antt =====
-- The timeline of video.py: every operation keeps the frames on the tick grid and the counts right.
use llm_vs_zombies.Base.{
  ℕ, zero, suc, ◌+◌, ◌-◌, ◌*◌, ◌/◌, ◌%◌, ◌≤◌, ◌≡◌, refl, subst, sym, ap, ◌∙◌, not, Option, none,
  some, List, [], ◌∷◌, ◌++◌, arith, Bool-cases, inl, inr, ge→ltb, lt→ltb, length, length-append,
  ◌&&◌,
}
use mathlib.Core.List.{append-nil}
use native.Mathlib.Nat.{add-mul-mod_self_right, div-add-mod'}
use llm_vs_zombies.Video.Types.{
  TickStamp, Content, Reason, missing_grid_tick, Line, FrameLine, frame, frame_rejected,
  encoder_failure, close_failure, Config, Video, Encoder, Raised,
}
use llm_vs_zombies.Video.Frames.{
  Step, and_then, check_stamp, frame_line, encode, drop_one, fill_gap,
}

-- the frame lines of a sidecar, in order
abbrev pub frame_lines : List Line → List FrameLine
frame_lines [] = []
frame_lines (frame f ∷ lines) = f ∷ frame_lines lines
frame_lines (frame_rejected s ∷ lines) = frame_lines lines
frame_lines (encoder_failure s ∷ lines) = frame_lines lines
frame_lines (close_failure ∷ lines) = frame_lines lines

-- Line `i` of the sidecar has index `i` and stands on the grid, and its presentation time is its
-- simulation time under the slowdown (the fractions cross-multiplied).
abbrev pub OnGrid : Config → ℕ → FrameLine → Type 0
OnGrid c i f =
    (f.frame_index ≡ i)
    × (f.stamp.tick ≡ c.start_tick + i * c.tick_stride)
    × (f.stamp.epoch ≡ c.epoch)
    × (f.video_pts.num * (f.simulation.den * c.slowdown.den)
        ≡ f.simulation.num * (c.slowdown.num * f.video_pts.den))

abbrev pub Numbered : Config → ℕ → List FrameLine → Type 0
Numbered c i [] = Unit
Numbered c i (f ∷ lines) = OnGrid c i f × Numbered c (suc i) lines

-- The sidecar is a gapless timeline, and the counts and the next tick agree with it, where `k`
-- frames are written that are not counted yet.
pub record IsTimeline (c : Config) (k : ℕ) (v : Video) : Type 0 where
  pub config_is : v.config ≡ c
  pub grid : v.next_tick ≡ c.start_tick + v.frame_count * c.tick_stride
  pub count : v.frame_count ≡ k + (v.content_count + v.dropped_count)
  pub written : length (frame_lines v.mapping) ≡ v.frame_count
  pub numbered : Numbered c 0 (frame_lines v.mapping)

frame_lines-append : (xs ys : List Line) → frame_lines (xs ++ ys) ≡ frame_lines xs ++ frame_lines ys
frame_lines-append [] ys = refl
frame_lines-append (frame f ∷ xs) ys = rw (frame_lines-append xs ys) refl
frame_lines-append (frame_rejected s ∷ xs) ys = frame_lines-append xs ys
frame_lines-append (encoder_failure s ∷ xs) ys = frame_lines-append xs ys
frame_lines-append (close_failure ∷ xs) ys = frame_lines-append xs ys

Numbered-append :
    (c : Config) (i n : ℕ) (xs : List FrameLine) (f : FrameLine)
    → Numbered c i xs
    → OnGrid c n f
    → n ≡ i + length xs
    → Numbered c i (xs ++ f ∷ [])
Numbered-append c i n [] f h g e = (subst (λ n. OnGrid c n f) (omega arith) g, tt)
Numbered-append c i n (x ∷ xs) f h g e = (h.0, Numbered-append c (suc i) n xs f h.1 g (omega arith))

-- `Q` holds of the state that is left where nothing was raised, and `P` where something was.
pub record Leaves (P Q : Video → Type 0) (s : Step) : Type 0 where
  pub done : s.1 ≡ none → Q s.0
  pub raised : (e : Raised) → s.1 ≡ some e → P s.0

module _ (P Q : Video → Type 0) where
  pub Leaves-none : (v : Video) → Q v → Leaves P Q (v, none)
  Leaves-none v q = record { done = λ x. q; raised = λ e x. cc }

  pub Leaves-some : (v : Video) (e : Raised) → P v → Leaves P Q (v, some e)
  Leaves-some v e p = record { done = λ x. cc; raised = λ e' x. p }

  pub Leaves-weaken :
      (R : Video → Type 0) (s : Step) → Leaves P R s → ((v : Video) → R v → Q v) → Leaves P Q s
  Leaves-weaken R s h k = record { done = λ x. k s.0 (h.done x); raised = h.raised }

  pub Leaves-and_then :
      (R : Video → Type 0) (s : Step) (next : Video → Step)
      → Leaves P R s
      → ((v : Video) → R v → Leaves P Q (next v))
      → Leaves P Q (and_then s next)
  unfolding and_then
  Leaves-and_then R (v, none) next h k = k v (h.done refl)
  Leaves-and_then R (v, some e) next h k = Leaves-some v e (h.raised e refl)

frame_lines-other :
    (xs : List Line) (l : Line)
    → frame_lines (l ∷ []) ≡ []
    → frame_lines (xs ++ l ∷ []) ≡ frame_lines xs
frame_lines-other xs l e =
    frame_lines-append xs (l ∷ []) ∙ (ap (λ ys. frame_lines xs ++ ys) e ∙ append-nil _)

-- A line that is no frame changes nothing of the timeline.
module _ (c : Config) (k : ℕ) where
  pub noted :
      (v w : Video) (l : Line)
      → IsTimeline c k v
      → frame_lines (l ∷ []) ≡ []
      → w ≡ record v {
        status = w.status;
        closed = w.closed;
        rejected_count = w.rejected_count;
        manifest = w.manifest;
        mapping = v.mapping ++ l ∷ [];
      }
      → IsTimeline c k w
  noted v w l h e q = subst (IsTimeline c k) (sym q) (record {
    config_is = h.config_is;
    grid = h.grid;
    count = h.count;
    written = rw (frame_lines-other v.mapping l e) h.written;
    numbered = rw (frame_lines-other v.mapping l e) h.numbered;
  })

-- the presentation time of frame `n` is its distance from the first tick, slowed down
pts-simulation :
    (n : ℕ) (c : Config) (tick : ℕ)
    → tick ≡ c.start_tick + n * c.tick_stride
    → n * (c.tick_stride * c.slowdown.num) * (c.ticks_per_second * c.slowdown.den)
      ≡ (tick - c.start_tick) * (c.slowdown.num * (c.ticks_per_second * c.slowdown.den))
pts-simulation n c tick h =
    let d : tick - c.start_tick ≡ n * c.tick_stride = omega (arith, h) in rw d (omega arith)

-- one frame more than `v`, which is not counted yet
pub record IsNext (c : Config) (v w : Video) : Type 0 where
  pub timeline : IsTimeline c 1 w
  pub content : w.content_count ≡ v.content_count
  pub moved : w.next_tick ≡ v.next_tick + c.tick_stride
  pub one_more : w.frame_count ≡ v.frame_count + 1

-- `n` frames more than `v`, all counted as dropped
pub record IsDropped (c : Config) (v : Video) (n : ℕ) (w : Video) : Type 0 where
  pub timeline : IsTimeline c 0 w
  pub content : w.content_count ≡ v.content_count
  pub moved : w.next_tick ≡ v.next_tick + n * c.tick_stride
  pub more : w.frame_count ≡ v.frame_count + n

module _ (enc : Encoder) (c : Config) where
  -- A frame at the next tick extends the timeline by one frame.
  pub encode-IsNext :
      (v : Video) (stamp : TickStamp) (pixels : List ℕ) (kind : Content) (reason : Option Reason)
      (source_stamp : Option TickStamp)
      → IsTimeline c 0 v
      → stamp.tick ≡ v.next_tick
      → stamp.epoch ≡ c.epoch
      → Leaves (IsTimeline c 0) (IsNext c v) (encode enc v stamp pixels kind reason source_stamp)
  unfolding encode
  encode-IsNext v stamp pixels kind reason source_stamp h e f =
      let at_tick : stamp.tick ≡ c.start_tick + v.frame_count * c.tick_stride = e ∙ h.grid in
      let line = frame_line v stamp pixels kind reason source_stamp in
      elim (Bool-cases (v.writer && not (enc.writes v.frame_count))) [
        | inl x ↦ rw x (Leaves-some _ _ _ _ (noted c 0 v _ (encoder_failure stamp) h refl refl))
        | inr x ↦ rw x (
            Leaves-none _ _ _ (record {
              timeline = record {
                config_is = h.config_is;
                grid = omega (arith, h.grid, stride, e);
                count = omega (arith, h.count);
                written =
                    rw (frame_lines-append v.mapping (frame line ∷ []))
                      (omega (arith, length-append (frame_lines v.mapping) (line ∷ []), h.written));
                numbered = rw (frame_lines-append v.mapping (frame line ∷ [])) (
                    Numbered-append c 0 v.frame_count _ line h.numbered
                      (
                        refl,
                        at_tick,
                        f,
                        subst
                            (λ d.
                              line.video_pts.num * (line.simulation.den * d.slowdown.den)
                              ≡ line.simulation.num * (d.slowdown.num * line.video_pts.den))
                            h.config_is
                            (pts-simulation v.frame_count v.config stamp.tick (
                              subst (λ d. stamp.tick ≡ d.start_tick + v.frame_count * d.tick_stride)
                                (sym h.config_is) at_tick)),
                      )
                      (omega (arith, h.written)));
              };
              content = refl;
              moved = omega (arith, stride, e);
              one_more = refl;
            }))
      ]
    where
      stride : v.config.tick_stride ≡ c.tick_stride
      stride = ap (λ x. x.tick_stride) h.config_is

  pub drop_one-IsTimeline :
      (v : Video) (stamp : TickStamp) (reason : Reason)
      → IsTimeline c 0 v
      → stamp.tick ≡ v.next_tick
      → stamp.epoch ≡ c.epoch
      → Leaves (IsTimeline c 0) (IsDropped c v 1) (drop_one enc v stamp reason)
  unfolding drop_one
  drop_one-IsTimeline v stamp reason h e f =
      Leaves-and_then _ _ _ _ _ (encode-IsNext v stamp _ _ _ _ h e f) λ w n.
        Leaves-none _ _ _ (record {
          timeline = record {
            config_is = n.timeline.config_is;
            grid = n.timeline.grid;
            count = omega (arith, n.timeline.count);
            written = n.timeline.written;
            numbered = n.timeline.numbered;
          };
          content = n.content;
          moved = omega (arith, n.moved);
          more = n.one_more;
        })

  -- `n` grid points short of the stamp, and fuel for as many passes: the loop stops at the stamp.
  pub fill_gap-IsDropped :
      (fuel n : ℕ) (v : Video) (stamp : TickStamp)
      → IsTimeline c 0 v
      → 1 ≤ c.tick_stride
      → stamp.tick ≡ v.next_tick + n * c.tick_stride
      → n ≤ fuel
      → Leaves (IsTimeline c 0) (IsDropped c v n) (fill_gap enc fuel stamp v)
  unfolding fill_gap
  fill_gap-IsDropped zero zero v stamp h s e k =
      Leaves-none _ _ _
        (record { timeline = h; content = refl; moved = omega arith; more = omega arith })
  fill_gap-IsDropped zero (suc n) v stamp h s e k = absurd (omega (arith, k))
  fill_gap-IsDropped (suc fuel) zero v stamp h s e k =
      rw (ge→ltb v.next_tick stamp.tick (omega (arith, e))) (
        Leaves-none _ _ _
          (record { timeline = h; content = refl; moved = omega arith; more = omega arith }))
  fill_gap-IsDropped (suc fuel) (suc n) v stamp h s e k =
      rw (lt→ltb v.next_tick stamp.tick (omega (arith, s, e))) (
        Leaves-and_then _ _ _ _ _
          (drop_one-IsTimeline v _ missing_grid_tick h refl (ap (λ x. x.epoch) h.config_is))
          λ w p.
            Leaves-weaken _ _ _ _
              (fill_gap-IsDropped fuel n w stamp p.timeline s (omega (arith, e, p.moved))
                (omega (arith, k)))
              λ x q. record {
                timeline = q.timeline;
                content = q.content ∙ p.content;
                moved = omega (arith, q.moved, p.moved);
                more = omega (arith, q.more, p.more);
              })

-- A stamp on the grid is a whole number of strides from the next tick.
whole_gap :
    (start next stride k t : ℕ)
    → 1 ≤ stride
    → next ≡ start + k * stride
    → next ≤ t
    → (t - start) % stride ≡ 0
    → t ≡ next + (t - next) / stride * stride
whole_gap start next stride k t s e h a =
    let shift : t - start ≡ (t - next) + k * stride = omega (arith, e, h) in
    let rest : (t - next) % stride ≡ 0 =
      sym (add-mul-mod_self_right (t - next) k stride) ∙ (ap (λ x. x % stride) (sym shift) ∙ a) in
    omega (arith, h, rest, div-add-mod' (t - next) stride)

-- what a stamp that `_check_stamp` lets through is
pub record IsChecked (c : Config) (v : Video) (stamp : TickStamp) : Type 0 where
  pub gap : ℕ
  pub epoch : stamp.epoch ≡ c.epoch
  pub tick : stamp.tick ≡ v.next_tick + gap * c.tick_stride
  pub bounded : gap ≤ c.max_gap_frames

pub check_stamp-IsChecked :
    (v : Video) (stamp : TickStamp)
    → IsTimeline v.config 0 v
    → 1 ≤ v.config.tick_stride
    → check_stamp v stamp ≡ none
    → IsChecked v.config v stamp
unfolding check_stamp
check_stamp-IsChecked v stamp h s e = record {
  gap = (stamp.tick - v.next_tick) / v.config.tick_stride;
  epoch = ground (arith, e);
  tick =
      whole_gap v.config.start_tick v.next_tick v.config.tick_stride v.frame_count stamp.tick s
        h.grid (ground (arith, e)) (ground (arith, e));
  bounded = ground (arith, e);
}
