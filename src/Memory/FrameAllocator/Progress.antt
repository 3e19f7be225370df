-- ===== src/Memory/FrameAllocator/Progress.antt =====
-- The retry loop of kernel/src/memory/frame_allocator.rs: what each round does, and that it ends.
use native.Mathlib.Numerals.{add-one}
use native.Mathlib.Decide.{dec_lt}
use aetheros_rust_project.Prelude.{
  suc, ◌+◌, ◌≤◌, ◌<◌, ◌≡◌, refl, sym, ap, ◌∙◌, List, [], ◌∷◌, ◌++◌, none, some, arith, length,
  get_elem?, drop, drop-eq-nil, drop_at, get_elem?-take, All-drop,
}
use aetheros_rust_project.Prelude.Words.{u64_mod}
use aetheros_rust_project.Memory.FrameAllocator.Align.{frame_size}
use aetheros_rust_project.Memory.FrameAllocator.{
  UsableFrameRange, FrameAllocator, finish, again, attempt,
}
use aetheros_rust_project.Memory.FrameAllocator.Frames.{
  all_frames, frames_between, frames_from, active, remaining, IsRange, IsPosition, IsValid,
  Progress, exhausted, granted, moved, length-active, frames_between_step, frames_between_end,
}

attempt_past : (a : FrameAllocator) → a.range_count ≤ a.current_range → attempt a ≡ finish none a
unfolding attempt
attempt_past a h = ground arith

-- The rounds at a range `r` that is current: at its end without and with a successor, and inside.
module _ (a : FrameAllocator) (r : UsableFrameRange) (inside : a.current_range < a.range_count)
    (here : get_elem? a.ranges a.current_range ≡ some r) where
  attempt_last :
      r.end ≤ a.current_frame
      → a.range_count ≤ a.current_range + 1
      → attempt a ≡ finish none (record a { current_range = a.range_count })
  unfolding attempt
  attempt_last e h = ground arith

  attempt_next :
      (r' : UsableFrameRange)
      → r.end ≤ a.current_frame
      → a.current_range + 1 < a.range_count
      → get_elem? a.ranges (a.current_range + 1) ≡ some r'
      → attempt a
        ≡ again (record a { current_range = a.current_range + 1; current_frame = r'.start })
  unfolding attempt
  attempt_next r' e h n = ground arith

  attempt_inside :
      r.start ≤ a.current_frame
      → a.current_frame + frame_size ≤ r.end
      → r.end < u64_mod
      → attempt a
        ≡ finish (some a.current_frame) (record a { current_frame = a.current_frame + frame_size })
  unfolding attempt
  attempt_inside h k m = ground arith

module _ (a : FrameAllocator) (v : IsValid a) (inside : a.current_range < a.range_count) where
  -- The current range, found both in the array and at the head of what is left.
  current_lem :
      (r : UsableFrameRange) × (get_elem? a.ranges a.current_range ≡ some r)
      × (drop a.current_range (active a) ≡ r ∷ drop (suc a.current_range) (active a))
  current_lem =
      let (r, e, d) =
        drop_at a.current_range (active a) (omega (arith, length-active a v.counted)) in
      (r, cc (get_elem?-take a.range_count a.current_range a.ranges inside), d)

nothing :
    (a : FrameAllocator)
    → a.range_count ≤ length a.ranges
    → a.range_count ≤ a.current_range
    → remaining a ≡ []
nothing a v past =
    ap (λ l. frames_from l a.current_frame)
      (drop-eq-nil a.current_range (active a) (omega (arith, length-active a v)))

-- The round at the current range `r`, with `rs` after it.
module _ (a : FrameAllocator) (v : IsValid a) (inside : a.current_range < a.range_count)
    (r : UsableFrameRange) (rs : List UsableFrameRange)
    (e : get_elem? a.ranges a.current_range ≡ some r) (d : drop a.current_range (active a) ≡ r ∷ rs)
    (dn : drop (suc a.current_range) (active a) ≡ rs) (ok : IsRange r)
    (here : IsPosition (r ∷ rs) a.current_frame) where
  remaining_at : remaining a ≡ frames_between a.current_frame r.end ++ all_frames rs
  remaining_at = ap (λ l. frames_from l a.current_frame) d

  remaining_full : r.end ≤ a.current_frame → remaining a ≡ all_frames rs
  remaining_full full =
      remaining_at ∙ ap (λ l. l ++ all_frames rs) (frames_between_end a.current_frame r.end full)

  room-Progress : a.current_frame < r.end → Progress a (attempt a)
  room-Progress room = rw (attempt_inside a r inside e here.0 (omega arith) ok.fits) (
      granted a.current_frame (record a { current_frame = a.current_frame + frame_size })
        (remaining_at
          ∙ ap (λ l. l ++ all_frames rs)
              (frames_between_step a.current_frame r.end room here.2 ok.end_aligned)
          ∙ rw d)
        (record { counted = v.counted; ranges = v.ranges; position = rw d (omega arith) }))

  last-Progress :
      r.end ≤ a.current_frame → a.range_count ≤ a.current_range + 1 → Progress a (attempt a)
  last-Progress full last = rw (attempt_last a r inside e full last) (
      exhausted (record a { current_range = a.range_count })
        (remaining_full full
          ∙ ap all_frames (
              sym dn
              ∙ drop-eq-nil (suc a.current_range) (active a)
                  (omega (arith, length-active a v.counted))))
        (nothing (record a { current_range = a.range_count }) v.counted (omega arith))
        (record {
          counted = v.counted;
          ranges = v.ranges;
          position =
              rw (drop-eq-nil a.range_count (active a) (omega (arith, length-active a v.counted)))
                tt;
        }))

  next-Progress :
      r.end ≤ a.current_frame → a.current_range + 1 < a.range_count → Progress a (attempt a)
  next-Progress full more =
      let (r', e', d') =
        drop_at (a.current_range + 1) (active a) (omega (arith, length-active a v.counted)) in
      let at_next : get_elem? a.ranges (a.current_range + 1) ≡ some r' =
        cc (get_elem?-take a.range_count (a.current_range + 1) a.ranges more, e') in
      let ok' : IsRange r' =
        (rw d' at (All-drop IsRange (a.current_range + 1) (active a) v.ranges)).0 in
      let rs_eq : rs ≡ r' ∷ drop (suc (a.current_range + 1)) (active a) =
        sym dn ∙ rw (← add-one) d' in
      rw (attempt_next a r inside e r' full more at_next) (
        moved (record a { current_range = a.current_range + 1; current_frame = r'.start })
          (rw d' (sym (remaining_full full ∙ ap all_frames rs_eq)))
          (record { counted = v.counted; ranges = v.ranges; position = rw d' (omega arith) }) refl
          (omega arith) inside)

-- Every round makes progress: it ends with nothing left, hands out the first frame that is left, or
-- moves to the next range with the same frames left.
pub attempt-Progress : (a : FrameAllocator) → IsValid a → Progress a (attempt a)
attempt-Progress a v = elim (dec_lt a.current_range a.range_count) [
  | no past ↦
      rw (attempt_past a (omega arith))
        (exhausted a (nothing a v.counted (omega arith)) (nothing a v.counted (omega arith)) v)
  | yes inside ↦
      let (r, e, d) = current_lem a v inside in
      let ok : IsRange r = (rw d at (All-drop IsRange a.current_range (active a) v.ranges)).0 in
      let here : IsPosition (r ∷ drop (suc a.current_range) (active a)) a.current_frame =
        rw d at v.position in
      elim (dec_lt a.current_frame r.end) [
        | yes room ↦
            room-Progress a v inside r (drop (suc a.current_range) (active a)) e d refl ok here room
        | no full ↦ elim (dec_lt (a.current_range + 1) a.range_count) [
          | no last ↦
              last-Progress a v inside r (drop (suc a.current_range) (active a)) e d refl ok here
                (omega arith) (omega arith)
          | yes more ↦
              next-Progress a v inside r (drop (suc a.current_range) (active a)) e d refl ok here
                (omega arith) more
        ]
      ]
]
