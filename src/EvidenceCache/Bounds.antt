-- ===== src/EvidenceCache/Bounds.antt =====
-- The window of recent frames stays within its bytes and the notes within their number.
use rv1126_custom_part.Base.{
  ℕ, ◌+◌, ◌^◌, ◌≤◌, ◌<◌, ℤ, Bool, true, false, ltb, some, List, [], ◌∷◌, ◌++◌, length, map, ◌≡◌,
  inl, inr, ◌⊎◌, refl, sym, ap, ◌∙◌, Bool-cases, arith,
}
use rv1126_custom_part.EvidenceCache.Types.{
  note_limit, evidence_frame_cache_max_bytes, FrameNote, JpegFrame, EvidenceCache,
}
use rv1126_custom_part.EvidenceCache.Window.{
  limit_notes, less, add_size, apply_note, take_note, jpeg_frame, take_frame, is_jpeg, Window,
  trim_frames, push_jpeg,
}

-- The bytes of the pictures.
abbrev pub frame_bytes : List JpegFrame → ℕ
frame_bytes [] = 0
frame_bytes (frame ∷ frames) = length frame.jpeg + frame_bytes frames

-- The counter is the sum of the frames and within the limit, and the notes are within theirs.
pub record IsWindow (cache : EvidenceCache) : Type 0 where
  pub limit_fits : cache.frame_cache_max_bytes ≤ evidence_frame_cache_max_bytes
  pub counted : cache.frame_cache_bytes ≡ frame_bytes cache.frames
  pub bounded : cache.frame_cache_bytes ≤ cache.frame_cache_max_bytes
  pub notes_few : length cache.notes ≤ note_limit

-- The newest frames that the limit has room for: all of them, or as many that the next older one would
-- exceed it.
abbrev pub IsNewest : ℕ → List JpegFrame → List JpegFrame → Type 0
IsNewest limit kept frames =
    (kept ≡ frames)
    ⊎ (older : List JpegFrame) × (next : JpegFrame) × (frames ≡ older ++ next ∷ kept)
      × (limit < length next.jpeg + frame_bytes kept)

pub record IsTrimmed (limit : ℕ) (frames : List JpegFrame) (w : Window) : Type 0 where
  pub total_counted : w.total ≡ frame_bytes w.kept
  pub total_bounded : w.total ≤ limit
  pub newest : IsNewest limit w.kept frames

frame_bytes-append :
    (xs : List JpegFrame) (y : JpegFrame)
    → frame_bytes (xs ++ y ∷ []) ≡ frame_bytes xs + length y.jpeg
frame_bytes-append [] y = omega arith
frame_bytes-append (x ∷ xs) y = omega (arith, frame_bytes-append xs y)

trim_frames-IsTrimmed :
    (limit : ℕ) (frames : List JpegFrame) (total : ℕ)
    → total ≡ frame_bytes frames
    → IsTrimmed limit frames (trim_frames limit frames total)
unfolding trim_frames
trim_frames-IsTrimmed limit [] total h = record {
  total_counted = h;
  total_bounded = omega arith;
  newest = inl refl;
}
trim_frames-IsTrimmed limit (old ∷ frames) total h = elim (Bool-cases (ltb limit total)) [
  | inl over ↦
      let r =
        trim_frames-IsTrimmed limit frames (less total (length old.jpeg)) (ground (arith, h)) in
      rw over (record {
        total_counted = r.total_counted;
        total_bounded = r.total_bounded;
        newest = one_more r.newest (ground (arith, over, h, r.total_counted));
      })
  | inr within ↦
      rw within
        (record { total_counted = h; total_bounded = ground (arith, within); newest = inl refl })
]
  where
    one_more :
        {kept : List JpegFrame}
        → IsNewest limit kept frames
        → limit < length old.jpeg + frame_bytes frames
        → IsNewest limit kept (old ∷ frames)
    one_more (inl all) over = inr ([], old, ap (◌∷◌ old) (sym all), rw all over)
    one_more (inr (older, next, same, full)) over = inr (old ∷ older, next, ap (◌∷◌ old) same, full)

-- The last frame stays if it is within the limit itself.
trim_frames-last :
    (limit : ℕ) (frames : List JpegFrame) (last : JpegFrame) (total : ℕ)
    → length last.jpeg ≤ limit
    → total ≡ frame_bytes (frames ++ last ∷ [])
    → (older : List JpegFrame) × ((trim_frames limit (frames ++ last ∷ []) total).kept
        ≡ older ++ last ∷ [])
unfolding trim_frames
trim_frames-last limit [] last total fits h =
    ([], rw (limit_kept (ground (arith, fits, h)), trim_frames) refl)
  where
    limit_kept : total ≤ limit → ltb limit total ≡ false
    limit_kept within = ground arith
trim_frames-last limit (old ∷ frames) last total fits h = elim (Bool-cases (ltb limit total)) [
  | inl over ↦
      rw over
        (trim_frames-last limit frames last (less total (length old.jpeg)) fits (ground (arith, h)))
  | inr within ↦ rw within (old ∷ frames, refl)
]

frame_bytes-map :
    (note : FrameNote) (frames : List JpegFrame)
    → frame_bytes (map (apply_note note) frames) ≡ frame_bytes frames
unfolding apply_note
frame_bytes-map note [] = refl
frame_bytes-map note (frame ∷ frames) = ground (arith, frame_bytes-map note frames)

length-limit_notes : (notes : List FrameNote) → length (limit_notes notes) ≤ note_limit
unfolding limit_notes
length-limit_notes [] = omega arith
length-limit_notes (note ∷ notes) = ground (arith, length-limit_notes notes)

add_size-total :
    (cache : EvidenceCache) (frame : JpegFrame)
    → IsWindow cache
    → length frame.jpeg < 2 ^ 63
    → add_size cache.frame_cache_bytes (length frame.jpeg)
      ≡ frame_bytes (cache.frames ++ frame ∷ [])
add_size-total cache frame w small =
    let a = w.limit_fits in
    let b = w.bounded in let c = w.counted in omega (arith, frame_bytes-append cache.frames frame)

-- What the window has become, of a cache to which that frame was given.
pub record Takes (cache : EvidenceCache) (frame : JpegFrame) (cache' : EvidenceCache) : Type 0 where
  pub window : IsWindow cache'
  pub limit_same : cache'.frame_cache_max_bytes ≡ cache.frame_cache_max_bytes
  pub newest : IsNewest cache.frame_cache_max_bytes cache'.frames (cache.frames ++ frame ∷ [])
  pub held :
      (cache.frame_cache_max_bytes < length frame.jpeg)
      ⊎ (older : List JpegFrame) × (cache'.frames ≡ older ++ frame ∷ [])

take_frame-Takes :
    (cache : EvidenceCache) (frame : JpegFrame)
    → IsWindow cache
    → length frame.jpeg < 2 ^ 63
    → Takes cache frame (take_frame cache frame)
unfolding take_frame
take_frame-Takes cache frame w small =
    let total = add_size-total cache frame w small in
    let size = add_size cache.frame_cache_bytes (length frame.jpeg) in
    let limit = cache.frame_cache_max_bytes in
    let r = trim_frames-IsTrimmed limit (cache.frames ++ frame ∷ []) size total in
    record {
      window = record {
        limit_fits = w.limit_fits;
        counted = r.total_counted;
        bounded = r.total_bounded;
        notes_few = w.notes_few;
      };
      limit_same = refl;
      newest = r.newest;
      held = elim (Bool-cases (ltb limit (length frame.jpeg))) [
        | inl large ↦ inl (ground (arith, large))
        | inr fits ↦
            inr (trim_frames-last limit cache.frames frame size (ground (arith, fits)) total)
      ];
    }

take_note-IsWindow :
    (cache : EvidenceCache) (note : FrameNote) → IsWindow cache → IsWindow (take_note cache note)
unfolding take_note
take_note-IsWindow cache note w = record {
  limit_fits = w.limit_fits;
  counted = w.counted ∙ sym (frame_bytes-map note cache.frames);
  bounded = w.bounded;
  notes_few = length-limit_notes (cache.notes ++ note ∷ []);
}

-- A picture of less than 2^63 bytes is taken in when it begins and ends as a JPEG does. The counter is
-- then again the bytes of the frames, within the limit, which stays; the frames are the newest of
-- those before and the new one, as many as the limit has room for; and the new one is the last of
-- them, unless it is itself larger than the limit.
pub push_jpeg-IsWindow :
    (cache : EvidenceCache) (jpeg : List ℕ) (valid : Bool) (pts : ℤ)
    → IsWindow cache
    → length jpeg < 2 ^ 63
    → is_jpeg jpeg ≡ true
    → (cache' : EvidenceCache) × ((push_jpeg cache jpeg valid pts ≡ some cache')
        × Takes cache (jpeg_frame cache.notes jpeg valid pts) cache')
unfolding push_jpeg jpeg_frame
push_jpeg-IsWindow cache jpeg valid pts w small good =
    let frame = jpeg_frame cache.notes jpeg valid pts in
    (take_frame cache frame, (rw good, take_frame-Takes cache frame w small))
