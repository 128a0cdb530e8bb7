-- ===== src/EvidenceCache/Best.antt =====
-- The frame that is chosen for an event is the best of those in the window.
use rv1126_custom_part.Base.{
  ℕ, ◌≤◌, Bool, true, false, not, ◌&&◌, ◌||◌, ltb, Option, none, some, List, [], ◌∷◌, ◌++◌, All,
  ◌≡◌, ◌⊎◌, inl, inr, refl, subst, ap, arith, Bool-cases,
}
use rv1126_custom_part.EventEngine.Types.{Event}
use rv1126_custom_part.EventEngine.Timeline.{int64_max}
use rv1126_custom_part.EvidenceCache.Types.{JpegFrame, Accuracy}
use rv1126_custom_part.EvidenceCache.Select.{
  frame_matches_event, comparable, frame_is_exact, pts_distance, Search, found, searching, consider,
  look, scan_frames, Selected, selected, select_frame,
}

and_false : (b : Bool) → (b && false) ≡ false
and_false true = refl
and_false false = refl

module _ (event : Event) where
  abbrev pub IsIn : JpegFrame → List JpegFrame → Type 0
  IsIn frame frames =
      (older : List JpegFrame) × ((newer : List JpegFrame) × (frames ≡ older ++ frame ∷ newer))

  abbrev pub IsInexact : JpegFrame → Type 0
  IsInexact frame = frame_is_exact frame event ≡ false

  -- A frame of the event's stream that can be compared is no nearer than `delta`.
  abbrev pub NoNearer : ℕ → JpegFrame → Type 0
  NoNearer delta frame =
      frame_matches_event frame event ≡ true
      → comparable frame event ≡ true
      → delta ≤ pts_distance frame event

  -- A frame of the event's stream has a timestamp, and so has the event.
  abbrev pub IsTimed : JpegFrame → Type 0
  IsTimed frame =
      frame_matches_event frame event ≡ true
      → (event.source_pts_valid && frame.note.source_pts_valid) ≡ true

  -- The distance that a frame is held for: its own, or none yet.
  abbrev pub HeldFor : JpegFrame → ℕ → Type 0
  HeldFor frame delta =
      (delta ≡ int64_max) ⊎ ((comparable frame event ≡ true) × (delta ≡ pts_distance frame event))

  abbrev pub IsHeld : List JpegFrame → Option JpegFrame → ℕ → Type 0
  IsHeld frames none delta = (delta ≡ int64_max) × All IsTimed frames
  IsHeld frames (some frame) delta =
      IsIn frame frames × (frame_matches_event frame event ≡ true) × HeldFor frame delta

  -- What the loop holds after those frames.
  abbrev pub IsBest : List JpegFrame → Search → Type 0
  IsBest frames (found frame) =
      (frame_is_exact frame event ≡ true)
      × ((older : List JpegFrame) × ((newer : List JpegFrame) × ((frames ≡ older ++ frame ∷ newer)
              × All IsInexact newer)))
  IsBest frames (searching nearest delta) =
      All IsInexact frames × (All (NoNearer delta) frames × IsHeld frames nearest delta)

  All-NoNearer_mono :
      (frames : List JpegFrame) (delta delta' : ℕ)
      → delta' ≤ delta
      → All (NoNearer delta) frames
      → All (NoNearer delta') frames
  All-NoNearer_mono [] delta delta' h all = tt
  All-NoNearer_mono (f ∷ fs) delta delta' h all =
      (λ m c. ground (arith, all.0 m c), All-NoNearer_mono fs delta delta' h all.1)

  IsHeld-cons :
      (frame : JpegFrame) (newer : List JpegFrame) (nearest : Option JpegFrame) (delta : ℕ)
      → (nearest ≡ none → IsTimed frame)
      → IsHeld newer nearest delta
      → IsHeld (frame ∷ newer) nearest delta
  IsHeld-cons frame newer none delta t h = (h.0, (t refl, h.1))
  IsHeld-cons frame newer (some f) delta t ((older, (rest, e)), m, held) =
      ((frame ∷ older, (rest, ap (◌∷◌ frame) e)), m, held)

  IsTimed-comparable : (frame : JpegFrame) → comparable frame event ≡ true → IsTimed frame
  unfolding comparable
  IsTimed-comparable frame c m = ground (arith, c)

  -- A frame that cannot be compared.
  consider_aside-IsBest :
      (frame : JpegFrame) (newer : List JpegFrame) (nearest : Option JpegFrame) (delta : ℕ)
      → frame_is_exact frame event ≡ false
      → comparable frame event ≡ false
      → IsBest newer (searching nearest delta)
      → frame_matches_event frame event ≡ true
      → IsBest (frame ∷ newer) (consider event frame nearest delta)
  unfolding consider
  consider_aside-IsBest frame newer (some g) delta e c h m =
      rw (c, and_false (not event.source_pts_valid || not frame.note.source_pts_valid))
        (
          (e, h.0),
          (
            (λ m' c'. absurd (ground (arith, c)), h.1.0),
            IsHeld-cons frame newer (some g) delta (λ n. ground (arith, n)) h.1.1,
          ),
        )
  consider_aside-IsBest frame newer none delta e c h m =
      elim (Bool-cases (not event.source_pts_valid || not frame.note.source_pts_valid)) [
        | inl u ↦
            rw (c, u)
              (
                (e, h.0),
                (
                  (λ m' c'. absurd (ground (arith, c)), h.1.0),
                  (([], (newer, refl)), m, inl h.1.1.0),
                ),
              )
        | inr u ↦
            rw (c, u)
              (
                (e, h.0),
                (
                  (λ m' c'. absurd (ground (arith, c)), h.1.0),
                  IsHeld-cons frame newer none delta (λ n m'. ground (arith, u)) h.1.1,
                ),
              )
      ]

  consider-IsBest :
      (frame : JpegFrame) (newer : List JpegFrame) (nearest : Option JpegFrame) (delta : ℕ)
      → frame_is_exact frame event ≡ false
      → frame_matches_event frame event ≡ true
      → IsBest newer (searching nearest delta)
      → IsBest (frame ∷ newer) (consider event frame nearest delta)
  unfolding consider
  consider-IsBest frame newer nearest delta e m h = elim (Bool-cases (comparable frame event)) [
    | inl c ↦ elim (Bool-cases (ltb (pts_distance frame event) delta)) [
      | inl l ↦
          rw (c, l)
            (
              (e, h.0),
              (
                (
                  λ m' c'. ground arith,
                  All-NoNearer_mono newer delta (pts_distance frame event) (ground (arith, l))
                      h.1.0,
                ),
                (([], (newer, refl)), m, inr (c, refl)),
              ),
            )
      | inr l ↦
          rw (c, l)
            (
              (e, h.0),
              (
                (λ m' c'. ground (arith, l), h.1.0),
                IsHeld-cons frame newer nearest delta (λ n. IsTimed-comparable frame c) h.1.1,
              ),
            )
    ]
    | inr c ↦ consider_aside-IsBest frame newer nearest delta e c h m
  ]

  look-IsBest :
      (frame : JpegFrame) (newer : List JpegFrame) (s : Search)
      → IsBest newer s
      → IsBest (frame ∷ newer) (look event frame s)
  unfolding look
  look-IsBest frame newer (found g) (x, (older, (rest, (e, all)))) =
      (x, (frame ∷ older, (rest, (ap (◌∷◌ frame) e, all))))
  look-IsBest frame newer (searching nearest delta) h =
      elim (Bool-cases (frame_is_exact frame event)) [
        | inl e ↦ rw e (e, ([], (newer, (refl, h.0))))
        | inr e ↦ elim (Bool-cases (frame_matches_event frame event)) [
          | inl m ↦ rw (e, m) (consider-IsBest frame newer nearest delta e m h)
          | inr m ↦
              rw (e, m)
                (
                  (e, h.0),
                  (
                    (λ m' c. absurd (ground (arith, m)), h.1.0),
                    IsHeld-cons frame newer nearest delta (λ n m'. absurd (ground (arith, m)))
                        h.1.1,
                  ),
                )
        ]
      ]

  scan_frames-IsBest : (frames : List JpegFrame) → IsBest frames (scan_frames event frames)
  unfolding scan_frames
  scan_frames-IsBest [] = (tt, (tt, (refl, tt)))
  scan_frames-IsBest (frame ∷ newer) =
      look-IsBest frame newer (scan_frames event newer) (scan_frames-IsBest newer)

  -- The newest exact frame; or, where there is none, a frame of the stream that nothing else is nearer
  -- than, unless no comparable frame is nearer than the largest int64_t.
  abbrev pub IsChosen : List JpegFrame → Option Selected → Type 0
  IsChosen frames none =
      All IsInexact frames × (All IsTimed frames × All (NoNearer int64_max) frames)
  IsChosen frames (some s) =
      ((s.accuracy ≡ Accuracy.exact)
        × ((frame_is_exact s.frame event ≡ true)
            × ((older : List JpegFrame) × ((newer : List JpegFrame) × ((frames
                      ≡ older ++ s.frame ∷ newer)
                    × All IsInexact newer)))))
      ⊎ ((s.accuracy ≡ Accuracy.approximate)
          × (All IsInexact frames
              × (IsIn s.frame frames
                  × ((frame_matches_event s.frame event ≡ true)
                      × (((comparable s.frame event ≡ true)
                            × All (NoNearer (pts_distance s.frame event)) frames)
                          ⊎ All (NoNearer int64_max) frames)))))

  selected-IsChosen :
      (frames : List JpegFrame) (s : Search) → IsBest frames s → IsChosen frames (selected event s)
  unfolding selected
  selected-IsChosen frames (found g) h = inl (refl, h)
  selected-IsChosen frames (searching none delta) (inexact, (least, (e, timed))) =
      (inexact, (timed, subst (λ d. All (NoNearer d) frames) e least))
  selected-IsChosen frames (searching (some g) delta) (inexact, (least, (held, m, inl e))) =
      inr (refl, (inexact, (held, (m, inr (subst (λ d. All (NoNearer d) frames) e least)))))
  selected-IsChosen frames (searching (some g) delta) (inexact, (least, (held, m, inr (c, e)))) =
      inr (refl, (inexact, (held, (m, inl (c, subst (λ d. All (NoNearer d) frames) e least)))))

  -- For an event, the newest exact frame of the window is chosen and called exact. Where no frame is
  -- exact, a chosen frame is called approximate and is of the event's channel and epoch; it can be
  -- compared and no comparable frame of the stream has a nearer timestamp, or no comparable frame is
  -- nearer than the largest int64_t. Where none is chosen, every frame of the stream and the event
  -- have timestamps, and no comparable one is nearer than the largest int64_t.
  pub select_frame-IsChosen :
      (frames : List JpegFrame) → IsChosen frames (select_frame frames event)
  unfolding select_frame
  select_frame-IsChosen frames =
      selected-IsChosen frames (scan_frames event frames) (scan_frames-IsBest frames)
