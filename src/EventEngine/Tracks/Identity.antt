-- ===== src/EventEngine/Tracks/Identity.antt =====
-- One slot for each person: the table of tracks of media_engine/src/analytics/event_engine.c keeps
-- its size, and no two slots in use hold one identity.
use rv1126_custom_part.Base.{
  ℕ, zero, suc, ◌≤◌, ◌<◌, Bool, true, false, none, some, List, [], ◌∷◌, map, length, get_or, set,
  length-set, replicate, All, Apart, ◌≡◌, ◌≢◌, refl, arith, Option-cases, inl, inr,
}
use rv1126_custom_part.Observation.Types.{BBox, TrackObservation, Observation}
use rv1126_custom_part.AnalyticsConfig.Settings.{AnalyticsConfig}
use rv1126_custom_part.EventEngine.Types.{TrackSlot, zero_track, Timeline}
use rv1126_custom_part.EventEngine.Tracks.{
  find_slot, holds_track, find_track, fresh_track, allocate_track, update_track_inside, see_track,
  forget_track, track_slot, place_track, observe_track, observe_tracks, age_track, clear_present,
  count_tracks, update_tracks,
}

-- What the slot that is found is like.
pub find_slot-some {ℓ} :
    {A : Type ℓ} (test : A → Bool) (xs : List A) (i : ℕ) (d : A)
    → find_slot test xs ≡ some i
    → (test (get_or xs i d) ≡ true) × (i < length xs)
unfolding find_slot
find_slot-some test [] i d h = absurd (ground arith)
find_slot-some test (x ∷ xs) zero d h = ground arith
find_slot-some test (x ∷ xs) (suc i) d h = ground (arith, find_slot-some test xs i d)

pub find_slot-none {ℓ} :
    {A : Type ℓ} (test : A → Bool) (xs : List A)
    → find_slot test xs ≡ none
    → All (λ x. test x ≡ false) xs
unfolding find_slot
find_slot-none test [] h = tt
find_slot-none test (x ∷ xs) h = ground (arith, find_slot-none test xs)

-- The slots do not hold one identity both.
abbrev pub OtherHeld : TrackSlot → TrackSlot → Type 0
OtherHeld a b = a.in_use ≡ true → b.in_use ≡ true → a.track_id ≢ b.track_id

-- The slot `b` holds what `a` held, or nothing.
abbrev pub Shrinks : TrackSlot → TrackSlot → Type 0
Shrinks a b = b.in_use ≡ true → (a.in_use ≡ true) × (a.track_id ≡ b.track_id)

OtherHeld-shrink :
    (a b : TrackSlot) (xs : List TrackSlot)
    → Shrinks a b
    → All (OtherHeld a) xs
    → All (OtherHeld b) xs
OtherHeld-shrink a b [] s h = tt
OtherHeld-shrink a b (x ∷ xs) s h = (ground arith, OtherHeld-shrink a b xs s h.1)

OtherHeld-set :
    (a : TrackSlot) (xs : List TrackSlot) (i : ℕ) (v : TrackSlot)
    → Shrinks (get_or xs i zero_track) v
    → All (OtherHeld a) xs
    → All (OtherHeld a) (set xs i v)
OtherHeld-set a [] i v s h = tt
OtherHeld-set a (x ∷ xs) zero v s h = (ground arith, h.1)
OtherHeld-set a (x ∷ xs) (suc i) v s h = (h.0, OtherHeld-set a xs i v s h.1)

Apart-set :
    (xs : List TrackSlot) (i : ℕ) (v : TrackSlot)
    → Shrinks (get_or xs i zero_track) v
    → Apart OtherHeld xs
    → Apart OtherHeld (set xs i v)
Apart-set [] i v s h = tt
Apart-set (x ∷ xs) zero v s h = (OtherHeld-shrink x v xs s h.0, h.1)
Apart-set (x ∷ xs) (suc i) v s h = (OtherHeld-set x xs i v s h.0, Apart-set xs i v s h.1)

OtherHeld-fresh :
    (xs : List TrackSlot) (v : TrackSlot)
    → All (λ slot. holds_track v.track_id slot ≡ false) xs
    → All (OtherHeld v) xs
OtherHeld-fresh [] v n = tt
OtherHeld-fresh (x ∷ xs) v n = (ground (arith, n.0), OtherHeld-fresh xs v n.1)

OtherHeld-set_fresh :
    (a : TrackSlot) (xs : List TrackSlot) (i : ℕ) (v : TrackSlot)
    → holds_track v.track_id a ≡ false
    → All (OtherHeld a) xs
    → All (OtherHeld a) (set xs i v)
OtherHeld-set_fresh a [] i v n h = tt
OtherHeld-set_fresh a (x ∷ xs) zero v n h = (ground arith, h.1)
OtherHeld-set_fresh a (x ∷ xs) (suc i) v n h = (h.0, OtherHeld-set_fresh a xs i v n h.1)

Apart-set_fresh :
    (xs : List TrackSlot) (i : ℕ) (v : TrackSlot)
    → All (λ slot. holds_track v.track_id slot ≡ false) xs
    → Apart OtherHeld xs
    → Apart OtherHeld (set xs i v)
Apart-set_fresh [] i v n h = tt
Apart-set_fresh (x ∷ xs) zero v n h = (OtherHeld-fresh xs v n.1, h.1)
Apart-set_fresh (x ∷ xs) (suc i) v n h =
    (OtherHeld-set_fresh x xs i v n.0 h.0, Apart-set_fresh xs i v n.1 h.1)

OtherHeld-map :
    (a : TrackSlot) (f : TrackSlot → TrackSlot) (xs : List TrackSlot)
    → ((x : TrackSlot) → Shrinks x (f x))
    → All (OtherHeld a) xs
    → All (OtherHeld a) (map f xs)
OtherHeld-map a f [] s h = tt
OtherHeld-map a f (x ∷ xs) s h = (ground (arith, s x), OtherHeld-map a f xs s h.1)

Apart-map :
    (f : TrackSlot → TrackSlot) (xs : List TrackSlot)
    → ((x : TrackSlot) → Shrinks x (f x))
    → Apart OtherHeld xs
    → Apart OtherHeld (map f xs)
Apart-map f [] s h = tt
Apart-map f (x ∷ xs) s h =
    (OtherHeld-map (f x) f xs s (OtherHeld-shrink x (f x) xs (s x) h.0), Apart-map f xs s h.1)

length-map : (f : TrackSlot → TrackSlot) (xs : List TrackSlot) → length (map f xs) ≡ length xs
length-map f [] = refl
length-map f (x ∷ xs) = omega (arith, length-map f xs)

-- A frame does not change whose slot it is.
see_track-same :
    (c : AnalyticsConfig) (frame_id : ℕ) (now : Timeline) (box : BBox) (slot : TrackSlot)
    → ((see_track c frame_id now box slot).in_use ≡ slot.in_use)
      × ((see_track c frame_id now box slot).track_id ≡ slot.track_id)
unfolding see_track update_track_inside
see_track-same c frame_id now box slot = ground arith

-- The table is of one size, and its identities are distinct.
pub record IsTable (n : ℕ) (tracks : List TrackSlot) : Type 0 where
  pub size : length tracks ≡ n
  pub apart : Apart OtherHeld tracks

set-IsTable :
    (n : ℕ) (tracks : List TrackSlot) (i : ℕ) (v : TrackSlot)
    → Shrinks (get_or tracks i zero_track) v
    → IsTable n tracks
    → IsTable n (set tracks i v)
set-IsTable n tracks i v s t = record {
  size = omega (arith, length-set tracks i v, t);
  apart = Apart-set tracks i v s t.apart;
}

map-IsTable :
    (n : ℕ) (f : TrackSlot → TrackSlot) (tracks : List TrackSlot)
    → ((x : TrackSlot) → Shrinks x (f x))
    → IsTable n tracks
    → IsTable n (map f tracks)
map-IsTable n f tracks s t = record {
  size = omega (arith, length-map f tracks, t);
  apart = Apart-map f tracks s t.apart;
}

forget_track-IsTable :
    (n : ℕ) (tracks : List TrackSlot) (id : ℕ)
    → IsTable n tracks
    → IsTable n (forget_track tracks id)
unfolding forget_track
forget_track-IsTable n tracks id t = elim (Option-cases (find_track tracks id)) [
  | inl e ↦ rw (e, forget_track) t
  | inr (i, e) ↦ rw (e, forget_track) (set-IsTable n tracks i zero_track (λ h. cc) t)
]

-- The slot of a track that has none yet is a fresh one.
track_slot-IsTable :
    (n : ℕ) (tracks : List TrackSlot) (id i : ℕ) (held : List TrackSlot)
    → track_slot tracks id ≡ some (i, held)
    → IsTable n tracks
    → IsTable n held
unfolding track_slot find_track allocate_track
track_slot-IsTable n tracks id i held e t = elim (Option-cases (find_track tracks id)) [
  | inr (j, found) ↦ let same : held ≡ tracks = ground arith in rw same t
  | inl missing ↦
      let none_holds = find_slot-none (holds_track id) tracks missing in
      let same : held ≡ set tracks i (fresh_track id) = ground arith in
      rw same (record {
        size = omega (arith, length-set tracks i (fresh_track id), t);
        apart = Apart-set_fresh tracks i (fresh_track id) none_holds t.apart;
      })
]

place_track-IsTable :
    (c : AnalyticsConfig) (frame_id : ℕ) (now : Timeline) (box : BBox) (n : ℕ)
    (tracks : List TrackSlot) (id : ℕ)
    → IsTable n tracks
    → IsTable n (place_track c frame_id now box tracks id)
unfolding place_track
place_track-IsTable c frame_id now box n tracks id t = elim (Option-cases (track_slot tracks id)) [
  | inl e ↦ rw (e, place_track) t
  | inr ((i, held), e) ↦
      let same = see_track-same c frame_id now box (get_or held i zero_track) in
      rw (e, place_track)
        (set-IsTable n held i _ (λ h. ground arith) (track_slot-IsTable n tracks id i held e t))
]

observe_tracks-IsTable :
    (c : AnalyticsConfig) (frame_id : ℕ) (now : Timeline) (n : ℕ) (tracks : List TrackSlot)
    (inputs : List TrackObservation)
    → IsTable n tracks
    → IsTable n (observe_tracks c frame_id now tracks inputs)
unfolding observe_tracks observe_track
observe_tracks-IsTable c frame_id now n tracks [] t = t
observe_tracks-IsTable c frame_id now n tracks (input ∷ inputs) t =
    observe_tracks-IsTable c frame_id now n (observe_track c frame_id now tracks input) inputs (
      ground (
        arith,
        forget_track-IsTable n tracks input.track_id t,
        place_track-IsTable c frame_id now input.bbox n tracks input.track_id t,
      ))

-- An observation keeps the size of the table and the distinctness of its identities.
pub update_tracks-IsTable :
    (c : AnalyticsConfig) (o : Observation) (now : Timeline) (n : ℕ) (tracks : List TrackSlot)
    → IsTable n tracks
    → IsTable n (update_tracks c o now tracks)
unfolding update_tracks age_track
update_tracks-IsTable c o now n tracks t =
    map-IsTable n (age_track c now) _ (λ x. ground arith)
      (observe_tracks-IsTable c o.frame_id now n (map clear_present tracks) o.tracks
        (map-IsTable n clear_present tracks (λ x. ground arith) t))

-- No more persons than slots.
pub count_tracks-le : (tracks : List TrackSlot) → count_tracks tracks ≤ length tracks
unfolding count_tracks
count_tracks-le [] = omega arith
count_tracks-le (track ∷ tracks) = ground (arith, count_tracks-le tracks)

OtherHeld-replicate : (a : TrackSlot) (n : ℕ) → All (OtherHeld a) (replicate n zero_track)
OtherHeld-replicate a zero = tt
OtherHeld-replicate a (suc n) = (λ x y. cc, OtherHeld-replicate a n)

-- A cleared table holds nobody.
pub replicate-Apart : (n : ℕ) → Apart OtherHeld (replicate n zero_track)
replicate-Apart zero = tt
replicate-Apart (suc n) = (OtherHeld-replicate zero_track n, replicate-Apart n)
