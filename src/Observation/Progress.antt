-- ===== src/Observation/Progress.antt =====
-- What the ordering of media_engine/src/analytics/observation.c lets through.
use rv1126_custom_part.Base.{
  ◌<◌, ◌≤ℤ◌, Bool, true, false, none, List, [], ◌∷◌, ◌≡◌, ◌≢◌, ◌⊎◌, ◌↔◌, inl, inr, refl, subst,
  arith, All, Apart, Option-cases, Bool-cases,
}
use rv1126_custom_part.Observation.Types.{Observation}
use rv1126_custom_part.Observation.Validate.{validate}
use rv1126_custom_part.Observation.Order.{
  ObservationOrder, OrderResult, invalid, first, accepted, duplicate, out_of_order, epoch_advance,
  order_commit, classify_valid, classify,
}

-- The frame of `o` comes after the one that `order` keeps.
abbrev pub IsLater : ObservationOrder → Observation → Type 0
IsLater order o =
    (order.stream_epoch < o.stream_epoch)
    ⊎ (order.stream_epoch ≡ o.stream_epoch) × (order.frame_id < o.frame_id)

abbrev pub passes : OrderResult → Bool
passes first = true
passes accepted = true
passes epoch_advance = true
passes _ = false

-- The observation and the order both have a timestamp, and that of the observation is earlier.
abbrev pub StepsBack : ObservationOrder → Observation → Type 0
StepsBack order o =
    (o.source_pts_valid ≡ true)
    × (order.source_pts_valid ≡ true)
    × (¬ (order.source_pts ≤ℤ o.source_pts))

-- When each result is given. The six conditions exclude each other.
abbrev pub Verdict : OrderResult → ObservationOrder → Observation → Type 0
Verdict invalid order o = validate o ≢ none
Verdict first order o = (validate o ≡ none) × (order.initialized ≡ false)
Verdict accepted order o =
    (validate o ≡ none)
    × (order.initialized ≡ true)
    × (order.stream_epoch ≡ o.stream_epoch)
    × (order.frame_id < o.frame_id)
    × (¬ StepsBack order o)
Verdict duplicate order o =
    (validate o ≡ none)
    × (order.initialized ≡ true)
    × (order.stream_epoch ≡ o.stream_epoch)
    × (order.frame_id ≡ o.frame_id)
Verdict out_of_order order o =
    (validate o ≡ none)
    × (order.initialized ≡ true)
    × ((o.stream_epoch < order.stream_epoch)
        ⊎ (order.stream_epoch ≡ o.stream_epoch)
          × ((o.frame_id < order.frame_id) ⊎ (order.frame_id < o.frame_id) × StepsBack order o))
Verdict epoch_advance order o =
    (validate o ≡ none) × (order.initialized ≡ true) × (order.stream_epoch < o.stream_epoch)

-- The keys afterwards.
abbrev pub Keys : OrderResult → ObservationOrder → Observation → ObservationOrder
Keys first order o = order_commit o
Keys accepted order o = order_commit o
Keys epoch_advance order o = order_commit o
Keys _ order o = order

classify_valid-Verdict :
    (order : ObservationOrder) (o : Observation)
    → validate o ≡ none
    → Verdict (classify_valid order o).1 order o
      × ((classify_valid order o).0 ≡ Keys (classify_valid order o).1 order o)
unfolding classify_valid
classify_valid-Verdict order o v = ground (arith, v)

pub classify-Verdict :
    (order : ObservationOrder) (o : Observation)
    → Verdict (classify order o).1 order o
      × ((classify order o).0 ≡ Keys (classify order o).1 order o)
unfolding classify
classify-Verdict order o = elim (Option-cases (validate o)) [
  | inl e ↦ rw (e, classify) (classify_valid-Verdict order o e)
  | inr (err, e) ↦ rw (e, classify) (λ h. cc, refl)
]

-- Each condition leads to its result.
classify_valid-reached :
    (r : OrderResult) (order : ObservationOrder) (o : Observation)
    → validate o ≡ none
    → Verdict r order o
    → (classify_valid order o).1 ≡ r
unfolding classify_valid
classify_valid-reached invalid order o v h = absurd (h v)
classify_valid-reached first order o v h = ground (arith, h)
classify_valid-reached accepted order o v h = ground (arith, h)
classify_valid-reached duplicate order o v h = ground (arith, h)
classify_valid-reached out_of_order order o v h = ground (arith, h)
classify_valid-reached epoch_advance order o v h = ground (arith, h)

classify-reached :
    (r : OrderResult) (order : ObservationOrder) (o : Observation)
    → Verdict r order o
    → (classify order o).1 ≡ r
unfolding classify
classify-reached r order o h = elim (Option-cases (validate o)) [
  | inl e ↦ rw (e, classify) (classify_valid-reached r order o e h)
  | inr (err, e) ↦ rw (e, classify) (refused r h (λ n. ground (arith, e, n)))
]
  where
    refused : (r : OrderResult) → Verdict r order o → validate o ≢ none → invalid ≡ r
    refused invalid h n = refl
    refused first h n = absurd (n h.0)
    refused accepted h n = absurd (n h.0)
    refused duplicate h n = absurd (n h.0)
    refused out_of_order h n = absurd (n h.0)
    refused epoch_advance h n = absurd (n h.0)

-- Each of the six results is given exactly when its condition on the observation and the keys holds,
-- and the keys of the observation replace the old ones exactly with `first`, `accepted` and
-- `epoch_advance`; with the others they are kept.
pub classify-Verdict_iff :
    (r : OrderResult) (order : ObservationOrder) (o : Observation)
    → (((classify order o).1 ≡ r) ↔ Verdict r order o)
      × ((classify order o).0 ≡ Keys (classify order o).1 order o)
classify-Verdict_iff r order o =
    let (verdict, keys) = classify-Verdict order o in
    ((λ e. subst (λ q. Verdict q order o) e verdict, classify-reached r order o), keys)

-- The observations of a stream that are let through.
unfoldable pub admitted : ObservationOrder → List Observation → List Observation
admitted order [] = []
admitted order (o ∷ os) =
    let (next, result) = classify order o in
    let rest = admitted next os in elim (passes result) [ true ↦ o ∷ rest | false ↦ rest ]

abbrev pub Before : Observation → Observation → Type 0
Before a b =
    (a.stream_epoch < b.stream_epoch)
    ⊎ (a.stream_epoch ≡ b.stream_epoch) × (a.frame_id < b.frame_id)

classify-kept :
    (order : ObservationOrder) (o : Observation)
    → passes (classify order o).1 ≡ false
    → (classify order o).0 ≡ order
classify-kept order o h = ground (arith, classify-Verdict order o)

classify-passed :
    (order : ObservationOrder) (o : Observation)
    → passes (classify order o).1 ≡ true
    → ((classify order o).0 ≡ order_commit o) × (order.initialized ≡ true → IsLater order o)
classify-passed order o h = ground (arith, classify-Verdict order o)

IsLater-mono :
    (order : ObservationOrder) (o : Observation) (os : List Observation)
    → IsLater order o
    → All (Before o) os
    → All (IsLater order) os
IsLater-mono order o [] h b = tt
IsLater-mono order o (p ∷ os) h b = (omega arith, IsLater-mono order o os h b.1)

admitted-IsLater :
    (order : ObservationOrder) (os : List Observation)
    → order.initialized ≡ true
    → All (IsLater order) (admitted order os)
unfolding admitted
admitted-IsLater order [] h = tt
admitted-IsLater order (o ∷ os) h = elim (Bool-cases (passes (classify order o).1)) [
  | inl e ↦
      let (commit, later) = classify-passed order o e in
      rw (e, commit, admitted)
        (later h, IsLater-mono order o _ (later h) (admitted-IsLater (order_commit o) os refl))
  | inr e ↦ rw (e, classify-kept order o e, admitted) (admitted-IsLater order os h)
]

-- Of any stream, the observations let through have strictly rising (epoch, frame) keys, whatever
-- order and repetitions it has: no frame is let through twice.
pub admitted-Apart :
    (order : ObservationOrder) (os : List Observation) → Apart Before (admitted order os)
unfolding admitted
admitted-Apart order [] = tt
admitted-Apart order (o ∷ os) = elim (Bool-cases (passes (classify order o).1)) [
  | inl e ↦
      rw (e, (classify-passed order o e).0, admitted)
        (admitted-IsLater (order_commit o) os refl, admitted-Apart (order_commit o) os)
  | inr e ↦ rw (e, classify-kept order o e, admitted) (admitted-Apart order os)
]
