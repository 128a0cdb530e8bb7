-- ===== src/EventJournal/Stored.antt =====
-- What a rewrite of the file does to a journal whose records have their lines, in
-- media_engine/src/analytics/event_journal.c.
use rv1126_custom_part.Base.{
  ℕ, zero, suc, ◌%◌, ◌^◌, true, false, ◌&&◌, none, some, List, [], ◌∷◌, All, ◌≡◌, refl, arith,
  Bool-cases, inl, inr, ◌⊎◌,
}
use rv1126_custom_part.EventJournal.Types.{JournalRecord, LineCodec, Journal, RewriteIo}
use rv1126_custom_part.EventJournal.Rewriting.{
  Written, resize, write_records, adopt_sizes, rewrite_saved, rewrite,
}
use rv1126_custom_part.EventJournal.Invariant.{total, IsWritten, render}

module _ (C : LineCodec) where
  open C use {to_line}

  resize-written : (r : JournalRecord) → IsWritten C r → resize C r ≡ r
  resize-written r v = ground (arith, v.measured)

  pub adopt_sizes-written :
      (done rs : List JournalRecord) → All (IsWritten C) rs → adopt_sizes C done rs ≡ rs
  unfolding adopt_sizes
  adopt_sizes-written done [] v = refl
  adopt_sizes-written done (r ∷ rs) v =
      ground (arith, resize-written r v.0, adopt_sizes-written done rs v.1)

  -- Where all records are written, the file holds their lines.
  pub write_records-whole :
      (writes : ℕ) (rs : List JournalRecord)
      → All (IsWritten C) rs
      → (write_records C writes rs).whole ≡ true
      → ((write_records C writes rs).done ≡ rs)
        × ((write_records C writes rs).text ≡ render C rs)
        × ((write_records C writes rs).total ≡ total rs % 2 ^ 64)
  unfolding write_records render total
  write_records-whole writes [] v h = (refl, refl, refl)
  write_records-whole zero (r ∷ rs) v h = cc
  write_records-whole (suc writes) (r ∷ rs) v h =
      ground
        (arith, v.0.lined, v.0.measured, resize-written r v.0, write_records-whole writes rs v.1)

  -- The journal after a rewrite that fails, or what was written by one that succeeds, where a new
  -- file can be opened again.
  pub rewrite-cases :
      (io : RewriteIo) (j : Journal) (keep : List JournalRecord)
      → All (IsWritten C) j.records
      → All (IsWritten C) keep
      → (rewrite C io j keep ≡ (j, none))
        ⊎ (rewrite C io j keep ≡ (record j { file = render C keep; file_open = io.reopened }, none))
          × (io.reopened && io.placed ≡ false)
        ⊎ (w : Written) × (rewrite C io j keep
            ≡ (record j { file = render C keep; file_open = true }, some w))
          × (w.done ≡ keep)
          × (w.total ≡ total keep % 2 ^ 64)
  unfolding rewrite
  rewrite-cases io j keep v k =
      let w = write_records C io.writes keep in
      let same = adopt_sizes-written w.done j.records v in
      elim (Bool-cases (rewrite_saved C io w && io.opened && io.streamed)) [
        | inr lost ↦ inl (ground (arith, same, lost))
        | inl saved ↦
            let (all, text, sum) = write_records-whole io.writes keep k (ground (arith, saved)) in
            elim (Bool-cases (io.reopened && io.placed)) [
              | inr gone ↦ inr (inl (ground (arith, same, saved, text, gone), gone))
              | inl back ↦ inr (inr (w, ground (arith, same, saved, text, back), all, sum))
            ]
      ]
