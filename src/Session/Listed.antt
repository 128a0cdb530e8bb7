-- ===== src/Session/Listed.antt =====
-- A table of sessions as a list with distinct keys: what the manager is run on in tests, and a
-- model of the behaviour that it relies on.
use rv1126_custom_part.Base.{
  ◌+◌, true, false, Option, none, some, List, [], ◌∷◌, map, Text, text_eq, text_eq-true_iff,
  text_eq_refl, length, Bool-cases, inl, inr, All, Apart, if◌then◌else◌, ◌≡◌, refl, arith,
}
use rv1126_custom_part.Session.Table.{MediaSession, SessionTable}

abbrev Entries : Type 0
Entries = List (Text × MediaSession)

abbrev OtherKey : Text × MediaSession → Text × MediaSession → Type 0
OtherKey a b = text_eq a.0 b.0 ≡ false

abbrev find : Text → Entries → Option MediaSession
find j [] = none
find j ((i, s) ∷ es) = if text_eq i j then some s else find j es

abbrev put : Text → MediaSession → Entries → Entries
put k s [] = (k, s) ∷ []
put k s ((i, t) ∷ es) = if text_eq i k then (k, s) ∷ es else (i, t) ∷ put k s es

abbrev drop_key : Text → Entries → Entries
drop_key k [] = []
drop_key k ((i, t) ∷ es) = if text_eq i k then es else (i, t) ∷ drop_key k es

find-absent :
    (a : Text × MediaSession) (j : Text) (es : Entries)
    → All (OtherKey a) es
    → text_eq a.0 j ≡ true
    → find j es ≡ none
find-absent a j [] h e = refl
find-absent a j ((i, s) ∷ es) h e = ground (
  arith,
  find-absent a j es h.1 e,
  text_eq-true_iff a.0 j,
  text_eq-true_iff i j,
  text_eq-true_iff a.0 i,
)

pub find-put :
    (j k : Text) (s : MediaSession) (es : Entries)
    → find j (put k s es) ≡ (if text_eq k j then some s else find j es)
find-put j k s [] = refl
find-put j k s ((i, t) ∷ es) =
    ground
      (arith, find-put j k s es, text_eq-true_iff i k, text_eq-true_iff i j, text_eq-true_iff k j)

pub find-drop :
    (j k : Text) (es : Entries)
    → Apart OtherKey es
    → find j (drop_key k es) ≡ (if text_eq k j then none else find j es)
find-drop j k [] h = ground arith
find-drop j k ((i, t) ∷ es) h = ground (
  arith,
  find-drop j k es h.1,
  find-absent (i, t) j es h.0,
  text_eq-true_iff i k,
  text_eq-true_iff i j,
  text_eq-true_iff k j,
)

OtherKey-put :
    (a : Text × MediaSession) (k : Text) (s : MediaSession) (es : Entries)
    → text_eq a.0 k ≡ false
    → All (OtherKey a) es
    → All (OtherKey a) (put k s es)
OtherKey-put a k s [] n h = (n, tt)
OtherKey-put a k s ((i, t) ∷ es) n h = ground (arith, OtherKey-put a k s es n h.1)

OtherKey-drop :
    (a : Text × MediaSession) (k : Text) (es : Entries)
    → All (OtherKey a) es
    → All (OtherKey a) (drop_key k es)
OtherKey-drop a k [] h = tt
OtherKey-drop a k ((i, t) ∷ es) h = ground (arith, OtherKey-drop a k es h.1)

pub Apart-put :
    (k : Text) (s : MediaSession) (es : Entries) → Apart OtherKey es → Apart OtherKey (put k s es)
Apart-put k s [] h = (tt, tt)
Apart-put k s ((i, t) ∷ es) h = elim (Bool-cases (text_eq i k)) [
  | inl same ↦
      let keys : i ≡ k = (text_eq-true_iff i k).0 same in rw same (rekeyed keys es h.0, h.1)
  | inr other ↦ rw other (OtherKey-put (i, t) k s es other h.0, Apart-put k s es h.1)
]
  where
    rekeyed : i ≡ k → (fs : Entries) → All (OtherKey (i, t)) fs → All (OtherKey (k, s)) fs
    rekeyed e [] u = tt
    rekeyed e (f ∷ fs) u = (rw (← e) (u.0), rekeyed e fs u.1)

pub Apart-drop : (k : Text) (es : Entries) → Apart OtherKey es → Apart OtherKey (drop_key k es)
Apart-drop k [] h = tt
Apart-drop k ((i, t) ∷ es) h =
    ground (arith, h.1, OtherKey-drop (i, t) k es h.0, Apart-drop k es h.1)

pub length-put_new :
    (k : Text) (s : MediaSession) (es : Entries)
    → find k es ≡ none
    → length (put k s es) ≡ length es + 1
length-put_new k s [] h = omega arith
length-put_new k s ((i, t) ∷ es) h = ground (arith, length-put_new k s es)

pub length-put_old :
    (k : Text) (s old : MediaSession) (es : Entries)
    → find k es ≡ some old
    → length (put k s es) ≡ length es
length-put_old k s old [] h = absurd (ground arith)
length-put_old k s old ((i, t) ∷ es) h = ground (arith, length-put_old k s old es)

pub length-drop :
    (k : Text) (old : MediaSession) (es : Entries)
    → find k es ≡ some old
    → length es ≡ length (drop_key k es) + 1
length-drop k old [] h = absurd (ground arith)
length-drop k old ((i, t) ∷ es) h = ground (arith, length-drop k old es)

abbrev Listed : Type 0
Listed = (es : Entries) × Apart OtherKey es

abbrev head_entry : Entries → Option (Text × MediaSession)
head_entry [] = none
head_entry (e ∷ es) = some e

pub find-head :
    (k : Text) (s : MediaSession) (es : Entries) → head_entry es ≡ some (k, s) → find k es ≡ some s
find-head k s [] h = absurd (ground arith)
find-head k s ((i, t) ∷ es) h = ground (arith, text_eq_refl i, text_eq_refl k)

pub find-headless : (k : Text) (es : Entries) → head_entry es ≡ none → find k es ≡ none
find-headless k [] h = refl
find-headless k (e ∷ es) h = absurd (ground arith)

pub find-empty : (k : Text) (es : Entries) → length es ≡ 0 → find k es ≡ none
find-empty k [] h = refl
find-empty k (e ∷ es) h = absurd (omega arith)

abbrev pub listed_table : SessionTable
listed_table = record {
  Table = Listed;
  empty = ([], tt);
  lookup = λ k t. find k t.0;
  insert = λ k s t. (put k s t.0, Apart-put k s t.0 t.1);
  remove = λ k t. (drop_key k t.0, Apart-drop k t.0 t.1);
  size = λ t. length t.0;
  first = λ t. head_entry t.0;
  keys = λ t. map (λ (e : Text × MediaSession). e.0) t.0;
  size-empty = refl;
  lookup-insert = λ j k s t. find-put j k s t.0;
  lookup-remove = λ j k t. find-drop j k t.0 t.1;
  size-insert_new = λ k s t h. length-put_new k s t.0 h;
  size-insert_old = λ k s old t h. length-put_old k s old t.0 h;
  size-remove = λ k old t h. length-drop k old t.0 h;
  lookup-zero = λ k t h. find-empty k t.0 h;
  first-some = λ k s t h. find-head k s t.0 h;
  first-none = λ k t h. find-headless k t.0 h;
}
