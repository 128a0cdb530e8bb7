-- ===== src/EvidenceCache/Store.antt =====
-- The stored records and the count of their bytes, media_engine/src/analytics/evidence_cache.c. The
-- files themselves are not modelled.
use rv1126_custom_part.Base.{
  ℕ, ℤ, pos, leb_ℤ, ltb_ℤ, Bool, ◌&&◌, if◌then◌else◌, Option, none, some, List, [], ◌∷◌, length,
  Text, text_eq,
}
use rv1126_custom_part.EvidenceCache.Types.{EvidenceRecord, EvidenceCache}
use rv1126_custom_part.EvidenceCache.Window.{less}

-- g_hash_table_lookup
unfoldable pub lookup : Text → List (Text × EvidenceRecord) → Option EvidenceRecord
unfolding text_eq
lookup id [] = none
lookup id ((key, record') ∷ rest) =
    let later = lookup id rest in if text_eq key id then some record' else later

-- g_hash_table_remove
unfoldable pub remove_key : Text → List (Text × EvidenceRecord) → List (Text × EvidenceRecord)
unfolding text_eq
remove_key id [] = []
remove_key id ((key, record') ∷ rest) =
    let later = remove_key id rest in if text_eq key id then rest else (key, record') ∷ later

-- remove_record_locked
unfoldable pub remove_record : EvidenceCache → Text → EvidenceCache
unfolding lookup remove_key
remove_record cache id = elim (lookup id cache.records) [
  | none ↦ cache
  | some found ↦ record cache {
    stored_bytes = less cache.stored_bytes found.bytes;
    records = remove_key id cache.records;
  }
]

unfoldable pub is_expired : ℤ → EvidenceRecord → Bool
is_expired now found = ltb_ℤ (pos 0) found.expires_at_us && leb_ℤ found.expires_at_us now

-- The keys that the first loop collects.
unfoldable pub expired_keys : ℤ → List (Text × EvidenceRecord) → List Text
unfolding is_expired
expired_keys now [] = []
expired_keys now ((key, found) ∷ rest) =
    let later = expired_keys now rest in if is_expired now found then key ∷ later else later

unfoldable pub remove_all : EvidenceCache → List Text → EvidenceCache
unfolding remove_record
remove_all cache [] = cache
remove_all cache (id ∷ ids) = remove_all (remove_record cache id) ids

pub record Pruned : Type 0 where
  pub cache : EvidenceCache
  pub removed : ℕ

-- prune_expired_locked
unfoldable pub prune_expired : EvidenceCache → ℤ → Pruned
unfolding expired_keys remove_all
prune_expired cache now =
    let expired = expired_keys now cache.records in
    record { cache = remove_all cache expired; removed = length expired }

-- me_evidence_cache_lookup, me_evidence_cache_bytes, me_evidence_cache_count, me_evidence_cache_prune
unfoldable pub cache_lookup : EvidenceCache → Text → Option EvidenceRecord
unfolding lookup
cache_lookup cache id = lookup id cache.records

unfoldable pub cache_bytes : EvidenceCache → ℕ
cache_bytes cache = cache.stored_bytes

unfoldable pub cache_count : EvidenceCache → ℕ
cache_count cache = length cache.records

unfoldable pub cache_prune : EvidenceCache → ℤ → Pruned
unfolding prune_expired
cache_prune cache now = prune_expired cache now
