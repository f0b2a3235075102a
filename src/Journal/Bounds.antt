-- ===== src/Journal/Bounds.antt =====
-- Which results team/power_journal.py records: `_canonical_result` against a description.
use shimpz_drivers.Prelude.{
  ℕ, ◌-◌, ◌≡◌, refl, ap, ◌∙◌, arith, Bool, true, false, ◌&&◌, if◌then◌else◌, Result, ok, err, inl,
  inr, Bool-cases, Result-cases, String, leb, ltb, reject, ◌>>=◌, ◌>>◌, Option, none, some,
}
use shimpz_drivers.Value.{Value}
use shimpz_drivers.Journal.State.{JournalError, conflict, Codec}
use shimpz_drivers.Journal.Json.{walk_json, or_conflict, canonical_result, byte_length}
use shimpz_drivers.Journal.Shape.{is_json, nodes, height}
use shimpz_drivers.Journal.Walk.{walk_json-Walked, walk_json-enough, walk_json-conflict}

-- The values that may be recorded as a result.
abbrev pub is_small_json : Value → Bool
is_small_json v = is_json v && (leb (nodes v) 4096 && leb (height v) 32)

-- An encoding of at most `max_bytes` bytes.
abbrev pub encoded_within : ℕ → Option String → Result JournalError String
encoded_within max_bytes none = err conflict
encoded_within max_bytes (some encoded) =
    if leb (byte_length encoded) max_bytes then ok encoded else err conflict

walk_json-small : (v : Value) → is_small_json v ≡ true → walk_json 0 4096 v ≡ ok (4096 - nodes v)
walk_json-small v h = walk_json-enough 0 4096 v (ground arith) (ground arith) (ground arith)

walk_json-large : (v : Value) → is_small_json v ≡ false → walk_json 0 4096 v ≡ err conflict
walk_json-large v h = elim (Result-cases (walk_json 0 4096 v)) [
  | inl (e, q) ↦ q ∙ ap err (walk_json-conflict 0 4096 v q)
  | inr (l, q) ↦ let (a, b, c) = walk_json-Walked 0 4096 v q in absurd (ground arith)
]

-- `_canonical_result` returns exactly for the JSON values of at most 4096 nodes and height at most
-- 32 that have an encoding of at most the given number of bytes, and then it returns that encoding;
-- for all other values it raises a conflict.
pub canonical_result-bounds :
    (codec : Codec) (max_bytes : ℕ) (v : Value)
    → canonical_result codec max_bytes v
      ≡ (if is_small_json v then encoded_within max_bytes (codec.dumps v) else err conflict)
unfolding canonical_result
canonical_result-bounds codec max_bytes v = elim (Bool-cases (is_small_json v)) [
  | inr large ↦ rw (walk_json-large v large, canonical_result) (rw large refl)
  | inl small ↦ rw (walk_json-small v small, canonical_result) (rw small (encodes (codec.dumps v)))
]
  where
    encodes :
        (o : Option String)
        → (do
          encoded ← or_conflict o
          reject (ltb max_bytes (byte_length encoded)) conflict
          ok encoded)
          ≡ encoded_within max_bytes o
    encodes none = refl
    encodes (some encoded) = ground arith
