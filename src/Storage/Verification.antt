-- ===== src/Storage/Verification.antt =====
-- storage/verification.py: complete read-back of an object.
use civ4_turn_relay.Prelude.{ℕ, ◌==◌, length, if◌then◌else◌, ◌&&◌, Text, Bytes, text_eq}
use civ4_turn_relay.Domain.Libraries.{Libraries}
use civ4_turn_relay.Storage.Port.{Storage, Reply, ok, err, Op}

pub data ObjectComparisonResult : Type 0 where
  exact_match mismatch : ObjectComparisonResult

-- The size and the digest of the bytes are the expected ones.
unfoldable pub compare_bytes : Libraries → ℕ → Text → Bytes → ObjectComparisonResult
compare_bytes lib expected_size expected_sha256 content =
    if length content == expected_size && text_eq (lib.sha256_hexdigest content) expected_sha256
    then exact_match
    else mismatch

unfoldable pub compare_reply : Libraries → ℕ → Text → Reply Bytes → Reply ObjectComparisonResult
compare_reply lib size sha256 (ok content) = ok (compare_bytes lib size sha256 content)
compare_reply lib size sha256 (err e) = err e

unfoldable pub compare_stored_object :
    {S : Type 0} → Storage S → Libraries → Text → ℕ → Text → Op S ObjectComparisonResult
compare_stored_object storage lib path expected_size expected_sha256 s =
    let (r, s') = storage.read_file path s in
    (compare_reply lib expected_size expected_sha256 r, s')
