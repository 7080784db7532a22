-- ===== src/Core/Assessment/SameUid.antt =====
-- `same_uid` compares the stored UID.
use bolty_rs.Prelude.{
  ℕ, ◌≡◌, ◌↔◌, ◌≤◌, arith, true, some, List, length, take, length-take, take_all,
}
use bolty_rs.Core.ConstantTime.{constant_time_eq, constant_time_eq_iff}
use bolty_rs.Core.Assessment.{CardAssessment, same_uid, same_stored_uid}

same_stored_uid_iff :
    (stored uid : List ℕ)
    → 7 ≤ length stored
    → length uid ≡ 7
    → (same_stored_uid (some stored) uid ≡ true) ↔ (take 7 stored ≡ uid)
unfolding same_stored_uid constant_time_eq
same_stored_uid_iff stored uid p q = ground (
  arith,
  constant_time_eq_iff (take 7 stored) (take 7 uid),
  length-take 7 stored,
  length-take 7 uid,
  take_all 7 uid,
)

-- On a present card whose UID has 7 bytes the answer is true if and only if the first 7 bytes of the
-- stored UID are the 7 bytes of the other.
pub same_uid_iff :
    (a : CardAssessment) (stored uid : List ℕ)
    → a.present ≡ true
    → a.uid_len ≡ 7
    → a.uid ≡ some stored
    → 7 ≤ length stored
    → length uid ≡ 7
    → (same_uid a uid ≡ true) ↔ (take 7 stored ≡ uid)
unfolding same_uid
same_uid_iff a stored uid here seven kept p q =
    rw (here, seven, kept) (same_stored_uid_iff stored uid p q)
