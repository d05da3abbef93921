-- ===== src/Reward.antt =====
-- The ring of local reward discards of src/reward_fix.cpp: which rewards this player threw away
-- in the last half minute. The clock `GetTickCount64` is an argument.
pub mod Recent
pub mod Survive
mod Tests
use revenant_fix.Prelude.{
  ℕ, ◌+◌, ◌-◌, ◌%◌, ◌^◌, Bool, ◌&&◌, not, none, some, List, [], ◌∷◌, leb, ◌==◌, if◌then◌else◌,
  get_or, set, find_index, is_some,
}

-- `LocalRewardDiscardRequest`.
pub record Request : Type 0 where
  pub reward_id : ℕ
  pub tick : ℕ

abbrev pub blank : Request
blank = record { reward_id = 0xffff_ffff; tick = 0 }

abbrev pub request_slots : ℕ
request_slots = 16

abbrev pub request_ttl_ms : ℕ
request_ttl_ms = 30_000

-- `g_local_reward_discard_requests` and its `uint32_t` cursor.
pub record Ring : Type 0 where
  pub requests : List Request
  pub cursor : ℕ

-- The subtraction of `ULONGLONG`.
abbrev pub sub64 : ℕ → ℕ → ℕ
sub64 a b = (a + 2 ^ 64 - b) % 2 ^ 64

abbrev pub has_id : ℕ → Request → Bool
has_id reward_id r = r.reward_id == reward_id

-- `RememberLocalRewardDiscardRequest`: a reward that is there gets the new time in its place.
unfoldable pub remember : Ring → ℕ → ℕ → Ring
remember r reward_id now = elim (find_index (has_id reward_id) r.requests) [
  | some i ↦ record r {
    requests = set r.requests i (record (get_or r.requests i blank) { tick = now });
  }
  | none ↦ record {
    requests =
        set r.requests (r.cursor % request_slots) (record { reward_id = reward_id; tick = now });
    cursor = (r.cursor + 1) % 2 ^ 32;
  }
]

-- The test of `HasRecentLocalRewardDiscardRequest`.
abbrev pub is_recent : ℕ → ℕ → Request → Bool
is_recent reward_id now r =
    r.reward_id == reward_id && (not (r.tick == 0) && leb (sub64 now r.tick) request_ttl_ms)

-- `HasRecentLocalRewardDiscardRequest`.
unfoldable pub has_recent : Ring → ℕ → ℕ → Bool
has_recent r reward_id now = is_some (find_index (is_recent reward_id now) r.requests)

unfoldable pub forget_from : List Request → ℕ → List Request
forget_from [] reward_id = []
forget_from (r ∷ rs) reward_id =
    (if r.reward_id == reward_id then blank else r) ∷ forget_from rs reward_id

-- `ForgetLocalRewardDiscardRequest`.
unfoldable pub forget : Ring → ℕ → Ring
forget r reward_id = record r { requests = forget_from r.requests reward_id }
