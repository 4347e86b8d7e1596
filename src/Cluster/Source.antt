-- ===== src/Cluster/Source.antt =====
-- The durable record of one funding source: a bounded set of the claimants that it funded.
pub mod Members
pub mod Evidence
pub mod History
use nim_hunt.Prelude.{
  ℕ, ◌+◌, ◌-◌, ◌*◌, ◌≤◌, Bool, true, false, ◌&&◌, ◌||◌, not, Option, none, some, List, [], ◌∷◌,
  ◌++◌, map, filter, length, min, max, leb, ltb, ◌==◌, if◌then◌else◌, or_else, find, min_of, max_of,
}

-- The constants of constants.py, each at least 1.
pub record ClusterLimits : Type 0 where
  pub min_claimants : ℕ
  pub member_limit : ℕ
  pub window_seconds : ℕ

-- A claimant among the members, by the hash of its address.
pub record Member : Type 0 where
  pub signer : ℕ
  pub timestamp : ℕ
  pub amount : ℕ

pub data Breadth : Type 0 where
  service unknown ordinary : Breadth

-- The keys of a source's dictionary. A Boolean key is true where it holds True.
pub record SourceState : Type 0 where
  pub observed : Bool
  pub members : List Member
  pub member_count : Option ℕ
  pub members_saturated : Bool
  pub membership_uncertain : Bool
  pub cluster_evidence : Bool
  pub similar_pattern : Bool
  pub service_like : Bool
  pub breadth : Option Breadth
  pub source_refresh_at : Option ℕ
  pub checked_at : Option ℕ

abbrev pub retained_limit : ClusterLimits → ℕ
retained_limit lim = max lim.min_claimants lim.member_limit

abbrev pub is_signer : ℕ → Member → Bool
is_signer signer m = m.signer == signer

unfoldable pub lookup : ℕ → List Member → Option Member
lookup signer = find (is_signer signer)

-- A dictionary entry written over.
unfoldable pub replace : Member → List Member → List Member
replace m = map (λ x. if is_signer m.signer x then m else x)

-- All timestamps within the window, and all amounts within a tenth of the largest.
unfoldable pub is_tight : ClusterLimits → List Member → Bool
is_tight lim ms =
    let times = map (λ m. m.timestamp) ms in
    leb (or_else (max_of times) 0 - or_else (min_of times) 0) lim.window_seconds

unfoldable pub is_similar : List Member → Bool
is_similar ms =
    let amounts = map (λ m. m.amount) ms in
    leb (or_else (max_of amounts) 0 * 9) (or_else (min_of amounts) 0 * 10)

unfoldable pub pattern_of : ClusterLimits → List Member → Bool × Bool
pattern_of lim ms =
    if ltb (length ms) lim.min_claimants
    then (false, false)
    else (is_tight lim ms, is_tight lim ms && is_similar ms)

unfoldable pub mark_uncertain : SourceState → SourceState
mark_uncertain s = record s {
  membership_uncertain = true;
  cluster_evidence = false;
  similar_pattern = false;
}

-- The members written anew, with the aggregates that they alone show.
unfoldable pub recompute : ClusterLimits → List Member → SourceState → SourceState
recompute lim ms s = record s {
  members = ms;
  cluster_evidence = (pattern_of lim ms).0;
  similar_pattern = (pattern_of lim ms).1;
}

-- A claimant that is not among the members: retained where there is room, and only counted otherwise.
unfoldable pub add_new : ClusterLimits → Member → SourceState → SourceState
add_new lim m s =
    let room = ltb (length s.members) (retained_limit lim) in
    let ms = if room then s.members ++ m ∷ [] else s.members in
    record s {
      members = ms;
      members_saturated = s.members_saturated || not room;
      member_count =
          some (min (retained_limit lim + 1) (or_else s.member_count (length ms - 1) + 1));
      cluster_evidence = s.cluster_evidence || (pattern_of lim ms).0;
      similar_pattern = s.similar_pattern || (pattern_of lim ms).1;
    }

abbrev pub is_same_member : Member → Member → Bool
is_same_member a b = a.timestamp == b.timestamp && a.amount == b.amount

unfoldable pub add_member : ClusterLimits → (correction : Bool) → Member → SourceState → SourceState
add_member lim correction m s =
    if s.membership_uncertain then s else elim (lookup m.signer s.members) [
      | none ↦ (if correction && s.members_saturated then mark_uncertain s else add_new lim m s)
      | some x ↦
          (if is_same_member x m
            then s
            else if s.members_saturated
            then mark_uncertain s
            else recompute lim (replace m s.members) s)
    ]

unfoldable pub without : ℕ → List Member → List Member
without signer = filter (λ m. not (is_signer signer m))

unfoldable pub remove_member : ClusterLimits → ℕ → SourceState → SourceState
remove_member lim signer s =
    if s.members_saturated then mark_uncertain s else elim (lookup signer s.members) [
      | none ↦ s
      | some x ↦
          recompute lim (without signer s.members)
            (record s { member_count = some (length (without signer s.members)) })
    ]

-- What a decision sees of a source.
pub record ClusterState : Type 0 where
  pub evidence : Bool
  pub member_count : ℕ
  pub similar_pattern : Bool

abbrev pub is_ordinary : Option Breadth → Bool
is_ordinary (some ordinary) = true
is_ordinary _ = false

unfoldable pub cluster_state : Option SourceState → ClusterState
cluster_state none = record { evidence = false; member_count = 0; similar_pattern = false }
cluster_state (some s) =
    let count = or_else s.member_count (length s.members) in
    if not s.observed
    then record { evidence = false; member_count = 0; similar_pattern = false }
    else if not (is_ordinary s.breadth) || (s.service_like || s.membership_uncertain)
    then record { evidence = false; member_count = count; similar_pattern = false }
    else record {
      evidence = s.cluster_evidence;
      member_count = count;
      similar_pattern = s.similar_pattern;
    }

abbrev pub is_service : Option Breadth → Bool
is_service (some service) = true
is_service _ = false

-- The record of a source that has none, and what every observation then writes beside the members.
unfoldable pub new_source : SourceState
new_source = record {
  observed = true;
  members = [];
  member_count = none;
  members_saturated = false;
  membership_uncertain = false;
  cluster_evidence = false;
  similar_pattern = false;
  service_like = false;
  breadth = none;
  source_refresh_at = none;
  checked_at = none;
}

unfoldable pub refreshed : Option Breadth → (now cache_seconds : ℕ) → SourceState → SourceState
refreshed b now cache_seconds s = record s {
  observed = true;
  breadth = b;
  service_like = s.service_like || is_service b;
  source_refresh_at = some (now + cache_seconds);
  checked_at = some now;
}

-- What is done to the record of a source over time.
pub data Update : Type 0 where
  added : (correction : Bool) → Member → Update
  removed : ℕ → Update
  classified : Option Breadth → (now cache_seconds : ℕ) → Update

unfoldable pub apply : ClusterLimits → Update → SourceState → SourceState
apply lim (added correction m) s = add_member lim correction m s
apply lim (removed signer) s = remove_member lim signer s
apply lim (classified b now cache_seconds) s = refreshed b now cache_seconds s

unfoldable pub apply_all : ClusterLimits → List Update → SourceState → SourceState
apply_all lim [] s = s
apply_all lim (u ∷ us) s = apply_all lim us (apply lim u s)
