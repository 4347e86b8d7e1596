-- ===== src/Cluster/Source/History.antt =====
-- Any sequence of updates to the record of a source.
use Prim.Native.Nat.{zero, suc}
use nim_hunt.Prelude.{
  ℕ, ◌+◌, ◌-◌, ◌≤◌, ◌≡◌, true, some, List, [], ◌∷◌, arith, ltb, All, All-weaken, All-map, max_of,
  min_of, max_of_bounds, min_of_bounds, Bool-cases, inl, inr, length, map, take, or_else,
}
use nim_hunt.Cluster.Source.{
  ClusterLimits, Member, SourceState, Update, added, removed, classified, apply, apply_all,
  new_source, refreshed, retained_limit, pattern_of, is_tight, cluster_state, is_ordinary,
}
use nim_hunt.Cluster.Source.Members.{
  IsAbsent, IsUnique, IsRetained, add_member-IsRetained, remove_member-IsRetained,
}
use nim_hunt.Cluster.Source.Evidence.{IsTruthful, add_member-IsTruthful, remove_member-IsTruthful}

-- Every two of the claimants were first funded within a number of seconds of each other.
abbrev pub IsWithin : ℕ → List Member → Type 0
IsWithin seconds ms = All (λ a. All (λ b. a.timestamp ≤ b.timestamp + seconds) ms) ms

is_tight-IsWithin :
    (lim : ClusterLimits) (ms : List Member)
    → is_tight lim ms ≡ true
    → IsWithin lim.window_seconds ms
unfolding is_tight
is_tight-IsWithin lim ms h =
    All-weaken (λ a. a.timestamp ≤ latest)
      (λ a. All (λ b. a.timestamp ≤ b.timestamp + lim.window_seconds) ms)
      (λ a ha.
        All-weaken (λ b. earliest ≤ b.timestamp)
          (λ b. a.timestamp ≤ b.timestamp + lim.window_seconds) (λ b hb. close a b ha hb) ms
          (All-map (λ t. earliest ≤ t) (λ m. m.timestamp) ms (min_of_bounds times)))
      ms (All-map (λ t. t ≤ latest) (λ m. m.timestamp) ms (max_of_bounds times))
  where
    times : List ℕ
    times = map (λ m. m.timestamp) ms

    latest : ℕ
    latest = or_else (max_of times) 0

    earliest : ℕ
    earliest = or_else (min_of times) 0

    tight : latest - earliest ≤ lim.window_seconds
    tight = ground (arith, h)

    close :
        (a b : Member)
        → a.timestamp ≤ latest
        → earliest ≤ b.timestamp
        → a.timestamp ≤ b.timestamp + lim.window_seconds
    close a b ha hb = omega (arith, tight)

apply-IsRetained :
    (lim : ClusterLimits) (u : Update) (s : SourceState)
    → IsRetained lim s
    → IsRetained lim (apply lim u s)
unfolding apply refreshed
apply-IsRetained lim (added correction m) s r = add_member-IsRetained lim correction m s r
apply-IsRetained lim (removed signer) s r = remove_member-IsRetained lim signer s r
apply-IsRetained lim (classified b now cache) s r = record {
  unique = r.unique;
  few = r.few;
  saturated = r.saturated;
}

apply-IsTruthful :
    (lim : ClusterLimits) (u : Update) (s : SourceState)
    → IsTruthful lim s
    → IsTruthful lim (apply lim u s)
unfolding apply refreshed
apply-IsTruthful lim (added correction m) s t = add_member-IsTruthful lim correction m s t
apply-IsTruthful lim (removed signer) s t = remove_member-IsTruthful lim signer s t
apply-IsTruthful lim (classified b now cache) s t = record { rests = t.rests }

apply_all-IsRetained :
    (lim : ClusterLimits) (us : List Update) (s : SourceState)
    → IsRetained lim s
    → IsRetained lim (apply_all lim us s)
unfolding apply_all
apply_all-IsRetained lim [] s r = r
apply_all-IsRetained lim (u ∷ us) s r =
    apply_all-IsRetained lim us (apply lim u s) (apply-IsRetained lim u s r)

apply_all-IsTruthful :
    (lim : ClusterLimits) (us : List Update) (s : SourceState)
    → IsTruthful lim s
    → IsTruthful lim (apply_all lim us s)
unfolding apply_all
apply_all-IsTruthful lim [] s t = t
apply_all-IsTruthful lim (u ∷ us) s t =
    apply_all-IsTruthful lim us (apply lim u s) (apply-IsTruthful lim u s t)

new-IsRetained : {lim : ClusterLimits} → IsRetained lim new_source
unfolding new_source
new-IsRetained = record { unique = tt; few = omega arith; saturated = λ h. cc }

-- However its record was updated since it was new, a source retains no claimant twice and no more
-- claimants than the limit.
pub apply_all_bounded :
    (lim : ClusterLimits) (us : List Update)
    → IsUnique (apply_all lim us new_source).members
      × (length (apply_all lim us new_source).members ≤ retained_limit lim)
apply_all_bounded lim us =
    let r = apply_all-IsRetained lim us new_source new-IsRetained in (r.unique, r.few)

IsAbsent-take : (signer n : ℕ) (ms : List Member) → IsAbsent signer ms → IsAbsent signer (take n ms)
IsAbsent-take signer zero ms h = tt
IsAbsent-take signer (suc n) [] h = tt
IsAbsent-take signer (suc n) (m ∷ ms) h = (h.0, IsAbsent-take signer n ms h.1)

take-IsUnique : (n : ℕ) (ms : List Member) → IsUnique ms → IsUnique (take n ms)
take-IsUnique zero ms u = tt
take-IsUnique (suc n) [] u = tt
take-IsUnique (suc n) (m ∷ ms) u = (IsAbsent-take m.signer n ms u.0, take-IsUnique n ms u.1)

new-IsTruthful : {lim : ClusterLimits} → IsTruthful lim new_source
unfolding new_source
new-IsTruthful = record { rests = λ h. cc }

pattern_of-IsWithin :
    (lim : ClusterLimits) (ms : List Member)
    → (pattern_of lim ms).0 ≡ true
    → (lim.min_claimants ≤ length ms) × IsWithin lim.window_seconds ms
unfolding pattern_of
pattern_of-IsWithin lim ms h = elim (Bool-cases (ltb (length ms) lim.min_claimants)) [
  | inl e ↦ cc (rw e at h)
  | inr e ↦ (ground arith, is_tight-IsWithin lim ms (rw e at h))
]

-- Whatever updates a source's record has seen since it was new, it is shown as evidence only if its
-- breadth is ordinary, and there are at least as many different retained claimants as the rule asks
-- for, of whom every two were first funded within the window.
pub evidence_rests_on_claimants :
    (lim : ClusterLimits) (us : List Update)
    → (cluster_state (some (apply_all lim us new_source))).evidence ≡ true
    → let s = apply_all lim us new_source in
      (is_ordinary s.breadth ≡ true)
      × ((n : ℕ) × (lim.min_claimants ≤ length (take n s.members))
          × IsUnique (take n s.members)
          × IsWithin lim.window_seconds (take n s.members))
unfolding cluster_state
evidence_rests_on_claimants lim us h =
    let s = apply_all lim us new_source in
    let t = apply_all-IsTruthful lim us new_source new-IsTruthful in
    let r = apply_all-IsRetained lim us new_source new-IsRetained in
    let (n, p) = t.rests (ground arith) in
    let (enough, near) = pattern_of-IsWithin lim (take n s.members) p in
    (ground arith, (n, enough, take-IsUnique n s.members r.unique, near))
