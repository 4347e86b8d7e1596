-- ===== src/Cluster/Source/Evidence.antt =====
-- What the evidence of a source rests on.
use Prim.Native.Nat.{zero, suc}
use nim_hunt.Prelude.{
  ℕ, ◌≡◌, refl, Bool, true, false, ◌||◌, none, some, List, [], ◌∷◌, ◌++◌, arith, ltb, Bool-cases,
  inl, inr, length, ap, take, take-length,
}
use nim_hunt.Cluster.Source.{
  retained_limit, ClusterLimits, Member, SourceState, lookup, replace, without, mark_uncertain,
  recompute, add_new, add_member, remove_member, pattern_of,
}

-- The evidence rests on the claimants that were retained first, up to some number.
pub record IsTruthful (lim : ClusterLimits) (s : SourceState) : Type 0 where
  pub rests : s.cluster_evidence ≡ true → (n : ℕ) × ((pattern_of lim (take n s.members)).0 ≡ true)

prefix_snoc :
    (n : ℕ) (m : Member) (ms : List Member) → (k : ℕ) × (take k (ms ++ m ∷ []) ≡ take n ms)
prefix_snoc zero m ms = (0, refl)
prefix_snoc (suc n) m [] = (0, refl)
prefix_snoc (suc n) m (x ∷ ms) = let (k, e) = prefix_snoc n m ms in (suc k, ap (λ t. x ∷ t) e)

whole :
    (lim : ClusterLimits) (ms : List Member)
    → (pattern_of lim ms).0 ≡ true
    → (n : ℕ) × ((pattern_of lim (take n ms)).0 ≡ true)
whole lim ms h = (length ms, rw (take-length ms) h)

recompute-IsTruthful :
    (lim : ClusterLimits) (ms : List Member) (s : SourceState) → IsTruthful lim (recompute lim ms s)
unfolding recompute
recompute-IsTruthful lim ms s = record { rests = λ h. whole lim ms h }

mark_uncertain-IsTruthful :
    (lim : ClusterLimits) (s : SourceState) → IsTruthful lim (mark_uncertain s)
unfolding mark_uncertain
mark_uncertain-IsTruthful lim s = record { rests = λ h. cc }

add_new-IsTruthful :
    (lim : ClusterLimits) (m : Member) (s : SourceState)
    → IsTruthful lim s
    → IsTruthful lim (add_new lim m s)
unfolding add_new
add_new-IsTruthful lim m s t = elim (Bool-cases (ltb (length s.members) (retained_limit lim))) [
  | inl e ↦ rw (e, add_new) (record { rests = λ h. with_room h })
  | inr e ↦ rw (e, add_new) (record { rests = λ h. without_room h })
]
  where
    grown : List Member
    grown = s.members ++ m ∷ []

    kept : s.cluster_evidence ≡ true → (n : ℕ) × ((pattern_of lim (take n grown)).0 ≡ true)
    kept h = let (n, p) = t.rests h in let (k, e) = prefix_snoc n m s.members in (k, rw e p)

    with_room :
        (s.cluster_evidence || (pattern_of lim grown).0) ≡ true
        → (n : ℕ) × ((pattern_of lim (take n grown)).0 ≡ true)
    with_room h = elim (Bool-cases s.cluster_evidence) [
      | inl e ↦ kept e
      | inr e ↦ whole lim grown (rw e at h)
    ]

    without_room :
        (s.cluster_evidence || (pattern_of lim s.members).0) ≡ true
        → (n : ℕ) × ((pattern_of lim (take n s.members)).0 ≡ true)
    without_room h = elim (Bool-cases s.cluster_evidence) [
      | inl e ↦ t.rests e
      | inr e ↦ whole lim s.members (rw e at h)
    ]

pub add_member-IsTruthful :
    (lim : ClusterLimits) (correction : Bool) (m : Member) (s : SourceState)
    → IsTruthful lim s
    → IsTruthful lim (add_member lim correction m s)
unfolding add_member
add_member-IsTruthful lim correction m s t =
    let new = add_new-IsTruthful lim m s t in
    let doubt = mark_uncertain-IsTruthful lim s in
    let written = recompute-IsTruthful lim (replace m s.members) s in
    ground (arith, t, new, doubt, written)

pub remove_member-IsTruthful :
    (lim : ClusterLimits) (signer : ℕ) (s : SourceState)
    → IsTruthful lim s
    → IsTruthful lim (remove_member lim signer s)
unfolding remove_member
remove_member-IsTruthful lim signer s t =
    let doubt = mark_uncertain-IsTruthful lim s in
    let s' = record s { member_count = some (length (without signer s.members)) } in
    let written = recompute-IsTruthful lim (without signer s.members) s' in
    ground (arith, t, doubt, written)

-- A new claimant never erases evidence.
pub new_member_keeps_evidence :
    (lim : ClusterLimits) (m : Member) (s : SourceState)
    → lookup m.signer s.members ≡ none
    → s.cluster_evidence ≡ true
    → (add_member lim false m s).cluster_evidence ≡ true
unfolding add_member add_new
new_member_keeps_evidence lim m s e h = ground arith
