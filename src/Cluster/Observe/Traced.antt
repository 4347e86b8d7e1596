-- ===== src/Cluster/Observe/Traced.antt =====
-- No ghost members: a retained claimant is one whose own record names the source.
use nim_hunt.Prelude.{
  ℕ, ◌≡◌, ◌≢◌, ◌⊎◌, Bool, false, none, some, List, [], ◌∷◌, ◌++◌, arith, ltb, ◌==◌, Bool-cases,
  Option-cases, inl, inr, length,
}
use nim_hunt.Cluster.Source.{
  retained_limit, ClusterLimits, Member, SourceState, lookup, replace, without, add_member, add_new,
  remove_member, mark_uncertain, recompute,
}

lookup-without :
    (g sig : ℕ) (ms : List Member) {m : Member}
    → lookup sig (without g ms) ≡ some m
    → (sig ≢ g) × (lookup sig ms ≡ some m)
unfolding lookup without
lookup-without g sig [] h = cc
lookup-without g sig (x ∷ ms) {m} h = ground (arith, lookup-without g sig ms {m = m})

-- After a member is written, what is found is it, or what was found before.
abbrev pub IsWritten : Member → ℕ → List Member → Member → Type 0
IsWritten m0 sig ms m =
    ((sig ≡ m0.signer) × (m.timestamp ≡ m0.timestamp) × (m.amount ≡ m0.amount))
    ⊎ ((sig ≢ m0.signer) × (lookup sig ms ≡ some m))

lookup-replace :
    (m0 : Member) (sig : ℕ) (ms : List Member) {m : Member}
    → lookup sig (replace m0 ms) ≡ some m
    → IsWritten m0 sig ms m
unfolding lookup replace
lookup-replace m0 sig [] h = cc
lookup-replace m0 sig (x ∷ ms) {m} h = ground (arith, lookup-replace m0 sig ms {m = m})

lookup-snoc :
    (m0 : Member) (sig : ℕ) (ms : List Member) {m : Member}
    → lookup m0.signer ms ≡ none
    → lookup sig (ms ++ m0 ∷ []) ≡ some m
    → IsWritten m0 sig ms m
unfolding lookup
lookup-snoc m0 sig [] e h = ground arith
lookup-snoc m0 sig (x ∷ ms) {m} e h = ground (arith, lookup-snoc m0 sig ms {m = m})

-- What an addition leaves to be found, unless it leaves the membership uncertain.
lookup-add_new :
    (lim : ClusterLimits) (m0 : Member) (sig : ℕ) (s : SourceState) {m : Member}
    → lookup m0.signer s.members ≡ none
    → lookup sig (add_new lim m0 s).members ≡ some m
    → IsWritten m0 sig s.members m
unfolding add_new
lookup-add_new lim m0 sig s {m} e h =
    elim (Bool-cases (ltb (length s.members) (retained_limit lim))) [
      | inl r ↦ lookup-snoc m0 sig s.members e (rw (r, add_new) at h)
      | inr r ↦
          let h' : lookup sig s.members ≡ some m = rw (r, add_new) at h in
          elim (Bool-cases (sig == m0.signer)) [
            | inl same ↦ let eq : sig ≡ m0.signer = ground arith in cc
            | inr other ↦ inr (ground arith, h')
          ]
    ]

pub lookup-add_member :
    (lim : ClusterLimits) (c : Bool) (m0 : Member) (sig : ℕ) (s : SourceState) {m : Member}
    → (add_member lim c m0 s).membership_uncertain ≡ false
    → lookup sig (add_member lim c m0 s).members ≡ some m
    → (s.membership_uncertain ≡ false) × IsWritten m0 sig s.members m
unfolding add_member mark_uncertain recompute
lookup-add_member lim c m0 sig s {m} u h = elim (Option-cases (lookup m0.signer s.members)) [
  | inl e ↦ ground (arith, lookup-add_new lim m0 sig s {m = m} e)
  | inr (x, e) ↦ elim (Bool-cases (sig == m0.signer)) [
    | inl same ↦
        let eq : sig ≡ m0.signer = ground arith in
        ground (arith, eq, lookup-replace m0 sig s.members {m = m})
    | inr other ↦ ground (arith, lookup-replace m0 sig s.members {m = m})
  ]
]

pub lookup-remove_member :
    (lim : ClusterLimits) (g sig : ℕ) (s : SourceState) {m : Member}
    → (remove_member lim g s).membership_uncertain ≡ false
    → lookup sig (remove_member lim g s).members ≡ some m
    → (s.membership_uncertain ≡ false) × (sig ≢ g) × (lookup sig s.members ≡ some m)
unfolding remove_member mark_uncertain recompute
lookup-remove_member lim g sig s {m} u h = elim (Option-cases (lookup g s.members)) [
  | inl e ↦ elim (Bool-cases s.members_saturated) [
    | inl f ↦ cc (rw (f, remove_member) at u)
    | inr f ↦ ground arith
  ]
  | inr (x, e) ↦ ground (arith, lookup-without g sig s.members {m = m})
]
