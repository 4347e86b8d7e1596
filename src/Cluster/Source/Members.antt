-- ===== src/Cluster/Source/Members.antt =====
-- The retained members: no claimant twice, never more than the limit, and certain unless saturated.
use nim_hunt.Prelude.{
  ℕ, ◌≤◌, ◌≡◌, refl, Bool, true, false, none, some, List, [], ◌∷◌, ◌++◌, arith, ltb, All,
  All-append, Bool-cases, Option-cases, inl, inr, length, length-append, length-filter-le,
}
use nim_hunt.Cluster.Source.{
  ClusterLimits, Member, SourceState, retained_limit, is_signer, lookup, replace, without,
  mark_uncertain, recompute, add_new, add_member, remove_member,
}

-- No signer stands in a list of members.
abbrev pub IsAbsent : ℕ → List Member → Type 0
IsAbsent signer = All (λ m. is_signer signer m ≡ false)

abbrev pub IsUnique : List Member → Type 0
IsUnique [] = Unit
IsUnique (m ∷ ms) = IsAbsent m.signer ms × IsUnique ms

pub lookup-IsAbsent : (signer : ℕ) (ms : List Member) → lookup signer ms ≡ none → IsAbsent signer ms
unfolding lookup
lookup-IsAbsent signer [] h = tt
lookup-IsAbsent signer (m ∷ ms) h = elim (Bool-cases (is_signer signer m)) [
  | inl e ↦ cc (rw e at h)
  | inr e ↦ (e, lookup-IsAbsent signer ms (rw e at h))
]

snoc-IsUnique :
    (m : Member) (ms : List Member) → IsAbsent m.signer ms → IsUnique ms → IsUnique (ms ++ m ∷ [])
snoc-IsUnique m [] a u = (tt, tt)
snoc-IsUnique m (x ∷ ms) a u = (
  All-append (λ y. is_signer x.signer y ≡ false) ms (m ∷ []) u.0 (ground (arith, a.0), tt),
  snoc-IsUnique m ms a.1 u.1,
)

IsAbsent-replace :
    (signer : ℕ) (m : Member) (ms : List Member)
    → IsAbsent signer ms
    → IsAbsent signer (replace m ms)
unfolding replace
IsAbsent-replace signer m [] h = tt
IsAbsent-replace signer m (x ∷ ms) h = (ground (arith, h.0), IsAbsent-replace signer m ms h.1)

replace-IsUnique : (m : Member) (ms : List Member) → IsUnique ms → IsUnique (replace m ms)
unfolding replace
replace-IsUnique m [] u = tt
replace-IsUnique m (x ∷ ms) u = elim (Bool-cases (is_signer m.signer x)) [
  | inl e ↦
      let eq : x.signer ≡ m.signer = ground (arith, e) in
      rw e (IsAbsent-replace m.signer m ms (rw eq at u.0), replace-IsUnique m ms u.1)
  | inr e ↦ rw e (IsAbsent-replace x.signer m ms u.0, replace-IsUnique m ms u.1)
]

length-replace : (m : Member) (ms : List Member) → length (replace m ms) ≡ length ms
unfolding replace
length-replace m [] = refl
length-replace m (x ∷ ms) = omega (arith, length-replace m ms)

IsAbsent-without :
    (signer gone : ℕ) (ms : List Member) → IsAbsent signer ms → IsAbsent signer (without gone ms)
unfolding without
IsAbsent-without signer gone [] h = tt
IsAbsent-without signer gone (x ∷ ms) h =
    ground (arith, h.0, h.1, IsAbsent-without signer gone ms h.1)

without-IsUnique : (signer : ℕ) (ms : List Member) → IsUnique ms → IsUnique (without signer ms)
unfolding without
without-IsUnique signer [] u = tt
without-IsUnique signer (x ∷ ms) u = elim (Bool-cases (is_signer signer x)) [
  | inl e ↦ rw e (without-IsUnique signer ms u.1)
  | inr e ↦ rw e (IsAbsent-without x.signer signer ms u.0, without-IsUnique signer ms u.1)
]

pub record IsRetained (lim : ClusterLimits) (s : SourceState) : Type 0 where
  pub unique : IsUnique s.members
  pub few : length s.members ≤ retained_limit lim
  pub saturated : s.membership_uncertain ≡ true → s.members_saturated ≡ true

mark_uncertain-IsRetained :
    (lim : ClusterLimits) (s : SourceState)
    → s.members_saturated ≡ true
    → IsRetained lim s
    → IsRetained lim (mark_uncertain s)
unfolding mark_uncertain
mark_uncertain-IsRetained lim s full r = record {
  unique = r.unique;
  few = r.few;
  saturated = λ h. full;
}

recompute-IsRetained :
    (lim : ClusterLimits) (ms : List Member) (s : SourceState)
    → IsUnique ms
    → length ms ≤ retained_limit lim
    → (s.membership_uncertain ≡ true → s.members_saturated ≡ true)
    → IsRetained lim (recompute lim ms s)
unfolding recompute
recompute-IsRetained lim ms s u few certain = record { unique = u; few = few; saturated = certain }

add_new-IsRetained :
    (lim : ClusterLimits) (m : Member) (s : SourceState)
    → IsAbsent m.signer s.members
    → IsRetained lim s
    → IsRetained lim (add_new lim m s)
unfolding add_new
add_new-IsRetained lim m s absent r =
    elim (Bool-cases (ltb (length s.members) (retained_limit lim))) [
      | inl e ↦
          rw (e, add_new)
            (record {
              unique = snoc-IsUnique m s.members absent r.unique;
              few = ground (arith, e, length-append s.members (m ∷ []));
              saturated = λ h. ground (arith, r.saturated h);
            })
      | inr e ↦
          rw (e, add_new) (record { unique = r.unique; few = r.few; saturated = λ h. ground arith })
    ]

-- An addition keeps the members unique, within the limit, and certain unless saturated.
pub add_member-IsRetained :
    (lim : ClusterLimits) (correction : Bool) (m : Member) (s : SourceState)
    → IsRetained lim s
    → IsRetained lim (add_member lim correction m s)
unfolding add_member
add_member-IsRetained lim correction m s r = elim (Bool-cases s.membership_uncertain) [
  | inl u ↦ ground (arith, r)
  | inr c ↦ elim (Option-cases (lookup m.signer s.members)) [
    | inl e ↦
        let new = add_new-IsRetained lim m s (lookup-IsAbsent m.signer s.members e) r in
        elim (Bool-cases s.members_saturated) [
          | inl f ↦ ground (arith, mark_uncertain-IsRetained lim s f r, new)
          | inr f ↦ ground (arith, new)
        ]
    | inr (x, e) ↦
        let written =
          recompute-IsRetained lim (replace m s.members) s (replace-IsUnique m s.members r.unique)
            (omega (arith, length-replace m s.members, r.few)) r.saturated in
        elim (Bool-cases s.members_saturated) [
          | inl f ↦ ground (arith, r, mark_uncertain-IsRetained lim s f r)
          | inr f ↦ ground (arith, r, written)
        ]
  ]
]

-- A removal keeps the members unique, within the limit, and certain unless saturated.
pub remove_member-IsRetained :
    (lim : ClusterLimits) (signer : ℕ) (s : SourceState)
    → IsRetained lim s
    → IsRetained lim (remove_member lim signer s)
unfolding remove_member without
remove_member-IsRetained lim signer s r = elim (Bool-cases s.members_saturated) [
  | inl f ↦ ground (arith, mark_uncertain-IsRetained lim s f r)
  | inr f ↦
      let s' = record s { member_count = some (length (without signer s.members)) } in
      let written =
        recompute-IsRetained lim (without signer s.members) s'
          (without-IsUnique signer s.members r.unique) (omega (arith, shorter, r.few))
          r.saturated in
      ground (arith, r, written)
]
  where
    shorter : length (without signer s.members) ≤ length s.members
    shorter = length-filter-le _ s.members
