-- ===== src/Cluster/Observe/Commit.antt =====
-- The transaction of `observe` keeps every source's members in step with the claimants' records.
use nim_hunt.Prelude.{
  ◌+◌, ℕ, ◌≡◌, ◌≢◌, ◌⊎◌, refl, Bool, true, false, Option, none, some, arith, ◌==◌, Bool-cases,
  Option-cases, inl, inr,
}
use nim_hunt.Tables.{update}
use nim_hunt.Cluster.Source.{
  ClusterLimits, Member, Breadth, SourceState, lookup, add_member, remove_member, refreshed,
  new_source,
}
use nim_hunt.Cluster.Observe.{
  source_or_new, recorded, Funding, ClusterDb, funding_of, has_source, leave, join, commit,
  is_correction, has_won,
}
use nim_hunt.Cluster.Observe.Traced.{lookup-add_member, lookup-remove_member}

abbrev pub funding_as : ℕ → Member → Funding
funding_as h m = record {
  source_hash = h;
  first_funding_at = m.timestamp;
  first_funding_amount = m.amount;
}

-- Every certain member of a source is recorded as funded by that source, then and so.
pub record IsTraced (funding : ℕ → Option Funding) (sources : ℕ → Option SourceState) : Type 0 where
  pub traced :
      (h sig : ℕ) (s : SourceState) (m : Member)
      → sources h ≡ some s
      → s.membership_uncertain ≡ false
      → lookup sig s.members ≡ some m
      → funding sig ≡ some (funding_as h m)

abbrev pub member_of : ℕ → Funding → Member
member_of signer f = record {
  signer = signer;
  timestamp = f.first_funding_at;
  amount = f.first_funding_amount;
}

own_source :
    (funding : ℕ → Option Funding) (sig signer h : ℕ) (m : Member) (o : Funding)
    → funding signer ≡ some o
    → funding sig ≡ some (funding_as h m)
    → sig ≡ signer
    → h ≡ o.source_hash
own_source funding sig signer h m o f found same =
    let e : some o ≡ some (funding_as h m) = cc in let q : o ≡ funding_as h m = cc in rw q refl

leave_traced :
    (lim : ClusterLimits) (signer : ℕ) (old new : Option Funding) (funding : ℕ → Option Funding)
    (sources : ℕ → Option SourceState)
    → IsTraced funding sources
    → funding signer ≡ old
    → (h sig : ℕ) (s : SourceState) (m : Member) → leave lim signer old new sources h ≡ some s
    → s.membership_uncertain ≡ false
    → lookup sig s.members ≡ some m
    → ((sig ≢ signer) ⊎ (has_source h new ≡ true)) × (funding sig ≡ some (funding_as h m))
unfolding leave
leave_traced lim signer none new funding sources t f h sig s m e u l =
    let found = t.traced h sig s m e u l in (inl (λ eq. cc), found)
leave_traced lim signer (some o) new funding sources t f h sig s m e u l =
    elim (Bool-cases (has_source o.source_hash new)) [
      | inl k ↦
          let found = t.traced h sig s m (rw k at e) u l in
          elim (Bool-cases (sig == signer)) [
            | inl same ↦
                let q = own_source funding sig signer h m o f found (ground arith) in
                (inr (rw q k), found)
            | inr other ↦ (inl (ground arith), found)
          ]
      | inr k ↦ elim (Option-cases (sources o.source_hash)) [
        | inl n ↦
            let e' : sources h ≡ some s = rw (k, n) at e in
            let found = t.traced h sig s m e' u l in
            let apart : sig ≢ signer =
              λ same. let q = own_source funding sig signer h m o f found same in cc in
            (inl apart, found)
        | inr (s0, n) ↦
            let e' : update sources o.source_hash (remove_member lim signer s0) h ≡ some s =
              rw (k, n) at e in
            elim (Bool-cases (h == o.source_hash)) [
              | inl there ↦
                  let r : some (remove_member lim signer s0) ≡ some s = rw there at e' in
                  let r' : remove_member lim signer s0 ≡ s = cc in
                  let (c, ne, l0) =
                    lookup-remove_member lim signer sig s0 {m = m} (rw r' u) (rw r' l) in
                  (inl ne, t.traced h sig s0 m (ground (arith, n)) c l0)
              | inr elsewhere ↦
                  let e'' : sources h ≡ some s = rw elsewhere at e' in
                  let found = t.traced h sig s m e'' u l in
                  let apart : sig ≢ signer = λ same.
                    let q = own_source funding sig signer h m o f found same in ground arith in
                  (inl apart, found)
            ]
      ]
    ]

before_join :
    (sig h : ℕ) (funding : ℕ → Option Funding) (o : Option SourceState)
    → ((s : SourceState) (m : Member)
        → o ≡ some s
        → s.membership_uncertain ≡ false
        → lookup sig s.members ≡ some m
        → funding sig ≡ some (funding_as h m))
    → (m : Member) → (source_or_new o).membership_uncertain ≡ false
    → lookup sig (source_or_new o).members ≡ some m
    → funding sig ≡ some (funding_as h m)
unfolding source_or_new new_source lookup
before_join sig h funding none t m u l = cc
before_join sig h funding (some s) t m u l = t s m refl u l

written :
    (lim : ClusterLimits) (signer now cache : ℕ) (b : Option Breadth) (c : Bool) (f : Funding)
    (sig h : ℕ) (funding : ℕ → Option Funding) (s0 : SourceState) (m : Member)
    → h ≡ f.source_hash
    → ((m' : Member)
        → s0.membership_uncertain ≡ false
        → lookup sig s0.members ≡ some m'
        → funding sig ≡ some (funding_as h m'))
    → (refreshed b now cache (add_member lim c (member_of signer f) s0)).membership_uncertain
      ≡ false
    → lookup sig (refreshed b now cache (add_member lim c (member_of signer f) s0)).members ≡ some m
    → ((sig ≡ signer) × (some f ≡ some (funding_as h m)))
      ⊎ ((sig ≢ signer) × (funding sig ≡ some (funding_as h m)))
unfolding refreshed
written lim signer now cache b c f sig h funding s0 m q before u l =
    let (certain, w) = lookup-add_member lim c (member_of signer f) sig s0 {m = m} u l in
    elim w [
      | inl (same, at_time, of_amount) ↦ inl (same, rw (q, at_time, of_amount) refl)
      | inr (ne, l0) ↦ inr (ne, before m certain l0)
    ]

join_traced :
    (lim : ClusterLimits) (signer now cache : ℕ) (b : Option Breadth) (c : Bool)
    (new : Option Funding) (funding : ℕ → Option Funding) (sources : ℕ → Option SourceState)
    → ((h sig : ℕ) (s : SourceState) (m : Member)
        → sources h ≡ some s
        → s.membership_uncertain ≡ false
        → lookup sig s.members ≡ some m
        → ((sig ≢ signer) ⊎ (has_source h new ≡ true)) × (funding sig ≡ some (funding_as h m)))
    → (h sig : ℕ) (s : SourceState) (m : Member)
    → join lim signer now cache b c new sources h ≡ some s
    → s.membership_uncertain ≡ false
    → lookup sig s.members ≡ some m
    → ((sig ≡ signer) × (new ≡ some (funding_as h m)))
      ⊎ ((sig ≢ signer) × (funding sig ≡ some (funding_as h m)))
unfolding join
join_traced lim signer now cache b c none funding sources t h sig s m e u l =
    ground (arith, t h sig s m e u l)
join_traced lim signer now cache b c (some f) funding sources t h sig s m e u l =
    elim (Bool-cases (h == f.source_hash)) [
      | inl there ↦
          let q : h ≡ f.source_hash = ground arith in
          let r : some (stored s0) ≡ some s = rw there at e in
          let r' : stored s0 ≡ s = cc in
          let u' : (stored s0).membership_uncertain ≡ false = cc in
          let l' : lookup sig (stored s0).members ≡ some m = cc in
          let before : (m' : Member)
              → s0.membership_uncertain ≡ false
              → lookup sig s0.members ≡ some m'
              → funding sig ≡ some (funding_as h m') =
            before_join sig h funding (sources f.source_hash)
              (λ s' m' e' u' l'. (t h sig s' m' (rw q e') u' l').1) in
          written lim signer now cache b c f sig h funding s0 m q before u' l'
      | inr elsewhere ↦
          let found = t h sig s m (rw elsewhere at e) u l in
          inr (elim found.0 [ inl ne ↦ ne | inr here ↦ λ same. ground arith ], found.1)
    ]
  where
    s0 : SourceState
    s0 = source_or_new (sources f.source_hash)

    stored : SourceState → SourceState
    stored x = refreshed b now cache (add_member lim c (member_of signer f) x)

-- The transaction of an observation, whatever it finds and whichever worker was first, keeps every
-- certain member of every source recorded as funded by that source, with the recorded time and amount.
pub commit-IsTraced :
    (lim : ClusterLimits) (now cache signer : ℕ) (new : Option Funding) (b : Option Breadth)
    (db : ClusterDb)
    → IsTraced (λ sig. funding_of (db.origins sig)) db.sources
    → let db' = (commit lim now cache signer new b db).1 in
      IsTraced (λ sig. funding_of (db'.origins sig)) db'.sources
unfolding commit
commit-IsTraced lim now cache signer new b db t =
    elim (Bool-cases (has_won now (db.origins signer))) [
      | inl w ↦ rw w t
      | inr w ↦ rw w (record { traced = λ h sig s m e u l. step h sig s m e u l })
    ]
  where
    funding : ℕ → Option Funding
    funding sig = funding_of (db.origins sig)

    step :
        (h sig : ℕ) (s : SourceState) (m : Member)
        → join lim signer now cache b
            (is_correction (funding signer) new)
            new
            (leave lim signer (funding signer) new db.sources)
            h
          ≡ some s
        → s.membership_uncertain ≡ false
        → lookup sig s.members ≡ some m
        → funding_of (update db.origins signer (recorded new now (now + cache)) sig)
          ≡ some (funding_as h m)
    step h sig s m e u l = ground (
      arith,
      join_traced lim signer now cache b (is_correction (funding signer) new) new funding
          (leave lim signer (funding signer) new db.sources)
          (leave_traced lim signer (funding signer) new funding db.sources t refl) h sig s m e u l,
    )
