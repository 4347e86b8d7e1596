-- ===== src/Tests/Cluster.antt =====
-- A source that funded three claimants within the window of a rule that asks for two.
use nim_hunt.Prelude.{ℕ, ◌≤◌, ◌≡◌, refl, true, false, none, some, List, [], ◌∷◌, length, take}
use nim_hunt.Cluster.Source.{
  ClusterLimits, Member, SourceState, Update, added, classified, ordinary, apply, apply_all,
  new_source, cluster_state, is_ordinary, lookup, add_member, add_new, refreshed, pattern_of,
  is_tight, is_similar,
}
use nim_hunt.Cluster.Observe.{ClusterDb, Funding, funding_of, commit}
use nim_hunt.Cluster.Observe.Commit.{IsTraced, commit-IsTraced}
use nim_hunt.Cluster.Source.Members.{IsUnique}
use nim_hunt.Cluster.Source.History.{IsWithin, evidence_rests_on_claimants}

abbrev limits : ClusterLimits
limits = record { min_claimants = 2; member_limit = 3; window_seconds = 100 }

abbrev member : ℕ → ℕ → Member
member signer timestamp = record { signer = signer; timestamp = timestamp; amount = 500 }

abbrev updates : List Update
updates =
    added false (member 1 1000)
    ∷ added false (member 2 1050)
    ∷ added false (member 3 9000)
    ∷ classified (some ordinary) 9500 60
    ∷ []

abbrev clustered : SourceState
clustered = apply_all limits updates new_source

shown : (cluster_state (some clustered)).evidence ≡ true
unfolding cluster_state apply_all apply new_source add_member lookup add_new refreshed pattern_of
    is_tight is_similar
shown = refl

evidence_rests_on_claimants_example :
    (is_ordinary clustered.breadth ≡ true)
    × ((n : ℕ) × (2 ≤ length (take n clustered.members))
        × IsUnique (take n clustered.members)
        × IsWithin 100 (take n clustered.members))
evidence_rests_on_claimants_example = evidence_rests_on_claimants limits updates shown

fourth_absent : lookup 4 clustered.members ≡ none
unfolding apply_all apply new_source add_member lookup add_new refreshed
fourth_absent = refl

clustered_evidence : clustered.cluster_evidence ≡ true
unfolding apply_all apply new_source add_member lookup add_new refreshed pattern_of is_tight
    is_similar
clustered_evidence = refl

abbrev no_records : ClusterDb
no_records = record { origins = λ signer. none; sources = λ hash. none }

no_records-IsTraced : IsTraced (λ sig. funding_of (no_records.origins sig)) no_records.sources
no_records-IsTraced = record { traced = λ h sig s m e u l. cc }

abbrev funding : Funding
funding = record { source_hash = 7; first_funding_at = 1000; first_funding_amount = 500 }

commit-IsTraced_example :
    let db' = (commit limits 9500 60 1 (some funding) (some ordinary) no_records).1 in
    IsTraced (λ sig. funding_of (db'.origins sig)) db'.sources
commit-IsTraced_example =
    commit-IsTraced limits 9500 60 1 (some funding) (some ordinary) no_records no_records-IsTraced
