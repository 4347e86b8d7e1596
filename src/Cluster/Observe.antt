-- ===== src/Cluster/Observe.antt =====
-- `observe`: one claimant's first funding, looked up and recorded. The signer's history, as
-- `_complete_history` returns it (none where it raises), and the breadth of a source are arguments; a
-- transaction stands as the extractors of trans_updater.py read it.
pub mod Traced
pub mod Commit
use nim_hunt.Prelude.{
  ℕ, ◌+◌, String, Bool, false, ◌&&◌, ◌||◌, not, Option, none, some, List, [], ◌∷◌, ltb, leb, ◌==◌,
  if◌then◌else◌, or_else,
}
use text.Mathlib.Text.{◌==◌ as str_eq}
use nim_hunt.Tables.{update}
use nim_hunt.Cluster.Source.{
  ClusterLimits, Member, Breadth, unknown, SourceState, ClusterState, add_member, remove_member,
  refreshed, new_source, cluster_state,
}

-- A transaction of the chain; an address type is true where it is missing or "basic".
pub record ChainTx : Type 0 where
  pub confirmed : Bool
  pub sender : Option String
  pub recipient : Option String
  pub amount : Option ℕ
  pub timestamp : Option ℕ
  pub basic_sender : Bool
  pub basic_recipient : Bool

pub record Inbound : Type 0 where
  pub source : String
  pub timestamp : ℕ
  pub amount : ℕ

-- The end of `_meaningful_inbound`, once both endpoints are known.
unfoldable pub inbound_from : String → ChainTx → String → Option Inbound
inbound_from address tx sender =
    if str_eq sender address || not (tx.basic_sender && tx.basic_recipient)
    then none
    else elim tx.amount [
      | none ↦ none
      | some a ↦ elim tx.timestamp [
        | none ↦ none
        | some t ↦
            (if a == 0 then none else some (record { source = sender; timestamp = t; amount = a }))
      ]
    ]

unfoldable pub meaningful_inbound : String → ChainTx → Option Inbound
meaningful_inbound address tx = if not tx.confirmed then none else elim tx.recipient [
  | none ↦ none
  | some r ↦
      (if str_eq r address
        then elim tx.sender [ none ↦ none | some s ↦ inbound_from address tx s ]
        else none)
]

-- The first of the earliest.
unfoldable pub earliest : String → List ChainTx → Option Inbound
earliest address [] = none
earliest address (tx ∷ rest) = elim (meaningful_inbound address tx) [
  | none ↦ earliest address rest
  | some i ↦ elim (earliest address rest) [
    | none ↦ some i
    | some j ↦ (if leb i.timestamp j.timestamp then some i else some j)
  ]
]

-- What is kept of a claimant's funding: the digest of the source, and when and how much.
pub record Funding : Type 0 where
  pub source_hash : ℕ
  pub first_funding_at : ℕ
  pub first_funding_amount : ℕ

pub data Origin : Type 0 where
  provider_failure : (checked_at refresh_at : ℕ) → Origin
  recorded : Option Funding → (checked_at refresh_at : ℕ) → Origin

pub record ClusterDb : Type 0 where
  pub origins : ℕ → Option Origin
  pub sources : ℕ → Option SourceState

pub data Reply : Type 0 where
  no_answer : Reply
  answer : ClusterState → Reply

abbrev pub funding_of : Option Origin → Option Funding
funding_of none = none
funding_of (some (provider_failure checked refresh)) = none
funding_of (some (recorded f checked refresh)) = f

abbrev pub source_of : ClusterDb → Option Funding → Option SourceState
source_of db none = none
source_of db (some f) = db.sources f.source_hash

-- A record that is still fresh answers by itself.
unfoldable pub cached : ClusterDb → ℕ → Option Origin → Option Reply
cached db now none = none
cached db now (some (provider_failure checked refresh)) =
    if ltb now refresh then some no_answer else none
cached db now (some (recorded f checked refresh)) =
    if ltb now refresh then some (answer (cluster_state (source_of db f))) else none

-- A failure is recorded unless there is an observation, or a later failure.
unfoldable pub record_failure : (now retry_seconds signer : ℕ) → ClusterDb → ClusterDb
record_failure now retry_seconds signer db =
    let written = record db {
      origins = update db.origins signer (provider_failure now (now + retry_seconds));
    } in
    elim (db.origins signer) [
      | none ↦ written
      | some o ↦ elim o [
        | provider_failure checked refresh ↦ (if leb checked now then written else db)
        | recorded f checked refresh ↦ db
      ]
    ]

-- The same source, with another time or amount.
abbrev pub is_correction : Option Funding → Option Funding → Bool
is_correction (some a) (some b) =
    a.source_hash == b.source_hash
    && not (
        a.first_funding_at == b.first_funding_at
        && a.first_funding_amount == b.first_funding_amount)
is_correction _ _ = false

abbrev pub has_source : ℕ → Option Funding → Bool
has_source h none = false
has_source h (some f) = f.source_hash == h

-- The claimant leaves the source that it was recorded under, unless that is its source still.
unfoldable pub leave :
    ClusterLimits
    → ℕ
    → Option Funding
    → Option Funding
    → (ℕ → Option SourceState)
    → ℕ
    → Option SourceState
leave lim signer none new sources = sources
leave lim signer (some f) new sources =
    if has_source f.source_hash new then sources else elim (sources f.source_hash) [
      | none ↦ sources
      | some s ↦ update sources f.source_hash (remove_member lim signer s)
    ]

unfoldable pub source_or_new : Option SourceState → SourceState
source_or_new none = new_source
source_or_new (some s) = s

unfoldable pub join :
    ClusterLimits
    → (signer now cache_seconds : ℕ) → Option Breadth
    → (correction : Bool) → Option Funding
    → (ℕ → Option SourceState)
    → ℕ
    → Option SourceState
join lim signer now cache_seconds breadth correction none sources = sources
join lim signer now cache_seconds breadth correction (some f) sources =
    let m : Member = record {
      signer = signer;
      timestamp = f.first_funding_at;
      amount = f.first_funding_amount;
    } in
    let s = source_or_new (sources f.source_hash) in
    update sources f.source_hash
      (refreshed breadth now cache_seconds (add_member lim correction m s))

-- A worker that recorded an observation since this one began.
abbrev pub has_won : ℕ → Option Origin → Bool
has_won started none = false
has_won started (some (provider_failure checked refresh)) = false
has_won started (some (recorded f checked refresh)) = leb started checked

-- The transaction that records a lookup.
unfoldable pub commit :
    ClusterLimits
    → (now cache_seconds signer : ℕ) → Option Funding
    → Option Breadth
    → ClusterDb
    → ClusterState × ClusterDb
commit lim now cache_seconds signer new breadth db =
    let current = db.origins signer in
    let old = funding_of current in
    let left = leave lim signer old new db.sources in
    let sources = join lim signer now cache_seconds breadth (is_correction old new) new left in
    let db' : ClusterDb = record {
      origins = update db.origins signer (recorded new now (now + cache_seconds));
      sources = sources;
    } in
    if has_won now current
    then (cluster_state (source_of db old), db)
    else (cluster_state (source_of db' new), db')

-- What the lookup before the transaction needs: the breadth of the source, unless its record is fresh.
unfoldable pub known_breadth : ℕ → Option SourceState → Option Breadth
known_breadth now none = none
known_breadth now (some s) =
    if s.observed && ltb now (or_else s.source_refresh_at 0)
    then some (elim s.breadth [ none ↦ unknown | some b ↦ b ])
    else none

-- The whole call, on one store. `history` and `breadth_of` are none where the provider fails.
unfoldable pub observe :
    ClusterLimits
    → (hash : String → ℕ) → (now cache_seconds retry_seconds : ℕ) → (address : String)
    → (history : Option (List ChainTx)) → (breadth_of : String → Option Breadth) → ClusterDb
    → Reply × ClusterDb
observe lim hash now cache_seconds retry_seconds address history breadth_of db =
    let signer = hash address in
    let failure : Reply × ClusterDb = (no_answer, record_failure now retry_seconds signer db) in
    elim (cached db now (db.origins signer)) [
      | some r ↦ (r, db)
      | none ↦ elim history [
        | none ↦ failure
        | some txs ↦ elim (earliest address txs) [
          | none ↦
              (let (s, db') = commit lim now cache_seconds signer none none db in (answer s, db'))
          | some i ↦
              (let f : Funding = record {
                source_hash = hash i.source;
                first_funding_at = i.timestamp;
                first_funding_amount = i.amount;
              } in
                let fresh = known_breadth now (db.sources (hash i.source)) in
                let breadth : Option Breadth = elim fresh [
                  | some b ↦ some b
                  | none ↦ breadth_of i.source
                ] in
                elim breadth [
                  | none ↦ failure
                  | some b ↦
                      (let (s, db') = commit lim now cache_seconds signer (some f) (some b) db in
                        (answer s, db'))
                ])
        ]
      ]
    ]
