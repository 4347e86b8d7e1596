-- ===== src/Funding/Publish/Shown.antt =====
-- What the owner is shown of a Spot that may be published.
use nim_hunt.Prelude.{
  ℕ, ◌≡◌, refl, sym, ◌+◌, ◌<◌, ◌≤◌, inl, inr, Bool, true, false, ◌&&◌, ◌||◌, List, [], ◌∷◌, ◌==◌,
  arith, Bool-cases, filter, any,
}
use nim_hunt.Prelude.Text.{Text, same_iff}
use nim_hunt.Tables.{fill_spot, confirmed}
use nim_hunt.Funding.{FundingRow, of_kind, in_status, sum_where, address_key}
use nim_hunt.Funding.Status.{Fee, is_matching_fee, matching_confirmed, is_fill, deposit_summary}
use nim_hunt.Funding.Publish.{
  PublishRules, DraftSpot, is_of, confirmed_deposit_total, can_publish_spot, sql_key, is_exact_fee,
  has_confirmed_creation_fee, can_publish_after_fee,
}

-- The Spot's fee, as the summary gets it.
abbrev pub fee_of : (Text → Text) → DraftSpot → Fee
fee_of upper s = record {
  upper = upper;
  creation_fee = s.creation_fee;
  deposit_address = s.deposit_address;
  creation_fee_address = s.creation_fee_address;
}

sum-filter :
    (p q : FundingRow → Bool) (rows : List FundingRow)
    → sum_where p (filter q rows) ≡ sum_where (λ t. q t && p t) rows
unfolding sum_where
sum-filter p q [] = refl
sum-filter p q (t ∷ rows) =
    let rest = sum-filter p q rows in
    elim (Bool-cases (q t)) [ inl e ↦ rw e (ground arith) | inr e ↦ rw e (ground arith) ]

sum-same :
    (p q : FundingRow → Bool) (rows : List FundingRow)
    → ((t : FundingRow) → p t ≡ q t)
    → sum_where p rows ≡ sum_where q rows
unfolding sum_where
sum-same p q [] h = refl
sum-same p q (t ∷ rows) h = rw (h t, sum-same p q rows h) refl

grouped_and : (a b c : Bool) → (a && b && c) ≡ (a && (b && c))
grouped_and true b c = refl
grouped_and false b c = refl

any-sum :
    (p q : FundingRow → Bool) (least : ℕ) (rows : List FundingRow)
    → ((t : FundingRow) → p t ≡ true → (q t ≡ true) × (least ≤ t.amount))
    → any p rows ≡ true
    → least ≤ sum_where q rows
unfolding sum_where
any-sum p q least [] h e = absurd cc
any-sum p q least (t ∷ rows) h e = elim (Bool-cases (p t)) [
  | inl y ↦ let (a, b) = h t y in rw a (omega (arith, b))
  | inr n ↦ let rest = any-sum p q least rows h (rw n at e) in omega (arith, rest)
]

-- SQLite's and Python's normal forms of an address: where the first are one, so are the second.
abbrev pub Agree : (Text → Text) → Type 0
Agree upper = (a b : Text) → sql_key a ≡ sql_key b → address_key upper a ≡ address_key upper b

exact_matches :
    (upper : Text → Text) (s : DraftSpot)
    → Agree upper
    → (t : FundingRow) → is_exact_fee s t ≡ true
    → ((is_of s.spot_id t && (is_matching_fee (fee_of upper s) t && in_status confirmed t)) ≡ true)
      × (s.creation_fee ≤ t.amount)
unfolding is_exact_fee is_matching_fee
exact_matches upper s agree t h =
    let from_ =
      agree t.from_address s.deposit_address
        ((same_iff (sql_key t.from_address) (sql_key s.deposit_address)).0 (ground arith)) in
    let to_ =
      agree t.to_address s.creation_fee_address
        ((same_iff (sql_key t.to_address) (sql_key s.creation_fee_address)).0 (ground arith)) in
    let a =
      (same_iff (address_key upper t.from_address) (address_key upper s.deposit_address)).1 from_ in
    let b =
      (same_iff (address_key upper t.to_address) (address_key upper s.creation_fee_address)).1
        to_ in
    (ground arith, ground arith)

-- A Spot that may be published is shown to its owner as completely funded and its fee as paid, over
-- the Spot's rows, wherever SQLite's normal form of an address is as fine as Python's.
pub can_publish_after_fee-shown :
    (upper : Text → Text) (rules : PublishRules) (s : DraftSpot) (now : ℕ) (rows : List FundingRow)
    → Agree upper
    → can_publish_after_fee rules s now rows ≡ true
    → ((deposit_summary
          (fee_of upper s)
          s.total_value
          (filter (is_of s.spot_id) rows)).funding_complete
        ≡ true)
      × ((deposit_summary
            (fee_of upper s)
            s.total_value
            (filter (is_of s.spot_id) rows)).fee_confirmed
          ≡ true)
unfolding can_publish_after_fee can_publish_spot has_confirmed_creation_fee deposit_summary
    confirmed_deposit_total
can_publish_after_fee-shown upper rules s now rows agree h =
    let f = fee_of upper s in
    let of_spot = is_of s.spot_id in
    let fees = sum-filter (λ t. is_matching_fee f t && in_status confirmed t) of_spot rows in
    let deposits = sum-filter (λ t. is_fill t && in_status confirmed t) of_spot rows in
    let grouped =
      sum-same (λ t. of_spot t && of_kind fill_spot t && in_status confirmed t)
        (λ t. of_spot t && (is_fill t && in_status confirmed t)) rows
        (λ t. grouped_and (of_spot t) (is_fill t) (in_status confirmed t)) in
    let positive : 0 < s.total_value = ground arith in
    let enough : s.total_value + s.creation_fee
        ≤ sum_where (λ t. of_spot t && of_kind fill_spot t && in_status confirmed t) rows =
      ground arith in
    let paid : (s.creation_fee == 0 || any (is_exact_fee s) rows) ≡ true = ground arith in
    let complete : s.total_value + s.creation_fee
        ≤ sum_where (λ t. is_fill t && in_status confirmed t) (filter of_spot rows) =
      rw (deposits, sym grouped) enough in
    (
      ground arith,
      elim (Bool-cases (s.creation_fee == 0)) [
        | inl z ↦ rw z refl
        | inr n ↦
            let least =
              any-sum (is_exact_fee s)
                (λ t. of_spot t && (is_matching_fee f t && in_status confirmed t)) s.creation_fee
                rows (exact_matches upper s agree) (rw n at paid) in
            let covered : s.creation_fee ≤ matching_confirmed f (filter of_spot rows) =
              rw fees least in
            ground arith
      ],
    )
