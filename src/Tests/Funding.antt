-- ===== src/Tests/Funding.antt =====
-- A draft of 1000 for two claims, with its deposit and its fee of 100 confirmed.
use nim_hunt.Prelude.{◌≡◌, refl, ◌+◌, ◌*◌, ◌≤◌, true, false, none, some, List, [], ◌∷◌, map, filter}
use nim_hunt.Prelude.Text.{codes}
use nim_hunt.Tables.{fill_spot, creation_fee, confirmed}
use nim_hunt.Outbox.Store.{draft}
use nim_hunt.Settlement.Prizes.{standard_claim_payout_amount}
use nim_hunt.Funding.{FundingRow, sum_where}
use nim_hunt.Funding.Status.{deposit_summary}
use nim_hunt.Funding.Publish.{
  PublishRules, DraftSpot, is_of, is_publishable, meets_minimum_payout, confirmed_deposit_total,
  can_publish_spot, upper_letter, sql_key, is_exact_fee, has_confirmed_creation_fee,
  can_publish_after_fee,
}
use nim_hunt.Funding.Publish.Solvent.{can_publish_spot-solvent}
use nim_hunt.Funding.Publish.Shown.{fee_of, can_publish_after_fee-shown}
use nim_hunt.Funding.Publish.Ascii.{map_upper-Agree}

abbrev rules : PublishRules
rules = record {
  min_total_claims = 1;
  min_ends_after = 60;
  min_finite_participants = 2;
  min_claim_payout = 200;
  min_prize_payout = 200;
}

abbrev draft_spot : DraftSpot
draft_spot = record {
  spot_id = 3;
  created_by = 5;
  status = draft;
  cancellation_started = false;
  creator_active = true;
  is_complete = true;
  total_value = 1000;
  max_total_claims = 2;
  max_claims_per_user = 0;
  prize_count = none;
  starts_at = none;
  ends_at = 600;
  use_password = false;
  creation_fee = 100;
  deposit_address = codes "NQ01 AB";
  creation_fee_address = codes "NQ02 CD";
}

abbrev deposit : FundingRow
deposit = record {
  spot_id = some 3;
  user_id = 5;
  kind = fill_spot;
  amount = 1100;
  from_address = codes "NQ09 EF";
  to_address = codes "NQ01 AB";
  tx_hash = codes "aa";
  status = confirmed;
  created_at = 50;
}

abbrev fee : FundingRow
fee = record deposit {
  kind = creation_fee;
  amount = 100;
  from_address = codes "nq01ab";
  to_address = codes "NQ02CD";
}

abbrev rows : List FundingRow
rows = fee ∷ record deposit { spot_id = some 4 } ∷ deposit ∷ []

is_ready_ : can_publish_spot rules draft_spot 90 rows ≡ true
unfolding can_publish_spot is_publishable meets_minimum_payout confirmed_deposit_total sum_where
is_ready_ = refl

is_ready_with_fee : can_publish_after_fee rules draft_spot 90 rows ≡ true
unfolding can_publish_after_fee can_publish_spot is_publishable meets_minimum_payout
    confirmed_deposit_total sum_where has_confirmed_creation_fee is_exact_fee sql_key
is_ready_with_fee = refl

can_publish_spot-solvent_example :
    (200 ≤ standard_claim_payout_amount (some 2) 1000)
    × (2 * standard_claim_payout_amount (some 2) 1000 + 100 ≤ confirmed_deposit_total 3 rows)
can_publish_spot-solvent_example = can_publish_spot-solvent rules draft_spot 90 rows refl is_ready_

can_publish_after_fee-shown_example :
    ((deposit_summary
        (fee_of (map upper_letter) draft_spot)
        1000
        (filter (is_of 3) rows)).funding_complete
      ≡ true)
    × ((deposit_summary
          (fee_of (map upper_letter) draft_spot)
          1000
          (filter (is_of 3) rows)).fee_confirmed
        ≡ true)
can_publish_after_fee-shown_example =
    can_publish_after_fee-shown (map upper_letter) rules draft_spot 90 rows map_upper-Agree
      is_ready_with_fee
