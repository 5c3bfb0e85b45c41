-- ===== src/Tests/AutoBidConfigs.antt =====
-- Configurations of automatic bids at concrete inputs.
use auction_platform_backend.Prelude.{
  ◌≡◌, refl, ◌⊎◌, inl, inr, Bool, true, false, Option, some, List, ◌∷◌, ◌==◌, filter, if◌then◌else◌,
}
use auction_platform_backend.Auction.Bid.{AutoBidConfig, slow}
use auction_platform_backend.AutoBidConfigs.{ConfigInput}
use auction_platform_backend.AutoBidConfigs.Steps.{
  ConfigStep, ConfigLaws, set_it, apply, apply-ConfigStep,
}
use auction_platform_backend.Tests.Memory.{World, memory, first}
use auction_platform_backend.Tests.Samples.{evening}

-- The configuration of user 1.
abbrev config_view : World → Option AutoBidConfig
config_view w = first (filter (λ (c : AutoBidConfig). c.user_id == 1) w.configs)

stored_one :
    (c : AutoBidConfig) (cs : List AutoBidConfig) (t : Bool)
    → (first (if t then c ∷ cs else cs) ≡ first cs) ⊎ (first (if t then c ∷ cs else cs) ≡ some c)
stored_one c cs true = inr refl
stored_one c cs false = inl refl

memory-ConfigLaws : ConfigLaws memory config_view 1 7
memory-ConfigLaws = record {
  id_same = λ w. refl;
  auction_same = λ k w. refl;
  find_same = λ w. refl;
  found_law = λ w. refl;
  save_law = λ c w.
      stored_one c (filter (λ (d : AutoBidConfig). d.user_id == 1) w.configs) (c.user_id == 1);
}

abbrev up_to_900 : ConfigInput
up_to_900 = record { auction_id = 7; user_id = 1; max_bid_amount = 900; strategy = slow }

apply-ConfigStep_example :
    ConfigStep
      (config_view evening)
      (config_view (apply memory config_view 1 7 (set_it up_to_900 refl refl) evening))
apply-ConfigStep_example =
    apply-ConfigStep memory config_view 1 7 memory-ConfigLaws (set_it up_to_900 refl refl) evening
