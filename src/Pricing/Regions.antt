-- ===== src/Pricing/Regions.antt =====
-- The prices of a region: only the price of traffic to the internet depends on it.
use koprobe.Prelude.{
  ok, ◌≡◌, Bool, ◌||◌, ◌==◌, text_eq, Text, codes, ℤ, if◌then◌else◌, Bool-cases, inl, inr,
}
use koprobe.Float.{Double, ◌⊗◌}
use koprobe.Pricing.{Pricer, decoded, aws_reply, default_prices}

abbrev pub is_europe : Text → Bool
is_europe region = region == codes "eu-west-1" || region == codes "eu-central-1"

abbrev pub is_asia : Text → Bool
is_asia region = region == codes "ap-southeast-1" || region == codes "ap-northeast-1"

module _ {F : Type 0} ⦃d : Double F⦄ where
  open d use {lit}

  -- The price of a gigabyte to the internet in a region.
  abbrev pub egress_price : Text → F
  egress_price region =
      if is_europe region
      then lit 9 2 ⊗ lit 11 1
      else if is_asia region
      then lit 9 2 ⊗ lit 12 1
      else lit 9 2

  -- Prices fetched from AWS are the fallback's for the same provider, region and instant, with the
  -- price of traffic to the internet times 1.1 in the two European regions, times 1.2 in the two
  -- Asian ones, and unchanged elsewhere.
  pub aws_reply-eq-default_prices :
      (p : Pricer F) (now : ℤ)
      → aws_reply p now decoded
        ≡ ok (record (default_prices (codes "aws") p.region now) {
          network_internet_egress_per_gb = egress_price p.region;
        })
  unfolding aws_reply default_prices
  aws_reply-eq-default_prices p now = elim (Bool-cases (is_europe p.region)) [
    | inl e ↦ rw e
    | inr e ↦ elim (Bool-cases (is_asia p.region)) [ inl a ↦ rw (e, a) | inr a ↦ rw (e, a) ]
  ]
