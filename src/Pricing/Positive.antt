-- ===== src/Pricing/Positive.antt =====
-- Every price that a pricer ever gives is positive and finite.
use koprobe.Prelude.{
  ℕ, ◌^◌, ◌<◌, ◌||◌, ◌==◌, text_eq, Text, codes, ℤ, Option, none, some, Result, ok, err, arith,
  Bool-cases, inl, inr,
}
use koprobe.Float.{Double, ◌⊗◌}
use koprobe.Float.Laws.{IsRounded, IsPositive}
use koprobe.Pricing.{
  blank_aws, ResourcePrices, Pricer, Http, Reply, failed, malformed, decoded,
  set_aws_regional_prices, aws_reply, azure_reply, fetch, fetch_aws_prices, fetch_gcp_prices,
  fetch_azure_prices, refresh, new_pricer, default_prices, store_fetched, or_default,
}

module _ {F : Type 0} ⦃d : Double F⦄ where
  pub record ArePositive (r : ResourcePrices F) : Type 0 where
    pub cpu : IsPositive r.cpu_cost_per_billion_cycles_hour
    pub memory : IsPositive r.memory_cost_per_gb_hour
    pub internet : IsPositive r.network_internet_egress_per_gb
    pub cross_az : IsPositive r.network_cross_az_per_gb
    pub disk_read : IsPositive r.disk_read_cost_per_miops
    pub disk_write : IsPositive r.disk_write_cost_per_miops
    pub gpu : IsPositive r.gpu_cost_per_hour

  -- the prices at hand, if any, are positive
  abbrev pub HasPositive : Option (ResourcePrices F) → Type 0
  HasPositive none = Unit
  HasPositive (some r) = ArePositive r

  abbrev FetchedPositive : Result (ResourcePrices F) → Type 0
  FetchedPositive (ok r) = ArePositive r
  FetchedPositive (err e) = Unit

  module _ (laws : IsRounded F) where
    open laws use {lit_positive, lit_mul_positive}

    -- the usual prices, with a given one for the network
    usual-ArePositive :
        (p : ResourcePrices F) (internet : F)
        → IsPositive internet
        → ArePositive (record p {
          cpu_cost_per_billion_cycles_hour = d.lit 48 6;
          memory_cost_per_gb_hour = d.lit 125 4;
          network_internet_egress_per_gb = internet;
          network_cross_az_per_gb = d.lit 1 2;
          disk_read_cost_per_miops = d.lit 5 3;
          disk_write_cost_per_miops = d.lit 10 3;
          gpu_cost_per_hour = d.lit 306 2;
        })
    usual-ArePositive p internet h = record {
      cpu = lit_positive 48 6 (omega arith) (omega arith) (omega arith);
      memory = lit_positive 125 4 (omega arith) (omega arith) (omega arith);
      internet = h;
      cross_az = lit_positive 1 2 (omega arith) (omega arith) (omega arith);
      disk_read = lit_positive 5 3 (omega arith) (omega arith) (omega arith);
      disk_write = lit_positive 10 3 (omega arith) (omega arith) (omega arith);
      gpu = lit_positive 306 2 (omega arith) (omega arith) (omega arith);
    }

    usual_internet : IsPositive (d.lit 9 2)
    usual_internet = lit_positive 9 2 (omega arith) (omega arith) (omega arith)

    raised_internet : (m : ℕ) → 0 < m → m < 2 ^ 53 → IsPositive (d.lit 9 2 ⊗ d.lit m 1)
    raised_internet m h k =
        lit_mul_positive 9 2 m 1 (omega arith) (omega arith) (omega arith) h k (omega arith)

    default_prices-ArePositive :
        (provider region : Text) (now : ℤ) → ArePositive (default_prices provider region now)
    unfolding default_prices
    default_prices-ArePositive provider region now =
        usual-ArePositive (default_prices provider region now) (d.lit 9 2) usual_internet

    set_aws-ArePositive :
        (p : ResourcePrices F) (region : Text) → ArePositive (set_aws_regional_prices p region)
    unfolding set_aws_regional_prices
    set_aws-ArePositive p region =
        elim (Bool-cases (region == codes "eu-west-1" || region == codes "eu-central-1")) [
          | inl e ↦ rw e (usual-ArePositive p _ (raised_internet 11 (omega arith) (omega arith)))
          | inr e ↦
              elim (Bool-cases
                (region == codes "ap-southeast-1" || region == codes "ap-northeast-1")) [
                  | inl f ↦
                      rw (e, f)
                        (usual-ArePositive p _ (raised_internet 12 (omega arith) (omega arith)))
                  | inr f ↦ rw (e, f) (usual-ArePositive p _ usual_internet)
                ]
        ]

    aws_reply-FetchedPositive :
        (p : Pricer F) (now : ℤ) (r : Reply) → FetchedPositive (aws_reply p now r)
    unfolding aws_reply
    aws_reply-FetchedPositive p now (failed e) = tt
    aws_reply-FetchedPositive p now (malformed e) = tt
    aws_reply-FetchedPositive p now decoded = set_aws-ArePositive (blank_aws p.region now) p.region

    -- a later instant changes no price
    dated :
        (r : ResourcePrices F) (now : ℤ)
        → ArePositive r
        → ArePositive (record r { fetched_at = now })
    dated r now h = record {
      cpu = h.cpu;
      memory = h.memory;
      internet = h.internet;
      cross_az = h.cross_az;
      disk_read = h.disk_read;
      disk_write = h.disk_write;
      gpu = h.gpu;
    }

    azure_reply-FetchedPositive :
        (p : Pricer F) (now : ℤ) (r : Reply) → FetchedPositive (azure_reply p now r)
    unfolding azure_reply
    azure_reply-FetchedPositive p now (failed e) = tt
    azure_reply-FetchedPositive p now (malformed e) =
        dated _ now (default_prices-ArePositive (codes "azure") p.region now)
    azure_reply-FetchedPositive p now decoded =
        dated _ now (default_prices-ArePositive (codes "azure") p.region now)

    fetch-FetchedPositive :
        (http : Http) (now : ℤ) (p : Pricer F) → FetchedPositive (fetch http now p)
    unfolding fetch fetch_aws_prices fetch_gcp_prices fetch_azure_prices
    fetch-FetchedPositive http now p = elim (Bool-cases (p.provider == codes "aws")) [
      | inl e ↦ rw e (aws_reply-FetchedPositive p now _)
      | inr e ↦ elim (Bool-cases (p.provider == codes "gcp")) [
        | inl g ↦ rw (e, g) (dated _ now (default_prices-ArePositive (codes "gcp") p.region now))
        | inr g ↦ elim (Bool-cases (p.provider == codes "azure")) [
          | inl a ↦ rw (e, g, a) (azure_reply-FetchedPositive p now _)
          | inr a ↦ rw (e, g, a) tt
        ]
      ]
    ]

    stored-HasPositive :
        (p : Pricer F) (r : Result (ResourcePrices F))
        → FetchedPositive r
        → HasPositive p.prices
        → HasPositive (store_fetched p r).0.prices
    stored-HasPositive p (ok r) h k = h
    stored-HasPositive p (err e) h k = k

    pub refresh-HasPositive :
        (http : Http) (now : ℤ) (p : Pricer F)
        → HasPositive p.prices
        → HasPositive (refresh http now p).0.prices
    unfolding refresh
    refresh-HasPositive http now p h =
        stored-HasPositive p (fetch http now p) (fetch-FetchedPositive http now p) h

    defaulted-HasPositive :
        (p : Pricer F) (later : ℤ) (r : Result (ResourcePrices F))
        → FetchedPositive r
        → HasPositive (or_default p.provider p.region later (store_fetched p r)).prices
    defaulted-HasPositive p later (ok r) h = h
    defaulted-HasPositive p later (err e) h = default_prices-ArePositive p.provider p.region later

    pub new_pricer-HasPositive :
        (http : Http) (now later : ℤ) (provider region : Text)
        → HasPositive (new_pricer http now later provider region).0.prices
    unfolding new_pricer refresh
    new_pricer-HasPositive http now later provider region =
        let p : Pricer F = record { prices = none; provider = provider; region = region } in
        defaulted-HasPositive p later (fetch http now p) (fetch-FetchedPositive http now p)
