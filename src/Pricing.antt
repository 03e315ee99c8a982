-- ===== src/Pricing.antt =====
-- internal/pricing/engine.go: cached cloud prices, their refresh, and the fallback.
-- The HTTP client is an argument: what the request to a URL leads to. Instants are integers in
-- nanoseconds, each call of `time.Now` an argument. The lock makes each write one step.
pub mod Ready
pub mod Regions
pub mod Positive
pub mod Tests
use koprobe.Prelude.{
  ℕ, ◌+◌, ◌*◌, ◌^◌, ◌≡◌, Bool, true, false, ◌||◌, ◌==◌, text_eq, Text, codes, ℤ, pos, ◌-ℤ◌, ltb_ℤ,
  Option, none, some, ◌++◌, Result, ok, err, if◌then◌else◌,
}
use koprobe.Float.{Double, ◌⊗◌}

pub record ResourcePrices (F : Type 0) : Type 0 where
  pub cpu_cost_per_billion_cycles_hour : F
  pub memory_cost_per_gb_hour : F
  pub network_internet_egress_per_gb : F
  pub network_cross_az_per_gb : F
  pub disk_read_cost_per_miops : F
  pub disk_write_cost_per_miops : F
  pub gpu_cost_per_hour : F
  pub provider : Text
  pub region : Text
  pub fetched_at : ℤ

-- `prices` is a pointer: `none` is nil.
pub record Pricer (F : Type 0) : Type 0 where
  pub prices : Option (ResourcePrices F)
  pub provider : Text
  pub region : Text

-- A request ends in an error, or in a body that `json.Decode` refuses or takes.
pub data Reply : Type 0 where
  failed : Text → Reply
  malformed : Text → Reply
  decoded : Reply

abbrev pub Http : Type 0
Http = Text → Reply

aws_url : Text → Text
aws_url region =
    codes "https://pricing.us-east-1.amazonaws.com/offers/v1.0/aws/AmazonEC2/current/"
    ++ (region ++ codes "/index.json")

azure_url : Text → Text
azure_url region =
    codes "https://prices.azure.com/api/retail/prices?$filter=armRegionName eq '"
    ++ (region ++ codes "'")

abbrev pub hour : ℤ
hour = pos (3600 * 10 ^ 9)

module _ {F : Type 0} ⦃d : Double F⦄ where
  open d use {lit}

  unfoldable pub set_aws_regional_prices : ResourcePrices F → Text → ResourcePrices F
  set_aws_regional_prices p region =
      let q = record p {
        cpu_cost_per_billion_cycles_hour = lit 48 6;
        memory_cost_per_gb_hour = lit 125 4;
        network_internet_egress_per_gb = lit 9 2;
        network_cross_az_per_gb = lit 1 2;
        disk_read_cost_per_miops = lit 5 3;
        disk_write_cost_per_miops = lit 10 3;
        gpu_cost_per_hour = lit 306 2;
      } in
      if region == codes "eu-west-1" || region == codes "eu-central-1"
      then record q { network_internet_egress_per_gb = q.network_internet_egress_per_gb ⊗ lit 11 1 }
      else if region == codes "ap-southeast-1" || region == codes "ap-northeast-1"
      then record q { network_internet_egress_per_gb = q.network_internet_egress_per_gb ⊗ lit 12 1 }
      else q

  unfoldable pub default_prices : Text → Text → ℤ → ResourcePrices F
  default_prices provider region now = record {
    provider = provider;
    region = region;
    cpu_cost_per_billion_cycles_hour = lit 48 6;
    memory_cost_per_gb_hour = lit 125 4;
    network_internet_egress_per_gb = lit 9 2;
    network_cross_az_per_gb = lit 1 2;
    disk_read_cost_per_miops = lit 5 3;
    disk_write_cost_per_miops = lit 10 3;
    gpu_cost_per_hour = lit 306 2;
    fetched_at = now;
  }

  -- `&ResourcePrices{Provider: "aws", Region: region, FetchedAt: now}`
  abbrev pub blank_aws : Text → ℤ → ResourcePrices F
  blank_aws region now = record {
    cpu_cost_per_billion_cycles_hour = lit 0 0;
    memory_cost_per_gb_hour = lit 0 0;
    network_internet_egress_per_gb = lit 0 0;
    network_cross_az_per_gb = lit 0 0;
    disk_read_cost_per_miops = lit 0 0;
    disk_write_cost_per_miops = lit 0 0;
    gpu_cost_per_hour = lit 0 0;
    provider = codes "aws";
    region = region;
    fetched_at = now;
  }

  -- the fetches, after the request's outcome
  unfoldable pub aws_reply : Pricer F → ℤ → Reply → Result (ResourcePrices F)
  unfolding set_aws_regional_prices
  aws_reply p now (failed e) = err (codes "aws pricing fetch: " ++ e)
  aws_reply p now (malformed e) = err (codes "aws pricing parse: " ++ e)
  aws_reply p now decoded = ok (set_aws_regional_prices (blank_aws p.region now) p.region)

  unfoldable pub fetch_aws_prices : Http → ℤ → Pricer F → Result (ResourcePrices F)
  unfolding aws_url
  fetch_aws_prices http now p = aws_reply p now (http (aws_url p.region))

  unfoldable pub fetch_gcp_prices : ℤ → Pricer F → Result (ResourcePrices F)
  unfolding default_prices
  fetch_gcp_prices now p =
      ok (record (default_prices (codes "gcp") p.region now) { fetched_at = now })

  -- the body is not read
  unfoldable pub azure_reply : Pricer F → ℤ → Reply → Result (ResourcePrices F)
  unfolding default_prices
  azure_reply p now (failed e) = err (codes "azure pricing fetch: " ++ e)
  azure_reply p now _ =
      ok (record (default_prices (codes "azure") p.region now) { fetched_at = now })

  unfoldable pub fetch_azure_prices : Http → ℤ → Pricer F → Result (ResourcePrices F)
  unfolding azure_url
  fetch_azure_prices http now p = azure_reply p now (http (azure_url p.region))

  unfoldable pub fetch : Http → ℤ → Pricer F → Result (ResourcePrices F)
  fetch http now p =
      if p.provider == codes "aws"
      then fetch_aws_prices http now p
      else if p.provider == codes "gcp"
      then fetch_gcp_prices now p
      else if p.provider == codes "azure"
      then fetch_azure_prices http now p
      else err (codes "unsupported provider: " ++ p.provider)

  -- the pricer, and the error if there is one
  abbrev pub store_fetched : Pricer F → Result (ResourcePrices F) → Pricer F × Option Text
  store_fetched p (ok r) = (record p { prices = some r }, none)
  store_fetched p (err e) = (p, some e)

  unfoldable pub refresh : Http → ℤ → Pricer F → Pricer F × Option Text
  refresh http now p = store_fetched p (fetch http now p)

  -- `later` is the instant at which the fallback's prices are made
  abbrev pub or_default : Text → Text → ℤ → Pricer F × Option Text → Pricer F
  or_default provider region later (p, none) = p
  or_default provider region later (p, some e) = record p {
    prices = some (default_prices provider region later);
  }

  unfoldable pub new_pricer : Http → ℤ → ℤ → Text → Text → Pricer F × Option Text
  new_pricer http now later provider region = (
    or_default provider region later
        (refresh http now (record { prices = none; provider = provider; region = region })),
    none,
  )

  -- The prices, and whether a refresh is started in the background. `none` is the panic of reading
  -- a nil pointer.
  unfoldable pub get : ℤ → Pricer F → Option (ResourcePrices F × Bool)
  unfolding ◌-ℤ◌
  get now p = elim p.prices [ none ↦ none | some r ↦ some (r, ltb_ℤ hour (now -ℤ r.fetched_at)) ]
