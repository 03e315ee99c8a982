-- ===== src/Pricing/Ready.antt =====
-- The prices that a pricer of internal/pricing/engine.go holds after its calls, for every network.
use koprobe.Prelude.{
  Result, ok, err, ◌≡◌, refl, sym, ◌≢◌, false, ◌==◌, text_eq, Text, codes, text_beq_sound, ℤ, ◌++◌,
  ltb_ℤ, ◌-ℤ◌, text_beq, none, some, arith, Bool-cases, inl, inr,
}
use koprobe.Float.{Double}
use koprobe.Pricing.{
  ResourcePrices, Pricer, Http, Reply, failed, malformed, decoded, aws_reply, azure_reply, fetch,
  fetch_aws_prices, fetch_gcp_prices, fetch_azure_prices, refresh, new_pricer, get, hour,
  default_prices, store_fetched, or_default,
}

module _ {F : Type 0} ⦃d : Double F⦄ where
  pub record IsFor (provider region : Text) (r : ResourcePrices F) : Type 0 where
    pub same_provider : r.provider ≡ provider
    pub same_region : r.region ≡ region

  abbrev pub IsReady : Pricer F → Type 0
  IsReady p = (r : ResourcePrices F) × (p.prices ≡ some r) × IsFor p.provider p.region r

  abbrev FetchedFor : Pricer F → ℤ → Result (ResourcePrices F) → Type 0
  FetchedFor p now (ok r) = IsFor p.provider p.region r × (r.fetched_at ≡ now)
  FetchedFor p now (err e) = Unit

  aws_reply-FetchedFor :
      (p : Pricer F) (now : ℤ) (r : Reply)
      → p.provider ≡ codes "aws"
      → FetchedFor p now (aws_reply p now r)
  unfolding aws_reply
  aws_reply-FetchedFor p now (failed e) h = tt
  aws_reply-FetchedFor p now (malformed e) h = tt
  aws_reply-FetchedFor p now decoded h = ground arith

  azure_reply-FetchedFor :
      (p : Pricer F) (now : ℤ) (r : Reply)
      → p.provider ≡ codes "azure"
      → FetchedFor p now (azure_reply p now r)
  unfolding azure_reply
  azure_reply-FetchedFor p now (failed e) h = tt
  azure_reply-FetchedFor p now (malformed e) h = ground arith
  azure_reply-FetchedFor p now decoded h = ground arith

  -- Whatever the network replies, prices that a fetch returns are for the pricer's own provider and
  -- region, and carry the instant of the fetch.
  pub fetch-FetchedFor :
      (http : Http) (now : ℤ) (p : Pricer F) → FetchedFor p now (fetch http now p)
  unfolding fetch fetch_aws_prices fetch_gcp_prices fetch_azure_prices
  fetch-FetchedFor http now p = elim (Bool-cases (p.provider == codes "aws")) [
    | inl e ↦ rw e (aws_reply-FetchedFor p now _ (text_beq_sound _ _ e))
    | inr e ↦ elim (Bool-cases (p.provider == codes "gcp")) [
      | inl g ↦
          rw (e, g)
            (record { same_provider = sym (text_beq_sound _ _ g); same_region = refl }, refl)
      | inr g ↦ elim (Bool-cases (p.provider == codes "azure")) [
        | inl a ↦ rw (e, g, a) (azure_reply-FetchedFor p now _ (text_beq_sound _ _ a))
        | inr a ↦ rw (e, g, a) tt
      ]
    ]
  ]

  stored-IsReady :
      (p : Pricer F) (now : ℤ) (r : Result (ResourcePrices F))
      → FetchedFor p now r
      → IsReady p
      → IsReady (store_fetched p r).0
  stored-IsReady p now (ok r) h k = (r, refl, h.0)
  stored-IsReady p now (err e) h k = k

  -- A refresh, failed or not, leaves a ready pricer ready.
  pub refresh-IsReady :
      (http : Http) (now : ℤ) (p : Pricer F) → IsReady p → IsReady (refresh http now p).0
  unfolding refresh
  refresh-IsReady http now p h =
      stored-IsReady p now (fetch http now p) (fetch-FetchedFor http now p) h

  defaulted-IsReady :
      (p : Pricer F) (now later : ℤ) (r : Result (ResourcePrices F))
      → FetchedFor p now r
      → IsReady (or_default p.provider p.region later (store_fetched p r))
  defaulted-IsReady p now later (ok r) h = (r, refl, h.0)
  defaulted-IsReady p now later (err e) h = (
    default_prices p.provider p.region later,
    refl,
    unfold default_prices in record { same_provider = refl; same_region = refl },
  )

  -- `New` never fails, and its pricer is ready, for any provider and region, unknown ones included,
  -- and whatever the network replies.
  pub new_pricer-IsReady :
      (http : Http) (now later : ℤ) (provider region : Text)
      → let made = new_pricer {F = F} http now later provider region in
        IsReady made.0 × (made.1 ≡ none) × (made.0.provider ≡ provider) × (made.0.region ≡ region)
  unfolding new_pricer refresh
  new_pricer-IsReady http now later provider region =
      let p : Pricer F = record { prices = none; provider = provider; region = region } in
      let r = fetch http now p in
      let h = fetch-FetchedFor http now p in
      let (a, b) = defaulted_same p later r in (defaulted-IsReady p now later r h, refl, a, b)
    where
      defaulted_same :
          (p : Pricer F) (later : ℤ) (r : Result (ResourcePrices F))
          → let q = or_default p.provider p.region later (store_fetched p r) in
            (q.provider ≡ p.provider) × (q.region ≡ p.region)
      defaulted_same p later (ok r) = (refl, refl)
      defaulted_same p later (err e) = (refl, refl)

  -- What happens to a pricer after it is made: `Get` reads it, and refreshes end in the background,
  -- at any time and with any reply.
  pub data Step : Pricer F → Pricer F → Type 0 where
    refreshed : (http : Http) (now : ℤ) (p : Pricer F) → Step p (refresh http now p).0

  pub data Reach (p : Pricer F) : Pricer F → Type 0 where
    here : Reach p p
    next : {q r : Pricer F} → Reach p q → Step q r → Reach p r

  Step-IsReady : {p q : Pricer F} → Step p q → IsReady p → IsReady q
  Step-IsReady (refreshed http now p) h = refresh-IsReady http now p h

  Reach-IsReady : {p q : Pricer F} → Reach p q → IsReady p → IsReady q
  Reach-IsReady here h = h
  Reach-IsReady (next r s) h = Step-IsReady s (Reach-IsReady r h)

  get-of_some :
      (t : ℤ) (p : Pricer F) (r : ResourcePrices F)
      → p.prices ≡ some r
      → get t p ≡ some (r, ltb_ℤ hour (t -ℤ r.fetched_at))
  unfolding get
  get-of_some t p r e = ground arith

  -- `Get` on a pricer that `New` made never reads a nil pointer, however many refreshes came
  -- between and whatever became of them: it returns prices for the pricer's provider and region,
  -- and starts a refresh exactly when they were fetched more than an hour before.
  pub get_total :
      (http : Http) (now later : ℤ) (provider region : Text) (p : Pricer F) (t : ℤ)
      → Reach (new_pricer http now later provider region).0 p
      → (r : ResourcePrices F) × (get t p ≡ some (r, ltb_ℤ hour (t -ℤ r.fetched_at)))
        × IsFor p.provider p.region r
  get_total http now later provider region p t reach =
      let (r, e, good) =
        Reach-IsReady reach (new_pricer-IsReady http now later provider region).0 in
      (r, get-of_some t p r e, good)

  -- A provider that the program does not know never gets other prices: every refresh is an error
  -- and leaves the pricer as it is.
  pub refresh_unknown :
      (http : Http) (now : ℤ) (p : Pricer F)
      → p.provider ≢ codes "aws"
      → p.provider ≢ codes "gcp"
      → p.provider ≢ codes "azure"
      → refresh http now p ≡ (p, some (codes "unsupported provider: " ++ p.provider))
  unfolding refresh fetch
  refresh_unknown http now p a g z =
      rw (not_beq p.provider _ a, not_beq p.provider _ g, not_beq p.provider _ z)
    where
      not_beq : (s t : Text) → s ≢ t → text_beq s t ≡ false
      not_beq s t h = ground (arith, text_beq_sound s t)
