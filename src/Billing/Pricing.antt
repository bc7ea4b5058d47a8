-- ===== src/Billing/Pricing.antt =====
-- internal/billing/pricing.go: the pricing table and the cost of a usage record.
use manager_key_pro.Base.{
  ℕ, Bool, true, false, ◌||◌, none, some, List, [], ◌∷◌, String, str_eq, has_prefix, split,
  to_lower, if◌then◌else◌, select_first, exists_row, update_where,
}
use manager_key_pro.Base.Int.{ℤ}
use manager_key_pro.Store.Errors.{
  sql_failure, wrap, Result, ok, err, Env, select_price, insert_price, count_pricing,
}

-- Go's float64, which the program uses for prices. Its arithmetic is a parameter.
pub record Floats : Type 1 where
  pub F : Type 0
  pub of_int : ℤ → F  -- float64(n)
  pub to_int : F → ℤ  -- int64(x)
  pub ratio : ℕ → ℕ → F  -- the constant a / b
  pub add : F → F → F
  pub mul : F → F → F
  pub div : F → F → F
  pub less : F → F → Bool
  pub less_eq : F → F → Bool

-- `Price`, a row of pricing: micro-credit per million tokens.
pub record Price (F : Type 0) : Type 0 where
  pub model : String
  pub input_per_mtok : F
  pub output_per_mtok : F
  pub reasoning_per_mtok : F
  pub cache_read_per_mtok : F
  pub cache_write_per_mtok : F
  pub per_call_credit : F
  pub hold_multiplier : F

-- The token counts of `UsageRecord.Detail`.
pub record Detail : Type 0 where
  pub input_tokens : ℤ
  pub output_tokens : ℤ
  pub reasoning_tokens : ℤ
  pub cached_tokens : ℤ
  pub cache_read_tokens : ℤ
  pub cache_creation_tokens : ℤ
  pub total_tokens : ℤ

-- `isCacheAdditive`
unfoldable pub is_cache_additive : String → Bool
unfolding to_lower
is_cache_additive provider = let p = to_lower provider in str_eq p "anthropic" || str_eq p "claude"

module _ (fl : Floats) where
  open fl use {F, of_int, to_int, ratio, add, mul, div}

  -- A default price; the fields are in units of the currency's millionth, all whole numbers.
  default_price : String → ℕ → ℕ → ℕ → ℕ → ℕ → Price F
  default_price m i o r cr cw = record {
    model = m;
    input_per_mtok = ratio i 1;
    output_per_mtok = ratio o 1;
    reasoning_per_mtok = ratio r 1;
    cache_read_per_mtok = ratio cr 1;
    cache_write_per_mtok = ratio cw 1;
    per_call_credit = ratio 0 1;
    hold_multiplier = ratio 15 10;
  }

  -- `DefaultPrices`
  unfoldable pub default_prices : List (Price F)
  unfolding default_price
  default_prices =
      default_price "claude-sonnet-5" 3000000 15000000 15000000 1000000 4000000
      ∷ default_price "claude-opus-5" 15000000 75000000 75000000 2000000 19000000
      ∷ default_price "claude-haiku-5" 1000000 4000000 4000000 1000000 1000000
      ∷ []

  -- The price when neither the table nor the defaults have the model's family.
  unfoldable pub sonnet_price : String → Price F
  unfolding default_price
  sonnet_price m = default_price m 3000000 15000000 0 0 0

  -- The pricing table, and the order in which Go ranges over the map of defaults in this call.
  pub record Pricing : Type 0 where
    pub table : List (Price F)
    pub range : List (Price F)

  abbrev pub has_model : String → Price F → Bool
  has_model m p = str_eq p.model m

  -- The first part of a text before "-".
  abbrev pub family : String → String
  family m = elim (split m b'-') [ [] ↦ "" | f ∷ _ ↦ f ]

  -- The last two fallbacks of `LoadPrice`.
  unfoldable pub family_price : Pricing → String → Price F
  unfolding sonnet_price
  family_price pr m = elim (select_first (λ p. has_prefix p.model (family m)) pr.range) [
    | none ↦ sonnet_price m
    | some p ↦ p
  ]

  -- The fallbacks of `LoadPrice`.
  unfoldable pub default_for : Pricing → String → Price F
  unfolding default_prices family_price
  default_for pr m = elim (select_first (has_model m) default_prices) [
    | none ↦ family_price pr m
    | some p ↦ p
  ]

  -- `LoadPrice`: it returns no error.
  unfoldable pub load_price : Env → Pricing → String → Price F
  unfolding default_for
  load_price env pr m =
      if env.fails (select_price m)
      then default_for pr m
      else (elim (select_first (has_model m) pr.table) [ none ↦ default_for pr m | some p ↦ p ])

  -- `ComputeCost`
  unfoldable pub compute_cost : String → Detail → Price F → ℤ
  unfolding is_cache_additive
  compute_cost provider d p =
      let base =
        add
          (add (mul (of_int d.input_tokens) p.input_per_mtok)
            (mul (of_int d.output_tokens) p.output_per_mtok))
          (mul (of_int d.reasoning_tokens) p.reasoning_per_mtok) in
      let micro =
        if is_cache_additive provider
        then add (add base (mul (of_int d.cache_read_tokens) p.cache_read_per_mtok))
            (mul (of_int d.cache_creation_tokens) p.cache_write_per_mtok)
        else base in
      to_int (div micro (ratio 1000000 1))

  -- `UpdatePrice`: an upsert by model.
  unfoldable pub update_price : Env → List (Price F) → Price F → List (Price F) × Result (Unit {0})
  update_price env table p =
      if env.fails (insert_price p.model)
      then (table, err sql_failure)
      else if exists_row (has_model p.model) table
      then (update_where (has_model p.model) (λ _. p) table, ok tt)
      else (p ∷ table, ok tt)

  -- The inserts of `SeedPricing`, in the order of the range over the map.
  seed_rows : Env → List (Price F) → List (Price F) → List (Price F) × Result (Unit {0})
  seed_rows env [] table = (table, ok tt)
  seed_rows env (p ∷ ps) table = elim (env.fails (insert_price p.model)) [
    | true ↦ (table, err (wrap sql_failure))
    | false ↦ seed_rows env ps (p ∷ table)
  ]

  -- `SeedPricing`
  unfoldable pub seed_pricing : Env → Pricing → List (Price F) × Result (Unit {0})
  unfolding seed_rows
  seed_pricing env pr =
      if env.fails count_pricing
      then (pr.table, err (wrap sql_failure))
      else (elim pr.table [ [] ↦ seed_rows env pr.range [] | p ∷ ps ↦ (p ∷ ps, ok tt) ])
