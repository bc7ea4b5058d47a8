-- ===== src/Billing/Row.antt =====
-- The usage row that a charge writes, and how it follows from what the charge has found.
use manager_key_pro.Base.{◌≡◌, refl, subst, ap, ◌∙◌, false, ◌⊎◌, some, none, ◌∷◌, String, arith}
use manager_key_pro.Base.Int.{ℤ, pos}
use manager_key_pro.Store.Types.{Key, UsageRow, Db}
use manager_key_pro.Store.Errors.{Env, Result, ok, err, null_str, insert_usage}
use manager_key_pro.Billing.Charge.{UsageRecord, usage_row, record_usage, is_zero}
use manager_key_pro.Billing.Untouched.{SameRows}

-- The row of a charge that came to `charged`: of the key and its owner, about the request, with the
-- counts of the record, and with what was charged as its cost. It is billed, to a source, only where
-- the request used tokens; an unbilled row has no source and costs nothing.
pub record Recorded (k : Key) (rec : UsageRecord) (charged : ℤ) (row : UsageRow) : Type 0 where
  pub key_of : row.key_id ≡ k.id
  pub owner : row.user_id ≡ k.user_id
  pub model_of : row.model ≡ rec.model
  pub request : row.client_request_id ≡ null_str rec.request_id
  pub input : row.input_tokens ≡ rec.detail.input_tokens
  pub output : row.output_tokens ≡ rec.detail.output_tokens
  pub cost_is : row.cost ≡ charged
  pub paid :
      ((row.billed ≡ pos 1)
        × (is_zero rec.detail.total_tokens ≡ false)
        × ((row.source ≡ some "key_quota") ⊎ (row.source ≡ some "wallet")))
      ⊎ ((row.billed ≡ pos 0) × (charged ≡ pos 0) × (row.source ≡ none))

-- A result with its row; an error promises nothing.
abbrev pub Outcome : Key → UsageRecord → Db → Db × Result ℤ → Type 0
Outcome k rec db r = elim r.1 [
  | err _ ↦ Unit
  | ok charged ↦
      (row : UsageRow) × (r.0.usage_records ≡ row ∷ db.usage_records)
      × (r.0.request_logs ≡ db.request_logs)
      × Recorded k rec charged row
]

-- What is known of a source and its flag before the row is written.
abbrev pub Paid : UsageRecord → ℤ → String → ℤ → Type 0
Paid rec charged source billed =
    ((billed ≡ pos 1)
      × (is_zero rec.detail.total_tokens ≡ false)
      × ((null_str source ≡ some "key_quota") ⊎ (null_str source ≡ some "wallet")))
    ⊎ ((billed ≡ pos 0) × (charged ≡ pos 0) × (null_str source ≡ none))

abbrev pub PaidResult : UsageRecord → Result (ℤ × String × ℤ) → Type 0
PaidResult rec (err e) = Unit
PaidResult rec (ok (charged, source, billed)) = Paid rec charged source billed

pub record_usage-Outcome :
    (env : Env) (start db : Db) (k : Key) (rec : UsageRecord) (charged : ℤ) (source : String)
    (billed : ℤ)
    → env.fails (insert_usage k.id) ≡ false
    → SameRows start db
    → Paid rec charged source billed
    → Outcome k rec start (record_usage env db k rec charged source billed, ok charged)
unfolding record_usage usage_row
record_usage-Outcome env start db k rec charged source billed writes same paid = (
  usage_row env k rec charged source billed,
  rw (record_usage, writes)
      (ap (λ rows. usage_row env k rec charged source billed ∷ rows) same.usage),
  rw (record_usage, writes) same.logs,
  record {
    key_of = refl;
    owner = refl;
    model_of = refl;
    request = refl;
    input = refl;
    output = refl;
    cost_is = refl;
    paid = paid;
  },
)

pub Recorded-key :
    {k k' : Key} {rec : UsageRecord} {charged : ℤ} {row : UsageRow}
    → k'.id ≡ k.id
    → k'.user_id ≡ k.user_id
    → Recorded k' rec charged row
    → Recorded k rec charged row
Recorded-key same_id same_user h = record {
  key_of = h.key_of ∙ same_id;
  owner = h.owner ∙ same_user;
  model_of = h.model_of;
  request = h.request;
  input = h.input;
  output = h.output;
  cost_is = h.cost_is;
  paid = h.paid;
}

pub Outcome-row :
    (k : Key) (rec : UsageRecord) (start : Db) (r : Db × Result ℤ) (charged : ℤ)
    → r.1 ≡ ok charged
    → Outcome k rec start r
    → (row : UsageRow) × (r.0.usage_records ≡ row ∷ start.usage_records)
      × (r.0.request_logs ≡ start.request_logs)
      × Recorded k rec charged row
Outcome-row k rec start (db, err e) charged h out = absurd (ground (arith, h))
Outcome-row k rec start (db, ok c) charged h out =
    let same : c ≡ charged = ground (arith, h) in
    subst
      (λ n.
        (row : UsageRow) × (db.usage_records ≡ row ∷ start.usage_records)
        × (db.request_logs ≡ start.request_logs)
        × Recorded k rec n row)
      same out

pub Outcome-key :
    (k k' : Key) (rec : UsageRecord) (start : Db) (r : Db × Result ℤ)
    → k'.id ≡ k.id
    → k'.user_id ≡ k.user_id
    → Outcome k' rec start r
    → Outcome k rec start r
Outcome-key k k' rec start (db, err e) same_id same_user out = tt
Outcome-key k k' rec start (db, ok c) same_id same_user (row, usage, logs, h) =
    (row, usage, logs, Recorded-key same_id same_user h)
