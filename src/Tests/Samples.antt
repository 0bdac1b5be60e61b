-- ===== src/Tests/Samples.antt =====
-- Concrete values for the runs: whole numbers for floats, and a community with three deals.
use cn_property_agent.Prelude.{ℕ, ◌+◌, ◌/◌, ◌≡◌, ◌||◌, String, true, none, some, [], arith}
use cn_property_agent.Prelude.Int.{
  ℤ, pos, negsuc, pos_part, neg_part, sub_ℕ, ◌+ℤ◌, ◌-ℤ◌, ◌*ℤ◌, ltb_ℤ, leb_ℤ,
}
use cn_property_agent.Floats.{Floats, FloatOrder}
use cn_property_agent.Utils.{TextTools}
use cn_property_agent.Domain.Common.{Instant}
use cn_property_agent.Domain.Community.{Community}
use cn_property_agent.Providers.Dto.{RawTransactionRecord}

-- Division that drops the fraction, for a positive divisor.
abbrev pub quotient : ℤ → ℤ → ℤ
quotient (pos a) b = pos (a / pos_part b)
quotient (negsuc a) b = sub_ℕ 0 ((a + 1) / pos_part b)

instance abbrev pub whole : Floats ℤ
whole = record {
  zero_f = pos 0;
  one_f = pos 1;
  two_f = pos 2;
  lt = ltb_ℤ;
  le = leb_ℤ;
  add = λ a b. a +ℤ b;
  sub = λ a b. a -ℤ b;
  mul = λ a b. a *ℤ b;
  div = quotient;
  absolute = λ a. pos (pos_part a + neg_part a);
  is_finite = λ a. true;
  of_int = λ a. some a;
  ratio = λ m n. pos (m / n);
}

le_total_ℤ : (a b : ℤ) → (leb_ℤ a b || leb_ℤ b a) ≡ true
le_total_ℤ a b = ground arith

-- The whole numbers have the order that the theorems ask of floats.
pub whole_order : FloatOrder whole
whole_order = record {
  lt-eq = λ a b. ground arith;
  le_trans = λ a b c h k. ground arith;
  le_total = λ a b _ _. le_total_ℤ a b;
  le_antisymm = λ a b h k. ground arith;
  le_numbers = λ a b h. ground arith;
  of_int_number = λ n x h. ground arith;
}

-- Text functions that leave the text alone.
abbrev pub tools : TextTools
tools = record { sha256_hex = λ s. some s; nfkc = λ s. s; casefold = λ s. s }

abbrev pub garden : Community ℤ
garden = record {
  community_id = "c-1";
  city_code = "310000";
  canonical_name = "Garden";
  district = none;
  subdistrict = none;
  address = none;
  latitude = none;
  longitude = none;
  built_year_min = none;
  built_year_max = none;
  building_types = [];
  source_refs = [];
}

-- Collected on ordinal day 739000.
abbrev pub collected : Instant
collected = 63849600000000000

-- A deal of `area` square metres at `price`, on `day`.
abbrev pub deal : String → ℕ → ℕ → ℕ → RawTransactionRecord ℤ
deal id day area price = record {
  source = "lianjia";
  source_transaction_id = some id;
  source_url = none;
  deal_date = some day;
  area_sqm = some (pos area);
  layout = none;
  floor_bucket = some " mid ";
  orientation = none;
  built_year = some (pos 2005);
  initial_listing_price_cny = some (pos (price + 1000));
  deal_price_cny = some (pos price);
  unit_price_cny_sqm = none;
  days_on_market = some (pos 40);
  raw_payload_ref = none;
  collected_at = collected;
  parser_version = "v1";
}
