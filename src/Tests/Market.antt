-- ===== src/Tests/Market.antt =====
-- A market with one resting seller and one queued buyer.
use exchange_matching.Base.{ℕ, ◌≡◌, refl, arith, List, [], ◌∷◌, some, Bool-cases, inl, inr, ◌==◌}
use exchange_matching.Table.{find, sum_by}
use exchange_matching.Database.{
  Db, Order, Wallet, buy, sell, queued, opened, order_check, wallet_key, order_key,
}
use exchange_matching.Wallets.Effects.{IsInRange}
use exchange_matching.OrderBook.{Waits}
use exchange_matching.Ledger.{Valid, Sound, hold_usd, hold_btc}
use exchange_matching.Ledger.Waiting.{Isolated, Quiet}

abbrev pub buyer : Wallet
buyer = record {
  user_id = 1;
  available_btc = 0;
  reserved_btc = 0;
  available_usd = 50000000000;
  reserved_usd = 22000000000;
}

abbrev pub seller : Wallet
seller = record {
  user_id = 2;
  available_btc = 300000000;
  reserved_btc = 100000000;
  available_usd = 0;
  reserved_usd = 0;
}

-- Sells 1 BTC at 100 USD.
abbrev pub resting : Order
resting = record {
  id = 0;
  sequence = 0;
  user_id = 2;
  side = sell;
  status = opened;
  price = 10000000000;
  original_amount = 100000000;
  remaining_amount = 100000000;
}

-- Buys 2 BTC at 110 USD.
abbrev pub incoming : Order
incoming = record {
  id = 1;
  sequence = 1;
  user_id = 1;
  side = buy;
  status = queued;
  price = 11000000000;
  original_amount = 200000000;
  remaining_amount = 200000000;
}

abbrev pub market : Db
market = record {
  wallets = buyer ∷ seller ∷ [];
  orders = resting ∷ incoming ∷ [];
  trades = [];
  matching_outbox = [];
  events = [];
  next_order = 2;
  next_trade = 0;
}

-- Nothing else runs.
abbrev pub alone : Waits
alone = record { for_order = λ _ _ d. d; for_wallets = λ _ _ d. d }

quiet : (locked : List ℕ) (d : Db) → Quiet locked d d
quiet locked d = record {
  keeps_valid = λ t t' v. v;
  keeps_rows = λ j o c f. f;
  keeps_place = λ j o o' f g. ground (arith, f, g);
  keeps_ahead = λ taker cursor. omega arith;
  rests_before = λ j o row rests. row;
  keeps_usd = refl;
  keeps_btc = refl;
}

pub alone-Isolated : Isolated alone
alone-Isolated = record {
  order_wait = λ locked id t t' d v. quiet locked d;
  wallets_wait = λ locked user t t' d v. quiet locked d;
}

owners :
    (id : ℕ) (o : Order)
    → find order_key id market.orders ≡ some o
    → (w : Wallet) × (find wallet_key o.user_id market.wallets ≡ some w)
unfolding find
owners id o f = elim (Bool-cases (0 == id)) [
  | inl first ↦ let user : o.user_id ≡ 2 = ground (arith, f) in (seller, ground (arith, user))
  | inr other ↦ let user : o.user_id ≡ 1 = ground (arith, f) in (buyer, ground (arith, user))
]

market-Sound : Sound market.wallets market.orders market.next_order
unfolding find sum_by order_check
market-Sound = record {
  usd_fits = omega arith;
  btc_fits = omega arith;
  rows_checked = λ id o f. ground (arith, f);
  rows_fit = λ id o f. ground (arith, f);
  owned = owners;
  distinct = ((ground arith, tt), (tt, tt));
  fresh = λ id h. ground (arith, h);
}

pub market-Valid : Valid market
unfolding find sum_by hold_usd hold_btc
market-Valid = record {
  sound = market-Sound;
  usd_reserved = λ u w f. ground (arith, f);
  btc_reserved = λ u w f. ground (arith, f);
}

pub resting_row : find order_key 0 market.orders ≡ some resting
unfolding find
resting_row = refl

pub incoming_row : find order_key 1 market.orders ≡ some incoming
unfolding find
incoming_row = refl

pub buyer_row : find wallet_key 1 market.wallets ≡ some buyer
unfolding find
buyer_row = refl

pub seller_row : find wallet_key 2 market.wallets ≡ some seller
unfolding find
seller_row = refl

pub buyer_range : IsInRange buyer
buyer_range = record {
  available_btc_le = omega arith;
  reserved_btc_le = omega arith;
  available_usd_le = omega arith;
  reserved_usd_le = omega arith;
}
