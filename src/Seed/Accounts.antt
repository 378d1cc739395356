-- ===== src/Seed/Accounts.antt =====
-- backend/prisma/seed.ts, `createSeedUsers`: a user each with a wallet.
use exchange_matching.Base.{ℕ, ◌+◌, ◌*◌, List, [], ◌∷◌, ◌++◌}
use exchange_matching.Decimal.{scale_units}
use exchange_matching.Database.{Db, Wallet}

-- `DECIMAL`, of a text with eight places.
abbrev pub decimal : (whole places : ℕ) → ℕ
decimal whole places = whole * scale_units + places

abbrev pub seed_seller_1 : ℕ
seed_seller_1 = 0

abbrev pub seed_seller_2 : ℕ
seed_seller_2 = 1

abbrev pub seed_buyer_1 : ℕ
seed_buyer_1 = 2

abbrev pub seed_queue_buyer : ℕ
seed_queue_buyer = 3

abbrev pub seed_queue_seller : ℕ
seed_queue_seller = 4

abbrev pub seed_history_seller : ℕ
seed_history_seller = 5

abbrev pub seed_history_buyer : ℕ
seed_history_buyer = 6

unfoldable pub seed_wallets : List Wallet
seed_wallets =
    record {
      user_id = seed_seller_1;
      available_btc = decimal 99 60000000;
      reserved_btc = decimal 0 40000000;
      available_usd = decimal 100000 0;
      reserved_usd = decimal 0 0;
    }
    ∷ record {
      user_id = seed_seller_2;
      available_btc = decimal 99 70000000;
      reserved_btc = decimal 0 30000000;
      available_usd = decimal 100000 0;
      reserved_usd = decimal 0 0;
    }
    ∷ record {
      user_id = seed_buyer_1;
      available_btc = decimal 100 0;
      reserved_btc = decimal 0 0;
      available_usd = decimal 95600 0;
      reserved_usd = decimal 4400 0;
    }
    ∷ record {
      user_id = seed_queue_buyer;
      available_btc = decimal 100 0;
      reserved_btc = decimal 0 0;
      available_usd = decimal 90000 0;
      reserved_usd = decimal 10000 0;
    }
    ∷ record {
      user_id = seed_queue_seller;
      available_btc = decimal 99 40000000;
      reserved_btc = decimal 0 60000000;
      available_usd = decimal 100000 0;
      reserved_usd = decimal 0 0;
    }
    ∷ record {
      user_id = seed_history_seller;
      available_btc = decimal 99 0;
      reserved_btc = decimal 0 25000000;
      available_usd = decimal 107537 12500000;
      reserved_usd = decimal 0 0;
    }
    ∷ record {
      user_id = seed_history_buyer;
      available_btc = decimal 100 74775000;
      reserved_btc = decimal 0 0;
      available_usd = decimal 92425 0;
      reserved_usd = decimal 0 0;
    }
    ∷ []

unfoldable pub create_seed_users : Db → Db
unfolding seed_wallets
create_seed_users d = record d { wallets = d.wallets ++ seed_wallets }
