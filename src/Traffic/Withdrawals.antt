-- ===== src/Traffic/Withdrawals.antt =====
-- A cancellation, or a rejection, by another transaction: backend/src/orders/orders.service.ts,
-- `cancelOrder`, and backend/src/matching/matching.service.ts, `rejectOrderAfterFailedProcessing`.
use exchange_matching.Base.{
  ℕ, ◌≤◌, ◌≡◌, refl, ap, ◌∙◌, List, [], ◌∷◌, ◌++◌, some, true, false, arith, ok, Bool-cases,
  Option-cases, Result-cases, inl, inr, Bool,
}
use exchange_matching.Table.{find, find-key}
use exchange_matching.Database.{
  Db, Order, Wallet, Event, Status, buy, sell, cancelled, rejected, Void, order_key, wallet_key,
  order_check, load_order, update_status, append_events, market_changed, account_changed,
  order_cancelled, order_rejected,
}
use exchange_matching.Database.Laws.{with_order}
use exchange_matching.Wallets.{find_by_user_id, release_funds}
use exchange_matching.Wallets.Effects.{IsInRange}
use exchange_matching.Wallets.Reservations.{reserved, release_funds-eq, release_funds-ok}
use exchange_matching.Orders.{is_active_status, load_order_of, cancel_order}
use exchange_matching.Orders.Release.{
  with_status, held_by, released, released-ValidBut, usd_total-released, btc_total-released,
}
use exchange_matching.OrderBook.{is_resting}
use exchange_matching.Matching.{contains, is_queued, reject_order}
use exchange_matching.Matching.Step.{Side-cases}
use exchange_matching.Ledger.{Sound}
use exchange_matching.Ledger.Moves.{Sound-IsInRange}
use exchange_matching.Traffic.Steps.{Harmless, Harmless-refl, SameBook-replace}
use exchange_matching.Traffic.{commit}

-- What is known of an order that was withdrawn with status `s`.
pub record Withdrawal (o : Order) (s : Status) (w : Wallet) (es : List Event) (d d' : Db)
    : Type 0 where
  pub row : find order_key o.id d.orders ≡ some o
  pub wallet : find wallet_key o.user_id d.wallets ≡ some w
  pub active : is_active_status o.status ≡ true
  pub covered : held_by o ≤ reserved o.side w
  pub inactive : is_active_status s ≡ false
  pub gone : is_resting s ≡ false
  pub checked : order_check (with_status o s) ≡ true
  pub result : released o s w es d ≡ d'

pub Withdrawal-Harmless :
    (locked : List ℕ) (o : Order) (s : Status) (w : Wallet) (es : List Event) (d d' : Db)
    → contains o.id locked ≡ false
    → Withdrawal o s w es d d'
    → Harmless locked d d'
Withdrawal-Harmless locked o s w es d d' free k = rw⁻¹ k.result (record {
  valid = λ t t' v.
      released-ValidBut o s w es d k.row k.wallet k.active k.covered t t' v k.inactive k.checked;
  book = SameBook-replace locked o s d.orders k.row free k.gone;
  usd_kept = usd_total-released o s w es d k.row k.wallet k.active k.covered;
  btc_kept = btc_total-released o s w es d k.row k.wallet k.active k.covered;
})

module _ (o : Order) (s : Status) (w : Wallet) (d : Db)
    (row : find order_key o.id d.orders ≡ some o)
    (wallet : find wallet_key o.user_id d.wallets ≡ some w) (range : IsInRange w) where
  -- A release behind the write of the order, when it goes through.
  release-known :
      (r : Void × Db)
      → release_funds o (with_order o.id (with_status o s) d) ≡ ok r
      → (held_by o ≤ reserved o.side w) × (r ≡ (tt, released o s w d.events d))
  release-known r h = elim (Side-cases o.side) [
    | inl e ↦
        let known =
          release_funds-ok o w (with_order o.id (with_status o s) d) wallet range buy e r h in
        ground (
          arith,
          e,
          release_funds-eq o w (with_order o.id (with_status o s) d) wallet range buy e known.0
              known.1,
          known.0,
        )
    | inr e ↦
        let known =
          release_funds-ok o w (with_order o.id (with_status o s) d) wallet range sell e r h in
        ground (
          arith,
          e,
          release_funds-eq o w (with_order o.id (with_status o s) d) wallet range sell e known.0
              known.1,
          known.0,
        )
  ]

order_check-withdrawn :
    (o : Order) (s : Status) (d : Db) (r : Order × Db)
    → find order_key o.id d.orders ≡ some o
    → update_status o.id s d ≡ ok r
    → (order_check (with_status o s) ≡ true)
      × (r ≡ (with_status o s, with_order o.id (with_status o s) d))
unfolding update_status
order_check-withdrawn o s d r row h = ground (arith, row)

module _ (o : Order) (w : Wallet) (d : Db) (row : find order_key o.id d.orders ≡ some o)
    (wallet : find wallet_key o.user_id d.wallets ≡ some w) (range : IsInRange w) where
  abbrev cancel_events : ℕ → List Event
  cancel_events u =
      d.events
      ++ market_changed order_cancelled o.id [] ∷ account_changed order_cancelled o.id [] u ∷ []

  cancel-known :
      (u : ℕ) (a : Order) (d' : Db)
      → cancel_order u o.id d ≡ ok (a, d')
      → Withdrawal o cancelled w (cancel_events u) d d'
  unfolding cancel_order load_order_of load_order find_by_user_id append_events
  cancel-known u a d' h =
      let active : is_active_status o.status ≡ true = ground (arith, row) in
      let mine : o.user_id ≡ u = ground (arith, row) in
      elim (Result-cases (update_status o.id cancelled d)) [
        | inl (e, failed) ↦ ground (arith, row, wallet, failed, mine)
        | inr (r, written) ↦
            let known = order_check-withdrawn o cancelled d r row written in
            elim (Result-cases (release_funds o (with_order o.id (with_status o cancelled) d))) [
              | inl (e, failed) ↦ ground (arith, row, wallet, written, known, failed, mine)
              | inr (r', freed) ↦
                  let release = release-known o cancelled w d row wallet range r' freed in
                  record {
                    row = row;
                    wallet = wallet;
                    active = active;
                    covered = release.0;
                    inactive = refl;
                    gone = refl;
                    checked = known.0;
                    result = ground (arith, row, wallet, written, known.1, freed, release.1, mine);
                  }
            ]
      ]

  reject-known :
      (a : Bool) (d' : Db)
      → is_queued o.status ≡ true
      → reject_order o.id d ≡ ok (a, d')
      → Withdrawal o rejected w
          (d.events ++ account_changed order_rejected o.id [] o.user_id ∷ [])
          d
          d'
  unfolding reject_order load_order append_events
  reject-known a d' q h = elim (Result-cases (update_status o.id rejected d)) [
    | inl (e, failed) ↦ ground (arith, row, q, failed)
    | inr (r, written) ↦
        let known = order_check-withdrawn o rejected d r row written in
        elim (Result-cases (release_funds o (with_order o.id (with_status o rejected) d))) [
          | inl (e, failed) ↦ ground (arith, row, q, written, known, failed)
          | inr (r', freed) ↦
              let release = release-known o rejected w d row wallet range r' freed in
              record {
                row = row;
                wallet = wallet;
                active = ground (arith, q);
                covered = release.0;
                inactive = refl;
                gone = refl;
                checked = known.0;
                result = ground (arith, row, q, written, known.1, freed, release.1);
              }
        ]
  ]

-- Whoever withdraws an order that is not locked, the one that waits sees a harmless step.
module _ (locked : List ℕ) (id : ℕ) (d : Db) (sound : Sound d.wallets d.orders d.next_order)
    (free : contains id locked ≡ false) where
  cancelled-Harmless :
      (u : ℕ) (a : Order) (d' : Db) → cancel_order u id d ≡ ok (a, d') → Harmless locked d d'
  unfolding cancel_order load_order_of load_order
  cancelled-Harmless u a d' h = elim (Option-cases (find order_key id d.orders)) [
    | inl missing ↦ ground (arith, missing)
    | inr (o, row) ↦
        let e = find-key order_key id d.orders o row in
        let own = sound.owned id o row in
        let known =
          cancel-known o own.0 d (ap (λ (k : ℕ). find order_key k d.orders) e ∙ row) own.1
            (Sound-IsInRange d.wallets d.orders d.next_order o.user_id own.0 sound own.1) u a d'
            (ap (λ (k : ℕ). cancel_order u k d) e ∙ h) in
        Withdrawal-Harmless locked o cancelled own.0 _ d d'
          (ap (λ (k : ℕ). contains k locked) e ∙ free) known
  ]

  rejected-Harmless : (a : Bool) (d' : Db) → reject_order id d ≡ ok (a, d') → Harmless locked d d'
  unfolding reject_order load_order
  rejected-Harmless a d' h = elim (Option-cases (find order_key id d.orders)) [
    | inl missing ↦ let same : d ≡ d' = ground (arith, missing) in rw same (Harmless-refl locked d')
    | inr (o, row) ↦
        let e = find-key order_key id d.orders o row in
        let own = sound.owned id o row in
        elim (Bool-cases (is_queued o.status)) [
          | inl q ↦
              let known =
                reject-known o own.0 d (ap (λ (k : ℕ). find order_key k d.orders) e ∙ row) own.1
                  (Sound-IsInRange d.wallets d.orders d.next_order o.user_id own.0 sound own.1) a d'
                  q (ap (λ (k : ℕ). reject_order k d) e ∙ h) in
              Withdrawal-Harmless locked o rejected own.0 _ d d'
                (ap (λ (k : ℕ). contains k locked) e ∙ free) known
          | inr left ↦
              let same : d ≡ d' = ground (arith, row, left) in rw same (Harmless-refl locked d')
        ]
  ]

  pub cancel_order-Harmless : (u : ℕ) → Harmless locked d (commit (cancel_order u id d) d)
  cancel_order-Harmless u = elim (Result-cases (cancel_order u id d)) [
    | inl (e, failed) ↦ rw failed (Harmless-refl locked d)
    | inr (r, done) ↦ rw done (cancelled-Harmless u r.0 r.1 done)
  ]

  pub reject_order-Harmless : Harmless locked d (commit (reject_order id d) d)
  reject_order-Harmless = elim (Result-cases (reject_order id d)) [
    | inl (e, failed) ↦ rw failed (Harmless-refl locked d)
    | inr (r, done) ↦ rw done (rejected-Harmless r.0 r.1 done)
  ]
