-- ===== src/Traffic/Steps.antt =====
-- How one transaction of another user looks to the transaction that waits.
use exchange_matching.Base.{
  ℕ, ◌≤◌, ◌≡◌, ◌≢◌, ◌⊎◌, sym, refl, ◌∙◌, List, [], ◌∷◌, ◌++◌, Option, some, true, false, arith,
  ◌==◌, Bool-cases, inl, inr, ==→eq, if◌then◌else◌,
}
use exchange_matching.Table.{
  find, replace, find-replace_self, find-replace_ne, sum_by-replace, sum_by-append_one,
}
use exchange_matching.Database.{Db, Order, Status, order_key}
use exchange_matching.OrderBook.{MakerCursor, is_candidate, is_resting}
use exchange_matching.Matching.{contains}
use exchange_matching.Ledger.{ValidBut, usd_total, btc_total}
use exchange_matching.Ledger.Waiting.{Quiet, ahead}

-- What the rows of two tables have in common before and after: the locked ones are the same, each
-- that is there keeps its place, and none becomes a candidate.
pub record SameBook (locked : List ℕ) (os os' : List Order) : Type 0 where
  pub stays :
      (j : ℕ) (o : Order)
      → contains j locked ≡ true
      → find order_key j os ≡ some o
      → find order_key j os' ≡ some o
  pub place :
      (j : ℕ) (o : Order)
      → find order_key j os ≡ some o
      → (o' : Order) × (find order_key j os' ≡ some o')
        × (o'.price ≡ o.price)
        × (o'.sequence ≡ o.sequence)
  pub was_there :
      (j : ℕ) (o : Order)
      → find order_key j os' ≡ some o
      → is_resting o.status ≡ true
      → find order_key j os ≡ some o
  pub fewer :
      (taker : Order) (cursor : Option MakerCursor) → ahead taker cursor os' ≤ ahead taker cursor os

pub SameBook-refl : (locked : List ℕ) (os : List Order) → SameBook locked os os
SameBook-refl locked os = record {
  stays = λ j o c f. f;
  place = λ j o f. (o, f, refl, refl);
  was_there = λ j o f r. f;
  fewer = λ taker cursor. omega arith;
}

pub SameBook-trans :
    (locked : List ℕ) (os os' os'' : List Order)
    → SameBook locked os os'
    → SameBook locked os' os''
    → SameBook locked os os''
SameBook-trans locked os os' os'' a b = record {
  stays = λ j o c f. b.stays j o c (a.stays j o c f);
  place = λ j o f.
      let once = a.place j o f in
      let twice = b.place j once.0 once.1 in (twice.0, twice.1, twice.2 ∙ once.2, twice.3 ∙ once.3);
  was_there = λ j o f r. a.was_there j o (b.was_there j o f r) r;
  fewer = λ taker cursor. omega (arith, a.fewer taker cursor, b.fewer taker cursor);
}

-- An unlocked row gets a status that does not rest in the book.
pub SameBook-replace :
    (locked : List ℕ) (o : Order) (s : Status) (os : List Order)
    → find order_key o.id os ≡ some o
    → contains o.id locked ≡ false
    → is_resting s ≡ false
    → SameBook locked os (replace order_key o.id (record o { status = s }) os)
unfolding ahead is_candidate
SameBook-replace locked o s os row free inactive = record {
  stays = λ j x c f. elim (Bool-cases (j == o.id)) [
    | inl same ↦ ground (arith, ==→eq j o.id same, c, free)
    | inr differ ↦
        let ne : j ≢ o.id = ground arith in
        find-replace_ne order_key j o.id (record o { status = s }) os ne refl ∙ f
  ];
  place = λ j x f. elim (Bool-cases (j == o.id)) [
    | inl same ↦ (
      record o { status = s },
      ground (
        arith,
        ==→eq j o.id same,
        find-replace_self order_key o.id (record o { status = s }) os o row refl,
      ),
      ground (arith, ==→eq j o.id same, row, f),
      ground (arith, ==→eq j o.id same, row, f),
    )
    | inr differ ↦
        let ne : j ≢ o.id = ground arith in
        (x, find-replace_ne order_key j o.id (record o { status = s }) os ne refl ∙ f, refl, refl)
  ];
  was_there = λ j x f r. elim (Bool-cases (j == o.id)) [
    | inl same ↦
        let now = find-replace_self order_key o.id (record o { status = s }) os o row refl in
        ground (arith, ==→eq j o.id same, now, f, r, inactive)
    | inr differ ↦
        let ne : j ≢ o.id = ground arith in
        sym (find-replace_ne order_key j o.id (record o { status = s }) os ne refl) ∙ f
  ];
  fewer = λ taker cursor. ground (
    arith,
    inactive,
    sum_by-replace order_key (λ (x : Order). if is_candidate taker cursor x then 1 else 0) o.id
        (record o { status = s }) os o row,
  );
}

pub find-append_old :
    (j : ℕ) (o x : Order) (os : List Order)
    → find order_key j os ≡ some x
    → find order_key j (os ++ o ∷ []) ≡ some x
unfolding find
find-append_old j o x [] f = cc
find-append_old j o x (y ∷ os) f = ground (arith, find-append_old j o x os)

some_injective : (o x : Order) → some o ≡ some x → o ≡ x
some_injective o x e = cc

find-append_cases :
    (j : ℕ) (o x : Order) (os : List Order)
    → find order_key j (os ++ o ∷ []) ≡ some x
    → (find order_key j os ≡ some x) ⊎ (o ≡ x)
unfolding find
find-append_cases j o x [] f = elim (Bool-cases (o.id == j)) [
  | inl same ↦ inr (some_injective o x (ground (arith, f, same)))
  | inr differs ↦ inl (ground (arith, f, differs))
]
find-append_cases j o x (y ∷ os) f = elim (Bool-cases (y.id == j)) [
  | inl same ↦ inl (ground (arith, f, same))
  | inr differs ↦ ground (arith, differs, f, find-append_cases j o x os)
]

-- A row is added that does not rest in the book.
pub SameBook-append :
    (locked : List ℕ) (o : Order) (os : List Order)
    → is_resting o.status ≡ false
    → SameBook locked os (os ++ o ∷ [])
unfolding ahead is_candidate
SameBook-append locked o os inactive = record {
  stays = λ j x c f. find-append_old j o x os f;
  place = λ j x f. (x, find-append_old j o x os f, refl, refl);
  was_there = λ j x f r. elim (find-append_cases j o x os f) [
    | inl old ↦ old
    | inr same ↦ ground (arith, same, r, inactive)
  ];
  fewer = λ taker cursor. ground (
    arith,
    inactive,
    sum_by-append_one (λ (x : Order). if is_candidate taker cursor x then 1 else 0) os o,
  );
}

-- A step of another transaction, as the one that waits sees it.
pub record Harmless (locked : List ℕ) (d d' : Db) : Type 0 where
  pub valid : (t t' : Order) → ValidBut t t' d → ValidBut t t' d'
  pub book : SameBook locked d.orders d'.orders
  pub usd_kept : usd_total d' ≡ usd_total d
  pub btc_kept : btc_total d' ≡ btc_total d

pub Harmless-refl : (locked : List ℕ) (d : Db) → Harmless locked d d
Harmless-refl locked d = record {
  valid = λ t t' v. v;
  book = SameBook-refl locked d.orders;
  usd_kept = refl;
  btc_kept = refl;
}

pub Harmless-trans :
    (locked : List ℕ) (d d' d'' : Db)
    → Harmless locked d d'
    → Harmless locked d' d''
    → Harmless locked d d''
Harmless-trans locked d d' d'' a b = record {
  valid = λ t t' v. b.valid t t' (a.valid t t' v);
  book = SameBook-trans locked d.orders d'.orders d''.orders a.book b.book;
  usd_kept = b.usd_kept ∙ a.usd_kept;
  btc_kept = b.btc_kept ∙ a.btc_kept;
}

pub Harmless-Quiet : (locked : List ℕ) (d d' : Db) → Harmless locked d d' → Quiet locked d d'
Harmless-Quiet locked d d' h = record {
  keeps_valid = h.valid;
  keeps_rows = h.book.stays;
  keeps_place =
      λ j o o' f g. let kept = h.book.place j o f in ground (arith, kept.1, kept.2, kept.3, g);
  keeps_ahead = h.book.fewer;
  rests_before = h.book.was_there;
  keeps_usd = h.usd_kept;
  keeps_btc = h.btc_kept;
}
