-- ===== src/UseCase/Report.antt =====
-- What a reconciliation reports: the sum that the query of the ledger gives, and the comparison.
use jungle_gaming.Prelude.{
  ℕ, suc, ◌↔◌, ◌≡◌, refl, sym, ap, ◌∙◌, arith, true, false, ◌==◌, Option, none, some, List, [], ◌∷◌,
  if◌then◌else◌, Bool-cases, inl, inr,
}
use jungle_gaming.Prelude.Bytes.{Bytes, is_empty, bytes_eq_refl}
use jungle_gaming.Prelude.Int.{ℤ, pos, ◌-ℤ◌, int_laws, eqb_ℤ_iff, -ℤ_parts, eq_of_parts}
use jungle_gaming.Prelude.Int64.{IsInt64, in_int64, in_int64_of_true}
use jungle_gaming.Shared.{Result, ok, err, Uuid, ◌>>=◌, >>=-eq-ok}
use jungle_gaming.Money.{Money, Currency, zero_money, sub_money, is_zero}
use jungle_gaming.Money.Sums.{combined, sub_money_lem}
use jungle_gaming.Repository.Rows.{EntryRow}
use jungle_gaming.Repository.Tables.{Db}
use jungle_gaming.Wallet.{Wallet}
use jungle_gaming.Repository.Wallets
use jungle_gaming.UseCase.Monad
use jungle_gaming.UseCase.Monad.{Env, World, lift, pure, execute_read_only, opened}
use jungle_gaming.UseCase.Reconcile.{ReconciliationResult, reconcile, compare_books}
use jungle_gaming.UseCase.Replay.{answered}
use jungle_gaming.Repository.Entries.{
  sum_entries, count_entries, min_currency, sum_by_wallet, summed,
}

-- A wallet with no entries sums to zero.
sum-count_zero :
    (id : Uuid) (es : List EntryRow) → count_entries id es ≡ 0 → sum_entries id es ≡ pos 0
unfolding sum_entries count_entries
sum-count_zero id [] h = refl
sum-count_zero id (e ∷ es) h = elim (Bool-cases (e.wallet_id == id)) [
  | inl same ↦ absurd (let x = rw same at h in omega arith)
  | inr different ↦ rw different (sum-count_zero id es (rw different at h))
]

-- No currency is found only where there are no entries.
count-no_currency :
    (id : Uuid) (es : List EntryRow) → min_currency id es ≡ none → count_entries id es ≡ 0
unfolding min_currency count_entries
count-no_currency id [] h = refl
count-no_currency id (e ∷ es) h = elim (Bool-cases (e.wallet_id == id)) [
  | inl same ↦ let x = rw same at h in cc
  | inr different ↦ rw different (count-no_currency id es (rw different at h))
]

summed_sound :
    (id : Uuid) (es : List EntryRow) (code : Option Bytes) (m : Money) (n : ℕ)
    → min_currency id es ≡ code
    → summed (sum_entries id es) (count_entries id es) code ≡ ok (m, n)
    → (n ≡ count_entries id es) × ((n == 0) ≡ false → m.minor ≡ sum_entries id es)
summed_sound id es none m n c h = let nothing = count-no_currency id es c in ground arith
summed_sound id es (some code) m n c h = ground arith

sum_by_wallet_sound :
    (id : Uuid) (db : Db) (m : Money) (n : ℕ)
    → (sum_by_wallet id db).0 ≡ ok (m, n)
    → IsInt64 (sum_entries id db.entries)
      × (n ≡ count_entries id db.entries)
      × ((n == 0) ≡ false → m.minor ≡ sum_entries id db.entries)
unfolding sum_by_wallet
sum_by_wallet_sound id db m n h = elim (Bool-cases (in_int64 (sum_entries id db.entries))) [
  | inl fits ↦
      let (same, sum) = summed_sound id db.entries _ m n refl (rw fits at h) in
      (in_int64_of_true _ fits, same, sum)
  | inr over ↦ let x = rw over at h in cc
]

-- The sum that ReconcileWallet compares.
calculated_lem :
    (id : Uuid) (db : Db) (m : Money) (n : ℕ) (c : Currency)
    → (sum_by_wallet id db).0 ≡ ok (m, n)
    → (if n == 0 then zero_money c else m).minor ≡ sum_entries id db.entries
calculated_lem id db m n c h =
    let (_, same, sum) = sum_by_wallet_sound id db m n h in
    elim (Bool-cases (n == 0)) [
      | inl none_found ↦
          rw none_found (sym (sum-count_zero id db.entries (sym same ∙ ground arith)))
      | inr found ↦ rw found (sum found)
    ]

abbrev pub report : Uuid → Money → Money → ℕ → Money → ReconciliationResult
report id stored calculated entries difference = record {
  wallet_id = id;
  stored_balance = stored;
  calculated_balance = calculated;
  difference = difference;
  consistent = is_zero difference;
  checked_entries = entries;
}

ok_injective : {A : Type 0} {a b : A} → ok a ≡ ok b → a ≡ b
ok_injective h = cc

combined-minor : (a b d : Money) (x : ℤ) → combined a b x ≡ ok d → d.minor ≡ x
combined-minor a b d x h = ground arith

no_difference : (a b : ℤ) → a -ℤ b ≡ pos 0 → a ≡ b
no_difference a b h = ground (arith, -ℤ_parts a b, eq_of_parts a b)

combined-same :
    (a b : Money) (x : ℤ)
    → is_empty a.currency ≡ false
    → b.currency ≡ a.currency
    → x ≡ pos 0
    → combined a b x ≡ ok (record { minor = pos 0; currency = a.currency })
combined-same a b x set same nothing = rw (same, set, bytes_eq_refl a.currency, nothing) refl

zero_difference :
    (d : Money) (stored sum : ℤ) → d.minor ≡ stored -ℤ sum → (is_zero d ≡ true) ↔ (stored ≡ sum)
zero_difference d stored sum h = (
  λ z. let e = (eqb_ℤ_iff d.minor (pos 0)).0 z in no_difference stored sum (sym h ∙ e),
  λ q. (eqb_ℤ_iff d.minor (pos 0)).1 (h ∙ rw q (omega int_laws)),
)

-- What a report says of the parts that it is made of.
read_off :
    (id : Uuid) (stored calculated d : Money) (n count : ℕ) (sum : ℤ) (r : ReconciliationResult)
    → report id stored calculated n d ≡ r
    → calculated.minor ≡ sum
    → n ≡ count
    → d.minor ≡ stored.minor -ℤ sum
    → (r.stored_balance ≡ stored)
      × (r.calculated_balance.minor ≡ sum)
      × (r.difference.minor ≡ stored.minor -ℤ sum)
      × (r.checked_entries ≡ count)
      × ((r.consistent ≡ true) ↔ (stored.minor ≡ sum))
read_off id stored calculated d n count sum r same c k e =
    rw (← same) (refl, c, e, k, zero_difference d stored.minor sum e)

lift-pure :
    {A B : Type 0} (r : Result A) (f : A → B) (w : World)
    → (Monad.◌>>=◌ (lift r) (λ a. pure (f a)) w).0 ≡ (r >>= λ a. ok (f a))
lift-pure (ok a) f w = refl
lift-pure (err e) f w = refl

module _ (env : Env) (id : Uuid) (w : World) (target : Wallet) (m : Money) (n : ℕ)
    (works : (k : ℕ) → env.fault k ≡ none) (found : (Wallets.find_by_id id w.db).0 ≡ ok target)
    (summed_up : (sum_by_wallet id w.db).0 ≡ ok (m, n)) where
  reconcile_run : (reconcile env id w).0 ≡ (
      sub_money target.balance (if n == 0 then zero_money target.currency else m) >>= λ difference.
      ok (report id target.balance (if n == 0 then zero_money target.currency else m) n difference))
  unfolding reconcile compare_books execute_read_only Wallets.find_by_id sum_by_wallet
  reconcile_run = rw (works w.calls) (
      rw (answered env (Wallets.find_by_id id) (opened w) (works (suc w.calls)) refl, found)
        (rw
          (
            answered env (sum_by_wallet id) (opened (opened w)) (works (suc (suc w.calls))) refl,
            summed_up,
          )
          (lift-pure (sub_money target.balance _) _ _)))

  abbrev pub calculated : Money
  calculated = if n == 0 then zero_money target.currency else m

  difference_lem :
      IsInt64 target.balance.minor
      → sub_money target.balance calculated
        ≡ combined target.balance calculated (target.balance.minor -ℤ sum_entries id w.db.entries)
  difference_lem fits =
      let sum = calculated_lem id w.db m n target.currency summed_up in
      let (small, _, _) = sum_by_wallet_sound id w.db m n summed_up in
      sub_money_lem target.balance calculated fits (rw sum small)
      ∙ ap (λ (x : ℤ). combined target.balance calculated (target.balance.minor -ℤ x)) sum

  -- With a database that answers both queries, a reconciliation of a wallet whose balance is an int64
  -- that returns a report reports the stored balance, the sum of the wallet's entries, their exact
  -- difference and the number of the entries, and calls the wallet consistent exactly if the balance is
  -- the sum.
  pub reconcile_decides :
      (r : ReconciliationResult)
      → IsInt64 target.balance.minor
      → (reconcile env id w).0 ≡ ok r
      → (r.stored_balance ≡ target.balance)
        × (r.calculated_balance.minor ≡ sum_entries id w.db.entries)
        × (r.difference.minor ≡ target.balance.minor -ℤ sum_entries id w.db.entries)
        × (r.checked_entries ≡ count_entries id w.db.entries)
        × ((r.consistent ≡ true) ↔ (target.balance.minor ≡ sum_entries id w.db.entries))
  reconcile_decides r fits h =
      let (d, hd, e) = >>=-eq-ok _ _ (sym (reconcile_run) ∙ h) in
      let exact = sym (difference_lem fits) ∙ hd in
      let (_, count, _) = sum_by_wallet_sound id w.db m n summed_up in
      read_off id target.balance calculated d n (count_entries id w.db.entries)
        (sum_entries id w.db.entries) r (ok_injective e)
        (calculated_lem id w.db m n target.currency summed_up) count
        (combined-minor target.balance calculated d _ exact)

  -- With a database that answers both queries, the reconciliation of a wallet whose int64 balance is the
  -- sum of its entries, in one currency that is set, returns a report: consistent, with a difference of
  -- zero.
  pub reconcile_agrees :
      IsInt64 target.balance.minor
      → target.balance.minor ≡ sum_entries id w.db.entries
      → is_empty target.balance.currency ≡ false
      → calculated.currency ≡ target.balance.currency
      → (reconcile env id w).0
        ≡ ok (
            report id target.balance calculated n
              (record { minor = pos 0; currency = target.balance.currency }))
  reconcile_agrees fits agree set same =
      let nothing : target.balance.minor -ℤ sum_entries id w.db.entries ≡ pos 0 =
        rw agree (omega int_laws) in
      let zero = combined-same target.balance calculated _ set same nothing in
      reconcile_run ∙ rw (difference_lem fits ∙ zero) refl
