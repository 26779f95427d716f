-- ===== src/Repository/Scanned.antt =====
-- toDomain of repository/transaction.go: what a transaction that is read has of its row.
use jungle_gaming.Prelude.{◌≡◌, sym, ap, ◌∙◌, arith}
use jungle_gaming.Shared.{ok, >>=-eq-ok, Uuid}
use jungle_gaming.Money.{parse_currency}
use jungle_gaming.Wagering.Kind.{parse_kind}
use jungle_gaming.Wagering.Status.{Status, parse_status}
use jungle_gaming.Wagering.Transaction.{Transaction}
use jungle_gaming.Wagering.Transaction.Rehydrate.{State}
use jungle_gaming.Wagering.Transaction.Stored.{rehydrate_sound}
use jungle_gaming.Repository.Rows.{TransactionRow, scan_id, scan_reference, scan_result, to_domain}

pub record IsScanned (row : TransactionRow) (t : Transaction) : Type 0 where
  pub name : t.id ≡ row.id
  pub status : parse_status row.status ≡ ok t.status
  pub amount : t.amount.minor ≡ row.amount_minor
  pub attempts : t.attempt_count ≡ row.attempt_count
  pub retry : t.next_retry_at ≡ row.next_retry_at

same_id : (x y : Uuid) → scan_id x ≡ ok y → y ≡ x
unfolding scan_id
same_id x y h = ground arith

pub to_domain-IsScanned :
    (row : TransactionRow) (t : Transaction) → to_domain row ≡ ok t → IsScanned row t
unfolding to_domain
to_domain-IsScanned row t e =
    let (id, named, e1) = >>=-eq-ok (scan_id row.id) _ e in
    let (wallet, _, e2) = >>=-eq-ok (scan_id row.wallet_id) _ e1 in
    let (player, _, e3) = >>=-eq-ok (scan_id row.player_id) _ e2 in
    let (kind, _, e4) = >>=-eq-ok (parse_kind row.kind) _ e3 in
    let (status, parsed, e5) = >>=-eq-ok (parse_status row.status) _ e4 in
    let (currency, _, e6) = >>=-eq-ok (parse_currency row.amount_currency) _ e5 in
    let (reference, _, e7) = >>=-eq-ok (scan_reference row.reference_id) _ e6 in
    let (result, _, e8) =
      >>=-eq-ok
        (scan_result row.result_balance_minor row.result_balance_currency row.result_wallet_version)
        _ e7 in
    let (same, _) = rehydrate_sound _ t e8 in
    record {
      name = ap (λ (x : State). x.id) same ∙ same_id row.id id named;
      status = parsed ∙ ap (λ (s : Status). ok s) (sym (ap (λ (x : State). x.status) same));
      amount = ap (λ (x : State). x.amount.minor) same;
      attempts = ap (λ (x : State). x.attempt_count) same;
      retry = ap (λ (x : State). x.next_retry_at) same;
    }
