-- ===== src/Wallet/Lifecycle.antt =====
-- Opening a wallet, rebuilding it from the stored state, and undoing a movement.
use jungle_gaming.Prelude.{◌≡◌, ◌≢◌, refl, arith, true, false, ◌∙◌}
use jungle_gaming.Prelude.Bytes.{bytes_eq, bytes_eq_refl}
use jungle_gaming.Prelude.Int.{pos, ◌-ℤ◌, ◌<ℤ◌, ltb_ℤ, int_laws, +ℤ_parts}
use jungle_gaming.Prelude.Int64.{IsInt64, max_int64}
use jungle_gaming.Shared.{ok, Time, time_is_zero, Uuid}
use jungle_gaming.Money.{Money, currency_is_zero, is_positive}
use jungle_gaming.Wallet.{Wallet, Movement, State, open_wallet, rehydrate, credit, debit}
use jungle_gaming.Wallet.Movements.{IsValid, debit_lem, credit-IsValid, credit-IsReported, moved}

-- A wallet that Open returns for an int64 balance is valid, holds the initial balance at version 1, and belongs to the
-- player.
pub open_wallet-IsValid :
    (id player_id : Uuid) (initial : Money) (now : Time) (w : Wallet)
    → IsInt64 initial.minor
    → open_wallet id player_id initial now ≡ ok w
    → IsValid w
      × (w.balance ≡ initial)
      × (w.version ≡ pos 1)
      × (w.id ≡ id)
      × (w.player_id ≡ player_id)
unfolding open_wallet
open_wallet-IsValid id player_id initial now w h e = ground arith

-- The stored state of a wallet.
abbrev pub state_of : Wallet → State
state_of w = record {
  id = w.id;
  player_id = w.player_id;
  balance = w.balance;
  version = w.version;
  created_at = w.created_at;
  updated_at = w.updated_at;
}

-- Rehydrate gives every valid wallet back from its state.
pub rehydrate-state_of : (w : Wallet) → IsValid w → rehydrate (state_of w) ≡ ok w
unfolding rehydrate
rehydrate-state_of w v = ground arith

-- Rehydrate of a state with an int64 balance returns valid wallets only, and they hold what the state
-- says.
pub rehydrate-IsValid :
    (s : State) (w : Wallet)
    → IsInt64 s.balance.minor
    → rehydrate s ≡ ok w
    → IsValid w × (state_of w ≡ s)
unfolding rehydrate
rehydrate-IsValid s w h e = ground arith

-- Debiting what a valid wallet has just been credited succeeds and brings back the balance, for an int64
-- amount, a version below the largest int64 and an instant that is set.
pub debit-credit :
    (w : Wallet) (amount : Money) (now later : Time) (w' : Wallet) (m : Movement)
    → IsValid w
    → IsInt64 amount.minor
    → w.version <ℤ max_int64
    → later ≢ 0
    → credit w amount now ≡ ok (w', m)
    → debit w' amount later ≡ ok (moved w' amount w.balance.minor later)
debit-credit w amount now later w' m v h room set e =
    let (r, sum) = credit-IsReported w amount now v h w' m e in
    let v' = credit-IsValid w amount now v h w' m room e in
    let back : w'.balance.minor -ℤ amount.minor ≡ w.balance.minor = rw sum (omega int_laws) in
    let matching : bytes_eq amount.currency w'.currency ≡ true =
      rw (r.same_currency, r.currency_checked) (bytes_eq_refl w.currency) in
    let covered : ltb_ℤ w'.balance.minor amount.minor ≡ false =
      rw sum (ground (arith, +ℤ_parts w.balance.minor amount.minor, v.balance_nonneg)) in
    let named : currency_is_zero amount.currency ≡ false = rw r.currency_checked v.currency_set in
    let positive : is_positive amount ≡ true = ground (arith, r.positive) in
    let on_time : time_is_zero later ≡ false = ground arith in
    debit_lem w' amount later v' h ∙ rw (named, matching, positive, on_time, covered, back) refl
