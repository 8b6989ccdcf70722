-- ===== src/Buffer/Withdrawals.antt =====
-- `WithdrawalHandler` of bin/vendor/src/buffer/withdrawals.rs. Time is in seconds.
pub mod Fresh
mod Tests
use Prim.Native.String.{String}
use vendor.Base.{
  ℕ, ◌+◌, ◌-◌, ◌%◌, List, [], ◌∷◌, Option, none, some, Bool, true, false, ◌&&◌, ◌||◌, ltb, leb,
  if◌then◌else◌, map, filter, length, unwrap_or,
}
use vendor.Base.Map.{Map, string_eq, lookup, insert, remove}
use vendor.Uint256.{Uint256, u64_mod}
use vendor.Amount.{checked_add}

pub data WithdrawalStatus : Type 0 where
  pending : WithdrawalStatus
  processing : WithdrawalStatus
  completed : WithdrawalStatus
  failed : WithdrawalStatus
  permanently_failed : WithdrawalStatus

pub record PendingWithdrawal : Type 0 where
  pub id : String
  pub user : String
  pub amount : ℕ
  pub queued_at : ℕ
  pub status : WithdrawalStatus
  pub correlation_id : Option String
  pub retry_count : ℕ
  pub last_error : Option String

pub record WithdrawalResult : Type 0 where
  pub id : String
  pub user : String
  pub amount : ℕ
  pub status : WithdrawalStatus
  pub tx_hash : Option String
  pub error : Option String

pub record WithdrawalHandler : Type 0 where
  pub withdrawals : Map String PendingWithdrawal
  pub timeout : ℕ
  pub max_retries : ℕ
  pub next_id : ℕ

unfoldable pub new_handler : (timeout : ℕ) → WithdrawalHandler
new_handler timeout = record { withdrawals = []; timeout = timeout; max_retries = 3; next_id = 1 }

abbrev pub is_pending : WithdrawalStatus → Bool
is_pending pending = true
is_pending _ = false

abbrev pub is_processing : WithdrawalStatus → Bool
is_processing processing = true
is_processing _ = false

abbrev pub is_ready : WithdrawalStatus → Bool
is_ready pending = true
is_ready failed = true
is_ready _ = false

abbrev pub values : Map String PendingWithdrawal → List PendingWithdrawal
values m = map (λ (e : String × PendingWithdrawal). e.1) m

unfoldable pub get_pending : WithdrawalHandler → List PendingWithdrawal
get_pending h = filter (λ w. is_ready w.status) (values h.withdrawals)

-- `get_mut(id)`, and what is written to it.
abbrev pub update :
    String
    → (PendingWithdrawal → PendingWithdrawal)
    → WithdrawalHandler
    → Option PendingWithdrawal × WithdrawalHandler
update id f h = elim (lookup id h.withdrawals) [
  | none ↦ (none, h)
  | some w ↦ (some (f w), record h { withdrawals = insert id (f w) h.withdrawals })
]

unfoldable pub mark_processing :
    String → WithdrawalHandler → Option PendingWithdrawal × WithdrawalHandler
mark_processing id = update id (λ w. record w { status = processing })

abbrev pub result_of : WithdrawalStatus → PendingWithdrawal → WithdrawalResult
result_of status w = record {
  id = w.id;
  user = w.user;
  amount = w.amount;
  status = status;
  tx_hash = none;
  error = none;
}

unfoldable pub mark_completed :
    String → WithdrawalHandler → Option WithdrawalResult × WithdrawalHandler
mark_completed id h = elim (lookup id h.withdrawals) [
  | none ↦ (none, h)
  | some w ↦ (some (result_of completed w), record h { withdrawals = remove id h.withdrawals })
]

abbrev pub fail : (max_retries : ℕ) → String → PendingWithdrawal → PendingWithdrawal
fail max_retries error w =
    let retry_count = (w.retry_count + 1) % 4294967296 in
    record w {
      retry_count = retry_count;
      last_error = some error;
      status = if leb max_retries retry_count then permanently_failed else failed;
    }

unfoldable pub mark_failed :
    String → String → WithdrawalHandler → Option PendingWithdrawal × WithdrawalHandler
mark_failed id error h = update id (fail h.max_retries error) h

unfoldable pub process_loop :
    List String → WithdrawalHandler → List WithdrawalResult × WithdrawalHandler
unfolding mark_processing
process_loop [] h = ([], h)
process_loop (id ∷ ids) h =
    let (marked, h') = mark_processing id h in
    let (results, h'') = process_loop ids h' in
    (elim marked [ none ↦ results | some w ↦ result_of processing w ∷ results ], h'')

unfoldable pub process_pending_withdrawals :
    WithdrawalHandler → List WithdrawalResult × WithdrawalHandler
unfolding get_pending process_loop
process_pending_withdrawals h =
    process_loop (map (λ (w : PendingWithdrawal). w.id) (get_pending h)) h

unfoldable pub pending_count : WithdrawalHandler → ℕ
pending_count h = length (filter (λ w. is_pending w.status) (values h.withdrawals))

unfoldable pub get_timed_out : (now : ℕ) → WithdrawalHandler → List PendingWithdrawal
get_timed_out now h =
    filter (λ w. is_processing w.status && ltb h.timeout (now - w.queued_at)) (values h.withdrawals)

module _ ⦃u : Uint256⦄ where
  -- The fold: an amount that would overflow is left out.
  abbrev pub total_of : List PendingWithdrawal → (total : ℕ) → ℕ
  total_of [] total = total
  total_of (w ∷ ws) total = total_of ws (unwrap_or (checked_add total w.amount) total)

  unfoldable pub total_pending_amount : WithdrawalHandler → ℕ
  total_pending_amount h =
      total_of (filter (λ w. is_pending w.status || is_processing w.status) (values h.withdrawals))
        0

-- `id_of n` is the text `W-n`, and `number_of` reads the number of such an id, a `u64`.
module _ (id_of : ℕ → String) where
  unfoldable pub queue_withdrawal :
      (now : ℕ)
      → (user : String) → (amount : ℕ) → (correlation_id : Option String) → WithdrawalHandler
      → String × WithdrawalHandler
  queue_withdrawal now user amount correlation_id h =
      let id = id_of h.next_id in
      let withdrawal : PendingWithdrawal = record {
        id = id;
        user = user;
        amount = amount;
        queued_at = now;
        status = pending;
        correlation_id = correlation_id;
        retry_count = 0;
        last_error = none;
      } in
      (
        id,
        record h {
          withdrawals = insert id withdrawal h.withdrawals;
          next_id = (h.next_id + 1) % u64_mod;
        },
      )

module _ (number_of : String → Option ℕ) where
  abbrev pub larger_id : Option ℕ → ℕ → ℕ
  larger_id none max_id = max_id
  larger_id (some num) max_id = if ltb max_id num then num else max_id

  unfoldable pub restore_loop :
      List PendingWithdrawal → Map String PendingWithdrawal × ℕ → Map String PendingWithdrawal × ℕ
  restore_loop [] found = found
  restore_loop (w ∷ ws) (m, max_id) =
      restore_loop ws (insert w.id w m, larger_id (number_of w.id) max_id)

  unfoldable pub restore : List PendingWithdrawal → WithdrawalHandler → WithdrawalHandler
  unfolding restore_loop
  restore saved h =
      let (m, max_id) = restore_loop saved (h.withdrawals, 0) in
      record h { withdrawals = m; next_id = (max_id + 1) % u64_mod }
